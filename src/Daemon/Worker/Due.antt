-- ===== src/Daemon/Worker/Due.antt =====
-- internal/daemon/worker.go: a card whose work is stored and that nothing stops gets a worker.
use fizzy_connector.Base.{
  ℕ, ◌<◌, ◌≡◌, refl, ap, ◌∙◌, inl, inr, Bool, true, false, Bool-cases, List, [], ◌∷◌, ◌++◌, arith,
  ◌==◌, ltb,
}
use fizzy_connector.Daemon.Worker.{
  Place, looping, waiting, working, resting, leaving, Worker, Crew, at, kick, leave, Step,
  arrive_step, kick_step, look_step, leave_step, acquire_step, abort_step, finish_step, rest_step,
  drain_step, end_step,
}
use fizzy_connector.Daemon.Worker.Counts.{total, is_leaving, stays, owes, stays-or-leaves}
use fizzy_connector.Daemon.Worker.Invariant.{IsSound, Step-IsSound}

-- A worker that a count counts.
pub found :
    (f : Worker → ℕ) (ws : List Worker)
    → 0 < total f ws
    → (before after : List Worker) × (w : Worker) × (ws ≡ before ++ w ∷ after) × (0 < f w)
unfolding total
found f [] h = absurd (omega arith)
found f (w ∷ ws) h = elim (Bool-cases (ltb 0 (f w))) [
  | inl e ↦ ([], ws, w, refl, ground arith)
  | inr e ↦
      let (before, after, x, same_list, pos) = found f ws (ground arith) in
      (w ∷ before, after, x, ap (◌∷◌ w) same_list, pos)
]

pub found_owed :
    (n : ℕ) (ms : List ℕ) → 0 < owes n ms → (before after : List ℕ) × (ms ≡ before ++ n ∷ after)
unfolding owes
found_owed n [] h = absurd (omega arith)
found_owed n (m ∷ ms) h = elim (Bool-cases (m == n)) [
  | inl e ↦ ([], ms, ap (λ x. x ∷ ms) (ground arith))
  | inr e ↦
      let (before, after, same_list) = found_owed n ms (ground arith) in
      (m ∷ before, after, ap (◌∷◌ m) same_list)
]

-- A step that needs nobody from outside: no work arrives, and the daemon neither drains nor ends.
abbrev pub is_own : {k : ℕ} {s t : Crew} → Step k s t → Bool
is_own (arrive_step n e) = false
is_own (kick_step n before after e free e') = true
is_own (look_step n readable before after e free e') = true
is_own (leave_step n before after e e') = true
is_own (acquire_step n before after e room e') = true
is_own (abort_step n before after e ended e') = true
is_own (finish_step n left fails before after e e') = true
is_own (rest_step n before after e e') = true
is_own (drain_step e) = false
is_own (end_step e) = false

-- What the goroutines reach by such steps alone.
pub data Runs (k : ℕ) (s : Crew) : Crew → Type 0 where
  stand : Runs k s s
  go : {t u : Crew} → Runs k s t → (st : Step k t u) → is_own st ≡ true → Runs k s u

-- A state in which card `n` has work and nothing stops its turn.
pub record IsDue (k n : ℕ) (s : Crew) : Type 0 where
  pub sound : IsSound k s
  pub work : s.work n ≡ true
  pub not_ended : s.ended ≡ false
  pub not_draining : s.draining ≡ false
  pub readable : s.gave_up n ≡ false

pub along : (k : ℕ) {s t u : Crew} → Runs k s t → Runs k t u → Runs k s u
along k r stand = r
along k r (go r' st own) = go (along k r r') st own

-- What the steps reach: a later state that is due, with a property.
abbrev pub Later : (k n : ℕ) → Crew → (Crew → Type 0) → Type 0
Later k n s P = (t : Crew) × Runs k s t × IsDue k n t × P t

leaving_place : (p : Place) → 0 < is_leaving p → p ≡ leaving
leaving_place leaving h = refl
leaving_place looping h = absurd (omega arith)
leaving_place waiting h = absurd (omega arith)
leaving_place working h = absurd (omega arith)
leaving_place resting h = absurd (omega arith)

leaving_lem : (w : Worker) → 0 < is_leaving w.place → w ≡ at w.card leaving
leaving_lem w h = ap (at w.card) (leaving_place w.place h)

unlocked :
    (k n m : ℕ) (before after : List Worker) (s : Crew)
    → IsDue k n s
    → Step k s (leave m before after s)
    → IsDue k n (leave m before after s)
unfolding leave
unlocked k n m before after s d st = record {
  sound = Step-IsSound k st d.sound;
  work = d.work;
  not_ended = d.not_ended;
  not_draining = d.not_draining;
  readable = d.readable;
}

kicked :
    (k n : ℕ) (before after : List ℕ) (s : Crew)
    → IsDue k n s
    → Step k s (kick n (record s { owed = before ++ after }))
    → IsDue k n (kick n (record s { owed = before ++ after }))
unfolding kick
kicked k n before after s d st = record {
  sound = Step-IsSound k st d.sound;
  work = ground (arith, d.work);
  not_ended = ground (arith, d.not_ended);
  not_draining = ground (arith, d.not_draining);
  readable = ground (arith);
}

kick-stays :
    (n : ℕ) (before after : List ℕ) (s : Crew)
    → s.running n ≡ false
    → 0 < total (stays n) (kick n (record s { owed = before ++ after })).workers
unfolding kick total
kick-stays n before after s idle = rw idle (ground arith)

-- The lock gets free.
pub unlock : (k n : ℕ) (s : Crew) → IsDue k n s → Later k n s (λ t. t.locked ≡ false)
unlock k n s d = elim (Bool-cases s.locked) [
  | inr free ↦ (s, stand, d, free)
  | inl held ↦
      let (before, after, w, same_workers, pos) =
        found (λ x. is_leaving x.place) s.workers (ground (arith, d.sound.mutex)) in
      let st : Step k s (leave w.card before after s) =
        leave_step w.card before after
          (same_workers ∙ ap (λ x. before ++ x ∷ after) (leaving_lem w pos)) refl in
      (
        leave w.card before after s,
        go stand st refl,
        unlocked k n w.card before after s d st,
        unfold leave in refl,
      )
]

-- A card with work has a worker that stays, now or after its kick.
pub staying :
    (k n : ℕ) (s : Crew)
    → IsDue k n s
    → s.locked ≡ false
    → Later k n s (λ t. (t.locked ≡ false) × (0 < total (stays n) t.workers))
staying k n s d free = elim (Bool-cases (ltb 0 (total (stays n) s.workers))) [
  | inl e ↦ (s, stand, d, (free, ground arith))
  | inr e ↦
      let (before, after, same_owed) =
        found_owed n s.owed (ground (arith, d.sound.cared n d.work)) in
      let st : Step k s (kick n (record s { owed = before ++ after })) =
        kick_step n before after same_owed free refl in
      let idle : s.running n ≡ false =
        ground (arith, d.sound.one n, d.sound.mutex, stays-or-leaves n s.workers) in
      (
        kick n (record s { owed = before ++ after }),
        go stand st refl,
        kicked k n before after s d st,
        (unfold kick in ground arith, kick-stays n before after s idle),
      )
]
