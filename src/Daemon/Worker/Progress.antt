-- ===== src/Daemon/Worker/Progress.antt =====
-- internal/daemon/worker.go: stored work gets its turn.
use fizzy_connector.Base.{
  ℕ, ◌+◌, ◌-◌, ◌<◌, ◌≡◌, refl, sym, ap, ◌∙◌, inl, inr, Bool, true, false, Bool-cases, List, ◌∷◌,
  ◌++◌, arith, ◌==◌, if◌then◌else◌, In, ltb,
}
use fizzy_connector.Daemon.Worker.{
  Place, looping, waiting, working, resting, leaving, Worker, Crew, at, is_idle, look, finish, Step,
  look_step, acquire_step, finish_step, rest_step, Reach, first_crew,
}
use fizzy_connector.Daemon.Worker.Counts.{total, total-append, is_working, is_leaving, stays}
use fizzy_connector.Daemon.Worker.Invariant.{Step-IsSound, Reach-IsSound, first_crew-IsSound}
use fizzy_connector.Daemon.Worker.Due.{IsDue, Runs, stand, go, Later, along, found, unlock, staying}

abbrev is_waiting : Place → ℕ
is_waiting waiting = 1
is_waiting looping = 0
is_waiting working = 0
is_waiting resting = 0
is_waiting leaving = 0

waiting_place : (p : Place) → 0 < is_waiting p → p ≡ waiting
waiting_place waiting h = refl
waiting_place looping h = absurd (omega arith)
waiting_place leaving h = absurd (omega arith)
waiting_place working h = absurd (omega arith)
waiting_place resting h = absurd (omega arith)

working_place : (p : Place) → 0 < is_working p → p ≡ working
working_place working h = refl
working_place looping h = absurd (omega arith)
working_place leaving h = absurd (omega arith)
working_place waiting h = absurd (omega arith)
working_place resting h = absurd (omega arith)

working_lem : (w : Worker) → 0 < is_working w.place → w ≡ at w.card working
working_lem w h = ap (at w.card) (working_place w.place h)

-- What a count for one card counts is at that card.
card_of : (n : ℕ) (w : Worker) (x : ℕ) → 0 < (if w.card == n then x else 0) → (w.card ≡ n) × (0 < x)
card_of n w x h = ground arith

card_lem : {n : ℕ} (w : Worker) → 0 < stays n w → w ≡ at n w.place
card_lem {n} w h = ap (λ c. at c w.place) (card_of n w _ h).0

waiting_lem :
    (n : ℕ) (w : Worker) → 0 < (if w.card == n then is_waiting w.place else 0) → w ≡ at n waiting
waiting_lem n w h =
    let (card, pos) = card_of n w (is_waiting w.place) h in
    ap (λ c. at c w.place) card ∙ ap (at n) (waiting_place w.place pos)

-- A worker of the card at the select for a slot, or in its turn.
abbrev waits : ℕ → Worker → ℕ
waits n w = if w.card == n then is_waiting w.place else 0

abbrev pub works : ℕ → Worker → ℕ
works n w = if w.card == n then is_working w.place else 0

-- A move of a worker that keeps the flags keeps the card due.
moved :
    (k n : ℕ) (s : Crew) (workers' : List Worker) (slots' : ℕ)
    → IsDue k n s
    → Step k s (record s { workers = workers'; slots = slots' })
    → IsDue k n (record s { workers = workers'; slots = slots' })
moved k n s workers' slots' d st = record {
  sound = Step-IsSound k st d.sound;
  work = d.work;
  not_ended = d.not_ended;
  not_draining = d.not_draining;
  readable = d.readable;
}

module _ (k n : ℕ) where
  -- One that loops looks at the card, and finds the work.
  look_lem :
      (s : Crew) (before after : List Worker)
      → IsDue k n s
      → s.locked ≡ false
      → s.workers ≡ before ++ at n looping ∷ after
      → Later k n s (λ t. 0 < total (waits n) t.workers + total (works n) t.workers)
  look_lem s before after d free e =
      let t : Crew = record s { workers = before ++ at n waiting ∷ after } in
      let looks : look n true before after s ≡ t =
        unfold look is_idle in ground (arith, d.work, d.not_ended, d.not_draining) in
      let st : Step k s t = look_step n true before after e free (sym looks) in
      (
        t,
        go stand st refl,
        moved k n s _ _ d st,
        ground (arith, total-append (waits n) before after (at n waiting)),
      )

  stays_lem :
      (s : Crew) (before after : List Worker) (p : Place)
      → IsDue k n s
      → s.locked ≡ false
      → s.workers ≡ before ++ at n p ∷ after
      → 0 < 1 - is_leaving p
      → Later k n s (λ t. 0 < total (waits n) t.workers + total (works n) t.workers)
  stays_lem s before after looping d free e h = look_lem s before after d free e
  stays_lem s before after waiting d free e h = (
    s,
    stand,
    d,
    ground (arith, ap (total (waits n)) e, total-append (waits n) before after (at n waiting)),
  )
  stays_lem s before after working d free e h = (
    s,
    stand,
    d,
    ground (arith, ap (total (works n)) e, total-append (works n) before after (at n working)),
  )
  stays_lem s before after leaving d free e h = absurd (omega arith)
  stays_lem s before after resting d free e h =
      let t : Crew = record s { workers = before ++ at n looping ∷ after } in
      let st : Step k s t = rest_step n before after e refl in
      let (u, r, d', p) = look_lem t before after (moved k n s _ _ d st) free refl in
      (u, along k (go stand st refl) r, d', p)

  reaches_slot :
      (s : Crew)
      → IsDue k n s
      → s.locked ≡ false
      → 0 < total (stays n) s.workers
      → Later k n s (λ t. 0 < total (waits n) t.workers + total (works n) t.workers)
  reaches_slot s d free h =
      let (before, after, w, e, pos) = found (stays n) s.workers h in
      stays_lem s before after w.place d free (e ∙ ap (λ x. before ++ x ∷ after) (card_lem w pos))
        (ground arith)

  -- With a slot that is free, one that waits starts its turn.
  acquire_lem :
      (s : Crew)
      → IsDue k n s
      → s.slots < k
      → 0 < total (waits n) s.workers
      → Later k n s (λ t. 0 < total (works n) t.workers)
  acquire_lem s d room h =
      let (before, after, w, e, pos) = found (waits n) s.workers h in
      let t : Crew = record s { slots = s.slots + 1; workers = before ++ at n working ∷ after } in
      let st : Step k s t =
        acquire_step n before after (e ∙ ap (λ x. before ++ x ∷ after) (waiting_lem n w pos)) room
          refl in
      (
        t,
        go stand st refl,
        moved k n s _ _ d st,
        ground (arith, total-append (works n) before after (at n working)),
      )

  -- The end of a turn on any card frees a slot.
  finished :
      (s : Crew) (m : ℕ) (before after : List Worker)
      → IsDue k n s
      → s.workers ≡ before ++ at m working ∷ after
      → 0 < total (waits n) s.workers
      → Later k n s (λ t. (t.slots < k) × (0 < total (waits n) t.workers))
  finished s m before after d e h =
      let t : Crew = finish m (s.work m) false before after s in
      let st : Step k s t = finish_step m (s.work m) false before after e refl in
      let busy = total-append (λ x. is_working x.place) before after (at m working) in
      (
        t,
        go stand st refl,
        record {
          sound = Step-IsSound k st d.sound;
          work = unfold finish in ground (arith, d.work);
          not_ended = unfold finish in d.not_ended;
          not_draining = unfold finish in d.not_draining;
          readable = unfold finish in d.readable;
        },
        (
          unfold finish in
              ground
                (arith, d.sound.used, d.sound.within, ap (total (λ x. is_working x.place)) e, busy),
          unfold finish in
              ground (
                arith,
                ap (total (waits n)) e,
                total-append (waits n) before after (at m working),
                total-append (waits n) before after (at m looping),
              ),
        ),
      )

  -- Otherwise some turn ends first.
  slot_lem :
      (s : Crew)
      → IsDue k n s
      → 0 < k
      → 0 < total (waits n) s.workers
      → Later k n s (λ t. 0 < total (works n) t.workers)
  slot_lem s d some_slot h = elim (Bool-cases (ltb s.slots k)) [
    | inl room ↦ acquire_lem s d (ground arith) h
    | inr full ↦
        let (before, after, w, e, pos) =
          found (λ x. is_working x.place) s.workers (ground (arith, d.sound.used)) in
        let at_work = e ∙ ap (λ x. before ++ x ∷ after) (working_lem w pos) in
        let (t, r, d', (room, waiter)) = finished s w.card before after d at_work h in
        let (u, r', d'', p) = acquire_lem t d' room waiter in (u, along k r r', d'', p)
  ]

  turn_lem :
      (s : Crew)
      → IsDue k n s
      → 0 < k
      → 0 < total (waits n) s.workers + total (works n) s.workers
      → Later k n s (λ t. 0 < total (works n) t.workers)
  turn_lem s d some_slot h = elim (Bool-cases (ltb 0 (total (works n) s.workers))) [
    | inl e ↦ (s, stand, d, ground arith)
    | inr e ↦ slot_lem s d some_slot (ground arith)
  ]

-- From a start that kicks each card with work, with at least one slot: whatever the goroutines did so
-- far, a card that has work, in a daemon that neither drains nor ends and that read the state of the
-- card when it looked last, can get its turn: some steps of the goroutines, in which no work arrives for
-- any card and the daemon neither drains nor ends, lead to a state in which a worker of that card is in its turn.
pub Reach-turn :
    (k : ℕ) (work : ℕ → Bool) (owed : List ℕ) {s : Crew} (n : ℕ)
    → 0 < k
    → ((m : ℕ) → work m ≡ true → In m owed)
    → Reach k (first_crew work owed) s
    → s.work n ≡ true
    → s.ended ≡ false
    → s.draining ≡ false
    → s.gave_up n ≡ false
    → (t : Crew) × Runs k s t × (0 < total (works n) t.workers)
Reach-turn k work owed {s} n some_slot all_owed r has_work e1 e2 e3 =
    let d : IsDue k n s = record {
      sound = Reach-IsSound k (first_crew-IsSound k work owed all_owed) r;
      work = has_work;
      not_ended = e1;
      not_draining = e2;
      readable = e3;
    } in
    let (t1, r1, d1, free) = unlock k n s d in
    let (t2, r2, d2, (free2, stay)) = staying k n t1 d1 free in
    let (t3, r3, d3, reached) = reaches_slot k n t2 d2 free2 stay in
    let (t, r4, _, p) = turn_lem k n t3 d3 some_slot reached in
    (t, along k (along k (along k r1 r2) r3) r4, p)
