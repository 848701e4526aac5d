-- ===== src/Daemon/Worker/Invariant.antt =====
-- internal/daemon/worker.go: one worker for a card, no more turns than slots, and no lost wake-up.
use fizzy_connector.Base.{
  ℕ, ◌+◌, ◌-◌, ◌<◌, ◌≤◌, ◌≡◌, refl, sym, ap, ◌∙◌, subst, inl, inr, Bool, true, false, not, ◌&&◌,
  ◌||◌, Bool-cases, List, ◌∷◌, ◌++◌, arith, ◌==◌, if◌then◌else◌, In,
}
use fizzy_connector.Daemon.Worker.{
  looping, waiting, working, resting, leaving, Worker, Crew, put, at, kick, is_idle, look, leave,
  finish, Step, arrive_step, kick_step, look_step, leave_step, acquire_step, abort_step,
  finish_step, rest_step, drain_step, end_step, Reach, here, next, first_crew,
}
use fizzy_connector.Daemon.Worker.Counts.{
  total, total-append, is_working, is_leaving, on, stays, owes, owes-append, In-owes,
  stays-or-leaves,
}

pub record IsSound (max_slots : ℕ) (s : Crew) : Type 0 where
  pub one : (n : ℕ) → total (on n) s.workers ≡ (if s.running n then 1 else 0)
  pub used : s.slots ≡ total (λ w. is_working w.place) s.workers
  pub within : s.slots ≤ max_slots
  pub mutex : total (λ w. is_leaving w.place) s.workers ≡ (if s.locked then 1 else 0)
  pub cared :
      (n : ℕ)
      → s.work n ≡ true
      → (s.ended || s.draining) ≡ false
      → s.gave_up n ≡ false
      → 0 < owes n s.owed + total (stays n) s.workers

-- A worker leaves a card that has work only when the daemon stops or the state cannot be read.
idle_unreadable :
    (s : Crew) (n : ℕ) (readable : Bool)
    → is_idle s n readable ≡ true
    → (s.ended || s.draining) ≡ false
    → s.work n ≡ true
    → readable ≡ false
unfolding is_idle
idle_unreadable s n readable idle open_e work = ground arith

module _ (k : ℕ) (s : Crew) (v : IsSound k s) where
  open v use {one, used, within, mutex, cared}

  kick-IsSound :
      (n : ℕ) (before after : List ℕ)
      → s.owed ≡ before ++ n ∷ after
      → s.locked ≡ false
      → IsSound k (kick n (record s { owed = before ++ after }))
  unfolding kick total owes
  kick-IsSound n before after owed free = elim (Bool-cases (s.running n)) [
    | inl old ↦ rw old (record {
      one = one;
      used = used;
      within = within;
      mutex = mutex;
      cared = λ m work open_e kept.
          ground (
            arith,
            cared m,
            owes-append m before after n,
            one n,
            mutex,
            stays-or-leaves n s.workers,
          );
    })
    | inr new ↦ rw new (record {
      one = λ m. ground (arith, one m);
      used = omega (arith, used);
      within = within;
      mutex = omega (arith, mutex);
      cared = λ m work open_e kept. ground (arith, cared m, owes-append m before after n);
    })
  ]

  module _ (before after : List Worker) (w : Worker)
      (here_e : s.workers ≡ before ++ w ∷ after) where
    removed : (f : Worker → ℕ) → total f s.workers ≡ f w + total f (before ++ after)
    removed f = ap (total f) here_e ∙ total-append f before after w

    -- A worker that goes on without leaving.
    moved-IsSound :
        (w' : Worker) (slots' : ℕ) (work' : ℕ → Bool)
        → ((m : ℕ) → (w.card == m) ≡ false → work' m ≡ s.work m)
        → w'.card ≡ w.card
        → is_leaving w.place ≡ 0
        → is_leaving w'.place ≡ 0
        → slots' + is_working w.place ≡ s.slots + is_working w'.place
        → slots' ≤ k
        → IsSound k (record s { workers = before ++ w' ∷ after; slots = slots'; work = work' })
    moved-IsSound w' slots' work' same_work card stay stay' slot room = record {
      one = λ m. ground (arith, one m, removed (on m), total-append (on m) before after w');
      used = ground (
        arith,
        used,
        removed (λ x. is_working x.place),
        total-append (λ x. is_working x.place) before after w',
      );
      within = room;
      mutex = ground (
        arith,
        mutex,
        removed (λ x. is_leaving x.place),
        total-append (λ x. is_leaving x.place) before after w',
      );
      cared = λ m work open_e kept.
          ground (
            arith,
            cared m,
            same_work m,
            removed (stays m),
            total-append (stays m) before after w',
          );
    }

  module _ (n : ℕ) (before after : List Worker) where
    leave-IsSound : s.workers ≡ before ++ at n leaving ∷ after → IsSound k (leave n before after s)
    unfolding leave
    leave-IsSound e = record {
      one = λ m. ground (
        arith,
        one m,
        one n,
        removed before after (at n leaving) e (on m),
        removed before after (at n leaving) e (on n),
      );
      used = ground (arith, used, removed before after (at n leaving) e (λ x. is_working x.place));
      within = within;
      mutex =
          ground (arith, mutex, removed before after (at n leaving) e (λ x. is_leaving x.place));
      cared = λ m work open_e kept.
          ground (arith, cared m, removed before after (at n leaving) e (stays m));
    }

    look-IsSound :
        (readable : Bool)
        → s.workers ≡ before ++ at n looping ∷ after
        → s.locked ≡ false
        → IsSound k (look n readable before after s)
    unfolding look
    look-IsSound readable e free = elim (Bool-cases (is_idle s n readable)) [
      | inr busy ↦ rw busy (
          moved-IsSound before after (at n looping) e (at n waiting) s.slots s.work (λ m h. refl)
            refl refl refl (omega arith) within)
      | inl idle ↦ rw idle (record {
        one = λ m. ground (
          arith,
          one m,
          removed before after (at n looping) e (on m),
          total-append (on m) before after (at n leaving),
        );
        used = ground (
          arith,
          used,
          removed before after (at n looping) e (λ x. is_working x.place),
          total-append (λ x. is_working x.place) before after (at n leaving),
        );
        within = within;
        mutex = ground (
          arith,
          mutex,
          removed before after (at n looping) e (λ x. is_leaving x.place),
          total-append (λ x. is_leaving x.place) before after (at n leaving),
        );
        cared = λ m work open_e kept. ground (
          arith,
          cared m,
          idle_unreadable s n readable idle,
          removed before after (at n looping) e (stays m),
          total-append (stays m) before after (at n leaving),
        );
      })
    ]

    finish-IsSound :
        (left fails : Bool)
        → s.workers ≡ before ++ at n working ∷ after
        → IsSound k (finish n left fails before after s)
    unfolding finish
    finish-IsSound left fails e =
        moved-IsSound before after (at n working) e
          (at n (if fails && not s.ended then resting else looping)) (s.slots - 1)
          (put n left s.work) (λ m h. ground arith) refl refl (ground arith)
          (ground (arith, used, removed before after (at n working) e (λ x. is_working x.place)))
          (omega (arith, within))

-- Every step of every goroutine keeps the account.
pub Step-IsSound : (k : ℕ) {s t : Crew} → Step k s t → IsSound k s → IsSound k t
Step-IsSound k {s} (arrive_step n e) v = subst (IsSound k) (sym e) (record {
  one = v.one;
  used = v.used;
  within = v.within;
  mutex = v.mutex;
  cared = λ m work open_e kept. unfold owes in ground (arith, v.cared m);
})
Step-IsSound k {s} (kick_step n before after owed free e) v =
    subst (IsSound k) (sym e) (kick-IsSound k s v n before after owed free)
Step-IsSound k {s} (look_step n readable before after e free e') v =
    subst (IsSound k) (sym e') (look-IsSound k s v n before after readable e free)
Step-IsSound k {s} (leave_step n before after e e') v =
    subst (IsSound k) (sym e') (leave-IsSound k s v n before after e)
Step-IsSound k {s} (acquire_step n before after e room e') v = subst (IsSound k) (sym e') (
    moved-IsSound k s v before after (at n waiting) e (at n working) (s.slots + 1) s.work
      (λ m h. refl) refl refl refl (omega arith) (omega arith))
Step-IsSound k {s} (abort_step n before after e ended e') v = subst (IsSound k) (sym e') (
    moved-IsSound k s v before after (at n waiting) e (at n looping) s.slots s.work (λ m h. refl)
      refl refl refl (omega arith) v.within)
Step-IsSound k {s} (finish_step n left fails before after e e') v =
    subst (IsSound k) (sym e') (finish-IsSound k s v n before after left fails e)
Step-IsSound k {s} (rest_step n before after e e') v = subst (IsSound k) (sym e') (
    moved-IsSound k s v before after (at n resting) e (at n looping) s.slots s.work (λ m h. refl)
      refl refl refl (omega arith) v.within)
Step-IsSound k {s} (drain_step e) v = subst (IsSound k) (sym e) (record {
  one = v.one;
  used = v.used;
  within = v.within;
  mutex = v.mutex;
  cared = λ m work open_e kept. ground arith;
})
Step-IsSound k {s} (end_step e) v = subst (IsSound k) (sym e) (record {
  one = v.one;
  used = v.used;
  within = v.within;
  mutex = v.mutex;
  cared = λ m work open_e kept. ground arith;
})

pub first_crew-IsSound :
    (k : ℕ) (work : ℕ → Bool) (owed : List ℕ)
    → ((n : ℕ) → work n ≡ true → In n owed)
    → IsSound k (first_crew work owed)
first_crew-IsSound k work owed all_owed = record {
  one = λ n. unfold total in refl;
  used = unfold total in refl;
  within = omega arith;
  mutex = unfold total in refl;
  cared = λ n h open_e kept. omega (arith, In-owes n owed (all_owed n h));
}

pub Reach-IsSound : (k : ℕ) {s t : Crew} → IsSound k s → Reach k s t → IsSound k t
Reach-IsSound k v here = v
Reach-IsSound k v (next r st) = Step-IsSound k st (Reach-IsSound k v r)

-- From a start that kicks each card with work, in any interleaving of the goroutines: a card has at
-- most one worker, and at most as many turns run as there are slots.
pub Reach-bounds :
    (k : ℕ) (work : ℕ → Bool) (owed : List ℕ) {t : Crew}
    → ((n : ℕ) → work n ≡ true → In n owed)
    → Reach k (first_crew work owed) t
    → (n : ℕ) → (total (on n) t.workers ≤ 1) × (total (λ w. is_working w.place) t.workers ≤ k)
Reach-bounds k work owed all_owed r n =
    let v = Reach-IsSound k (first_crew-IsSound k work owed all_owed) r in
    (ground (arith, v.one n), omega (arith, v.used, v.within))
