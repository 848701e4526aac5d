-- ===== src/Daemon/Worker.antt =====
-- internal/daemon/worker.go: the workers of the cards (kick, work, finishIfIdle), interleaved with
-- the goroutines that queue work. The lock `mu` of the daemon and the channel of slots are explicit.
pub mod Counts
pub mod Invariant
pub mod Due
pub mod Progress
use fizzy_connector.Base.{
  ℕ, ◌+◌, ◌-◌, ◌<◌, ◌≡◌, Bool, true, false, not, ◌&&◌, ◌||◌, List, [], ◌∷◌, ◌++◌, ◌==◌,
  if◌then◌else◌,
}

-- Where a worker is in `work`: before finishIfIdle, at the select for a slot, in its turn, waiting
-- after an error, or inside finishIfIdle with the decision to return.
pub data Place : Type 0 where
  looping waiting working resting leaving : Place

pub record Worker : Type 0 where
  pub card : ℕ
  pub place : Place

-- The daemon: which cards have work in the store, the map `running`, the goroutines, the slots in
-- use, whether `mu` is held by finishIfIdle, and whether the daemon drains or ends. `owed` are the
-- cards whose work was stored by a goroutine that has yet to call kick, and `gave_up` are the cards
-- whose state could not be read when a worker looked last.
pub record Crew : Type 0 where
  pub work : ℕ → Bool
  pub running : ℕ → Bool
  pub workers : List Worker
  pub slots : ℕ
  pub locked : Bool
  pub draining : Bool
  pub ended : Bool
  pub owed : List ℕ
  pub gave_up : ℕ → Bool

abbrev pub put : ℕ → Bool → (ℕ → Bool) → ℕ → Bool
put n b f m = if m == n then b else f m

abbrev pub at : ℕ → Place → Worker
at n p = record { card = n; place = p }

-- `kick`: a card has one worker.
unfoldable pub kick : ℕ → Crew → Crew
kick n s = if s.running n then record s { gave_up = put n false s.gave_up } else record s {
  running = put n true s.running;
  workers = at n looping ∷ s.workers;
  gave_up = put n false s.gave_up;
}

-- The test of `finishIfIdle`.
unfoldable pub is_idle : Crew → ℕ → Bool → Bool
is_idle s n readable = s.ended || s.draining || not readable || not (s.work n)

-- `finishIfIdle` up to its decision, for a worker between the others; it holds `mu` while it leaves.
unfoldable pub look : ℕ → Bool → List Worker → List Worker → Crew → Crew
unfolding is_idle
look n readable before after s =
    if is_idle s n readable
    then record s {
      workers = before ++ at n leaving ∷ after;
      locked = true;
      gave_up = if readable then s.gave_up else put n true s.gave_up;
    }
    else record s { workers = before ++ at n waiting ∷ after }

-- The end of `finishIfIdle` and of the goroutine.
unfoldable pub leave : ℕ → List Worker → List Worker → Crew → Crew
leave n before after s = record s {
  running = put n false s.running;
  workers = before ++ after;
  locked = false;
}

-- The end of a turn: `left` is whether the card has work then, `fails` whether the turn failed.
unfoldable pub finish : ℕ → Bool → Bool → List Worker → List Worker → Crew → Crew
finish n left fails before after s = record s {
  work = put n left s.work;
  slots = s.slots - 1;
  workers = before ++ at n (if fails && not s.ended then resting else looping) ∷ after;
}

-- One step of a goroutine; `max_slots` is the capacity of the channel of slots.
pub data Step (max_slots : ℕ) (s t : Crew) : Type 0 where
  arrive_step :
      (n : ℕ) → t ≡ record s { work = put n true s.work; owed = n ∷ s.owed } → Step max_slots s t
  kick_step :
      (n : ℕ) (before after : List ℕ)
      → s.owed ≡ before ++ n ∷ after
      → s.locked ≡ false
      → t ≡ kick n (record s { owed = before ++ after })
      → Step max_slots s t
  look_step :
      (n : ℕ) (readable : Bool) (before after : List Worker)
      → s.workers ≡ before ++ at n looping ∷ after
      → s.locked ≡ false
      → t ≡ look n readable before after s
      → Step max_slots s t
  leave_step :
      (n : ℕ) (before after : List Worker)
      → s.workers ≡ before ++ at n leaving ∷ after
      → t ≡ leave n before after s
      → Step max_slots s t
  acquire_step :
      (n : ℕ) (before after : List Worker)
      → s.workers ≡ before ++ at n waiting ∷ after
      → s.slots < max_slots
      → t ≡ record s { slots = s.slots + 1; workers = before ++ at n working ∷ after }
      → Step max_slots s t
  abort_step :
      (n : ℕ) (before after : List Worker)
      → s.workers ≡ before ++ at n waiting ∷ after
      → s.ended ≡ true
      → t ≡ record s { workers = before ++ at n looping ∷ after }
      → Step max_slots s t
  finish_step :
      (n : ℕ) (left fails : Bool) (before after : List Worker)
      → s.workers ≡ before ++ at n working ∷ after
      → t ≡ finish n left fails before after s
      → Step max_slots s t
  rest_step :
      (n : ℕ) (before after : List Worker)
      → s.workers ≡ before ++ at n resting ∷ after
      → t ≡ record s { workers = before ++ at n looping ∷ after }
      → Step max_slots s t
  drain_step : t ≡ record s { draining = true } → Step max_slots s t
  end_step : t ≡ record s { draining = true; ended = true } → Step max_slots s t

pub data Reach (max_slots : ℕ) (s : Crew) : Crew → Type 0 where
  here : Reach max_slots s s
  next : {t u : Crew} → Reach max_slots s t → Step max_slots t u → Reach max_slots s u

-- A daemon that starts: resumeQueues kicks each card that has work.
abbrev pub first_crew : (ℕ → Bool) → List ℕ → Crew
first_crew work owed = record {
  work = work;
  running = λ n. false;
  workers = [];
  slots = 0;
  locked = false;
  draining = false;
  ended = false;
  owed = owed;
  gave_up = λ n. false;
}
