-- ===== src/Daemon/Turns/Life.antt =====
-- internal/daemon: the life of the queue of one card as interleaved steps of the fetch loop, the
-- agents of other cards, the checks of the running turn and the worker. Each step is one change of
-- the state of the card or of the turn under its lock.
use fizzy_connector.Base.{
  ℕ, zero, suc, ◌+◌, ◌≤◌, ◌≡◌, refl, sym, ap, ◌∙◌, min, Bool, Option, none, some, List, [], ◌∷◌,
  ◌++◌, append_assoc, Text, arith, length, drop, take, length-append, length-drop, take-append,
  take-drop, subst,
}
use fizzy_connector.Store.{Item, CardState, reset_session}
use fizzy_connector.Daemon.Triggers.{Trigger, record_triggers}
use fizzy_connector.Daemon.Triggers.Records.{record_triggers-queue}
use fizzy_connector.Daemon.Triggers.Records as Records
use fizzy_connector.Daemon.Turns.{
  Turn, begin_turn, note_comment, present, new_items, give, max_hops,
}
use fizzy_connector.Daemon.Turns.Run.{World, Ran, save_turn}
use fizzy_connector.Daemon.Turns.Run.Laws.{save_turn_lem}

-- The card with its running turn, if any. `arrived` lists all that was ever queued, `shown` what the
-- running turn was given, and `finished` what the turns that ended and were saved were given.
pub record Life : Type 0 where
  pub state : CardState
  pub turn : Option Turn
  pub arrived : List Item
  pub shown : List Item
  pub finished : List Item

pub data Step (l m : Life) : Type 0 where
  -- checkCard records triggers.
  record_step :
      (ts : List Trigger)
      → m ≡ record l {
        state = record_triggers ts l.state;
        arrived = l.arrived ++ Records.new_items l.state ts;
      }
      → Step l m
  -- An agent message is queued.
  message_step :
      (i : Item)
      → m ≡ record l {
        state = record l.state { queue = l.state.queue ++ i ∷ [] };
        arrived = l.arrived ++ i ∷ [];
      }
      → Step l m
  -- runTurn begins with the whole queue.
  begin_step :
      (now up_to : ℕ)
      → l.turn ≡ none
      → m ≡ record l {
        turn = some (
            present l.state.queue up_to (begin_turn now l.state.number (max_hops l.state.queue 0)));
        shown = l.state.queue;
      }
      → Step l m
  -- A session that was not found: the turn presents the items of its prompt once more.
  again_step :
      (t : Turn) (n up_to : ℕ)
      → l.turn ≡ some t
      → n ≤ t.consumed
      → m ≡ record l {
        turn = some (present (take n l.state.queue) up_to t);
        shown = take n l.state.queue;
      }
      → Step l m
  -- newActivity gives the turn what arrived since.
  give_step :
      (t : Turn) (now up_to : ℕ)
      → l.turn ≡ some t
      → m ≡ record l {
        turn = some (give now (new_items l.state.queue t) up_to t);
        shown = l.shown ++ new_items l.state.queue t;
      }
      → Step l m
  -- Claude comments on the card.
  note_step :
      (t : Turn) (now : ℕ) (is_reply : Bool)
      → l.turn ≡ some t
      → m ≡ record l { turn = some (note_comment now is_reply t) }
      → Step l m
  -- runTurn saves the turn that ended.
  save_step :
      (w : World) (r : Ran)
      → l.turn ≡ some r.turn
      → m ≡ record l {
        state = save_turn w r l.state;
        turn = none;
        shown = [];
        finished = l.finished ++ l.shown;
      }
      → Step l m
  -- The turn ends with no result: the daemon stops, or Claude did not start.
  abandon_step : m ≡ record l { turn = none; shown = [] } → Step l m
  -- `fizzy-connector reset`.
  reset_step : (fresh : Text) → m ≡ record l { state = reset_session fresh l.state } → Step l m

-- Nothing is lost, repeated or reordered: what arrived is what saved turns were given, and then the
-- queue; and what the running turn was given is the start of the queue.
abbrev pub OwnsStart : List Item → List Item → Option Turn → Type 0
OwnsStart queue shown none = Unit
OwnsStart queue shown (some t) = (t.consumed ≤ length queue) × (shown ≡ take t.consumed queue)

pub record IsAccounted (l : Life) : Type 0 where
  pub whole : l.finished ++ l.state.queue ≡ l.arrived
  pub owned : OwnsStart l.state.queue l.shown l.turn

OwnsStart-append :
    (queue new shown : List Item) (t : Option Turn)
    → OwnsStart queue shown t
    → OwnsStart (queue ++ new) shown t
OwnsStart-append queue new shown none h = tt
OwnsStart-append queue new shown (some t) h =
    (omega (arith, length-append queue new), h.1 ∙ sym (take-append t.consumed queue new h.0))

append-IsAccounted :
    (l : Life) (s : CardState) (new : List Item)
    → s.queue ≡ l.state.queue ++ new
    → IsAccounted l
    → IsAccounted (record l { state = s; arrived = l.arrived ++ new })
append-IsAccounted l s new e v = record {
  whole =
      ap (◌++◌ l.finished) e
      ∙ sym (append_assoc l.finished l.state.queue new)
      ∙ ap (λ a. a ++ new) v.whole;
  owned =
      subst (λ q. OwnsStart q l.shown l.turn) (sym e)
        (OwnsStart-append l.state.queue new l.shown l.turn v.owned);
}

take-length {ℓ} : {A : Type ℓ} (xs : List A) → take (length xs) xs ≡ xs
take-length [] = refl
take-length (x ∷ xs) = ap (◌∷◌ x) (take-length xs)

length-take {ℓ} : {A : Type ℓ} (n : ℕ) (xs : List A) → n ≤ length xs → length (take n xs) ≡ n
length-take zero xs h = refl
length-take (suc n) [] h = elim h [ ]
length-take (suc n) (x ∷ xs) h = ap suc (length-take n xs (omega arith))

give-owned :
    (queue shown : List Item) (t : Turn) (now up_to : ℕ)
    → OwnsStart queue shown (some t)
    → OwnsStart queue (shown ++ new_items queue t) (some (give now (new_items queue t) up_to t))
unfolding give new_items
give-owned queue shown t now up_to h =
    let n = t.consumed in
    let all_kept : min n (length queue) ≡ n = omega (arith, h.0) in
    let count : n + length (drop n queue) ≡ length queue =
      omega (arith, h.0, length-drop n queue) in
    rw (all_kept, count) (omega arith, rw h.1 (take-drop n queue ∙ sym (take-length queue)))

again-owned :
    (queue : List Item) (n up_to : ℕ) (t : Turn)
    → n ≤ length queue
    → OwnsStart queue (take n queue) (some (present (take n queue) up_to t))
unfolding present
again-owned queue n up_to t h = rw (length-take n queue h) (h, refl)

note-owned :
    (queue shown : List Item) (t : Turn) (now : ℕ) (is_reply : Bool)
    → OwnsStart queue shown (some t)
    → OwnsStart queue shown (some (note_comment now is_reply t))
unfolding note_comment
note-owned queue shown t now is_reply h = ground arith

owned_at :
    (l : Life) (t : Turn)
    → IsAccounted l
    → l.turn ≡ some t
    → OwnsStart l.state.queue l.shown (some t)
owned_at l t v e = subst (OwnsStart l.state.queue l.shown) e v.owned

save-whole :
    (l : Life) (w : World) (r : Ran)
    → IsAccounted l
    → l.turn ≡ some r.turn
    → (l.finished ++ l.shown) ++ (save_turn w r l.state).queue ≡ l.arrived
save-whole l w r v e =
    let o = owned_at l r.turn v e in
    rw ((save_turn_lem w r l.state).0, o.1)
      (append_assoc l.finished (take r.turn.consumed l.state.queue) _
        ∙ ap (◌++◌ l.finished) (take-drop r.turn.consumed l.state.queue)
        ∙ v.whole)

-- Every step keeps the account.
pub Step-IsAccounted : (l m : Life) → Step l m → IsAccounted l → IsAccounted m
Step-IsAccounted l m (record_step ts e) v =
    subst IsAccounted (sym e)
      (append-IsAccounted l (record_triggers ts l.state) _ (record_triggers-queue ts l.state) v)
Step-IsAccounted l m (message_step i e) v =
    subst IsAccounted (sym e) (append-IsAccounted l _ (i ∷ []) refl v)
Step-IsAccounted l m (begin_step now up_to idle e) v = subst IsAccounted (sym e) (record {
  whole = v.whole;
  owned = unfold present in (omega arith, sym (take-length l.state.queue));
})
Step-IsAccounted l m (again_step t n up_to running h e) v =
    let o = owned_at l t v running in
    subst IsAccounted (sym e)
      (record { whole = v.whole; owned = again-owned l.state.queue n up_to t (omega (arith, o.0)) })
Step-IsAccounted l m (give_step t now up_to running e) v = subst IsAccounted (sym e) (record {
  whole = v.whole;
  owned = give-owned l.state.queue l.shown t now up_to (owned_at l t v running);
})
Step-IsAccounted l m (note_step t now is_reply running e) v = subst IsAccounted (sym e) (record {
  whole = v.whole;
  owned = note-owned l.state.queue l.shown t now is_reply (owned_at l t v running);
})
Step-IsAccounted l m (save_step w r running e) v =
    subst IsAccounted (sym e) (record { whole = save-whole l w r v running; owned = tt })
Step-IsAccounted l m (abandon_step e) v =
    subst IsAccounted (sym e) (record { whole = v.whole; owned = tt })
Step-IsAccounted l m (reset_step fresh e) v =
    subst IsAccounted (sym e)
      (record { whole = unfold reset_session in v.whole; owned = unfold reset_session in v.owned })

pub data Reach (l : Life) : Life → Type 0 where
  here : Reach l l
  next : {m n : Life} → Reach l m → Step m n → Reach l n

Reach-IsAccounted : (l : Life) {m : Life} → IsAccounted l → Reach l m → IsAccounted m
Reach-IsAccounted l v here = v
Reach-IsAccounted l v (next r s) = Step-IsAccounted _ _ s (Reach-IsAccounted l v r)

-- A card with nothing queued and no turn.
abbrev pub idle_life : CardState → Life
idle_life s = record { state = s; turn = none; arrived = []; shown = []; finished = [] }

-- From a card with an empty queue, after any interleaving of steps: what the saved turns were given,
-- followed by the queue, is exactly what arrived, in order, so no item is lost, and none is given to
-- two saved turns; and a running turn was given exactly the part of the queue that it has consumed.
pub Reach-accounts :
    (s : CardState) {m : Life}
    → s.queue ≡ []
    → Reach (idle_life s) m
    → (m.finished ++ m.state.queue ≡ m.arrived) × OwnsStart m.state.queue m.shown m.turn
Reach-accounts s {m} e r =
    let v = Reach-IsAccounted (idle_life s) (record { whole = e; owned = tt }) r in
    (v.whole, v.owned)
