-- ===== src/Daemon/Triggers/Records.antt =====
-- internal/daemon/daemon.go, checkCard: how triggers get into the queue of a card.
use fizzy_connector.Base.{
  ◌≡◌, refl, sym, ◌∙◌, ap, ◌⊎◌, inl, inr, Bool, true, false, ◌||◌, List, [], ◌∷◌, ◌++◌, append-nil,
  append_assoc, Text, arith, same, same_iff, same_refl, In, All, All-append, IsDistinct,
  mem_text-append_one, append_one-IsDistinct, if◌then◌else◌, any,
}
use fizzy_connector.Store.{Item, agent_message, CardState, is_handled}
use fizzy_connector.Daemon.Triggers.{Trigger, record_trigger, record_triggers}

-- The ids of a card are handled once, and each item of the queue from a person has a handled id.
pub record IsRecorded (s : CardState) : Type 0 where
  pub distinct : IsDistinct s.handled
  pub queued : All (λ i. (i.kind ≡ agent_message) ⊎ (is_handled s i.trigger_id ≡ true)) s.queue

-- What recording adds: items of trusted triggers whose ids were not handled, in order, each id once.
unfoldable pub new_items : CardState → List Trigger → List Item
new_items s [] = []
new_items s (t ∷ ts) =
    let rest = new_items (record_trigger t s) ts in
    if is_handled s t.item.trigger_id then rest else if t.trusted then t.item ∷ rest else rest

record_trigger-queue :
    (t : Trigger) (s : CardState)
    → (record_trigger t s).queue
      ≡ s.queue
        ++ (if is_handled s t.item.trigger_id then [] else if t.trusted then t.item ∷ [] else [])
unfolding record_trigger
record_trigger-queue t s = ground (arith, append-nil s.queue)

record_trigger-handled :
    (t : Trigger) (s : CardState) (id : Text)
    → is_handled (record_trigger t s) id ≡ (is_handled s id || same t.item.trigger_id id)
unfolding record_trigger is_handled
record_trigger-handled t s id =
    ground
      (arith, mem_text-append_one id t.item.trigger_id s.handled, same_iff t.item.trigger_id id)

-- The queue only grows at its end, by the items of the trusted triggers with new ids.
pub record_triggers-queue :
    (ts : List Trigger) (s : CardState) → (record_triggers ts s).queue ≡ s.queue ++ new_items s ts
unfolding record_triggers new_items
record_triggers-queue [] s = sym (append-nil s.queue)
record_triggers-queue (t ∷ ts) s =
    rw (record_triggers-queue ts (record_trigger t s), record_trigger-queue t s)
      (append_assoc s.queue _ _ ∙ ap (◌++◌ s.queue) (ground arith))

-- Afterwards each trigger is handled, trusted or not, and nothing else is that was not.
pub record_triggers-handled :
    (ts : List Trigger) (s : CardState) (id : Text)
    → is_handled (record_triggers ts s) id
      ≡ (is_handled s id || any (λ t. same t.item.trigger_id id) ts)
unfolding record_triggers any
record_triggers-handled [] s id = ground arith
record_triggers-handled (t ∷ ts) s id =
    ground
      (arith, record_triggers-handled ts (record_trigger t s) id, record_trigger-handled t s id)

all_handled :
    (ts : List Trigger) (s : CardState)
    → ((id : Text) → any (λ t. same t.item.trigger_id id) ts ≡ true → is_handled s id ≡ true)
    → record_triggers ts s ≡ s
unfolding record_triggers any
all_handled [] s h = refl
all_handled (t ∷ ts) s h =
    let first : is_handled s t.item.trigger_id ≡ true =
      h t.item.trigger_id (ground (arith, same_refl t.item.trigger_id)) in
    let still : record_trigger t s ≡ s = unfold record_trigger in ground arith in
    rw still (all_handled ts s (λ id e. h id (ground arith)))

-- Recording the same triggers again changes nothing: a mention is queued once.
pub record_triggers-twice :
    (ts : List Trigger) (s : CardState)
    → record_triggers ts (record_triggers ts s) ≡ record_triggers ts s
record_triggers-twice ts s =
    all_handled ts (record_triggers ts s) (λ id e. record_triggers-handled ts s id ∙ ground arith)

queued_mono :
    (t : Trigger) (s : CardState) (is : List Item)
    → All (λ i. (i.kind ≡ agent_message) ⊎ (is_handled s i.trigger_id ≡ true)) is
    → All (λ i. (i.kind ≡ agent_message) ⊎ (is_handled (record_trigger t s) i.trigger_id ≡ true)) is
queued_mono t s [] h = tt
queued_mono t s (i ∷ is) h =
    (ground (arith, record_trigger-handled t s i.trigger_id), queued_mono t s is h.1)

record_trigger-IsDistinct :
    (t : Trigger) (s : CardState) → IsDistinct s.handled → IsDistinct (record_trigger t s).handled
unfolding record_trigger is_handled
record_trigger-IsDistinct t s d =
    ground (arith, append_one-IsDistinct t.item.trigger_id s.handled d)

record_trigger-IsRecorded :
    (t : Trigger) (s : CardState) → IsRecorded s → IsRecorded (record_trigger t s)
unfolding record_trigger
record_trigger-IsRecorded t s v = record {
  distinct = record_trigger-IsDistinct t s v.distinct;
  queued = rw (record_trigger-queue t s) (
      All-append _ s.queue _ (queued_mono t s s.queue v.queued) (
        ground (arith, record_trigger-handled t s t.item.trigger_id, same_refl t.item.trigger_id)));
}

-- Recording triggers keeps each id handled once, and each item from a person handled.
pub record_triggers-IsRecorded :
    (ts : List Trigger) (s : CardState) → IsRecorded s → IsRecorded (record_triggers ts s)
unfolding record_triggers
record_triggers-IsRecorded [] s v = v
record_triggers-IsRecorded (t ∷ ts) s v =
    record_triggers-IsRecorded ts (record_trigger t s) (record_trigger-IsRecorded t s v)

In-recorded :
    (i j : Item) (old trusted : Bool) (rest : List Item)
    → In i (if old then rest else if trusted then j ∷ rest else rest)
    → In i rest ⊎ ((trusted ≡ true) × (i ≡ j))
In-recorded i j true trusted rest h = inl h
In-recorded i j false false rest h = inl h
In-recorded i j false true rest (inl e) = inr (refl, e)
In-recorded i j false true rest (inr h) = inl h

-- Whatever is queued is the item of a trusted trigger.
pub new_items-trusted :
    (ts : List Trigger) (s : CardState) (i : Item)
    → In i (new_items s ts)
    → (t : Trigger) × In t ts × (t.trusted ≡ true) × (i ≡ t.item)
unfolding new_items
new_items-trusted [] s i h = elim h [ ]
new_items-trusted (t ∷ ts) s i h =
    elim (In-recorded i t.item (is_handled s t.item.trigger_id) t.trusted _ h) [
      | inl later ↦
          let (u, m, trusted, e) = new_items-trusted ts (record_trigger t s) i later in
          (u, inr m, trusted, e)
      | inr (trusted, e) ↦ (t, inl refl, trusted, e)
    ]
