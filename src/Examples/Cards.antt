-- ===== src/Examples/Cards.antt =====
-- Scans, triggers, messages and the store.
use mathlib.Core.Option.{some-injective}
use fizzy_connector.Base.{
  ◌≡◌, refl, sym, ap, if◌then◌else◌, ◌≢◌, ◌↔◌, ◌⊎◌, ◌<◌, ◌≤◌, ◌+◌, ◌-◌, min, drop, length, ◌&&◌,
  all, trim_space, trim_left, trim_right, ltb, trim_suffix, has_prefix, Bool, Bool-cases, Result,
  card_gone, failed, inl, inr, ℕ, true, false, some, none, List, [], ◌∷◌, ◌++◌, Text, codes, arith,
  In, ok, err, same, ◌||◌, any, ◌==◌,
}
use fizzy_connector.Store.{
  Store, CardState, new_state, get, update, record_turn, TurnRecord, read, is_handled,
}
use fizzy_connector.Store.Laws.{IsKept, get-update}
use fizzy_connector.Daemon.Effects.{Sys, meanwhile}
use fizzy_connector.Daemon.Triggers.{
  Trigger, record_triggers, find_triggers, add, only_trusted_members, description_counts,
  proves_all, is_complete,
}
use fizzy_connector.Daemon.Triggers.Laws.{find_triggers_iff, FromDescription, FromComment}
use fizzy_connector.Daemon.Triggers.Records.{IsRecorded, record_triggers-IsRecorded}
use fizzy_connector.Daemon.Scan.{Notified, scan_of, check_card, handle_notification, evidence_of}
use fizzy_connector.Daemon.Scan.Frames.{marked_ids}
use fizzy_connector.Daemon.Scan.Notifications.{IsSafe, handle_notification_lem}
use fizzy_connector.Daemon.Scan.Handled.{is_trusted_board, check_card-handled}
use fizzy_connector.Daemon.Turns.{Turn, begin_turn}
use fizzy_connector.Ipc.{Request, message}
use fizzy_connector.Daemon.Messages.{deliver_agent_message, message_item}
use fizzy_connector.Daemon.Messages.Limits.{IsWithin, deliver_agent_message-IsWithin}
use fizzy_connector.Examples.Data.{
  empty_store-IsKept, card, call_comment, empty_store, empty_sys, call_trigger, scanner, sight,
  evidence, notification, scan, started_card, started_store,
}

some_card :
    (b : Bool) (c : CardState)
    → (if b then some started_card else none) ≡ some c
    → (b ≡ true) × (c.number ≡ 7)
unfolding new_state
some_card true c h = (refl, ap (λ (o : CardState). o.number) (sym (some-injective _ _ h)))
some_card false c h = ground arith

pub started_store-IsKept : IsKept started_store
unfolding new_state
started_store-IsKept n c h = let (e, seven) = some_card (n == 7) c h in ground arith

abbrev notified : Notified
notified = record { first = sight; second = sight; marked = ok tt }

handle_notification_example :
    IsSafe scanner notified notification
      (check_card scanner notified.first notification.card_number
        (evidence_of notification)
        empty_sys).0
      []
      (handle_notification scanner notified notification empty_sys)
unfolding marked_ids
handle_notification_example =
    handle_notification_lem scanner notified notification empty_sys empty_store-IsKept
      (λ c. (refl, refl)) (λ c. (refl, refl))

check_card_example :
    (state : CardState) × (get empty_store 7 ≡ ok state)
    × ((t : Trigger)
        → In t (
            find_triggers
              (scan_of scanner sight (is_trusted_board scanner sight card (some evidence)))
              state
              card
              (call_comment ∷ [])
              (some evidence))
        → (after : CardState) × (get
              (check_card scanner sight 7 (some evidence) empty_sys).1.store
              7
            ≡ ok after)
          × (is_handled after t.item.trigger_id ≡ true))
unfolding check_card fizzy_connector.Daemon.Effects.get_card get
    fizzy_connector.Daemon.Triggers.long_description_mention fizzy_connector.Config.is_trusted
    fizzy_connector.Base.mem_text same fizzy_connector.Daemon.Triggers.proves_start_of meanwhile
    find_triggers fizzy_connector.Daemon.Triggers.description_triggers description_counts proves_all
    trim_space add is_handled scan_of fizzy_connector.Base.cut_prefix has_prefix
    fizzy_connector.Base.is_space trim_left trim_right trim_suffix
    fizzy_connector.Daemon.Effects.changed fizzy_connector.Daemon.Effects.send
    fizzy_connector.Daemon.Effects.update_card fizzy_connector.Daemon.Scan.acknowledge
    fizzy_connector.Daemon.Scan.acknowledge_all fizzy_connector.Daemon.Scan.announce
    fizzy_connector.Daemon.Scan.board_trust fizzy_connector.Daemon.Scan.explain_long_description
    fizzy_connector.Daemon.Scan.found_card fizzy_connector.Daemon.Scan.reaction
    fizzy_connector.Daemon.Scan.record_found fizzy_connector.Daemon.Scan.with_members
    fizzy_connector.Daemon.Triggers.comment_item fizzy_connector.Daemon.Triggers.comment_triggers
    fizzy_connector.Daemon.Triggers.description_id fizzy_connector.Daemon.Triggers.description_item
    is_complete only_trusted_members fizzy_connector.Daemon.Triggers.record_trigger record_triggers
    new_state read update fizzy_connector.Store.write fizzy_connector.Base.contains
check_card_example =
    check_card-handled scanner sight 7 (some evidence) empty_sys card (call_comment ∷ [])
      empty_store-IsKept (λ c. (refl, refl)) refl refl refl

find_triggers_example :
    In call_trigger (find_triggers scan (new_state 7) card (call_comment ∷ []) (some evidence)) ↔ (
      FromDescription scan (new_state 7) card (some evidence) call_trigger
      ⊎ FromComment scan (new_state 7) (call_comment ∷ []) call_trigger)
find_triggers_example =
    find_triggers_iff scan (new_state 7) call_trigger card (call_comment ∷ []) (some evidence)

new_state-IsRecorded : IsRecorded (new_state 7)
unfolding new_state
new_state-IsRecorded = record { distinct = tt; queued = tt }

record_triggers-IsRecorded_example : IsRecorded (record_triggers (call_trigger ∷ []) (new_state 7))
record_triggers-IsRecorded_example =
    record_triggers-IsRecorded (call_trigger ∷ []) (new_state 7) new_state-IsRecorded

abbrev request : Request
request = record {
  op = message;
  token = codes "k";
  to_card = 7;
  text = codes "hello";
  tool_name = [];
  tool_input = [];
}

abbrev sender : Turn
sender = begin_turn 0 3 2

abbrev started_sys : Sys
started_sys = record empty_sys { store = started_store }

deliver_agent_message_example :
    (target before after : CardState) × (get started_store 7 ≡ ok target)
    × IsWithin sender request target
    × (get (meanwhile 7 (λ c. c) started_sys).1.store 7 ≡ ok before)
    × (get (deliver_agent_message (λ c. c) sender request started_sys).1.store 7 ≡ ok after)
    × (after.queue ≡ before.queue ++ message_item sender request ∷ [])
    × ((message_item sender request).hops ≡ sender.hops + 1)
unfolding deliver_agent_message begin_turn fizzy_connector.Base.byte_len
    fizzy_connector.Daemon.Effects.get_card get meanwhile fizzy_connector.Daemon.Effects.update_card
    update fizzy_connector.Daemon.Effects.send
deliver_agent_message_example =
    deliver_agent_message-IsWithin (λ c. c) sender request started_sys started_store-IsKept
      (λ c. (refl, refl)) refl

abbrev marked : CardState → CardState
marked c = record c { needs_scan = true }

get-update_example :
    (marked started_card ≡ marked started_card)
    × (get (update started_store 7 marked).1 7 ≡ ok (marked started_card))
    × ((m : ℕ) → m ≢ 7 → get (update started_store 7 marked).1 m ≡ get started_store m)
unfolding get update
get-update_example =
    get-update started_store 7 marked started_card (marked started_card) started_store-IsKept
      (λ c. refl) refl refl

abbrev full_store : Store
full_store = record started_store { write_fails = λ n. true }

abbrev turn_record : TurnRecord
turn_record = record {
  started_at = 1;
  seconds = 2;
  resumed = false;
  cost_usd = 3;
  api_calls = 4;
  input_tokens = 5;
  cache_write_tokens = 6;
  cache_read_tokens = 7;
  output_tokens = 8;
  context_tokens = 9;
}
