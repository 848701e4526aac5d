-- ===== src/Store.antt =====
-- internal/store/store.go: the state of each card, kept as one file for each card.
-- Times are nanoseconds after the zero time; a cost is in units of 1e-8 dollars.
pub mod Laws
use fizzy_connector.Base.{
  ℕ, suc, ◌+◌, ◌-◌, ◌≡◌, Bool, true, false, Option, none, some, List, [], ◌∷◌, ◌++◌, Text, codes,
  ltb, ◌==◌, if◌then◌else◌, mem_text, length, drop, Result, ok, err, Error, failed,
}

pub data Kind : Type 0 where
  comment description agent_message : Kind

abbrev pub description_trigger_id : Text
description_trigger_id = codes "description"

-- One unit of work in the queue of a card.
pub record Item : Type 0 where
  pub kind : Kind
  pub trigger_id : Text
  pub author_id : Text
  pub author_name : Text
  pub from_card : ℕ
  pub text : Text
  pub hops : ℕ

pub record TurnRecord : Type 0 where
  pub started_at : ℕ
  pub seconds : ℕ
  pub resumed : Bool
  pub cost_usd : ℕ
  pub api_calls : ℕ
  pub input_tokens : ℕ
  pub cache_write_tokens : ℕ
  pub cache_read_tokens : ℕ
  pub output_tokens : ℕ
  pub context_tokens : ℕ

pub record CardState : Type 0 where
  pub number : ℕ
  pub session_id : Text
  pub session_started : Bool
  pub handled : List Text
  pub queue : List Item
  pub pending_reply : Text
  pub needs_scan : Bool
  pub allowed_commands : List Text
  pub prompted_until : ℕ
  pub last_turn_at : ℕ
  pub turn_count : ℕ
  pub total_cost_usd : ℕ
  pub turns : List TurnRecord

abbrev pub max_turn_records : ℕ
max_turn_records = 50

unfoldable pub record_turn : TurnRecord → CardState → CardState
record_turn r s =
    let all = s.turns ++ r ∷ [] in
    record s {
      turn_count = s.turn_count + 1;
      total_cost_usd = s.total_cost_usd + r.cost_usd;
      turns =
          if ltb max_turn_records (length all)
          then drop (length all - max_turn_records) all
          else all;
    }

-- `fresh` is the new random id.
unfoldable pub reset_session : Text → CardState → CardState
reset_session fresh s = record s { session_id = fresh; session_started = false; prompted_until = 0 }

unfoldable pub is_handled : CardState → Text → Bool
is_handled s id = mem_text id s.handled

-- A card that has no file.
unfoldable pub new_state : ℕ → CardState
new_state n = record {
  number = n;
  session_id = [];
  session_started = false;
  handled = [];
  queue = [];
  pending_reply = [];
  needs_scan = false;
  allowed_commands = [];
  prompted_until = 0;
  last_turn_at = 0;
  turn_count = 0;
  total_cost_usd = 0;
  turns = [];
}

-- The directory of the store: the card files, and where a read or a write fails.
pub record Store : Type 0 where
  pub file : ℕ → Option CardState
  pub read_fails : ℕ → Bool
  pub write_fails : ℕ → Bool

abbrev pub disk_error : Error
disk_error = failed (codes "disk")

unfoldable pub read : Store → ℕ → Result CardState
unfolding new_state
read s n = elim (s.read_fails n) [
  | true ↦ err disk_error
  | false ↦ elim (s.file n) [ none ↦ ok (new_state n) | some state ↦ ok state ]
]

-- The file is written aside and renamed, so a failure leaves the old file.
unfoldable pub write : Store → CardState → Result (Unit {0}) × Store
write s state = elim (s.write_fails state.number) [
  | true ↦ (err disk_error, s)
  | false ↦ (ok tt, record s { file = λ n. if n == state.number then some state else s.file n })
]

unfoldable pub get : Store → ℕ → Result CardState
unfolding read
get s n = read s n

update_with : Store → CardState → Result (Unit {0}) × Store → Result CardState × Store
update_with s state (err e, s') = (err e, s')
update_with s state (ok _, s') = (ok state, s')

unfoldable pub update : Store → ℕ → (CardState → CardState) → Result CardState × Store
unfolding read write update_with
update s n change = elim (read s n) [
  | err e ↦ (err e, s)
  | ok state ↦ update_with s (change state) (write s (change state))
]
