-- ===== src/Claude/Stream.antt =====
-- internal/claude/claude.go, parseStream: the events of a running turn, and the cost limit.
pub mod Limit
use fizzy_connector.Base.{
  ℕ, ◌+◌, max, Bool, true, false, not, ◌&&◌, ◌||◌, Option, none, some, List, [], ◌∷◌, Text, codes,
  ltb, ◌==◌, if◌then◌else◌, same,
}
use fizzy_connector.Claude.Prices.{Tokens, cost, guard_price}
use fizzy_connector.Claude.Usage.{Call, put_call, calls_of}

-- A line of the stream as package encoding/json reads it.
pub record Event : Type 0 where
  pub event_type : Text
  pub subtype : Text
  pub result : Text
  pub is_error : Bool
  pub cost_usd : ℕ
  pub parent_tool_use_id : Option Text
  pub id : Text
  pub model : Text
  pub usage : Tokens

-- The variables of the loop; `stops` counts the calls of `overLimit`.
pub record Stream : Type 0 where
  pub session_started : Bool
  pub text : Text
  pub is_error : Bool
  pub calls : List (Text × Call)
  pub result_cost : ℕ
  pub limit_reached : Bool
  pub answered_after_stop : Bool
  pub stops : ℕ

abbrev pub start : Stream
start = record {
  session_started = false;
  text = [];
  is_error = false;
  calls = [];
  result_cost = 0;
  limit_reached = false;
  answered_after_stop = false;
  stops = 0;
}

guard_from : List Call → ℕ → ℕ
guard_from [] estimate = estimate
guard_from (c ∷ cs) estimate = guard_from cs (estimate + cost (guard_price c.model) c.tokens)

-- The closure `guardEstimate`.
unfoldable pub guard_estimate : Stream → ℕ
unfolding guard_from
guard_estimate s = max (guard_from (calls_of s.calls) 0) s.result_cost

is_subagent : Option Text → Bool
is_subagent none = false
is_subagent (some id) = true

-- The test of the limit after an API call.
guard_limit : ℕ → Stream → Stream
guard_limit limit s =
    if ltb 0 limit && not s.limit_reached && ltb limit (guard_estimate s)
    then record s { limit_reached = true; stops = s.stops + 1 }
    else s

call_of : Event → Call
unfolding is_subagent
call_of e = record {
  model = e.model;
  subagent = is_subagent e.parent_tool_use_id;
  tokens = e.usage;
}

on_call : ℕ → Event → Stream → Stream
unfolding guard_limit call_of
on_call limit e s = guard_limit limit (record s { calls = put_call e.id (call_of e) s.calls })

on_result : Event → Stream → Stream
on_result e s = record s {
  text = e.result;
  is_error = e.is_error;
  result_cost = max s.result_cost e.cost_usd;
  answered_after_stop =
      if s.limit_reached then not e.is_error && not (same e.result []) else s.answered_after_stop;
}

unfoldable pub on_event : ℕ → Event → Stream → Stream
unfolding on_call on_result
on_event limit e s =
    if same e.event_type (codes "system") && same e.subtype (codes "init")
    then record s { session_started = true }
    else if same e.event_type (codes "assistant") && not (same e.id [])
    then on_call limit e s
    else if same e.event_type (codes "result")
    then on_result e s
    else s

-- A line that is no JSON is passed over.
on_line : ℕ → Option Event → Stream → Stream
unfolding on_event
on_line limit none s = s
on_line limit (some e) s = on_event limit e s

parse_from : ℕ → List (Option Event) → Stream → Stream
unfolding on_line
parse_from limit [] s = s
parse_from limit (l ∷ ls) s = parse_from limit ls (on_line limit l s)

unfoldable pub parse_stream : ℕ → List (Option Event) → Stream
unfolding parse_from
parse_stream limit lines = parse_from limit lines start
