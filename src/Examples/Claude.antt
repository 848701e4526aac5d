-- ===== src/Examples/Claude.antt =====
-- Prices, usage, the stream of Claude Code and the hook.
use fizzy_connector.Base.{
  ◌≡◌, refl, ◌≢◌, ◌⊎◌, ◌<◌, ◌≤◌, ◌+◌, ◌-◌, ◌*◌, ℕ, Bool, true, false, some, none, Option, List, [],
  ◌∷◌, ◌++◌, Text, codes, arith, max, ok, err, failed, if◌then◌else◌, IsDistinct,
}
use fizzy_connector.Config.{minute}
use fizzy_connector.Claude.Prices.{Tokens, cost, guard_price, is_no_price}
use fizzy_connector.Claude.Usage.{Call, sum_usage, put_call, calls_of}
use fizzy_connector.Claude.Stream.{Event, parse_stream, start}
use fizzy_connector.Claude.Stream.Limit.{IsGuarded, parse_stream-IsGuarded, parse_stream_cost}
use fizzy_connector.Claude.Hook.{Surroundings}

abbrev tokens : Tokens
tokens = record {
  input_tokens = 10;
  cache_write_tokens = 0;
  cache_read_tokens = 5;
  output_tokens = 3;
}

abbrev call : Call
call = record { model = codes "claude-x"; subagent = false; tokens = tokens }

abbrev call_event : Event
call_event = record {
  event_type = codes "assistant";
  subtype = [];
  result = [];
  is_error = false;
  cost_usd = 0;
  parent_tool_use_id = none;
  id = codes "m1";
  model = codes "claude-x";
  usage = tokens;
}

parse_stream_example : IsGuarded 1 (parse_stream 1 (some call_event ∷ none ∷ []))
parse_stream_example = parse_stream-IsGuarded 1 (some call_event ∷ none ∷ [])

parse_stream_cost_example :
    let s = parse_stream 1_000_000_000 (some call_event ∷ []) in
    (sum_usage (calls_of s.calls) s.result_cost).cost_usd ≤ max s.result_cost 1_000_000_000
unfolding parse_stream fizzy_connector.Base.same fizzy_connector.Claude.Stream.guard_estimate
    calls_of put_call cost guard_price is_no_price fizzy_connector.Base.has_prefix
parse_stream_cost_example =
    parse_stream_cost 1_000_000_000 (some call_event ∷ []) (omega arith) refl

abbrev surroundings : Surroundings
surroundings = record {
  now = 60 * minute;
  deadline = some (65 * minute);
  warn_at = some (58 * minute);
  clock = λ t. [];
  minutes = λ t. [];
  socket = [];
  token_file = [];
  token = err (failed []);
  answer = err (failed []);
}
