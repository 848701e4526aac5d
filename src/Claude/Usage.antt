-- ===== src/Claude/Usage.antt =====
-- internal/claude/claude.go: the usage of the API calls of a turn, and the calls of a transcript
-- (internal/claude/transcript.go).
pub mod Laws
use fizzy_connector.Base.{
  ℕ, ◌+◌, max, Bool, true, false, not, ◌&&◌, ◌||◌, Option, none, some, List, [], ◌∷◌, ◌++◌, Text,
  codes, ltb, ◌==◌, if◌then◌else◌, same, map, length, Result, ok, err,
}
use fizzy_connector.Claude.Prices.{Tokens, is_no_tokens, context, cost, price_of, guard_price}

pub record Usage : Type 0 where
  pub cost_usd : ℕ
  pub api_calls : ℕ
  pub input_tokens : ℕ
  pub cache_write_tokens : ℕ
  pub cache_read_tokens : ℕ
  pub output_tokens : ℕ
  pub context_tokens : ℕ

pub record Call : Type 0 where
  pub model : Text
  pub subagent : Bool
  pub tokens : Tokens

-- The slice `calls` with the map `index`: each call beside its message id, in order of arrival. A
-- call whose id is there takes the place of the old one.
unfoldable pub put_call : Text → Call → List (Text × Call) → List (Text × Call)
put_call id c [] = (id, c) ∷ []
put_call id c ((k, old) ∷ rest) =
    let later = (k, old) ∷ put_call id c rest in if same k id then (k, c) ∷ rest else later

unfoldable pub calls_of : List (Text × Call) → List Call
calls_of = map (λ e. e.1)

sum_from : List Call → Usage → ℕ → Usage × ℕ
sum_from [] u estimate = (u, estimate)
sum_from (c ∷ cs) u estimate =
    let skipped = sum_from cs u estimate in
    let counted =
      sum_from cs
        (record u {
          api_calls = u.api_calls + 1;
          input_tokens = u.input_tokens + c.tokens.input_tokens;
          cache_write_tokens = u.cache_write_tokens + c.tokens.cache_write_tokens;
          cache_read_tokens = u.cache_read_tokens + c.tokens.cache_read_tokens;
          output_tokens = u.output_tokens + c.tokens.output_tokens;
          context_tokens =
              if not c.subagent && ltb 0 (context c.tokens)
              then context c.tokens
              else u.context_tokens;
        })
        (estimate + cost (price_of c.model) c.tokens) in
    if is_no_tokens c.tokens then skipped else counted

abbrev pub no_usage : Usage
no_usage = record {
  cost_usd = 0;
  api_calls = 0;
  input_tokens = 0;
  cache_write_tokens = 0;
  cache_read_tokens = 0;
  output_tokens = 0;
  context_tokens = 0;
}

unfoldable pub sum_usage : List Call → ℕ → Usage
unfolding sum_from
sum_usage calls result_cost =
    let (u, estimate) = sum_from calls no_usage 0 in
    record u { cost_usd = max result_cost estimate }

-- A line of a transcript, as package encoding/json reads it; `none` is a line that is no JSON.
pub record TranscriptLine : Type 0 where
  pub line_type : Text
  pub timestamp : ℕ
  pub id : Text
  pub model : Text
  pub usage : Tokens

is_skipped : ℕ → TranscriptLine → Bool
is_skipped since l =
    not (same l.line_type (codes "assistant")) || same l.id [] || ltb l.timestamp since

read_line : ℕ → Bool → Option TranscriptLine → List (Text × Call) → List (Text × Call)
unfolding is_skipped
read_line since subagent none calls = calls
read_line since subagent (some l) calls =
    if is_skipped since l
    then calls
    else put_call l.id (record { model = l.model; subagent = subagent; tokens = l.usage }) calls

read_lines : ℕ → Bool → List (Option TranscriptLine) → List (Text × Call) → List (Text × Call)
unfolding read_line
read_lines since subagent [] calls = calls
read_lines since subagent (l ∷ ls) calls =
    read_lines since subagent ls (read_line since subagent l calls)

-- `readCalls` over the lines of a file, or the error of opening or reading it.
unfoldable pub read_calls : ℕ → Bool → Result (List (Option TranscriptLine)) → Result (List Call)
unfolding read_lines calls_of
read_calls since subagent (err e) = err e
read_calls since subagent (ok lines) = ok (calls_of (read_lines since subagent lines []))

append_calls : Result (List Call) → Result (List Call) → Result (List Call)
append_calls (err e) more = err e
append_calls (ok calls) (err e) = err e
append_calls (ok calls) (ok more) = ok (calls ++ more)

read_subagents :
    ℕ → Result (List Call) → List (Result (List (Option TranscriptLine))) → Result (List Call)
unfolding append_calls
read_subagents since calls [] = calls
read_subagents since calls (f ∷ fs) =
    read_subagents since (append_calls calls (read_calls since true f)) fs

-- `readTranscript`: the file of the session, and the files of its subagents.
unfoldable pub read_transcript :
    ℕ
    → Result (List (Option TranscriptLine))
    → List (Result (List (Option TranscriptLine)))
    → Result (List Call)
unfolding read_subagents read_calls
read_transcript since main subagents = read_subagents since (read_calls since false main) subagents

-- `transcriptCalls`: the hook's file names the transcript, or there is none.
unfoldable pub transcript_calls :
    Bool
    → Result (Unit {0})
    → ℕ
    → Result (List (Option TranscriptLine))
    → List (Result (List (Option TranscriptLine)))
    → List Call
transcript_calls false recorded since main subagents = []
transcript_calls true (err e) since main subagents = []
transcript_calls true (ok _) since main subagents = elim (read_transcript since main subagents) [
  | err e ↦ []
  | ok calls ↦ calls
]
