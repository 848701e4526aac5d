-- ===== src/Claude/Run.antt =====
-- internal/claude/claude.go: the command line of a turn, and what its run returns.
use fizzy_connector.Base.{
  Bool, false, not, ◌&&◌, Option, none, some, List, [], ◌∷◌, ◌++◌, Text, codes, ltb, if◌then◌else◌,
  same, length, Error, not_started, cost_limit, deadline_exceeded, cancelled, failed,
}
use fizzy_connector.Claude.Usage.{Usage, Call, no_usage, sum_usage, calls_of}
use fizzy_connector.Claude.Stream.{Stream}

-- The settings that reach the command line. The two texts of JSON come from package encoding/json.
pub record Turn : Type 0 where
  pub session_id : Text
  pub resume : Bool
  pub system_prompt : Text
  pub mcp_config : Text
  pub permission_mode : Text
  pub allowed_tools : List Text
  pub add_dirs : List Text
  pub approvals : Bool
  pub model : Text
  pub effort : Text
  pub hook_command : Text
  pub hook_settings : Text

approval_tool : Text
approval_tool = codes "mcp__fizzy__approve"

session_args : Turn → List Text
session_args t =
    if t.resume
    then codes "--resume" ∷ t.session_id ∷ []
    else codes "--session-id" ∷ t.session_id ∷ []

dir_args : List Text → List Text
dir_args [] = []
dir_args (d ∷ ds) = codes "--add-dir" ∷ d ∷ ds

approval_args : Turn → List Text
unfolding approval_tool
approval_args t =
    if t.approvals
    then codes "--permission-prompt-tool"
      ∷ approval_tool
      ∷ codes "--disallowedTools"
      ∷ approval_tool
      ∷ []
    else codes "--permission-prompts" ∷ codes "none" ∷ []

optional : Text → Text → Text → List Text
optional flag key value = if same key [] then [] else flag ∷ value ∷ []

unfoldable pub args : Turn → List Text
unfolding session_args dir_args approval_args optional
args t =
    codes "-p" ∷ codes "--output-format" ∷ codes "stream-json" ∷ codes "--verbose" ∷ session_args t
    ++ (codes "--mcp-config" ∷ t.mcp_config ∷ codes "--append-system-prompt" ∷ t.system_prompt ∷ [])
    ++ (codes "--allowedTools" ∷ codes "mcp__fizzy" ∷ [])
    ++ t.allowed_tools
    ++ dir_args t.add_dirs
    ++ (codes "--permission-mode" ∷ t.permission_mode ∷ [])
    ++ approval_args t
    ++ optional (codes "--model") t.model t.model
    ++ optional (codes "--effort") t.effort t.effort
    ++ optional (codes "--settings") t.hook_command t.hook_settings

pub record RunResult : Type 0 where
  pub session_started : Bool
  pub text : Text
  pub is_error : Bool
  pub usage : Usage

abbrev pub no_result : RunResult
no_result = record { session_started = false; text = []; is_error = false; usage = no_usage }

-- Why the context of the caller ended.
pub data ContextEnd : Type 0 where
  timed_out stopped : ContextEnd

unfoldable pub context_error : ContextEnd → Error
context_error timed_out = deadline_exceeded
context_error stopped = cancelled

-- What the process and the contexts did: whether it started, the error of the context of the caller,
-- whether the limit stopped the run, whether the process failed, and what the readers of the stream
-- and of the transcript gave.
pub record Process : Type 0 where
  pub started : Bool
  pub ctx_error : Option ContextEnd
  pub cost_stopped : Bool
  pub wait_failed : Bool
  pub stream : Stream
  pub transcript : List Call

-- The transcript has the exact tokens, unless it has fewer calls than the stream.
chosen_calls : Process → List Call
chosen_calls p =
    let streamed = calls_of p.stream.calls in
    if ltb (length p.transcript) (length streamed) then streamed else p.transcript

result_of : Process → RunResult
unfolding chosen_calls
result_of p = record {
  session_started = p.stream.session_started;
  text = p.stream.text;
  is_error = p.stream.is_error;
  usage = sum_usage (chosen_calls p) p.stream.result_cost;
}

ctx_result : Process → Option ContextEnd → RunResult × Option Error
unfolding result_of context_error
ctx_result p (some e) = (result_of p, some (context_error e))
ctx_result p none =
    if p.wait_failed && same p.stream.text [] && not p.cost_stopped
    then (result_of p, some (failed (codes "claude")))
    else (result_of p, none)

-- `Run`: the result, and the error if any. An answer that arrived with the stop is an answer.
unfoldable pub run : Process → RunResult × Option Error
unfolding ctx_result result_of
run p =
    if not p.started
    then (no_result, some not_started)
    else if p.cost_stopped && not p.stream.answered_after_stop
    then (result_of p, some cost_limit)
    else ctx_result p p.ctx_error
