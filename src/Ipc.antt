-- ===== src/Ipc.antt =====
-- internal/ipc/ipc.go: the requests of the MCP server of a turn to the daemon, and the responses.
use fizzy_connector.Base.{
  ℕ, Bool, true, false, Option, none, some, Text, [], if◌then◌else◌, same, Result, ok, err, failed,
  codes,
}

-- `unknown` is any other text in the field of the operation.
pub data Op : Type 0 where
  replied progress message approve check : Op
  unknown : Text → Op

pub record Request : Type 0 where
  pub op : Op
  pub token : Text
  pub to_card : ℕ
  pub text : Text
  pub tool_name : Text
  pub tool_input : Text

pub record Response : Type 0 where
  pub error : Text
  pub approved : Bool
  pub message : Text

abbrev pub no_response : Response
no_response = record { error = []; approved = false; message = [] }

abbrev pub error_response : Text → Response
error_response e = record { error = e; approved = false; message = [] }

abbrev pub message_response : Text → Response
message_response m = record { error = []; approved = false; message = m }

abbrev pub approved_response : Response
approved_response = record { error = []; approved = true; message = [] }

-- What the socket gave: no connection, no request written, no answer in time, or an answer.
pub data Exchange : Type 0 where
  not_dialed not_written not_read : Exchange
  answered : Response → Exchange

-- SendAndWait: an answer with an error text is an error.
unfoldable pub send_and_wait : Exchange → Result Response
send_and_wait not_dialed = err (failed (codes "dial"))
send_and_wait not_written = err (failed (codes "write"))
send_and_wait not_read = err (failed (codes "read"))
send_and_wait (answered r) = if same r.error [] then ok r else err (failed r.error)

unfoldable pub send : Exchange → Result (Unit {0})
unfolding send_and_wait
send x = elim (send_and_wait x) [ ok _ ↦ ok tt | err e ↦ err e ]

-- One connection of Serve: a request that does not decode gets no answer.
unfoldable pub serve_one : (Request → Response) → Option Request → Option Response
serve_one handle none = none
serve_one handle (some r) = some (handle r)
