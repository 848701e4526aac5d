-- ===== src/Daemon/Messages.antt =====
-- internal/daemon/daemon.go: the requests of a running turn (handleIPC), and the messages between
-- the agents of two cards (deliverAgentMessage).
pub mod Limits
use fizzy_connector.Base.{
  ℕ, ◌+◌, Bool, true, false, not, Option, none, some, List, [], ◌∷◌, ◌++◌, Text, codes, ltb, leb,
  ◌==◌, if◌then◌else◌, same, byte_len, length, Result, ok, err, Error, failed,
}
use fizzy_connector.Store.{Kind, agent_message, Item, CardState}
use fizzy_connector.Ipc.{
  Op, replied, progress, message, approve, check, unknown, Request, Response, no_response,
  error_response, message_response,
}
use fizzy_connector.Daemon.Effects.{
  Sent, kicked, Sys, M, bind, ◌>>=◌, ◌>>◌, pure, lift, send, get_card, update_card, meanwhile,
}
use fizzy_connector.Daemon.Approvals.Subject.{Checked}
use fizzy_connector.Daemon.Approvals.Requests.{Question, Asking, request_approval}
use fizzy_connector.Daemon.Turns.{Turn, note_comment, Activity}
use fizzy_connector.Daemon.Turns as Turns

abbrev pub max_agent_hops : ℕ
max_agent_hops = 3

abbrev pub max_agent_message_size : ℕ
max_agent_message_size = 20000

abbrev pub max_queue_length : ℕ
max_queue_length = 20

unfoldable pub refuse : {A : Type 0} → Text → M A
refuse text = lift (err (failed text))

unfoldable pub message_item : Turn → Request → Item
message_item t request = record {
  kind = agent_message;
  trigger_id = [];
  author_id = [];
  author_name = [];
  from_card = t.card;
  text = request.text;
  hops = t.hops + 1;
}

-- `others` is what the rest of the daemon does to the card between the read and the write.
unfoldable pub queue_message : (CardState → CardState) → Turn → Request → M (Unit {0})
queue_message others t request = do
  _ ← meanwhile request.to_card others
  _ ←
      update_card request.to_card
        (λ state. record state { queue = state.queue ++ message_item t request ∷ [] })
  send (kicked request.to_card) (ok tt)

unfoldable pub deliver_to : (CardState → CardState) → Turn → Request → CardState → M (Unit {0})
unfolding refuse queue_message
deliver_to others t request target =
    if not target.session_started
    then refuse (codes "no agent has a session for the card")
    else if leb max_queue_length (length target.queue)
    then refuse (codes "message refused: the agent of the card has too much queued work")
    else queue_message others t request

unfoldable pub deliver_agent_message : (CardState → CardState) → Turn → Request → M (Unit {0})
unfolding refuse deliver_to
deliver_agent_message others t request =
    let deliver : M (Unit {0}) = (do
      target ← get_card request.to_card
      deliver_to others t request target) in
    if request.to_card == t.card
    then refuse (codes "you cannot send a message to your own card")
    else if not t.alive
    then refuse (codes "the turn ended")
    else if leb max_agent_hops t.hops
    then refuse (codes "message refused: this chain of agent messages reached the limit")
    else if ltb max_agent_message_size (byte_len request.text)
    then refuse (codes "message refused: the limit is 20000 characters")
    else deliver

-- What a request meets: the running turns by token, the clock, the check and the permission
-- request of the turn, and the rest of the daemon.
pub record Desk : Type 0 where
  pub now : ℕ
  pub error_text : Error → Text
  pub entered_in_time : Bool
  pub activity : Activity
  pub interval : ℕ
  pub note : Text
  pub subject_of : Request → Checked
  pub question : Text → Question
  pub wait : Text
  pub asking : Asking
  pub others : CardState → CardState

-- The answer, the turn after the request, and the system. There is no answer while a permission
-- request is open.
pub record Handled : Type 0 where
  pub response : Option Response
  pub turn : Turn
  pub sys : Sys

delivered : Desk → Turn → Result (Unit {0}) × Sys → Handled
delivered d t (ok _, s) = record { response = some no_response; turn = t; sys = s }
delivered d t (err e, s) = record {
  response = some (error_response (d.error_text e));
  turn = t;
  sys = s;
}

checked : Sys → Text × Turn → Handled
checked s (text, t) = record { response = some (message_response text); turn = t; sys = s }

unfoldable pub handle_op : Desk → Turn → Request → Op → Sys → Handled
unfolding delivered checked
handle_op d t request replied s = record {
  response = some no_response;
  turn = note_comment d.now true t;
  sys = s;
}
handle_op d t request progress s = record {
  response = some no_response;
  turn = note_comment d.now false t;
  sys = s;
}
handle_op d t request check s =
    checked s (Turns.check d.entered_in_time d.activity d.interval d.note t)
handle_op d t request message s = delivered d t (deliver_agent_message d.others t request s)
handle_op d t request approve s = record {
  response = request_approval d.question (d.subject_of request) d.wait d.asking;
  turn = t;
  sys = s;
}
handle_op d t request (unknown op) s = record {
  response = some (error_response (codes "unknown operation " ++ op));
  turn = t;
  sys = s;
}

-- The running turns by token, and the system.
pub record Office : Type 0 where
  pub turns : Text → Option Turn
  pub sys : Sys

seated : Office → Text → Handled → Option Response × Office
seated o token h = (
  h.response,
  record { turns = λ u. if same u token then some h.turn else o.turns u; sys = h.sys },
)

handle_for : Desk → Request → Office → Option Turn → Option Response × Office
unfolding handle_op seated
handle_for d request o none =
    (some (error_response (codes "this request does not belong to a turn that runs")), o)
handle_for d request o (some t) = seated o request.token (handle_op d t request request.op o.sys)

-- `handleIPC`; `turnFor` is the lookup of the token.
unfoldable pub handle_ipc : Desk → Request → Office → Option Response × Office
unfolding handle_for
handle_ipc d request o = handle_for d request o (o.turns request.token)
