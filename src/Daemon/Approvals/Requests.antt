-- ===== src/Daemon/Approvals/Requests.antt =====
-- internal/daemon/approvals.go, requestApproval: a permission question on the card of a turn. What
-- the timers, Fizzy and the store do in each round of the wait is a list of rounds.
pub mod Found
pub mod Grants
use fizzy_connector.Base.{
  ℕ, ◌≡◌, refl, ◌≢◌, ◌⊎◌, inl, inr, Bool, true, false, not, ◌&&◌, ◌||◌, Option, none, some, List,
  [], ◌∷◌, ◌++◌, Text, codes, arith, if◌then◌else◌, same, same_iff, mem_text, CaseTable, Result, ok,
  err, Error, Bool-cases, In,
}
use fizzy_connector.Fizzy.{Comment, Libs}
use fizzy_connector.Config.{Config, is_trusted}
use fizzy_connector.Store.{CardState, is_handled}
use fizzy_connector.Ipc.{Response, no_response, error_response, message_response, approved_response}
use fizzy_connector.Daemon.Approvals.{
  Answer, answer_none, answer_yes, answer_always, answer_no, parse_approval_answer, is_none,
}
use fizzy_connector.Daemon.Approvals.Subject.{
  Subject, is_command, Checked, subject, refused, Refusal,
}

-- A question: who may answer it, and by which code.
pub record Question : Type 0 where
  pub libs : Libs
  pub table : CaseTable
  pub cfg : Config
  pub question_id : Text
  pub code : Text

may_answer : Question → Comment → Bool
may_answer q c = not (same c.creator.id q.cfg.bot_user_id) && is_trusted q.cfg c.creator.id

answer_of : Question → Comment → Answer × Text
answer_of q c = parse_approval_answer q.table (q.libs.plain_text c.html)

-- The loop over the comments; `after` reports that the question was seen.
pub find_from : Question → Bool → List Comment → Option (Comment × Answer)
unfolding may_answer answer_of
find_from q after [] = none
find_from q after (c ∷ cs) =
    let at_question = find_from q true cs in
    let later = find_from q after cs in
    if same c.id q.question_id
    then at_question
    else if not after || not (may_answer q c)
    then later
    else if same (answer_of q c).1 q.code
    then some (c, (answer_of q c).0)
    else later

unfoldable pub find_approval_answer : Question → Result (List Comment) → Option (Comment × Answer)
unfolding find_from
find_approval_answer q (err e) = none
find_approval_answer q (ok cs) = find_from q false cs

unfoldable pub is_always : Answer → Bool
is_always answer_always = true
is_always answer_none = false
is_always answer_yes = false
is_always answer_no = false

-- The closure of the update: the answer counts only while the turn is alive, and one time.
unfoldable pub grant : Bool → Subject → Answer → Text → CardState → Bool × CardState
unfolding is_always
grant alive s answer id state = if not alive || is_handled state id then (false, state) else (
  true,
  record state {
    handled = state.handled ++ id ∷ [];
    allowed_commands =
        if is_always answer && is_command s
        then state.allowed_commands ++ s.command ∷ []
        else state.allowed_commands;
  },
)

pub data Wake : Type 0 where
  turn_ended expired polled : Wake

-- One round of the wait: why it woke, the comments that Fizzy gave, whether the turn was alive and
-- the state of the card at the update, and whether the write failed.
pub record Round : Type 0 where
  pub wake : Wake
  pub comments : Result (List Comment)
  pub alive : Bool
  pub saved : Result CardState
  pub write_fails : Bool

-- What a round does: it waits on, or gives a response; `written` is the state that it wrote.
pub record Outcome : Type 0 where
  pub response : Option Response
  pub written : Option CardState

disk : Text
disk = codes "disk"

reply_of : Comment → Answer → Response
reply_of c answer_no =
    message_response (c.creator.name ++ codes " refused this action in Fizzy. Do not try it again.")
reply_of c answer_none = approved_response
reply_of c answer_yes = approved_response
reply_of c answer_always = approved_response

after_grant : Answer → Comment → Bool → Bool × CardState → Outcome
unfolding disk reply_of
after_grant answer c fails (granted, state) =
    if fails
    then record { response = some (error_response disk); written = none }
    else if not granted
    then record { response = none; written = some state }
    else record { response = some (reply_of c answer); written = some state }

update_round : Subject → Round → Comment → Answer → Result CardState → Outcome
unfolding after_grant disk
update_round s r c given (err e) = record { response = some (error_response disk); written = none }
update_round s r c given (ok state) =
    after_grant given c r.write_fails (grant r.alive s given c.id state)

poll_round : Subject → Round → Option (Comment × Answer) → Outcome
unfolding update_round
poll_round s r none = record { response = none; written = none }
poll_round s r (some (c, answer)) =
    if is_none answer
    then record { response = none; written = none }
    else update_round s r c answer r.saved

turn_ended_text : Text
turn_ended_text = codes "The turn ended before a person answered."

timed_out_text : Text → Text
timed_out_text wait =
    codes "No trusted person answered within "
    ++ wait
    ++ codes ". Do not try this action again. Say in your reply what you could not do."

round_by : Question → Subject → Text → Round → Wake → Outcome
unfolding poll_round turn_ended_text timed_out_text
round_by q s wait r turn_ended = record {
  response = some (message_response turn_ended_text);
  written = none;
}
round_by q s wait r expired = record {
  response = some (message_response (timed_out_text wait));
  written = none;
}
round_by q s wait r polled = poll_round s r (find_approval_answer q r.comments)

-- `wait` is the timeout as text.
unfoldable pub round : Question → Subject → Text → Round → Outcome
unfolding round_by
round q s wait r = round_by q s wait r r.wake

-- The wait over the rounds so far: the response, or none while the question is open.
unfoldable pub wait_rounds : Question → Subject → Text → List Round → Option Response
wait_rounds q s wait [] = none
wait_rounds q s wait (r ∷ rs) =
    let later = wait_rounds q s wait rs in
    elim (round q s wait r).response [ some response ↦ some response | none ↦ later ]

pub data Gate : Type 0 where
  entered gate_ended gate_expired : Gate

-- The surroundings of a request: the gate of the card, the state read and whether the turn is alive
-- then, and the comment that asks.
pub record Asking : Type 0 where
  pub gate : Gate
  pub state : Result CardState
  pub alive : Bool
  pub posted : Result Text
  pub rounds : List Round
  pub refusal_text : Refusal → Text

is_allowed : Subject → Asking → Result CardState → Option Response
unfolding disk
is_allowed s a (err e) = some (error_response disk)
is_allowed s a (ok state) =
    if mem_text s.command state.allowed_commands && a.alive then some approved_response else none

ask : (Text → Question) → Subject → Text → Asking → Result Text → Option Response
ask q s wait a (err e) = some (error_response (codes "fizzy"))
ask q s wait a (ok id) = wait_rounds (q id) s wait a.rounds

enter : (Text → Question) → Subject → Text → Asking → Gate → Option Response
unfolding is_allowed ask turn_ended_text timed_out_text
enter q s wait a gate_ended = some (message_response turn_ended_text)
enter q s wait a gate_expired = some (message_response (timed_out_text wait))
enter q s wait a entered =
    let asked = ask q s wait a a.posted in
    if is_command s
    then elim (is_allowed s a a.state) [ some response ↦ some response | none ↦ asked ]
    else asked

unfoldable pub request_approval : (Text → Question) → Checked → Text → Asking → Option Response
unfolding enter
request_approval q (refused r) wait a = some (
    message_response (
      codes "The connector refused this permission request: "
      ++ a.refusal_text r
      ++ codes ". Do not try it again."))
request_approval q (subject s) wait a = enter q s wait a a.gate
