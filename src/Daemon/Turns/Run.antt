-- ===== src/Daemon/Turns/Run.antt =====
-- internal/daemon/worker.go, runTurn: one turn for all the queued items of a card.
pub mod Laws
use fizzy_connector.Base.{
  ℕ, ◌+◌, ◌-◌, ◌/◌, Bool, true, false, not, ◌&&◌, ◌||◌, Option, none, some, List, [], ◌∷◌, ◌++◌,
  Text, if◌then◌else◌, same, length, drop, Result, ok, err, Error, cost_limit, deadline_exceeded,
  cancelled, not_started, card_gone, not_modified, api, failed,
}
use fizzy_connector.Config.{second}
use fizzy_connector.Fizzy.{User, Card, Comment, Libs}
use fizzy_connector.Store.{Item, CardState, TurnRecord, record_turn}
use fizzy_connector.Claude.Usage.{Usage}
use fizzy_connector.Claude.Run.{RunResult}
use fizzy_connector.Daemon.Effects.{
  Sent, commented, toggled_assignment, Sys, M, bind, ◌>>=◌, ◌>>◌, pure, lift, send, update_card,
  meanwhile,
}
use fizzy_connector.Daemon.Turns.{
  Turn, answered, begin_turn, end_turn, max_hops, present, Formats, fallback_reply,
}

-- The world of a turn: the new ids, what Fizzy answers, when the turn began and ended, and the runs
-- of Claude. `during` is all that happens to the turn while Claude runs (notes, checks), `others` all
-- that the rest of the daemon does meanwhile to the card, and `stopped` whether the daemon stops.
pub record World : Type 0 where
  pub libs : Libs
  pub formats : Formats
  pub bot_user_id : Text
  pub turn_timeout : ℕ
  pub max_cost : ℕ
  pub fresh_id : Text
  pub renewed_id : Text
  pub posted : Text → Result Text
  pub card : Result Card
  pub comments : Result (List Comment)
  pub token : Result (Unit {0})
  pub assigned : Result (Unit {0})
  pub presented_up_to : CardState → ℕ
  pub claude : CardState → RunResult × Option Error
  pub during : Turn → Turn
  pub others : CardState → CardState
  pub stopped : Bool
  pub started_at : ℕ
  pub ended_at : ℕ

unfoldable pub ensure_session : Text → CardState → CardState
ensure_session fresh s = if same s.session_id [] then record s { session_id = fresh } else s

-- `deliverPendingReply`: the answer stays in the state until Fizzy accepts it.
unfoldable pub deliver_pending_reply : World → CardState → M (Unit {0})
deliver_pending_reply w s =
    let html = w.libs.markdown_to_html s.pending_reply in
    let deliver : M (Unit {0}) = (do
      _ ← send (commented s.number html) (w.posted html)
      _ ← update_card s.number (λ saved. record saved { pending_reply = [] })
      pure tt) in
    if same s.pending_reply [] then pure tt else deliver

has_assignee : Text → List User → Bool
has_assignee id [] = false
has_assignee id (u ∷ us) = same u.id id || has_assignee id us

-- `assignToSelf` only logs a failure.
unfoldable pub assign_to_self : World → Card → M (Unit {0})
unfolding has_assignee
assign_to_self w card s =
    if has_assignee w.bot_user_id card.assignees
    then (ok tt, s)
    else (ok tt, (send (toggled_assignment card.number w.bot_user_id) w.assigned s).1)

-- One call of `runClaude`: the turn presents its items, and Claude runs.
pub record Ran : Type 0 where
  pub state : CardState
  pub turn : Turn
  pub result : RunResult
  pub run_error : Option Error
  pub renewed : Bool

run_claude : World → List Item → Bool → Turn → CardState → Ran
run_claude w items renewed t state =
    let (result, error) = w.claude state in
    record {
      state = state;
      turn = w.during (present items (w.presented_up_to state) t);
      result = result;
      run_error = error;
      renewed = renewed;
    }

is_not_started : Option Error → Bool
is_not_started none = false
is_not_started (some not_started) = true
is_not_started (some not_modified) = false
is_not_started (some card_gone) = false
is_not_started (some cost_limit) = false
is_not_started (some deadline_exceeded) = false
is_not_started (some cancelled) = false
is_not_started (some (api n)) = false
is_not_started (some (failed t)) = false

is_error : Option Error → Bool
is_error none = false
is_error (some e) = true

-- A run that resumed and did not find its session runs once more, with a new session.
must_renew : World → Ran → Bool
unfolding is_not_started is_error
must_renew w r =
    is_error r.run_error
    && r.state.session_started
    && not r.result.session_started
    && not w.stopped
    && not (is_not_started r.run_error)

run_twice : World → List Item → Ran → Ran
unfolding run_claude must_renew
run_twice w items r =
    if must_renew w r
    then run_claude w items true r.turn
        (record r.state { session_id = w.renewed_id; session_started = false })
    else r

-- The pending reply of an ended turn: a person asked, and Claude did not answer.
unfoldable pub pending_reply_of : World → Ran → Text
pending_reply_of w r =
    if r.turn.human_request && not (answered r.turn)
    then fallback_reply w.formats r.result r.run_error w.turn_timeout w.max_cost
    else []

record_of : World → Ran → TurnRecord
record_of w r = record {
  started_at = w.started_at;
  seconds = (w.ended_at - w.started_at) / second;
  resumed = r.state.session_started;
  cost_usd = r.result.usage.cost_usd;
  api_calls = r.result.usage.api_calls;
  input_tokens = r.result.usage.input_tokens;
  cache_write_tokens = r.result.usage.cache_write_tokens;
  cache_read_tokens = r.result.usage.cache_read_tokens;
  output_tokens = r.result.usage.output_tokens;
  context_tokens = r.result.usage.context_tokens;
}

-- The session of the saved state: a reset during the turn keeps its new session.
save_session : Ran → CardState → CardState
save_session r saved =
    if r.renewed || same saved.session_id r.state.session_id
    then record saved {
      session_id = r.state.session_id;
      session_started = r.state.session_started || r.result.session_started;
    }
    else saved

-- The closure with which an ended turn is saved.
unfoldable pub save_turn : World → Ran → CardState → CardState
unfolding record_of save_session
save_turn w r saved =
    let s = save_session r saved in
    record (record_turn (record_of w r) (record s { last_turn_at = w.ended_at })) {
      pending_reply = pending_reply_of w r;
      queue = drop r.turn.consumed saved.queue;
      prompted_until = r.turn.presented_up_to;
    }

-- After the run: a daemon that stops, and a Claude that did not start, leave the queue.
finish_turn : World → ℕ → Ran → M (Unit {0})
unfolding is_not_started
finish_turn w number r =
    let saving : M (Unit {0}) = (do
      saved ← update_card number (save_turn w r)
      deliver_pending_reply w saved) in
    if w.stopped
    then lift (err cancelled)
    else if is_not_started r.run_error
    then lift (err not_started)
    else saving

start_turn : World → ℕ → CardState → M (Unit {0})
unfolding finish_turn run_twice run_claude
start_turn w number state = do
  card ← lift w.card
  _ ← lift w.comments
  lift w.token
  assign_to_self w card
  let t = begin_turn w.started_at number (max_hops state.queue 0)
  meanwhile number w.others
  finish_turn w number (run_twice w state.queue (run_claude w state.queue false t state))

with_items : World → ℕ → CardState → List Item → M (Unit {0})
unfolding start_turn
with_items w number state [] = pure tt
with_items w number state (i ∷ is) = start_turn w number state

unfoldable pub run_turn : World → ℕ → M (Unit {0})
unfolding with_items
run_turn w number = do
  state ← update_card number (ensure_session w.fresh_id)
  deliver_pending_reply w state
  with_items w number state state.queue
