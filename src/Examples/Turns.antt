-- ===== src/Examples/Turns.antt =====
-- The life of a queue, the end of a turn, documents and permission questions.
use fizzy_connector.Base.{
  ◌≡◌, refl, ◌⊎◌, ◌*◌, true, false, not, ◌&&◌, some, none, [], ◌∷◌, ◌++◌, Text, codes, arith,
  Result, ok, err, Error,
}
use fizzy_connector.Config.{minute}
use fizzy_connector.Store.{CardState, new_state, update}
use fizzy_connector.Claude.Run.{no_result}
use fizzy_connector.Daemon.Effects.{commented}
use fizzy_connector.Daemon.Triggers.{record_triggers}
use fizzy_connector.Daemon.Triggers.Records as Records
use fizzy_connector.Daemon.Turns.{Turn, begin_turn, present, max_hops, answered}
use fizzy_connector.Daemon.Turns.Run.{
  World, Ran, save_turn, pending_reply_of, deliver_pending_reply,
}
use fizzy_connector.Daemon.Turns.Run.Laws.{pending_reply_of-nil, deliver_pending_reply_lem}
use fizzy_connector.Daemon.Turns.Life.{
  Life, record_step, message_step, begin_step, save_step, here, next, idle_life, OwnsStart,
  Reach-accounts,
}
use fizzy_connector.Examples.Data.{
  libs, card, call_comment, empty_sys, agent_item, call_trigger, started_card,
}

abbrev world : World
world = record {
  libs = libs;
  formats = record { usd = λ n. []; count = λ n. []; duration = λ n. []; error = λ e. [] };
  bot_user_id = codes "bot";
  turn_timeout = 30 * minute;
  max_cost = 100;
  fresh_id = codes "f";
  renewed_id = codes "g";
  posted = λ t. ok (codes "c9");
  card = ok card;
  comments = ok (call_comment ∷ []);
  token = ok tt;
  assigned = ok tt;
  presented_up_to = λ s. 5;
  claude = λ s. (no_result, none);
  during = λ t. t;
  others = λ s. s;
  stopped = false;
  started_at = 0;
  ended_at = 9;
}

abbrev life_queued : Life
life_queued = record (idle_life started_card) {
  state = record_triggers (call_trigger ∷ []) started_card;
  arrived = [] ++ Records.new_items started_card (call_trigger ∷ []);
}

abbrev life_begun : Life
life_begun = record life_queued {
  turn = some (
      present life_queued.state.queue 5
        (begin_turn 1 life_queued.state.number (max_hops life_queued.state.queue 0)));
  shown = life_queued.state.queue;
}

abbrev life_message : Life
life_message = record life_begun {
  state = record life_begun.state { queue = life_begun.state.queue ++ agent_item ∷ [] };
  arrived = life_begun.arrived ++ agent_item ∷ [];
}

abbrev turn_begun : Turn
turn_begun =
    present life_queued.state.queue 5
      (begin_turn 1 life_queued.state.number (max_hops life_queued.state.queue 0))

abbrev ran : Ran
ran = record {
  state = started_card;
  turn = turn_begun;
  result = no_result;
  run_error = none;
  renewed = false;
}

abbrev life_saved : Life
life_saved = record life_message {
  state = save_turn world ran life_message.state;
  turn = none;
  shown = [];
  finished = life_message.finished ++ life_message.shown;
}

Reach-accounts_example :
    (life_saved.finished ++ life_saved.state.queue ≡ life_saved.arrived)
    × OwnsStart life_saved.state.queue life_saved.shown life_saved.turn
unfolding new_state
Reach-accounts_example = Reach-accounts started_card {m = life_saved} refl (
    next
      (next (next (next here (record_step (call_trigger ∷ []) refl)) (begin_step 1 5 refl refl))
        (message_step agent_item refl))
      (save_step world ran refl refl))

pending_reply_of_example :
    ((pending_reply_of world ran ≡ [])
      → (ran.turn.human_request ≡ false) ⊎ (answered ran.turn ≡ true))
    × ((ran.turn.human_request && not (answered ran.turn)) ≡ false
        → pending_reply_of world ran ≡ [])
pending_reply_of_example = pending_reply_of-nil world ran

abbrev owing_card : CardState
owing_card = record started_card { pending_reply = codes "hello" }

deliver_pending_reply_example :
    let r = deliver_pending_reply world owing_card empty_sys in
    (r.1.sent ≡ [] ++ commented owing_card.number (codes "hello") ∷ [])
    × ((e : Error)
        → ◌≡◌ {A = Result Text} (ok (codes "c9")) (err e)
        → (r.0 ≡ err e) × (r.1.store ≡ empty_sys.store))
    × ((id : Text)
        → ◌≡◌ {A = Result Text} (ok (codes "c9")) (ok id)
        → r.1.store
          ≡ (update empty_sys.store owing_card.number
              (λ saved. record saved { pending_reply = [] })).1)
deliver_pending_reply_example =
    deliver_pending_reply_lem world owing_card empty_sys (λ e. ground arith)
