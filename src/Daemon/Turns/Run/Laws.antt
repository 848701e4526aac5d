-- ===== src/Daemon/Turns/Run/Laws.antt =====
-- internal/daemon/worker.go: what an ended turn leaves behind.
use fizzy_connector.Base.{
  ℕ, ◌+◌, ◌*◌, ◌≤◌, ◌≡◌, refl, ◌≢◌, ◌⊎◌, true, false, not, ◌&&◌, ◌||◌, Option, none, some, [], ◌∷◌,
  ◌++◌, Text, arith, same_iff, drop, ok, err, Error, cost_limit, deadline_exceeded, cancelled,
  not_started, card_gone, not_modified, api, failed,
}
use fizzy_connector.Config.{minute}
use fizzy_connector.Store.{CardState, record_turn, update}
use fizzy_connector.Claude.Run.{RunResult}
use fizzy_connector.Daemon.Effects.{commented, Sys, send, update_card}
use fizzy_connector.Daemon.Turns.{answered, Formats, fallback_reply, warning_before}
use fizzy_connector.Daemon.Turns.Run.{
  World, Ran, pending_reply_of, save_turn, deliver_pending_reply,
}

-- The connector always has an answer to post.
fallback_reply-ne-nil :
    (f : Formats) (r : RunResult) (e : Option Error) (timeout max_cost : ℕ)
    → fallback_reply f r e timeout max_cost ≢ []
unfolding fallback_reply
fallback_reply-ne-nil f r none timeout max_cost = λ h. ground (arith, same_iff r.text [])
fallback_reply-ne-nil f r (some cost_limit) timeout max_cost = λ h. ground arith
fallback_reply-ne-nil f r (some deadline_exceeded) timeout max_cost = λ h. ground arith
fallback_reply-ne-nil f r (some cancelled) timeout max_cost = λ h. ground arith
fallback_reply-ne-nil f r (some not_started) timeout max_cost = λ h. ground arith
fallback_reply-ne-nil f r (some card_gone) timeout max_cost = λ h. ground arith
fallback_reply-ne-nil f r (some not_modified) timeout max_cost = λ h. ground arith
fallback_reply-ne-nil f r (some (api n)) timeout max_cost = λ h. ground arith
fallback_reply-ne-nil f r (some (failed t)) timeout max_cost = λ h. ground arith

-- An ended turn leaves a pending reply exactly when a person asked and Claude has not answered, so
-- that each request of a person gets an answer.
pub pending_reply_of-nil :
    (w : World) (r : Ran)
    → ((pending_reply_of w r ≡ []) → (r.turn.human_request ≡ false) ⊎ (answered r.turn ≡ true))
      × ((r.turn.human_request && not (answered r.turn)) ≡ false → pending_reply_of w r ≡ [])
unfolding pending_reply_of
pending_reply_of-nil w r = (
  (λ h.
      ground
        (arith, fallback_reply-ne-nil w.formats r.result r.run_error w.turn_timeout w.max_cost)),
  (λ h. ground arith),
)

-- Saving a turn takes the items that it owned off the queue and no other, keeps what was handled and
-- permitted, and counts the turn. A session that was reset during the turn stays as the reset left
-- it, unless the turn made a new session itself; otherwise the session is that of the turn.
pub save_turn_lem :
    (w : World) (r : Ran) (s : CardState)
    → let t = save_turn w r s in
      (t.queue ≡ drop r.turn.consumed s.queue)
      × (t.handled ≡ s.handled)
      × (t.allowed_commands ≡ s.allowed_commands)
      × (t.needs_scan ≡ s.needs_scan)
      × (t.turn_count ≡ s.turn_count + 1)
      × (t.pending_reply ≡ pending_reply_of w r)
      × (r.renewed ≡ false
          → s.session_id ≢ r.state.session_id
          → (t.session_id ≡ s.session_id) × (t.session_started ≡ s.session_started))
      × ((r.renewed ≡ true) ⊎ (s.session_id ≡ r.state.session_id)
          → (t.session_id ≡ r.state.session_id)
            × (t.session_started ≡ (r.state.session_started || r.result.session_started)))
unfolding save_turn record_turn
save_turn_lem w r s = (
  refl,
  ground arith,
  ground arith,
  ground arith,
  ground arith,
  refl,
  (λ a b. ground (arith, same_iff s.session_id r.state.session_id)),
  (λ a. ground (arith, same_iff s.session_id r.state.session_id)),
)

-- A pending reply stays in the store until Fizzy has accepted it. A delivery sends the reply as one
-- comment on the card; when Fizzy refuses it, the delivery fails and no card changes; when Fizzy
-- accepts it, the delivery goes on to clear the reply of the card in the store.
pub deliver_pending_reply_lem :
    (w : World) (c : CardState) (s : Sys)
    → c.pending_reply ≢ []
    → let html = w.libs.markdown_to_html c.pending_reply in
      let r = deliver_pending_reply w c s in
      (r.1.sent ≡ s.sent ++ commented c.number html ∷ [])
      × ((e : Error) → w.posted html ≡ err e → (r.0 ≡ err e) × (r.1.store ≡ s.store))
      × ((id : Text)
          → w.posted html ≡ ok id
          → r.1.store ≡ (update s.store c.number (λ saved. record saved { pending_reply = [] })).1)
unfolding deliver_pending_reply send update_card
deliver_pending_reply_lem w c s h = (
  ground (arith, same_iff c.pending_reply []),
  (λ e k. ground (arith, same_iff c.pending_reply [])),
  (λ id k. ground (arith, same_iff c.pending_reply [])),
)

-- The warning comes between two and ten minutes before the end of a turn.
pub warning_before_lem :
    (timeout : ℕ) → (2 * minute ≤ warning_before timeout) × (warning_before timeout ≤ 10 * minute)
unfolding warning_before
warning_before_lem timeout = omega arith
