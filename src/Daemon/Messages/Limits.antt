-- ===== src/Daemon/Messages/Limits.antt =====
-- internal/daemon/daemon.go: the limits on the messages between agents.
use fizzy_connector.Base.{
  ◌+◌, ◌≤◌, ◌<◌, ◌≡◌, ◌≢◌, refl, ◌∙◌, ap, Bool, true, false, not, leb, ltb, ◌==◌, [], ◌∷◌, ◌++◌,
  Text, arith, if◌then◌else◌, byte_len, length, ok,
}
use fizzy_connector.Store.{CardState, get}
use fizzy_connector.Store.Laws.{IsKept, update-done}
use fizzy_connector.Ipc.{Request}
use fizzy_connector.Daemon.Effects.{Sys, M, bind-ok, send, get_card, update_card, meanwhile}
use fizzy_connector.Daemon.Scan.Frames.{Keeps}
use fizzy_connector.Daemon.Scan.Notifications.{meanwhile-IsKept}
use fizzy_connector.Daemon.Turns.{Turn}
use fizzy_connector.Daemon.Messages.{
  message_item, refuse, queue_message, deliver_to, deliver_agent_message,
}

-- A message within the limits, to a card with a session.
pub record IsWithin (t : Turn) (request : Request) (target : CardState) : Type 0 where
  pub other_card : request.to_card ≢ t.card
  pub alive : t.alive ≡ true
  pub hops : t.hops < 3
  pub size : byte_len request.text ≤ 20000
  pub started : target.session_started ≡ true
  pub room : length target.queue < 20

queue_message-done :
    (others : CardState → CardState) (t : Turn) (request : Request) (s : Sys)
    → IsKept s.store
    → Keeps others
    → (queue_message others t request s).0 ≡ ok tt
    → (before after : CardState) × (get (meanwhile request.to_card others s).1.store request.to_card
        ≡ ok before)
      × (get (queue_message others t request s).1.store request.to_card ≡ ok after)
      × (after.queue ≡ before.queue ++ message_item t request ∷ [])
unfolding queue_message update_card send
queue_message-done others t request s kept keeps done =
    let n = request.to_card in
    let u = (meanwhile n others s).1 in
    let change : CardState → CardState =
      λ state. record state { queue = state.queue ++ message_item t request ∷ [] } in
    let (_, _, done0, e0) = bind-ok _ _ (meanwhile n others s) _ tt done in
    let (after, saved, _, e1) = bind-ok _ _ (update_card n change u) _ tt done0 in
    let (before, found, made, later) =
      update-done u.store n change after (meanwhile-IsKept n s others keeps kept) (λ c. refl)
        saved in
    (before, after, found, ap (λ r. get r.1.store n) (e0 ∙ e1) ∙ later, ap (λ c. c.queue) made)

-- A guard that was passed: its test is false, and the run is that of what follows it.
guard_passed :
    (b : Bool) (text : Text) (m : M (Unit {0})) (s : Sys)
    → ((if b then refuse text else m) s).0 ≡ ok tt
    → (b ≡ false) × ((m s).0 ≡ ok tt) × ((if b then refuse text else m) s ≡ m s)
unfolding refuse
guard_passed true text m s h = ground arith
guard_passed false text m s h = (refl, h, refl)

-- In a store whose files hold their own cards, with the rest of the daemon leaving the number of
-- the card: a message that is delivered was sent by a turn that runs, to another card that has
-- a session and room in its queue, at most 3 messages deep and at most 20000 bytes long; and it is
-- then the last item of the queue of that card, one hop deeper than the turn.
pub deliver_agent_message-IsWithin :
    (others : CardState → CardState) (t : Turn) (request : Request) (s : Sys)
    → IsKept s.store
    → Keeps others
    → (deliver_agent_message others t request s).0 ≡ ok tt
    → (target before after : CardState) × (get s.store request.to_card ≡ ok target)
      × IsWithin t request target
      × (get (meanwhile request.to_card others s).1.store request.to_card ≡ ok before)
      × (get (deliver_agent_message others t request s).1.store request.to_card ≡ ok after)
      × (after.queue ≡ before.queue ++ message_item t request ∷ [])
      × ((message_item t request).hops ≡ t.hops + 1)
unfolding deliver_agent_message deliver_to get_card message_item
deliver_agent_message-IsWithin others t request s kept keeps done =
    let (other, done0, e0) = guard_passed (request.to_card == t.card) _ _ s done in
    let (alive, done1, e1) = guard_passed (not t.alive) _ _ s done0 in
    let (hops, done2, e2) = guard_passed (leb 3 t.hops) _ _ s done1 in
    let (size, done3, e3) = guard_passed (ltb 20000 (byte_len request.text)) _ _ s done2 in
    let (target, found, done4, e4) =
      bind-ok _ _ (get_card request.to_card s) (deliver_to others t request) tt done3 in
    let (started, done5, e5) = guard_passed (not target.session_started) _ _ s done4 in
    let (room, done6, e6) = guard_passed (leb 20 (length target.queue)) _ _ s done5 in
    let (before, after, then_e, after_e, queue) =
      queue_message-done others t request s kept keeps done6 in
    (
      target,
      before,
      after,
      found,
      record {
        other_card = ground arith;
        alive = ground arith;
        hops = ground arith;
        size = ground arith;
        started = ground arith;
        room = ground arith;
      },
      then_e,
      ap (λ r. get r.1.store request.to_card) (e0 ∙ e1 ∙ e2 ∙ e3 ∙ e4 ∙ e5 ∙ e6) ∙ after_e,
      queue,
      refl,
    )
