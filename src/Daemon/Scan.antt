-- ===== src/Daemon/Scan.antt =====
-- internal/daemon/daemon.go: the scan of a card for mentions, and the notifications that start one.
pub mod Frames
pub mod Notifications
pub mod Handled
use fizzy_connector.Base.{
  ℕ, Bool, true, false, not, ◌&&◌, ◌||◌, Option, none, some, List, [], ◌∷◌, ◌++◌, Text, codes, ◌==◌,
  if◌then◌else◌, Result, ok, err, Error, cost_limit, deadline_exceeded, cancelled, not_started,
  card_gone, not_modified, api, failed,
}
use fizzy_connector.Fizzy.{User, Card, Comment, Notification, is_mention, Libs}
use fizzy_connector.Config.{Config}
use fizzy_connector.Store.{Kind, description, comment, agent_message, Item, CardState, is_handled}
use fizzy_connector.Daemon.Effects.{
  Sent, commented, reacted_to_card, reacted_to_comment, marked_read, kicked, Sys, M, bind, ◌>>=◌,
  ◌>>◌, pure, lift, send, get_card, update_card, meanwhile,
}
use fizzy_connector.Daemon.Triggers.{
  Evidence, Scan, Trigger, find_triggers, record_triggers, description_id, long_description_mention,
  only_trusted_members,
}

-- What a scan has from the daemon.
pub record Scanner : Type 0 where
  pub libs : Libs
  pub cfg : Config
  pub is_approval_answer : Text → Bool

-- What one scan meets: what Fizzy answers, whether an approval is open, and what the rest of the
-- daemon does to the card between the read and the write of its state.
pub record Sight : Type 0 where
  pub card : Result Card
  pub comments : Result (List Comment)
  pub members : Result (List User)
  pub noticed : Result Text
  pub reacted : Item → Result (Unit {0})
  pub approval_pending : Bool
  pub others : CardState → CardState

-- The statuses 404 and 403 mean that the card is gone.
gone_error : Error → Error
gone_error (api n) = if n == 404 || n == 403 then card_gone else api n
gone_error card_gone = card_gone
gone_error not_modified = not_modified
gone_error not_started = not_started
gone_error cost_limit = cost_limit
gone_error deadline_exceeded = deadline_exceeded
gone_error cancelled = cancelled
gone_error (failed t) = failed t

unfoldable pub found_card : Result Card → Result Card
unfolding gone_error
found_card (ok card) = ok card
found_card (err e) = err (gone_error e)

long_description_notice : Text
long_description_notice =
    codes
      "I see a mention in the description of this card. The description is longer than 200 characters, and this board has people who are not in my trusted list. All of them can edit a description, so I cannot confirm who wrote all of it. Mention me in a comment, and I will do the work."

unfoldable pub explain_long_description : Scanner → Sight → ℕ → Text → M (Unit {0})
unfolding long_description_notice
explain_long_description k v n id = do
  _ ← send (commented n (k.libs.markdown_to_html long_description_notice)) v.noticed
  _ ← update_card n (λ state. record state { handled = state.handled ++ id ∷ [] })
  pure tt

-- Whether all members of the board are trusted, asked only for a long description.
unfoldable pub with_members : Scanner → Sight → ℕ → Card → CardState → List User → M Bool
unfolding explain_long_description
with_members k v n card state members =
    let trusted = only_trusted_members k.cfg members in
    let id = description_id k.libs (codes "long-description") card.description in
    let explain : M Bool = (do _ ← explain_long_description k v n id; pure trusted) in
    if not trusted && not (is_handled state id) then explain else pure trusted

unfoldable pub board_trust : Scanner → Sight → ℕ → Option Evidence → Card → CardState → M Bool
unfolding with_members
board_trust k v n evidence card state =
    let asked : M Bool = (do members ← lift v.members; with_members k v n card state members) in
    if long_description_mention k.libs k.cfg card evidence then asked else pure false

-- `acknowledge` only logs a failure.
unfoldable pub reaction : ℕ → Item → Kind → Sent
reaction n item description = reacted_to_card n
reaction n item comment = reacted_to_comment n item.trigger_id
reaction n item agent_message = reacted_to_comment n item.trigger_id

unfoldable pub acknowledge : Sight → ℕ → Item → Sys → Sys
unfolding reaction
acknowledge v n item s = (send (reaction n item item.kind) (v.reacted item) s).1

unfoldable pub acknowledge_all : Sight → ℕ → List Trigger → Sys → Sys
unfolding acknowledge
acknowledge_all v n [] s = s
acknowledge_all v n (t ∷ ts) s =
    acknowledge_all v n ts (if t.trusted then acknowledge v n t.item s else s)

pub any_trusted : List Trigger → Bool
any_trusted [] = false
any_trusted (t ∷ ts) = t.trusted || any_trusted ts

unfoldable pub announce : Sight → ℕ → List Trigger → M (Unit {0})
unfolding acknowledge_all any_trusted
announce v n ts s =
    let after = acknowledge_all v n ts s in
    if any_trusted ts then send (kicked n) (ok tt) after else (ok tt, after)

unfoldable pub record_found : Sight → ℕ → List Trigger → M (Unit {0})
unfolding announce
record_found v n [] = pure tt
record_found v n (t ∷ ts) = do _ ← update_card n (record_triggers (t ∷ ts)); announce v n (t ∷ ts)

unfoldable pub scan_of : Scanner → Sight → Bool → Scan
scan_of k v trusted_board = record {
  libs = k.libs;
  cfg = k.cfg;
  is_approval_answer = k.is_approval_answer;
  trusted_board = trusted_board;
  approval_pending = v.approval_pending;
}

-- checkCard.
unfoldable pub check_card : Scanner → Sight → ℕ → Option Evidence → M (Unit {0})
unfolding found_card board_trust record_found
check_card k v n evidence = do
  card ← lift (found_card v.card)
  comments ← lift v.comments
  state ← get_card n
  trusted_board ← board_trust k v n evidence card state
  _ ← meanwhile n v.others
  record_found v n (find_triggers (scan_of k v trusted_board) state card comments evidence)

-- `setNeedsScan`: the mark in the state of the card, and then the one in memory.
unfoldable pub noted : ℕ → Bool → Result CardState × Sys → Result (Unit {0}) × Sys
noted n needed (err e, s) = (err e, s)
noted n needed (ok _, s) =
    (ok tt, record s { pending_scans = λ m. if m == n then needed else s.pending_scans m })

unfoldable pub set_needs_scan : ℕ → Bool → M (Unit {0})
unfolding noted
set_needs_scan n needed s =
    noted n needed (update_card n (λ state. record state { needs_scan = needed }) s)

unfoldable pub is_card_gone : Error → Bool
is_card_gone card_gone = true
is_card_gone not_modified = false
is_card_gone not_started = false
is_card_gone cost_limit = false
is_card_gone deadline_exceeded = false
is_card_gone cancelled = false
is_card_gone (api n) = false
is_card_gone (failed t) = false

unfoldable pub scanned : ℕ → Result (Unit {0}) × Sys → Result (Unit {0}) × Sys
unfolding is_card_gone set_needs_scan
scanned n (ok _, s) = set_needs_scan n false s
scanned n (err e, s) = if not (is_card_gone e) then (err e, s) else set_needs_scan n false s

unfoldable pub rescan : Scanner → Sight → ℕ → M (Unit {0})
unfolding scanned
rescan k v n s = scanned n (check_card k v n none s)

-- `first` and `second` are what the two scans meet.
pub record Notified : Type 0 where
  pub first : Sight
  pub second : Sight
  pub marked : Result (Unit {0})

unfoldable pub evidence_of : Notification → Option Evidence
evidence_of n =
    if is_mention n then some (record { mentioner = n.creator; body = n.body }) else none

unfoldable pub scan_again : Scanner → Notified → Notification → M (Unit {0})
unfolding set_needs_scan rescan
scan_again k w n = do
  _ ← set_needs_scan n.card_number true
  _ ← send (marked_read n.id) w.marked
  rescan k w.second n.card_number

unfoldable pub after_check :
    Scanner → Notified → Notification → Result (Unit {0}) × Sys → Result (Unit {0}) × Sys
unfolding scan_again is_card_gone
after_check k w n (ok _, s) = scan_again k w n s
after_check k w n (err e, s) =
    if is_card_gone e then send (marked_read n.id) w.marked s else (err e, s)

unfoldable pub handle_notification : Scanner → Notified → Notification → M (Unit {0})
unfolding evidence_of after_check
handle_notification k w n s =
    after_check k w n (check_card k w.first n.card_number (evidence_of n) s)
