-- ===== src/Daemon/Fetch.antt =====
-- internal/daemon/daemon.go: resumeQueues, and one round of fetchLoop: the cards that still need a
-- scan (rescanPending), and the notifications behind the ETag of the last list (fetch).
pub mod Files
pub mod Laws
pub mod Resume
use fizzy_connector.Base.{
  ℕ, Bool, true, false, not, ◌&&◌, ◌||◌, Option, none, some, List, [], ◌∷◌, ◌++◌, Text, ltb, ◌==◌,
  if◌then◌else◌, same, length, Result, ok, err, Error, not_modified, card_gone, not_started,
  cost_limit, deadline_exceeded, cancelled, api, failed,
}
use fizzy_connector.Fizzy.{Notification}
use fizzy_connector.Store.{CardState}
use fizzy_connector.Daemon.Effects.{Sys, M, kicked}
use fizzy_connector.Daemon.Scan.{Scanner, Sight, Notified, rescan, handle_notification}

-- The loop of resumeQueues over the states of all cards.
unfoldable pub has_work : CardState → Bool
has_work state = ltb 0 (length state.queue) || not (same state.pending_reply [])

unfoldable pub resume : List CardState → Sys → Sys
unfolding has_work
resume [] s = s
resume (state ∷ states) s = resume states (record s {
  pending_scans = λ m. if (m == state.number) && state.needs_scan then true else s.pending_scans m;
  sent = if has_work state then s.sent ++ kicked state.number ∷ [] else s.sent;
})

-- A failure of a loop is kept with its card, and the loop goes on.
unfoldable pub with_failure : ℕ → Result (Unit {0}) → List (ℕ × Error) → List (ℕ × Error)
with_failure n (ok _) failures = failures
with_failure n (err e) failures = (n, e) ∷ failures

-- rescanPending over the cards with a mark in memory, in the order of the map.
unfoldable pub rescan_pending : Scanner → (ℕ → Sight) → List ℕ → Sys → List (ℕ × Error) × Sys
unfolding with_failure
rescan_pending k sights [] s = ([], s)
rescan_pending k sights (n ∷ ns) s =
    let (r, t) = rescan k (sights n) n s in
    let (failures, u) = rescan_pending k sights ns t in (with_failure n r failures, u)

-- The loop of `fetch`: a notification that is read already is skipped.
unfoldable pub handle_all :
    Scanner → (Notification → Notified) → List Notification → Sys → List (ℕ × Error) × Sys
unfolding with_failure
handle_all k seen [] s = ([], s)
handle_all k seen (n ∷ ns) s =
    let skipped = handle_all k seen ns s in
    let (r, t) = handle_notification k (seen n) n s in
    let (failures, u) = handle_all k seen ns t in
    if n.is_read then skipped else (with_failure n.card_number r failures, u)

unfoldable pub is_not_modified : Error → Bool
is_not_modified not_modified = true
is_not_modified card_gone = false
is_not_modified not_started = false
is_not_modified cost_limit = false
is_not_modified deadline_exceeded = false
is_not_modified cancelled = false
is_not_modified (api n) = false
is_not_modified (failed t) = false

-- The daemon, with the ETag of the last list that it got.
pub record Fetcher : Type 0 where
  pub etag : Text
  pub sys : Sys

handled_list : Text → List (ℕ × Error) × Sys → Bool × Fetcher
handled_list etag ([], s) = (true, record { etag = etag; sys = s })
handled_list etag (f ∷ fs, s) = (false, record { etag = etag; sys = s })

-- `fetch`: whether it succeeds, and the daemon after it. `answer` is what Fizzy answers.
unfoldable pub fetch :
    Scanner
    → (Notification → Notified)
    → Result (List Notification × Text)
    → Fetcher
    → Bool × Fetcher
unfolding handle_all is_not_modified handled_list
fetch k seen (err e) f = (is_not_modified e, f)
fetch k seen (ok (ns, etag)) f = handled_list etag (handle_all k seen ns f.sys)

-- What a round meets: the cards with a mark and what their scans meet, the answer of Fizzy and what
-- the notifications meet, and whether the daemon drains when the round is over.
pub record Round : Type 0 where
  pub pending : List ℕ
  pub sights : ℕ → Sight
  pub answer : Result (List Notification × Text)
  pub seen : Notification → Notified
  pub draining : Bool

-- The errors of both parts are joined; after a failure the ETag is forgotten.
settled : Round → List (ℕ × Error) → Bool × Fetcher → Fetcher
settled r [] (succeeded, f) = if succeeded || r.draining then f else record f { etag = [] }
settled r (x ∷ xs) (succeeded, f) = if r.draining then f else record f { etag = [] }

fetched : Scanner → Round → Text → List (ℕ × Error) × Sys → Fetcher
unfolding settled fetch
fetched k r etag (failures, s) =
    settled r failures (fetch k r.seen r.answer (record { etag = etag; sys = s }))

unfoldable pub fetch_round : Scanner → Round → Fetcher → Fetcher
unfolding fetched rescan_pending
fetch_round k r f = fetched k r f.etag (rescan_pending k r.sights r.pending f.sys)
