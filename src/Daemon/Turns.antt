-- ===== src/Daemon/Turns.antt =====
-- internal/daemon: one running turn. Its record and its notes (daemon.go), what it gets after a tool
-- call (check.go), and its start and end in the state of the card (worker.go).
pub mod Run
pub mod Life
use fizzy_connector.Base.{
  ℕ, ◌+◌, ◌-◌, ◌*◌, ◌/◌, min, max, Bool, true, false, not, ◌&&◌, ◌||◌, Option, none, some, List, [],
  ◌∷◌, ◌++◌, Text, codes, ltb, leb, ◌==◌, if◌then◌else◌, same, length, drop, join, Result, ok, err,
  Error, cost_limit, deadline_exceeded, cancelled, not_started, card_gone, not_modified, api,
  failed,
}
use fizzy_connector.Config.{minute}
use fizzy_connector.Store.{Item, CardState, TurnRecord, record_turn}
use fizzy_connector.Claude.Usage.{Usage}
use fizzy_connector.Claude.Run.{RunResult}
use fizzy_connector.Daemon.Prompt.{has_human_trigger}

-- A running turn; `alive` is that its context did not end.
pub record Turn : Type 0 where
  pub card : ℕ
  pub hops : ℕ
  pub alive : Bool
  pub replied : Bool
  pub consumed : ℕ
  pub presented_up_to : ℕ
  pub human_request : Bool
  pub requested_at : ℕ
  pub last_comment_at : ℕ
  pub note_asked_at : ℕ

unfoldable pub answered : Turn → Bool
answered t = t.replied && not (ltb t.last_comment_at t.requested_at)

-- `beginTurn` at a time.
unfoldable pub begin_turn : ℕ → ℕ → ℕ → Turn
begin_turn now card hops = record {
  card = card;
  hops = hops;
  alive = true;
  replied = false;
  consumed = 0;
  presented_up_to = 0;
  human_request = false;
  requested_at = now;
  last_comment_at = now;
  note_asked_at = 0;
}

-- `endTurn` ends the context of the turn.
unfoldable pub end_turn : Turn → Turn
end_turn t = record t { alive = false }

-- `noteComment`: a turn that ended does not change.
unfoldable pub note_comment : ℕ → Bool → Turn → Turn
note_comment now is_reply t =
    if not t.alive then t else record t { replied = t.replied || is_reply; last_comment_at = now }

unfoldable pub max_hops : List Item → ℕ → ℕ
max_hops [] hops = hops
max_hops (i ∷ is) hops = max_hops is (max hops i.hops)

-- The start of `runClaude`: the turn owns the items of its prompt.
unfoldable pub present : List Item → ℕ → Turn → Turn
present items up_to t = record t {
  consumed = length items;
  presented_up_to = up_to;
  human_request = has_human_trigger items;
}

-- The items of the queue that the turn did not get yet.
unfoldable pub new_items : List Item → Turn → List Item
new_items queue t = drop (min t.consumed (length queue)) queue

-- The end of `newActivity`: the turn owns the items from now on.
unfoldable pub give : ℕ → List Item → ℕ → Turn → Turn
unfolding max_hops
give now items up_to t = record t {
  consumed = t.consumed + length items;
  presented_up_to = up_to;
  human_request = t.human_request || has_human_trigger items;
  requested_at = if has_human_trigger items then now else t.requested_at;
  hops = max_hops items t.hops;
}

-- What Fizzy and the clock do while the check builds the document: the queue that the store gave,
-- whether the reads succeed, the document with its time, and whether the check is in its time.
pub record Activity : Type 0 where
  pub queue : Result (List Item)
  pub reads : Result (Unit {0})
  pub document : List Item → Text × ℕ
  pub in_time : Bool
  pub now : ℕ

given : Activity → Turn → List Item → Result (Unit {0}) → Result Text × Turn
given a t items (err e) = (err e, t)
given a t items (ok _) =
    let (document, up_to) = a.document items in
    if not a.in_time then (err deadline_exceeded, t) else (ok document, give a.now items up_to t)

activity_of : Activity → Turn → List Item → Result Text × Turn
unfolding given
activity_of a t [] = (ok [], t)
activity_of a t (i ∷ is) = given a t (i ∷ is) a.reads

activity_from : Activity → Turn → Result (List Item) → Result Text × Turn
unfolding activity_of new_items
activity_from a t (err e) = (err e, t)
activity_from a t (ok queue) = activity_of a t (new_items queue t)

-- `newActivity`: the text for Claude, empty when nothing is new, and the turn.
unfoldable pub new_activity : Activity → Turn → Result Text × Turn
unfolding activity_from
new_activity a t = activity_from a t a.queue

-- `progressNoteRequest`: whether a note is asked for, one time in each quiet interval. The first
-- question compares with the zero time, which is further back than any interval.
unfoldable pub note_due : ℕ → ℕ → Turn → Bool
note_due interval now t =
    ltb 0 interval && leb interval (now - t.last_comment_at) && leb interval (now - t.note_asked_at)

unfoldable pub progress_note_request : ℕ → ℕ → Turn → Bool × Turn
unfolding note_due
progress_note_request interval now t =
    if note_due interval now t then (true, record t { note_asked_at = now }) else (false, t)

text_of : Result Text → Text
text_of (err e) = []
text_of (ok text) = text

append_note : List Text → Text → List Text
append_note notes note = if same note [] then notes else notes ++ note ∷ []

note_when : Bool → Text → List Text → List Text
note_when due note notes = if due then append_note notes note else notes

-- `check`: the notes for the hook, or nothing when the wait for the other checks took its time.
unfoldable pub check : Bool → Activity → ℕ → Text → Turn → Text × Turn
unfolding text_of append_note note_when
check entered_in_time a interval note t =
    let (activity, t') = new_activity a t in
    let (due, t'') = progress_note_request interval a.now t' in
    if not entered_in_time
    then ([], t)
    else (join (codes "\n\n") (note_when due note (append_note [] (text_of activity))), t'')

-- `warningBefore`: a tenth of the timeout, between two and ten minutes.
unfoldable pub warning_before : ℕ → ℕ
warning_before timeout = min (max (timeout / 10) (2 * minute)) (10 * minute)

-- The formats of package fmt that a reply uses.
pub record Formats : Type 0 where
  pub usd : ℕ → Text
  pub count : ℕ → Text
  pub duration : ℕ → Text
  pub error : Error → Text

kept : Text
kept = codes "Work that was committed or written to disk is kept. Mention me again to continue."

cost_reply : Formats → ℕ → RunResult → Text
unfolding kept
cost_reply f max_cost r =
    codes "The cost limit of $"
    ++ f.usd max_cost
    ++ codes " per turn stopped this turn after "
    ++ f.count r.usage.api_calls
    ++ codes " API calls"
    ++ (if ltb 0 r.usage.cost_usd
        then codes ", at an estimated $" ++ f.usd r.usage.cost_usd
        else [])
    ++ codes ". "
    ++ kept

timeout_reply : Formats → ℕ → RunResult → Text
unfolding kept
timeout_reply f timeout r =
    codes "The turn timeout of "
    ++ f.duration timeout
    ++ codes " stopped this turn after "
    ++ f.count r.usage.api_calls
    ++ codes " API calls. "
    ++ kept

error_reply : Formats → Error → Text
error_reply f e = codes "I could not complete this request: `" ++ f.error e ++ codes "`"

result_reply : RunResult → Text
result_reply r =
    if r.is_error
    then codes "I could not complete this request:\n\n" ++ r.text
    else if not (same r.text [])
    then r.text
    else codes "I completed the turn, but I have no answer to post."

unfoldable pub fallback_reply : Formats → RunResult → Option Error → ℕ → ℕ → Text
unfolding cost_reply timeout_reply error_reply result_reply
fallback_reply f r none timeout max_cost = result_reply r
fallback_reply f r (some cost_limit) timeout max_cost = cost_reply f max_cost r
fallback_reply f r (some deadline_exceeded) timeout max_cost = timeout_reply f timeout r
fallback_reply f r (some cancelled) timeout max_cost = error_reply f cancelled
fallback_reply f r (some not_started) timeout max_cost = error_reply f not_started
fallback_reply f r (some card_gone) timeout max_cost = error_reply f card_gone
fallback_reply f r (some not_modified) timeout max_cost = error_reply f not_modified
fallback_reply f r (some (api n)) timeout max_cost = error_reply f (api n)
fallback_reply f r (some (failed t)) timeout max_cost = error_reply f (failed t)
