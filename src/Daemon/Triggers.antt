-- ===== src/Daemon/Triggers.antt =====
-- internal/daemon/triggers.go: which mentions on a card are work for the bot, and the change of the
-- card state that records them (the closure in checkCard of internal/daemon/daemon.go).
pub mod Laws
pub mod Records
pub mod Orders
use fizzy_connector.Base.{
  ℕ, ◌+◌, Bool, true, false, not, ◌&&◌, ◌||◌, Option, none, some, List, [], ◌∷◌, ◌++◌, Text, codes,
  ltb, if◌then◌else◌, same, trim_space, trim_suffix, has_prefix, length,
}
use fizzy_connector.Fizzy.{User, Card, Comment, Libs}
use fizzy_connector.Config.{Config, is_trusted}
use fizzy_connector.Store.{
  Kind, comment, description, Item, CardState, description_trigger_id, is_handled,
}

abbrev pub notification_body_limit : ℕ
notification_body_limit = 200

pub record Trigger : Type 0 where
  pub item : Item
  pub author : User
  pub trusted : Bool

pub record Evidence : Type 0 where
  pub mentioner : User
  pub body : Text

-- A text is a list of code points, so its length is the number of runes.
unfoldable pub is_complete : Evidence → Bool
is_complete e = ltb (length e.body) notification_body_limit

unfoldable pub proves_all : Evidence → Text → Bool
unfolding is_complete
proves_all e plain =
    let body = trim_space e.body in
    is_complete e && not (same body []) && same body (trim_space plain)

unfoldable pub proves_start_of : Evidence → Text → Bool
unfolding is_complete
proves_start_of e plain =
    not (is_complete e)
    && has_prefix (trim_space plain) (trim_suffix (trim_space e.body) (codes "..."))

unfoldable pub description_id : Libs → Text → Text → Text
description_id libs prefix plain = prefix ++ codes ":" ++ libs.digest plain

-- What `findTriggers` reads of its surroundings.
pub record Scan : Type 0 where
  pub libs : Libs
  pub cfg : Config
  pub is_approval_answer : Text → Bool
  pub trusted_board : Bool
  pub approval_pending : Bool

-- The closure `add`: no trigger, or one.
unfoldable pub add : Scan → CardState → Item → Text → User → List Trigger
add q state item html author =
    if is_handled state item.trigger_id
      || same author.id q.cfg.bot_user_id
      || not (q.libs.mentions html q.cfg.bot_user_id)
    then []
    else record {
      item = record item { author_id = author.id; author_name = author.name };
      author = author;
      trusted = is_trusted q.cfg author.id;
    }
      ∷ []

unfoldable pub description_item : Libs → Card → Item
description_item libs card = record {
  kind = description;
  trigger_id = description_id libs description_trigger_id card.description;
  author_id = [];
  author_name = [];
  from_card = 0;
  text = card.description;
  hops = 0;
}

unfoldable pub comment_item : Comment → Item
comment_item c = record {
  kind = comment;
  trigger_id = c.id;
  author_id = [];
  author_name = [];
  from_card = 0;
  text = [];
  hops = 0;
}

unfoldable pub description_counts : Scan → Card → Evidence → Bool
description_counts q card e =
    proves_all e card.description || (q.trusted_board && proves_start_of e card.description)

unfoldable pub description_triggers : Scan → CardState → Card → Option Evidence → List Trigger
description_triggers q state card none = []
description_triggers q state card (some e) =
    if description_counts q card e
    then add q state (description_item q.libs card) card.description_html e.mentioner
    else []

unfoldable pub comment_triggers : Scan → CardState → List Comment → List Trigger
comment_triggers q state [] = []
comment_triggers q state (c ∷ cs) =
    (if q.approval_pending && q.is_approval_answer (q.libs.plain_text c.html)
      then []
      else add q state (comment_item c) c.html c.creator)
    ++ comment_triggers q state cs

unfoldable pub find_triggers :
    Scan → CardState → Card → List Comment → Option Evidence → List Trigger
find_triggers q state card comments evidence =
    description_triggers q state card evidence ++ comment_triggers q state comments

unfoldable pub long_description_mention : Libs → Config → Card → Option Evidence → Bool
long_description_mention libs cfg card none = false
long_description_mention libs cfg card (some e) =
    is_trusted cfg e.mentioner.id
    && proves_start_of e card.description
    && libs.mentions card.description_html cfg.bot_user_id

members_from : Config → ℕ → List User → Bool
members_from cfg people [] = ltb 0 people
members_from cfg people (m ∷ ms) =
    let skipped = members_from cfg people ms in
    let counted = members_from cfg (people + 1) ms in
    if same m.id cfg.bot_user_id
    then skipped
    else if not (is_trusted cfg m.id)
    then false
    else counted

unfoldable pub only_trusted_members : Config → List User → Bool
unfolding members_from
only_trusted_members cfg members = members_from cfg 0 members

-- The closure with which checkCard records triggers: one that is handled is passed over, and one
-- that is not trusted is handled with no work.
unfoldable pub record_trigger : Trigger → CardState → CardState
record_trigger t state = if is_handled state t.item.trigger_id then state else record state {
  handled = state.handled ++ t.item.trigger_id ∷ [];
  queue = if t.trusted then state.queue ++ t.item ∷ [] else state.queue;
}

unfoldable pub record_triggers : List Trigger → CardState → CardState
unfolding record_trigger
record_triggers [] state = state
record_triggers (t ∷ ts) state = record_triggers ts (record_trigger t state)
