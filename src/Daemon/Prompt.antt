-- ===== src/Daemon/Prompt.antt =====
-- internal/daemon/prompt.go: the document that a turn gets. Package encoding/json prints it.
pub mod Shown
pub mod Spec
use fizzy_connector.Base.{
  ℕ, Bool, true, false, not, ◌&&◌, ◌||◌, Option, none, some, List, [], ◌∷◌, ◌++◌, Text, codes, ltb,
  ◌==◌, if◌then◌else◌, same, mem_text,
}
use fizzy_connector.Fizzy.{User, Card, Comment, Libs}
use fizzy_connector.Config.{Config, is_trusted}
use fizzy_connector.Store.{Item, Kind, comment, description, agent_message, CardState, is_handled}

pub data Trust : Type 0 where
  you trusted not_trusted : Trust

pub record PromptAuthor : Type 0 where
  pub id : Text
  pub name : Text
  pub trust : Trust

pub record PromptRequest : Type 0 where
  pub source : Text
  pub comment_id : Text
  pub text : Text
  pub author : PromptAuthor

pub record PromptCard : Type 0 where
  pub number : ℕ
  pub title : Text
  pub board : Text
  pub url : Text
  pub created_by : PromptAuthor
  pub description : Text

pub record PromptComment : Type 0 where
  pub id : Text
  pub author : PromptAuthor
  pub created_at : ℕ
  pub text : Text

pub record PromptAgentMessage : Type 0 where
  pub from_card : ℕ
  pub text : Text

pub data TurnKind : Type 0 where
  first_turn_of_card during_turn later_turn : TurnKind

pub record Document : Type 0 where
  pub turn : TurnKind
  pub requests : List PromptRequest
  pub card : Option PromptCard
  pub comments : List PromptComment
  pub hidden_authors : List Text
  pub agent_messages : List PromptAgentMessage

pub record PromptInput : Type 0 where
  pub libs : Libs
  pub cfg : Config
  pub card : Card
  pub comments : List Comment
  pub items : List Item
  pub state : CardState
  pub first_turn : Bool
  pub during_turn : Bool
  pub prompted_up_to : ℕ

unfoldable pub trust_of : PromptInput → Text → Trust
trust_of q id =
    if same id q.cfg.bot_user_id then you else if is_trusted q.cfg id then trusted else not_trusted

unfoldable pub author : PromptInput → User → PromptAuthor
unfolding trust_of
author q u = record { id = u.id; name = u.name; trust = trust_of q u.id }

turn_kind : PromptInput → TurnKind
turn_kind q =
    if q.during_turn
    then during_turn
    else if not q.first_turn
    then later_turn
    else first_turn_of_card

-- The loop over the items: what it adds to the document, and whether a description asks.
described_request : PromptInput → Item → PromptRequest
unfolding author
described_request q i = record {
  source = codes "card description, as its author wrote it";
  comment_id = [];
  text = i.text;
  author = author q (record {
    id = i.author_id;
    name = i.author_name;
    role = [];
    active = false;
    email_address = [];
  });
}

unfoldable pub item_requests : PromptInput → List Item → List PromptRequest
unfolding described_request
item_requests q [] = []
item_requests q (i ∷ is) = elim i.kind [
  | description ↦ described_request q i ∷ item_requests q is
  | _ ↦ item_requests q is
]

item_messages : List Item → List PromptAgentMessage
item_messages [] = []
item_messages (i ∷ is) = elim i.kind [
  | agent_message ↦ record { from_card = i.from_card; text = i.text } ∷ item_messages is
  | _ ↦ item_messages is
]

has_description : List Item → Bool
has_description [] = false
has_description (i ∷ is) = elim i.kind [ description ↦ true | _ ↦ has_description is ]

unfoldable pub is_trigger : List Item → Text → Bool
is_trigger [] id = false
is_trigger (i ∷ is) id = same i.trigger_id id || is_trigger is id

prompt_card : PromptInput → PromptCard
unfolding author
prompt_card q = record {
  number = q.card.number;
  title = q.card.title;
  board = q.card.board.name;
  url = q.card.url;
  created_by = author q q.card.creator;
  description = q.libs.plain_text q.card.description_html;
}

unfoldable pub is_future_trigger : PromptInput → Comment → Bool
is_future_trigger q c =
    not (is_handled q.state c.id)
    && not (same c.creator.id q.cfg.bot_user_id)
    && q.libs.mentions c.html q.cfg.bot_user_id

unfoldable pub is_you : Trust → Bool
is_you you = true
is_you trusted = false
is_you not_trusted = false

unfoldable pub is_not_trusted : Trust → Bool
is_not_trusted you = false
is_not_trusted trusted = false
is_not_trusted not_trusted = true

-- The tests with which the loop over the comments passes one over.
unfoldable pub is_read : PromptInput → Comment → Bool
unfolding is_you trust_of is_trigger is_future_trigger
is_read q c =
    (q.first_turn
      || (ltb q.prompted_up_to c.created_at && not (is_you (trust_of q c.creator.id)))
      || is_trigger q.items c.id)
    && not (is_future_trigger q c)

-- The order of Go strings, and a set of names kept sorted: a map whose keys are sorted.
less : Text → Text → Bool
less s [] = false
less [] (y ∷ ys) = true
less (x ∷ xs) (y ∷ ys) = ltb x y || (x == y && less xs ys)

unfoldable pub insert_name : Text → List Text → List Text
unfolding less
insert_name n [] = n ∷ []
insert_name n (m ∷ ms) =
    let later = m ∷ insert_name n ms in
    if same n m then m ∷ ms else if less n m then n ∷ m ∷ ms else later

-- The variables of the loop over the comments.
pub record Reading : Type 0 where
  pub up_to : ℕ
  pub hidden : List Text
  pub shown : List PromptComment
  pub asked : List PromptRequest

unfoldable pub show : PromptInput → Comment → PromptComment
unfolding author
show q c = record {
  id = c.id;
  author = author q c.creator;
  created_at = c.created_at;
  text = q.libs.plain_text c.html;
}

unfoldable pub ask : PromptInput → Comment → PromptRequest
unfolding author
ask q c = record {
  source = codes "comment";
  comment_id = c.id;
  text = [];
  author = author q c.creator;
}

read_comment : PromptInput → Comment → Reading → Reading
unfolding show ask is_not_trusted trust_of
read_comment q c r =
    let seen = record r { up_to = if ltb r.up_to c.created_at then c.created_at else r.up_to } in
    if not (is_read q c)
    then r
    else if is_not_trusted (trust_of q c.creator.id)
    then record seen { hidden = insert_name c.creator.name r.hidden }
    else record seen {
      shown = r.shown ++ show q c ∷ [];
      asked = if is_trigger q.items c.id then r.asked ++ ask q c ∷ [] else r.asked;
    }

read_comments : PromptInput → List Comment → Reading → Reading
unfolding read_comment
read_comments q [] r = r
read_comments q (c ∷ cs) r = read_comments q cs (read_comment q c r)

-- The document, and the time of the newest comment that the session now knows about.
unfoldable pub build_prompt : PromptInput → Document × ℕ
unfolding read_comments item_requests item_messages has_description turn_kind prompt_card
build_prompt q =
    let start : Reading = record {
      up_to = q.prompted_up_to;
      hidden = [];
      shown = [];
      asked = item_requests q q.items;
    } in
    let r = read_comments q q.comments start in
    (
      record {
        turn = turn_kind q;
        requests = r.asked;
        card = if q.first_turn || has_description q.items then some (prompt_card q) else none;
        comments = r.shown;
        hidden_authors = r.hidden;
        agent_messages = item_messages q.items;
      },
      r.up_to,
    )

is_human : Kind → Bool
is_human comment = true
is_human description = true
is_human agent_message = false

unfoldable pub has_human_trigger : List Item → Bool
unfolding is_human
has_human_trigger [] = false
has_human_trigger (i ∷ is) = is_human i.kind || has_human_trigger is
