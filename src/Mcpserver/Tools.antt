-- ===== src/Mcpserver/Tools.antt =====
-- internal/mcpserver/server.go and approve.go: the answer on the card, the tools that read cards,
-- messages to other agents, and the permission questions of Claude Code. The daemon is a function on
-- the world of the tools; what it gives back is what the socket gave.
pub mod Laws
use fizzy_connector.Base.{
  ℕ, Bool, true, false, Option, none, some, List, [], ◌∷◌, ◌++◌, Text, codes, if◌then◌else◌, same,
  mem_text, trim_space, Result, ok, err, Error,
}
use fizzy_connector.Config.{Config, is_trusted}
use fizzy_connector.Fizzy.{User, Card, Comment, Libs}
use fizzy_connector.Fizzy.Requests.{Client, C}
use fizzy_connector.Ipc.{Op, Request, Response, Exchange, send, send_and_wait}
use fizzy_connector.Mcpserver.Results.{
  Api, Author, CommentData, CardData, Found, Output, comment_posted, comment_unconfirmed,
  note_posted, note_unconfirmed, message_sent, card_data, search_data, Refusal, passed, empty_reply,
  empty_note, Outcome, done, refused, T, checked, and_then,
}
use fizzy_connector.Mcpserver.References.{parse_card_reference}

unfoldable pub author : Config → User → Author
unfolding is_trusted
author config u = record {
  id = u.id;
  name = u.name;
  trust =
      if same u.id config.bot_user_id
      then codes "you"
      else if is_trusted config u.id
      then codes "trusted"
      else codes "not_trusted";
}

unfoldable pub comments_data : Config → Libs → List Comment → List CommentData
unfolding author
comments_data config libs [] = []
comments_data config libs (x ∷ xs) =
    record {
      id = x.id;
      author = author config x.creator;
      created_at = x.created_at;
      text = libs.plain_text x.html;
    }
    ∷ comments_data config libs xs

unfoldable pub data_of : Config → Libs → Card → List Comment → CardData
unfolding comments_data author
data_of config libs x comments = record {
  number = x.number;
  title = x.title;
  board = x.board.name;
  status = x.status;
  closed = x.closed;
  tags = x.tags;
  url = x.url;
  created_by = author config x.creator;
  description = libs.plain_text x.description_html;
  comments = comments_data config libs comments;
}

unfoldable pub found_of : List Card → List Found
found_of [] = []
found_of (x ∷ xs) =
    record { number = x.number; title = x.title; board = x.board.name; status = x.status }
    ∷ found_of xs

unfoldable pub request : Op → Text → Request
request op token = record {
  op = op;
  token = token;
  to_card = 0;
  text = [];
  tool_name = [];
  tool_input = [];
}

-- The result of a permission question, as Claude Code reads it.
pub data Permission (I : Type 0) : Type 0 where
  allow : I → Permission I
  deny : Text → Permission I

-- `describe` is the text of an error.
unfoldable pub permission : {I : Type 0} → (Error → Text) → I → Result Response → Permission I
permission describe input (err e) = deny (codes "The permission request failed: " ++ describe e)
permission describe input (ok r) = if r.approved then allow input else deny r.message

confirmed : (ℕ → Output) → (ℕ → Error → Output) → ℕ → Result (Unit {0}) → Output
confirmed sure unsure n (ok _) = sure n
confirmed sure unsure n (err e) = unsure n e

-- The first part of a pair, changed.
with_first : {A B S : Type 0} → (A → B) → A × S → B × S
with_first f (a, s) = (f a, s)

module _ {S : Type 0} (api : Api S) (daemon : Request → S → Exchange × S) (libs : Libs)
    (config : Config) (c : Client) (card : ℕ) (token : Text) where
  -- The message to the daemon about a comment; a session without a token has no daemon.
  told : Op → (ℕ → Output) → (ℕ → Error → Output) → S → Outcome Output × S
  unfolding with_first confirmed send request
  told op sure unsure s =
      if same token []
      then (done (sure card), s)
      else with_first (λ x. done (confirmed sure unsure card (send x)))
          (daemon (request op token) s)

  unfoldable pub reply : Text → T S Output
  unfolding told and_then checked
  reply markdown s =
      if same (trim_space markdown) []
      then (refused empty_reply, s)
      else and_then (checked (api.comment card (libs.markdown_to_html markdown) s))
          (λ _ s. told Op.replied comment_posted comment_unconfirmed s)

  unfoldable pub progress : Text → T S Output
  unfolding told and_then checked
  progress markdown s =
      if same (trim_space markdown) []
      then (refused empty_note, s)
      else and_then (checked (api.comment card (libs.markdown_to_html markdown) s))
          (λ _ s. told Op.progress note_posted note_unconfirmed s)

  unfoldable pub read_card : Text → T S Output
  unfolding data_of
  read_card reference s =
      and_then (parse_card_reference c reference, s)
        (λ n s. and_then (checked (api.card n s)) (λ x s.
          and_then (checked (api.comments n s))
            (λ comments s. (done (card_data (data_of config libs x comments)), s))))

  unfoldable pub search_cards : List Text → T S Output
  unfolding found_of
  search_cards terms s =
      and_then (checked (api.search terms s)) (λ cards s. (done (search_data (found_of cards)), s))

  sent : ℕ → Exchange × S → Outcome Output × S
  unfolding send
  sent n (x, s) = and_then (checked (send x, s)) (λ _ s. (done (message_sent n), s))

  unfoldable pub message_card_agent : ℕ → Text → T S Output
  unfolding sent request
  message_card_agent n message s =
      sent n (daemon (record (request Op.message token) { to_card = n; text = message }) s)

  -- The tool of Claude Code: its input is of a type `I`, which `encode` writes as JSON.
  unfoldable pub approve :
      {I : Type 0} → (Error → Text) → (I → Text) → Text → I → S → Permission I × S
  unfolding permission send_and_wait request with_first
  approve describe encode tool_name input s =
      with_first (λ x. permission describe input (send_and_wait x))
        (daemon
          (record (request Op.approve token) { tool_name = tool_name; tool_input = encode input })
          s)
