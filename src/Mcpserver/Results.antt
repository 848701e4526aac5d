-- ===== src/Mcpserver/Results.antt =====
-- internal/mcpserver/server.go: the results of the tools, and the interface to the Fizzy API that
-- the tools use (`Api`, which `api_of` fills with the client of Fizzy/Client). A text that a tool
-- formats is a constructor with the values that it prints.
use fizzy_connector.Base.{
  ◌≡◌, refl, ◌⊎◌, inl, inr, ℕ, Bool, Option, none, some, List, Text, Result, ok, err, Error,
  cancelled,
}
use fizzy_connector.Fizzy.{User, Board, Column, Card, Comment}
use fizzy_connector.Fizzy.Requests.{Client, Server, C}
use fizzy_connector.Fizzy.Client.{
  Codec, users_of, boards_of, columns_of, comments_of, get_card, search_cards, create_comment,
  create_card, close_card, reopen_card, move_card_to_column, toggle_assignment, toggle_tag,
  move_card_to_board,
}

pub record Api (S : Type 0) : Type 0 where
  pub card : ℕ → C S Card
  pub users : C S (List User)
  pub boards : C S (List Board)
  pub columns : Text → C S (List Column)
  pub comments : ℕ → C S (List Comment)
  pub search : List Text → C S (List Card)
  pub comment : ℕ → Text → C S Text
  pub new_card : Text → Text → Text → C S ℕ
  pub close : ℕ → C S (Unit {0})
  pub reopen : ℕ → C S (Unit {0})
  pub to_column : ℕ → Text → C S (Unit {0})
  pub assignment : ℕ → Text → C S (Unit {0})
  pub tagging : ℕ → Text → C S (Unit {0})
  pub to_board : ℕ → Text → C S (Unit {0})

-- A list that needs more pages than the caller waits for ends with the end of its context.
waited : {A S : Type 0} → (S → Option (Result A)) → C S A
waited list s = elim (list s) [ none ↦ (err cancelled, s) | some r ↦ (r, s) ]

-- The client as the tools use it; `pages` is the number of pages that the caller waits for.
unfoldable pub api_of : {S : Type 0} → Server S → Codec → Client → ℕ → Api S
unfolding waited
api_of server k c pages = record {
  card = get_card server k c;
  users = waited (users_of server k c pages);
  boards = waited (boards_of server k c pages);
  columns = λ board. waited (columns_of server k c board pages);
  comments = λ n. waited (comments_of server k c n pages);
  search = search_cards server k c;
  comment = create_comment server k c;
  new_card = create_card server k c;
  close = close_card server k c;
  reopen = reopen_card server k c;
  to_column = move_card_to_column server k c;
  assignment = toggle_assignment server k c;
  tagging = toggle_tag server k c;
  to_board = move_card_to_board server k c;
}

pub record Author : Type 0 where
  pub id : Text
  pub name : Text
  pub trust : Text

pub record CommentData : Type 0 where
  pub id : Text
  pub author : Author
  pub created_at : ℕ
  pub text : Text

pub record CardData : Type 0 where
  pub number : ℕ
  pub title : Text
  pub board : Text
  pub status : Text
  pub closed : Bool
  pub tags : List Text
  pub url : Text
  pub created_by : Author
  pub description : Text
  pub comments : List CommentData

pub record Found : Type 0 where
  pub number : ℕ
  pub title : Text
  pub board : Text
  pub status : Text

pub data Output : Type 0 where
  comment_posted note_posted closed_card reopened_card message_sent : ℕ → Output
  comment_unconfirmed note_unconfirmed : ℕ → Error → Output
  made_card : ℕ → Text → Output
  no_columns : Output
  column_list board_list : Text → Output
  moved_to_column moved_to_board assigned already_assigned : ℕ → Text → Output
  added_tag removed_tag had_tag lacked_tag : ℕ → Text → Output
  card_data : CardData → Output
  search_data : List Found → Output

-- Why a tool gives an error; `passed` is an error of the API or of the daemon.
pub data Refusal : Type 0 where
  passed : Error → Refusal
  empty_reply empty_note empty_tag empty_board out_of_range : Refusal
  bad_reference : Text → Text → Refusal
  no_board no_column : Text → Text → Refusal
  many_boards many_columns unclear_user : ℕ → Text → Refusal
  own_card : ℕ → Refusal

pub data Outcome (A : Type 0) : Type 0 where
  done : A → Outcome A
  refused : Refusal → Outcome A

pub Outcome-cases :
    {A : Type 0} (x : Outcome A) → ((r : Refusal) × (x ≡ refused r)) ⊎ ((a : A) × (x ≡ done a))
Outcome-cases (done a) = inr (a, refl)
Outcome-cases (refused r) = inl (r, refl)

-- A step of a tool: it may change the world `S`, and may end the tool.
abbrev pub T : Type 0 → Type 0 → Type 0
T S A = S → Outcome A × S

module _ {S : Type 0} where
  unfoldable pub checked : {A : Type 0} → Result A × S → Outcome A × S
  checked (ok a, s) = (done a, s)
  checked (err e, s) = (refused (passed e), s)

  -- `if err != nil { return }`, and the rest of the tool.
  unfoldable pub and_then : {A B : Type 0} → Outcome A × S → (A → T S B) → Outcome B × S
  and_then (done a, s) rest = rest a s
  and_then (refused r, s) rest = (refused r, s)
