-- ===== src/Fizzy.antt =====
-- internal/fizzy/types.go: what the Fizzy API returns, in the fields that the code reads. `Libs`
-- holds the functions of other code and of the rich text reader, which the models take as given.
pub mod Requests
pub mod Pages
pub mod Client
pub mod Base64
pub mod Mentions
pub mod Session
use fizzy_connector.Base.{ℕ, Bool, List, Text, codes, same}

pub record User : Type 0 where
  pub id : Text
  pub name : Text
  pub role : Text
  pub active : Bool
  pub email_address : Text

pub record Account : Type 0 where
  pub id : Text
  pub name : Text
  pub slug : Text
  pub user : User

pub record Identity : Type 0 where
  pub id : Text
  pub accounts : List Account

pub record Board : Type 0 where
  pub id : Text
  pub name : Text

pub record BoardAccess : Type 0 where
  pub user : User
  pub has_access : Bool

pub record Column : Type 0 where
  pub id : Text
  pub name : Text

pub record Card : Type 0 where
  pub number : ℕ
  pub title : Text
  pub status : Text
  pub description : Text
  pub description_html : Text
  pub tags : List Text
  pub closed : Bool
  pub url : Text
  pub board : Board
  pub creator : User
  pub assignees : List User

pub record Comment : Type 0 where
  pub id : Text
  pub created_at : ℕ
  pub html : Text
  pub creator : User

pub record Notification : Type 0 where
  pub id : Text
  pub is_read : Bool
  pub source_type : Text
  pub body : Text
  pub creator : User
  pub card_number : ℕ

unfoldable pub is_mention : Notification → Bool
is_mention n = same n.source_type (codes "mention")

-- `mentions html user` reports a mention of the user, `plain_text` converts rich text to text,
-- `markdown_to_html` is the Markdown converter, and `digest` the start of a SHA-256 sum in hex.
pub record Libs : Type 0 where
  pub mentions : Text → Text → Bool
  pub plain_text : Text → Text
  pub markdown_to_html : Text → Text
  pub digest : Text → Text
