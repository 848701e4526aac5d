-- ===== src/Fizzy/Mentions.antt =====
-- internal/fizzy/mention.go: the users that rich text mentions, by its attachments. A JSON envelope is
-- read by a parameter, package encoding/json.
pub mod Laws
use fizzy_connector.Base.{
  ℕ, zero, suc, ◌+◌, ◌-◌, Bool, true, false, not, ◌&&◌, ◌||◌, Option, none, some, List, [], ◌∷◌,
  ◌++◌, Text, codes, leb, ◌==◌, if◌then◌else◌, same, mem_text, length, cut_prefix, has_prefix,
  is_digit,
}
use fizzy_connector.Fizzy.Pages.{take_while, drop_while}
use fizzy_connector.Fizzy.Client.{is_id_char}
use fizzy_connector.Fizzy.Base64.{decode_base64}

-- FindAll of package regexp: from left to right, and on behind a match. `match_at` gives the groups of
-- a match at the start of a text with the length of the match; the first number is how much to skip.
unfoldable pub find_all : {A : Type 0} → (Text → Option (A × ℕ)) → ℕ → Text → List A
find_all match_at skip [] = []
find_all match_at (suc skip) (c ∷ s) = find_all match_at skip s
find_all match_at zero (c ∷ s) = elim (match_at (c ∷ s)) [
  | none ↦ find_all match_at zero s
  | some m ↦ m.0 ∷ find_all match_at (m.1 - 1) s
]

unfoldable pub is_letter : ℕ → Bool
is_letter c = (leb b'A' c && leb c b'Z') || (leb b'a' c && leb c b'z')

-- `\w` of package regexp.
unfoldable pub is_word : ℕ → Bool
unfolding is_letter
is_word c = is_letter c || is_digit c || c == b'_'

unfoldable pub not_char : ℕ → ℕ → Bool
not_char k c = not (c == k)

pub starts_with_word : Text → Bool
unfolding is_word
starts_with_word [] = false
starts_with_word (c ∷ s) = is_word c

abbrev pub tag_name : Text
tag_name = codes "<action-text-attachment"

pub tag_body : Text → Text → Option (Text × ℕ)
tag_body body [] = none
tag_body body (c ∷ rest) = some (tag_name ++ body ++ codes ">", length tag_name + length body + 1)

-- `<action-text-attachment\b[^>]*>`.
unfoldable pub tag_at : Text → Option (Text × ℕ)
unfolding tag_body starts_with_word take_while drop_while not_char
tag_at s = elim (cut_prefix s tag_name) [
  | none ↦ none
  | some rest ↦
      if starts_with_word rest
      then none
      else tag_body (take_while (not_char b'>') rest) (drop_while (not_char b'>') rest)
]

is_name_char : ℕ → Bool
unfolding is_letter
is_name_char c = is_letter c || c == b'-'

attribute_value : Text → Text → Text → Option ((Text × Text) × ℕ)
attribute_value name value [] = none
attribute_value name value (c ∷ rest) = some ((name, value), length name + length value + 3)

attribute_rest : Text → Option Text → Option ((Text × Text) × ℕ)
unfolding attribute_value take_while drop_while not_char
attribute_rest name none = none
attribute_rest name (some rest) =
    attribute_value name (take_while (not_char b'"') rest) (drop_while (not_char b'"') rest)

-- `([a-zA-Z-]+)="([^"]*)"`.
unfoldable pub attribute_at : Text → Option ((Text × Text) × ℕ)
unfolding attribute_rest is_name_char take_while drop_while
attribute_at s =
    if same (take_while is_name_char s) []
    then none
    else attribute_rest (take_while is_name_char s)
        (cut_prefix (drop_while is_name_char s) (codes "=\""))

-- The map of the attributes: a later one of a name replaces an earlier one; `now` is the value so far.
unfoldable pub attribute : Text → Text → List (Text × Text) → Text
attribute name now [] = now
attribute name now ((key, value) ∷ rest) =
    attribute name (if same key name then value else now) rest

unfoldable pub attributes : Text → List (Text × Text)
unfolding find_all attribute_at
attributes tag = find_all attribute_at 0 tag

-- The text before a separator, or all of it: the first result of strings.Cut.
unfoldable pub before : Text → Text → Text
before sep [] = []
before sep (c ∷ s) = let rest = before sep s in if has_prefix (c ∷ s) sep then [] else c ∷ rest

pub gid_id : Option Text → Option Text
unfolding take_while is_id_char
gid_id none = none
gid_id (some rest) =
    if same (take_while is_id_char rest) [] then none else some (take_while is_id_char rest)

pub gid_host : Option Text → Option Text
unfolding gid_id take_while drop_while not_char
gid_host none = none
gid_host (some rest) =
    if same (take_while (not_char b'/') rest) []
    then none
    else gid_id (cut_prefix (drop_while (not_char b'/') rest) (codes "/User/"))

-- The group of `gid://[^/]+/User/([A-Za-z0-9_-]+)`, at its leftmost match.
unfoldable pub gid_at : Text → Option Text
unfolding gid_host
gid_at s = gid_host (cut_prefix s (codes "gid://"))

unfoldable pub user_gid : Text → Option Text
unfolding gid_at
user_gid [] = none
user_gid (c ∷ s) =
    let rest = user_gid s in elim (gid_at (c ∷ s)) [ none ↦ rest | some id ↦ some id ]

-- The texts `message` and `data` of a JSON envelope, when the bytes are one.
abbrev pub Envelope : Type 0
Envelope = Text → Option (Text × Text)

pub user_gid_in : Option Text → Option Text
unfolding user_gid
user_gid_in none = none
user_gid_in (some bytes) = user_gid bytes

pub first_of : Option Text → Option Text → Text
first_of (some id) other = id
first_of none (some id) = id
first_of none none = []

pub in_envelope : Option (Text × Text) → Text
unfolding user_gid_in first_of
in_envelope none = []
in_envelope (some (message, data_text)) =
    first_of (user_gid_in (decode_base64 message)) (user_gid_in (decode_base64 data_text))

pub in_payload : Envelope → Option Text → Text
unfolding user_gid in_envelope
in_payload envelope none = []
in_payload envelope (some bytes) = elim (user_gid bytes) [
  | some id ↦ id
  | none ↦ in_envelope (envelope bytes)
]

unfoldable pub user_id_from_sgid : Envelope → Text → Text
unfolding in_payload before
user_id_from_sgid envelope sgid = in_payload envelope (decode_base64 (before (codes "--") sgid))

abbrev pub mention_content_type : Text
mention_content_type = codes "application/vnd.actiontext.mention"

pub id_of_attributes : Envelope → List (Text × Text) → Text
unfolding attribute user_id_from_sgid
id_of_attributes envelope fields =
    if same (attribute (codes "content-type") [] fields) mention_content_type
    then user_id_from_sgid envelope (attribute (codes "sgid") [] fields)
    else []

-- The user that a tag mentions, or the empty text.
unfoldable pub id_of_tag : Envelope → Text → Text
unfolding attributes id_of_attributes
id_of_tag envelope tag = id_of_attributes envelope (attributes tag)

unfoldable pub ids_of_tags : Envelope → List Text → List Text
unfolding id_of_tag
ids_of_tags envelope [] = []
ids_of_tags envelope (tag ∷ tags) =
    let rest = ids_of_tags envelope tags in
    if same (id_of_tag envelope tag) [] then rest else id_of_tag envelope tag ∷ rest

unfoldable pub mentioned_user_ids : Envelope → Text → List Text
unfolding ids_of_tags find_all tag_at
mentioned_user_ids envelope html = ids_of_tags envelope (find_all tag_at 0 html)

unfoldable pub mentions : Envelope → Text → Text → Bool
unfolding mentioned_user_ids
mentions envelope html user = mem_text user (mentioned_user_ids envelope html)
