-- ===== src/Fizzy/Client.antt =====
-- internal/fizzy/client.go and session.go: the calls of the API, each a request and what its
-- response means. A `Codec` has the decoders of package encoding/json for the types of the API.
pub mod Laws
use fizzy_connector.Base.{
  ℕ, suc, Bool, true, false, not, ◌||◌, ◌&&◌, Option, none, some, List, [], ◌∷◌, ◌++◌, Text, codes,
  leb, ◌==◌, if◌then◌else◌, same, cut_prefix, decimal, is_digit, atoi, Result, ok, err, Error,
  not_modified, card_gone, not_started, cost_limit, deadline_exceeded, cancelled, api, failed,
}
use fizzy_connector.Fizzy.{Identity, User, Board, BoardAccess, Column, Card, Comment, Notification}
use fizzy_connector.Fizzy.Requests.{
  Client, Method, method_get, method_post, method_put, method_delete, Payload, no_payload, flat,
  nested, Request, Response, Reply, Server, C, account_url, card_url, request_of, do_request,
}
use fizzy_connector.Fizzy.Pages.{take_while, get_all, board_members}

pub record Codec : Type 0 where
  pub users : Text → Option (List User)
  pub boards : Text → Option (List Board)
  pub columns : Text → Option (List Column)
  pub comments : Text → Option (List Comment)
  pub cards : Text → Option (List Card)
  pub accesses : Text → Option (List BoardAccess)
  pub notifications : Text → Option (List Notification)
  pub card : Text → Option Card
  pub comment_id : Text → Option Text
  pub access_token : Text → Option Text
  pub identity : Text → Option Identity
  pub pending_token : Text → Option Text
  pub session_token : Text → Option Text
  pub query : List (Text × Text) → Text

-- The group of a pattern `prefix([class]+)`, at its leftmost match.
group_at : Text → (ℕ → Bool) → Text → Option Text
group_at prefix class s = elim (cut_prefix s prefix) [
  | none ↦ none
  | some rest ↦ if same (take_while class rest) [] then none else some (take_while class rest)
]

unfoldable pub find_group : Text → (ℕ → Bool) → Text → Option Text
unfolding group_at
find_group prefix class [] = none
find_group prefix class (c ∷ s) =
    let rest = find_group prefix class s in
    elim (group_at prefix class (c ∷ s)) [ none ↦ rest | some g ↦ some g ]

unfoldable pub is_id_char : ℕ → Bool
is_id_char c =
    (leb b'A' c && leb c b'Z') || (leb b'a' c && leb c b'z') || is_digit c || c == b'_' || c == b'-'

unit_of : {S : Type 0} → Result Response × S → Result (Unit {0}) × S
unit_of (ok r, s) = (ok tt, s)
unit_of (err e, s) = (err e, s)

unfoldable pub decoded : {A S : Type 0} → (Text → Option A) → Result Response × S → Result A × S
decoded decode (err e, s) = (err e, s)
decoded decode (ok r, s) = elim (decode r.body) [
  | none ↦ (err (failed (codes "json")), s)
  | some a ↦ (ok a, s)
]

id_of : Codec → Response → Option Text → Result Text
id_of k r (some id) = ok id
id_of k r none = elim (k.comment_id r.body) [
  | none ↦ err (failed (codes "fizzy: the new comment has no id"))
  | some id ↦ if same id [] then err (failed (codes "fizzy: the new comment has no id")) else ok id
]

created_id : {S : Type 0} → Codec → Result Response × S → Result Text × S
unfolding id_of
created_id k (err e, s) = (err e, s)
created_id k (ok r, s) = (id_of k r (find_group (codes "/comments/") is_id_char r.location), s)

number_of : Option Text → Result ℕ
number_of none = err (failed (codes "fizzy: the new card has no Location header"))
number_of (some digits) = elim (atoi digits) [ none ↦ err (failed (codes "atoi")) | some n ↦ ok n ]

created_number : {S : Type 0} → Result Response × S → Result ℕ × S
unfolding number_of
created_number (err e, s) = (err e, s)
created_number (ok r, s) = (number_of (find_group (codes "/cards/") is_digit r.location), s)

notifications_of : Codec → Text → Result Response → Result (List Notification × Text)
notifications_of k etag (err e) = err e
notifications_of k etag (ok r) = elim (k.notifications r.body) [
  | none ↦ err (failed (codes "json"))
  | some ns ↦ ok (ns, r.etag)
]

verified : Result (Unit {0}) → Result (Unit {0})
verified (ok _) = ok tt
verified (err (api n)) = if n == 302 then ok tt else err (api n)
verified (err card_gone) = err card_gone
verified (err not_modified) = err not_modified
verified (err not_started) = err not_started
verified (err cost_limit) = err cost_limit
verified (err deadline_exceeded) = err deadline_exceeded
verified (err cancelled) = err cancelled
verified (err (failed t)) = err (failed t)

first_verified : {S : Type 0} → Result (Unit {0}) × S → Result (Unit {0}) × S
unfolding verified
first_verified (r, s) = (verified r, s)

terms_query : List Text → List (Text × Text)
terms_query [] = []
terms_query (t ∷ ts) = (codes "terms[]", t) ∷ terms_query ts

module _ {S : Type 0} (server : Server S) (k : Codec) (c : Client) where
  -- A call whose response is not read.
  unfoldable pub call : Method → Text → Payload → C S (Unit {0})
  unfolding unit_of
  call method url payload s = unit_of (do_request server c method url payload [] s)

  -- `get` decodes the body.
  unfoldable pub get : {A : Type 0} → (Text → Option A) → Text → C S A
  unfolding decoded
  get decode url s = decoded decode (do_request server c method_get url no_payload [] s)

  -- The replies to the requests of a loop over pages; a GET request changes nothing.
  unfoldable pub replies : S → Text → Reply
  replies s url = (server (request_of c method_get url no_payload []) s).0

  -- getAll with a bound on the pages.
  unfoldable pub list_at :
      {A : Type 0} → (Text → Option (List A)) → ℕ → Text → S → Option (Result (List A))
  unfolding replies
  list_at decode pages url s = get_all decode (replies s) pages url []

  unfoldable pub identity_of : C S Identity
  identity_of s = get k.identity (c.base_url ++ codes "/my/identity") s

  unfoldable pub users_of : ℕ → S → Option (Result (List User))
  users_of pages s = list_at k.users pages (account_url c (codes "/users")) s

  unfoldable pub boards_of : ℕ → S → Option (Result (List Board))
  boards_of pages s = list_at k.boards pages (account_url c (codes "/boards")) s

  unfoldable pub columns_of : Text → ℕ → S → Option (Result (List Column))
  columns_of board pages s =
      list_at k.columns pages (account_url c (codes "/boards/" ++ board ++ codes "/columns")) s

  unfoldable pub comments_of : ℕ → ℕ → S → Option (Result (List Comment))
  comments_of n pages s = list_at k.comments pages (card_url c n ++ codes "/comments") s

  unfoldable pub members_of_board : Text → ℕ → S → Option (Result (List User))
  unfolding replies
  members_of_board board pages s =
      board_members k.accesses (replies s) pages
        (account_url c (codes "/boards/" ++ board ++ codes "/accesses")) []

  -- `Notifications` with an ETag: the first page and its ETag; an error keeps the old one.
  unfoldable pub notifications : Text → S → Result (List Notification × Text)
  unfolding notifications_of
  notifications etag s =
      notifications_of k etag
        (do_request server c method_get (account_url c (codes "/notifications")) no_payload etag
          s).0

  unfoldable pub mark_notification_read : Text → C S (Unit {0})
  mark_notification_read id =
      call method_post (account_url c (codes "/notifications/" ++ id ++ codes "/reading"))
        no_payload

  unfoldable pub get_card : ℕ → C S Card
  get_card n = get k.card (card_url c n)

  unfoldable pub search_cards : List Text → C S (List Card)
  unfolding terms_query
  search_cards terms =
      get k.cards (account_url c (codes "/cards") ++ codes "?" ++ k.query (terms_query terms))

  unfoldable pub create_comment : ℕ → Text → C S Text
  unfolding created_id
  create_comment n html s = created_id k (
      do_request server c method_post (card_url c n ++ codes "/comments")
        (nested (codes "comment") ((codes "body", html) ∷ [])) [] s)

  unfoldable pub react_to_comment : ℕ → Text → Text → C S (Unit {0})
  react_to_comment n id content =
      call method_post (card_url c n ++ codes "/comments/" ++ id ++ codes "/reactions")
        (nested (codes "reaction") ((codes "content", content) ∷ []))

  unfoldable pub react_to_card : ℕ → Text → C S (Unit {0})
  react_to_card n content =
      call method_post (card_url c n ++ codes "/reactions")
        (nested (codes "reaction") ((codes "content", content) ∷ []))

  unfoldable pub create_card : Text → Text → Text → C S ℕ
  unfolding created_number
  create_card board title html s = created_number (
      do_request server c method_post (account_url c (codes "/boards/" ++ board ++ codes "/cards"))
        (nested (codes "card") ((codes "title", title) ∷ (codes "description", html) ∷ [])) [] s)

  unfoldable pub close_card : ℕ → C S (Unit {0})
  close_card n = call method_post (card_url c n ++ codes "/closure") no_payload

  unfoldable pub reopen_card : ℕ → C S (Unit {0})
  reopen_card n = call method_delete (card_url c n ++ codes "/closure") no_payload

  unfoldable pub move_card_to_column : ℕ → Text → C S (Unit {0})
  move_card_to_column n column =
      call method_post (card_url c n ++ codes "/triage") (flat ((codes "column_id", column) ∷ []))

  unfoldable pub toggle_assignment : ℕ → Text → C S (Unit {0})
  toggle_assignment n user =
      call method_post (card_url c n ++ codes "/assignments")
        (flat ((codes "assignee_id", user) ∷ []))

  unfoldable pub toggle_tag : ℕ → Text → C S (Unit {0})
  toggle_tag n title =
      call method_post (card_url c n ++ codes "/taggings") (flat ((codes "tag_title", title) ∷ []))

  unfoldable pub move_card_to_board : ℕ → Text → C S (Unit {0})
  move_card_to_board n board =
      call method_put (card_url c n ++ codes "/board") (flat ((codes "board_id", board) ∷ []))

  -- VerifyUser takes a redirect for a success.
  unfoldable pub verify_user : C S (Unit {0})
  unfolding first_verified
  verify_user s =
      first_verified (call method_post (account_url c (codes "/users/verifications")) no_payload s)

  unfoldable pub rename_user : Text → Text → C S (Unit {0})
  rename_user id name =
      call method_put (account_url c (codes "/users/" ++ id))
        (nested (codes "user") ((codes "name", name) ∷ []))

  unfoldable pub create_access_token : Text → C S Text
  unfolding decoded
  create_access_token description s = decoded k.access_token (
      do_request server c method_post (account_url c (codes "/my/access_tokens"))
        (nested (codes "access_token")
          ((codes "description", description) ∷ (codes "permission", codes "write") ∷ []))
        [] s)
