-- ===== src/Fizzy/Session.antt =====
-- internal/fizzy/session.go: the login by magic link, the invite link, and the name of the stream of
-- notifications in a page of Fizzy. `browse` follows redirects: it gives the status and the path of the
-- last response, and its page; `unescape` is html.UnescapeString.
use fizzy_connector.Base.{
  ℕ, ◌+◌, Bool, not, ◌||◌, Option, none, some, List, [], ◌∷◌, ◌++◌, Text, codes, ltb, ◌==◌,
  if◌then◌else◌, same, contains, trim_left, trim_right, trim_suffix, Result, ok, err, api, failed,
  length, cut_prefix,
}
use fizzy_connector.Fizzy.Requests.{
  Client, method_get, method_post, no_payload, flat, Request, Response, Reply, unreachable, replied,
  Server, C, account_url,
}
use fizzy_connector.Fizzy.Pages.{take_while, drop_while}
use fizzy_connector.Fizzy.Client.{Codec, decoded}
use fizzy_connector.Fizzy.Base64.{decode_base64}
use fizzy_connector.Fizzy.Mentions.{find_all, before, not_char}

-- sessionPost: JSON both ways, and a cookie if there is one.
session_headers : Text → List (Text × Text)
session_headers cookie =
    (codes "Accept", codes "application/json")
    ∷ ((codes "Content-Type", codes "application/json")
        ∷ (if same cookie [] then [] else (codes "Cookie", cookie) ∷ []))

unfoldable pub session_request : Client → Text → List (Text × Text) → Text → Request
unfolding session_headers
session_request c path fields cookie = record {
  method = method_post;
  url = c.base_url ++ path;
  headers = session_headers cookie;
  payload = flat fields;
}

session_outcome : Reply → Result Response
session_outcome unreachable = err (failed (codes "transport"))
session_outcome (replied r) =
    if ltb r.status 200 || ltb 299 r.status then err (api r.status) else ok r

session_received : {S : Type 0} → Reply × S → Result Response × S
unfolding session_outcome
session_received (reply, s) = (session_outcome reply, s)

pub record MagicLink : Type 0 where
  pub pending_token : Text
  pub development_code : Text

magic_link_of : Codec → Result Response → Result MagicLink
magic_link_of k (err e) = err e
magic_link_of k (ok r) = elim (k.pending_token r.body) [
  | none ↦ err (failed (codes "json"))
  | some token ↦ ok (record { pending_token = token; development_code = r.magic_link_code })
]

magic_link_result : {S : Type 0} → Codec → Result Response × S → Result MagicLink × S
unfolding magic_link_of
magic_link_result k (r, s) = (magic_link_of k r, s)

joined : {S : Type 0} → Result Response × S → Result (Unit {0}) × S
joined (ok r, s) = (ok tt, s)
joined (err e, s) = (err e, s)

-- A page behind the redirects, its status and the path of its URL.
pub record Page : Type 0 where
  pub status : ℕ
  pub path : Text
  pub body : Text

stream_body : Text → Text → Option (Text × ℕ)
stream_body name [] = none
stream_body name (c ∷ rest) =
    if same name []
    then none
    else some (name, length (codes "signed-stream-name=\"") + length name + 1)

stream_rest : Option Text → Option (Text × ℕ)
unfolding stream_body take_while drop_while not_char
stream_rest none = none
stream_rest (some rest) =
    stream_body (take_while (not_char b'"') rest) (drop_while (not_char b'"') rest)

-- `signed-stream-name="([^"]+)"`.
unfoldable pub stream_name_at : Text → Option (Text × ℕ)
unfolding stream_rest
stream_name_at s = stream_rest (cut_prefix s (codes "signed-stream-name=\""))

is_quote : ℕ → Bool
is_quote c = c == b'"'

bytes_or_none : Option Text → Text
bytes_or_none none = []
bytes_or_none (some bytes) = bytes

ends_with : Text → Text → Bool
ends_with s suffix = not (same (trim_suffix s suffix) s)

-- A signed name whose payload, without quotes at its ends, ends with ":notifications".
unfoldable pub is_notifications : Text → Bool
unfolding is_quote bytes_or_none ends_with trim_left trim_right before
is_notifications name =
    ends_with
      (trim_right is_quote
        (trim_left is_quote (bytes_or_none (decode_base64 (before (codes "--") name)))))
      (codes ":notifications")

unfoldable pub first_stream : (Text → Text) → List Text → Result Text
unfolding is_notifications
first_stream unescape [] =
    err (failed (codes "notification stream name not found in the Fizzy page"))
first_stream unescape (m ∷ ms) =
    let rest = first_stream unescape ms in
    if is_notifications (unescape m) then ok (unescape m) else rest

unfoldable pub stream_in_page : (Text → Text) → Option Page → Result Text
unfolding first_stream find_all stream_name_at
stream_in_page unescape none = err (failed (codes "transport"))
stream_in_page unescape (some page) =
    if not (page.status == 200) || contains page.path (codes "/session")
    then err (failed (codes "session cookie not accepted"))
    else first_stream unescape (find_all stream_name_at 0 page.body)

stream_result : {S : Type 0} → (Text → Text) → Option Page × S → Result Text × S
unfolding stream_in_page
stream_result unescape (page, s) = (stream_in_page unescape page, s)

module _ {S : Type 0} (server : Server S) (k : Codec) (c : Client) where
  unfoldable pub session_post : Text → List (Text × Text) → Text → C S Response
  unfolding session_received session_request
  session_post path fields cookie s =
      session_received (server (session_request c path fields cookie) s)

  unfoldable pub request_magic_link : Text → C S MagicLink
  unfolding magic_link_result
  request_magic_link email s =
      magic_link_result k
        (session_post (codes "/session") ((codes "email_address", email) ∷ []) [] s)

  unfoldable pub join_account : Text → Text → C S (Unit {0})
  unfolding joined
  join_account code email s = joined (
      session_post (codes "/" ++ c.slug ++ codes "/join/" ++ code)
        ((codes "email_address", email) ∷ []) [] s)

  unfoldable pub submit_magic_link : Text → Text → C S Text
  unfolding decoded
  submit_magic_link pending code s = decoded k.session_token (
      session_post (codes "/session/magic_link") ((codes "code", code) ∷ [])
        (codes "pending_authentication_token=" ++ pending) s)

unfoldable pub stream_request : Client → Text → Request
unfolding account_url
stream_request c session_token = record {
  method = method_get;
  url = account_url c [];
  headers =
      (codes "Accept", codes "text/html")
      ∷ (codes "Cookie", codes "session_token=" ++ session_token)
      ∷ [];
  payload = no_payload;
}

unfoldable pub notification_stream_name :
    {S : Type 0} → (Request → S → Option Page × S) → (Text → Text) → Client → Text → C S Text
unfolding stream_result stream_request
notification_stream_name browse unescape c session_token s =
    stream_result unescape (browse (stream_request c session_token) s)
