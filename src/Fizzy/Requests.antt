-- ===== src/Fizzy/Requests.antt =====
-- internal/fizzy/client.go, `do`: one request to the Fizzy API and what its reply means. The server
-- is a function on a state of its own; the transport of package net/http is its first result.
use fizzy_connector.Base.{
  ℕ, Bool, true, false, not, ◌||◌, List, [], ◌∷◌, ◌++◌, Text, codes, ltb, ◌==◌, if◌then◌else◌, same,
  decimal, Result, ok, err, not_modified, api, failed,
}

pub record Client : Type 0 where
  pub base_url : Text
  pub slug : Text
  pub token : Text
  pub session_token : Text

pub data Method : Type 0 where
  method_get method_post method_put method_delete : Method

-- The payload: no body, a JSON object of texts, or one such object under a key.
pub data Payload : Type 0 where
  no_payload : Payload
  flat : List (Text × Text) → Payload
  nested : Text → List (Text × Text) → Payload

pub record Request : Type 0 where
  pub method : Method
  pub url : Text
  pub headers : List (Text × Text)
  pub payload : Payload

-- The fields of a response that the code reads: headers Link, Location, ETag and X-Magic-Link-Code, and the body.
pub record Response : Type 0 where
  pub status : ℕ
  pub link : Text
  pub location : Text
  pub etag : Text
  pub magic_link_code : Text
  pub body : Text

pub data Reply : Type 0 where
  unreachable : Reply
  replied : Response → Reply

-- The server, with a state `S`.
abbrev pub Server : Type 0 → Type 0
Server S = Request → S → Reply × S

abbrev pub C : Type 0 → Type 0 → Type 0
C S A = S → Result A × S

unfoldable pub account_url : Client → Text → Text
account_url c path = c.base_url ++ codes "/" ++ c.slug ++ path

unfoldable pub card_url : Client → ℕ → Text
unfolding account_url
card_url c n = account_url c (codes "/cards/" ++ decimal n)

has_body : Payload → Bool
has_body no_payload = false
has_body (flat fields) = true
has_body (nested key fields) = true

header_when : Bool → Text → Text → List (Text × Text)
header_when b name value = if b then (name, value) ∷ [] else []

unfoldable pub headers_of : Client → Payload → Text → List (Text × Text)
unfolding has_body header_when
headers_of c payload etag =
    (codes "Accept", codes "application/json")
    ∷ (codes "User-Agent", codes "fizzy-connector")
    ∷ (header_when (not (same c.token [])) (codes "Authorization") (codes "Bearer " ++ c.token)
        ++ header_when (not (same c.session_token [])) (codes "Cookie")
            (codes "session_token=" ++ c.session_token)
        ++ header_when (has_body payload) (codes "Content-Type") (codes "application/json")
        ++ header_when (not (same etag [])) (codes "If-None-Match") etag)

unfoldable pub request_of : Client → Method → Text → Payload → Text → Request
unfolding headers_of
request_of c method url payload etag = record {
  method = method;
  url = url;
  headers = headers_of c payload etag;
  payload = payload;
}

-- What `do` makes of a reply.
unfoldable pub outcome_of : Reply → Result Response
outcome_of unreachable = err (failed (codes "transport"))
outcome_of (replied r) =
    if r.status == 304
    then err not_modified
    else if ltb r.status 200 || ltb 299 r.status
    then err (api r.status)
    else ok r

unfoldable pub received : {S : Type 0} → Reply × S → Result Response × S
unfolding outcome_of
received (reply, s) = (outcome_of reply, s)

unfoldable pub do_request :
    {S : Type 0} → Server S → Client → Method → Text → Payload → Text → C S Response
unfolding received request_of
do_request server c method url payload etag s =
    received (server (request_of c method url payload etag) s)
