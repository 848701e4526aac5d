-- ===== src/Cable.antt =====
-- internal/cable/cable.go: the subscription to one stream over a websocket. What a connection delivers
-- until a read of it fails is a list of frames; package websocket dials, and package encoding/json reads and writes.
use fizzy_connector.Base.{
  Option, none, some, List, [], ◌∷◌, ◌++◌, Text, codes, if◌then◌else◌, same, contains, Result, ok,
  err, Error, failed,
}

pub record Subscription : Type 0 where
  pub base_url : Text
  pub account_slug : Text
  pub session_token : Text
  pub stream_name : Text

-- The fields of a message that are read; `body` is the JSON of its field "message", as it stands.
pub record Message : Type 0 where
  pub kind : Text
  pub body : Text
  pub reason : Text

-- A frame that is not JSON, or a message with the result of the write that may answer it.
pub data Frame : Type 0 where
  garbage : Frame
  said : Message → Result (Unit {0}) → Frame

-- The parts of a URL; `others` has those that the dial keeps.
pub record Url : Type 0 where
  pub scheme : Text
  pub host : Text
  pub path : Text
  pub others : Text

-- What a connection delivers, and the error of the read behind it: a stale connection, or one that ended.
pub record Wire : Type 0 where
  pub frames : List Frame
  pub broken : Error

pub record Net : Type 0 where
  pub parse_url : Text → Option Url
  pub json_object : List (Text × Text) → Text
  pub dial : Url → List (Text × Text) → Result Wire

-- What Listen does: it sends a command, calls onReady, or calls onSignal.
pub data Event : Type 0 where
  sent : Text → Event
  ready signal : Event

pub data Kind : Type 0 where
  welcome confirmed rejected disconnected ping other : Kind

-- The switch on the type.
unfoldable pub kind_of : Text → Kind
kind_of kind =
    if same kind (codes "welcome")
    then welcome
    else if same kind (codes "confirm_subscription")
    then confirmed
    else if same kind (codes "reject_subscription")
    then rejected
    else if same kind (codes "disconnect")
    then disconnected
    else if same kind (codes "ping")
    then ping
    else other

abbrev pub unauthorized : Error
unauthorized = failed (codes "cable: session cookie not accepted")

disconnect_error : Text → Error
disconnect_error reason =
    if contains reason (codes "unauthorized")
    then unauthorized
    else failed (codes "cable: disconnected")

before_event : Event → List Event × Error → List Event × Error
before_event event (events, e) = (event ∷ events, e)

after_write : Text → Result (Unit {0}) → List Event × Error → List Event × Error
unfolding before_event
after_write command (err e) rest = ([], failed (codes "cable: subscribe"))
after_write command (ok _) rest = before_event (sent command) rest

of_kind : Text → Kind → Message → Result (Unit {0}) → List Event × Error → List Event × Error
unfolding after_write disconnect_error before_event
of_kind command welcome m w rest = after_write command w rest
of_kind command confirmed m w rest = before_event ready rest
of_kind command rejected m w rest = ([], failed (codes "cable: subscription rejected"))
of_kind command disconnected m w rest = ([], disconnect_error m.reason)
of_kind command ping m w rest = rest
of_kind command other m w rest = if same m.body [] then rest else before_event signal rest

-- The loop of Listen.
unfoldable pub received : Text → Error → List Frame → List Event × Error
unfolding of_kind kind_of
received command broken [] = ([], broken)
received command broken (garbage ∷ frames) = received command broken frames
received command broken (said m w ∷ frames) =
    of_kind command (kind_of m.kind) m w (received command broken frames)

ws_scheme : Text → Text
ws_scheme scheme =
    if same scheme (codes "http")
    then codes "ws"
    else if same scheme (codes "https")
    then codes "wss"
    else []

unfoldable pub cable_url : Subscription → Url → Url
unfolding ws_scheme
cable_url s base = record base {
  scheme = ws_scheme base.scheme;
  path = codes "/" ++ s.account_slug ++ codes "/cable";
}

unfoldable pub handshake : Subscription → Url → List (Text × Text)
handshake s base =
    (codes "Origin", base.scheme ++ codes "://" ++ base.host)
    ∷ ((codes "Cookie", codes "session_token=" ++ s.session_token) ∷ [])

unfoldable pub subscribe_command : Net → Subscription → Text
subscribe_command net s = net.json_object (
    (codes "command", codes "subscribe")
    ∷ ((
      codes "identifier",
      net.json_object (
          (codes "channel", codes "Turbo::StreamsChannel")
          ∷ ((codes "signed_stream_name", s.stream_name) ∷ [])),
    )
        ∷ []))

dialled : Text → Result Wire → List Event × Error
unfolding received
dialled command (err e) = ([], failed (codes "cable: connect"))
dialled command (ok wire) = received command wire.broken wire.frames

listen_at : Net → Subscription → Option Url → List Event × Error
unfolding dialled cable_url handshake subscribe_command
listen_at net s none = ([], failed (codes "parse"))
listen_at net s (some base) =
    dialled (subscribe_command net s) (net.dial (cable_url s base) (handshake s base))

-- `Listen`: what it does, and the error it ends with.
unfoldable pub listen : Net → Subscription → List Event × Error
unfolding listen_at
listen net s = listen_at net s (net.parse_url s.base_url)
