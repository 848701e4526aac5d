-- ===== src/Setup/Accounts.antt =====
-- internal/setup/setup.go: the logins, and the account that the connector uses.
use fizzy_connector.Base.{
  ℕ, zero, suc, ◌-◌, Bool, false, ◌||◌, Option, none, some, List, [], ◌∷◌, map, Text, codes, ◌==◌,
  if◌then◌else◌, same, length, cut_prefix, trim_left, trim_right, is_digit, number_up_to, CaseTable,
  to_upper, Result, ok, err, Error, failed,
}
use fizzy_connector.Config.{Config}
use fizzy_connector.Fizzy.{Account, Identity}
use fizzy_connector.Fizzy.Requests.{Client, Request, Server}
use fizzy_connector.Fizzy.Pages.{take_while, drop_while}
use fizzy_connector.Fizzy.Mentions.{is_word}
use fizzy_connector.Fizzy.Client.{Codec, identity_of, verify_user, rename_user, create_access_token}
use fizzy_connector.Fizzy.Session.{Page, request_magic_link, join_account, submit_magic_link}
use fizzy_connector.Setup.Prompts.{
  Talk, P, ask_for, ask_required, ask_secret, calling, giving, ◌>>=◌,
}

-- The surroundings of a dialogue: Fizzy and its decoders, the pages of its site, the error at the end
-- of the input, and the number of pages of a list that the dialogue waits for.
pub record Kit (S : Type 0) : Type 0 where
  pub server : Server S
  pub codec : Codec
  pub browse : Request → S → Option Page × S
  pub unescape : Text → Text
  pub table : CaseTable
  pub ended : Error
  pub pages : ℕ

unfoldable pub client_at : Text → Text → Text → Client
client_at base slug token = record {
  base_url = base;
  slug = slug;
  token = token;
  session_token = [];
}

unfoldable pub session_client : Text → Text → Text → Client
session_client base slug session = record {
  base_url = base;
  slug = slug;
  token = [];
  session_token = session;
}

is_slash : ℕ → Bool
is_slash c = c == b'/'

-- strings.Trim(slug, "/").
unfoldable pub trim_slashes : Text → Text
unfolding is_slash trim_left trim_right
trim_slashes s = trim_right is_slash (trim_left is_slash s)

unfoldable pub nth : {A : Type 0} → List A → ℕ → Option A
nth [] n = none
nth (x ∷ xs) zero = some x
nth (x ∷ xs) (suc n) = nth xs n

-- The account with a slug, and the account that an answer numbers.
unfoldable pub account_with : Text → List Account → Result Account
unfolding trim_slashes
account_with slug [] = err (failed (codes "the user is not in the account of the invite link"))
account_with slug (a ∷ accounts) =
    let rest = account_with slug accounts in if same (trim_slashes a.slug) slug then ok a else rest

unfoldable pub account_number : List Account → Text → Option Account
unfolding nth
account_number accounts line = elim (number_up_to (length accounts) line) [
  | none ↦ none
  | some n ↦ nth accounts (n - 1)
]

is_word_or_dash : ℕ → Bool
is_word_or_dash c = is_word c || c == b'-'

join_code : Text → Option Text → Option (Text × Text)
unfolding is_word_or_dash take_while
join_code slug none = none
join_code slug (some rest) =
    if same (take_while is_word_or_dash rest) []
    then none
    else some (slug, take_while is_word_or_dash rest)

invite_slug : Option Text → Option (Text × Text)
unfolding join_code take_while drop_while
invite_slug none = none
invite_slug (some rest) =
    if same (take_while is_digit rest) []
    then none
    else join_code (take_while is_digit rest)
        (cut_prefix (drop_while is_digit rest) (codes "/join/"))

-- The groups of `/(\d+)/join/([\w-]+)`, at its leftmost match.
unfoldable pub invite_link : Text → Option (Text × Text)
unfolding invite_slug
invite_link [] = none
invite_link (c ∷ s) =
    let rest = invite_link s in
    elim (invite_slug (cut_prefix (c ∷ s) (codes "/"))) [ none ↦ rest | some groups ↦ some groups ]

unfoldable pub is_bot_account : Text → List Account → Bool
is_bot_account bot [] = false
is_bot_account bot (a ∷ accounts) = same a.user.id bot || is_bot_account bot accounts

unfoldable pub email_of : Text → List Account → Text
email_of bot [] = []
email_of bot (a ∷ accounts) =
    let rest = email_of bot accounts in if same a.user.id bot then a.user.email_address else rest

-- An account, the token and the session token of a login.
pub record Access : Type 0 where
  pub account : Account
  pub token : Text
  pub session : Text

module _ {S : Type 0} (kit : Kit S) where
  unfoldable pub magic_link_login : Text → Text → P S Text
  unfolding client_at to_upper
  magic_link_login base email = do
    link ← calling (request_magic_link kit.server kit.codec (client_at base [] []) email)
    code ← ask_required kit.ended link.development_code
    calling (
        submit_magic_link kit.server kit.codec (client_at base [] []) link.pending_token
          (map (to_upper kit.table) code))

  several : List Account → P S Account
  unfolding account_number
  several accounts = ask_for kit.ended (account_number accounts) (codes "1")

  unfoldable pub one_account : List Account → P S Account
  unfolding several
  one_account [] = giving (err (failed (codes "this user is not in a Fizzy account")))
  one_account (a ∷ []) = giving (ok a)
  one_account (a ∷ b ∷ accounts) = several (a ∷ b ∷ accounts)

  unfoldable pub choose_account : Client → Text → P S Account
  unfolding account_with one_account
  choose_account c slug = do
    identity ← calling (identity_of kit.server kit.codec c)
    if same slug []
        then one_account identity.accounts
        else giving (account_with slug identity.accounts)

  unfoldable pub create_bot_user : Text → P S Access
  unfolding invite_link magic_link_login choose_account client_at session_client
  create_bot_user base = do
    link ← ask_for kit.ended invite_link []
    email ← ask_required kit.ended []
    name ← ask_required kit.ended (codes "Claude")
    _ ← calling (join_account kit.server kit.codec (client_at base link.0 []) link.1 email)
    session ← magic_link_login base email
    _ ← calling (verify_user kit.server kit.codec (session_client base link.0 session))
    account ← choose_account (session_client base link.0 session) link.0
    _ ←
        calling (
          rename_user kit.server kit.codec (session_client base link.0 session) account.user.id
            name)
    token ← calling (
        create_access_token kit.server kit.codec (session_client base link.0 session)
          (codes "fizzy-connector"))
    giving (
        ok (record {
          account = record account { user = record account.user { name = name } };
          token = token;
          session = session;
        }))

  unfoldable pub login_bot_user : Text → P S Access
  unfolding magic_link_login choose_account session_client trim_slashes
  login_bot_user base = do
    email ← ask_required kit.ended []
    session ← magic_link_login base email
    account ← choose_account (session_client base [] session) []
    token ← calling (
        create_access_token kit.server kit.codec
          (session_client base (trim_slashes account.slug) session) (codes "fizzy-connector"))
    giving (ok (record { account = account; token = token; session = session }))

  -- A personal access token: no websocket login.
  unfoldable pub token_bot_user : Text → P S Access
  unfolding choose_account client_at
  token_bot_user base = do
    token ← ask_secret kit.ended
    account ← choose_account (client_at base [] token) []
    giving (ok (record { account = account; token = token; session = [] }))

  unfoldable pub verify_session_user : Config → Text → P S (Unit {0})
  unfolding session_client is_bot_account
  verify_session_user cfg session = do
    identity ←
        calling
          (identity_of kit.server kit.codec (session_client cfg.base_url cfg.account_slug session))
    giving (
        if is_bot_account cfg.bot_user_id identity.accounts
        then ok tt
        else err (failed (codes "this login is not the Claude user of the config")))

  unfoldable pub email_found : Text → Result Identity × Talk S → Text × Talk S
  unfolding email_of
  email_found bot (err e, t) = ([], t)
  email_found bot (ok identity, t) = (email_of bot identity.accounts, t)

  unfoldable pub bot_email : Config → Talk S → Text × Talk S
  unfolding email_found client_at
  bot_email cfg t = email_found cfg.bot_user_id (
      calling (identity_of kit.server kit.codec (client_at cfg.base_url cfg.account_slug cfg.token))
        t)
