-- ===== src/Setup/Init.antt =====
-- internal/setup/setup.go: Init and Login, and the choice of the trusted users.
pub mod Chosen
pub mod Laws
use fizzy_connector.Base.{
  ℕ, ◌-◌, Bool, true, false, not, ◌&&◌, ◌||◌, Option, none, some, List, [], ◌∷◌, ◌++◌, Text, codes,
  ◌==◌, if◌then◌else◌, same, length, cut_prefix, trim_right, trim_space, number_up_to, split_on,
  Result, ok, err, Error, cancelled, failed,
}
use fizzy_connector.Config.{Config}
use fizzy_connector.Fizzy.{User, Account, Identity}
use fizzy_connector.Fizzy.Requests.{Client, C}
use fizzy_connector.Fizzy.Client.{users_of}
use fizzy_connector.Fizzy.Session.{notification_stream_name}
use fizzy_connector.Setup.Prompts.{Talk, P, answer, ask_for, ask_required, calling, giving, ◌>>=◌}
use fizzy_connector.Setup.Accounts.{
  Kit, Access, client_at, trim_slashes, nth, magic_link_login, create_bot_user, login_bot_user,
  token_bot_user, verify_session_user, bot_email,
}

-- The users who may be trusted: active people other than the bot.
unfoldable pub is_candidate : Text → User → Bool
is_candidate bot u = u.active && not (same u.id bot) && not (same u.role (codes "system"))

unfoldable pub candidates : Text → List User → List User
unfolding is_candidate
candidates bot [] = []
candidates bot (u ∷ us) =
    let rest = candidates bot us in if is_candidate bot u then u ∷ rest else rest

unfoldable pub ids_at : List User → List Text → Option (List Text)
unfolding nth
ids_at users [] = some []
ids_at users (field ∷ fields) = elim (number_up_to (length users) (trim_space field)) [
  | none ↦ none
  | some n ↦ elim (nth users (n - 1)) [
    | none ↦ none
    | some u ↦ elim (ids_at users fields) [ none ↦ none | some ids ↦ some (u.id ∷ ids) ]
  ]
]

-- An answer of numbers with commas between them.
unfoldable pub trusted_ids : List User → Text → Option (List Text)
unfolding ids_at
trusted_ids users line = ids_at users (split_on b',' line)

unfoldable pub or_default : Text → Text → Text
or_default value fallback = if same value [] then fallback else value

-- The end of a write of a file: an error before the file was opened, an error behind that, which leaves no
-- file that can be read, or none.
pub data Written : Type 0 where
  unopened broken : Error → Written
  whole : Written

-- What the machine has: the existing configuration, filepath.Abs, the home directory with paths in it,
-- the directories, and what a write of a file gives.
pub record Machine : Type 0 where
  pub existing : Option Config
  pub defaults : Config
  pub absolute : Text → Result Text
  pub in_home : Text → Text
  pub is_dir : Text → Bool
  pub write_config : Config → Written
  pub save_session : Config → Text → Written

unfoldable pub expand_home : Machine → Text → Text
expand_home m path = elim (cut_prefix path (codes "~/")) [
  | none ↦ path
  | some rest ↦ m.in_home rest
]

-- The answers "1", "2" and "3".
pub data Method : Type 0 where
  new_user existing_user access_token : Method

unfoldable pub method_of : Text → Option Method
method_of line =
    if same line (codes "1")
    then some new_user
    else if same line (codes "2")
    then some existing_user
    else if same line (codes "3")
    then some access_token
    else none

pub is_slash : ℕ → Bool
is_slash c = c == b'/'

unfoldable pub start_config : Machine → Config
start_config m = elim m.existing [ none ↦ m.defaults | some cfg ↦ cfg ]

-- The loop over the directory of the sessions: the last answer, made absolute, is offered again.
dir_checked :
    Machine → Result Text → List Text → (Text → Result Text × List Text) → Result Text × List Text
dir_checked m (err e) lines again = (err e, lines)
dir_checked m (ok path) lines again = if m.is_dir path then (ok path, lines) else again path

unfoldable pub ask_dir : Machine → Error → Text → List Text → Result Text × List Text
unfolding answer dir_checked expand_home
ask_dir m ended fallback [] = (err ended, [])
ask_dir m ended fallback (line ∷ lines) = elim (same (answer fallback line) []) [
  | true ↦ ask_dir m ended fallback lines
  | false ↦
      dir_checked m (m.absolute (expand_home m (answer fallback line))) lines
        (λ path. ask_dir m ended path lines)
]

pub dir_lines : {S : Type 0} → Talk S → Result Text × List Text → Result Text × Talk S
dir_lines t (r, lines) = (r, record t { lines = lines })

written : {S : Type 0} → Config → Written → Talk S → Result (Unit {0}) × Talk S
written cfg (unopened e) t = (err e, t)
written cfg (broken e) t = (err e, record t { config_file = none })
written cfg whole t = (ok tt, record t { config_file = some cfg })

saved : {S : Type 0} → Text → Written → Talk S → Result (Unit {0}) × Talk S
saved token (unopened e) t = (err e, t)
saved token (broken e) t = (err e, record t { session_file = none })
saved token whole t = (ok tt, record t { session_file = some token })

module _ {S : Type 0} (kit : Kit S) (m : Machine) where
  pub users_waited : Client → C S (List User)
  users_waited c s = elim (users_of kit.server kit.codec c kit.pages s) [
    | none ↦ (err cancelled, s)
    | some r ↦ (r, s)
  ]

  several_users : List User → P S (List Text)
  unfolding trusted_ids
  several_users [] = giving (err (failed (codes "the account has no other users")))
  several_users (u ∷ us) = ask_for kit.ended (trusted_ids (u ∷ us)) []

  unfoldable pub choose_trusted_users : Client → Text → P S (List Text)
  unfolding users_waited several_users candidates
  choose_trusted_users c bot = do
    users ← calling (users_waited c)
    several_users (candidates bot users)

  pub access_by : Text → Method → P S Access
  access_by base new_user = create_bot_user kit base
  access_by base existing_user = login_bot_user kit base
  access_by base access_token = token_bot_user kit base

  choose_dir : Text → P S Text
  unfolding ask_dir dir_lines
  choose_dir fallback t = dir_lines t (ask_dir m kit.ended fallback t.lines)

  -- The dialogue of Init up to the write: the configuration, and the session token or the empty text.
  unfoldable pub init_dialogue : P S (Config × Text)
  unfolding start_config or_default trim_right is_slash method_of access_by trim_slashes client_at
      choose_trusted_users choose_dir
  init_dialogue = do
    url ←
        ask_required kit.ended (or_default (start_config m).base_url (codes "https://app.fizzy.do"))
    method ← ask_for kit.ended method_of (codes "1")
    access ← access_by (trim_right is_slash url) method
    trusted ←
        choose_trusted_users
          (client_at (trim_right is_slash url) (trim_slashes access.account.slug) access.token)
          access.account.user.id
    repo ← choose_dir (start_config m).repo
    giving (
        ok (
          record (start_config m) {
            base_url = trim_right is_slash url;
            account_slug = trim_slashes access.account.slug;
            token = access.token;
            bot_user_id = access.account.user.id;
            trusted_user_ids = trusted;
            repo = repo;
          },
          access.session,
        ))

  unfoldable pub write_config : Config → P S (Unit {0})
  unfolding written
  write_config cfg t = written cfg (m.write_config cfg) t

  unfoldable pub save_session : Config → Text → P S (Unit {0})
  unfolding saved
  save_session cfg token t = saved token (m.save_session cfg token) t

  unfoldable pub init : P S (Unit {0})
  unfolding init_dialogue write_config save_session
  init = do
    settings ← init_dialogue
    _ ← write_config settings.0
    if same settings.1 [] then giving (ok tt) else save_session settings.0 settings.1

  -- The email address of the bot, as far as Fizzy gives it, is the fallback of the first question.
  with_email : Config → Text × Talk S → Result (Unit {0}) × Talk S
  unfolding client_at save_session
  with_email cfg (fallback, t) =
      (do
        email ← ask_required kit.ended fallback
        token ← magic_link_login kit cfg.base_url email
        _ ← verify_session_user kit cfg token
        _ ← calling (
            notification_stream_name kit.browse kit.unescape
              (client_at cfg.base_url cfg.account_slug []) token)
        save_session cfg token)
        t

  unfoldable pub login : Config → P S (Unit {0})
  unfolding with_email
  login cfg t = with_email cfg (bot_email kit cfg t)
