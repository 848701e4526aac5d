-- ===== src/Setup/Doctor.antt =====
-- internal/setup/setup.go: Doctor, and ClaudeEnv of internal/config/config.go. A check gives its
-- detail or an error; package fmt quotes, and os.Stat tells whether a path is a directory.
pub mod Laws
use fizzy_connector.Base.{
  ℕ, ◌+◌, Bool, true, false, not, ◌&&◌, Option, none, some, List, [], ◌∷◌, ◌++◌, map, Text, codes,
  if◌then◌else◌, same, join, length, decimal, trim_space, Result, ok, err, Error, cancelled, failed,
}
use fizzy_connector.Config.{Config}
use fizzy_connector.Fizzy.{User, Account, Identity, Board, Notification}
use fizzy_connector.Fizzy.Requests.{Client}
use fizzy_connector.Fizzy.Client.{identity_of, boards_of, notifications}
use fizzy_connector.Fizzy.Session.{notification_stream_name}
use fizzy_connector.Setup.Accounts.{Kit, client_at}

-- The machine: the directories, `claude --version` in an environment, and the login of the websocket.
pub record Health : Type 0 where
  pub stat : Text → Result Bool
  pub version : Text → List Text → Result Text
  pub session_token : Text
  pub quote : Text → Text

unfoldable pub claude_env : Config → List Text
claude_env cfg =
    if same cfg.claude_config_dir []
    then []
    else (codes "CLAUDE_CONFIG_DIR=" ++ cfg.claude_config_dir) ∷ []

bot_account : (Text → Text) → Text → List Account → Result Text
bot_account quote bot [] = err (failed (codes "the token does not belong to bot_user_id"))
bot_account quote bot (a ∷ accounts) =
    let rest = bot_account quote bot accounts in
    if same a.user.id bot
    then ok (codes "user " ++ quote a.user.name ++ codes " in account " ++ quote a.name)
    else rest

token_detail : (Text → Text) → Text → Result Identity → Result Text
unfolding bot_account
token_detail quote bot (err e) = err e
token_detail quote bot (ok identity) = bot_account quote bot identity.accounts

notifications_detail : Result (List Notification × Text) → Result Text
notifications_detail (err e) = err e
notifications_detail (ok (ns, etag)) = ok (decimal (length ns) ++ codes " on the first page")

name_of : Board → Text
name_of board = board.name

boards_detail : Option (Result (List Board)) → Result Text
unfolding name_of
boards_detail none = err cancelled
boards_detail (some (err e)) = err e
boards_detail (some (ok [])) =
    err (failed (codes "the Claude user has access to no boards, so nobody can mention it"))
boards_detail (some (ok (b ∷ bs))) = ok (join (codes ", ") (map name_of (b ∷ bs)))

trusted_detail : List Text → Result Text
trusted_detail [] = err (failed (codes "trusted_user_ids is empty: Claude ignores all mentions"))
trusted_detail (u ∷ us) = ok (decimal (length (u ∷ us)))

repo_detail : Text → Result Bool → Result Text
repo_detail repo (err e) = err e
repo_detail repo (ok false) = err (failed (codes "not a directory"))
repo_detail repo (ok true) = ok repo

is_directory : Result Bool → Bool
is_directory (err e) = false
is_directory (ok b) = b

dirs_checked : (Text → Result Bool) → Text → List Text → Result Text
unfolding is_directory
dirs_checked stat detail [] = ok detail
dirs_checked stat detail (dir ∷ dirs) =
    let rest = dirs_checked stat detail dirs in
    if is_directory (stat dir)
    then rest
    else err (failed (codes "add_dirs: " ++ dir ++ codes " is not a directory"))

mode_detail : Config → Text
mode_detail cfg =
    cfg.permission_mode
    ++ (if cfg.approvals
        then codes ", permission questions go to the card"
        else codes ", actions that need a prompt are refused")
    ++ (if same cfg.permission_mode (codes "bypassPermissions")
        then codes
            "\nWARN  bypassPermissions lets a mention run any command on this machine: use it only in a container"
        else [])

version_detail : Text → Result Text → Result Text
version_detail dir (err e) = err e
version_detail dir (ok out) =
    ok (trim_space out ++ (if same dir [] then [] else codes ", config in " ++ dir))

websocket_detail : Text → Result Text → Result Text
websocket_detail [] r = ok (codes "not configured (optional): the daemon uses the timer")
websocket_detail (c ∷ token) (err e) = err e
websocket_detail (c ∷ token) (ok name) = ok (codes "session cookie accepted")

any_failed : List (Text × Result Text) → Bool
any_failed [] = false
any_failed ((name, err e) ∷ checks) = true
any_failed ((name, ok detail) ∷ checks) = any_failed checks

module _ {S : Type 0} (kit : Kit S) (h : Health) (cfg : Config) (fizzy_at : ℕ → S) where
  doctor_client : Client
  doctor_client = client_at cfg.base_url cfg.account_slug cfg.token

  -- The checks, in their order; `fizzy_at` is the state of Fizzy at the check with a number.
  unfoldable pub checks : List (Text × Result Text)
  unfolding claude_env token_detail notifications_detail boards_detail trusted_detail repo_detail
      dirs_checked mode_detail version_detail websocket_detail doctor_client
  checks =
      (
        codes "Fizzy token",
        token_detail h.quote cfg.bot_user_id
            (identity_of kit.server kit.codec doctor_client (fizzy_at 1)).0,
      )
      ∷ ((
        codes "Notifications",
        notifications_detail (notifications kit.server kit.codec doctor_client [] (fizzy_at 2)),
      )
          ∷ ((
            codes "Board access",
            boards_detail (boards_of kit.server kit.codec doctor_client kit.pages (fizzy_at 3)),
          )
              ∷ ((codes "Trusted users", trusted_detail cfg.trusted_user_ids)
                  ∷ ((codes "Work directory", repo_detail cfg.repo (h.stat cfg.repo))
                      ∷ ((
                        codes "Permission mode",
                        dirs_checked h.stat (mode_detail cfg) cfg.add_dirs,
                      )
                          ∷ ((
                            codes "Claude Code",
                            version_detail cfg.claude_config_dir
                                (h.version cfg.claude_path (claude_env cfg)),
                          )
                              ∷ ((
                                codes "Websocket login",
                                websocket_detail h.session_token
                                    (notification_stream_name kit.browse kit.unescape doctor_client
                                      h.session_token (fizzy_at 8)).0,
                              )
                                  ∷ [])))))))

  -- `Doctor`: what the checks give, and its error if one of them failed.
  unfoldable pub doctor : List (Text × Result Text) × Result (Unit {0})
  unfolding checks any_failed
  doctor = (
    checks,
    if any_failed checks then err (failed (codes "one or more checks failed")) else ok tt,
  )
