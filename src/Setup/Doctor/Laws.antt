-- ===== src/Setup/Doctor/Laws.antt =====
-- internal/setup/setup.go: what the success of Doctor says.
use fizzy_connector.Base.{
  ℕ, ◌≡◌, ◌≢◌, refl, ap, inl, inr, Bool, true, false, Bool-cases, Option, none, some, List, [], ◌∷◌,
  Text, arith, if◌then◌else◌, same, All, Result, ok, err, Error,
}
use fizzy_connector.Config.{Config}
use fizzy_connector.Fizzy.{Account, Identity, Board}
use fizzy_connector.Fizzy.Client.{identity_of, boards_of}
use fizzy_connector.Fizzy.Session.{notification_stream_name}
use fizzy_connector.Setup.Accounts.{Kit, client_at, is_bot_account}
use fizzy_connector.Setup.Doctor.{
  Health, claude_env, bot_account, token_detail, boards_detail, trusted_detail, repo_detail,
  is_directory, dirs_checked, mode_detail, version_detail, websocket_detail, any_failed, checks,
  doctor,
}

-- A check that succeeded.
abbrev Passed : Result Text → Type 0
Passed r = (detail : Text) × (r ≡ ok detail)

any_failed-Passed :
    (cs : List (Text × Result Text))
    → any_failed cs ≡ false
    → All (λ (c : Text × Result Text). Passed c.1) cs
unfolding any_failed
any_failed-Passed [] h = tt
any_failed-Passed ((name, err e) ∷ cs) h = absurd (ground arith)
any_failed-Passed ((name, ok detail) ∷ cs) h = ((detail, refl), any_failed-Passed cs h)

bot_account-Passed :
    (quote : Text → Text) (bot : Text) (accounts : List Account)
    → Passed (bot_account quote bot accounts)
    → is_bot_account bot accounts ≡ true
unfolding bot_account is_bot_account
bot_account-Passed quote bot [] (detail, h) = absurd (ground arith)
bot_account-Passed quote bot (a ∷ accounts) (detail, h) = elim (Bool-cases (same a.user.id bot)) [
  | inl e ↦ ground arith
  | inr e ↦ let rest = bot_account-Passed quote bot accounts (detail, ground arith) in ground arith
]

token_detail-Passed :
    (quote : Text → Text) (bot : Text) (r : Result Identity)
    → Passed (token_detail quote bot r)
    → (identity : Identity) × (r ≡ ok identity) × (is_bot_account bot identity.accounts ≡ true)
unfolding token_detail
token_detail-Passed quote bot (err e) (detail, h) = absurd (ground arith)
token_detail-Passed quote bot (ok identity) h =
    (identity, refl, bot_account-Passed quote bot identity.accounts h)

boards_detail-Passed :
    (r : Option (Result (List Board)))
    → Passed (boards_detail r)
    → (b : Board) × (bs : List Board) × (r ≡ some (ok (b ∷ bs)))
unfolding boards_detail
boards_detail-Passed none (detail, h) = absurd (ground arith)
boards_detail-Passed (some (err e)) (detail, h) = absurd (ground arith)
boards_detail-Passed (some (ok [])) (detail, h) = absurd (ground arith)
boards_detail-Passed (some (ok (b ∷ bs))) h = (b, bs, refl)

trusted_detail-Passed : (us : List Text) → Passed (trusted_detail us) → us ≢ []
unfolding trusted_detail
trusted_detail-Passed [] (detail, h) e = absurd (ground arith)
trusted_detail-Passed (u ∷ us) h e = absurd (ground arith)

repo_detail-Passed : (repo : Text) (r : Result Bool) → Passed (repo_detail repo r) → r ≡ ok true
unfolding repo_detail
repo_detail-Passed repo (err e) (detail, h) = absurd (ground arith)
repo_detail-Passed repo (ok false) (detail, h) = absurd (ground arith)
repo_detail-Passed repo (ok true) h = refl

is_directory_lem : (r : Result Bool) → is_directory r ≡ true → r ≡ ok true
unfolding is_directory
is_directory_lem (err e) h = absurd (ground arith)
is_directory_lem (ok b) h = ap Result.ok h

dirs_checked-Passed :
    (stat : Text → Result Bool) (detail : Text) (dirs : List Text)
    → Passed (dirs_checked stat detail dirs)
    → All (λ dir. stat dir ≡ ok true) dirs
unfolding dirs_checked
dirs_checked-Passed stat detail [] h = tt
dirs_checked-Passed stat detail (dir ∷ dirs) (d, h) = elim (Bool-cases (is_directory (stat dir))) [
  | inl e ↦ (is_directory_lem (stat dir) e, dirs_checked-Passed stat detail dirs (d, ground arith))
  | inr e ↦ absurd (ground arith)
]

version_detail-Passed :
    (dir : Text) (r : Result Text) → Passed (version_detail dir r) → (out : Text) × (r ≡ ok out)
unfolding version_detail
version_detail-Passed dir (err e) (detail, h) = absurd (ground arith)
version_detail-Passed dir (ok out) h = (out, refl)

websocket_detail-Passed :
    (token : Text) (r : Result Text)
    → Passed (websocket_detail token r)
    → token ≢ []
    → (name : Text) × (r ≡ ok name)
unfolding websocket_detail
websocket_detail-Passed [] r h given = absurd (given refl)
websocket_detail-Passed (c ∷ token) (err e) (detail, h) given = absurd (ground arith)
websocket_detail-Passed (c ∷ token) (ok name) h given = (name, refl)

-- What a healthy machine has: the token of the bot, boards of the bot, someone to trust, the directories,
-- a Claude that starts in its environment, and a stream for the websocket if there is a login.
abbrev pub IsHealthy : {S : Type 0} → Kit S → Health → Config → (ℕ → S) → Type 0
IsHealthy kit h cfg fizzy_at =
    let c = client_at cfg.base_url cfg.account_slug cfg.token in
    (identity : Identity) × ((identity_of kit.server kit.codec c (fizzy_at 1)).0 ≡ ok identity)
    × (is_bot_account cfg.bot_user_id identity.accounts ≡ true)
    × (b : Board) × (bs : List Board) × (boards_of kit.server kit.codec c kit.pages (fizzy_at 3)
        ≡ some (ok (b ∷ bs)))
    × (cfg.trusted_user_ids ≢ [])
    × (h.stat cfg.repo ≡ ok true)
    × All (λ dir. h.stat dir ≡ ok true) cfg.add_dirs
    × ((out : Text) × (h.version cfg.claude_path (claude_env cfg) ≡ ok out))
    × (h.session_token ≢ []
        → (name : Text) × ((notification_stream_name kit.browse kit.unescape c h.session_token
              (fizzy_at 8)).0
            ≡ ok name))

doctor_verdict :
    (b : Bool) (e : Error) → (if b then err e else ok tt) ≡ Result.ok (tt {0}) → b ≡ false
doctor_verdict true e h = absurd (ground arith)
doctor_verdict false e h = refl

-- When Doctor succeeds: the token of the configuration is one of the bot, which can see a board; someone is
-- trusted; the directory of the sessions and those that are added are there; Claude starts in the
-- environment that its turns get; and a login of the websocket, if there is one, is accepted.
pub doctor-IsHealthy :
    {S : Type 0} (kit : Kit S) (h : Health) (cfg : Config) (fizzy_at : ℕ → S)
    → (doctor kit h cfg fizzy_at).1 ≡ ok tt
    → IsHealthy kit h cfg fizzy_at
unfolding doctor checks
doctor-IsHealthy kit h cfg fizzy_at passed =
    let all = any_failed-Passed (checks kit h cfg fizzy_at) (doctor_verdict _ _ passed) in
    let (token, (listed, (boards, (trusted, (repo, (mode, (version, (websocket, _)))))))) = all in
    let (identity, got, is_bot) = token_detail-Passed h.quote cfg.bot_user_id _ token in
    let (b, bs, listed_boards) = boards_detail-Passed _ boards in
    (
      identity,
      got,
      is_bot,
      b,
      bs,
      listed_boards,
      trusted_detail-Passed _ trusted,
      repo_detail-Passed cfg.repo _ repo,
      dirs_checked-Passed h.stat (mode_detail cfg) cfg.add_dirs mode,
      version_detail-Passed cfg.claude_config_dir _ version,
      websocket_detail-Passed h.session_token _ websocket,
    )
