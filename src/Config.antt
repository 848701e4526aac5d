-- ===== src/Config.antt =====
-- internal/config/config.go: the settings, their defaults and their validation.
-- A duration is a number of nanoseconds, and may be negative before the validation.
pub mod Laws
pub mod DataDir
pub mod Load
use fizzy_connector.Base.{
  ℕ, suc, ◌+◌, ◌-◌, ◌*◌, ◌^◌, ◌≡◌, Bool, true, false, not, ◌&&◌, ◌||◌, Option, none, some, List, [],
  ◌∷◌, Text, codes, ltb, ◌==◌, if◌then◌else◌, same, mem_text, has_prefix,
}

-- `negsuc n` is -(n + 1).
pub data ℤ : Type 0 where
  pos : ℕ → ℤ
  negsuc : ℕ → ℤ

-- a < b.
unfoldable pub lt_int : ℤ → ℤ → Bool
lt_int (pos a) (pos b) = ltb a b
lt_int (pos a) (negsuc b) = false
lt_int (negsuc a) (pos b) = true
lt_int (negsuc a) (negsuc b) = ltb b a

-- The product by two of a Go duration, an int64, which wraps around.
unfoldable pub double : ℤ → ℤ
double (pos a) = if ltb (2 * a) (2 ^ 63) then pos (2 * a) else negsuc (2 ^ 64 - 2 * a - 1)
double (negsuc a) =
    if ltb (2 * a + 1) (2 ^ 63) then negsuc (2 * a + 1) else pos (2 ^ 64 - 2 * a - 2)

unfoldable pub is_zero : ℤ → Bool
is_zero (pos a) = a == 0
is_zero (negsuc a) = false

-- A floating-point setting: a number of units of 1e-8 dollars, or no number.
pub data Float : Type 0 where
  finite : ℤ → Float
  nan : Float
  infinite : Bool → Float

-- `x < 0 || IsNaN(x) || IsInf(x, 0)`.
unfoldable pub is_no_limit : Float → Bool
unfolding lt_int
is_no_limit (finite x) = lt_int x (pos 0)
is_no_limit nan = true
is_no_limit (infinite sign) = true

abbrev pub millisecond : ℕ
millisecond = 1_000_000

abbrev pub second : ℕ
second = 1000 * millisecond

abbrev pub minute : ℕ
minute = 60 * second

abbrev pub hour : ℕ
hour = 60 * minute

pub record Config : Type 0 where
  pub base_url : Text
  pub account_slug : Text
  pub token : Text
  pub bot_user_id : Text
  pub trusted_user_ids : List Text
  pub repo : Text
  pub claude_path : Text
  pub claude_config_dir : Text
  pub model : Text
  pub effort : Text
  pub permission_mode : Text
  pub allowed_tools : List Text
  pub add_dirs : List Text
  pub approvals : Bool
  pub max_concurrent : ℤ
  pub turn_timeout : ℤ
  pub max_cost_per_turn : Float
  pub approval_timeout : ℤ
  pub progress_interval : ℤ
  pub poll_interval : ℤ
  pub log_retention : ℤ
  pub state_dir : Text

abbrev pub valid_effort_levels : List Text
valid_effort_levels =
    [] ∷ codes "low" ∷ codes "medium" ∷ codes "high" ∷ codes "xhigh" ∷ codes "max" ∷ []

abbrev pub valid_permission_modes : List Text
valid_permission_modes =
    codes "auto"
    ∷ codes "acceptEdits"
    ∷ codes "bypassPermissions"
    ∷ codes "dontAsk"
    ∷ codes "plan"
    ∷ codes "manual"
    ∷ []

-- `state_dir` is the default directory of the machine.
unfoldable pub defaults : Text → Config
defaults state_dir = record {
  base_url = [];
  account_slug = [];
  token = [];
  bot_user_id = [];
  trusted_user_ids = [];
  repo = [];
  claude_path = codes "claude";
  claude_config_dir = [];
  model = [];
  effort = [];
  permission_mode = codes "auto";
  allowed_tools =
      codes "Read"
      ∷ codes "Glob"
      ∷ codes "Grep"
      ∷ codes "Edit"
      ∷ codes "Write"
      ∷ codes "Bash(git status:*)"
      ∷ codes "Bash(git diff:*)"
      ∷ codes "Bash(git log:*)"
      ∷ codes "Bash(git show:*)"
      ∷ [];
  add_dirs = [];
  approvals = true;
  max_concurrent = pos 4;
  turn_timeout = pos (30 * minute);
  max_cost_per_turn = finite (pos 10_000_000_000);
  approval_timeout = pos (10 * minute);
  progress_interval = pos (10 * minute);
  poll_interval = pos (3 * second);
  log_retention = pos (30 * 24 * hour);
  state_dir = state_dir;
}

unfoldable pub is_trusted : Config → Text → Bool
is_trusted c user = mem_text user c.trusted_user_ids

-- What the validation refuses, in the order of its tests.
pub data Problem : Type 0 where
  no_base_url no_account_slug no_token no_bot_user_id relative_config_dir no_repo : Problem
  bot_is_trusted bad_permission_mode bad_effort bad_max_concurrent bad_poll_interval : Problem
  bad_turn_timeout bad_max_cost bad_approval_timeout bad_progress_interval : Problem
  bad_log_retention bad_url relative_repo : Problem

-- filepath.IsAbs on Unix.
is_abs : Text → Bool
is_abs path = has_prefix path (codes "/")

-- The result of the first test that holds: a `switch` whose cases return.
first_problem : List (Bool × Problem) → Option Problem
first_problem [] = none
first_problem ((test, problem) ∷ rest) =
    let later = first_problem rest in if test then some problem else later

-- `err != nil || Host == "" || (Scheme != "http" && Scheme != "https")`.
is_bad_url : Option (Text × Text) → Bool
is_bad_url none = true
is_bad_url (some (scheme, host)) =
    same host [] || (not (same scheme (codes "http")) && not (same scheme (codes "https")))

-- `url` is what the parser of package net/url makes of the base URL: its scheme and host, or none.
problems : Option (Text × Text) → Config → List (Bool × Problem)
unfolding is_abs is_trusted is_bad_url
problems url c =
    (same c.base_url [], no_base_url)
    ∷ (same c.account_slug [], no_account_slug)
    ∷ (same c.token [], no_token)
    ∷ (same c.bot_user_id [], no_bot_user_id)
    ∷ (not (same c.claude_config_dir []) && not (is_abs c.claude_config_dir), relative_config_dir)
    ∷ (same c.repo [], no_repo)
    ∷ (is_trusted c c.bot_user_id, bot_is_trusted)
    ∷ (not (mem_text c.permission_mode valid_permission_modes), bad_permission_mode)
    ∷ (not (mem_text c.effort valid_effort_levels), bad_effort)
    ∷ (lt_int c.max_concurrent (pos 1), bad_max_concurrent)
    ∷ (lt_int c.poll_interval (pos (100 * millisecond)), bad_poll_interval)
    ∷ (lt_int c.turn_timeout (pos minute), bad_turn_timeout)
    ∷ (is_no_limit c.max_cost_per_turn, bad_max_cost)
    ∷ (
      lt_int c.approval_timeout (pos (10 * second)) || lt_int c.turn_timeout c.approval_timeout,
      bad_approval_timeout,
    )
    ∷ (lt_int c.progress_interval (pos 0), bad_progress_interval)
    ∷ (
      not (is_zero c.log_retention) && lt_int c.log_retention (double c.turn_timeout),
      bad_log_retention,
    )
    ∷ (is_bad_url url, bad_url)
    ∷ (not (is_abs c.repo), relative_repo)
    ∷ []

unfoldable pub validate : Option (Text × Text) → Config → Option Problem
unfolding first_problem problems
validate url c = first_problem (problems url c)

-- `SetPermissionMode`.
unfoldable pub set_permission_mode : Option (Text × Text) → Text → Config → Option Problem × Config
unfolding validate
set_permission_mode url mode c =
    let changed = record c { permission_mode = mode } in (validate url changed, changed)
