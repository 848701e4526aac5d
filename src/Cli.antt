-- ===== src/Cli.antt =====
-- cmd/fizzy-connector/main.go: the commands on the sessions of the cards; Attach of
-- internal/claude/claude.go and MCPArgs of internal/daemon/worker.go. Packages fmt and time
-- print amounts and times, package encoding/json a configuration, and package os/exec finds a program.
pub mod Laws
use fizzy_connector.Base.{
  ℕ, suc, ◌+◌, ◌/◌, Bool, true, false, not, ◌||◌, Option, none, some, List, [], ◌∷◌, ◌++◌, Text,
  codes, ltb, ◌==◌, if◌then◌else◌, same, length, join, atoi_signed, decimal, Result, ok, err, Error,
  failed,
}
use fizzy_connector.Config.{Config}
use fizzy_connector.Store.{CardState, TurnRecord, Store, get, update, reset_session}
use fizzy_connector.Setup.Doctor.{claude_env}

-- "%.2f" and "%.3f" of a cost, and a time by its minutes.
pub record Printer : Type 0 where
  pub cents : ℕ → Text
  pub mills : ℕ → Text
  pub minute_of : ℕ → Text

card_number : Option (Bool × ℕ) → Result ℕ
card_number none = err (failed (codes "not a card number"))
card_number (some (negative, n)) =
    if negative || ltb n 1 then err (failed (codes "not a card number")) else ok n

unfoldable pub parse_card_number : Text → Result ℕ
unfolding card_number
parse_card_number arg = card_number (atoi_signed arg)

unfoldable pub thousands : ℕ → Text
thousands count = if count == 0 then codes "-" else decimal ((count + 500) / 1000) ++ codes "K"

last_turn : List TurnRecord → Option TurnRecord
last_turn [] = none
last_turn (t ∷ []) = some t
last_turn (t ∷ u ∷ ts) = last_turn (u ∷ ts)

last_cells : Printer → Option TurnRecord → Text × Text
unfolding thousands
last_cells p none = (codes "-", codes "-")
last_cells p (some t) = (codes "$" ++ p.mills t.cost_usd, thousands t.context_tokens)

tabs : List Text → Text
tabs cells = join (codes "\t") cells

unfoldable pub session_row : Printer → CardState → Text
unfolding last_turn last_cells tabs
session_row p state =
    let (last_cost, context) = last_cells p (last_turn state.turns) in
    tabs (
      (codes "#" ++ decimal state.number)
      ∷ state.session_id
      ∷ decimal (length state.queue)
      ∷ decimal state.turn_count
      ∷ context
      ∷ last_cost
      ∷ (codes "$" ++ p.cents state.total_cost_usd)
      ∷ (if state.last_turn_at == 0 then codes "-" else p.minute_of state.last_turn_at)
      ∷ [])

session_rows : Printer → ℕ → List CardState → List Text
unfolding session_row
session_rows p total [] = (codes "\t\t\t\t\t\t$" ++ p.cents total ++ codes "\t") ∷ []
session_rows p total (state ∷ states) =
    session_row p state ∷ session_rows p (total + state.total_cost_usd) states

sessions_of : Printer → Result (List CardState) → Result (List Text)
unfolding session_rows
sessions_of p (err e) = err e
sessions_of p (ok states) = ok (
    codes "CARD\tSESSION\tQUEUED\tTURNS\tCONTEXT\tLAST COST\tTOTAL COST (EST.)\tLAST TURN"
    ∷ session_rows p 0 states)

-- listSessions up to the alignment of its table: `all` is what All of the store gives, with the error
-- of opening the store in front of its own.
unfoldable pub list_sessions : Printer → Result (List CardState) → Result (List Text)
unfolding sessions_of
list_sessions p all = sessions_of p all

unfoldable pub turn_row : Printer → TurnRecord → Text
unfolding tabs thousands
turn_row p t = tabs (
    p.minute_of t.started_at
    ∷ decimal t.seconds
    ∷ (if t.resumed then codes "resumed" else codes "new")
    ∷ decimal t.api_calls
    ∷ decimal t.input_tokens
    ∷ decimal t.cache_write_tokens
    ∷ decimal t.cache_read_tokens
    ∷ decimal t.output_tokens
    ∷ thousands t.context_tokens
    ∷ (codes "$" ++ p.mills t.cost_usd)
    ∷ [])

turn_rows : Printer → List TurnRecord → List Text
unfolding turn_row
turn_rows p [] = []
turn_rows p (t ∷ ts) = turn_row p t ∷ turn_rows p ts

turns_of : Printer → Result CardState → Result (List Text)
unfolding turn_rows
turns_of p (err e) = err e
turns_of p (ok state) = ok (
    codes
      "TURN AT\tSECONDS\tSESSION\tAPI CALLS\tINPUT\tCACHE WRITE\tCACHE READ\tOUTPUT\tCONTEXT\tCOST (EST.)"
    ∷ turn_rows p state.turns)

-- The card of an argument in the store that store.Open gives.
with_card : {A : Type 0} → Result ℕ → Result Store → (ℕ → Store → Result A) → Result A
with_card (err e) opened run = err e
with_card (ok n) (err e) run = err e
with_card (ok n) (ok s) run = run n s

unfoldable pub show_turns : Printer → Result Store → Text → Result (List Text)
unfolding parse_card_number with_card turns_of
show_turns p opened arg = with_card (parse_card_number arg) opened (λ n s. turns_of p (get s n))

reset_card : Text → Result ℕ → Store → Result CardState × Store
reset_card fresh (err e) s = (err e, s)
reset_card fresh (ok n) s = update s n (reset_session fresh)

-- resetSession in a store that is open; `fresh` is the new random id.
unfoldable pub reset : Text → Text → Store → Result CardState × Store
unfolding parse_card_number reset_card
reset fresh arg s = reset_card fresh (parse_card_number arg) s

-- MCPArgs; the socket and the file of the token are empty in a session that a person attached to.
unfoldable pub mcp_args : Text → ℕ → Text → Text → List Text
mcp_args config_path card socket token_file =
    codes "mcp"
    ∷ codes "--config"
    ∷ config_path
    ∷ codes "--card"
    ∷ decimal card
    ∷ (if same token_file []
        then []
        else codes "--socket" ∷ socket ∷ codes "--token-file" ∷ token_file ∷ [])

-- What attach uses of the machine: the path of this program and of the configuration, the JSON of the
-- server of the tools with its arguments, exec.LookPath, and os.Chdir.
pub record Shell : Type 0 where
  pub executable : Result Text
  pub config_path : Text
  pub mcp_json : Text → List Text → Text
  pub look_path : Text → Result Text
  pub change_dir : Text → Result (Unit {0})

-- The program that replaces this one: its path, arguments, and additions to the environment.
pub record Exec : Type 0 where
  pub path : Text
  pub args : List Text
  pub env : List Text

in_dir : Exec → Result (Unit {0}) → Result Exec
in_dir e (err x) = err x
in_dir e (ok _) = ok e

attach_at : Shell → Config → Text → Text → Result Text → Result Exec
unfolding in_dir claude_env
attach_at sh cfg session mcp (err e) = err e
attach_at sh cfg session mcp (ok path) =
    in_dir
      (record {
        path = path;
        args = path ∷ codes "--resume" ∷ session ∷ codes "--mcp-config" ∷ mcp ∷ [];
        env = claude_env cfg;
      })
      (sh.change_dir cfg.repo)

attach_with : Shell → Config → ℕ → Text → Result Text → Result Exec
unfolding attach_at mcp_args
attach_with sh cfg n session (err e) = err e
attach_with sh cfg n session (ok executable) =
    attach_at sh cfg session (sh.mcp_json executable (mcp_args sh.config_path n [] []))
      (sh.look_path cfg.claude_path)

abbrev pub no_session : Error
no_session = failed (codes "the card has no session")

attach_card : Shell → Config → ℕ → Result CardState → Result Exec
unfolding attach_with
attach_card sh cfg n (err e) = err e
attach_card sh cfg n (ok state) =
    if state.session_started
    then attach_with sh cfg n state.session_id sh.executable
    else err no_session

unfoldable pub attach : Shell → Config → Result Store → Text → Result Exec
unfolding parse_card_number with_card attach_card
attach sh cfg opened arg =
    with_card (parse_card_number arg) opened (λ n s. attach_card sh cfg n (get s n))
