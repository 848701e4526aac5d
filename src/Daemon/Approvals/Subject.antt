-- ===== src/Daemon/Approvals/Subject.antt =====
-- internal/daemon/approvals.go, newApprovalSubject: what a person is asked to permit.
use fizzy_connector.Base.{
  ℕ, Bool, false, not, ◌&&◌, ◌||◌, Option, none, some, [], ◌∷◌, ◌++◌, Text, codes, ltb, leb, ◌==◌,
  if◌then◌else◌, same, trim_space, byte_len, length, take, all,
}
use fizzy_connector.Daemon.Approvals.{max_approval_display, max_purpose_length}

pub record Subject : Type 0 where
  pub tool_name : Text
  pub command : Text
  pub display : Text
  pub purpose : Text

unfoldable pub is_command : Subject → Bool
is_command s = same s.tool_name (codes "Bash")

is_letter : ℕ → Bool
is_letter c = (leb b'A' c && leb c b'Z') || (leb b'a' c && leb c b'z')

is_name_char : ℕ → Bool
unfolding is_letter
is_name_char c = is_letter c || (leb b'0' c && leb c b'9') || c == b'_' || c == b'-'

-- `^[A-Za-z][A-Za-z0-9_-]{0,127}$`.
unfoldable pub is_tool_name : Text → Bool
unfolding is_letter is_name_char
is_tool_name [] = false
is_tool_name (c ∷ s) = is_letter c && all is_name_char s && leb (length s) 127

-- What package encoding/json makes of the tool input: the fields of a Bash request (command and
-- description), and the indented text.
pub record ToolInput : Type 0 where
  pub bash_fields : Option (Text × Text)
  pub indented : Option Text

pub data Refusal : Type 0 where
  bad_name no_command not_json : Refusal
  too_large : ℕ → Refusal

pub data Checked : Type 0 where
  subject : Subject → Checked
  refused : Refusal → Checked

unfoldable pub shorten : Text → Text
shorten p =
    if ltb max_purpose_length (length p) then take max_purpose_length p ++ codes " ..." else p

check_size : Subject → Checked
check_size s =
    if ltb max_approval_display (byte_len s.display)
    then refused (too_large (byte_len s.display))
    else subject s

bash_subject : Text → Option (Text × Text) → Checked
unfolding check_size
bash_subject name none = refused no_command
bash_subject name (some (command, purpose)) =
    if same (trim_space command) []
    then refused no_command
    else check_size (record {
      tool_name = name;
      command = command;
      display = command;
      purpose = shorten purpose;
    })

other_subject : Text → Option Text → Checked
unfolding check_size
other_subject name none = refused not_json
other_subject name (some text) =
    check_size (record { tool_name = name; command = []; display = text; purpose = [] })

unfoldable pub new_approval_subject : Text → ToolInput → Checked
unfolding bash_subject other_subject
new_approval_subject name input =
    if not (is_tool_name name)
    then refused bad_name
    else if same name (codes "Bash")
    then bash_subject name input.bash_fields
    else other_subject name input.indented
