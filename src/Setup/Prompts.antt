-- ===== src/Setup/Prompts.antt =====
-- internal/setup/setup.go, prompter: questions that are answered by lines. The lines are those that the
-- person types until the input ends; `ended` is the error at its end (errCancelled at EOF).
pub mod Laws
use fizzy_connector.Base.{
  ℕ, Bool, true, false, Option, none, some, List, [], ◌∷◌, Text, codes, if◌then◌else◌, same,
  trim_space, Result, ok, err, Error, failed,
}
use fizzy_connector.Config.{Config}
use fizzy_connector.Fizzy.Requests.{C}

-- A dialogue: the lines to come, Fizzy, and the files of the configuration and of the websocket login.
pub record Talk (S : Type 0) : Type 0 where
  pub lines : List Text
  pub fizzy : S
  pub config_file : Option Config
  pub session_file : Option Text

-- A step of a dialogue.
abbrev pub P : Type 0 → Type 0 → Type 0
P S A = Talk S → Result A × Talk S

-- `read` of one line.
unfoldable pub answer : Text → Text → Text
answer fallback line = if same (trim_space line) [] then fallback else trim_space line

-- `ask`.
unfoldable pub ask_line : Error → Text → List Text → Result Text × List Text
unfolding answer
ask_line ended fallback [] = (err ended, [])
ask_line ended fallback (line ∷ lines) = (ok (answer fallback line), lines)

-- A loop that asks until an answer that is not empty is accepted: askRequired, in a loop of its caller.
unfoldable pub ask_until :
    {A : Type 0} → Error → (Text → Option A) → Text → List Text → Result A × List Text
unfolding answer
ask_until ended accept fallback [] = (err ended, [])
ask_until ended accept fallback (line ∷ lines) =
    let again = ask_until ended accept fallback lines in
    if same (answer fallback line) []
    then again
    else elim (accept (answer fallback line)) [ none ↦ again | some a ↦ (ok a, lines) ]

with_lines : {A S : Type 0} → Talk S → Result A × List Text → Result A × Talk S
with_lines t (r, lines) = (r, record t { lines = lines })

with_fizzy : {A S : Type 0} → Talk S → Result A × S → Result A × Talk S
with_fizzy t (r, s) = (r, record t { fizzy = s })

module _ {S : Type 0} where
  unfoldable pub ask_for : {A : Type 0} → Error → (Text → Option A) → Text → P S A
  unfolding ask_until with_lines
  ask_for ended accept fallback t = with_lines t (ask_until ended accept fallback t.lines)

  -- askRequired, and askSecret, which has no fallback.
  unfoldable pub ask_required : Error → Text → P S Text
  ask_required ended fallback t = ask_for ended some fallback t

  unfoldable pub ask_secret : Error → P S Text
  ask_secret ended t = ask_required ended [] t

  -- A call of the API in a dialogue.
  unfoldable pub calling : {A : Type 0} → C S A → P S A
  unfolding with_fizzy
  calling call t = with_fizzy t (call t.fizzy)

  -- A result that needs no call.
  unfoldable pub giving : {A : Type 0} → Result A → P S A
  giving r t = (r, t)

  abbrev pub and_do : {A B : Type 0} → Result A × Talk S → (A → P S B) → Result B × Talk S
  and_do (err e, t) f = (err e, t)
  and_do (ok a, t) f = f a t

  infixl 5 ◌>>=◌
  unfoldable pub ◌>>=◌ : {A B : Type 0} → P S A → (A → P S B) → P S B
  ◌>>=◌ m f t = and_do (m t) f
