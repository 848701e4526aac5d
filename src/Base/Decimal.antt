-- ===== src/Base/Decimal.antt =====
-- Natural numbers in decimal: strconv.Itoa, and strconv.Atoi on the digits of a pattern `\d+`.
use Prim.Native.Nat.{ℕ, zero, suc, ◌+◌, ◌*◌, ◌-◌, ◌/◌, ◌%◌, ◌≤◌, ◌<◌}
use mathlib.Core.Path.{◌≡◌, refl, ap, ◌∙◌}
use mathlib.Core.Logic.{inl, inr}
use mathlib.Core.Bool.{Bool, true, false, ◌&&◌, ◌||◌}
use mathlib.Core.Option.{Option, none, some}
use mathlib.Core.List.{List, [], ◌∷◌}
use native.Mathlib.Omega.{arith}
use fizzy_connector.Base.Tests.{◌==◌, ltb, leb, if◌then◌else◌, Bool-cases}
use fizzy_connector.Base.Lists.{all}
use fizzy_connector.Base.Texts.{Text}

abbrev pub is_digit : ℕ → Bool
is_digit c = leb b'0' c && leb c b'9'

-- The digits of a number before the text `rest`; the number of rounds is a bound on the digits.
unfoldable pub digits_before : ℕ → ℕ → Text → Text
digits_before zero n rest = rest
digits_before (suc f) n rest =
    let more = digits_before f (n / 10) ((n % 10 + b'0') ∷ rest) in
    if ltb n 10 then (n + b'0') ∷ rest else more

-- strconv.Itoa; a number has at most as many digits as its value and one.
unfoldable pub decimal : ℕ → Text
unfolding digits_before
decimal n = digits_before (n + 1) n []

-- The value of digits after those of `acc`.
unfoldable pub value_from : ℕ → Text → ℕ
value_from acc [] = acc
value_from acc (c ∷ s) = value_from (acc * 10 + (c - b'0')) s

-- The range of Go's int.
abbrev pub max_int : ℕ
max_int = 9_223_372_036_854_775_807

-- strconv.Atoi on one or more digits; out of range is an error.
unfoldable pub atoi : Text → Option ℕ
unfolding value_from
atoi s = if leb (value_from 0 s) max_int then some (value_from 0 s) else none

pub value-digits_before :
    (f n : ℕ) (rest : Text) → n < f → value_from 0 (digits_before f n rest) ≡ value_from n rest
unfolding value_from digits_before
value-digits_before zero n rest h = absurd (omega arith)
value-digits_before (suc f) n rest h = elim (Bool-cases (ltb n 10)) [
  | inl e ↦ rw e (ap (λ k. value_from k rest) (omega arith))
  | inr e ↦ rw e (
      value-digits_before f (n / 10) ((n % 10 + b'0') ∷ rest) (ground arith)
      ∙ ap (λ k. value_from k rest) (omega arith))
]

pub digits_before-digits :
    (f n : ℕ) (rest : Text)
    → all is_digit rest ≡ true
    → all is_digit (digits_before f n rest) ≡ true
unfolding all digits_before
digits_before-digits zero n rest h = h
digits_before-digits (suc f) n rest h = elim (Bool-cases (ltb n 10)) [
  | inl e ↦ rw e (ground arith)
  | inr e ↦ rw e (digits_before-digits f (n / 10) ((n % 10 + b'0') ∷ rest) (ground arith))
]

-- A printed number reads as itself, up to the range of int.
pub atoi-decimal : (n : ℕ) → n ≤ max_int → atoi (decimal n) ≡ some n
unfolding atoi decimal value_from
atoi-decimal n h =
    let read : value_from 0 (digits_before (n + 1) n []) ≡ n =
      value-digits_before (n + 1) n [] (omega arith) in
    ground arith

pub decimal-digits : (n : ℕ) → all is_digit (decimal n) ≡ true
unfolding decimal
decimal-digits n = digits_before-digits (n + 1) n [] (unfold all in refl)

-- strconv.Atoi on any text: a sign, then digits, and the range of int. The first result says that the
-- number is negative.
is_some_digits : Text → Bool
is_some_digits [] = false
is_some_digits (c ∷ s) = all is_digit (c ∷ s)

unsigned : ℕ → Text → Option ℕ
unfolding is_some_digits value_from
unsigned limit s =
    if is_some_digits s && leb (value_from 0 s) limit then some (value_from 0 s) else none

signed : Bool → Option ℕ → Option (Bool × ℕ)
signed negative none = none
signed negative (some n) = some (negative, n)

unfoldable pub atoi_signed : Text → Option (Bool × ℕ)
unfolding unsigned signed
atoi_signed [] = none
atoi_signed (c ∷ s) =
    if c == b'-'
    then signed true (unsigned (max_int + 1) s)
    else if c == b'+'
    then signed false (unsigned max_int s)
    else signed false (unsigned max_int (c ∷ s))

-- A number from 1 up to a bound.
unfoldable pub number_up_to : ℕ → Text → Option ℕ
unfolding atoi_signed
number_up_to bound s = elim (atoi_signed s) [
  | none ↦ none
  | some (negative, n) ↦ if negative || ltb n 1 || ltb bound n then none else some n
]

-- strings.Split at one character.
unfoldable pub split_on : ℕ → Text → List Text
split_on sep [] = [] ∷ []
split_on sep (c ∷ s) =
    let rest = split_on sep s in
    if c == sep then [] ∷ rest else elim rest [ [] ↦ (c ∷ []) ∷ [] | w ∷ ws ↦ (c ∷ w) ∷ ws ]
