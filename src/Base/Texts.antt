-- ===== src/Base/Texts.antt =====
-- Go strings as lists of code points, with the functions of package strings that the source uses.
use Prim.Native.Nat.{ℕ, ◌+◌, ◌-◌}
use Prim.Native.Char.{code}
use Prim.Native.String.{String}
use mathlib.Core.Path.{◌≡◌, refl}
use mathlib.Core.Logic.{◌↔◌}
use mathlib.Core.Bool.{Bool, true, false, ◌&&◌, ◌||◌}
use mathlib.Core.List.{List, [], ◌∷◌, ◌++◌, reverse}
use mathlib.Core.Option.{Option, none, some}
use native.Mathlib.Omega.{arith}
use fizzy_connector.Base.Tests.{ltb, leb, ◌==◌, if◌then◌else◌}

abbrev pub Text : Type 0
Text = List ℕ

abbrev pub codes : String → Text
codes String.[] = []
codes (String.◌∷◌ c s) = code c ∷ codes s

-- `a == b` on strings.
unfoldable pub same : Text → Text → Bool
same [] [] = true
same [] (y ∷ ys) = false
same (x ∷ xs) [] = false
same (x ∷ xs) (y ∷ ys) = x == y && same xs ys

same→eq : (s t : Text) → same s t ≡ true → s ≡ t
unfolding same
same→eq [] [] h = refl
same→eq [] (y ∷ ys) h = ground arith
same→eq (x ∷ xs) [] h = ground arith
same→eq (x ∷ xs) (y ∷ ys) h = ground (arith, same→eq xs ys)

pub same_refl : (s : Text) → same s s ≡ true
unfolding same
same_refl [] = refl
same_refl (x ∷ xs) = ground (arith, same_refl xs)

eq→same : (s t : Text) → s ≡ t → same s t ≡ true
eq→same s t e = rw e (same_refl t)

pub same_iff : (s t : Text) → (same s t ≡ true) ↔ (s ≡ t)
same_iff s t = (same→eq s t, eq→same s t)

-- The bytes of a code point in UTF-8, and `len` of a string.
unfoldable pub rune_width : ℕ → ℕ
rune_width c = if ltb c 0x80 then 1 else if ltb c 0x800 then 2 else if ltb c 0x10000 then 3 else 4

unfoldable pub byte_len : Text → ℕ
unfolding rune_width
byte_len [] = 0
byte_len (c ∷ s) = rune_width c + byte_len s

-- unicode.IsSpace.
unfoldable pub is_space : ℕ → Bool
is_space c =
    (leb 9 c && leb c 13)
    || c == 32
    || c == 0x85
    || c == 0xA0
    || c == 0x1680
    || (leb 0x2000 c && leb c 0x200A)
    || c == 0x2028
    || c == 0x2029
    || c == 0x202F
    || c == 0x205F
    || c == 0x3000

unfoldable pub trim_left : (ℕ → Bool) → Text → Text
trim_left p [] = []
trim_left p (c ∷ s) = let rest = trim_left p s in if p c then rest else c ∷ s

unfoldable pub trim_right : (ℕ → Bool) → Text → Text
unfolding trim_left
trim_right p s = reverse (trim_left p (reverse s))

unfoldable pub trim_space : Text → Text
unfolding trim_left trim_right is_space
trim_space s = trim_right is_space (trim_left is_space s)

-- strings.CutPrefix; strings.HasPrefix is its second result.
unfoldable pub cut_prefix : Text → Text → Option Text
cut_prefix s [] = some s
cut_prefix [] (p ∷ ps) = none
cut_prefix (c ∷ s) (p ∷ ps) = let rest = cut_prefix s ps in if c == p then rest else none

unfoldable pub has_prefix : Text → Text → Bool
unfolding cut_prefix
has_prefix s p = elim (cut_prefix s p) [ none ↦ false | some _ ↦ true ]

-- strings.TrimSuffix.
unfoldable pub trim_suffix : Text → Text → Text
unfolding cut_prefix
trim_suffix s p = elim (cut_prefix (reverse s) (reverse p)) [ none ↦ s | some t ↦ reverse t ]

unfoldable pub trim_prefix : Text → Text → Text
unfolding cut_prefix
trim_prefix s p = elim (cut_prefix s p) [ none ↦ s | some t ↦ t ]

-- strings.Contains.
unfoldable pub contains : Text → Text → Bool
unfolding has_prefix
contains [] p = has_prefix [] p
contains (c ∷ s) p = has_prefix (c ∷ s) p || contains s p

-- slices.Contains on strings.
unfoldable pub mem_text : Text → List Text → Bool
mem_text a [] = false
mem_text a (x ∷ xs) = same x a || mem_text a xs

-- strings.Join.
unfoldable pub join : Text → List Text → Text
join sep [] = []
join sep (x ∷ []) = x
join sep (x ∷ y ∷ xs) = x ++ sep ++ join sep (y ∷ xs)

-- The Unicode tables above ASCII; package unicode has them.
pub record CaseTable : Type 0 where
  pub upper : ℕ → ℕ
  pub lower : ℕ → ℕ

unfoldable pub to_upper : CaseTable → ℕ → ℕ
to_upper t c = if ltb c 0x80 then (if leb b'a' c && leb c b'z' then c - 32 else c) else t.upper c

unfoldable pub to_lower : CaseTable → ℕ → ℕ
to_lower t c = if ltb c 0x80 then (if leb b'A' c && leb c b'Z' then c + 32 else c) else t.lower c

-- No text stands twice.
abbrev pub IsDistinct : List Text → Type 0
IsDistinct [] = Unit
IsDistinct (x ∷ xs) = (mem_text x xs ≡ false) × IsDistinct xs

pub mem_text-append :
    (a : Text) (xs ys : List Text) → mem_text a (xs ++ ys) ≡ (mem_text a xs || mem_text a ys)
unfolding mem_text
mem_text-append a [] ys = refl
mem_text-append a (x ∷ xs) ys = ground (arith, mem_text-append a xs ys)

pub mem_text-append_one :
    (a b : Text) (xs : List Text) → mem_text a (xs ++ b ∷ []) ≡ (mem_text a xs || same b a)
unfolding mem_text
mem_text-append_one a b [] = ground arith
mem_text-append_one a b (x ∷ xs) = ground (arith, mem_text-append_one a b xs)

pub append_one-IsDistinct :
    (a : Text) (xs : List Text) → IsDistinct xs → mem_text a xs ≡ false → IsDistinct (xs ++ a ∷ [])
unfolding mem_text
append_one-IsDistinct a [] d n = (refl, tt)
append_one-IsDistinct a (x ∷ xs) d n = (
  ground (arith, mem_text-append_one x a xs, same_iff a x, same_iff x a),
  append_one-IsDistinct a xs d.1 (ground arith),
)
