-- ===== src/Daemon/Logs/Names.antt =====
-- internal/daemon/logs.go: the names that "card-%d.log" gives.
use fizzy_connector.Base.{
  ℕ, zero, suc, ◌+◌, ◌≤◌, ◌<◌, ◌≡◌, ◌≢◌, ◌⊎◌, ◌↔◌, inl, inr, refl, sym, ap, ◌∙◌, Bool, true, false,
  Option, none, some, [], ◌∷◌, ◌++◌, Text, codes, arith, same_iff, same_refl, cut_prefix,
  trim_suffix, all, is_digit, value_from, value-digits_before, decimal, decimal-digits, max_int,
  atoi_signed, Option-cases,
}
use mathlib.Core.List.{reverse, reverse-append, reverse-reverse}
use fizzy_connector.Daemon.Logs.{is_card_log, shown, is_shown}

-- "card-", the decimal form of an integer of 64 bits, and ".log".
abbrev pub IsCardLog : Text → Type 0
IsCardLog name =
    (n : ℕ) × (((n ≤ max_int) × (name ≡ codes "card-" ++ (decimal n ++ codes ".log")))
      ⊎ ((0 < n)
          × ((n ≤ max_int + 1) × (name ≡ codes "card-" ++ (b'-' ∷ decimal n ++ codes ".log")))))

cut_prefix-append : (p r : Text) → cut_prefix (p ++ r) p ≡ some r
unfolding cut_prefix
cut_prefix-append [] r = refl
cut_prefix-append (c ∷ p) r = ground (arith, cut_prefix-append p r)

cut_prefix_form : (s p r : Text) → cut_prefix s p ≡ some r → s ≡ p ++ r
unfolding cut_prefix
cut_prefix_form s [] r h = ground arith
cut_prefix_form [] (c ∷ p) r h = absurd (ground arith)
cut_prefix_form (d ∷ s) (c ∷ p) r h = ground (arith, cut_prefix_form s p r)

trim_suffix-append : (s p : Text) → trim_suffix (s ++ p) p ≡ s
unfolding trim_suffix
trim_suffix-append s p =
    rw (trim_suffix, reverse-append s p, cut_prefix-append (reverse p) (reverse s))
      (reverse-reverse s)

decimal_value : (n : ℕ) → value_from 0 (decimal n) ≡ n
unfolding decimal value_from
decimal_value n = value-digits_before (n + 1) n [] (omega arith)

decimal-cons : (n : ℕ) → decimal n ≢ []
decimal-cons zero h = unfold decimal in absurd (ground arith)
decimal-cons (suc n) h =
    let is_zero : suc n ≡ value_from 0 [] = sym (decimal_value (suc n)) ∙ ap (value_from 0) h in
    unfold value_from in absurd (omega arith)

atoi_signed-digits :
    (s : Text)
    → s ≢ []
    → all is_digit s ≡ true
    → value_from 0 s ≤ max_int
    → atoi_signed s ≡ some (false, value_from 0 s)
unfolding atoi_signed all
atoi_signed-digits [] some_digit digits bound = absurd (some_digit refl)
atoi_signed-digits (c ∷ s) some_digit digits bound = ground arith

atoi_signed-minus :
    (s : Text)
    → s ≢ []
    → all is_digit s ≡ true
    → value_from 0 s ≤ max_int + 1
    → atoi_signed (b'-' ∷ s) ≡ some (true, value_from 0 s)
unfolding atoi_signed all
atoi_signed-minus [] some_digit digits bound = absurd (some_digit refl)
atoi_signed-minus (c ∷ s) some_digit digits bound = ground arith

atoi_signed-bound :
    (s : Text) (negative : Bool) (n : ℕ)
    → atoi_signed s ≡ some (negative, n)
    → (negative ≡ true) × (n ≤ max_int + 1) ⊎ (n ≤ max_int)
unfolding atoi_signed
atoi_signed-bound [] negative n h = absurd (ground arith)
atoi_signed-bound (c ∷ s) negative n h = ground arith

is_card_log_of :
    (s : Text) (negative : Bool) (n : ℕ)
    → atoi_signed s ≡ some (negative, n)
    → s ≡ shown negative n
    → is_card_log (codes "card-" ++ (s ++ codes ".log")) ≡ true
unfolding is_shown is_card_log
is_card_log_of s negative n read form =
    rw
      (
        is_card_log,
        cut_prefix-append (codes "card-") (s ++ codes ".log"),
        trim_suffix-append s (codes ".log"),
        read,
        ← form,
      )
      (same_refl (s ++ codes ".log"))

shown_minus : (n : ℕ) → 0 < n → shown true n ≡ b'-' ∷ decimal n
unfolding shown
shown_minus n h = ground arith

form_of :
    (negative : Bool) (n : ℕ) (rest : Text)
    → (negative ≡ true) × (n ≤ max_int + 1) ⊎ (n ≤ max_int)
    → rest ≡ shown negative n ++ codes ".log"
    → IsCardLog (codes "card-" ++ rest)
unfolding shown
form_of false n rest (inl (e, bound)) h = absurd (ground arith)
form_of false n rest (inr bound) h = (n, inl (bound, ap (λ r. codes "card-" ++ r) h))
form_of true zero rest bound h = (zero, inl (omega arith, ap (λ r. codes "card-" ++ r) h))
form_of true (suc n) rest bound h = (
  suc n,
  inr (
    omega arith,
    (
      ground arith,
      ap (λ r. codes "card-" ++ r)
          (h ∙ ap (λ r. r ++ codes ".log") (shown_minus (suc n) (omega arith))),
    ),
  ),
)

shown_form :
    (found : Option (Bool × ℕ)) (rest : Text)
    → ((negative : Bool) (n : ℕ)
        → found ≡ some (negative, n)
        → (negative ≡ true) × (n ≤ max_int + 1) ⊎ (n ≤ max_int))
    → is_shown found rest ≡ true
    → IsCardLog (codes "card-" ++ rest)
unfolding is_shown
shown_form none rest bound h = absurd (ground arith)
shown_form (some (negative, n)) rest bound h =
    form_of negative n rest (bound negative n refl)
      ((same_iff rest (shown negative n ++ codes ".log")).0 h)

is_card_log-none : (name : Text) → cut_prefix name (codes "card-") ≡ none → is_card_log name ≡ false
unfolding is_card_log
is_card_log-none name e = rw (is_card_log, e) refl

is_card_log-some :
    (name rest : Text)
    → cut_prefix name (codes "card-") ≡ some rest
    → is_card_log name ≡ is_shown (atoi_signed (trim_suffix rest (codes ".log"))) rest
unfolding is_card_log
is_card_log-some name rest e = rw (is_card_log, e) refl

log_has_form : (name : Text) → is_card_log name ≡ true → IsCardLog name
log_has_form name h = elim (Option-cases (cut_prefix name (codes "card-"))) [
  | inl e ↦ absurd (ground (arith, is_card_log-none name e))
  | inr (rest, e) ↦ rw (cut_prefix_form name (codes "card-") rest e) (
      shown_form (atoi_signed (trim_suffix rest (codes ".log"))) rest
        (λ negative n read. atoi_signed-bound (trim_suffix rest (codes ".log")) negative n read)
        (sym (is_card_log-some name rest e) ∙ h))
]

form_is_log : (name : Text) → IsCardLog name → is_card_log name ≡ true
unfolding shown
form_is_log name (n, inl (bound, form)) =
    ap is_card_log form
    ∙ is_card_log_of (decimal n) false n
        (atoi_signed-digits (decimal n) (decimal-cons n) (decimal-digits n)
            (rw (decimal_value n) bound)
          ∙ ap (λ k. some (false, k)) (decimal_value n))
        refl
form_is_log name (n, inr (above, (bound, form))) =
    ap is_card_log form
    ∙ is_card_log_of (b'-' ∷ decimal n) true n
        (atoi_signed-minus (decimal n) (decimal-cons n) (decimal-digits n)
            (rw (decimal_value n) bound)
          ∙ ap (λ k. some (true, k)) (decimal_value n))
        (sym (shown_minus n above))

-- The test of a name holds for exactly the names of an integer of 64 bits.
pub is_card_log_iff : (name : Text) → (is_card_log name ≡ true) ↔ IsCardLog name
is_card_log_iff name = (log_has_form name, form_is_log name)
