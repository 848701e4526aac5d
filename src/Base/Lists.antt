-- ===== src/Base/Lists.antt =====
-- Lists measured by native numbers, under the library's names, and predicates over lists.
use Prim.Native.Nat.{ℕ, zero, suc, ◌+◌, ◌-◌, ◌≤◌}
use mathlib.Core.Path.{◌≡◌, refl, ap, sym, subst}
use mathlib.Core.Logic.{◌⊎◌, ◌↔◌, inl, inr}
use mathlib.Core.Bool.{Bool, true, false, ◌&&◌, ◌||◌}
use mathlib.Core.List.{List, [], ◌∷◌, ◌++◌, reverse, reverse-cons}
use native.Mathlib.Omega.{arith}
use fizzy_connector.Base.Tests.{if◌then◌else◌, if_rule, Bool-cases}

module _ {ℓ} {A : Type ℓ} where
  abbrev pub length : List A → ℕ
  length [] = 0
  length (x ∷ xs) = suc (length xs)

  -- A Go slice `xs[n:]` for n not over the length.
  abbrev pub drop : ℕ → List A → List A
  drop zero xs = xs
  drop (suc n) [] = []
  drop (suc n) (x ∷ xs) = drop n xs

  abbrev pub take : ℕ → List A → List A
  take zero xs = []
  take (suc n) [] = []
  take (suc n) (x ∷ xs) = x ∷ take n xs

  pub length-append : (xs ys : List A) → length (xs ++ ys) ≡ length xs + length ys
  length-append [] ys = omega arith
  length-append (x ∷ xs) ys = omega (arith, length-append xs ys)

  pub length-drop : (n : ℕ) (xs : List A) → length (drop n xs) ≡ length xs - n
  length-drop zero xs = omega arith
  length-drop (suc n) [] = omega arith
  length-drop (suc n) (x ∷ xs) = omega (arith, length-drop n xs)

  pub drop-append : (n : ℕ) (xs ys : List A) → n ≤ length xs → drop n (xs ++ ys) ≡ drop n xs ++ ys
  drop-append zero xs ys h = refl
  drop-append (suc n) [] ys h = elim h [ ]
  drop-append (suc n) (x ∷ xs) ys h = drop-append n xs ys (omega arith)

  pub take-append : (n : ℕ) (xs ys : List A) → n ≤ length xs → take n (xs ++ ys) ≡ take n xs
  take-append zero xs ys h = refl
  take-append (suc n) [] ys h = elim h [ ]
  take-append (suc n) (x ∷ xs) ys h = ap (◌∷◌ x) (take-append n xs ys (omega arith))

  pub take-drop : (n : ℕ) (xs : List A) → take n xs ++ drop n xs ≡ xs
  take-drop zero xs = refl
  take-drop (suc n) [] = refl
  take-drop (suc n) (x ∷ xs) = ap (◌∷◌ x) (take-drop n xs)

  pub drop-length : (xs : List A) → drop (length xs) xs ≡ []
  drop-length [] = refl
  drop-length (x ∷ xs) = drop-length xs

  unfoldable pub filter_by : (A → Bool) → List A → List A
  filter_by p [] = []
  filter_by p (x ∷ xs) = let rest = filter_by p xs in if p x then x ∷ rest else rest

  unfoldable pub any : (A → Bool) → List A → Bool
  any p [] = false
  any p (x ∷ xs) = p x || any p xs

  unfoldable pub all : (A → Bool) → List A → Bool
  all p [] = true
  all p (x ∷ xs) = p x && all p xs

  all-append_one : (p : A → Bool) (s : List A) (c : A) → all p (s ++ c ∷ []) ≡ (all p s && p c)
  unfolding all
  all-append_one p [] c = ground arith
  all-append_one p (x ∷ s) c = ground (arith, all-append_one p s c)

  pub all-reverse : (p : A → Bool) (s : List A) → all p (reverse s) ≡ all p s
  unfolding all
  all-reverse p [] = refl
  all-reverse p (c ∷ s) =
      rw (reverse-cons c s, all-append_one p (reverse s) c, all-reverse p s) (ground arith)

module _ {ℓ κ} {A : Type ℓ} where
  abbrev pub All : (A → Type κ) → List A → Type κ
  All P [] = Unit
  All P (x ∷ xs) = P x × All P xs

  pub All-append : (P : A → Type κ) (xs ys : List A) → All P xs → All P ys → All P (xs ++ ys)
  All-append P [] ys hx hy = hy
  All-append P (x ∷ xs) ys hx hy = (hx.0, All-append P xs ys hx.1 hy)

  pub All-drop : (P : A → Type κ) (n : ℕ) (xs : List A) → All P xs → All P (drop n xs)
  All-drop P zero xs h = h
  All-drop P (suc n) [] h = h
  All-drop P (suc n) (x ∷ xs) h = All-drop P n xs h.1

-- Membership with the place of the element kept.
pub data Nowhere {ℓ} : Type ℓ where

abbrev pub In {ℓ} : {A : Type ℓ} → A → List A → Type ℓ
In a [] = Nowhere
In a (x ∷ xs) = (a ≡ x) ⊎ In a xs

module _ {ℓ} {A : Type ℓ} where
  pub In-append_left : (a : A) (xs ys : List A) → In a xs → In a (xs ++ ys)
  In-append_left a [] ys h = elim h [ ]
  In-append_left a (x ∷ xs) ys (inl e) = inl e
  In-append_left a (x ∷ xs) ys (inr h) = inr (In-append_left a xs ys h)

  pub In-append_right : (a : A) (xs ys : List A) → In a ys → In a (xs ++ ys)
  In-append_right a [] ys h = h
  In-append_right a (x ∷ xs) ys h = inr (In-append_right a xs ys h)

  pub In-of-append : (a : A) (xs ys : List A) → In a (xs ++ ys) → In a xs ⊎ In a ys
  In-of-append a [] ys h = inr h
  In-of-append a (x ∷ xs) ys (inl e) = inl (inl e)
  In-of-append a (x ∷ xs) ys (inr h) = elim (In-of-append a xs ys h) [
    | inl l ↦ inl (inr l)
    | inr r ↦ inr r
  ]

  pub All-In {κ} : (P : A → Type κ) (a : A) (xs : List A) → All P xs → In a xs → P a
  All-In P a [] h i = elim i [ ]
  All-In P a (x ∷ xs) h (inl e) = subst P (sym e) h.0
  All-In P a (x ∷ xs) h (inr i) = All-In P a xs h.1 i

  pub In-unless :
      (a : A) (b : Bool) (xs : List A) → In a (if b then [] else xs) ↔ ((b ≡ false) × In a xs)
  In-unless a true xs = ((λ h. elim h [ ]), (λ h. absurd (ground arith)))
  In-unless a false xs = ((λ h. (refl, h)), (λ h. h.1))

  pub In-when :
      (a : A) (b : Bool) (xs : List A) → In a (if b then xs else []) ↔ ((b ≡ true) × In a xs)
  In-when a false xs = ((λ h. elim h [ ]), (λ h. absurd (ground arith)))
  In-when a true xs = ((λ h. (refl, h)), (λ h. h.1))

module _ {ℓ} {A : Type ℓ} where
  In-of-kept :
      (p : A → Bool) (a x : A) (xs : List A) (b : Bool)
      → p x ≡ b
      → (In a (filter_by p xs) → In a xs × (p a ≡ true))
      → In a (if b then x ∷ filter_by p xs else filter_by p xs)
      → In a (x ∷ xs) × (p a ≡ true)
  In-of-kept p a x xs true e f (inl here) = (inl here, subst (λ y. p y ≡ true) (sym here) e)
  In-of-kept p a x xs true e f (inr later) = (inr (f later).0, (f later).1)
  In-of-kept p a x xs false e f i = (inr (f i).0, (f i).1)

  pub In-of-filter_by :
      (p : A → Bool) (a : A) (xs : List A) → In a (filter_by p xs) → In a xs × (p a ≡ true)
  unfolding filter_by
  In-of-filter_by p a [] i = elim i [ ]
  In-of-filter_by p a (x ∷ xs) i = In-of-kept p a x xs (p x) refl (In-of-filter_by p a xs) i

  pub In-filter_by :
      (p : A → Bool) (a : A) (xs : List A) → In a xs → p a ≡ true → In a (filter_by p xs)
  unfolding filter_by
  In-filter_by p a [] i h = elim i [ ]
  In-filter_by p a (x ∷ xs) (inl here) h = rw (subst (λ y. p y ≡ true) here h) (inl here)
  In-filter_by p a (x ∷ xs) (inr later) h =
      if_rule (In a) (p x) (x ∷ filter_by p xs) (filter_by p xs)
        (λ e. inr (In-filter_by p a xs later h)) (λ e. In-filter_by p a xs later h)

  In-one : (a x : A) → In a (x ∷ []) → a ≡ x
  In-one a x (inl e) = e
  In-one a x (inr i) = elim i [ ]

  -- The one element that passes a test.
  pub filter_by-one :
      (p : A → Bool) (xs : List A) (x : A)
      → filter_by p xs ≡ x ∷ []
      → In x xs × (p x ≡ true) × ((v : A) → In v xs → p v ≡ true → v ≡ x)
  filter_by-one p xs x e =
      let found = In-of-filter_by p x xs (subst (In x) (sym e) (inl refl)) in
      (found.0, found.1, (λ v i h. In-one v x (subst (In v) e (In-filter_by p v xs i h))))

  pub filter_by-none :
      (p : A → Bool) (xs : List A) (v : A) → filter_by p xs ≡ [] → In v xs → p v ≡ false
  filter_by-none p xs v e i = elim (Bool-cases (p v)) [
    | inl h ↦ elim (subst (In v) e (In-filter_by p v xs i h)) [ ]
    | inr h ↦ h
  ]
