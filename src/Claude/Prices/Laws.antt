-- ===== src/Claude/Prices/Laws.antt =====
-- internal/claude/prices.go: the price of the cost limit is never too low.
use native.Mathlib.Nat.{add-le-add, mul-le-mul_left}
use fizzy_connector.Base.{
  ◌≤◌, ◌≡◌, refl, inl, inr, true, false, List, [], ◌∷◌, Text, arith, has_prefix, All, Bool-cases,
}
use fizzy_connector.Claude.Prices.{
  Tokens, Price, cost, prices, no_price, is_no_price, price_in, price_of, raise, top_from,
  guard_price,
}

-- Each rate of one price is at most the rate of another.
pub record IsCheaper (p q : Price) : Type 0 where
  pub input : p.input ≤ q.input
  pub cache_write : p.cache_write ≤ q.cache_write
  pub cache_read : p.cache_read ≤ q.cache_read
  pub output : p.output ≤ q.output

cost_mono : (p q : Price) (t : Tokens) → IsCheaper p q → cost p t ≤ cost q t
unfolding cost
cost_mono p q t h =
    add-le-add
      (add-le-add
        (add-le-add (mul-le-mul_left t.input_tokens h.input)
          (mul-le-mul_left t.cache_write_tokens h.cache_write))
        (mul-le-mul_left t.cache_read_tokens h.cache_read))
      (mul-le-mul_left t.output_tokens h.output)

top_from-grows : (top : Price) (l : List (Text × Price)) → IsCheaper top (top_from top l)
unfolding top_from
top_from-grows top [] = omega arith
top_from-grows top ((prefix, p) ∷ l) = omega (arith, top_from-grows (raise top p) l)

top_from-over :
    (top : Price) (l : List (Text × Price)) → All (λ e. IsCheaper e.1 (top_from top l)) l
unfolding top_from
top_from-over top [] = tt
top_from-over top ((prefix, p) ∷ l) =
    (omega (arith, top_from-grows (raise top p) l), top_from-over (raise top p) l)

price_in-IsCheaper :
    (q : Price) (l : List (Text × Price)) (model : Text)
    → All (λ e. IsCheaper e.1 q) l
    → IsCheaper (price_in l model) q
unfolding price_in
price_in-IsCheaper q [] model h = omega arith
price_in-IsCheaper q ((prefix, p) ∷ l) model h = elim (Bool-cases (has_prefix model prefix)) [
  | inl e ↦ rw e h.0
  | inr e ↦ rw e (price_in-IsCheaper q l model h.1)
]

-- For any tokens, the guard of the cost limit charges a model at least its price; a model that has no
-- price is charged at least as much as any model at all, and is not free of charge for any rate.
pub guard_price-over :
    (model : Text) (t : Tokens)
    → (cost (price_of model) t ≤ cost (guard_price model) t)
      × (is_no_price (price_of model) ≡ true
          → (other : Text) → cost (price_of other) t ≤ cost (guard_price model) t)
      × (is_no_price (guard_price model) ≡ false)
unfolding guard_price price_of
guard_price-over model t = elim (Bool-cases (is_no_price (price_in prices model))) [
  | inl unknown ↦
      let top = top_from no_price prices in
      let over : (other : Text) → cost (price_in prices other) t ≤ cost top t = λ other.
        cost_mono (price_in prices other) top t
          (price_in-IsCheaper top prices other (top_from-over no_price prices)) in
      rw unknown (over model, (λ u other. over other), unfold is_no_price top_from prices in refl)
  | inr known ↦ rw known (omega arith, (λ u. absurd (ground arith)), known)
]
