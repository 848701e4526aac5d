-- ===== src/Claude/Usage/Laws.antt =====
-- internal/claude/claude.go, sumUsage: the sums are those of all calls.
use fizzy_connector.Base.{
  ℕ, ◌+◌, ◌≤◌, ◌≡◌, refl, inl, inr, max, true, ◌||◌, List, [], ◌∷◌, Text, arith, if◌then◌else◌,
  same, same_iff, mem_text, IsDistinct, Bool-cases,
}
use fizzy_connector.Claude.Prices.{Tokens, cost, price_of, guard_price, is_no_tokens}
use fizzy_connector.Claude.Prices.Laws.{guard_price-over}
use fizzy_connector.Claude.Usage.{Usage, Call, put_call, sum_from, sum_usage, no_usage}

-- The sum of a number over the calls.
abbrev pub total : (Call → ℕ) → List Call → ℕ
total f [] = 0
total f (c ∷ cs) = f c + total f cs

no_tokens_zero :
    (t : Tokens)
    → is_no_tokens t ≡ true
    → (t.input_tokens ≡ 0)
      × (t.cache_write_tokens ≡ 0)
      × (t.cache_read_tokens ≡ 0)
      × (t.output_tokens ≡ 0)
unfolding is_no_tokens
no_tokens_zero t h = ground arith

no_tokens_cost : (c : Call) → is_no_tokens c.tokens ≡ true → cost (price_of c.model) c.tokens ≡ 0
unfolding cost
no_tokens_cost c h = let (i, w, r, o) = no_tokens_zero c.tokens h in rw (i, w, r, o) (omega arith)

abbrev call_cost : Call → ℕ
call_cost c = cost (price_of c.model) c.tokens

sum_from-total :
    (cs : List Call) (u : Usage) (e : ℕ)
    → let r = sum_from cs u e in
      (r.0.input_tokens ≡ u.input_tokens + total (λ c. c.tokens.input_tokens) cs)
      × (r.0.cache_write_tokens
          ≡ u.cache_write_tokens + total (λ c. c.tokens.cache_write_tokens) cs)
      × (r.0.cache_read_tokens ≡ u.cache_read_tokens + total (λ c. c.tokens.cache_read_tokens) cs)
      × (r.0.output_tokens ≡ u.output_tokens + total (λ c. c.tokens.output_tokens) cs)
      × (r.1 ≡ e + total (λ c. cost (price_of c.model) c.tokens) cs)
      × (r.0.api_calls ≡ u.api_calls + total (λ c. if is_no_tokens c.tokens then 0 else 1) cs)
unfolding sum_from
sum_from-total [] u e = omega arith
sum_from-total (c ∷ cs) u e = elim (Bool-cases (is_no_tokens c.tokens)) [
  | inl nothing ↦
      rw (nothing, sum_from)
        (omega
          (arith, sum_from-total cs u e, no_tokens_zero c.tokens nothing, no_tokens_cost c nothing))
  | inr some_tokens ↦
      rw (some_tokens, sum_from) (omega (arith, sum_from-total cs _ (e + call_cost c)))
]

-- The usage of calls adds up the tokens of every call; its cost is the larger of the cost that was
-- reported and the sum of the costs of the calls; only a call that used tokens is counted.
pub sum_usage_lem :
    (cs : List Call) (reported : ℕ)
    → let u = sum_usage cs reported in
      (u.input_tokens ≡ total (λ c. c.tokens.input_tokens) cs)
      × (u.cache_write_tokens ≡ total (λ c. c.tokens.cache_write_tokens) cs)
      × (u.cache_read_tokens ≡ total (λ c. c.tokens.cache_read_tokens) cs)
      × (u.output_tokens ≡ total (λ c. c.tokens.output_tokens) cs)
      × (u.cost_usd ≡ max reported (total (λ c. cost (price_of c.model) c.tokens) cs))
      × (u.api_calls ≡ total (λ c. if is_no_tokens c.tokens then 0 else 1) cs)
unfolding sum_usage
sum_usage_lem cs reported = omega (arith, sum_from-total cs no_usage 0)

-- The ids of the calls.
abbrev pub ids : List (Text × Call) → List Text
ids [] = []
ids ((id, c) ∷ rest) = id ∷ ids rest

mem_text-put_call :
    (k id : Text) (c : Call) (l : List (Text × Call))
    → mem_text k (ids (put_call id c l)) ≡ (mem_text k (ids l) || same id k)
unfolding mem_text put_call
mem_text-put_call k id c [] = ground arith
mem_text-put_call k id c ((j, old) ∷ l) =
    ground (arith, mem_text-put_call k id c l, same_iff j id, same_iff j k, same_iff id k)

-- Each call stands once in the list, at its last content.
pub put_call-IsDistinct :
    (id : Text) (c : Call) (l : List (Text × Call))
    → IsDistinct (ids l)
    → IsDistinct (ids (put_call id c l))
unfolding put_call
put_call-IsDistinct id c [] d = unfold mem_text in (refl, tt)
put_call-IsDistinct id c ((j, old) ∷ l) d = elim (Bool-cases (same j id)) [
  | inl e ↦ rw e d
  | inr e ↦ rw e (
    ground (arith, mem_text-put_call j id c l, same_iff id j, same_iff j id),
    put_call-IsDistinct id c l d.1,
  )
]

-- The estimate of the calls never exceeds the estimate that guards the cost limit.
pub total-guard :
    (cs : List Call)
    → total (λ c. cost (price_of c.model) c.tokens) cs
      ≤ total (λ c. cost (guard_price c.model) c.tokens) cs
total-guard [] = omega arith
total-guard (c ∷ cs) = omega (arith, total-guard cs, (guard_price-over c.model c.tokens).0)
