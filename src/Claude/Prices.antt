-- ===== src/Claude/Prices.antt =====
-- internal/claude/prices.go: prices in hundredths of a dollar for one million tokens, so that the
-- cost of tokens is a whole number of units of 1e-8 dollars.
pub mod Laws
use fizzy_connector.Base.{
  ℕ, ◌+◌, ◌*◌, max, Bool, true, false, ◌&&◌, Option, none, some, List, [], ◌∷◌, Text, codes, ◌==◌,
  if◌then◌else◌, has_prefix,
}

pub record Tokens : Type 0 where
  pub input_tokens : ℕ
  pub cache_write_tokens : ℕ
  pub cache_read_tokens : ℕ
  pub output_tokens : ℕ

abbrev pub no_tokens : Tokens
no_tokens = record {
  input_tokens = 0;
  cache_write_tokens = 0;
  cache_read_tokens = 0;
  output_tokens = 0;
}

unfoldable pub is_no_tokens : Tokens → Bool
is_no_tokens t =
    t.input_tokens == 0
    && t.cache_write_tokens == 0
    && t.cache_read_tokens == 0
    && t.output_tokens == 0

-- `tokens.context`.
unfoldable pub context : Tokens → ℕ
context t = t.input_tokens + t.cache_write_tokens + t.cache_read_tokens

pub record Price : Type 0 where
  pub input : ℕ
  pub cache_write : ℕ
  pub cache_read : ℕ
  pub output : ℕ

unfoldable pub cost : Price → Tokens → ℕ
cost p t =
    t.input_tokens * p.input
    + t.cache_write_tokens * p.cache_write
    + t.cache_read_tokens * p.cache_read
    + t.output_tokens * p.output

price : ℕ → ℕ → ℕ → ℕ → Price
price i w r o = record { input = i; cache_write = w; cache_read = r; output = o }

unfoldable pub prices : List (Text × Price)
unfolding price
prices =
    (codes "claude-fable-5", price 1000 2000 25 5000)
    ∷ (codes "claude-mythos-5", price 1000 2000 25 5000)
    ∷ (codes "claude-opus-5", price 500 1000 50 2500)
    ∷ (codes "claude-opus-4", price 500 1000 50 2500)
    ∷ (codes "claude-sonnet-5", price 200 400 20 1000)
    ∷ (codes "claude-sonnet-4", price 300 600 30 1500)
    ∷ (codes "claude-haiku-4", price 100 200 10 500)
    ∷ []

abbrev pub no_price : Price
no_price = record { input = 0; cache_write = 0; cache_read = 0; output = 0 }

unfoldable pub is_no_price : Price → Bool
is_no_price p = p.input == 0 && p.cache_write == 0 && p.cache_read == 0 && p.output == 0

price_in : List (Text × Price) → Text → Price
price_in [] model = no_price
price_in ((prefix, p) ∷ rest) model =
    let later = price_in rest model in if has_prefix model prefix then p else later

unfoldable pub price_of : Text → Price
unfolding price_in prices
price_of model = price_in prices model

-- The higher rate of two prices for each kind of token.
raise : Price → Price → Price
raise top p = record {
  input = max top.input p.input;
  cache_write = max top.cache_write p.cache_write;
  cache_read = max top.cache_read p.cache_read;
  output = max top.output p.output;
}

top_from : Price → List (Text × Price) → Price
unfolding raise
top_from top [] = top
top_from top ((prefix, p) ∷ rest) = top_from (raise top p) rest

unfoldable pub guard_price : Text → Price
unfolding price_of top_from prices
guard_price model =
    if is_no_price (price_of model) then top_from no_price prices else price_of model
