-- ===== src/Config/Laws.antt =====
-- internal/config/config.go: what a validated configuration satisfies.
use fizzy_connector.Base.{
  Bool-cases, ltb, ℕ, zero, suc, ◌||◌, ◌&&◌, ◌*◌, ◌^◌, ◌≤◌, ◌<◌, ◌≡◌, refl, sym, ap, ◌∙◌, ◌≢◌, ◌⊎◌,
  inl, inr, Bool, true, false, not, Option, none, List, [], ◌∷◌, Text, codes, arith, same_iff,
  has_prefix,
}
use fizzy_connector.Config.{
  Config, Problem, ℤ, pos, negsuc, Float, finite, nan, infinite, lt_int, double, is_zero,
  is_no_limit, first_problem, problems, validate, is_trusted, is_abs, second, minute, millisecond,
}

abbrev AllFalse : List (Bool × Problem) → Type 0
AllFalse [] = Unit
AllFalse ((test, problem) ∷ rest) = (test ≡ false) × AllFalse rest

first_problem-none : (l : List (Bool × Problem)) → first_problem l ≡ none → AllFalse l
unfolding first_problem
first_problem-none [] h = tt
first_problem-none ((true, p) ∷ l) h = absurd (ground arith)
first_problem-none ((false, p) ∷ l) h = (refl, first_problem-none l h)

not-eq_false : (b : Bool) → not b ≡ false → b ≡ true
not-eq_false b h = ground arith

-- What the daemon relies on.
pub record IsValid (c : Config) : Type 0 where
  pub has_bot : c.bot_user_id ≢ []
  pub bot_not_trusted : is_trusted c c.bot_user_id ≡ false
  pub concurrent : (n : ℕ) × (c.max_concurrent ≡ pos n) × (1 ≤ n)
  pub timeout : (n : ℕ) × (c.turn_timeout ≡ pos n) × (minute ≤ n)
  pub poll : (n : ℕ) × (c.poll_interval ≡ pos n) × (100 * millisecond ≤ n)
  pub approval :
      (a n : ℕ) × (c.approval_timeout ≡ pos a)
      × (c.turn_timeout ≡ pos n)
      × (10 * second ≤ a)
      × (a ≤ n)
  pub progress : (n : ℕ) × (c.progress_interval ≡ pos n)
  pub cost : (n : ℕ) × (c.max_cost_per_turn ≡ finite (pos n))
  pub retention :
      (n : ℕ) × (c.turn_timeout ≡ pos n)
      × ((2 ^ 63 ≤ 2 * n)
          ⊎ ((c.log_retention ≡ pos 0) ⊎ ((r : ℕ) × (c.log_retention ≡ pos r) × (2 * n ≤ r))))
  pub absolute_repo : has_prefix c.repo (codes "/") ≡ true

lt_int-pos : (z : ℤ) (b : ℕ) → lt_int z (pos b) ≡ false → (n : ℕ) × (z ≡ pos n) × (b ≤ n)
unfolding lt_int
lt_int-pos (pos a) b h = (a, refl, ground arith)
lt_int-pos (negsuc a) b h = absurd (ground arith)

is_no_limit-finite : (f : Float) → is_no_limit f ≡ false → (n : ℕ) × (f ≡ finite (pos n))
unfolding is_no_limit
is_no_limit-finite (finite (pos n)) h = (n, refl)
is_no_limit-finite (finite (negsuc n)) h = absurd (ground arith)
is_no_limit-finite nan h = absurd (ground arith)
is_no_limit-finite (infinite s) h = absurd (ground arith)

approval-valid :
    (a t : ℤ) (n : ℕ)
    → (lt_int a (pos (10 * second)) || lt_int t a) ≡ false
    → t ≡ pos n
    → (a' n' : ℕ) × (a ≡ pos a') × (t ≡ pos n') × (10 * second ≤ a') × (a' ≤ n')
unfolding lt_int
approval-valid (pos a) (pos t) n h e = (a, t, refl, refl, ground arith, ground arith)
approval-valid (negsuc a) t n h e = absurd (ground arith)
approval-valid (pos a) (negsuc t) n h e = absurd (ground arith)

retention-valid :
    (r : ℤ) (n : ℕ)
    → (not (is_zero r) && lt_int r (double (pos n))) ≡ false
    → 2 * n < 2 ^ 63
    → (r ≡ pos 0) ⊎ ((r' : ℕ) × (r ≡ pos r') × (2 * n ≤ r'))
unfolding lt_int is_zero double
retention-valid (pos zero) n h small = inl refl
retention-valid (pos (suc r)) n h small = inr (suc r, refl, ground arith)
retention-valid (negsuc r) n h small = absurd (ground arith)

retention-fits :
    (r : ℤ) (n : ℕ)
    → (not (is_zero r) && lt_int r (double (pos n))) ≡ false
    → (2 ^ 63 ≤ 2 * n) ⊎ ((r ≡ pos 0) ⊎ ((r' : ℕ) × (r ≡ pos r') × (2 * n ≤ r')))
retention-fits r n h = elim (Bool-cases (ltb (2 * n) (2 ^ 63))) [
  | inl e ↦ inr (retention-valid r n h (ground arith))
  | inr e ↦ inl (ground arith)
]

-- A configuration that the validation accepts has a bot user that is not trusted, at least one
-- process, a turn timeout of a minute or more, a poll interval of 100 ms or more, an approval
-- timeout from ten seconds up to the turn timeout, a progress interval and a cost limit that are
-- not negative, and an absolute directory; and a log retention of zero or of at least twice the turn
-- timeout, when the double of the turn timeout is in the range of an int64.
pub validate-IsValid : (url : Option (Text × Text)) (c : Config) → validate url c ≡ none → IsValid c
unfolding validate problems is_abs lt_int
validate-IsValid url c h =
    let f = first_problem-none (problems url c) h in
    let bot = f.1.1.1 in
    let trusted = bot.1.1.1 in
    let concurrent = trusted.1.1.1 in
    let cost = concurrent.1.1.1 in
    let t = lt_int-pos c.turn_timeout minute concurrent.1.1.0 in
    let progress = lt_int-pos c.progress_interval 0 cost.1.1.0 in
    record {
      has_bot = λ e. ground (arith, same_iff c.bot_user_id []);
      bot_not_trusted = trusted.0;
      concurrent = lt_int-pos c.max_concurrent 1 concurrent.0;
      timeout = t;
      poll = lt_int-pos c.poll_interval (100 * millisecond) concurrent.1.0;
      approval = approval-valid c.approval_timeout c.turn_timeout t.0 cost.1.0 t.1;
      progress = (progress.0, progress.1);
      cost = is_no_limit-finite c.max_cost_per_turn cost.0;
      retention = (
        t.0,
        t.1,
        retention-fits c.log_retention t.0 (
            ap (λ z. not (is_zero c.log_retention) && lt_int c.log_retention (double z)) (sym t.1)
            ∙ cost.1.1.1.0),
      );
      absolute_repo = not-eq_false (is_abs c.repo) cost.1.1.1.1.1.0;
    }
