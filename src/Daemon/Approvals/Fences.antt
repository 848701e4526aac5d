-- ===== src/Daemon/Approvals/Fences.antt =====
-- internal/daemon/approvals.go, fenced: a code block that its text cannot close.
use fizzy_connector.Base.{
  ℕ, zero, suc, ◌+◌, ◌-◌, ap, ◌≡◌, ◌≤◌, max, true, false, [], ◌∷◌, ◌++◌, Text, codes, arith, ◌==◌,
  if◌then◌else◌, has_prefix, cut_prefix, contains, Bool-cases, inl, inr,
}

abbrev pub backtick : ℕ
backtick = 96

-- strings.Repeat("`", n).
unfoldable pub ticks : ℕ → Text
ticks zero = []
ticks (suc n) = backtick ∷ ticks n

-- The loop of `fenced` over the variables `longest` and `run`.
unfoldable pub longest_run : ℕ → ℕ → Text → ℕ
longest_run longest run [] = longest
longest_run longest run (c ∷ s) =
    longest_run (if c == backtick then max longest (run + 1) else longest)
      (if c == backtick then run + 1 else 0) s

unfoldable pub fence_of : Text → Text
unfolding ticks longest_run
fence_of text = ticks (max 3 (longest_run 0 0 text + 1))

unfoldable pub fenced : Text → Text
unfolding fence_of
fenced text = fence_of text ++ codes "\n" ++ text ++ codes "\n" ++ fence_of text

longest_run-grows : (l r : ℕ) (s : Text) → l ≤ longest_run l r s
unfolding longest_run
longest_run-grows l r [] = omega arith
longest_run-grows l r (c ∷ s) = elim (Bool-cases (c == backtick)) [
  | inl e ↦ rw e (omega (arith, longest_run-grows (max l (r + 1)) (r + 1) s))
  | inr e ↦ rw e (longest_run-grows l 0 s)
]

prefix_cons :
    (n c : ℕ) (s : Text)
    → has_prefix (c ∷ s) (ticks (suc n)) ≡ true
    → ((c == backtick) ≡ true) × (has_prefix s (ticks n) ≡ true)
unfolding has_prefix cut_prefix ticks
prefix_cons n c s h = ground arith

prefix_le :
    (n l r : ℕ) (s : Text) → r ≤ l → has_prefix s (ticks n) ≡ true → n + r ≤ longest_run l r s
unfolding longest_run
prefix_le zero l r s h e = omega (arith, longest_run-grows l r s)
prefix_le (suc n) l r [] h e = absurd (unfold ticks has_prefix cut_prefix in ground arith)
prefix_le (suc n) l r (c ∷ s) h e =
    let (hit, rest) = prefix_cons n c s e in
    let deeper = prefix_le n (max l (r + 1)) (r + 1) s (omega arith) rest in
    rw hit (omega (arith, deeper))

contains_le : (n l r : ℕ) (s : Text) → r ≤ l → contains s (ticks n) ≡ true → n ≤ longest_run l r s
unfolding contains longest_run
contains_le n l r [] h e = omega (arith, prefix_le n l r [] h e)
contains_le n l r (c ∷ s) h e = elim (Bool-cases (has_prefix (c ∷ s) (ticks n))) [
  | inl hit ↦ omega (arith, prefix_le n l r (c ∷ s) h hit)
  | inr miss ↦
      let later : contains s (ticks n) ≡ true = ground arith in
      contains_le n (if c == backtick then max l (r + 1) else l)
        (if c == backtick then r + 1 else 0) s (ground arith) later
]

-- The text of a code block never contains its fence, and the fence has at least three backticks.
pub fence_of-closes :
    (text : Text)
    → (contains text (fence_of text) ≡ false) × ((k : ℕ) × (fence_of text ≡ ticks (3 + k)))
unfolding fence_of
fence_of-closes text = (
  elim (Bool-cases (contains text (ticks (max 3 (longest_run 0 0 text + 1))))) [
    | inl e ↦ absurd (omega (arith, contains_le _ 0 0 text (omega arith) e))
    | inr e ↦ e
  ],
  (max 3 (longest_run 0 0 text + 1) - 3, ap ticks (omega arith)),
)
