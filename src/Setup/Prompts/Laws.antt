-- ===== src/Setup/Prompts/Laws.antt =====
-- internal/setup/setup.go, prompter: what a question gives.
use fizzy_connector.Base.{
  ◌≡◌, inl, inr, Bool-cases, Option, some, Option-cases, List, [], ◌∷◌, Text, arith, same, ok,
  Error, Result-cases,
}
use fizzy_connector.Setup.Prompts.{Talk, P, answer, ask_until, ask_for, ◌>>=◌}

-- A step of a dialogue that succeeds as a whole.
pub bind-ok :
    {A B S : Type 0} (m : P S A) (f : A → P S B) (t : Talk S) (b : B)
    → ((m >>= f) t).0 ≡ ok b
    → (a : A) × ((m t).0 ≡ ok a) × ((f a (m t).1).0 ≡ ok b)
unfolding ◌>>=◌
bind-ok m f t b h = elim (Result-cases (m t).0) [
  | inl (e, failed) ↦ absurd (ground arith)
  | inr (a, done) ↦ (a, done, ground arith)
]

-- An answer that is taken is one that the question accepts.
pub ask_until-ok :
    {A : Type 0} (ended : Error) (accept : Text → Option A) (fallback : Text) (lines : List Text)
    (a : A)
    → (ask_until ended accept fallback lines).0 ≡ ok a
    → (line : Text) × (accept line ≡ some a)
unfolding ask_until
ask_until-ok ended accept fallback [] a h = absurd (ground arith)
ask_until-ok ended accept fallback (line ∷ lines) a h =
    elim (Bool-cases (same (answer fallback line) [])) [
      | inl e ↦ ask_until-ok ended accept fallback lines a (ground arith)
      | inr e ↦ elim (Option-cases (accept (answer fallback line))) [
        | inl no_value ↦ ask_until-ok ended accept fallback lines a (ground arith)
        | inr (x, found) ↦ (answer fallback line, ground arith)
      ]
    ]

pub ask_for-ok :
    {A S : Type 0} (ended : Error) (accept : Text → Option A) (fallback : Text) (t : Talk S) (a : A)
    → (ask_for ended accept fallback t).0 ≡ ok a
    → (line : Text) × (accept line ≡ some a)
unfolding ask_for
ask_for-ok ended accept fallback t a h = ask_until-ok ended accept fallback t.lines a h
