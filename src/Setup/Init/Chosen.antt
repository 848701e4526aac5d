-- ===== src/Setup/Init/Chosen.antt =====
-- internal/setup/setup.go: what the questions for the trusted users and for the directory accept.
use fizzy_connector.Base.{
  ℕ, zero, suc, ◌-◌, ◌<◌, ◌≡◌, inl, inr, refl, ap, ◌∙◌, subst, true, false, Bool-cases, some,
  Option-cases, List, [], ◌∷◌, Text, arith, ◌==◌, if◌then◌else◌, same, mem_text, length, All, In,
  filter_by, In-of-filter_by, number_up_to, split_on, trim_space, Result, ok, err, Error,
}
use fizzy_connector.Fizzy.{User}
use fizzy_connector.Setup.Prompts.{Talk, answer}
use fizzy_connector.Setup.Frames.{SameFiles}
use fizzy_connector.Setup.Accounts.{nth}
use fizzy_connector.Setup.Init.{
  is_candidate, candidates, ids_at, Machine, dir_checked, ask_dir, dir_lines, expand_home,
}

candidates-filter_by :
    (bot : Text) (us : List User) → candidates bot us ≡ filter_by (is_candidate bot) us
unfolding candidates filter_by
candidates-filter_by bot [] = refl
candidates-filter_by bot (u ∷ us) = rw (candidates-filter_by bot us) refl

nth-In : {A : Type 0} (xs : List A) (n : ℕ) (x : A) → nth xs n ≡ some x → In x xs
unfolding nth
nth-In [] n x h = absurd (ground arith)
nth-In (y ∷ xs) zero x h = inl (ground arith)
nth-In (y ∷ xs) (suc n) x h = inr (nth-In xs n x h)

-- The ids of some of the users.
abbrev pub AreIdsOf : List User → List Text → Type 0
AreIdsOf users ids = All (λ id. (u : User) × In u users × (id ≡ u.id)) ids

pub ids_at-AreIdsOf :
    (users : List User) (fields ids : List Text)
    → ids_at users fields ≡ some ids
    → AreIdsOf users ids × (length ids ≡ length fields)
unfolding ids_at
ids_at-AreIdsOf users [] [] h = (tt, refl)
ids_at-AreIdsOf users [] (i ∷ ids) h = absurd (ground arith)
ids_at-AreIdsOf users (f ∷ fields) ids h =
    elim (Option-cases (number_up_to (length users) (trim_space f))) [
      | inl e ↦ absurd (ground arith)
      | inr (n, e) ↦ elim (Option-cases (nth users (n - 1))) [
        | inl e' ↦ absurd (ground arith)
        | inr (u, e') ↦ elim (Option-cases (ids_at users fields)) [
          | inl e'' ↦ absurd (ground arith)
          | inr (rest, e'') ↦
              let (are, size) = ids_at-AreIdsOf users fields rest e'' in
              let whole : u.id ∷ rest ≡ ids = ground arith in
              subst (λ l. AreIdsOf users l × (length l ≡ suc (length fields))) whole
                (((u, nth-In users (n - 1) u e', refl), are), ap suc size)
        ]
      ]
    ]

split_on-rest_nonempty :
    (sep c : ℕ) (rest : List Text)
    → 0
      < length
          (if c == sep then [] ∷ rest else elim rest [ [] ↦ (c ∷ []) ∷ [] | w ∷ ws ↦ (c ∷ w) ∷ ws ])
split_on-rest_nonempty sep c [] = ground arith
split_on-rest_nonempty sep c (w ∷ ws) = ground arith

pub split_on-nonempty : (sep : ℕ) (s : Text) → 0 < length (split_on sep s)
unfolding split_on
split_on-nonempty sep [] = omega arith
split_on-nonempty sep (c ∷ s) = split_on-rest_nonempty sep c (split_on sep s)

-- A user who may be trusted beside the bot.
abbrev pub IsPerson : Text → List User → Text → Type 0
IsPerson bot users id = (u : User) × In u users × (is_candidate bot u ≡ true) × (id ≡ u.id)

abbrev pub ArePeople : Text → List User → List Text → Type 0
ArePeople bot users ids = All (IsPerson bot users) ids

pub AreIdsOf-ArePeople :
    (bot : Text) (users : List User) (ids : List Text)
    → AreIdsOf (candidates bot users) ids
    → ArePeople bot users ids
AreIdsOf-ArePeople bot users [] h = tt
AreIdsOf-ArePeople bot users (id ∷ ids) ((u, found, e), h) =
    let (listed, fit) =
      In-of-filter_by (is_candidate bot) u users
        (subst (In u) (candidates-filter_by bot users) found) in
    ((u, listed, fit, e), AreIdsOf-ArePeople bot users ids h)

is_candidate-bot : (bot : Text) (u : User) → is_candidate bot u ≡ true → same u.id bot ≡ false
unfolding is_candidate
is_candidate-bot bot u h = ground arith

-- Nobody who may be trusted is the bot.
pub ArePeople-bot :
    (bot : Text) (users : List User) (ids : List Text)
    → ArePeople bot users ids
    → mem_text bot ids ≡ false
unfolding mem_text
ArePeople-bot bot users [] h = refl
ArePeople-bot bot users (id ∷ ids) ((u, listed, fit, e), h) =
    let other : same id bot ≡ false = ap (λ x. same x bot) e ∙ is_candidate-bot bot u fit in
    let others = ArePeople-bot bot users ids h in ground arith

dir_checked-ok :
    (m : Machine) (r : Result Text) (lines : List Text) (again : Text → Result Text × List Text)
    (dir : Text)
    → ((path : Text) → (again path).0 ≡ ok dir → m.is_dir dir ≡ true)
    → (dir_checked m r lines again).0 ≡ ok dir
    → m.is_dir dir ≡ true
unfolding dir_checked
dir_checked-ok m (err e) lines again dir next h = absurd (ground arith)
dir_checked-ok m (ok path) lines again dir next h = elim (Bool-cases (m.is_dir path)) [
  | inl e ↦ let here : path ≡ dir = ground arith in subst (λ x. m.is_dir x ≡ true) here e
  | inr e ↦ next path (ground arith)
]

pub ask_dir-ok :
    (m : Machine) (ended : Error) (fallback : Text) (lines : List Text) (dir : Text)
    → (ask_dir m ended fallback lines).0 ≡ ok dir
    → m.is_dir dir ≡ true
unfolding ask_dir
ask_dir-ok m ended fallback [] dir h = absurd (ground arith)
ask_dir-ok m ended fallback (line ∷ lines) dir h =
    elim (Bool-cases (same (answer fallback line) [])) [
      | inl e ↦ ask_dir-ok m ended fallback lines dir (ground arith)
      | inr e ↦
          dir_checked-ok m (m.absolute (expand_home m (answer fallback line))) lines
            (λ path. ask_dir m ended path lines) dir (λ path. ask_dir-ok m ended path lines dir)
            (ground arith)
    ]

pub dir_lines-SameFiles :
    {S : Type 0} (t : Talk S) (r : Result Text × List Text) → SameFiles t (dir_lines t r).1
unfolding dir_lines
dir_lines-SameFiles t (r, lines) = (refl, refl)
