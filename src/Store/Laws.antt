-- ===== src/Store/Laws.antt =====
-- internal/store/store.go: what the operations of the store promise.
use fizzy_connector.Base.{
  ℕ, ◌+◌, ◌-◌, ◌≡◌, refl, ◌∙◌, ◌≢◌, ◌⊎◌, ◌==◌, if◌then◌else◌, Option-cases, inl, inr, min,
  Bool-cases, ltb→lt, some, [], ◌∷◌, ◌++◌, arith, ltb, length, drop, length-append, length-drop, ok,
  err, Error,
}
use fizzy_connector.Store.{
  CardState, TurnRecord, Store, record_turn, disk_error, read, write, new_state, get, update,
}

-- Each file holds the state of the card that it is named for.
abbrev pub IsKept : Store → Type 0
IsKept s = (n : ℕ) (c : CardState) → s.file n ≡ some c → c.number ≡ n

pub read-number : (s : Store) (n : ℕ) (c : CardState) → IsKept s → read s n ≡ ok c → c.number ≡ n
unfolding read
read-number s n c kept h = ground (arith, kept n c)

-- In a store whose files hold their own cards, under a change that keeps the number of a card: an
-- update that succeeds returns the changed state, a later read finds it, and no other card differs.
pub get-update :
    (s : Store) (n : ℕ) (change : CardState → CardState) (before after : CardState)
    → IsKept s
    → ((c : CardState) → (change c).number ≡ c.number)
    → get s n ≡ ok before
    → (update s n change).0 ≡ ok after
    → (after ≡ change before)
      × (get (update s n change).1 n ≡ ok after)
      × ((m : ℕ) → m ≢ n → get (update s n change).1 m ≡ get s m)
unfolding get update
get-update s n change before after kept keeps found done =
    let e : (change before).number ≡ n = keeps before ∙ read-number s n before kept found in
    (ground arith, ground arith, λ m other. ground arith)

pub update-cases :
    (s : Store) (n : ℕ) (f : CardState → CardState)
    → ((e : Error) × (update s n f ≡ (err e, s)))
      ⊎ ((c : CardState) × (read s n ≡ ok c)
          × (update s n f ≡ (
            ok (f c),
            record s { file = λ m. if m == (f c).number then some (f c) else s.file m },
          )))
unfolding update read write
update-cases s n f = elim (Bool-cases (s.read_fails n)) [
  | inl e ↦ inl (disk_error, ground arith)
  | inr e ↦ elim (Option-cases (s.file n)) [
    | inl none_e ↦ elim (Bool-cases (s.write_fails (f (new_state n)).number)) [
      | inl w ↦ inl (disk_error, ground arith)
      | inr w ↦ inr (new_state n, ground arith, ground arith)
    ]
    | inr (c, some_e) ↦ elim (Bool-cases (s.write_fails (f c).number)) [
      | inl w ↦ inl (disk_error, ground arith)
      | inr w ↦ inr (c, ground arith, ground arith)
    ]
  ]
]

pub update-done :
    (s : Store) (n : ℕ) (f : CardState → CardState) (after : CardState)
    → IsKept s
    → ((c : CardState) → (f c).number ≡ c.number)
    → (update s n f).0 ≡ ok after
    → (before : CardState) × (get s n ≡ ok before)
      × (after ≡ f before)
      × (get (update s n f).1 n ≡ ok after)
unfolding get
update-done s n f after kept keeps done = elim (update-cases s n f) [
  | inl (e, h) ↦ ground arith
  | inr (c, found, h) ↦
      let (same_after, later, _) = get-update s n f c after kept keeps found done in
      (c, found, same_after, later)
]

-- An update that fails leaves every card as it was.
pub update_failed :
    (s : Store) (n : ℕ) (change : CardState → CardState) (e : Error)
    → (update s n change).0 ≡ err e
    → (update s n change).1 ≡ s
unfolding update
update_failed s n change e h = ground arith

-- An update keeps each file at its own card.
pub update-IsKept :
    (s : Store) (n : ℕ) (change : CardState → CardState) → IsKept s → IsKept (update s n change).1
unfolding update
update-IsKept s n change kept m c h = ground (arith, kept m c)

-- A record adds one to the count and its cost to the total. The turns kept in detail are the newest
-- 50 of the old ones and the new one, in order, or all of them when there are fewer.
pub record_turn_lem :
    (r : TurnRecord) (s : CardState)
    → let t = record_turn r s in
      (t.turn_count ≡ s.turn_count + 1)
      × (t.total_cost_usd ≡ s.total_cost_usd + r.cost_usd)
      × (t.turns ≡ drop (length s.turns + 1 - 50) (s.turns ++ r ∷ []))
      × (length t.turns ≡ min 50 (length s.turns + 1))
unfolding record_turn
record_turn_lem r s = elim (Bool-cases (ltb 50 (length (s.turns ++ r ∷ [])))) [
  | inl e ↦ rw e (
    refl,
    refl,
    rw (length-append s.turns (r ∷ [])) refl,
    omega (
      arith,
      ltb→lt _ _ e,
      length-drop (length (s.turns ++ r ∷ []) - 50) (s.turns ++ r ∷ []),
      length-append s.turns (r ∷ []),
    ),
  )
  | inr e ↦ rw e (
    refl,
    refl,
    let z : length s.turns + 1 - 50 ≡ 0 = ground (arith, length-append s.turns (r ∷ [])) in
        rw z refl,
    ground (arith, length-append s.turns (r ∷ [])),
  )
]
