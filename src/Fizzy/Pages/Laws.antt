-- ===== src/Fizzy/Pages/Laws.antt =====
-- internal/fizzy/client.go: a list in pages is read to its end, in order, or not at all.
use fizzy_connector.Base.{
  ℕ, zero, suc, ◌<◌, ◌≡◌, refl, sym, ap, ◌∙◌, subst, inl, inr, Bool, true, false, Bool-cases,
  Option, none, some, List, [], ◌∷◌, ◌++◌, append-nil, append_assoc, Text, codes, arith, same,
  Result, ok, err, Error, Result-cases, all, cut_prefix, has_prefix,
}
use fizzy_connector.Fizzy.{User, BoardAccess}
use fizzy_connector.Fizzy.Requests.{Reply, outcome_of}
use fizzy_connector.Fizzy.Pages.{
  page_of, get_all, with_access, board_members, take_while, drop_while, not_close, link_end,
  link_at, next_link, is_blank,
}

abbrev pub prepend {ℓ} : {A : Type ℓ} → List A → Result (List A) → Result (List A)
prepend xs (ok ys) = ok (xs ++ ys)
prepend xs (err e) = err e

prepend_nil {ℓ} : {A : Type ℓ} (r : Result (List A)) → prepend [] r ≡ r
prepend_nil (ok xs) = refl
prepend_nil (err e) = refl

prepend-prepend {ℓ} :
    {A : Type ℓ} (xs ys : List A) (r : Result (List A))
    → prepend (xs ++ ys) r ≡ prepend xs (prepend ys r)
prepend-prepend xs ys (ok zs) = ap ok (append_assoc xs ys zs)
prepend-prepend xs ys (err e) = refl

module _ {A : Type 0} (decode : Text → Option (List A)) (server : Text → Reply) where
  abbrev pub page_at : Text → Result (List A × Text)
  page_at url = page_of decode (outcome_of (server url))

  -- The pages from an address on: how many there are, and what they hold together; a page that is
  -- refused or does not decode makes the whole an error.
  pub data Chain : Text → Result (List A) → ℕ → Type 0 where
    last :
        {url : Text} {r : Result (List A)} {n : ℕ} → same url [] ≡ true → r ≡ ok [] → Chain url r n
    broken :
        {url : Text} {r : Result (List A)} {n : ℕ} (e : Error)
        → same url [] ≡ false
        → page_at url ≡ err e
        → r ≡ err e
        → Chain url r n
    page :
        {url : Text} {r : Result (List A)} {n : ℕ} (items : List A) (next : Text)
        (rest : Result (List A)) (m : ℕ)
        → same url [] ≡ false
        → page_at url ≡ ok (items, next)
        → Chain next rest m
        → r ≡ prepend items rest
        → m < n
        → Chain url r n

  get_all-Chain :
      (fuel : ℕ) (url : Text) (before : List A) (r : Result (List A)) (n : ℕ)
      → Chain url r n
      → n < fuel
      → get_all decode server fuel url before ≡ some (prepend before r)
  unfolding get_all
  get_all-Chain zero url before r n c h = absurd (omega arith)
  get_all-Chain (suc fuel) url before r n (last e re) h = rw (e, re, append-nil before) refl
  get_all-Chain (suc fuel) url before r n (broken x e failed re) h = rw (e, failed, re) refl
  get_all-Chain (suc fuel) url before r n (page items next rest m e found c re lt) h =
      rw (e, found, re)
        (get_all-Chain fuel next (before ++ items) rest m c (omega arith)
          ∙ ap some (prepend-prepend before items rest))

  Chain-of-get_all :
      (fuel : ℕ) (url : Text) (before : List A) (r : Result (List A))
      → get_all decode server fuel url before ≡ some r
      → (rest : Result (List A)) × Chain url rest fuel × (r ≡ prepend before rest)
  unfolding get_all
  Chain-of-get_all zero url before r h = absurd (ground arith)
  Chain-of-get_all (suc fuel) url before r h = elim (Bool-cases (same url [])) [
    | inl e ↦ (ok [], last e refl, ground (arith, append-nil before))
    | inr e ↦ elim (Result-cases (page_at url)) [
      | inl (x, failed) ↦ (err x, broken x e failed refl, ground arith)
      | inr ((items, next), found) ↦
          let (rest, c, re) = Chain-of-get_all fuel next (before ++ items) r (ground arith) in
          (
            prepend items rest,
            page items next rest fuel e found c refl (omega arith),
            re ∙ prepend-prepend before items rest,
          )
    ]
  ]

  -- With more fuel than there are pages the loop gives exactly what the pages hold together, each item
  -- once and in order, or the error of the first page that fails, and then no item at all; and whatever
  -- it gives with any fuel is that.
  pub get_all_iff :
      (url : Text) (r : Result (List A))
      → ((n fuel : ℕ) → Chain url r n → n < fuel → get_all decode server fuel url [] ≡ some r)
        × ((fuel : ℕ) → get_all decode server fuel url [] ≡ some r → Chain url r fuel)
  get_all_iff url r = (
    (λ n fuel c h. get_all-Chain fuel url [] r n c h ∙ ap some (prepend_nil r)),
    (λ fuel h.
        let (rest, c, e) = Chain-of-get_all fuel url [] r h in
        subst (λ x. Chain url x fuel) (sym (prepend_nil rest) ∙ sym e) c),
  )

with_access-append :
    (xs ys : List BoardAccess) → with_access (xs ++ ys) ≡ with_access xs ++ with_access ys
unfolding with_access
with_access-append [] ys = refl
with_access-append (x ∷ xs) ys = ground (arith, with_access-append xs ys)

abbrev pub members_of : Result (List BoardAccess) → Result (List User)
members_of (ok xs) = ok (with_access xs)
members_of (err e) = err e

abbrev pub members_of_option : Option (Result (List BoardAccess)) → Option (Result (List User))
members_of_option none = none
members_of_option (some r) = some (members_of r)

board_members_from :
    (decode : Text → Option (List BoardAccess)) (server : Text → Reply) (fuel : ℕ) (url : Text)
    (seen : List BoardAccess)
    → board_members decode server fuel url (with_access seen)
      ≡ members_of_option (get_all decode server fuel url seen)
unfolding board_members get_all
board_members_from decode server zero url seen = refl
board_members_from decode server (suc fuel) url seen = elim (Bool-cases (same url [])) [
  | inl e ↦ rw e refl
  | inr e ↦ elim (Result-cases (page_of decode (outcome_of (server url)))) [
    | inl (x, failed) ↦ rw (e, failed) refl
    | inr ((items, next), found) ↦
        rw (e, found)
          (rw (← (with_access-append seen items))
            (board_members_from decode server fuel next (seen ++ items)))
  ]
]

-- The members of a board are those of its accesses that count, over all pages.
pub board_members-get_all :
    (decode : Text → Option (List BoardAccess)) (server : Text → Reply) (fuel : ℕ) (url : Text)
    → board_members decode server fuel url []
      ≡ members_of_option (get_all decode server fuel url [])
unfolding with_access
board_members-get_all decode server fuel url = board_members_from decode server fuel url []

take_while-append :
    (p : ℕ → Bool) (xs : Text) (c : ℕ) (ys : Text)
    → all p xs ≡ true
    → p c ≡ false
    → (take_while p (xs ++ c ∷ ys) ≡ xs) × (drop_while p (xs ++ c ∷ ys) ≡ c ∷ ys)
unfolding take_while drop_while all
take_while-append p [] c ys h e = rw e (refl, refl)
take_while-append p (x ∷ xs) c ys h e =
    let (taken, dropped) = take_while-append p xs c ys (ground arith) e in
    let here : p x ≡ true = ground arith in rw here (ap (◌∷◌ x) taken, dropped)

link_at_lem :
    (u rest : Text)
    → same u [] ≡ false
    → all not_close u ≡ true
    → link_at (b'<' ∷ (u ++ codes ">; rel=\"next\"" ++ rest)) ≡ some u
unfolding link_at link_end cut_prefix has_prefix drop_while is_blank
link_at_lem u rest nonempty plain =
    let (taken, dropped) =
      take_while-append not_close u b'>' (codes "; rel=\"next\"" ++ rest) plain
        (unfold not_close in refl) in
    rw (append_assoc u (codes ">; rel=\"next\"") rest, taken, dropped, nonempty) refl

-- The header of a page that has a next one gives its address.
pub next_link_lem :
    (u rest : Text)
    → same u [] ≡ false
    → all not_close u ≡ true
    → next_link (b'<' ∷ (u ++ codes ">; rel=\"next\"" ++ rest)) ≡ u
unfolding next_link
next_link_lem u rest nonempty plain = rw (link_at_lem u rest nonempty plain, next_link) refl
