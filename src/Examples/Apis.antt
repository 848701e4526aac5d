-- ===== src/Examples/Apis.antt =====
-- Two small Fizzy servers, as the tools use them.
use fizzy_connector.Base.{
  ℕ, ◌≡◌, refl, sym, ap, ◌∙◌, inl, inr, Bool, true, false, not, ◌&&◌, Bool-cases, List, [], ◌∷◌,
  Text, codes, arith, ◌==◌, if◌then◌else◌, same, same_iff, map, any, Result, ok, err, failed,
}
use fizzy_connector.Fizzy.{User, Card}
use fizzy_connector.Mcpserver.Results.{Api}
use fizzy_connector.Mcpserver.Actions.{Chars, equal_fold, fold, is_tagged, is_user}
use fizzy_connector.Mcpserver.Actions.Tags.{TagLaws}
use fizzy_connector.Mcpserver.Actions.Assignments.{AssignmentLaws}
use fizzy_connector.Examples.Data.{ann, bot, card, table}

abbrev pub chars : Chars
chars = record { table = table; orbit = λ c. c }

abbrev pub no : {S A : Type 0} → S → Result A × S
no s = (err (failed []), s)

abbrev pub no_api : {S : Type 0} → Api S
no_api = record {
  card = λ n. no;
  users = no;
  boards = no;
  columns = λ board. no;
  comments = λ n. no;
  search = λ terms. no;
  comment = λ n html. no;
  new_card = λ board title html. no;
  close = λ n. no;
  reopen = λ n. no;
  to_column = λ n column. no;
  assignment = λ n user. no;
  tagging = λ n title. no;
  to_board = λ n board. no;
}

abbrev pub urgent : Text
urgent = codes "urgent"

-- A Fizzy with card 7, which has the tag "urgent" or not.
abbrev pub one_tag : Api Bool
one_tag = record no_api {
  card = λ n s.
      if n == 7
      then (ok (record card { tags = if s then urgent ∷ [] else [] }), s)
      else (err (failed []), s);
  tagging = λ n title s.
      if n == 7 && equal_fold chars urgent title then (ok tt, not s) else (err (failed []), s);
}

abbrev pub urgent_on : Bool → ℕ → Text → Bool
urgent_on s n title = (n == 7 && equal_fold chars urgent title) && s

abbrev tags_in : Result Card → List Text
tags_in (ok x) = x.tags
tags_in (err e) = []

one_tag-is_tagged :
    (s : Bool) (title : Text)
    → is_tagged chars title (if s then urgent ∷ [] else []) ≡ (equal_fold chars urgent title && s)
unfolding is_tagged
one_tag-is_tagged true title = ground arith
one_tag-is_tagged false title = ground arith

equal_fold-transfer :
    (a b c : Text)
    → equal_fold chars a c ≡ true
    → equal_fold chars a b ≡ true
    → equal_fold chars b c ≡ true
unfolding equal_fold
equal_fold-transfer a b c h k =
    let f = map (fold chars) in
    let ac = (same_iff (f a) (f c)).0 h in
    let ab = (same_iff (f a) (f b)).0 k in (same_iff (f b) (f c)).1 (sym ab ∙ ac)

one_tag-read :
    (n : ℕ) (s : Bool) (x : Card) (title : Text)
    → (one_tag.card n s).0 ≡ ok x
    → is_tagged chars title x.tags ≡ urgent_on s n title
unfolding is_tagged
one_tag-read n s x title h = elim (Bool-cases (n == 7)) [
  | inl e ↦
      let tags : tags_in (one_tag.card n s).0 ≡ x.tags = ap tags_in h in
      let same_tags : (if s then urgent ∷ [] else []) ≡ x.tags = (rw e refl) ∙ tags in
      ap (is_tagged chars title) (sym same_tags) ∙ rw e (one_tag-is_tagged s title)
  | inr e ↦ absurd (ground arith)
]

one_tag-kept : (n : ℕ) (s : Bool) → (one_tag.card n s).1 ≡ s
one_tag-kept n s = elim (Bool-cases (n == 7)) [ inl e ↦ rw e refl | inr e ↦ rw e refl ]

one_tag-turned :
    (n : ℕ) (title : Text) (s : Bool)
    → (one_tag.tagging n title s).0 ≡ ok tt
    → urgent_on (one_tag.tagging n title s).1 n title ≡ not (urgent_on s n title)
one_tag-turned n title s h = elim (Bool-cases (n == 7 && equal_fold chars urgent title)) [
  | inl e ↦ rw e refl
  | inr e ↦ absurd (ground arith)
]

one_tag-others :
    (n : ℕ) (title : Text) (s : Bool) (m : ℕ) (other : Text)
    → (m == n && equal_fold chars other title) ≡ false
    → urgent_on (one_tag.tagging n title s).1 m other ≡ urgent_on s m other
one_tag-others n title s m other d = elim (Bool-cases (n == 7 && equal_fold chars urgent title)) [
  | inl e ↦
      let other_tag : (m == 7 && equal_fold chars urgent other) ≡ false =
        ground (arith, equal_fold-transfer urgent other title) in
      rw (e, other_tag) refl
  | inr e ↦ rw e refl
]

pub one_tag-TagLaws : TagLaws one_tag chars urgent_on
one_tag-TagLaws = record {
  read = one_tag-read;
  kept = λ n s m other. ap (λ t. urgent_on t m other) (one_tag-kept n s);
  turned = one_tag-turned;
  others = one_tag-others;
}

abbrev pub ann_on : Bool → ℕ → Text → Bool
ann_on s n id = (n == 7 && same (codes "ann") id) && s

-- A Fizzy with two users and card 7, which is assigned to Ann or not.
abbrev pub one_assignee : Api Bool
one_assignee = record no_api {
  card = λ n s.
      if n == 7
      then (ok (record card { assignees = if s then ann ∷ [] else [] }), s)
      else (err (failed []), s);
  users = λ s. (ok (ann ∷ bot ∷ []), s);
  assignment =
      λ n id s. if n == 7 && same (codes "ann") id then (ok tt, not s) else (err (failed []), s);
}

abbrev assignees_in : Result Card → List User
assignees_in (ok x) = x.assignees
assignees_in (err e) = []

one_assignee-any :
    (s : Bool) (u : User)
    → any (is_user u) (if s then ann ∷ [] else []) ≡ (same (codes "ann") u.id && s)
unfolding any is_user
one_assignee-any true u = ground arith
one_assignee-any false u = ground arith

one_assignee-read :
    (n : ℕ) (s : Bool) (x : Card) (u : User)
    → (one_assignee.card n s).0 ≡ ok x
    → any (is_user u) x.assignees ≡ ann_on s n u.id
one_assignee-read n s x u h = elim (Bool-cases (n == 7)) [
  | inl e ↦
      let found : assignees_in (one_assignee.card n s).0 ≡ x.assignees = ap assignees_in h in
      let same_users : (if s then ann ∷ [] else []) ≡ x.assignees = rw e refl ∙ found in
      ap (any (is_user u)) (sym same_users) ∙ rw e (one_assignee-any s u)
  | inr e ↦ absurd (ground arith)
]

one_assignee-kept : (n : ℕ) (s : Bool) → (one_assignee.card n s).1 ≡ s
one_assignee-kept n s = elim (Bool-cases (n == 7)) [ inl e ↦ rw e refl | inr e ↦ rw e refl ]

one_assignee-turned :
    (n : ℕ) (id : Text) (s : Bool)
    → (one_assignee.assignment n id s).0 ≡ ok tt
    → ann_on (one_assignee.assignment n id s).1 n id ≡ not (ann_on s n id)
one_assignee-turned n id s h = elim (Bool-cases (n == 7 && same (codes "ann") id)) [
  | inl e ↦ rw e refl
  | inr e ↦ absurd (ground arith)
]

one_assignee-others :
    (n : ℕ) (id : Text) (s : Bool) (m : ℕ) (other : Text)
    → (m == n && same other id) ≡ false
    → ann_on (one_assignee.assignment n id s).1 m other ≡ ann_on s m other
one_assignee-others n id s m other d = elim (Bool-cases (n == 7 && same (codes "ann") id)) [
  | inl e ↦
      let differs : (m == 7 && same (codes "ann") other) ≡ false =
        ground
          (arith, same_iff (codes "ann") id, same_iff (codes "ann") other, same_iff other id) in
      rw (e, differs) refl
  | inr e ↦ rw e refl
]

pub one_assignee-AssignmentLaws : AssignmentLaws one_assignee ann_on
one_assignee-AssignmentLaws = record {
  read = one_assignee-read;
  kept = λ n s m id. ap (λ t. ann_on t m id) (one_assignee-kept n s);
  listed = λ s m id. refl;
  turned = one_assignee-turned;
  others = one_assignee-others;
}
