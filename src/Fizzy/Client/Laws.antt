-- ===== src/Fizzy/Client/Laws.antt =====
-- internal/fizzy/client.go: what a call that succeeds has seen.
use fizzy_connector.Base.{
  ℕ, ◌≤◌, ◌≡◌, refl, inl, inr, Bool, false, Option, none, some, Option-cases, Text, [], ◌∷◌, ◌++◌,
  codes, cut_prefix, arith, same, ok, Result-cases,
}
use fizzy_connector.Fizzy.Requests.{
  Client, Response, Reply, replied, unreachable, Server, request_of, outcome_of, do_request,
  card_url, method_post, nested, received,
}
use fizzy_connector.Fizzy.Client.{
  Codec, find_group, group_at, is_id_char, id_of, created_id, create_comment,
}

outcome-ok :
    (reply : Reply) (r : Response)
    → outcome_of reply ≡ ok r
    → (reply ≡ replied r) × (200 ≤ r.status) × (r.status ≤ 299)
unfolding outcome_of
outcome-ok unreachable r h = absurd (ground arith)
outcome-ok (replied x) r h = (ground arith, ground arith, ground arith)

group_at-nonempty :
    (prefix : Text) (class : ℕ → Bool) (s g : Text)
    → group_at prefix class s ≡ some g
    → same g [] ≡ false
unfolding group_at
group_at-nonempty prefix class s g h = elim (Option-cases (cut_prefix s prefix)) [
  | inl e ↦ absurd (ground arith)
  | inr (rest, e) ↦ ground arith
]

find_group-nonempty :
    (prefix : Text) (class : ℕ → Bool) (s g : Text)
    → find_group prefix class s ≡ some g
    → same g [] ≡ false
unfolding find_group
find_group-nonempty prefix class [] g h = absurd (ground arith)
find_group-nonempty prefix class (c ∷ s) g h = elim (Option-cases (group_at prefix class (c ∷ s))) [
  | inl e ↦ find_group-nonempty prefix class s g (ground arith)
  | inr (x, e) ↦ group_at-nonempty prefix class (c ∷ s) g (ground arith)
]

id_of-nonempty :
    (k : Codec) (r : Response) (g : Option Text) (id : Text)
    → ((x : Text) → g ≡ some x → same x [] ≡ false)
    → id_of k r g ≡ ok id
    → same id [] ≡ false
unfolding id_of
id_of-nonempty k r (some x) id n h = ground (arith, n x refl)
id_of-nonempty k r none id n h = ground arith

created_id-ok :
    {S : Type 0} (k : Codec) (reply : Reply) (s : S) (id : Text)
    → (created_id k (received (reply, s))).0 ≡ ok id
    → (same id [] ≡ false)
      × ((r : Response) × (reply ≡ replied r) × (200 ≤ r.status) × (r.status ≤ 299))
unfolding created_id received
created_id-ok k reply s id h = elim (Result-cases (outcome_of reply)) [
  | inl (e, failed) ↦ absurd (ground arith)
  | inr (r, found) ↦
      let seen = outcome-ok reply r found in
      (
        id_of-nonempty k r (find_group (codes "/comments/") is_id_char r.location) id
            (λ x e. find_group-nonempty _ is_id_char r.location x e) (ground arith),
        (r, seen.0, seen.1, seen.2),
      )
]

-- A comment that was created has an id, and Fizzy answered the request with a success.
pub create_comment-id :
    {S : Type 0} (server : Server S) (k : Codec) (c : Client) (n : ℕ) (html : Text) (s : S)
    (id : Text)
    → (create_comment server k c n html s).0 ≡ ok id
    → (same id [] ≡ false)
      × ((r : Response) × ((server
              (request_of c method_post
                (card_url c n ++ codes "/comments")
                (nested (codes "comment") ((codes "body", html) ∷ []))
                [])
              s).0
            ≡ replied r)
          × (200 ≤ r.status)
          × (r.status ≤ 299))
unfolding create_comment do_request
create_comment-id server k c n html s id h = created_id-ok k _ _ id h
