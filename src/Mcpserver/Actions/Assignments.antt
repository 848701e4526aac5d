-- ===== src/Mcpserver/Actions/Assignments.antt =====
-- internal/mcpserver/actions.go, assignCard: the user that a text names, and the assignment of a
-- card over a toggle of Fizzy.
use fizzy_connector.Base.{
  ℕ, ◌≡◌, refl, sym, ◌∙◌, ◌⊎◌, inl, inr, Bool, true, false, not, ◌&&◌, Bool-cases, List, Text, [],
  ◌∷◌, arith, ◌==◌, same, any, contains, trim_space, In, ap, filter_by, filter_by-one,
  filter_by-none, ok, Result-cases,
}
use fizzy_connector.Fizzy.{User, Card, Libs}
use fizzy_connector.Fizzy.Requests.{Client}
use fizzy_connector.Mcpserver.Results.{Api, Output, done, Outcome-cases, checked, and_then}
use fizzy_connector.Mcpserver.References.{resolve_card}
use fizzy_connector.Mcpserver.Actions.{
  Chars, lower_text, by_email, by_name, matches_of, one_user, user_named, is_user, resolved,
  assign_user, assign_card,
}

-- Has the email address `wanted`, or a name that contains it; only active users count.
pub has_email : Chars → Text → User → Bool
has_email t wanted u = u.active && same (lower_text t u.email_address) wanted

pub has_name : Chars → Text → User → Bool
has_name t wanted u = u.active && contains (lower_text t u.name) wanted

no_email_has_name : Chars → Text → User → Bool
no_email_has_name t wanted u =
    u.active
    && not (same (lower_text t u.email_address) wanted)
    && contains (lower_text t u.name) wanted

module _ (t : Chars) (wanted : Text) where
  by_email-filter_by :
      (users : List User) → by_email t wanted users ≡ filter_by (has_email t wanted) users
  unfolding by_email has_email filter_by
  by_email-filter_by [] = refl
  by_email-filter_by (x ∷ xs) = rw (by_email-filter_by xs) refl

  by_name-filter_by :
      (users : List User) → by_name t wanted users ≡ filter_by (no_email_has_name t wanted) users
  unfolding by_name no_email_has_name filter_by
  by_name-filter_by [] = refl
  by_name-filter_by (x ∷ xs) = rw (by_name-filter_by xs) refl

  -- Who the text names among the users: the one with that email address, or, if there is none, the
  -- one whose name contains it.
  abbrev pub IsNamed : List User → User → Type 0
  IsNamed users u =
      In u users
      × (((has_email t wanted u ≡ true)
            × ((v : User) → In v users → has_email t wanted v ≡ true → v ≡ u))
          ⊎ (((v : User) → In v users → has_email t wanted v ≡ false)
              × (has_name t wanted u ≡ true)
              × ((v : User) → In v users → has_name t wanted v ≡ true → v ≡ u)))

  one_user-IsNamed :
      (who : Text) (users emails names : List User) (u : User)
      → filter_by (has_email t wanted) users ≡ emails
      → filter_by (no_email_has_name t wanted) users ≡ names
      → one_user who (matches_of emails names) ≡ done u
      → IsNamed users u
  unfolding one_user matches_of no_email_has_name has_name has_email
  one_user-IsNamed who users [] [] u e n h = absurd (ground arith)
  one_user-IsNamed who users [] (x ∷ []) u e n h =
      let x_u : x ≡ u = ground arith in
      let (i, fits, sole) =
        filter_by-one (no_email_has_name t wanted) users u (n ∙ ap (λ y. y ∷ []) x_u) in
      (
        i,
        inr (
          (λ v j. filter_by-none (has_email t wanted) users v e j),
          ground arith,
          (λ v j name. sole v j (ground (arith, filter_by-none (has_email t wanted) users v e j))),
        ),
      )
  one_user-IsNamed who users [] (x ∷ y ∷ ys) u e n h = absurd (ground arith)
  one_user-IsNamed who users (x ∷ []) names u e n h =
      let x_u : x ≡ u = ground arith in
      let (i, fits, sole) = filter_by-one (has_email t wanted) users u (e ∙ ap (λ y. y ∷ []) x_u) in
      (i, inl (fits, sole))
  one_user-IsNamed who users (x ∷ y ∷ ys) names u e n h = absurd (ground arith)

-- The text of an assignment, as it is compared.
abbrev pub wanted_of : Chars → Text → Text
wanted_of t who = lower_text t (trim_space who)

user_named-IsNamed :
    (t : Chars) (who : Text) (users : List User) (u : User)
    → user_named t who users ≡ done u
    → IsNamed t (wanted_of t who) users u
unfolding user_named
user_named-IsNamed t who users u h =
    one_user-IsNamed t (wanted_of t who) who users (by_email t (wanted_of t who) users)
      (by_name t (wanted_of t who) users) u (sym (by_email-filter_by t (wanted_of t who) users))
      (sym (by_name-filter_by t (wanted_of t who) users)) h

-- What Fizzy promises of assignments: `assigned s n id` says that card n is assigned to the user
-- `id` in the state s. A card that is read has its assignees; a list of users changes nothing; a
-- toggle that succeeds changes one assignment of one card.
pub record AssignmentLaws {S : Type 0} (api : Api S) (assigned : S → ℕ → Text → Bool) : Type 0 where
  pub read :
      (n : ℕ) (s : S) (x : Card) (u : User)
      → (api.card n s).0 ≡ ok x
      → any (is_user u) x.assignees ≡ assigned s n u.id
  pub kept : (n : ℕ) (s : S) (m : ℕ) (id : Text) → assigned (api.card n s).1 m id ≡ assigned s m id
  pub listed : (s : S) (m : ℕ) (id : Text) → assigned (api.users s).1 m id ≡ assigned s m id
  pub turned :
      (n : ℕ) (id : Text) (s : S)
      → (api.assignment n id s).0 ≡ ok tt
      → assigned (api.assignment n id s).1 n id ≡ not (assigned s n id)
  pub others :
      (n : ℕ) (id : Text) (s : S) (m : ℕ) (other : Text)
      → (m == n && same other id) ≡ false
      → assigned (api.assignment n id s).1 m other ≡ assigned s m other

module _ {S : Type 0} (api : Api S) (libs : Libs) (t : Chars) (c : Client) (card : ℕ)
    (assigned : S → ℕ → Text → Bool) (law : AssignmentLaws api assigned) where
  -- The card is assigned to the user, and every other assignment is as it was.
  abbrev pub IsAssigned : ℕ → Text → S → S → Type 0
  IsAssigned n id s s' =
      (assigned s' n id ≡ true)
      × ((m : ℕ) (other : Text)
          → (m == n && same other id) ≡ false
          → assigned s' m other ≡ assigned s m other)

  assign_user-IsAssigned :
      (n : ℕ) (u : User) (s : S) (out : Output)
      → (assign_user api libs t c card n u s).0 ≡ done out
      → IsAssigned n u.id s (assign_user api libs t c card n u s).1
  unfolding assign_user and_then checked
  assign_user-IsAssigned n u s out h = elim (Result-cases (api.card n s).0) [
    | inl (e, failed) ↦ absurd (ground arith)
    | inr (x, found) ↦ elim (Bool-cases (any (is_user u) x.assignees)) [
      | inl there ↦
          let kept : assigned (api.card n s).1 n u.id ≡ true =
            ground (arith, law.kept n s n u.id, law.read n s x u found) in
          rw (found, there) (kept, (λ m other d. law.kept n s m other))
      | inr missing ↦ elim (Result-cases (api.assignment n u.id (api.card n s).1).0) [
        | inl (e, failed) ↦ absurd (ground arith)
        | inr (tt, given) ↦
            let s1 = (api.card n s).1 in
            let turned : assigned (api.assignment n u.id s1).1 n u.id ≡ true =
              ground
                (arith, law.kept n s n u.id, law.read n s x u found, law.turned n u.id s1 given) in
            rw (found, missing, given)
              (turned, (λ m other d. law.others n u.id s1 m other d ∙ law.kept n s m other))
      ]
    ]
  ]

  -- A run of assign_card that succeeds has found the card that is named, and among the users of the
  -- account the only one that the text names; the card is assigned to that user then, whether it was
  -- before or not, and no other assignment is changed.
  pub assign_card-IsAssigned :
      (reference who : Text) (s : S) (out : Output)
      → (assign_card api libs t c card reference who s).0 ≡ done out
      → (n : ℕ) × (users : List User) × (u : User) × (resolve_card c card reference ≡ done n)
        × ((api.users s).0 ≡ ok users)
        × IsNamed t (wanted_of t who) users u
        × IsAssigned n u.id s (assign_card api libs t c card reference who s).1
  unfolding assign_card resolved and_then checked
  assign_card-IsAssigned reference who s out h =
      elim (Outcome-cases (resolve_card c card reference)) [
        | inl (r, bad) ↦ absurd (ground arith)
        | inr (n, found) ↦ elim (Result-cases (api.users s).0) [
          | inl (e, failed) ↦ absurd (ground arith)
          | inr (users, listed) ↦ elim (Outcome-cases (user_named t who users)) [
            | inl (r, unclear) ↦ absurd (ground arith)
            | inr (u, named) ↦
                let s1 = (api.users s).1 in
                let set = assign_user-IsAssigned n u s1 out (ground arith) in
                rw (found, listed, named)
                  (
                    n,
                    users,
                    u,
                    refl,
                    refl,
                    user_named-IsNamed t who users u named,
                    (set.0, (λ m other d. set.1 m other d ∙ law.listed s m other)),
                  )
          ]
        ]
      ]
