-- ===== src/Mcpserver/Actions/Tags.antt =====
-- internal/mcpserver/actions.go, setTag: the tag of a card, over a toggle of Fizzy.
use fizzy_connector.Base.{
  ℕ, ◌≡◌, refl, ◌∙◌, inl, inr, Bool, false, not, ◌&&◌, ◌||◌, Bool-cases, Text, [], arith, ◌==◌,
  same, ok, Result-cases,
}
use fizzy_connector.Fizzy.{Card, Libs}
use fizzy_connector.Fizzy.Requests.{Client}
use fizzy_connector.Mcpserver.Results.{Api, Output, done, Outcome-cases, checked, and_then}
use fizzy_connector.Mcpserver.References.{resolve_card}
use fizzy_connector.Mcpserver.Actions.{
  Chars, equal_fold, is_tagged, tag_of, resolved, toggle_to, set_tag,
}

-- What Fizzy promises of the tags of its cards: `tagged s n title` says that card n has the tag in
-- the state s, up to case. A card that is read has them; a toggle that succeeds changes one tag of
-- one card.
pub record TagLaws {S : Type 0} (api : Api S) (t : Chars) (tagged : S → ℕ → Text → Bool)
    : Type 0 where
  pub read :
      (n : ℕ) (s : S) (x : Card) (title : Text)
      → (api.card n s).0 ≡ ok x
      → is_tagged t title x.tags ≡ tagged s n title
  pub kept :
      (n : ℕ) (s : S) (m : ℕ) (other : Text) → tagged (api.card n s).1 m other ≡ tagged s m other
  pub turned :
      (n : ℕ) (title : Text) (s : S)
      → (api.tagging n title s).0 ≡ ok tt
      → tagged (api.tagging n title s).1 n title ≡ not (tagged s n title)
  pub others :
      (n : ℕ) (title : Text) (s : S) (m : ℕ) (other : Text)
      → (m == n && equal_fold t other title) ≡ false
      → tagged (api.tagging n title s).1 m other ≡ tagged s m other

module _ {S : Type 0} (api : Api S) (libs : Libs) (t : Chars) (c : Client) (card : ℕ)
    (tagged : S → ℕ → Text → Bool) (law : TagLaws api t tagged) where
  -- The tag of one card is as wanted, and every other tag is as it was.
  abbrev pub IsTagged : Bool → ℕ → Text → S → S → Type 0
  IsTagged wanted n title s s' =
      (tagged s' n title ≡ wanted)
      × ((m : ℕ) (other : Text)
          → (m == n && equal_fold t other title) ≡ false
          → tagged s' m other ≡ tagged s m other)

  toggle_to-IsTagged :
      (wanted : Bool) (n : ℕ) (title : Text) (s : S) (out : Output)
      → (toggle_to api libs t c card wanted n title s).0 ≡ done out
      → IsTagged wanted n title s (toggle_to api libs t c card wanted n title s).1
  unfolding toggle_to and_then checked
  toggle_to-IsTagged wanted n title s out h = elim (Result-cases (api.card n s).0) [
    | inl (e, failed) ↦ absurd (ground arith)
    | inr (x, found) ↦
        elim (Bool-cases (
          (is_tagged t title x.tags && wanted) || (not (is_tagged t title x.tags) && not wanted))) [
            | inl same_as ↦
                let kept : tagged (api.card n s).1 n title ≡ wanted =
                  ground (arith, law.kept n s n title, law.read n s x title found) in
                rw (found, same_as) (kept, (λ m other d. law.kept n s m other))
            | inr differs ↦ elim (Result-cases (api.tagging n title (api.card n s).1).0) [
              | inl (e, failed) ↦ absurd (ground arith)
              | inr (tt, ok_tag) ↦
                  let s1 = (api.card n s).1 in
                  let turned : tagged (api.tagging n title s1).1 n title ≡ wanted = ground (
                    arith,
                    law.kept n s n title,
                    law.read n s x title found,
                    law.turned n title s1 ok_tag,
                  ) in
                  rw (found, differs, ok_tag)
                    (turned, (λ m other d. law.others n title s1 m other d ∙ law.kept n s m other))
            ]
          ]
  ]

  -- A run of set_tag that succeeds has found the card that is named, has left its tag as wanted,
  -- whatever it was before, and has changed no other tag of any card.
  pub set_tag-IsTagged :
      (wanted : Bool) (reference tag : Text) (s : S) (out : Output)
      → (set_tag api libs t c card wanted reference tag s).0 ≡ done out
      → (n : ℕ) × (resolve_card c card reference ≡ done n)
        × IsTagged wanted n (tag_of tag) s (set_tag api libs t c card wanted reference tag s).1
  unfolding set_tag resolved and_then
  set_tag-IsTagged wanted reference tag s out h =
      elim (Outcome-cases (resolve_card c card reference)) [
        | inl (r, bad) ↦ absurd (ground arith)
        | inr (n, found) ↦ elim (Bool-cases (same (tag_of tag) [])) [
          | inl e ↦ absurd (ground arith)
          | inr e ↦
              let set = toggle_to-IsTagged wanted n (tag_of tag) s out (ground arith) in
              rw (found, e) (n, refl, set)
        ]
      ]
