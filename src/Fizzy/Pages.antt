-- ===== src/Fizzy/Pages.antt =====
-- internal/fizzy/client.go, getAll and BoardMembers: lists that come in pages, linked by a header.
pub mod Laws
use fizzy_connector.Base.{
  ℕ, zero, suc, ◌+◌, Bool, true, false, not, ◌||◌, Option, none, some, List, [], ◌∷◌, ◌++◌, Text,
  codes, leb, ◌==◌, if◌then◌else◌, same, cut_prefix, has_prefix, trim_left, Result, ok, err, Error,
  failed,
}
use fizzy_connector.Fizzy.{User, BoardAccess}
use fizzy_connector.Fizzy.Requests.{Reply, Response, outcome_of}

unfoldable pub take_while : (ℕ → Bool) → Text → Text
take_while p [] = []
take_while p (c ∷ s) = let rest = take_while p s in if p c then c ∷ rest else []

unfoldable pub drop_while : (ℕ → Bool) → Text → Text
drop_while p [] = []
drop_while p (c ∷ s) = let rest = drop_while p s in if p c then rest else c ∷ s

-- `\s` of package regexp.
is_blank : ℕ → Bool
is_blank c = c == 9 || c == 10 || c == 12 || c == 13 || c == 32

unfoldable pub not_close : ℕ → Bool
not_close c = not (c == b'>')

-- `<([^>]+)>;\s*rel="next"` at the start of a text: the group, if it matches.
link_end : Text → Option Text → Option Text
unfolding is_blank drop_while
link_end u none = none
link_end u (some rest) =
    if same u [] || not (has_prefix (drop_while is_blank rest) (codes "rel=\"next\""))
    then none
    else some u

unfoldable pub link_at : Text → Option Text
unfolding link_end take_while drop_while not_close
link_at [] = none
link_at (c ∷ s) =
    if c == b'<'
    then link_end (take_while not_close s) (cut_prefix (drop_while not_close s) (codes ">;"))
    else none

-- `nextLink`: the group of the leftmost match, or the empty text.
unfoldable pub next_link : Text → Text
unfolding link_at
next_link [] = []
next_link (c ∷ s) = let rest = next_link s in elim (link_at (c ∷ s)) [ none ↦ rest | some u ↦ u ]

module _ {A : Type 0} (decode : Text → Option (List A)) where
  -- One page: its items, and the address of the next.
  unfoldable pub page_of : Result Response → Result (List A × Text)
  page_of (err e) = err e
  page_of (ok r) = elim (decode r.body) [
    | none ↦ err (failed (codes "json"))
    | some items ↦ ok (items, next_link r.link)
  ]

  -- The loop of `getAll`; none means that the fuel ran out.
  unfoldable pub get_all : (Text → Reply) → ℕ → Text → List A → Option (Result (List A))
  unfolding page_of
  get_all server zero url all = none
  get_all server (suc fuel) url all =
      if same url [] then some (ok all) else elim (page_of (outcome_of (server url))) [
        | err e ↦ some (err e)
        | ok page ↦ get_all server fuel page.1 (all ++ page.0)
      ]

-- The accesses of one page that count.
unfoldable pub with_access : List BoardAccess → List User
with_access [] = []
with_access (a ∷ rest_of) =
    let rest = with_access rest_of in if a.has_access then a.user ∷ rest else rest

-- The loop of `BoardMembers`.
unfoldable pub board_members :
    (Text → Option (List BoardAccess))
    → (Text → Reply)
    → ℕ
    → Text
    → List User
    → Option (Result (List User))
unfolding page_of with_access
board_members decode server zero url members = none
board_members decode server (suc fuel) url members =
    if same url [] then some (ok members) else elim (page_of decode (outcome_of (server url))) [
      | err e ↦ some (err e)
      | ok page ↦ board_members decode server fuel page.1 (members ++ with_access page.0)
    ]
