-- ===== src/Daemon/Effects.antt =====
-- What the handlers of the daemon do to the world: a monad over the store and the calls made to
-- Fizzy, with errors. What Fizzy answers is an argument of each call.
use fizzy_connector.Base.{
  ℕ, ◌≡◌, refl, Bool, List, [], ◌∷◌, ◌++◌, Text, arith, Result, ok, err, Option, none, some, ◌==◌,
  if◌then◌else◌,
}
use fizzy_connector.Store.{Store, CardState, get, update, new_state}

-- A call that changes something in Fizzy, or `kicked`: the worker of a card is woken.
pub data Sent : Type 0 where
  commented : ℕ → Text → Sent
  reacted_to_card : ℕ → Sent
  reacted_to_comment : ℕ → Text → Sent
  toggled_assignment : ℕ → Text → Sent
  marked_read : Text → Sent
  kicked : ℕ → Sent

pub record Sys : Type 0 where
  pub store : Store
  pub sent : List Sent
  pub pending_scans : ℕ → Bool

abbrev pub M : Type 0 → Type 0
M A = Sys → Result A × Sys

abbrev pub bind : {A B : Type 0} → Result A × Sys → (A → M B) → Result B × Sys
bind (err e, s) f = (err e, s)
bind (ok a, s) f = f a s

-- A step after a step that succeeds as a whole.
pub bind-ok :
    (A B : Type 0) (r : Result A × Sys) (f : A → M B) (b : B)
    → (bind r f).0 ≡ ok b
    → (a : A) × (r.0 ≡ ok a) × ((f a r.1).0 ≡ ok b) × (bind r f ≡ f a r.1)
bind-ok A B (ok a, s) f b h = (a, refl, h, refl)
bind-ok A B (err e, s) f b h = ground arith

infixl 5 ◌>>=◌ ◌>>◌
abbrev pub ◌>>=◌ : {A B : Type 0} → M A → (A → M B) → M B
◌>>=◌ m f s = bind (m s) f

abbrev pub ◌>>◌ : {B : Type 0} → M (Unit {0}) → M B → M B
◌>>◌ m k s = bind (m s) (λ _. k)

abbrev pub pure : {A : Type 0} → A → M A
pure a s = (ok a, s)

-- The outcome of a call that changes nothing.
abbrev pub lift : {A : Type 0} → Result A → M A
lift r s = (r, s)

unfoldable pub send : {A : Type 0} → Sent → Result A → M A
send x outcome s = (outcome, record s { sent = s.sent ++ x ∷ [] })

unfoldable pub get_card : ℕ → M CardState
get_card n s = (get s.store n, s)

updated : Sys → Result CardState × Store → Result CardState × Sys
updated s (r, store) = (r, record s { store = store })

unfoldable pub update_card : ℕ → (CardState → CardState) → M CardState
unfolding updated
update_card n change s = updated s (update s.store n change)

-- What the rest of the daemon does to a card between two steps of a handler.
unfoldable pub changed : Option CardState → ℕ → (CardState → CardState) → CardState
changed none n f = f (new_state n)
changed (some c) n f = f c

unfoldable pub meanwhile : ℕ → (CardState → CardState) → M (Unit {0})
unfolding changed
meanwhile n f s =
    let after = changed (s.store.file n) n f in
    (
      ok tt,
      record s {
        store = record s.store { file = λ m. if m == n then some after else s.store.file m };
      },
    )
