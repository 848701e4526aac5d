-- ===== src/Daemon/Worker/Counts.antt =====
-- Counts over the workers of internal/daemon/worker.go.
use fizzy_connector.Base.{
  ℕ, ◌+◌, ◌-◌, ◌<◌, ◌≤◌, ◌≡◌, refl, inl, inr, Bool-cases, List, [], ◌∷◌, ◌++◌, arith, ◌==◌,
  if◌then◌else◌, In,
}
use fizzy_connector.Daemon.Worker.{Place, looping, waiting, working, resting, leaving, Worker}

-- Weighted counts over the workers.
unfoldable pub total : (Worker → ℕ) → List Worker → ℕ
total f [] = 0
total f (w ∷ ws) = f w + total f ws

pub total-append :
    (f : Worker → ℕ) (before after : List Worker) (w : Worker)
    → total f (before ++ w ∷ after) ≡ f w + total f (before ++ after)
unfolding total
total-append f [] after w = refl
total-append f (x ∷ before) after w = omega (arith, total-append f before after w)

abbrev pub is_working : Place → ℕ
is_working working = 1
is_working looping = 0
is_working waiting = 0
is_working resting = 0
is_working leaving = 0

abbrev pub is_leaving : Place → ℕ
is_leaving leaving = 1
is_leaving working = 0
is_leaving looping = 0
is_leaving waiting = 0
is_leaving resting = 0

abbrev pub on : ℕ → Worker → ℕ
on n w = if w.card == n then 1 else 0

-- A worker of the card that will look at its state again.
abbrev pub stays : ℕ → Worker → ℕ
stays n w = if w.card == n then 1 - is_leaving w.place else 0

-- How often a card stands in a list.
unfoldable pub owes : ℕ → List ℕ → ℕ
owes n [] = 0
owes n (m ∷ ms) = (if m == n then 1 else 0) + owes n ms

pub owes-append :
    (n : ℕ) (before after : List ℕ) (m : ℕ)
    → owes n (before ++ m ∷ after) ≡ (if m == n then 1 else 0) + owes n (before ++ after)
unfolding owes
owes-append n [] after m = refl
owes-append n (x ∷ before) after m = omega (arith, owes-append n before after m)

pub In-owes : (n : ℕ) (ms : List ℕ) → In n ms → 0 < owes n ms
unfolding owes
In-owes n [] h = elim h [ ]
In-owes n (m ∷ ms) (inl e) = ground arith
In-owes n (m ∷ ms) (inr h) = omega (arith, In-owes n ms h)

-- A worker either leaves or stays.
pub stays-or-leaves :
    (n : ℕ) (ws : List Worker)
    → total (on n) ws ≤ total (stays n) ws + total (λ w. is_leaving w.place) ws
unfolding total
stays-or-leaves n [] = omega arith
stays-or-leaves n (w ∷ ws) = elim (Bool-cases (w.card == n)) [
  | inl e ↦ ground (arith, stays-or-leaves n ws)
  | inr e ↦ ground (arith, stays-or-leaves n ws)
]
