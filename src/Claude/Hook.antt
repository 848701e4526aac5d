-- ===== src/Claude/Hook.antt =====
-- internal/claude/hook.go: the hook that runs after each tool call.
use fizzy_connector.Base.{
  ℕ, ◌+◌, ◌-◌, ◌*◌, ◌/◌, ◌≤◌, ◌<◌, ◌≡◌, Option, none, some, List, [], ◌∷◌, ◌++◌, Text, codes, arith,
  ltb, if◌then◌else◌, same, join, Result, ok, err,
}
use fizzy_connector.Config.{minute}
use fizzy_connector.Ipc.{Response}

-- A time of the environment, as time.Parse reads it; the clock shows a time as text.
pub record Surroundings : Type 0 where
  pub now : ℕ
  pub deadline : Option ℕ
  pub warn_at : Option ℕ
  pub clock : ℕ → Text
  pub minutes : ℕ → Text
  pub socket : Text
  pub token_file : Text
  pub token : Result Text
  pub answer : Result Response

-- Duration.Round(time.Minute), half away from zero, on a duration that is not negative. A negative
-- duration rounds to less than a minute, as zero does.
pub round_minute : ℕ → ℕ
round_minute d = (d + minute / 2) / minute * minute

pub data DeadlineNote : Type 0 where
  quiet : DeadlineNote
  last_minute : ℕ → DeadlineNote
  time_left : ℕ → ℕ → DeadlineNote

warn : ℕ → ℕ → ℕ → DeadlineNote
unfolding round_minute
warn now deadline warn_at =
    let left = round_minute (deadline - now) in
    if ltb now warn_at
    then quiet
    else if ltb left minute
    then last_minute deadline
    else time_left deadline left

unfoldable pub deadline_note : Surroundings → DeadlineNote
unfolding warn
deadline_note s = elim s.deadline [
  | none ↦ quiet
  | some deadline ↦ elim s.warn_at [ none ↦ quiet | some warn_at ↦ warn s.now deadline warn_at ]
]

unfoldable pub note_text : Surroundings → DeadlineNote → Text
note_text s quiet = []
note_text s (last_minute d) =
    codes "This turn is stopped at "
    ++ s.clock d
    ++ codes ", in less than a minute. Post your reply now."
note_text s (time_left d left) =
    codes "This turn is stopped at "
    ++ s.clock d
    ++ codes ", in about "
    ++ s.minutes left
    ++ codes
        ". Nothing that you do after that is saved. Commit the work that is finished now, and post your reply now, even if the work is incomplete."

unfoldable pub check_with_daemon : Surroundings → Text
check_with_daemon s =
    if same s.socket [] then [] else if same s.token_file [] then [] else elim s.token [
      | err e ↦ []
      | ok token ↦ elim s.answer [ err e ↦ [] | ok response ↦ response.message ]
    ]

append_note : List Text → Text → List Text
append_note notes note = if same note [] then notes else notes ++ note ∷ []

-- `TurnHook`: the context that the hook adds, if any.
unfoldable pub turn_hook : Surroundings → Option Text
unfolding append_note
turn_hook s =
    let notes =
      append_note (append_note [] (check_with_daemon s)) (note_text s (deadline_note s)) in
    elim notes [ [] ↦ none | n ∷ ns ↦ some (join (codes "\n\n") (n ∷ ns)) ]

-- With both times set, the hook is quiet before the warning time; from then on it speaks, and from
-- half a minute before the deadline on it asks for the reply at once.
pub deadline_note_lem :
    (s : Surroundings) (deadline warn_at : ℕ)
    → s.deadline ≡ some deadline
    → s.warn_at ≡ some warn_at
    → (s.now < warn_at → deadline_note s ≡ quiet)
      × (warn_at ≤ s.now
          → s.now + 30_000_000_000 ≤ deadline
          → deadline_note s ≡ time_left deadline (round_minute (deadline - s.now)))
      × (warn_at ≤ s.now
          → deadline < s.now + 30_000_000_000
          → deadline_note s ≡ last_minute deadline)
unfolding deadline_note
deadline_note_lem s deadline warn_at d w =
    rw (d, w, deadline_note) ((λ h. ground arith), (λ h k. ground arith), (λ h k. ground arith))
