-- ===== src/Daemon/Fetch/Resume.antt =====
-- internal/daemon/daemon.go, resumeQueues: what a start knows.
use fizzy_connector.Base.{
  ℕ, ◌≡◌, refl, sym, inl, inr, true, List, [], ◌∷◌, arith, if_rule, In, In-append_left,
  In-append_right, subst,
}
use fizzy_connector.Store.{CardState}
use fizzy_connector.Daemon.Effects.{Sys, Sent, kicked}
use fizzy_connector.Daemon.Fetch.{resume, has_work}

-- What a start knows of a card: it was kicked if it has work, and has its mark if it needs a scan.
abbrev pub IsResumed : CardState → Sys → Type 0
IsResumed state s =
    (has_work state ≡ true → In (kicked state.number) s.sent)
    × (state.needs_scan ≡ true → s.pending_scans state.number ≡ true)

resume-keeps :
    (states : List CardState) (s : Sys)
    → ((x : Sent) → In x s.sent → In x (resume states s).sent)
      × ((n : ℕ) → s.pending_scans n ≡ true → (resume states s).pending_scans n ≡ true)
unfolding resume
resume-keeps [] s = ((λ x i. i), (λ n h. h))
resume-keeps (state ∷ states) s =
    let (kicks, marks) = resume-keeps states _ in
    (
      (λ x i.
          kicks x (
            if_rule (λ l. In x l) (has_work state) _ _ (λ e. In-append_left x s.sent _ i)
              (λ e. i))),
      (λ n h. marks n (ground arith)),
    )

-- A start loses no work: among the states that the store lists, each card with items in its queue or
-- with a reply to deliver is kicked, and each that needs a scan is marked for one.
pub resume-IsResumed :
    (states : List CardState) (s : Sys) (state : CardState)
    → In state states
    → IsResumed state (resume states s)
unfolding resume
resume-IsResumed [] s state i = elim i [ ]
resume-IsResumed (x ∷ states) s state (inr i) = resume-IsResumed states _ state i
resume-IsResumed (x ∷ states) s state (inl e) =
    let (kicks, marks) = resume-keeps states _ in
    subst (λ y. IsResumed y (resume (x ∷ states) s)) (sym e)
      (
        (λ h.
            kicks (kicked x.number) (rw h (In-append_right (kicked x.number) s.sent _ (inl refl)))),
        (λ h. marks x.number (ground arith)),
      )
