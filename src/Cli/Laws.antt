-- ===== src/Cli/Laws.antt =====
-- cmd/fizzy-connector/main.go: what reset does to a card, and to the commands behind it.
use fizzy_connector.Base.{
  ℕ, ◌≡◌, ◌≢◌, refl, sym, ap, subst, ◌∙◌, false, Text, arith, Result, ok, err,
}
use fizzy_connector.Config.{Config}
use fizzy_connector.Store.{CardState, Store, get, reset_session}
use fizzy_connector.Store.Laws.{IsKept, get-update, update-done}
use fizzy_connector.Cli.{
  parse_card_number, with_card, reset_card, reset, Shell, no_session, attach_card, attach,
}

-- A state under a new session: the id is the new one, the session has not started, the prompt begins
-- again, and all else is as it was.
abbrev pub IsRestart : Text → CardState → CardState → Type 0
IsRestart fresh before after =
    (after.session_id ≡ fresh)
    × (after.session_started ≡ false)
    × (after.prompted_until ≡ 0)
    × (before ≡ record after {
      session_id = before.session_id;
      session_started = before.session_started;
      prompted_until = before.prompted_until;
    })

reset_session-IsRestart :
    (fresh : Text) (before : CardState) → IsRestart fresh before (reset_session fresh before)
unfolding reset_session
reset_session-IsRestart fresh before = (refl, refl, refl, refl)

attach_card-fresh :
    (sh : Shell) (cfg : Config) (n : ℕ) (state : CardState)
    → state.session_started ≡ false
    → attach_card sh cfg n (ok state) ≡ err no_session
unfolding attach_card
attach_card-fresh sh cfg n state h = rw h refl

reset_session-number : (fresh : Text) (c : CardState) → (reset_session fresh c).number ≡ c.number
unfolding reset_session
reset_session-number fresh c = refl

-- What a reset does, when its argument is read as r.
abbrev IsResetAs : Shell → Config → Text → Result ℕ → Store → CardState → Type 0
IsResetAs sh cfg fresh r s after =
    (n : ℕ) × (before : CardState) × (r ≡ ok n)
    × (get s n ≡ ok before)
    × IsRestart fresh before after
    × (get (reset_card fresh r s).1 n ≡ ok after)
    × ((m : ℕ) → m ≢ n → get (reset_card fresh r s).1 m ≡ get s m)
    × (with_card r (ok (reset_card fresh r s).1) (λ k t. attach_card sh cfg k (get t k))
        ≡ err no_session)

reset_card-IsResetAs :
    (sh : Shell) (cfg : Config) (fresh : Text) (r : Result ℕ) (s : Store) (after : CardState)
    → IsKept s
    → (reset_card fresh r s).0 ≡ ok after
    → IsResetAs sh cfg fresh r s after
unfolding reset_card with_card
reset_card-IsResetAs sh cfg fresh (err e) s after kept done = absurd (ground arith)
reset_card-IsResetAs sh cfg fresh (ok n) s after kept done =
    let keeps = reset_session-number fresh in
    let (before, found, change, later) =
      update-done s n (reset_session fresh) after kept keeps done in
    let (_, _, others) = get-update s n (reset_session fresh) before after kept keeps found done in
    let restart =
      subst (IsRestart fresh before) (sym change) (reset_session-IsRestart fresh before) in
    let (_, is_new, _, _) = restart in
    (
      n,
      before,
      refl,
      found,
      restart,
      later,
      others,
      ap (attach_card sh cfg n) later ∙ attach_card-fresh sh cfg n after is_new,
    )

-- What a reset does to a store, by the text of its argument.
abbrev pub IsReset : Shell → Config → Text → Text → Store → CardState → Type 0
IsReset sh cfg fresh arg s after =
    (n : ℕ) × (before : CardState) × (parse_card_number arg ≡ ok n)
    × (get s n ≡ ok before)
    × IsRestart fresh before after
    × (get (reset fresh arg s).1 n ≡ ok after)
    × ((m : ℕ) → m ≢ n → get (reset fresh arg s).1 m ≡ get s m)
    × (attach sh cfg (ok (reset fresh arg s).1) arg ≡ err no_session)

-- In a store whose files hold their own cards: a reset that succeeds has a card number as its argument, and
-- gives the card a new session and keeps all else of it, also on disk; no other card differs; and there is
-- no session to attach to then.
pub attach-reset :
    (sh : Shell) (cfg : Config) (fresh arg : Text) (s : Store) (after : CardState)
    → IsKept s
    → (reset fresh arg s).0 ≡ ok after
    → IsReset sh cfg fresh arg s after
unfolding reset attach
attach-reset sh cfg fresh arg s after kept done =
    reset_card-IsResetAs sh cfg fresh (parse_card_number arg) s after kept done
