-- ===== src/Setup/Init/Laws/Logins.antt =====
-- internal/setup/setup.go: how a run of Login ends.
use fizzy_connector.Base.{
  ◌≡◌, inl, inr, refl, ◌∙◌, true, Bool-cases, none, some, [], Text, arith, Result, ok, err, Error,
}
use fizzy_connector.Config.{Config}
use fizzy_connector.Fizzy.{Identity}
use fizzy_connector.Fizzy.Client.{identity_of}
use fizzy_connector.Fizzy.Session.{notification_stream_name}
use fizzy_connector.Setup.Prompts.{Talk, P, giving, calling, and_do, ◌>>=◌}
use fizzy_connector.Setup.Prompts.Laws.{bind-ok}
use fizzy_connector.Setup.Frames.{
  SameFiles, KeepsFiles, ask_required-KeepsFiles, calling-KeepsFiles, magic_link_login-KeepsFiles,
  verify_session_user-KeepsFiles, bot_email-SameFiles,
}
use fizzy_connector.Setup.Accounts.{
  Kit, client_at, session_client, is_bot_account, verify_session_user, bot_email,
}
use fizzy_connector.Setup.Init.{
  Machine, Written, unopened, broken, whole, saved, save_session, with_email, login,
}

module _ {S : Type 0} (kit : Kit S) (m : Machine) (cfg : Config) where
  -- A session that Fizzy takes as one of the bot, and with which it gives the stream of the notifications.
  abbrev pub IsBotSession : Text → Type 0
  IsBotSession session =
      (s s' : S) × (identity : Identity) × ((identity_of kit.server kit.codec
          (session_client cfg.base_url cfg.account_slug session) s).0
        ≡ ok identity)
      × (is_bot_account cfg.bot_user_id identity.accounts ≡ true)
      × (name : Text) × ((notification_stream_name kit.browse kit.unescape
            (client_at cfg.base_url cfg.account_slug []) session s').0
          ≡ ok name)

  -- The ends of a run from a dialogue t: with the files as they were, with a login that is lost in its write,
  -- or with one that is saved.
  pub data LoginEnds (t : Talk S) : Result (Unit {0}) × Talk S → Type 0 where
    refused : (e : Error) (u : Talk S) → SameFiles t u → LoginEnds t (err e, u)
    lost :
        (e : Error) (session : Text) (u : Talk S)
        → IsBotSession session
        → u.config_file ≡ t.config_file
        → u.session_file ≡ none
        → LoginEnds t (err e, u)
    logged_in :
        (session : Text) (u : Talk S)
        → IsBotSession session
        → u.config_file ≡ t.config_file
        → u.session_file ≡ some session
        → LoginEnds t (ok tt, u)

  and_do-LoginEnds :
      {A : Type 0} (t : Talk S) (r : Result A × Talk S) (f : A → P S (Unit {0}))
      → SameFiles t r.1
      → ((a : A) (u : Talk S) → r.0 ≡ ok a → SameFiles t u → LoginEnds t (f a u))
      → LoginEnds t (and_do r f)
  and_do-LoginEnds t (err e, u) f kept next = refused e u kept
  and_do-LoginEnds t (ok a, u) f kept next = next a u refl kept

  bind-LoginEnds :
      {A : Type 0} (q : P S A) (f : A → P S (Unit {0})) (t u : Talk S)
      → KeepsFiles q
      → SameFiles t u
      → ((a : A) (v : Talk S) → (q u).0 ≡ ok a → SameFiles t v → LoginEnds t (f a v))
      → LoginEnds t ((q >>= f) u)
  unfolding ◌>>=◌
  bind-LoginEnds q f t u keeps (c, s) next =
      let (c', s') = keeps u in and_do-LoginEnds t (q u) f (c' ∙ c, s' ∙ s) next

  verify_session_user-ok :
      (session : Text) (t : Talk S) (a : Unit {0})
      → (verify_session_user kit cfg session t).0 ≡ ok a
      → (identity : Identity) × ((identity_of kit.server kit.codec
            (session_client cfg.base_url cfg.account_slug session)
            t.fizzy).0
          ≡ ok identity)
        × (is_bot_account cfg.bot_user_id identity.accounts ≡ true)
  unfolding verify_session_user calling giving
  verify_session_user-ok session t a h =
      let (identity, got, rest) = bind-ok _ _ t a h in
      elim (Bool-cases (is_bot_account cfg.bot_user_id identity.accounts)) [
        | inl e ↦ (identity, got, e)
        | inr e ↦ absurd (ground arith)
      ]

  saved-LoginEnds :
      (t u : Talk S) (session : Text) (r : Written)
      → SameFiles t u
      → IsBotSession session
      → LoginEnds t (saved session r u)
  unfolding saved
  saved-LoginEnds t u session (unopened e) kept proved = refused e u kept
  saved-LoginEnds t u session (broken e) (c, s) proved =
      lost e session (record u { session_file = none }) proved c refl
  saved-LoginEnds t u session whole (c, s) proved =
      logged_in session (record u { session_file = some session }) proved c refl

  with_email-LoginEnds :
      (t : Talk S) (r : Text × Talk S) → SameFiles t r.1 → LoginEnds t (with_email kit m cfg r)
  unfolding with_email save_session calling
  with_email-LoginEnds t (fallback, u) kept =
      bind-LoginEnds _ _ t u (ask_required-KeepsFiles kit.ended fallback) kept (λ email u1 _ kept1.
        bind-LoginEnds _ _ t u1 (magic_link_login-KeepsFiles kit cfg.base_url email) kept1
          (λ session u2 _ kept2.
            bind-LoginEnds _ _ t u2 (verify_session_user-KeepsFiles kit cfg session) kept2
              (λ a u3 verified kept3.
                bind-LoginEnds _ _ t u3
                  (calling-KeepsFiles (
                    notification_stream_name kit.browse kit.unescape
                      (client_at cfg.base_url cfg.account_slug []) session))
                  kept3
                  (λ name u4 streamed kept4.
                    let (identity, got, is_bot) = verify_session_user-ok session u2 a verified in
                    saved-LoginEnds t u4 session (m.save_session cfg session) kept4
                      (u2.fizzy, u3.fizzy, identity, got, is_bot, name, streamed)))))

  -- Login ends in one of three ways, and the configuration stays as it was in each: it is an error and the file
  -- of the login is as it was; it succeeds and saves a session, for which Fizzy said that it is one of the
  -- bot of the configuration and to which it gave the name of the stream of its notifications; or the
  -- write of such a session failed and left no login.
  pub login-LoginEnds : (t : Talk S) → LoginEnds t (login kit m cfg t)
  unfolding login
  login-LoginEnds t = with_email-LoginEnds t (bot_email kit cfg t) (bot_email-SameFiles kit cfg t)
