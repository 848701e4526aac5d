-- ===== src/Setup/Init/Laws/Ends.antt =====
-- internal/setup/setup.go: how a run of Init ends.
use fizzy_connector.Base.{
  ◌≡◌, ◌≢◌, ◌⊎◌, inl, inr, refl, false, none, some, [], Text, if◌then◌else◌, if_rule, same,
  same_iff, arith, Result, ok, err, Error,
}
use fizzy_connector.Config.{Config}
use fizzy_connector.Setup.Prompts.{Talk, P, giving, and_do, ◌>>=◌}
use fizzy_connector.Setup.Frames.{SameFiles}
use fizzy_connector.Setup.Accounts.{Kit}
use fizzy_connector.Setup.Init.{
  Machine, Written, unopened, broken, whole, init_dialogue, written, saved, write_config,
  save_session, init,
}
use fizzy_connector.Setup.Init.Laws.{IsSafe, init_dialogue-IsSafe, init_dialogue-KeepsFiles}

module _ {S : Type 0} (kit : Kit S) (m : Machine) where
  -- The ends of a run from a dialogue t: with the files as they were; with a write of the configuration
  -- that failed; with the configuration alone; with a login that was not saved; and with both.
  pub data InitEnds (t : Talk S) : Result (Unit {0}) × Talk S → Type 0 where
    refused : (e : Error) (u : Talk S) → SameFiles t u → InitEnds t (err e, u)
    unwritten :
        (e : Error) (u : Talk S)
        → u.config_file ≡ none
        → u.session_file ≡ t.session_file
        → InitEnds t (err e, u)
    settled :
        (cfg : Config) (u : Talk S)
        → IsSafe kit m cfg
        → u.config_file ≡ some cfg
        → u.session_file ≡ t.session_file
        → InitEnds t (ok tt, u)
    unsaved :
        (cfg : Config) (e : Error) (u : Talk S)
        → IsSafe kit m cfg
        → u.config_file ≡ some cfg
        → (u.session_file ≡ t.session_file) ⊎ (u.session_file ≡ none)
        → InitEnds t (err e, u)
    logged_in :
        (cfg : Config) (session : Text) (u : Talk S)
        → IsSafe kit m cfg
        → session ≢ []
        → u.config_file ≡ some cfg
        → u.session_file ≡ some session
        → InitEnds t (ok tt, u)

  saved-InitEnds :
      (t u : Talk S) (cfg : Config) (session : Text) (r : Written)
      → IsSafe kit m cfg
      → session ≢ []
      → u.config_file ≡ some cfg
      → u.session_file ≡ t.session_file
      → InitEnds t (saved session r u)
  unfolding saved
  saved-InitEnds t u cfg session (unopened e) safe given c s = unsaved cfg e u safe c (inl s)
  saved-InitEnds t u cfg session (broken e) safe given c s =
      unsaved cfg e (record u { session_file = none }) safe c (inr refl)
  saved-InitEnds t u cfg session whole safe given c s =
      logged_in cfg session (record u { session_file = some session }) safe given c refl

  is_given : (session : Text) → same session [] ≡ false → session ≢ []
  is_given session e none_left = absurd (ground (arith, same_iff session []))

  -- What comes after the write of the configuration.
  after_write : Config → Text → P S (Unit {0})
  after_write cfg session =
      if same session [] then giving (ok tt) else save_session kit m cfg session

  written-InitEnds :
      (t u : Talk S) (cfg : Config) (session : Text) (r : Written)
      → IsSafe kit m cfg
      → SameFiles t u
      → InitEnds t (and_do (written cfg r u) (λ _. after_write cfg session))
  unfolding written after_write giving save_session
  written-InitEnds t u cfg session (unopened e) safe (c, s) = refused e u (c, s)
  written-InitEnds t u cfg session (broken e) safe (c, s) = unwritten e _ refl s
  written-InitEnds t u cfg session whole safe (c, s) =
      let now : Talk S = record u { config_file = some cfg } in
      if_rule (λ p. InitEnds t (p now)) (same session []) (giving (ok tt))
        (save_session kit m cfg session) (λ e. settled cfg now safe refl s)
        (λ e.
          saved-InitEnds t now cfg session (m.save_session cfg session) safe (is_given session e)
            refl s)

  of_dialogue-InitEnds :
      (t : Talk S) (r : Result (Config × Text) × Talk S)
      → SameFiles t r.1
      → ((settings : Config × Text) → r.0 ≡ ok settings → IsSafe kit m settings.0)
      → InitEnds t (
          and_do r (λ settings.
            write_config kit m settings.0 >>= (λ _. after_write settings.0 settings.1)))
  unfolding write_config ◌>>=◌
  of_dialogue-InitEnds t (err e, u) kept safe = refused e u kept
  of_dialogue-InitEnds t (ok (cfg, session), u) kept safe =
      written-InitEnds t u cfg session (m.write_config cfg) (safe (cfg, session) refl) kept

  -- However Init ends, one of these holds: it is an error, and the files of the configuration and of the login are
  -- as they were; it is an error, the write of the configuration broke and left none, and the file of the login is as it
  -- was; or the configuration that is written trusts one or more of the active people whom Fizzy lists in the
  -- account of the bot and nobody else, does not trust the bot, and has a directory that is there. It succeeds
  -- only in the last case: then a login that is not empty is saved, or the file of the login is as it was.
  -- In that case it is an error when the login was not saved, and its file is as it was or was lost.
  pub init-InitEnds : (t : Talk S) → InitEnds t (init kit m t)
  unfolding init after_write ◌>>=◌
  init-InitEnds t =
      of_dialogue-InitEnds t (init_dialogue kit m t) (init_dialogue-KeepsFiles kit m t)
        (λ settings h. init_dialogue-IsSafe kit m t settings.0 settings.1 h)
