-- ===== src/Config/DataDir/Migration.antt =====
-- internal/config/config.go, migrateLegacyState: a migration that stops goes on at the next start.
use fizzy_connector.Base.{
  ℕ, zero, suc, ◌≤◌, ◌≡◌, refl, sym, ap, ◌∙◌, subst, false, Option, none, some, List, [], ◌∷◌, Text,
  arith, same_refl,
}
use fizzy_connector.Config.DataDir.{
  Dir, no_entries, Disk, End, finished, Run, change, open_staging, put_cards, put_logs,
  put_session_token, put_identity, put_data_dir, rename_previous, move_cards, move_logs,
  move_session_token, write_staged, commit, move_all, migrate_staged, migrate_legacy_state,
  make_data_dir, prepare_data_dir,
}

-- A state of the migration, from where the entries are.
abbrev pub at_rest : Dir → Option Dir → Option Dir → Disk
at_rest old staging data_dir = record {
  old = old;
  previous = none;
  data_dir = data_dir;
  staging = staging;
  foreign = false;
}

abbrev dir_of : Option Text → Option Text → Option Text → Option Text → Dir
dir_of cards logs token id = record {
  cards = cards;
  logs = logs;
  session_token = token;
  identity_file = id;
}

-- How far a migration is: the first layout; a temporary directory that is empty; the cards in it, the
-- logs, the token, an empty identity file, and the identity; and the data directory.
pub data Stage : Type 0 where
  first_layout opened cards_in logs_in token_in identity_opened identity_in migrated : Stage

module _ (id cards : Text) (l t : Option Text) where
  abbrev pub disk_at : Stage → Disk
  disk_at first_layout = at_rest (dir_of (some cards) l t none) none none
  disk_at opened = at_rest (dir_of (some cards) l t none) (some no_entries) none
  disk_at cards_in = at_rest (dir_of none l t none) (some (dir_of (some cards) none none none)) none
  disk_at logs_in = at_rest (dir_of none none t none) (some (dir_of (some cards) l none none)) none
  disk_at token_in = at_rest no_entries (some (dir_of (some cards) l t none)) none
  disk_at identity_opened = at_rest no_entries (some (dir_of (some cards) l t (some []))) none
  disk_at identity_in = at_rest no_entries (some (dir_of (some cards) l t (some id))) none
  disk_at migrated = at_rest no_entries none (some (dir_of (some cards) l t (some id)))

  -- A run that ends at a stage, and that is done when it may make j changes.
  abbrev pub GoesOn : ℕ → ℕ → End × Disk → Type 0
  GoesOn j k r = ((m : Stage) × (r.1 ≡ disk_at m)) × (j ≤ k → r ≡ (finished, disk_at migrated))

  change-GoesOn :
      (j : ℕ) (m n : Stage) (f : Disk → Disk) (rest : Run) (k : ℕ)
      → f (disk_at m) ≡ disk_at n
      → ((k : ℕ) → GoesOn j k (rest k (disk_at n)))
      → GoesOn (suc j) k (change f rest k (disk_at m))
  unfolding change
  change-GoesOn j m n f rest zero e later = ((m, refl), (λ h. absurd (omega arith)))
  change-GoesOn j m n f rest (suc k) e later =
      subst (λ d. GoesOn (suc j) (suc k) (rest k d)) (sym e)
        ((later k).0, (λ h. (later k).1 (omega arith)))

  weaken : (i j k : ℕ) (r : End × Disk) → i ≤ j → GoesOn i k r → GoesOn j k r
  weaken i j k r le g = (g.0, (λ h. g.1 (omega arith)))

  made : (k : ℕ) → GoesOn 0 k (make_data_dir id k (disk_at migrated))
  unfolding make_data_dir
  made k = rw (same_refl id) ((migrated, refl), (λ h. refl))

  committed : (k : ℕ) → GoesOn 1 k (commit (make_data_dir id) k (disk_at identity_in))
  unfolding commit
  committed k = change-GoesOn 0 identity_in migrated put_data_dir (make_data_dir id) k refl made

  opened_lem :
      (k : ℕ)
      → GoesOn 2 k
          (change (put_identity id) (commit (make_data_dir id)) k (disk_at identity_opened))
  opened_lem k =
      change-GoesOn 1 identity_opened identity_in (put_identity id) (commit (make_data_dir id)) k
        (unfold put_identity in refl) committed

  written :
      (m : Stage) (k : ℕ)
      → put_identity [] (disk_at m) ≡ disk_at identity_opened
      → GoesOn 3 k (write_staged id (commit (make_data_dir id)) k (disk_at m))
  unfolding write_staged
  written m k e =
      change-GoesOn 2 m identity_opened (put_identity [])
        (change (put_identity id) (commit (make_data_dir id))) k e opened_lem

  -- The rest of a run behind the loop over the names.
  abbrev rest_written : Run
  rest_written = write_staged id (commit (make_data_dir id))

module _ (id cards : Text) where
  tokens :
      (l t : Option Text) (k : ℕ)
      → GoesOn id cards l t 4 k
          (move_session_token (rest_written id cards l t) k (disk_at id cards l t logs_in))
  unfolding move_session_token put_session_token put_identity
  tokens l none k =
      weaken id cards l none 3 4 k _ (omega arith) (written id cards l none logs_in k refl)
  tokens l (some x) k =
      change-GoesOn id cards l (some x) 3 logs_in token_in put_session_token
        (rest_written id cards l (some x)) k refl (λ k. written id cards l (some x) token_in k refl)

  logs :
      (l t : Option Text) (k : ℕ)
      → GoesOn id cards l t 5 k (
          move_logs
            (move_session_token (rest_written id cards l t))
            k
            (disk_at id cards l t cards_in))
  unfolding move_logs put_logs
  logs none t k = weaken id cards none t 4 5 k _ (omega arith) (tokens none t k)
  logs (some x) t k =
      change-GoesOn id cards (some x) t 4 cards_in logs_in put_logs
        (move_session_token (rest_written id cards (some x) t)) k refl (tokens (some x) t)

  module _ (l t : Option Text) where
    from_opened :
        (k : ℕ)
        → GoesOn id cards l t 6 k (move_all id (make_data_dir id) k (disk_at id cards l t opened))
    unfolding move_all move_cards put_cards
    from_opened k =
        change-GoesOn id cards l t 5 opened cards_in put_cards
          (move_logs (move_session_token (rest_written id cards l t))) k refl (logs l t)

    -- A start at any stage, in which at most seven changes are left.
    prepare_data_dir-GoesOn :
        (m : Stage) (k : ℕ)
        → GoesOn id cards l t 7 k (prepare_data_dir id k (disk_at id cards l t m))
    unfolding prepare_data_dir migrate_legacy_state rename_previous migrate_staged move_all
        move_cards move_logs move_session_token put_identity open_staging
    prepare_data_dir-GoesOn first_layout k =
        change-GoesOn id cards l t 6 first_layout opened open_staging
          (move_all id (make_data_dir id)) k refl from_opened
    prepare_data_dir-GoesOn opened k = weaken id cards l t 6 7 k _ (omega arith) (from_opened k)
    prepare_data_dir-GoesOn cards_in k = weaken id cards l t 5 7 k _ (omega arith) (logs l t k)
    prepare_data_dir-GoesOn logs_in k = weaken id cards l t 4 7 k _ (omega arith) (tokens l t k)
    prepare_data_dir-GoesOn token_in k =
        weaken id cards l t 3 7 k _ (omega arith) (written id cards l t token_in k refl)
    prepare_data_dir-GoesOn identity_opened k =
        weaken id cards l t 3 7 k _ (omega arith) (written id cards l t identity_opened k refl)
    prepare_data_dir-GoesOn identity_in k =
        weaken id cards l t 3 7 k _ (omega arith) (written id cards l t identity_in k refl)
    prepare_data_dir-GoesOn migrated k =
        weaken id cards l t 0 7 k _ (omega arith) (made id cards l t k)

-- The disk after starts that stop, each after a number of changes.
unfoldable pub restarted : Text → List ℕ → Disk → Disk
restarted id [] d = d
restarted id (k ∷ ks) d = restarted id ks (prepare_data_dir id k d).1

restarted-disk_at :
    (id cards : Text) (l t : Option Text) (ks : List ℕ) (m : Stage)
    → (n : Stage) × (restarted id ks (disk_at id cards l t m) ≡ disk_at id cards l t n)
unfolding restarted
restarted-disk_at id cards l t [] m = (m, refl)
restarted-disk_at id cards l t (k ∷ ks) m =
    let ((n, e), _) = prepare_data_dir-GoesOn id cards l t m k in
    let (n', e') = restarted-disk_at id cards l t ks n in (n', ap (restarted id ks) e ∙ e')

-- A state directory of the first layout, with cards and with or without logs and a token, alone in
-- its place: after any starts that stop, each after any number of changes, one start that may make
-- seven changes is done. The data directory then holds the cards, the logs and the token as they
-- were, and the identity; nothing is left in the old places.
pub restarted-migrated :
    (id cards : Text) (l t : Option Text) (ks : List ℕ) (k : ℕ)
    → 7 ≤ k
    → prepare_data_dir id k (restarted id ks (disk_at id cards l t first_layout))
      ≡ (finished, disk_at id cards l t migrated)
restarted-migrated id cards l t ks k h =
    let (n, e) = restarted-disk_at id cards l t ks first_layout in
    ap (prepare_data_dir id k) e ∙ (prepare_data_dir-GoesOn id cards l t n k).1 h
