-- ===== src/Config/DataDir.antt =====
-- internal/config/config.go: identity, renamePreviousDataDir, migrateLegacyState and PrepareDataDir, as
-- changes of the state directory. A run stops, or meets an error of the disk, after any number of the
-- changes; a text stands for what a directory or a file holds, and no text for an empty one.
pub mod Migration
use fizzy_connector.Base.{
  ℕ, zero, suc, Bool, true, false, not, ◌&&◌, ◌||◌, Option, none, some, [], ◌∷◌, ◌++◌, Text, codes,
  if◌then◌else◌, same,
}
use fizzy_connector.Config.{Config}

unfoldable pub identity : Config → Text
identity c = c.base_url ++ codes "\n" ++ c.account_slug ++ codes "\n" ++ c.bot_user_id

-- The entries that the code names, of one directory.
pub record Dir : Type 0 where
  pub cards : Option Text
  pub logs : Option Text
  pub session_token : Option Text
  pub identity_file : Option Text

abbrev pub no_entries : Dir
no_entries = record { cards = none; logs = none; session_token = none; identity_file = none }

-- The state directory: the entries of the first layout, the directory of the second layout, the one
-- of this identity, the temporary one, and whether another entry has an identity file.
pub record Disk : Type 0 where
  pub old : Dir
  pub previous : Option Dir
  pub data_dir : Option Dir
  pub staging : Option Dir
  pub foreign : Bool

-- How a run ends: it is stopped, it gives an error, or it is done.
pub data End : Type 0 where
  stopped refused finished : End

-- The rest of a run, with the number of changes until it stops.
abbrev pub Run : Type 0
Run = ℕ → Disk → End × Disk

-- One change of the disk.
unfoldable pub change : (Disk → Disk) → Run → Run
change f rest zero d = (stopped, d)
change f rest (suc k) d = rest k (f d)

has : Option Text → Bool
has none = false
has (some t) = true

has_identity : Option Dir → Bool
unfolding has
has_identity none = false
has_identity (some dir) = has dir.identity_file

has_cards : Option Dir → Bool
unfolding has
has_cards none = false
has_cards (some dir) = has dir.cards

exists_dir : Option Dir → Bool
exists_dir none = false
exists_dir (some dir) = true

-- A directory that a rename may replace: there is none, or an empty one.
replaceable : Option Text → Bool
replaceable none = true
replaceable (some []) = true
replaceable (some (c ∷ t)) = false

replaceable_dir : Option Dir → Bool
unfolding has
replaceable_dir none = true
replaceable_dir (some dir) =
    not (has dir.cards || has dir.logs || has dir.session_token || has dir.identity_file)

entries : Option Dir → Dir
entries none = no_entries
entries (some dir) = dir

unfoldable pub rename_previous : Run → Run
unfolding change exists_dir has_cards
rename_previous rest k d =
    if exists_dir d.data_dir || not (has_cards d.previous)
    then rest k d
    else change (λ e. record e { data_dir = e.previous; previous = none }) rest k d

unfoldable pub open_staging : Disk → Disk
open_staging d = record d { staging = some no_entries }

-- The renames into the temporary directory, the write of its identity file, and its own rename.
unfoldable pub put_cards : Disk → Disk
unfolding entries
put_cards d = record d {
  old = record d.old { cards = none };
  staging = some (record (entries d.staging) { cards = d.old.cards });
}

unfoldable pub put_logs : Disk → Disk
unfolding entries
put_logs d = record d {
  old = record d.old { logs = none };
  staging = some (record (entries d.staging) { logs = d.old.logs });
}

unfoldable pub put_session_token : Disk → Disk
unfolding entries
put_session_token d = record d {
  old = record d.old { session_token = none };
  staging = some (record (entries d.staging) { session_token = d.old.session_token });
}

unfoldable pub put_identity : Text → Disk → Disk
unfolding entries
put_identity t d = record d {
  staging = some (record (entries d.staging) { identity_file = some t });
}

unfoldable pub put_data_dir : Disk → Disk
put_data_dir d = record d { data_dir = d.staging; staging = none }

-- The loop over the three names: an entry that is not there is skipped.
unfoldable pub move_cards : Run → Run
unfolding change has replaceable entries put_cards
move_cards rest k d =
    if not (has d.old.cards)
    then rest k d
    else if not (replaceable (entries d.staging).cards)
    then (refused, d)
    else change put_cards rest k d

unfoldable pub move_logs : Run → Run
unfolding change has replaceable entries put_logs
move_logs rest k d =
    if not (has d.old.logs)
    then rest k d
    else if not (replaceable (entries d.staging).logs)
    then (refused, d)
    else change put_logs rest k d

-- A file replaces a file.
unfoldable pub move_session_token : Run → Run
unfolding change has entries put_session_token
move_session_token rest k d =
    if not (has d.old.session_token) then rest k d else change put_session_token rest k d

-- os.WriteFile makes the file empty, and then writes it.
unfoldable pub write_staged : Text → Run → Run
unfolding change put_identity
write_staged id rest k d = change (put_identity []) (change (put_identity id) rest) k d

unfoldable pub commit : Run → Run
unfolding change replaceable_dir put_data_dir
commit rest k d = if replaceable_dir d.data_dir then change put_data_dir rest k d else (refused, d)

unfoldable pub move_all : Text → Run → Run
unfolding move_cards move_logs move_session_token write_staged commit
move_all id rest k d =
    move_cards (move_logs (move_session_token (write_staged id (commit rest)))) k d

unfoldable pub migrate_staged : Text → Run → Run
unfolding move_all change has has_identity exists_dir open_staging
migrate_staged id rest k d =
    if exists_dir d.staging
    then move_all id rest k d
    else if not (has d.old.cards)
    then rest k d
    else if d.foreign || has_identity d.data_dir || has_identity d.previous
    then (refused, d)
    else change open_staging (move_all id rest) k d

unfoldable pub migrate_legacy_state : Text → Run → Run
unfolding rename_previous migrate_staged
migrate_legacy_state id rest k d = rename_previous (migrate_staged id rest) k d

-- The identity file of the data directory.
check_recorded : Text → Option Text → Run
unfolding change entries
check_recorded id none k d =
    change
      (λ e. record e { data_dir = some (record (entries e.data_dir) { identity_file = some [] }) })
      (change
        (λ e. record e {
          data_dir = some (record (entries e.data_dir) { identity_file = some id });
        })
        (λ k d. (finished, d)))
      k d
check_recorded id (some recorded) k d = if same recorded id then (finished, d) else (refused, d)

check_identity : Text → Run
unfolding check_recorded entries
check_identity id k d = check_recorded id (entries d.data_dir).identity_file k d

unfoldable pub make_data_dir : Text → Run
unfolding check_identity change exists_dir
make_data_dir id k d =
    if exists_dir d.data_dir
    then check_identity id k d
    else change (λ e. record e { data_dir = some no_entries }) (check_identity id) k d

unfoldable pub prepare_data_dir : Text → Run
unfolding migrate_legacy_state make_data_dir
prepare_data_dir id k d = migrate_legacy_state id (make_data_dir id) k d
