-- ===== src/Examples/Settings.antt =====
-- The settings: a configuration that is loaded, and the data directory.
use fizzy_connector.Base.{
  ℕ, Text, ◌+◌, ◌++◌, ◌≢◌, inr, all, [], ◌∷◌, none, join, ok, arith, ◌≡◌, refl, some, codes,
}
use fizzy_connector.Config.DataDir.{no_entries, Disk, refused, finished, prepare_data_dir}
use fizzy_connector.Config.DataDir.Migration.{
  at_rest, disk_at, first_layout, migrated, restarted, restarted-migrated,
}
use fizzy_connector.Config.DataDir.{identity}
use fizzy_connector.Config.Load.{Host, load, data_dir, data_dir_name}
use fizzy_connector.Config.{Config}
use fizzy_connector.Config.Load.Laws.{IsReady, load-IsReady}
use fizzy_connector.Config.Load.Names.{data_dir_name-identity}
use fizzy_connector.Examples.Data.{config}

abbrev host : Host
host = record {
  variable = λ name. [];
  home = codes "/h";
  private_temp = codes "/tmp/f-1";
  join = λ names. join (codes "/") names;
  absolute = λ path. ok path;
  decode = λ path over.
      some (ok (record config { base_url = codes "http://x/"; account_slug = codes "/1/" }));
  parse_url = λ url. some (codes "http", codes "x");
  digest = λ text. codes "0123456789ab";
}

load_example : IsReady config
unfolding load fizzy_connector.Config.validate fizzy_connector.Base.same
    fizzy_connector.Base.mem_text fizzy_connector.Config.lt_int fizzy_connector.Config.is_no_limit
    fizzy_connector.Config.is_zero fizzy_connector.Config.double fizzy_connector.Base.has_prefix
load_example = load-IsReady host (codes "/c") (codes "/c") config refl

total : Text → ℕ
total [] = 0
total (c ∷ s) = c + total s

-- A digest of twelve characters, the last of which depends on the text.
abbrev digesting : Host
digesting = record host { digest = λ text. codes "0123456789a" ++ (total text ∷ []) }

abbrev other_bot : Config
other_bot = record config { bot_user_id = codes "other" }

data_dir_name_example : data_dir_name digesting config ≢ data_dir_name digesting other_bot
unfolding total all identity
data_dir_name_example =
    data_dir_name-identity digesting config other_bot (λ text. refl) (λ e. absurd (ground arith))
      refl refl refl refl (inr (inr (λ e. ground arith)))

data_dir_path : data_dir host config ≡ codes "/s/x-1-0123456789ab"
unfolding data_dir join fizzy_connector.Base.same
data_dir_path = refl

-- The first start stops when the identity file is empty, the second before its last change.
restarted_example :
    prepare_data_dir (codes "id") 7 (
      restarted
        (codes "id")
        (6 ∷ 2 ∷ [])
        (disk_at (codes "id") (codes "cards") none (some (codes "t")) first_layout))
    ≡ (finished, disk_at (codes "id") (codes "cards") none (some (codes "t")) migrated)
restarted_example =
    restarted-migrated (codes "id") (codes "cards") none (some (codes "t")) (6 ∷ 2 ∷ []) 7
      (omega arith)

-- A data directory that is new: a start that stops between the making and the writing of the identity
-- file leaves an empty file, and the next start gives an error.
abbrev new_disk : Disk
new_disk = at_rest no_entries none none

stopped_new :
    (prepare_data_dir (codes "id") 9 (restarted (codes "id") (2 ∷ []) new_disk)).0 ≡ refused
unfolding prepare_data_dir restarted fizzy_connector.Base.same
stopped_new = refl
