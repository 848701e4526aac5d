-- ===== src/Daemon/Logs.antt =====
-- internal/daemon/logs.go: the old logs of the cards. A time is a number of nanoseconds. What os.Stat
-- and os.Remove give for the file of an entry stands with the entry.
pub mod Names
pub mod Laws
use fizzy_connector.Base.{
  ℕ, zero, suc, ◌+◌, Bool, true, false, not, ◌&&◌, Option, none, some, List, [], ◌∷◌, ◌++◌, Text,
  codes, ltb, ◌==◌, if◌then◌else◌, same, cut_prefix, trim_suffix, atoi_signed, decimal, Result, ok,
  err, Error,
}
use fizzy_connector.Config.{ℤ, pos, negsuc}

-- What os.Stat gives: no file, an error, or the time of the last write.
pub data Found : Type 0 where
  gone : Found
  unreadable : Error → Found
  modified : ℕ → Found

pub record Entry : Type 0 where
  pub name : Text
  pub found : Found
  pub removal : Result (Unit {0})

-- `now.Sub(modTime) < retention`.
unfoldable pub is_young : ℤ → ℕ → ℕ → Bool
is_young (pos r) now t = ltb now (t + r)
is_young (negsuc r) now t = ltb (now + suc r) t

removed : Result (Unit {0}) → Result Bool
removed (err e) = err e
removed (ok _) = ok true

remove_found : ℤ → ℕ → Found → Result (Unit {0}) → Result Bool
unfolding is_young removed
remove_found retention now gone r = ok false
remove_found retention now (unreadable e) r = err e
remove_found retention now (modified t) r = if is_young retention now t then ok false else removed r

-- removeIfOlder: whether the file is deleted.
unfoldable pub remove_if_older : ℤ → ℕ → Entry → Result Bool
unfolding remove_found
remove_if_older retention now entry = remove_found retention now entry.found entry.removal

shown : Bool → ℕ → Text
shown negative n = if negative && not (n == 0) then b'-' ∷ decimal n else decimal n

is_shown : Option (Bool × ℕ) → Text → Bool
unfolding shown
is_shown none rest = false
is_shown (some (negative, n)) rest = same rest (shown negative n ++ codes ".log")

-- The name that "card-%d.log" gives for an integer.
unfoldable pub is_card_log : Text → Bool
unfolding is_shown
is_card_log name = elim (cut_prefix name (codes "card-")) [
  | none ↦ false
  | some rest ↦ is_shown (atoi_signed (trim_suffix rest (codes ".log"))) rest
]

counted : Text → Result Bool → List Text × Result ℕ → List Text × Result ℕ
counted name (err e) later = ([], err e)
counted name (ok false) later = later
counted name (ok true) (names, err e) = (name ∷ names, err e)
counted name (ok true) (names, ok n) = (name ∷ names, ok (suc n))

-- The loop of removeOldLogs: the names of the files that are deleted, and their number or an error.
unfoldable pub remove_all : ℤ → ℕ → List Entry → List Text × Result ℕ
unfolding counted is_card_log remove_if_older
remove_all retention now [] = ([], ok 0)
remove_all retention now (entry ∷ entries) =
    let later = remove_all retention now entries in
    if is_card_log entry.name
    then counted entry.name (remove_if_older retention now entry) later
    else later

-- The directory of the logs: missing, an error, or its entries.
unfoldable pub remove_old_logs : ℤ → ℕ → Option (Result (List Entry)) → List Text × Result ℕ
unfolding remove_all
remove_old_logs retention now none = ([], ok 0)
remove_old_logs retention now (some (err e)) = ([], err e)
remove_old_logs retention now (some (ok entries)) = remove_all retention now entries

is_zero : ℤ → Bool
is_zero (pos zero) = true
is_zero (pos (suc n)) = false
is_zero (negsuc n) = false

-- One pass of sweepLogs: nothing, when the retention is zero.
unfoldable pub sweep : ℤ → ℕ → Option (Result (List Entry)) → List Text × Result ℕ
unfolding remove_old_logs is_zero
sweep retention now dir =
    if is_zero retention then ([], ok 0) else remove_old_logs retention now dir
