-- ===== src/Daemon/Logs/Laws.antt =====
-- internal/daemon/logs.go: which files the sweep deletes.
use fizzy_connector.Base.{
  ℕ, zero, suc, ◌+◌, ◌≤◌, ◌↔◌, In, sym, subst, ◌∙◌, ◌≡◌, ◌≢◌, ◌⊎◌, inl, inr, refl, ap, Bool, true,
  false, not, ◌&&◌, some, List, [], ◌∷◌, ◌++◌, Text, arith, if◌then◌else◌, length, Result, ok, err,
  Error,
}
use fizzy_connector.Config.{ℤ, pos, negsuc}
use fizzy_connector.Daemon.Logs.Names.{IsCardLog, is_card_log_iff}
use fizzy_connector.Daemon.Logs.{
  Found, gone, unreadable, modified, Entry, is_young, removed, remove_found, remove_if_older,
  is_card_log, counted, remove_all, remove_old_logs, is_zero, sweep,
}

is_old_file : ℤ → ℕ → Found → Bool
is_old_file retention now gone = false
is_old_file retention now (unreadable e) = false
is_old_file retention now (modified t) = not (is_young retention now t)

-- The names of the logs of cards that nobody wrote to for the retention.
unfoldable pub old_logs : ℤ → ℕ → List Entry → List Text
unfolding is_old_file
old_logs retention now [] = []
old_logs retention now (entry ∷ entries) =
    let later = old_logs retention now entries in
    if is_card_log entry.name && is_old_file retention now entry.found
    then entry.name ∷ later
    else later

-- The files that are deleted are the first of some names, and all of them unless there is an error.
abbrev pub Deletes : List Text × Result ℕ → List Text → Type 0
Deletes r names =
    (rest : List Text) × (names ≡ r.0 ++ rest)
    × (((rest ≡ []) × (r.1 ≡ ok (length r.0))) ⊎ ((e : Error) × (r.1 ≡ err e)))

more-Deletes :
    (name : Text) (r : List Text × Result ℕ) (names : List Text)
    → Deletes r names
    → Deletes (counted name (ok true) r) (name ∷ names)
unfolding counted
more-Deletes name (deleted, err e) names (rest, h, _) = (rest, ap (λ l. name ∷ l) h, inr (e, refl))
more-Deletes name (deleted, ok n) names (rest, h, inl (all, count)) =
    (rest, ap (λ l. name ∷ l) h, inl (all, ground arith))
more-Deletes name (deleted, ok n) names (rest, h, inr (e, count)) = absurd (ground arith)

aged-Deletes :
    (young : Bool) (name : Text) (w : Result (Unit {0})) (r : List Text × Result ℕ)
    (names : List Text)
    → Deletes r names
    → Deletes
        (counted name (if young then ok false else removed w) r)
        (if not young then name ∷ names else names)
unfolding counted removed
aged-Deletes true name w r names h = h
aged-Deletes false name (err e) r names h = (name ∷ names, refl, inr (e, refl))
aged-Deletes false name (ok _) r names h = more-Deletes name r names h

counted-Deletes :
    (retention : ℤ) (now : ℕ) (name : Text) (found : Found) (w : Result (Unit {0}))
    (r : List Text × Result ℕ) (names : List Text)
    → Deletes r names
    → Deletes
        (counted name (remove_found retention now found w) r)
        (if is_old_file retention now found then name ∷ names else names)
unfolding counted remove_found is_old_file removed
counted-Deletes retention now name gone w r names h = h
counted-Deletes retention now name (unreadable e) w r names h = (names, refl, inr (e, refl))
counted-Deletes retention now name (modified t) w r names h =
    aged-Deletes (is_young retention now t) name w r names h

card_log-Deletes :
    (log : Bool) (retention : ℤ) (now : ℕ) (entry : Entry) (r : List Text × Result ℕ)
    (names : List Text)
    → Deletes r names
    → Deletes
        (if log
          then counted entry.name (remove_found retention now entry.found entry.removal) r
          else r)
        (if log && is_old_file retention now entry.found then entry.name ∷ names else names)
card_log-Deletes true retention now entry r names h =
    counted-Deletes retention now entry.name entry.found entry.removal r names h
card_log-Deletes false retention now entry r names h = h

remove_all-Deletes :
    (retention : ℤ) (now : ℕ) (entries : List Entry)
    → Deletes (remove_all retention now entries) (old_logs retention now entries)
unfolding remove_all old_logs remove_if_older
remove_all-Deletes retention now [] = ([], refl, inl (refl, refl))
remove_all-Deletes retention now (entry ∷ entries) =
    card_log-Deletes (is_card_log entry.name) retention now entry (remove_all retention now entries)
      (old_logs retention now entries) (remove_all-Deletes retention now entries)

-- The file was last written at least the retention ago.
abbrev pub IsExpired : ℤ → ℕ → ℕ → Type 0
IsExpired (pos r) now t = t + r ≤ now
IsExpired (negsuc r) now t = t ≤ now + suc r

abbrev pub IsExpiredFile : ℤ → ℕ → Found → Type 0
IsExpiredFile retention now found = (t : ℕ) × ((found ≡ modified t) × IsExpired retention now t)

-- An entry has the name, which is the one of the log of a card, and its file is as old as the retention.
abbrev pub IsOldLog : ℤ → ℕ → List Entry → Text → Type 0
IsOldLog retention now entries name =
    (entry : Entry) × (In entry entries
      × ((entry.name ≡ name) × (IsCardLog entry.name × IsExpiredFile retention now entry.found)))

is_young_iff :
    (retention : ℤ) (now t : ℕ)
    → (not (is_young retention now t) ≡ true) ↔ IsExpired retention now t
unfolding is_young
is_young_iff (pos r) now t = ((λ h. ground arith), (λ h. ground arith))
is_young_iff (negsuc r) now t = ((λ h. ground arith), (λ h. ground arith))

is_old_file_iff :
    (retention : ℤ) (now : ℕ) (found : Found)
    → (is_old_file retention now found ≡ true) ↔ IsExpiredFile retention now found
unfolding is_old_file
is_old_file_iff retention now gone =
    ((λ h. absurd (ground arith)), (λ (t, (e, h)). absurd (ground arith)))
is_old_file_iff retention now (unreadable e) =
    ((λ h. absurd (ground arith)), (λ (t, (e', h)). absurd (ground arith)))
is_old_file_iff retention now (modified s) = (
  (λ h. (s, (refl, (is_young_iff retention now s).0 h))),
  (λ (t, (e, h)).
      let same_time : s ≡ t = ground arith in rw same_time ((is_young_iff retention now t).1 h)),
)

is_old_log_iff :
    (retention : ℤ) (now : ℕ) (entry : Entry)
    → ((is_card_log entry.name && is_old_file retention now entry.found) ≡ true)
      ↔ (IsCardLog entry.name × IsExpiredFile retention now entry.found)
is_old_log_iff retention now entry = (
  (λ h. (
    (is_card_log_iff entry.name).0 (ground arith),
    (is_old_file_iff retention now entry.found).0 (ground arith),
  )),
  (λ (named, old).
      let is_log = (is_card_log_iff entry.name).1 named in
      let is_old = (is_old_file_iff retention now entry.found).1 old in ground arith),
)

not_true : false ≢ true
not_true h = absurd (ground arith)

old_logs_step :
    (retention : ℤ) (now : ℕ) (entry : Entry) (entries : List Entry) (name : Text) (b : Bool)
    → (b ≡ true) ↔ (IsCardLog entry.name × IsExpiredFile retention now entry.found)
    → In name (old_logs retention now entries) ↔ IsOldLog retention now entries name
    → In name
        (if b then entry.name ∷ old_logs retention now entries else old_logs retention now entries)
      ↔ IsOldLog retention now (entry ∷ entries) name
old_logs_step retention now entry entries name true (to, back) (to', back') = (
  (λ h. elim h [
    | inl e ↦ (entry, (inl refl, (sym e, to refl)))
    | inr later ↦ let (other, (found, more)) = to' later in (other, (inr found, more))
  ]),
  (λ (other, (found, (named, old))). elim found [
    | inl e ↦ inl (sym named ∙ ap (λ (x : Entry). x.name) e)
    | inr later ↦ inr (back' (other, (later, (named, old))))
  ]),
)
old_logs_step retention now entry entries name false (to, back) (to', back') = (
  (λ h. let (other, (found, more)) = to' h in (other, (inr found, more))),
  (λ (other, (found, (named, old))). elim found [
    | inl e ↦ absurd (
        not_true (
          back
            (subst (λ (x : Entry). IsCardLog x.name × IsExpiredFile retention now x.found) e old)))
    | inr later ↦ back' (other, (later, (named, old)))
  ]),
)

-- The names of the old logs are those of the entries that say so.
old_logs_iff :
    (retention : ℤ) (now : ℕ) (entries : List Entry) (name : Text)
    → In name (old_logs retention now entries) ↔ IsOldLog retention now entries name
unfolding old_logs
old_logs_iff retention now [] name = ((λ h. elim h [ ]), (λ (entry, (found, _)). elim found [ ]))
old_logs_iff retention now (entry ∷ entries) name =
    old_logs_step retention now entry entries name _ (is_old_log_iff retention now entry)
      (old_logs_iff retention now entries name)

-- A retention of zero deletes nothing. With another one, a sweep of the logs deletes the first of the
-- names of `old_logs`, in the order of the directory: all of them, and counts them, or else those in front of an
-- error. A name is among those of `old_logs` exactly when an entry of the directory has it, it is "card-", an
-- integer of 64 bits in decimal and ".log", and the last write was at least the retention ago.
pub sweep-Deletes :
    (retention : ℤ) (now : ℕ) (entries : List Entry) (name : Text)
    → (((retention ≡ pos 0) × (sweep retention now (some (ok entries)) ≡ ([], ok 0)))
        ⊎ ((retention ≢ pos 0)
            × Deletes (sweep retention now (some (ok entries))) (old_logs retention now entries)))
      × (In name (old_logs retention now entries) ↔ IsOldLog retention now entries name)
unfolding sweep remove_old_logs is_zero
sweep-Deletes (pos zero) now entries name =
    (inl (refl, refl), old_logs_iff (pos zero) now entries name)
sweep-Deletes (pos (suc n)) now entries name = (
  inr (λ e. absurd (ground arith), remove_all-Deletes (pos (suc n)) now entries),
  old_logs_iff (pos (suc n)) now entries name,
)
sweep-Deletes (negsuc n) now entries name = (
  inr (λ e. absurd (ground arith), remove_all-Deletes (negsuc n) now entries),
  old_logs_iff (negsuc n) now entries name,
)
