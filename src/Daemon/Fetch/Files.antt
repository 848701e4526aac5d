-- ===== src/Daemon/Fetch/Files.antt =====
-- internal/daemon/daemon.go: the scans and the notifications keep each file at its own card.
use fizzy_connector.Base.{
  ℕ, ◌≡◌, refl, ◌∙◌, inl, inr, Bool, true, false, Bool-cases, none, Result, ok, err, Result-cases,
}
use fizzy_connector.Fizzy.{Notification}
use fizzy_connector.Store.{update}
use fizzy_connector.Store.Laws.{IsKept, update-IsKept}
use fizzy_connector.Daemon.Effects.{Sys, send, marked_read, update_card, bind, ◌>>=◌}
use fizzy_connector.Daemon.Scan.{
  Scanner, Sight, Notified, check_card, set_needs_scan, rescan, evidence_of, handle_notification,
  scanned, noted, after_check, scan_again, is_card_gone,
}
use fizzy_connector.Daemon.Scan.Frames.{Keeps, marked_ids}
use fizzy_connector.Daemon.Scan.Notifications.{check_card-IsKept, set_needs_scan_lem}

-- A step that keeps each file at its own card.
abbrev pub KeepsFiles : Sys → Sys → Type 0
KeepsFiles s t = IsKept s.store → IsKept t.store

set_needs_scan-KeepsFiles : (n : ℕ) (b : Bool) (s : Sys) → KeepsFiles s (set_needs_scan n b s).1
unfolding set_needs_scan noted update_card
set_needs_scan-KeepsFiles n b s kept =
    let updated = update-IsKept s.store n (λ state. record state { needs_scan = b }) kept in
    elim (Result-cases (update s.store n (λ state. record state { needs_scan = b })).0) [
      | inl (e, failed) ↦ rw failed updated
      | inr (c, saved) ↦ rw saved updated
    ]

scanned-KeepsFiles : (n : ℕ) (r : Result (Unit {0}) × Sys) → KeepsFiles r.1 (scanned n r).1
unfolding scanned
scanned-KeepsFiles n (ok _, s) kept = set_needs_scan-KeepsFiles n false s kept
scanned-KeepsFiles n (err e, s) kept = elim (Bool-cases (is_card_gone e)) [
  | inl gone ↦ rw gone (set_needs_scan-KeepsFiles n false s kept)
  | inr other ↦ rw other kept
]

pub rescan-KeepsFiles :
    (k : Scanner) (v : Sight) (n : ℕ) (s : Sys) → Keeps v.others → KeepsFiles s (rescan k v n s).1
unfolding rescan
rescan-KeepsFiles k v n s keeps kept =
    scanned-KeepsFiles n (check_card k v n none s)
      ((check_card-IsKept k v n none s keeps).kept kept)

scanned-marked :
    (n : ℕ) (r : Result (Unit {0}) × Sys) → marked_ids (scanned n r).1.sent ≡ marked_ids r.1.sent
unfolding scanned
scanned-marked n (ok _, s) = (set_needs_scan_lem n false s).0
scanned-marked n (err e, s) = elim (Bool-cases (is_card_gone e)) [
  | inl gone ↦ rw gone (set_needs_scan_lem n false s).0
  | inr other ↦ rw other refl
]

pub rescan-marked :
    (k : Scanner) (v : Sight) (n : ℕ) (s : Sys)
    → Keeps v.others
    → marked_ids (rescan k v n s).1.sent ≡ marked_ids s.sent
unfolding rescan
rescan-marked k v n s keeps =
    scanned-marked n (check_card k v n none s) ∙ (check_card-IsKept k v n none s keeps).marks

after_mark-KeepsFiles :
    (k : Scanner) (w : Notified) (n : Notification) (s : Sys) (marked : Result (Unit {0}))
    → Keeps w.second.others
    → KeepsFiles s (bind (marked, s) (λ _. rescan k w.second n.card_number)).1
after_mark-KeepsFiles k w n s (err e) keeps kept = kept
after_mark-KeepsFiles k w n s (ok _) keeps kept =
    rescan-KeepsFiles k w.second n.card_number s keeps kept

with_mark-KeepsFiles :
    (k : Scanner) (w : Notified) (n : Notification) (r : Result (Unit {0}) × Sys)
    → Keeps w.second.others
    → KeepsFiles r.1
        (bind r (λ _. (do _ ← send (marked_read n.id) w.marked; rescan k w.second n.card_number))).1
unfolding send
with_mark-KeepsFiles k w n (err e, t) keeps kept = kept
with_mark-KeepsFiles k w n (ok _, t) keeps kept = after_mark-KeepsFiles k w n _ w.marked keeps kept

scan_again-KeepsFiles :
    (k : Scanner) (w : Notified) (n : Notification) (s : Sys)
    → Keeps w.second.others
    → KeepsFiles s (scan_again k w n s).1
unfolding scan_again
scan_again-KeepsFiles k w n s keeps kept =
    with_mark-KeepsFiles k w n (set_needs_scan n.card_number true s) keeps
      (set_needs_scan-KeepsFiles n.card_number true s kept)

after_check-KeepsFiles :
    (k : Scanner) (w : Notified) (n : Notification) (r : Result (Unit {0}) × Sys)
    → Keeps w.second.others
    → KeepsFiles r.1 (after_check k w n r).1
unfolding after_check send
after_check-KeepsFiles k w n (ok _, s) keeps kept = scan_again-KeepsFiles k w n s keeps kept
after_check-KeepsFiles k w n (err e, s) keeps kept = elim (Bool-cases (is_card_gone e)) [
  | inl gone ↦ rw gone kept
  | inr other ↦ rw other kept
]

pub handle_notification-KeepsFiles :
    (k : Scanner) (w : Notified) (n : Notification) (s : Sys)
    → Keeps w.first.others
    → Keeps w.second.others
    → KeepsFiles s (handle_notification k w n s).1
unfolding handle_notification
handle_notification-KeepsFiles k w n s keeps keeps' kept =
    after_check-KeepsFiles k w n (check_card k w.first n.card_number (evidence_of n) s) keeps'
      ((check_card-IsKept k w.first n.card_number (evidence_of n) s keeps).kept kept)
