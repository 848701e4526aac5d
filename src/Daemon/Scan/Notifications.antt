-- ===== src/Daemon/Scan/Notifications.antt =====
-- internal/daemon/daemon.go: no notification and no mention is lost.
use fizzy_connector.Base.{
  ℕ, ◌≡◌, refl, sym, ◌∙◌, ap, subst, ◌⊎◌, inl, inr, Bool, true, false, not, ◌||◌, Bool-cases,
  Option, none, some, List, [], ◌∷◌, ◌++◌, Text, arith, if_rule, Result, ok, err, Error, card_gone,
  not_modified, not_started, cost_limit, deadline_exceeded, cancelled, api, failed, Option-cases,
}
use fizzy_connector.Fizzy.{Notification}
use fizzy_connector.Store.{CardState, Store, read, write, update, new_state}
use fizzy_connector.Store.Laws.{IsKept, update-cases, read-number, update-IsKept}
use fizzy_connector.Daemon.Effects.{
  Sys, send, marked_read, update_card, meanwhile, changed, bind, ◌>>=◌,
}
use fizzy_connector.Daemon.Triggers.{Evidence}
use fizzy_connector.Daemon.Scan.{
  Scanner, Sight, Notified, check_card, set_needs_scan, rescan, evidence_of, handle_notification,
  scanned, noted, after_check, scan_again, is_card_gone,
}
use fizzy_connector.Daemon.Scan.Frames.{
  Keeps, IsFrame, marked_ids, marked_ids-append, check_card-IsFrame,
}

-- The file of a card holds the mark for a scan.
abbrev pub IsMarked : ℕ → Store → Type 0
IsMarked n s = (c : CardState) × (s.file n ≡ some c) × (c.number ≡ n) × (c.needs_scan ≡ true)

update-IsMarked :
    (n : ℕ) (s : Store) (f : CardState → CardState)
    → Keeps f
    → IsMarked n s
    → IsMarked n (update s n f).1
unfolding update read write
update-IsMarked n s f keeps (c, found, number, mark) =
    let (same_number, same_mark) = keeps c in
    elim (Bool-cases (s.read_fails n || s.write_fails n)) [
      | inl e ↦ (c, ground arith, number, mark)
      | inr e ↦ (f c, ground arith, same_number ∙ number, same_mark ∙ mark)
    ]

meanwhile-IsMarked :
    (n : ℕ) (s : Sys) (f : CardState → CardState)
    → Keeps f
    → IsMarked n s.store
    → IsMarked n (meanwhile n f s).1.store
unfolding meanwhile changed
meanwhile-IsMarked n s f keeps (c, found, number, mark) =
    let (same_number, same_mark) = keeps c in
    (f c, ground arith, same_number ∙ number, same_mark ∙ mark)

pub meanwhile-IsKept :
    (n : ℕ) (s : Sys) (f : CardState → CardState)
    → Keeps f
    → IsKept s.store
    → IsKept (meanwhile n f s).1.store
unfolding meanwhile changed new_state
meanwhile-IsKept n s f keeps kept m c h = elim (Option-cases (s.store.file n)) [
  | inl e ↦ ground (arith, kept m c, keeps (new_state n))
  | inr (b, e) ↦ ground (arith, kept m c, kept n b, keeps b)
]

check_card-IsMarked :
    (k : Scanner) (v : Sight) (n : ℕ) (e : Option Evidence) (s : Sys)
    → Keeps v.others
    → IsFrame (IsMarked n) s (check_card k v n e s).1
check_card-IsMarked k v n e s keeps =
    check_card-IsFrame (IsMarked n) n (update-IsMarked n) (meanwhile-IsMarked n) k v e s keeps

pub check_card-IsKept :
    (k : Scanner) (v : Sight) (n : ℕ) (e : Option Evidence) (s : Sys)
    → Keeps v.others
    → IsFrame IsKept s (check_card k v n e s).1
check_card-IsKept k v n e s keeps =
    check_card-IsFrame IsKept n (λ t f _. update-IsKept t n f) (meanwhile-IsKept n) k v e s keeps

-- A mark that is set or cleared, or a failure that changes nothing.
pub set_needs_scan_lem :
    (n : ℕ) (b : Bool) (s : Sys)
    → let r = set_needs_scan n b s in
      (marked_ids r.1.sent ≡ marked_ids s.sent)
      × (((e : Error) × (r.0 ≡ err e)
            × (r.1.store ≡ s.store)
            × (r.1.pending_scans ≡ s.pending_scans))
          ⊎ ((r.0 ≡ ok tt)
              × (r.1.pending_scans n ≡ b)
              × (IsKept s.store
                  → (c : CardState) × (r.1.store.file n ≡ some c)
                    × (c.number ≡ n)
                    × (c.needs_scan ≡ b))))
unfolding set_needs_scan noted update_card
set_needs_scan_lem n b s =
    elim (update-cases s.store n (λ state. record state { needs_scan = b })) [
      | inl (e, h) ↦ rw h (refl, inl (e, refl, refl, refl))
      | inr (c, found, h) ↦ rw h (
        refl,
        inr (
          refl,
          ground arith,
          λ kept. (
            record c { needs_scan = b },
            ground (arith, read-number s.store n c kept found),
            read-number s.store n c kept found,
            refl,
          ),
        ),
      )
    ]

-- A scan that is done, or else the marks stay.
abbrev IsDone : ℕ → Sys → Result (Unit {0}) × Sys → Type 0
IsDone n s r =
    (marked_ids r.1.sent ≡ marked_ids s.sent)
    × ((IsMarked n r.1.store × (r.1.pending_scans n ≡ true) × ((e : Error) × (r.0 ≡ err e)))
        ⊎ (r.0 ≡ ok tt))

cleared_lem :
    (n : ℕ) (s : Sys)
    → IsMarked n s.store
    → s.pending_scans n ≡ true
    → IsDone n s (set_needs_scan n false s)
cleared_lem n s marked pending =
    let (marks, outcome) = set_needs_scan_lem n false s in
    (
      marks,
      elim outcome [
        | inl (e, failed_e, store, scans) ↦
            inl
              (subst (IsMarked n) (sym store) marked, ap (λ p. p n) scans ∙ pending, (e, failed_e))
        | inr (done, _, _) ↦ inr done
      ],
    )

scanned_lem :
    (n : ℕ) (r : Result (Unit {0}) × Sys)
    → IsMarked n r.1.store
    → r.1.pending_scans n ≡ true
    → IsDone n r.1 (scanned n r)
unfolding scanned
scanned_lem n (ok _, s) marked pending = cleared_lem n s marked pending
scanned_lem n (err e, s) marked pending =
    if_rule (IsDone n s) (not (is_card_gone e)) _ _ (λ h. (refl, inl (marked, pending, (e, refl))))
      (λ h. cleared_lem n s marked pending)

rescan_lem :
    (k : Scanner) (v : Sight) (n : ℕ) (s : Sys)
    → Keeps v.others
    → IsMarked n s.store
    → s.pending_scans n ≡ true
    → IsDone n s (rescan k v n s)
unfolding rescan
rescan_lem k v n s keeps marked pending =
    let frame = check_card-IsMarked k v n none s keeps in
    let (marks, outcome) =
      scanned_lem n (check_card k v n none s) (frame.kept marked)
        (ap (λ p. p n) frame.scans ∙ pending) in
    (marks ∙ frame.marks, outcome)

-- How a notification is acknowledged behind a first scan: the request failed, or the second scan did, and the
-- card is marked for a scan on disk and in memory; or the request succeeded and the second scan is done.
abbrev pub IsAgain : Scanner → Notified → Notification → Result (Unit {0}) × Sys → Type 0
IsAgain k w n r =
    (IsMarked n.card_number r.1.store
      × (r.1.pending_scans n.card_number ≡ true)
      × ((e : Error) × (r.0 ≡ err e)))
    ⊎ ((w.marked ≡ ok tt) × ((u : Sys) × (rescan k w.second n.card_number u ≡ (ok tt, r.1))))

-- What becomes of a notification whose first scan gave `first`: no request marks it as read, and the
-- result is an error; or the first scan found the card gone, one request marks it as read, and the
-- result is that of the request; or the first scan succeeded, and one request marks it as read.
abbrev pub IsSafe :
    Scanner
    → Notified
    → Notification
    → Result (Unit {0})
    → List Text
    → Result (Unit {0}) × Sys
    → Type 0
IsSafe k w n first before r =
    ((marked_ids r.1.sent ≡ before) × ((e : Error) × (r.0 ≡ err e)))
    ⊎ ((marked_ids r.1.sent ≡ before ++ n.id ∷ [])
        × (((first ≡ err card_gone) × (r.0 ≡ w.marked)) ⊎ ((first ≡ ok tt) × IsAgain k w n r)))

after_mark_lem :
    (k : Scanner) (w : Notified) (n : Notification) (s : Sys) (marked : Result (Unit {0}))
    → w.marked ≡ marked
    → Keeps w.second.others
    → IsMarked n.card_number s.store
    → s.pending_scans n.card_number ≡ true
    → let r = bind (marked, s) (λ _. rescan k w.second n.card_number) in
      (marked_ids r.1.sent ≡ marked_ids s.sent) × IsAgain k w n r
after_mark_lem k w n s (err e) outcome keeps marked pending =
    (refl, inl (marked, pending, (e, refl)))
after_mark_lem k w n s (ok _) accepted keeps marked pending =
    let (marks, outcome) = rescan_lem k w.second n.card_number s keeps marked pending in
    (
      marks,
      elim outcome [
        | inl h ↦ inl h
        | inr e ↦ inr (accepted, (s, ap (λ o. (o, (rescan k w.second n.card_number s).1)) e))
      ],
    )

with_mark_lem :
    (k : Scanner) (w : Notified) (n : Notification) (s : Sys) (r : Result (Unit {0}) × Sys)
    → Keeps w.second.others
    → marked_ids r.1.sent ≡ marked_ids s.sent
    → (r.0 ≡ ok tt → IsMarked n.card_number r.1.store × (r.1.pending_scans n.card_number ≡ true))
    → IsSafe k w n
        (ok tt)
        (marked_ids s.sent)
        (bind r (λ _. (do _ ← send (marked_read n.id) w.marked; rescan k w.second n.card_number)))
unfolding send
with_mark_lem k w n s (err e, t) keeps marks ready = inl (marks, (e, refl))
with_mark_lem k w n s (ok _, t) keeps marks ready =
    let u : Sys = record t { sent = t.sent ++ marked_read n.id ∷ [] } in
    let (mark, pending) = ready refl in
    let (later, outcome) = after_mark_lem k w n u w.marked refl keeps mark pending in
    inr (
      later
          ∙ (marked_ids-append t.sent (marked_read n.id)
              ∙ (unfold marked_ids in ap (λ ids. ids ++ n.id ∷ []) marks)),
      inr (refl, outcome),
    )

scan_again_lem :
    (k : Scanner) (w : Notified) (n : Notification) (s : Sys)
    → Keeps w.second.others
    → IsKept s.store
    → IsSafe k w n (ok tt) (marked_ids s.sent) (scan_again k w n s)
unfolding scan_again
scan_again_lem k w n s keeps kept =
    let (marks, outcome) = set_needs_scan_lem n.card_number true s in
    with_mark_lem k w n s (set_needs_scan n.card_number true s) keeps marks (λ done. elim outcome [
      | inl (e, failed_e, _, _) ↦ ground arith
      | inr (_, pending, mark) ↦ (mark kept, pending)
    ])

is_card_gone_lem : (e : Error) → is_card_gone e ≡ true → e ≡ card_gone
unfolding is_card_gone
is_card_gone_lem card_gone h = refl
is_card_gone_lem not_modified h = ground arith
is_card_gone_lem not_started h = ground arith
is_card_gone_lem cost_limit h = ground arith
is_card_gone_lem deadline_exceeded h = ground arith
is_card_gone_lem cancelled h = ground arith
is_card_gone_lem (api n) h = ground arith
is_card_gone_lem (failed t) h = ground arith

after_check_lem :
    (k : Scanner) (w : Notified) (n : Notification) (before : List Text)
    (r : Result (Unit {0}) × Sys)
    → Keeps w.second.others
    → IsKept r.1.store
    → marked_ids r.1.sent ≡ before
    → IsSafe k w n r.0 before (after_check k w n r)
unfolding after_check send marked_ids
after_check_lem k w n before (ok _, t) keeps kept marks =
    subst (λ b. IsSafe k w n (ok tt) b (scan_again k w n t)) marks
      (scan_again_lem k w n t keeps kept)
after_check_lem k w n before (err e, t) keeps kept marks = elim (Bool-cases (is_card_gone e)) [
  | inl gone ↦ inr (
    rw gone (marked_ids-append t.sent (marked_read n.id) ∙ ap (λ ids. ids ++ n.id ∷ []) marks),
    inl (ap err (is_card_gone_lem e gone), rw gone refl),
  )
  | inr other ↦ inl (rw other (marks, (e, refl)))
]

-- Where the files hold their own cards and the rest of the daemon leaves the number of a card and
-- its mark for a scan: handling a notification makes no request that marks it as read, and is an error; or
-- it makes one, after a first scan that found the card gone or succeeded, and none other. When that scan
-- succeeded: either the result is an error and the card carries the mark for a scan, on disk and in memory,
-- or the request was accepted and a second scan is done. When the card is gone, the result is that of the request.
pub handle_notification_lem :
    (k : Scanner) (w : Notified) (n : Notification) (s : Sys)
    → IsKept s.store
    → Keeps w.first.others
    → Keeps w.second.others
    → IsSafe k w n
        (check_card k w.first n.card_number (evidence_of n) s).0
        (marked_ids s.sent)
        (handle_notification k w n s)
unfolding handle_notification
handle_notification_lem k w n s kept keeps keeps' =
    let frame = check_card-IsKept k w.first n.card_number (evidence_of n) s keeps in
    after_check_lem k w n (marked_ids s.sent) _ keeps' (frame.kept kept) frame.marks
