-- ===== src/Daemon/Fetch/Laws.antt =====
-- internal/daemon/daemon.go: the rounds of fetchLoop, and what the ETag of a list stands for.
use fizzy_connector.Base.{
  ℕ, ◌≡◌, refl, sym, ap, ◌∙◌, inl, inr, Bool, true, false, List, [], ◌∷◌, ◌++◌, append_assoc,
  append-nil, Text, arith, if◌then◌else◌, same, ok, Error, Result-cases, In,
}
use fizzy_connector.Fizzy.{Notification}
use fizzy_connector.Store.Laws.{IsKept}
use fizzy_connector.Daemon.Effects.{Sys}
use fizzy_connector.Daemon.Scan.{Scanner, Sight, Notified, rescan, handle_notification}
use fizzy_connector.Daemon.Scan.Frames.{Keeps, marked_ids}
use fizzy_connector.Daemon.Scan.Notifications.{handle_notification_lem}
use fizzy_connector.Daemon.Fetch.{
  with_failure, rescan_pending, handle_all, Fetcher, fetch, Round, settled, handled_list, fetched,
  fetch_round,
}
use fizzy_connector.Daemon.Fetch.Files.{
  rescan-KeepsFiles, rescan-marked, handle_notification-KeepsFiles,
}

rescan_pending_lem :
    (k : Scanner) (sights : ℕ → Sight) (ns : List ℕ) (s : Sys)
    → ((n : ℕ) → Keeps (sights n).others)
    → IsKept s.store
    → IsKept (rescan_pending k sights ns s).1.store
      × (marked_ids (rescan_pending k sights ns s).1.sent ≡ marked_ids s.sent)
unfolding rescan_pending
rescan_pending_lem k sights [] s keeps kept = (kept, refl)
rescan_pending_lem k sights (n ∷ ns) s keeps kept =
    let (kept', marks) =
      rescan_pending_lem k sights ns (rescan k (sights n) n s).1 keeps
        (rescan-KeepsFiles k (sights n) n s (keeps n) kept) in
    (kept', marks ∙ rescan-marked k (sights n) n s (keeps n))

unfoldable pub unread_ids : List Notification → List Text
unread_ids [] = []
unread_ids (n ∷ ns) = let rest = unread_ids ns in if n.is_read then rest else n.id ∷ rest

-- A notification that is handled without an error: one request marks it as read, and Fizzy accepted it.
handled_marked :
    (k : Scanner) (w : Notified) (n : Notification) (s : Sys)
    → IsKept s.store
    → Keeps w.first.others
    → Keeps w.second.others
    → (handle_notification k w n s).0 ≡ ok tt
    → (marked_ids (handle_notification k w n s).1.sent ≡ marked_ids s.sent ++ n.id ∷ [])
      × (w.marked ≡ ok tt)
handled_marked k w n s kept keeps keeps' h =
    elim (handle_notification_lem k w n s kept keeps keeps') [
      | inl (marks, (e, failed)) ↦ absurd (ground arith)
      | inr (marks, inl (gone, outcome)) ↦ (marks, sym outcome ∙ h)
      | inr (marks, inr (scanned, inl (file, mark, (e, failed)))) ↦ absurd (ground arith)
      | inr (marks, inr (scanned, inr (accepted, later))) ↦ (marks, accepted)
    ]

-- Fizzy accepted the request for each notification that is not read.
abbrev pub AreAccepted : (Notification → Notified) → List Notification → Type 0
AreAccepted seen ns = (n : Notification) → In n ns → n.is_read ≡ false → (seen n).marked ≡ ok tt

-- Without failures, the notifications `ids` were marked as read since s, and P.
abbrev IsMarkedAll : Sys → List (ℕ × Error) × Sys → List Text → Type 0 → Type 0
IsMarkedAll s x ids P = x.0 ≡ [] → (marked_ids x.1.sent ≡ marked_ids s.sent ++ ids) × P

if-IsMarkedAll :
    (s : Sys) (b : Bool) (x y : List (ℕ × Error) × Sys) (ids more : List Text) (P : Type 0)
    → (b ≡ true → IsMarkedAll s x ids P)
    → (b ≡ false → IsMarkedAll s y more P)
    → IsMarkedAll s (if b then x else y) (if b then ids else more) P
if-IsMarkedAll s true x y ids more P f g = f refl
if-IsMarkedAll s false x y ids more P f g = g refl

more-AreAccepted :
    (seen : Notification → Notified) (n : Notification) (ns : List Notification)
    → (n.is_read ≡ false → (seen n).marked ≡ ok tt)
    → AreAccepted seen ns
    → AreAccepted seen (n ∷ ns)
more-AreAccepted seen n ns first rest m (inl e) unread =
    ap (λ x. (seen x).marked) e ∙ first (ap (λ (x : Notification). x.is_read) (sym e) ∙ unread)
more-AreAccepted seen n ns first rest m (inr i) unread = rest m i unread

handle_all_lem :
    (k : Scanner) (seen : Notification → Notified) (ns : List Notification) (s : Sys)
    → ((n : Notification) → Keeps (seen n).first.others × Keeps (seen n).second.others)
    → IsKept s.store
    → IsMarkedAll s (handle_all k seen ns s) (unread_ids ns) (AreAccepted seen ns)
unfolding handle_all unread_ids with_failure
handle_all_lem k seen [] s keeps kept = λ h. (rw append-nil refl, λ n i. elim i [ ])
handle_all_lem k seen (n ∷ ns) s keeps kept =
    let t = (handle_notification k (seen n) n s).1 in
    let later = handle_all k seen ns t in
    if-IsMarkedAll s n.is_read (handle_all k seen ns s)
      (with_failure n.card_number (handle_notification k (seen n) n s).0 later.0, later.1)
      (unread_ids ns) (n.id ∷ unread_ids ns) (AreAccepted seen (n ∷ ns))
      (λ e h.
        let (marks, accepted) = handle_all_lem k seen ns s keeps kept h in
        (marks, more-AreAccepted seen n ns (λ e'. absurd (ground arith)) accepted))
      (λ e h. elim (Result-cases (handle_notification k (seen n) n s).0) [
        | inl (x, failed) ↦ absurd (ground arith)
        | inr (u, done) ↦
            let (first, second) = keeps n in
            let (mark, accepted) = handled_marked k (seen n) n s kept first second done in
            let (marks, all) =
              handle_all_lem k seen ns t keeps
                (handle_notification-KeepsFiles k (seen n) n s first second kept) (ground arith) in
            (
              marks
                  ∙ ap (λ ids. ids ++ unread_ids ns) mark
                  ∙ append_assoc (marked_ids s.sent) (n.id ∷ []) (unread_ids ns),
              more-AreAccepted seen n ns (λ e'. accepted) all,
            )
      ])

settled_lem :
    (r : Round) (failures : List (ℕ × Error)) (etag : Text) (x : List (ℕ × Error) × Sys)
    → r.draining ≡ false
    → same (settled r failures (handled_list etag x)).etag [] ≡ false
    → (x.0 ≡ []) × ((settled r failures (handled_list etag x)).sys ≡ x.1)
unfolding settled handled_list same
settled_lem r [] etag ([], s) running left = (refl, refl)
settled_lem r [] etag (y ∷ ys, s) running left = absurd (ground arith)
settled_lem r (z ∷ zs) etag ([], s) running left = absurd (ground arith)
settled_lem r (z ∷ zs) etag (y ∷ ys, s) running left = absurd (ground arith)

-- A round that leaves an ETag behind, of a daemon that does not drain, and to which Fizzy gave a list
-- of notifications: requests mark every notification of that list that is not read as read, in order and
-- one time, and none else, and Fizzy accepted each of them. So no failed notification hides behind an
-- ETag. The files hold their own cards, and the rest of the daemon leaves the numbers of the cards and
-- their marks for a scan.
pub fetch_round-unread_ids :
    (k : Scanner) (r : Round) (f : Fetcher) (ns : List Notification) (etag : Text)
    → IsKept f.sys.store
    → ((n : ℕ) → Keeps (r.sights n).others)
    → ((n : Notification) → Keeps (r.seen n).first.others × Keeps (r.seen n).second.others)
    → r.draining ≡ false
    → r.answer ≡ ok (ns, etag)
    → same (fetch_round k r f).etag [] ≡ false
    → (marked_ids (fetch_round k r f).sys.sent ≡ marked_ids f.sys.sent ++ unread_ids ns)
      × AreAccepted r.seen ns
unfolding fetch_round fetched fetch
fetch_round-unread_ids k r f ns etag kept keeps keeps' running answer left =
    let (failures, s) = rescan_pending k r.sights r.pending f.sys in
    let (kept', marks) = rescan_pending_lem k r.sights r.pending f.sys keeps kept in
    let all = handle_all k r.seen ns s in
    let out : fetch_round k r f ≡ settled r failures (handled_list etag all) =
      ap (λ a. settled r failures (fetch k r.seen a (record { etag = f.etag; sys = s }))) answer in
    let (none_failed, at_end) =
      settled_lem r failures etag all running (ap (λ x. same x.etag []) (sym out) ∙ left) in
    let (all_marks, accepted) = handle_all_lem k r.seen ns s keeps' kept' none_failed in
    (
      ap (λ x. marked_ids x.sys.sent) out
          ∙ ap (λ x. marked_ids x.sent) at_end
          ∙ all_marks
          ∙ ap (λ ids. ids ++ unread_ids ns) marks,
      accepted,
    )
