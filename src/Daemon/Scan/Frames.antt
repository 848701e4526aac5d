-- ===== src/Daemon/Scan/Frames.antt =====
-- internal/daemon/daemon.go: what each step of a scan leaves as it is.
use fizzy_connector.Base.{
  ℕ, ◌≡◌, refl, sym, ◌∙◌, Bool, not, ◌&&◌, Option, List, [], ◌∷◌, ◌++◌, append-nil, append_assoc,
  Text, codes, arith, if_rule, Result, ok, err,
}
use fizzy_connector.Fizzy.{User, Card}
use fizzy_connector.Store.{
  CardState, Store, update, Item, is_handled, Kind, description, comment, agent_message,
}
use fizzy_connector.Daemon.Effects.{
  Sent, commented, reacted_to_card, reacted_to_comment, toggled_assignment, marked_read, kicked,
  Sys, M, bind, send, get_card, update_card, meanwhile,
}
use fizzy_connector.Daemon.Triggers.{
  Evidence, Trigger, record_trigger, record_triggers, description_id, long_description_mention,
  only_trusted_members,
}
use fizzy_connector.Daemon.Scan.{
  Scanner, Sight, board_trust, explain_long_description, acknowledge, acknowledge_all, any_trusted,
  with_members, found_card, reaction, announce, record_found, check_card,
}

-- A change that leaves the number of a card and its mark for a scan.
abbrev pub Keeps : (CardState → CardState) → Type 0
Keeps f = (c : CardState) → ((f c).number ≡ c.number) × ((f c).needs_scan ≡ c.needs_scan)

pub record_triggers-Keeps : (ts : List Trigger) → Keeps (record_triggers ts)
unfolding record_triggers record_trigger
record_triggers-Keeps [] c = (refl, refl)
record_triggers-Keeps (t ∷ ts) c =
    let (number, mark) = record_triggers-Keeps ts (record_trigger t c) in
    (
      number ∙ (unfold record_trigger in ground arith),
      mark ∙ (unfold record_trigger in ground arith),
    )

-- The notifications that were marked as read.
marked_id : Sent → List Text
marked_id (marked_read id) = id ∷ []
marked_id (commented n t) = []
marked_id (reacted_to_card n) = []
marked_id (reacted_to_comment n id) = []
marked_id (toggled_assignment n id) = []
marked_id (kicked n) = []

unfoldable pub marked_ids : List Sent → List Text
unfolding marked_id
marked_ids [] = []
marked_ids (x ∷ xs) = marked_id x ++ marked_ids xs

pub marked_ids-append :
    (xs : List Sent) (x : Sent) → marked_ids (xs ++ x ∷ []) ≡ marked_ids xs ++ marked_ids (x ∷ [])
unfolding marked_ids
marked_ids-append [] x = refl
marked_ids-append (y ∷ ys) x = rw (marked_ids-append ys x) (sym (append_assoc (marked_id y) _ _))

reaction-unmarked : (n : ℕ) (i : Item) (k : Kind) → marked_ids (reaction n i k ∷ []) ≡ []
unfolding reaction marked_ids
reaction-unmarked n i description = refl
reaction-unmarked n i comment = refl
reaction-unmarked n i agent_message = refl

-- A property of the store that steps may keep, the pending scans, and the notifications marked.
pub record IsFrame (P : Store → Type 0) (s t : Sys) : Type 0 where
  pub kept : P s.store → P t.store
  pub scans : t.pending_scans ≡ s.pending_scans
  pub marks : marked_ids t.sent ≡ marked_ids s.sent

module _ (P : Store → Type 0) (n : ℕ)
    (updates : (s : Store) (f : CardState → CardState) → Keeps f → P s → P (update s n f).1)
    (others : (s : Sys) (f : CardState → CardState)
      → Keeps f
      → P s.store
      → P (meanwhile n f s).1.store) where
  stay : (s : Sys) → IsFrame P s s
  stay s = record { kept = λ p. p; scans = refl; marks = refl }

  along : (s t u : Sys) → IsFrame P s t → IsFrame P t u → IsFrame P s u
  along s t u f g = record {
    kept = λ p. g.kept (f.kept p);
    scans = g.scans ∙ f.scans;
    marks = g.marks ∙ f.marks;
  }

  stay_get : (s : Sys) → IsFrame P s (get_card n s).1
  unfolding get_card
  stay_get s = stay s

  send-IsFrame :
      (A : Type 0) (x : Sent) (r : Result A) (s : Sys)
      → marked_ids (x ∷ []) ≡ []
      → IsFrame P s (send x r s).1
  unfolding send
  send-IsFrame A x r s e = record {
    kept = λ p. p;
    scans = refl;
    marks = marked_ids-append s.sent x ∙ rw e (append-nil (marked_ids s.sent));
  }

  update_card-IsFrame :
      (f : CardState → CardState) (s : Sys) → Keeps f → IsFrame P s (update_card n f s).1
  unfolding update_card
  update_card-IsFrame f s k = record { kept = updates s.store f k; scans = refl; marks = refl }

  meanwhile-IsFrame :
      (f : CardState → CardState) (s : Sys) → Keeps f → IsFrame P s (meanwhile n f s).1
  meanwhile-IsFrame f s k = record {
    kept = others s f k;
    scans = unfold meanwhile in refl;
    marks = unfold meanwhile in refl;
  }

  -- A step after a step that may fail.
  bind-IsFrame :
      (A B : Type 0) (r : Result A × Sys) (f : A → M B) (s : Sys)
      → IsFrame P s r.1
      → ((a : A) (t : Sys) → IsFrame P t (f a t).1)
      → IsFrame P s (bind r f).1
  bind-IsFrame A B (err e, t) f s h k = h
  bind-IsFrame A B (ok a, t) f s h k = along s t _ h (k a t)

  acknowledge-IsFrame : (v : Sight) (i : Item) (s : Sys) → IsFrame P s (acknowledge v n i s)
  unfolding acknowledge
  acknowledge-IsFrame v i s = send-IsFrame _ _ (v.reacted i) s (reaction-unmarked n i i.kind)

  acknowledge_all-IsFrame :
      (v : Sight) (ts : List Trigger) (s : Sys) → IsFrame P s (acknowledge_all v n ts s)
  unfolding acknowledge_all
  acknowledge_all-IsFrame v [] s = stay s
  acknowledge_all-IsFrame v (t ∷ ts) s =
      along s _ _
        (if_rule (IsFrame P s) t.trusted _ _ (λ h. acknowledge-IsFrame v t.item s) (λ h. stay s))
        (acknowledge_all-IsFrame v ts _)

  announce-IsFrame : (v : Sight) (ts : List Trigger) (s : Sys) → IsFrame P s (announce v n ts s).1
  unfolding announce marked_ids
  announce-IsFrame v ts s =
      if_rule {A = Result (Unit {0}) × Sys} (λ r. IsFrame P s r.1) (any_trusted ts) _ _
        (λ h. along s _ _ (acknowledge_all-IsFrame v ts s) (send-IsFrame _ _ _ _ refl))
        (λ h. acknowledge_all-IsFrame v ts s)

  record_found-IsFrame :
      (v : Sight) (ts : List Trigger) (s : Sys) → IsFrame P s (record_found v n ts s).1
  unfolding record_found
  record_found-IsFrame v [] s = stay s
  record_found-IsFrame v (t ∷ ts) s =
      bind-IsFrame _ _ (update_card n (record_triggers (t ∷ ts)) s) _ s
        (update_card-IsFrame _ s (record_triggers-Keeps (t ∷ ts)))
        (λ _ u. announce-IsFrame v (t ∷ ts) u)

  explain-IsFrame :
      (k : Scanner) (v : Sight) (id : Text) (s : Sys)
      → IsFrame P s (explain_long_description k v n id s).1
  unfolding explain_long_description marked_ids
  explain-IsFrame k v id s =
      bind-IsFrame _ _ (send _ v.noticed s) _ s (send-IsFrame _ _ v.noticed s refl) (λ _ t.
        bind-IsFrame _ _ (update_card n _ t) _ t (update_card-IsFrame _ t (λ c. (refl, refl)))
          (λ _ u. stay u))

  with_members-IsFrame :
      (k : Scanner) (v : Sight) (card : Card) (c : CardState) (members : List User) (s : Sys)
      → IsFrame P s (with_members k v n card c members s).1
  unfolding with_members
  with_members-IsFrame k v card c members s =
      if_rule {A = M Bool} (λ m. IsFrame P s (m s).1)
        (not (only_trusted_members k.cfg members)
          && not (is_handled c (description_id k.libs (codes "long-description") card.description)))
        _ _
        (λ h.
          bind-IsFrame _ _ (explain_long_description k v n _ s) _ s (explain-IsFrame k v _ s)
            (λ _ t. stay t))
        (λ h. stay s)

  pub board_trust-IsFrame :
      (k : Scanner) (v : Sight) (e : Option Evidence) (card : Card) (c : CardState) (s : Sys)
      → IsFrame P s (board_trust k v n e card c s).1
  unfolding board_trust
  board_trust-IsFrame k v e card c s =
      if_rule {A = M Bool} (λ m. IsFrame P s (m s).1) (long_description_mention k.libs k.cfg card e)
        _ _
        (λ h.
          bind-IsFrame _ _ (v.members, s) _ s (stay s)
            (λ members t. with_members-IsFrame k v card c members t))
        (λ h. stay s)

  -- A scan keeps what all its updates keep, and the notifications and the pending scans.
  pub check_card-IsFrame :
      (k : Scanner) (v : Sight) (e : Option Evidence) (s : Sys)
      → Keeps v.others
      → IsFrame P s (check_card k v n e s).1
  unfolding check_card
  check_card-IsFrame k v e s keeps =
      bind-IsFrame _ _ (found_card v.card, s) _ s (stay s)
        (λ card t.
          bind-IsFrame _ _ (v.comments, t) _ t (stay t)
            (λ comments u. bind-IsFrame _ _ (get_card n u) _ u (stay_get u) (λ c x.
              bind-IsFrame _ _ (board_trust k v n e card c x) _ x
                (board_trust-IsFrame k v e card c x)
                (λ trusted y.
                  bind-IsFrame _ _ (meanwhile n v.others y) _ y (meanwhile-IsFrame v.others y keeps)
                    (λ _ z. record_found-IsFrame v _ z)))))
