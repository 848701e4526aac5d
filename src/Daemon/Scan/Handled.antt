-- ===== src/Daemon/Scan/Handled.antt =====
-- internal/daemon/daemon.go, checkCard: a scan that succeeds leaves no mention unhandled.
use fizzy_connector.Base.{
  ℕ, ◌≡◌, refl, sym, ◌∙◌, ap, subst, inl, inr, Bool, true, false, not, ◌&&◌, if◌then◌else◌, Option,
  List, [], ◌∷◌, arith, if_rule, Result, ok, err, In, any, same, same_refl, codes,
}
use fizzy_connector.Fizzy.{User, Card, Comment}
use fizzy_connector.Store.{CardState, get, is_handled}
use fizzy_connector.Store.Laws.{IsKept, update-done, update-IsKept}
use fizzy_connector.Daemon.Effects.{
  Sys, M, bind, pure, lift, ◌>>=◌, send, get_card, update_card, meanwhile, bind-ok,
}
use fizzy_connector.Daemon.Triggers.{
  Evidence, Trigger, record_triggers, find_triggers, long_description_mention, only_trusted_members,
  description_id,
}
use fizzy_connector.Daemon.Triggers.Records.{record_triggers-handled}
use fizzy_connector.Daemon.Scan.{
  Scanner, Sight, scan_of, check_card, record_found, announce, acknowledge, acknowledge_all,
  board_trust, with_members, explain_long_description, any_trusted, found_card,
}
use fizzy_connector.Daemon.Scan.Frames.{Keeps, record_triggers-Keeps, board_trust-IsFrame}
use fizzy_connector.Daemon.Scan.Notifications.{meanwhile-IsKept}

acknowledge_all-store :
    (v : Sight) (n : ℕ) (ts : List Trigger) (s : Sys) → (acknowledge_all v n ts s).store ≡ s.store
unfolding acknowledge_all acknowledge send
acknowledge_all-store v n [] s = refl
acknowledge_all-store v n (t ∷ ts) s =
    acknowledge_all-store v n ts _
    ∙ if_rule (λ (u : Sys). u.store ≡ s.store) t.trusted _ _ (λ h. refl) (λ h. refl)

announce-store :
    (v : Sight) (n : ℕ) (ts : List Trigger) (s : Sys) → (announce v n ts s).1.store ≡ s.store
unfolding announce send
announce-store v n ts s =
    if_rule {A = Result (Unit {0}) × Sys} (λ r. r.1.store ≡ s.store) (any_trusted ts) _ _
      (λ h. acknowledge_all-store v n ts s) (λ h. acknowledge_all-store v n ts s)

any-In :
    (ts : List Trigger) (t : Trigger)
    → In t ts
    → any (λ u. same u.item.trigger_id t.item.trigger_id) ts ≡ true
unfolding any
any-In [] t h = elim h [ ]
any-In (u ∷ us) t (inl e) = rw (sym e) (ground (arith, same_refl t.item.trigger_id))
any-In (u ∷ us) t (inr h) = ground (arith, any-In us t h)

record_found-handled :
    (v : Sight) (n : ℕ) (ts : List Trigger) (s : Sys) (t : Trigger)
    → IsKept s.store
    → In t ts
    → (record_found v n ts s).0 ≡ ok tt
    → (after : CardState) × (get (record_found v n ts s).1.store n ≡ ok after)
      × (is_handled after t.item.trigger_id ≡ true)
unfolding record_found update_card
record_found-handled v n [] s t kept h done = elim h [ ]
record_found-handled v n (u ∷ us) s t kept h done =
    let change = record_triggers (u ∷ us) in
    let (after, saved, _, e) =
      bind-ok _ _ (update_card n change s) (λ _. announce v n (u ∷ us)) tt done in
    let (before, _, made, found) =
      update-done s.store n change after kept (λ c. (record_triggers-Keeps (u ∷ us) c).0) saved in
    (
      after,
      ap (λ r. get r.1.store n) e
          ∙ ap (λ st. get st n) (announce-store v n (u ∷ us) (update_card n change s).1)
          ∙ found,
      rw made (
          record_triggers-handled (u ∷ us) before t.item.trigger_id
          ∙ ground (arith, any-In (u ∷ us) t h)),
    )

same_ok : {A : Type 0} (r : Result A) (a b : A) → r ≡ ok a → r ≡ ok b → a ≡ b
same_ok r a b h g = ground arith

same_card : (r : Result Card) (a b : Card) → r ≡ ok a → found_card r ≡ ok b → a ≡ b
unfolding found_card
same_card r a b h g = ground arith

pub are_trusted : Scanner → Result (List User) → Bool
are_trusted k (err e) = false
are_trusted k (ok members) = only_trusted_members k.cfg members

-- Whether the members are known and trusted, asked for a long mention in the description.
abbrev pub is_trusted_board : Scanner → Sight → Card → Option Evidence → Bool
is_trusted_board k v card e =
    long_description_mention k.libs k.cfg card e && are_trusted k v.members

explained-ok : (r : Result (Unit {0}) × Sys) (b c : Bool) → (bind r (λ _. pure b)).0 ≡ ok c → b ≡ c
explained-ok (ok _, s) b c h = ground arith
explained-ok (err e, s) b c h = absurd (ground arith)

asked-ok :
    (k : Scanner) (v : Sight) (n : ℕ) (card : Card) (state : CardState) (s : Sys)
    (members : Result (List User)) (b : Bool)
    → (bind (members, s) (with_members k v n card state)).0 ≡ ok b
    → are_trusted k members ≡ b
unfolding are_trusted with_members
asked-ok k v n card state s (err e) b h = absurd (ground arith)
asked-ok k v n card state s (ok members) b h =
    let id = description_id k.libs (codes "long-description") card.description in
    if_rule {A = M Bool} (λ q. (q s).0 ≡ ok b → only_trusted_members k.cfg members ≡ b)
      (not (only_trusted_members k.cfg members) && not (is_handled state id)) _ _
      (λ e h.
        explained-ok (explain_long_description k v n id s) (only_trusted_members k.cfg members) b h)
      (λ e h. ground arith) h

if_long :
    (long : Bool) (asked : M Bool) (s : Sys) (trusted b : Bool)
    → ((asked s).0 ≡ ok b → trusted ≡ b)
    → ((if long then asked else pure false) s).0 ≡ ok b
    → (long && trusted) ≡ b
if_long true asked s trusted b f h = f h
if_long false asked s trusted b f h = ground arith

board_trust-ok :
    (k : Scanner) (v : Sight) (n : ℕ) (e : Option Evidence) (card : Card) (state : CardState)
    (s : Sys) (b : Bool)
    → (board_trust k v n e card state s).0 ≡ ok b
    → is_trusted_board k v card e ≡ b
unfolding board_trust
board_trust-ok k v n e card state s b h =
    if_long (long_description_mention k.libs k.cfg card e)
      (lift v.members >>= with_members k v n card state) s (are_trusted k v.members) b
      (asked-ok k v n card state s v.members b) h

-- When a scan succeeds, in a store whose files hold their own cards and with the rest of the daemon
-- leaving the number of a card: it read a state of the card, and afterwards the card is read as a state
-- in which each trigger is handled that is found with that first state, where the board counts as trusted
-- when the description is a long mention and the members are known and all trusted.
pub check_card-handled :
    (k : Scanner) (v : Sight) (n : ℕ) (e : Option Evidence) (s : Sys) (card : Card)
    (comments : List Comment)
    → IsKept s.store
    → Keeps v.others
    → v.card ≡ ok card
    → v.comments ≡ ok comments
    → (check_card k v n e s).0 ≡ ok tt
    → (state : CardState) × (get s.store n ≡ ok state)
      × ((t : Trigger)
          → In t (find_triggers (scan_of k v (is_trusted_board k v card e)) state card comments e)
          → (after : CardState) × (get (check_card k v n e s).1.store n ≡ ok after)
            × (is_handled after t.item.trigger_id ≡ true))
unfolding check_card found_card get_card
check_card-handled k v n e s card comments kept keeps card_e comments_e done =
    let (c0, card_h, done0, e0) = bind-ok _ _ (found_card v.card, s) _ tt done in
    let (cs0, comments_h, done1, e1) = bind-ok _ _ (v.comments, s) _ tt done0 in
    let (state, state_h, done2, e2) = bind-ok _ _ (get_card n s) _ tt done1 in
    let (trusted, trusted_h, done3, e3) = bind-ok _ _ (board_trust k v n e c0 state s) _ tt done2 in
    let u = (board_trust k v n e c0 state s).1 in
    let (_, others_h, done4, e4) = bind-ok _ _ (meanwhile n v.others u) _ tt done3 in
    let frame =
      board_trust-IsFrame IsKept n (λ t f _. update-IsKept t n f) (meanwhile-IsKept n) k v e c0
        state s in
    let kept_then = meanwhile-IsKept n u v.others keeps (frame.kept kept) in
    (
      state,
      state_h,
      (λ t h.
          let on_board : is_trusted_board k v c0 e ≡ trusted =
            board_trust-ok k v n e c0 state s trusted trusted_h in
          let h' : In t (find_triggers (scan_of k v trusted) state c0 cs0 e) =
            subst (λ b. In t (find_triggers (scan_of k v b) state c0 cs0 e)) on_board
              (subst
                (λ c. In t (find_triggers (scan_of k v (is_trusted_board k v c e)) state c cs0 e))
                (same_card v.card card c0 card_e card_h)
                (subst
                  (λ cs.
                    In t
                      (find_triggers (scan_of k v (is_trusted_board k v card e)) state card cs e))
                  (same_ok v.comments comments cs0 comments_e comments_h) h)) in
          let (after, found, handled) =
            record_found-handled v n _ (meanwhile n v.others u).1 t kept_then h' done4 in
          (after, ap (λ r. get r.1.store n) (e0 ∙ e1 ∙ e2 ∙ e3 ∙ e4) ∙ found, handled)),
    )
