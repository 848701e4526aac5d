-- ===== src/Daemon/Triggers/Laws.antt =====
-- internal/daemon/triggers.go: who can give work to the bot.
use mathlib.Core.Option.{some-injective}
use fizzy_connector.Base.{
  ℕ, ◌+◌, ◌≡◌, refl, sym, subst, ◌↔◌, ◌⊎◌, inl, inr, Bool, true, false, not, ◌&&◌, ◌||◌, Option,
  none, some, List, [], ◌∷◌, Text, arith, same, In, In-append_left, In-append_right, In-of-append,
  ltb, Bool-cases, all, any, if◌then◌else◌, In-when, In-unless,
}
use fizzy_connector.Fizzy.{User, Card, Comment}
use fizzy_connector.Config.{Config, is_trusted}
use fizzy_connector.Store.{Item, CardState, is_handled}
use fizzy_connector.Daemon.Triggers.{
  Trigger, Evidence, Scan, add, description_item, comment_item, description_counts,
  description_triggers, comment_triggers, find_triggers, only_trusted_members, members_from,
}

-- The trigger of a mention: the item with its author, trusted as the author is.
abbrev pub trigger_of : Scan → Item → User → Trigger
trigger_of q item author = record {
  item = record item { author_id = author.id; author_name = author.name };
  author = author;
  trusted = is_trusted q.cfg author.id;
}

-- The text mentions the bot, its author is not the bot, and the item was not handled.
abbrev pub IsMention : Scan → CardState → Item → Text → User → Trigger → Type 0
IsMention q state item html author t =
    (t ≡ trigger_of q item author)
    × (is_handled state item.trigger_id ≡ false)
    × (same author.id q.cfg.bot_user_id ≡ false)
    × (q.libs.mentions html q.cfg.bot_user_id ≡ true)

-- A comment of the card that is no answer to an open permission question.
abbrev pub FromComment : Scan → CardState → List Comment → Trigger → Type 0
FromComment q state cs t =
    (c : Comment) × In c cs
    × ((q.approval_pending && q.is_approval_answer (q.libs.plain_text c.html)) ≡ false)
    × IsMention q state (comment_item c) c.html c.creator t

-- A description that the notification proves.
abbrev pub FromDescription : Scan → CardState → Card → Option Evidence → Trigger → Type 0
FromDescription q state card evidence t =
    (e : Evidence) × (evidence ≡ some e)
    × (description_counts q card e ≡ true)
    × IsMention q state (description_item q.libs card) card.description_html e.mentioner t

module _ (q : Scan) (state : CardState) (t : Trigger) where
  In-add :
      (item : Item) (html : Text) (author : User)
      → In t (add q state item html author) ↔ IsMention q state item html author t
  unfolding add
  In-add item html author =
      elim (Bool-cases (
        is_handled state item.trigger_id
        || same author.id q.cfg.bot_user_id
        || not (q.libs.mentions html q.cfg.bot_user_id))) [
          | inl e ↦ rw e ((λ h. elim h [ ]), (λ m. absurd (ground arith)))
          | inr e ↦ rw e (
            (λ h. elim h [
              | inl p ↦ (p, ground arith, ground arith, ground arith)
              | inr p ↦ elim p [ ]
            ]),
            (λ m. inl m.0),
          )
        ]

  In-description :
      (card : Card) (e : Option Evidence)
      → In t (description_triggers q state card e) ↔ FromDescription q state card e t
  unfolding description_triggers
  In-description card none = ((λ h. elim h [ ]), (λ f. absurd (ground arith)))
  In-description card (some e) = (
    (λ h.
        let g = (In-when t _ _).0 h in
        (
          e,
          refl,
          g.0,
          (In-add (description_item q.libs card) card.description_html e.mentioner).0 g.1,
        )),
    (λ f.
        let same_evidence = λ (x : Evidence). In t (
          if description_counts q card x
          then add q state (description_item q.libs card) card.description_html x.mentioner
          else []) in
        subst same_evidence (sym (some-injective e f.0 f.1)) (
          (In-when t _ _).1 (
            f.2,
            (In-add (description_item q.libs card) card.description_html f.0.mentioner).1 f.3,
          ))),
  )

  In-comments : (cs : List Comment) → In t (comment_triggers q state cs) ↔ FromComment q state cs t
  unfolding comment_triggers
  In-comments [] = ((λ h. elim h [ ]), (λ f. elim f.1 [ ]))
  In-comments (c ∷ cs) = (
    (λ h. elim (In-of-append t _ _ h) [
      | inl here ↦
          let g = (In-unless t _ _).0 here in
          (c, inl refl, g.0, (In-add (comment_item c) c.html c.creator).0 g.1)
      | inr there ↦ let f = (In-comments cs).0 there in (f.0, inr f.1, f.2, f.3)
    ]),
    (λ f. elim f.1 [
      | inl e ↦
          let at = λ (x : Comment). In t (
            if q.approval_pending && q.is_approval_answer (q.libs.plain_text x.html)
            then []
            else add q state (comment_item x) x.html x.creator) in
          In-append_left t _ _ (
            subst at e
              ((In-unless t _ _).1 (f.2, (In-add (comment_item f.0) f.0.html f.0.creator).1 f.3)))
      | inr i ↦ In-append_right t _ _ ((In-comments cs).1 (f.0, i, f.2, f.3))
    ]),
  )

  -- A trigger is found exactly when it is a mention of the bot by somebody else that was not handled
  -- before, in a comment that answers no open question or in a description that the notification
  -- proves; it is trusted exactly when its author is a trusted user, and the item carries the author.
  pub find_triggers_iff :
      (card : Card) (cs : List Comment) (e : Option Evidence)
      → In t (find_triggers q state card cs e)
        ↔ (FromDescription q state card e t ⊎ FromComment q state cs t)
  unfolding find_triggers
  find_triggers_iff card cs e = (
    (λ h. elim (In-of-append t _ _ h) [
      | inl l ↦ inl ((In-description card e).0 l)
      | inr r ↦ inr ((In-comments cs).0 r)
    ]),
    (λ f. elim f [
      | inl l ↦ In-append_left t _ _ ((In-description card e).1 l)
      | inr r ↦ In-append_right t (description_triggers q state card e) _ ((In-comments cs).1 r)
    ]),
  )

-- Whether a member of a board may edit without making a description doubtful.
abbrev pub is_harmless : Config → User → Bool
is_harmless cfg m = same m.id cfg.bot_user_id || is_trusted cfg m.id

abbrev pub is_person : Config → User → Bool
is_person cfg m = not (same m.id cfg.bot_user_id)

members_from_lem :
    (cfg : Config) (people : ℕ) (ms : List User)
    → members_from cfg people ms
      ≡ (all (is_harmless cfg) ms && (ltb 0 people || any (is_person cfg) ms))
unfolding members_from all any
members_from_lem cfg people [] = ground arith
members_from_lem cfg people (m ∷ ms) =
    ground (arith, members_from_lem cfg people ms, members_from_lem cfg (people + 1) ms)

-- A board is trusted exactly when each member is the bot or trusted, and some member is not the bot.
pub only_trusted_members_lem :
    (cfg : Config) (ms : List User)
    → only_trusted_members cfg ms ≡ (all (is_harmless cfg) ms && any (is_person cfg) ms)
unfolding only_trusted_members
only_trusted_members_lem cfg ms = members_from_lem cfg 0 ms
