-- ===== src/Daemon/Triggers/Orders.antt =====
-- internal/daemon/triggers.go with internal/fizzy/mention.go: whose orders a scan queues.
use fizzy_connector.Base.{
  ◌≡◌, refl, sym, ap, ◌∙◌, subst, ◌⊎◌, inl, inr, true, false, Option, some, List, Text, In,
  In-of-append, same,
}
use fizzy_connector.Fizzy.{User, Card, Comment}
use fizzy_connector.Fizzy.Mentions.{Envelope, mentions}
use fizzy_connector.Fizzy.Mentions.Laws.{IsMentionOf, mentions-IsMentionOf}
use fizzy_connector.Config.{is_trusted}
use fizzy_connector.Store.{Item, CardState}
use fizzy_connector.Daemon.Triggers.{
  Trigger, Evidence, Scan, description_counts, find_triggers, record_triggers,
}
use fizzy_connector.Daemon.Triggers.Laws.{find_triggers_iff}
use fizzy_connector.Daemon.Triggers.Records.{new_items, new_items-trusted, record_triggers-queue}

-- A scan that reads the mentions of a text as the client does.
abbrev pub with_mentions : Envelope → Scan → Scan
with_mentions envelope q = record q { libs = record q.libs { mentions = mentions envelope } }

-- The text and its author: a comment of the card, or a description that counts, by the notification.
abbrev pub IsSource : Scan → Card → List Comment → Option Evidence → User → Text → Type 0
IsSource q card cs evidence author html =
    ((c : Comment) × In c cs × (author ≡ c.creator) × (html ≡ c.html))
    ⊎ ((e : Evidence) × (evidence ≡ some e)
        × (description_counts q card e ≡ true)
        × (author ≡ e.mentioner)
        × (html ≡ card.description_html))

-- An item that is the order of a trusted user other than the bot, in whose text an attachment tag
-- mentions the bot.
abbrev pub IsOrder : Envelope → Scan → Card → List Comment → Option Evidence → Item → Type 0
IsOrder envelope q card cs evidence item =
    (author : User) × (html : Text) × (item.author_id ≡ author.id)
    × (is_trusted q.cfg author.id ≡ true)
    × (same author.id q.cfg.bot_user_id ≡ false)
    × IsSource (with_mentions envelope q) card cs evidence author html
    × IsMentionOf envelope q.cfg.bot_user_id html

module _ (envelope : Envelope) (q : Scan) (state : CardState) (card : Card) (cs : List Comment)
    (evidence : Option Evidence) where
  trigger-IsOrder :
      (t : Trigger)
      → t.trusted ≡ true
      → In t (find_triggers (with_mentions envelope q) state card cs evidence)
      → IsOrder envelope q card cs evidence t.item
  trigger-IsOrder t trusted found =
      elim ((find_triggers_iff (with_mentions envelope q) state t card cs evidence).0 found) [
        | inl (e, given, counts, (is, handled, other, mention)) ↦ (
          e.mentioner,
          card.description_html,
          ap (λ (u : Trigger). u.item.author_id) is,
          sym (ap (λ (u : Trigger). u.trusted) is) ∙ trusted,
          other,
          inr (e, given, counts, refl, refl),
          mentions-IsMentionOf envelope card.description_html q.cfg.bot_user_id mention,
        )
        | inr (c, listed, answer, (is, handled, other, mention)) ↦ (
          c.creator,
          c.html,
          ap (λ (u : Trigger). u.item.author_id) is,
          sym (ap (λ (u : Trigger). u.trusted) is) ∙ trusted,
          other,
          inl (c, listed, refl, refl),
          mentions-IsMentionOf envelope c.html q.cfg.bot_user_id mention,
        )
      ]

  -- Whatever stands in the queue of a card after a scan stood there before, or is the order of a trusted
  -- user other than the bot, who wrote a comment of the card, or mentioned the bot in a description that the
  -- notification proves; and the text of it mentions the bot by an attachment tag.
  pub record_triggers-IsOrder :
      (item : Item)
      → In item
          (record_triggers
            (find_triggers (with_mentions envelope q) state card cs evidence)
            state).queue
      → In item state.queue ⊎ IsOrder envelope q card cs evidence item
  record_triggers-IsOrder item queued =
      let ts = find_triggers (with_mentions envelope q) state card cs evidence in
      elim (In-of-append item state.queue (new_items state ts)
        (subst (In item) (record_triggers-queue ts state) queued)) [
          | inl old ↦ inl old
          | inr new ↦
              let (t, found, trusted, e) = new_items-trusted ts state item new in
              inr (
                subst (IsOrder envelope q card cs evidence) (sym e)
                  (trigger-IsOrder t trusted found))
        ]
