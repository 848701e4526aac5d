-- ===== src/Daemon/Prompt/Shown.antt =====
-- internal/daemon/prompt.go: which comments a document shows, in terms of the people, the times and the items.
use fizzy_connector.Base.{
  ℕ, ◌<◌, ◌≡◌, ◌≢◌, ◌↔◌, ◌⊎◌, inl, inr, refl, sym, ap, ◌∙◌, Bool, true, false, not, ◌&&◌, ◌||◌,
  Bool-cases, List, [], ◌∷◌, Text, arith, ltb, same, same_iff, mem_text, In,
}
use fizzy_connector.Fizzy.{Comment}
use fizzy_connector.Config.{is_trusted}
use fizzy_connector.Store.{Item, is_handled}
use fizzy_connector.Daemon.Prompt.{
  PromptInput, trust_of, is_you, is_not_trusted, is_trigger, is_future_trigger, is_read,
}

-- A comment is the text of an item of the turn.
abbrev pub IsItem : List Item → Text → Type 0
IsItem items id = (i : Item) × In i items × (i.trigger_id ≡ id)

-- A comment is new to the session: it is the first turn, or the comment is after the last prompt and of
-- somebody other than the bot, or it is one of the items.
abbrev pub IsNew : PromptInput → Comment → Type 0
IsNew q c =
    (q.first_turn ≡ true)
    ⊎ (((q.prompted_up_to < c.created_at) × (c.creator.id ≢ q.cfg.bot_user_id))
        ⊎ IsItem q.items c.id)

-- A comment is no mention that a later scan will queue: it was handled, or is of the bot, or does not
-- mention the bot.
abbrev pub IsSettled : PromptInput → Comment → Type 0
IsSettled q c =
    In c.id q.state.handled
    ⊎ ((c.creator.id ≡ q.cfg.bot_user_id) ⊎ (q.libs.mentions c.html q.cfg.bot_user_id ≡ false))

-- A comment of the bot, or of a trusted user.
abbrev pub IsByTrusted : PromptInput → Comment → Type 0
IsByTrusted q c = (c.creator.id ≡ q.cfg.bot_user_id) ⊎ In c.creator.id q.cfg.trusted_user_ids

abbrev pub Shows : PromptInput → Comment → Type 0
Shows q c = IsNew q c × (IsSettled q c × IsByTrusted q c)

pub is_trigger_iff :
    (items : List Item) (id : Text) → (is_trigger items id ≡ true) ↔ IsItem items id
unfolding is_trigger
is_trigger_iff [] id = ((λ h. absurd (ground arith)), (λ (i, found, _). elim found [ ]))
is_trigger_iff (i ∷ is) id = (
  (λ h. elim (Bool-cases (same i.trigger_id id)) [
    | inl e ↦ (i, inl refl, (same_iff i.trigger_id id).0 e)
    | inr e ↦
        let (j, found, is_id) = (is_trigger_iff is id).0 (ground arith) in (j, inr found, is_id)
  ]),
  (λ (j, found, is_id). elim found [
    | inl e ↦
        let here = (same_iff i.trigger_id id).1 (ap (λ (x : Item). x.trigger_id) (sym e) ∙ is_id) in
        ground arith
    | inr later ↦ let rest = (is_trigger_iff is id).1 (j, later, is_id) in ground arith
  ]),
)

same-false : (s t : Text) → (same s t ≡ false) ↔ (s ≢ t)
same-false s t = (
  (λ h e. absurd (ground (arith, same_iff s t))),
  (λ h. elim (Bool-cases (same s t)) [ inl e ↦ absurd (h ((same_iff s t).0 e)) | inr e ↦ e ]),
)

is_you_lem : (q : PromptInput) (id : Text) → is_you (trust_of q id) ≡ same id q.cfg.bot_user_id
unfolding is_you trust_of
is_you_lem q id = ground arith

is_not_trusted_lem :
    (q : PromptInput) (id : Text)
    → not (is_not_trusted (trust_of q id))
      ≡ (same id q.cfg.bot_user_id || mem_text id q.cfg.trusted_user_ids)
unfolding is_not_trusted trust_of is_trusted
is_not_trusted_lem q id = ground arith

or_iff : {P Q : Type 0} (a b : Bool) → (a ≡ true) ↔ P → (b ≡ true) ↔ Q → ((a || b) ≡ true) ↔ (P ⊎ Q)
or_iff true b (to, back) (to', back') = ((λ h. inl (to refl)), (λ h. refl))
or_iff false b (to, back) (to', back') =
    ((λ h. inr (to' h)), (λ h. elim h [ inl p ↦ absurd (ground arith) | inr p ↦ back' p ]))

and_iff :
    {P Q : Type 0} (a b : Bool) → (a ≡ true) ↔ P → (b ≡ true) ↔ Q → ((a && b) ≡ true) ↔ (P × Q)
and_iff true b (to, back) (to', back') = ((λ h. (to refl, to' h)), (λ h. back' h.1))
and_iff false b (to, back) (to', back') = ((λ h. absurd (ground arith)), (λ h. back h.0))

ltb_iff : (a b : ℕ) → (ltb a b ≡ true) ↔ (a < b)
ltb_iff a b = ((λ h. ground arith), (λ h. ground arith))

not_iff : (b : Bool) → (not b ≡ true) ↔ (b ≡ false)
not_iff true = ((λ h. absurd (ground arith)), (λ h. absurd (ground arith)))
not_iff false = ((λ h. refl), (λ h. refl))

mem_text_iff : (a : Text) (xs : List Text) → (mem_text a xs ≡ true) ↔ In a xs
unfolding mem_text
mem_text_iff a [] = ((λ h. absurd (ground arith)), (λ h. elim h [ ]))
mem_text_iff a (x ∷ xs) =
    let (to, back) = or_iff (same x a) (mem_text a xs) (same_iff x a) (mem_text_iff a xs) in
    (
      (λ h. elim (to h) [ inl e ↦ inl (sym e) | inr later ↦ inr later ]),
      (λ h. elim h [ inl e ↦ back (inl (sym e)) | inr later ↦ back (inr later) ]),
    )

differ_iff : (s t : Text) → (not (same s t) ≡ true) ↔ (s ≢ t)
differ_iff s t = (
  (λ h. (same-false s t).0 ((not_iff (same s t)).0 h)),
  (λ h. (not_iff (same s t)).1 ((same-false s t).1 h)),
)

IsNew-iff :
    (q : PromptInput) (c : Comment)
    → ((q.first_turn
          || ((ltb q.prompted_up_to c.created_at && not (same c.creator.id q.cfg.bot_user_id))
              || is_trigger q.items c.id))
        ≡ true)
      ↔ IsNew q c
IsNew-iff q c =
    or_iff q.first_turn _ ((λ h. h), (λ h. h))
      (or_iff (ltb q.prompted_up_to c.created_at && not (same c.creator.id q.cfg.bot_user_id))
        (is_trigger q.items c.id)
        (and_iff (ltb q.prompted_up_to c.created_at) (not (same c.creator.id q.cfg.bot_user_id))
          (ltb_iff q.prompted_up_to c.created_at) (differ_iff c.creator.id q.cfg.bot_user_id))
        (is_trigger_iff q.items c.id))

IsSettled-iff :
    (q : PromptInput) (c : Comment)
    → ((mem_text c.id q.state.handled
          || (same c.creator.id q.cfg.bot_user_id
              || not (q.libs.mentions c.html q.cfg.bot_user_id)))
        ≡ true)
      ↔ IsSettled q c
IsSettled-iff q c = or_iff (mem_text c.id q.state.handled) _ (mem_text_iff c.id q.state.handled) (
    or_iff (same c.creator.id q.cfg.bot_user_id) _ (same_iff c.creator.id q.cfg.bot_user_id)
      (not_iff (q.libs.mentions c.html q.cfg.bot_user_id)))

IsByTrusted-iff :
    (q : PromptInput) (c : Comment)
    → ((same c.creator.id q.cfg.bot_user_id || mem_text c.creator.id q.cfg.trusted_user_ids) ≡ true)
      ↔ IsByTrusted q c
IsByTrusted-iff q c =
    or_iff (same c.creator.id q.cfg.bot_user_id) _ (same_iff c.creator.id q.cfg.bot_user_id)
      (mem_text_iff c.creator.id q.cfg.trusted_user_ids)

is_shown_tests :
    (q : PromptInput) (c : Comment)
    → (is_read q c && not (is_not_trusted (trust_of q c.creator.id))) ≡ (
        (q.first_turn
          || ((ltb q.prompted_up_to c.created_at && not (same c.creator.id q.cfg.bot_user_id))
              || is_trigger q.items c.id))
        && ((mem_text c.id q.state.handled
              || (same c.creator.id q.cfg.bot_user_id
                  || not (q.libs.mentions c.html q.cfg.bot_user_id)))
            && (same c.creator.id q.cfg.bot_user_id
                || mem_text c.creator.id q.cfg.trusted_user_ids)))
unfolding is_read is_future_trigger is_handled
is_shown_tests q c = ground (arith, is_you_lem q c.creator.id, is_not_trusted_lem q c.creator.id)

pub is_shown_iff :
    (q : PromptInput) (c : Comment)
    → ((is_read q c && not (is_not_trusted (trust_of q c.creator.id))) ≡ true) ↔ Shows q c
is_shown_iff q c =
    let (to, back) =
      and_iff _ _ (IsNew-iff q c) (and_iff _ _ (IsSettled-iff q c) (IsByTrusted-iff q c)) in
    ((λ h. to (sym (is_shown_tests q c) ∙ h)), (λ h. is_shown_tests q c ∙ back h))

pub is_asked_iff :
    (q : PromptInput) (c : Comment)
    → ((is_read q c && not (is_not_trusted (trust_of q c.creator.id)) && is_trigger q.items c.id)
        ≡ true)
      ↔ (Shows q c × IsItem q.items c.id)
is_asked_iff q c = and_iff _ _ (is_shown_iff q c) (is_trigger_iff q.items c.id)
