-- ===== src/Daemon/Prompt/Spec.antt =====
-- internal/daemon/prompt.go: what a document shows, and what it asks for.
use fizzy_connector.Base.{
  ◌≤◌, ◌≡◌, refl, sym, ap, ◌∙◌, ◌≢◌, ◌↔◌, inl, inr, Bool, true, false, not, ◌&&◌, List, [], ◌∷◌,
  ◌++◌, append-nil, append_assoc, arith, if◌then◌else◌, map, filter_by, All, In, Bool-cases,
}
use fizzy_connector.Fizzy.{Comment}
use fizzy_connector.Daemon.Prompt.Shown.{IsItem, Shows, is_shown_iff, is_asked_iff}
use fizzy_connector.Daemon.Prompt.{
  PromptInput, Reading, not_trusted, trust_of, is_read, is_trigger, is_not_trusted, show, ask,
  author, read_comment, read_comments, item_requests, build_prompt,
}

-- A comment that the document shows: one that the loop reads, of the bot or of a trusted person.
abbrev pub is_shown : PromptInput → Comment → Bool
is_shown q c = is_read q c && not (is_not_trusted (trust_of q c.creator.id))

-- A comment that the document asks about: a shown one that the turn has as an item.
abbrev pub is_asked : PromptInput → Comment → Bool
is_asked q c = is_shown q c && is_trigger q.items c.id

read_comment-shown :
    (q : PromptInput) (c : Comment) (r : Reading)
    → (read_comment q c r).shown ≡ r.shown ++ (if is_shown q c then show q c ∷ [] else [])
unfolding read_comment
read_comment-shown q c r = ground (arith, append-nil r.shown)

read_comment-asked :
    (q : PromptInput) (c : Comment) (r : Reading)
    → (read_comment q c r).asked ≡ r.asked ++ (if is_asked q c then ask q c ∷ [] else [])
unfolding read_comment
read_comment-asked q c r = ground (arith, append-nil r.asked)

when_append {ℓ} :
    {A : Type ℓ} (b : Bool) (x : A) (rest : List A)
    → (if b then x ∷ [] else []) ++ rest ≡ (if b then x ∷ rest else rest)
when_append true x rest = refl
when_append false x rest = refl

map-when {ℓ κ} :
    {A : Type ℓ} {B : Type κ} (f : A → B) (b : Bool) (x : A) (rest : List A)
    → map f (if b then x ∷ rest else rest) ≡ (if b then f x ∷ map f rest else map f rest)
map-when f true x rest = refl
map-when f false x rest = refl

read_comments-shown :
    (q : PromptInput) (cs : List Comment) (r : Reading)
    → (read_comments q cs r).shown ≡ r.shown ++ map (show q) (filter_by (is_shown q) cs)
unfolding read_comments filter_by
read_comments-shown q [] r = sym (append-nil r.shown)
read_comments-shown q (c ∷ cs) r =
    read_comments-shown q cs (read_comment q c r)
    ∙ rw (read_comment-shown q c r) (
        append_assoc r.shown _ _
        ∙ ap (◌++◌ r.shown)
            (when_append (is_shown q c) (show q c) _ ∙ sym (map-when (show q) (is_shown q c) c _)))

read_comments-asked :
    (q : PromptInput) (cs : List Comment) (r : Reading)
    → (read_comments q cs r).asked ≡ r.asked ++ map (ask q) (filter_by (is_asked q) cs)
unfolding read_comments filter_by
read_comments-asked q [] r = sym (append-nil r.asked)
read_comments-asked q (c ∷ cs) r =
    read_comments-asked q cs (read_comment q c r)
    ∙ rw (read_comment-asked q c r) (
        append_assoc r.asked _ _
        ∙ ap (◌++◌ r.asked)
            (when_append (is_asked q c) (ask q c) _ ∙ sym (map-when (ask q) (is_asked q c) c _)))

-- The document shows exactly the comments for which `is_shown` holds, in order; and it asks for the
-- descriptions among the items of the turn, as their authors wrote them, and for exactly the comments
-- for which `is_asked` holds. A comment is shown exactly when three things hold: it is the first turn, or
-- the comment is later than the last prompt and not of the bot, or it is an item of the turn; it was
-- handled, or is of the bot, or does not mention the bot; and its author is the bot or in the list of
-- trusted users. A comment is asked for exactly when it is shown and is an item of the turn.
pub build_prompt_lem :
    (q : PromptInput)
    → let d = (build_prompt q).0 in
      ((d.comments ≡ map (show q) (filter_by (is_shown q) q.comments))
        × (d.requests ≡ item_requests q q.items ++ map (ask q) (filter_by (is_asked q) q.comments)))
      × (((c : Comment) → (is_shown q c ≡ true) ↔ Shows q c)
          × ((c : Comment) → (is_asked q c ≡ true) ↔ (Shows q c × IsItem q.items c.id)))
unfolding build_prompt
build_prompt_lem q = (
  (read_comments-shown q q.comments _, read_comments-asked q q.comments _),
  (is_shown_iff q, is_asked_iff q),
)

All-shown :
    (q : PromptInput) (cs : List Comment)
    → All (λ c. c.author.trust ≢ not_trusted) (map (show q) (filter_by (is_shown q) cs))
unfolding filter_by
All-shown q [] = tt
All-shown q (c ∷ cs) = elim (Bool-cases (is_shown q c)) [
  | inl shown ↦ rw shown (shown_trust c shown, All-shown q cs)
  | inr not_shown ↦ rw not_shown (All-shown q cs)
]
  where
    shown_trust : (x : Comment) → is_shown q x ≡ true → (show q x).author.trust ≢ not_trusted
    shown_trust x h = unfold show author is_not_trusted in λ e. ground arith

-- No comment of a person who is not trusted reaches the document.
pub build_prompt-trust :
    (q : PromptInput) → All (λ c. c.author.trust ≢ not_trusted) (build_prompt q).0.comments
build_prompt-trust q = rw (build_prompt_lem q).0.0 (All-shown q q.comments)

up_to_step :
    (q : PromptInput) (c : Comment) (r : Reading)
    → (r.up_to ≤ (read_comment q c r).up_to)
      × (is_read q c ≡ true → c.created_at ≤ (read_comment q c r).up_to)
unfolding read_comment
up_to_step q c r = (ground arith, λ h. ground arith)

up_to_grows :
    (q : PromptInput) (cs : List Comment) (r : Reading) → r.up_to ≤ (read_comments q cs r).up_to
unfolding read_comments
up_to_grows q [] r = omega arith
up_to_grows q (c ∷ cs) r =
    omega (arith, up_to_grows q cs (read_comment q c r), (up_to_step q c r).0)

up_to_covers :
    (q : PromptInput) (cs : List Comment) (r : Reading) (c : Comment)
    → In c cs
    → is_read q c ≡ true
    → c.created_at ≤ (read_comments q cs r).up_to
unfolding read_comments
up_to_covers q [] r c i h = elim i [ ]
up_to_covers q (x ∷ cs) r c (inr i) h = up_to_covers q cs (read_comment q x r) c i h
up_to_covers q (x ∷ cs) r c (inl e) h =
    let same_time : c.created_at ≡ x.created_at = ap (λ (y : Comment). y.created_at) e in
    let read_x : is_read q x ≡ true = rw (← e) h in
    omega (arith, up_to_grows q cs (read_comment q x r), (up_to_step q x r).1 read_x)

-- The time that a prompt returns is not before the old one, and not before any comment that was read.
pub build_prompt-up_to :
    (q : PromptInput) (c : Comment)
    → (q.prompted_up_to ≤ (build_prompt q).1)
      × (In c q.comments → is_read q c ≡ true → c.created_at ≤ (build_prompt q).1)
unfolding build_prompt
build_prompt-up_to q c = (up_to_grows q q.comments _, up_to_covers q q.comments _ c)
