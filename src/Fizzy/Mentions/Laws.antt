-- ===== src/Fizzy/Mentions/Laws.antt =====
-- internal/fizzy/mention.go: who is mentioned, and by what.
use fizzy_connector.Base.{
  ℕ, zero, suc, ◌-◌, ◌≡◌, ◌≢◌, ◌⊎◌, inl, inr, refl, sym, ap, ◌∙◌, subst, Bool, true, false,
  Bool-cases, Option, none, some, Option-cases, List, [], ◌∷◌, ◌++◌, append_assoc, Text, codes,
  arith, ◌==◌, if◌then◌else◌, if_rule, same, same_iff, mem_text, In, All, cut_prefix,
}
use fizzy_connector.Fizzy.Pages.{take_while, drop_while}
use fizzy_connector.Fizzy.Client.{is_id_char}
use fizzy_connector.Fizzy.Base64.{decode_base64}
use fizzy_connector.Fizzy.Mentions.{
  find_all, not_char, tag_name, starts_with_word, tag_body, tag_at, attribute, attributes, gid_id,
  gid_host, gid_at, user_gid, Envelope, user_gid_in, first_of, in_envelope, in_payload,
  user_id_from_sgid, mention_content_type, id_of_attributes, id_of_tag, ids_of_tags,
  mentioned_user_ids, mentions,
}

-- A place of a text where a match gives a value.
abbrev pub IsMatched : {A : Type 0} → (Text → Option (A × ℕ)) → A → Text → Type 0
IsMatched match_at a s =
    (pre suf : Text) × (n : ℕ) × (s ≡ pre ++ suf) × (match_at suf ≡ some (a, n))

later-IsMatched :
    {A : Type 0} (match_at : Text → Option (A × ℕ)) (a : A) (c : ℕ) (s : Text)
    → IsMatched match_at a s
    → IsMatched match_at a (c ∷ s)
later-IsMatched match_at a c s (pre, suf, n, e, m) = (c ∷ pre, suf, n, ap (λ r. c ∷ r) e, m)

here_or_later-IsMatched :
    {A : Type 0} (match_at : Text → Option (A × ℕ)) (a : A) (c : ℕ) (s : Text) (r : Option (A × ℕ))
    → match_at (c ∷ s) ≡ r
    → In a
        (elim r [ none ↦ find_all match_at zero s | some m ↦ m.0 ∷ find_all match_at (m.1 - 1) s ])
    → ((k : ℕ) → In a (find_all match_at k s) → IsMatched match_at a s)
    → IsMatched match_at a (c ∷ s)
here_or_later-IsMatched match_at a c s none e i later =
    later-IsMatched match_at a c s (later zero i)
here_or_later-IsMatched match_at a c s (some (b, n)) e (inl h) later =
    ([], c ∷ s, n, refl, e ∙ ap (λ x. Option.some (x, n)) (sym h))
here_or_later-IsMatched match_at a c s (some (b, n)) e (inr i) later =
    later-IsMatched match_at a c s (later (n - 1) i)

-- What FindAll gives was matched somewhere in the text.
find_all-IsMatched :
    {A : Type 0} (match_at : Text → Option (A × ℕ)) (skip : ℕ) (s : Text) (a : A)
    → In a (find_all match_at skip s)
    → IsMatched match_at a s
unfolding find_all
find_all-IsMatched match_at skip [] a i = elim i [ ]
find_all-IsMatched match_at (suc skip) (c ∷ s) a i =
    later-IsMatched match_at a c s (find_all-IsMatched match_at skip s a i)
find_all-IsMatched match_at zero (c ∷ s) a i =
    here_or_later-IsMatched match_at a c s (match_at (c ∷ s)) refl i
      (λ k. find_all-IsMatched match_at k s a)

cut_prefix_lem : (s p r : Text) → cut_prefix s p ≡ some r → s ≡ p ++ r
unfolding cut_prefix
cut_prefix_lem s [] r h = ground arith
cut_prefix_lem [] (p ∷ ps) r h = absurd (ground arith)
cut_prefix_lem (c ∷ s) (p ∷ ps) r h = elim (Bool-cases (c == p)) [
  | inl e ↦ let rest = cut_prefix_lem s ps r (ground arith) in ground arith
  | inr e ↦ absurd (ground arith)
]

take_while-drop_while : (p : ℕ → Bool) (s : Text) → take_while p s ++ drop_while p s ≡ s
unfolding take_while drop_while
take_while-drop_while p [] = refl
take_while-drop_while p (c ∷ s) = let rest = take_while-drop_while p s in ground arith

drop_while-stop : (p : ℕ → Bool) (s r : Text) (c : ℕ) → drop_while p s ≡ c ∷ r → p c ≡ false
unfolding drop_while
drop_while-stop p [] r c h = absurd (ground arith)
drop_while-stop p (d ∷ s) r c h = elim (Bool-cases (p d)) [
  | inl e ↦ drop_while-stop p s r c (ground arith)
  | inr e ↦ let here : d ≡ c = ground arith in ap p (sym here) ∙ e
]

take_while-All : (p : ℕ → Bool) (s : Text) → All (λ c. p c ≡ true) (take_while p s)
unfolding take_while
take_while-All p [] = tt
take_while-All p (c ∷ s) =
    if_rule (All (λ c. p c ≡ true)) (p c) (c ∷ take_while p s) [] (λ e. (e, take_while-All p s))
      (λ e. tt)

-- An attachment tag: its attributes have no `>`.
abbrev pub IsTag : Text → Type 0
IsTag tag =
    (body : Text) × (tag ≡ tag_name ++ body ++ codes ">") × All (λ c. not_char b'>' c ≡ true) body

around_tag :
    (name body after : Text) (c : ℕ)
    → name ++ (body ++ (c ∷ after)) ≡ name ++ body ++ (c ∷ []) ++ after
around_tag name body after c =
    ap (λ r. name ++ r) (sym (append_assoc body (c ∷ []) after))
    ∙ sym (append_assoc name (body ++ (c ∷ [])) after)
    ∙ ap (λ r. r ++ after) (sym (append_assoc name body (c ∷ [])))

closing_char : (c : ℕ) → not_char b'>' c ≡ false → c ≡ b'>'
unfolding not_char
closing_char c h = ground arith

tag_body-IsTag :
    (body after rest tag : Text) (n : ℕ)
    → (body ++ after ≡ rest)
    → ((c : ℕ) (r : Text) → after ≡ c ∷ r → not_char b'>' c ≡ false)
    → All (λ c. not_char b'>' c ≡ true) body
    → tag_body body after ≡ some (tag, n)
    → IsTag tag × ((r : Text) × (tag_name ++ rest ≡ tag ++ r))
unfolding tag_body
tag_body-IsTag body [] rest tag n whole stop inner h = absurd (ground arith)
tag_body-IsTag body (c ∷ after) rest tag n whole stop inner h =
    let close : c ≡ b'>' = closing_char c (stop c after refl) in
    let here : tag_name ++ body ++ codes ">" ≡ tag = ground arith in
    let text : tag_name ++ rest ≡ tag_name ++ body ++ codes ">" ++ after =
      ap (λ r. tag_name ++ r) (sym whole)
      ∙ around_tag tag_name body after c
      ∙ ap (λ k. tag_name ++ body ++ (k ∷ []) ++ after) close in
    ((body, sym here, inner), (after, text ∙ ap (λ t. t ++ after) here))

tag_at-IsTag :
    (s tag : Text) (n : ℕ) → tag_at s ≡ some (tag, n) → IsTag tag × ((r : Text) × (s ≡ tag ++ r))
unfolding tag_at
tag_at-IsTag s tag n h = elim (Option-cases (cut_prefix s tag_name)) [
  | inl e ↦ absurd (ground arith)
  | inr (rest, e) ↦ elim (Bool-cases (starts_with_word rest)) [
    | inl w ↦ absurd (ground arith)
    | inr w ↦
        let (is, (r, text)) =
          tag_body-IsTag (take_while (not_char b'>') rest) (drop_while (not_char b'>') rest) rest
            tag n (take_while-drop_while (not_char b'>') rest)
            (λ c r. drop_while-stop (not_char b'>') rest r c) (take_while-All (not_char b'>') rest)
            (ground arith) in
        (is, (r, cut_prefix_lem s tag_name rest e ∙ text))
  ]
]

-- A text of the characters of an id: ASCII letters, digits, `_` and `-`.
abbrev pub HasIdChars : Text → Type 0
HasIdChars id = All (λ c. is_id_char c ≡ true) id

SomeHasIdChars : Option Text → Type 0
SomeHasIdChars none = Unit {0}
SomeHasIdChars (some id) = HasIdChars id

gid_id-SomeHasIdChars : (r : Option Text) → SomeHasIdChars (gid_id r)
unfolding gid_id SomeHasIdChars
gid_id-SomeHasIdChars none = tt
gid_id-SomeHasIdChars (some rest) =
    if_rule SomeHasIdChars (same (take_while is_id_char rest) []) none
      (some (take_while is_id_char rest)) (λ e. tt) (λ e. take_while-All is_id_char rest)

gid_host-SomeHasIdChars : (r : Option Text) → SomeHasIdChars (gid_host r)
unfolding gid_host SomeHasIdChars
gid_host-SomeHasIdChars none = tt
gid_host-SomeHasIdChars (some rest) =
    if_rule SomeHasIdChars (same (take_while (not_char b'/') rest) []) none
      (gid_id (cut_prefix (drop_while (not_char b'/') rest) (codes "/User/"))) (λ e. tt)
      (λ e. gid_id-SomeHasIdChars _)

or_later-SomeHasIdChars :
    (r rest : Option Text)
    → SomeHasIdChars r
    → SomeHasIdChars rest
    → SomeHasIdChars (elim r [ none ↦ rest | some id ↦ some id ])
unfolding SomeHasIdChars
or_later-SomeHasIdChars none rest h later = later
or_later-SomeHasIdChars (some id) rest h later = h

user_gid-SomeHasIdChars : (s : Text) → SomeHasIdChars (user_gid s)
unfolding user_gid SomeHasIdChars
user_gid-SomeHasIdChars [] = tt
user_gid-SomeHasIdChars (c ∷ s) =
    or_later-SomeHasIdChars (gid_at (c ∷ s)) (user_gid s)
      (unfold gid_at in gid_host-SomeHasIdChars _) (user_gid-SomeHasIdChars s)

user_gid_in-SomeHasIdChars : (r : Option Text) → SomeHasIdChars (user_gid_in r)
unfolding user_gid_in SomeHasIdChars
user_gid_in-SomeHasIdChars none = tt
user_gid_in-SomeHasIdChars (some bytes) = user_gid-SomeHasIdChars bytes

first_of-HasIdChars :
    (r other : Option Text)
    → SomeHasIdChars r
    → SomeHasIdChars other
    → HasIdChars (first_of r other)
unfolding first_of SomeHasIdChars
first_of-HasIdChars (some id) other h h' = h
first_of-HasIdChars none (some id) h h' = h'
first_of-HasIdChars none none h h' = tt

in_envelope-HasIdChars : (r : Option (Text × Text)) → HasIdChars (in_envelope r)
unfolding in_envelope
in_envelope-HasIdChars none = tt
in_envelope-HasIdChars (some (message, inner)) =
    first_of-HasIdChars _ _ (user_gid_in-SomeHasIdChars (decode_base64 message))
      (user_gid_in-SomeHasIdChars (decode_base64 inner))

or_envelope-HasIdChars :
    (r : Option Text) (inner : Text)
    → SomeHasIdChars r
    → HasIdChars inner
    → HasIdChars (elim r [ some id ↦ id | none ↦ inner ])
unfolding SomeHasIdChars
or_envelope-HasIdChars none inner h later = later
or_envelope-HasIdChars (some id) inner h later = h

in_payload-HasIdChars : (envelope : Envelope) (r : Option Text) → HasIdChars (in_payload envelope r)
unfolding in_payload
in_payload-HasIdChars envelope none = tt
in_payload-HasIdChars envelope (some bytes) =
    or_envelope-HasIdChars (user_gid bytes) (in_envelope (envelope bytes))
      (user_gid-SomeHasIdChars bytes) (in_envelope-HasIdChars (envelope bytes))

-- How a text mentions a user: by an attachment tag in it, of the type of mentions, whose signed id has
-- the id of the user, which is not empty and has the characters of an id.
abbrev pub IsMentionOf : Envelope → Text → Text → Type 0
IsMentionOf envelope id html =
    (pre tag post : Text) × (html ≡ pre ++ (tag ++ post))
    × IsTag tag
    × (attribute (codes "content-type") [] (attributes tag) ≡ mention_content_type)
    × (user_id_from_sgid envelope (attribute (codes "sgid") [] (attributes tag)) ≡ id)
    × (id ≢ [])
    × HasIdChars id

given_branch :
    (b : Bool) (x id : Text) → (if b then x else []) ≡ id → id ≢ [] → (b ≡ true) × (x ≡ id)
given_branch true x id h given = (refl, h)
given_branch false x id h given = absurd (given (sym h))

id_of_tag_lem :
    (envelope : Envelope) (tag id : Text)
    → id_of_tag envelope tag ≡ id
    → id ≢ []
    → (attribute (codes "content-type") [] (attributes tag) ≡ mention_content_type)
      × (user_id_from_sgid envelope (attribute (codes "sgid") [] (attributes tag)) ≡ id)
unfolding id_of_tag id_of_attributes
id_of_tag_lem envelope tag id h given =
    let (mention, found) = given_branch _ _ id h given in ((same_iff _ _).0 mention, found)

kept-In :
    (b : Bool) (id first : Text) (rest : List Text)
    → In id (if b then rest else first ∷ rest)
    → ((b ≡ false) × (id ≡ first)) ⊎ In id rest
kept-In true id first rest i = inr i
kept-In false id first rest (inl e) = inl (refl, e)
kept-In false id first rest (inr i) = inr i

ids_of_tags-In :
    (envelope : Envelope) (tags : List Text) (id : Text)
    → In id (ids_of_tags envelope tags)
    → (tag : Text) × In tag tags × (id_of_tag envelope tag ≡ id) × (id ≢ [])
unfolding ids_of_tags
ids_of_tags-In envelope [] id i = elim i [ ]
ids_of_tags-In envelope (tag ∷ tags) id i =
    elim (kept-In _ id (id_of_tag envelope tag) (ids_of_tags envelope tags) i) [
      | inl (given, e) ↦ (
        tag,
        inl refl,
        sym e,
        λ none_left. absurd (ground (arith, same_iff (id_of_tag envelope tag) [])),
      )
      | inr later ↦
          let (other, found, is, given) = ids_of_tags-In envelope tags id later in
          (other, inr found, is, given)
    ]

user_id_from_sgid-HasIdChars :
    (envelope : Envelope) (sgid : Text) → HasIdChars (user_id_from_sgid envelope sgid)
unfolding user_id_from_sgid
user_id_from_sgid-HasIdChars envelope sgid = in_payload-HasIdChars envelope _

mem_text-In : (a : Text) (xs : List Text) → mem_text a xs ≡ true → In a xs
unfolding mem_text
mem_text-In a [] h = absurd (ground arith)
mem_text-In a (x ∷ xs) h = elim (Bool-cases (same x a)) [
  | inl e ↦ inl (sym ((same_iff x a).0 e))
  | inr e ↦ inr (mem_text-In a xs (ground arith))
]

-- A rich text mentions a user only by an attachment tag in it, whose attributes have no `>`, whose
-- content type is that of mentions, and whose signed id gives the id of the user; and that id is not
-- empty and has ASCII letters, digits, `_` and `-` alone.
pub mentions-IsMentionOf :
    (envelope : Envelope) (html id : Text)
    → mentions envelope html id ≡ true
    → IsMentionOf envelope id html
unfolding mentions mentioned_user_ids
mentions-IsMentionOf envelope html id h =
    let i = mem_text-In id (mentioned_user_ids envelope html) h in
    let (tag, found, is, given) = ids_of_tags-In envelope (find_all tag_at 0 html) id i in
    let (pre, suf, n, text, m) = find_all-IsMatched tag_at 0 html tag found in
    let (is_tag, (post, rest)) = tag_at-IsTag suf tag n m in
    let (mention, signed) = id_of_tag_lem envelope tag id is given in
    (
      pre,
      tag,
      post,
      text ∙ ap (λ r. pre ++ r) rest,
      is_tag,
      mention,
      signed,
      given,
      subst HasIdChars signed (user_id_from_sgid-HasIdChars envelope _),
    )
