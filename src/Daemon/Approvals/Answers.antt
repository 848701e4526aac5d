-- ===== src/Daemon/Approvals/Answers.antt =====
-- internal/daemon/approvals.go: parseApprovalAnswer on the codes of newApprovalCode.
use mathlib.Core.List.{reverse, reverse-reverse}
use fizzy_connector.Base.{
  all-reverse, ℕ, zero, suc, ◌%◌, ◌≡◌, refl, ◌≢◌, inl, inr, Bool, true, false, ◌&&◌, List, [], ◌∷◌,
  ◌++◌, map, length, Text, codes, arith, ◌==◌, same, byte_len, rune_width, all, CaseTable, to_lower,
  append-nil, append_assoc, ◌∙◌, Bool-cases, All, leb, not, is_space, trim_right, trim_left,
  to_upper, has_prefix, cut_prefix, ◌<◌,
}
use fizzy_connector.Daemon.Approvals.{
  Answer, answer_none, answer_yes, answer_always, answer_no, fields, skip_mentions, in_set,
  code_alphabet, parse_code, is_code, answer_word, parse_words, parse_approval_answer, fields_from,
  flush, new_approval_code, code_char,
}

-- Every character of a set of small characters is small.
in_set_below : (b : ℕ) (xs : Text) (c : ℕ) → All (λ x. x < b) xs → in_set xs c ≡ true → c < b
in_set_below b [] c h i = absurd (unfold in_set in ground arith)
in_set_below b (x ∷ xs) c h i = elim (Bool-cases (x == c)) [
  | inl e ↦ ground arith
  | inr e ↦ in_set_below b xs c h.1 (unfold in_set in ground arith)
]

in_set_misses :
    (P : ℕ → Bool) (xs : Text) (c : ℕ) → all P xs ≡ true → in_set xs c ≡ true → P c ≡ true
unfolding all in_set
in_set_misses P [] c h i = ground arith
in_set_misses P (x ∷ xs) c h i = elim (Bool-cases (x == c)) [
  | inl e ↦ let same_char : x ≡ c = ground arith in rw (← same_char) (ground arith)
  | inr e ↦ in_set_misses P xs c (ground arith) (ground arith)
]

-- The characters of a code: one byte, no white space, no `@`, not in `.!`, and upper case.
is_plain : ℕ → Bool
is_plain c =
    rune_width c == 1
    && not (is_space c)
    && not (in_set (codes ".!") c)
    && not (leb b'a' c)
    && not (c == b'@')

in_alphabet-plain : (c : ℕ) → in_set code_alphabet c ≡ true → is_plain c ≡ true
in_alphabet-plain c h =
    in_set_misses is_plain code_alphabet c (unfold all is_plain is_space in_set rune_width in refl)
      h

-- The word that gives each answer.
abbrev pub word_of : Answer → Text
word_of answer_none = []
word_of answer_yes = codes "yes"
word_of answer_always = codes "always"
word_of answer_no = codes "no"

is_plain_cases :
    (c : ℕ)
    → is_plain c ≡ true
    → (is_space c ≡ false)
      × (in_set (codes ".!") c ≡ false)
      × (rune_width c ≡ 1)
      × (leb b'a' c ≡ false)
unfolding is_plain
is_plain_cases c h = ground arith

to_upper_plain : (t : CaseTable) (c : ℕ) → is_plain c ≡ true → to_upper t c ≡ c
unfolding to_upper rune_width
to_upper_plain t c h = ground (arith, is_plain_cases c)

map-to_upper_plain : (t : CaseTable) (s : Text) → all is_plain s ≡ true → map (to_upper t) s ≡ s
unfolding all
map-to_upper_plain t [] h = refl
map-to_upper_plain t (c ∷ s) h =
    rw (to_upper_plain t c (ground arith), map-to_upper_plain t s (ground arith)) refl

fields_from_word : (w s : Text) → all is_plain s ≡ true → fields_from w s ≡ flush (w ++ s) []
unfolding fields_from all
fields_from_word w [] h = rw append-nil refl
fields_from_word w (c ∷ s) h =
    let not_space : is_space c ≡ false = (is_plain_cases c (ground arith)).0 in
    rw (not_space, fields_from)
      (fields_from_word (w ++ c ∷ []) s (ground arith) ∙ rw (append_assoc w (c ∷ []) s) refl)

trim_left_plain : (s : Text) → all is_plain s ≡ true → trim_left (in_set (codes ".!")) s ≡ s
unfolding trim_left all
trim_left_plain [] h = refl
trim_left_plain (c ∷ s) h = rw (is_plain_cases c (ground arith)).1 refl

trim_right_plain : (s : Text) → all is_plain s ≡ true → trim_right (in_set (codes ".!")) s ≡ s
unfolding trim_right
trim_right_plain s h =
    rw (trim_left_plain (reverse s) (all-reverse is_plain s ∙ h)) (reverse-reverse s)

all-in_alphabet : (s : Text) → all (in_set code_alphabet) s ≡ true → all is_plain s ≡ true
unfolding all
all-in_alphabet [] h = refl
all-in_alphabet (c ∷ s) h = ground (arith, in_alphabet-plain c, all-in_alphabet s)

parse_words_code :
    (t : CaseTable) (a : Answer) (code : Text)
    → a ≢ answer_none
    → is_code code ≡ true
    → parse_code t code ≡ code
    → parse_words t (word_of a ∷ code ∷ []) ≡ (a, code)
unfolding parse_words answer_word to_lower same
parse_words_code t answer_none code h v e = absurd (h refl)
parse_words_code t answer_yes code h v e = rw (e, v) refl
parse_words_code t answer_always code h v e = rw (e, v) refl
parse_words_code t answer_no code h v e = rw (e, v) refl

fields-word_of :
    (a : Answer) (code : Text)
    → a ≢ answer_none
    → is_code code ≡ true
    → skip_mentions (fields (word_of a ++ codes " " ++ code)) ≡ word_of a ∷ code ∷ []
unfolding is_code
fields-word_of a [] h v = absurd (unfold byte_len in ground arith)
fields-word_of answer_none (c ∷ s) h v = absurd (h refl)
fields-word_of answer_yes (c ∷ s) h v =
    unfold fields fields_from is_space flush skip_mentions has_prefix cut_prefix in
    rw (fields_from_word [] (c ∷ s) (all-in_alphabet (c ∷ s) (ground arith))) refl
fields-word_of answer_always (c ∷ s) h v =
    unfold fields fields_from is_space flush skip_mentions has_prefix cut_prefix in
    rw (fields_from_word [] (c ∷ s) (all-in_alphabet (c ∷ s) (ground arith))) refl
fields-word_of answer_no (c ∷ s) h v =
    unfold fields fields_from is_space flush skip_mentions has_prefix cut_prefix in
    rw (fields_from_word [] (c ∷ s) (all-in_alphabet (c ∷ s) (ground arith))) refl

code_char-in_set : (n : ℕ) (xs : Text) → n < length xs → in_set xs (code_char n xs) ≡ true
unfolding code_char in_set
code_char-in_set n [] h = elim h [ ]
code_char-in_set zero (c ∷ cs) h = ground arith
code_char-in_set (suc n) (c ∷ cs) h = ground (arith, code_char-in_set n cs (omega arith))

code-in_alphabet : (raw : List ℕ) → all (in_set code_alphabet) (new_approval_code raw) ≡ true
unfolding new_approval_code all
code-in_alphabet [] = refl
code-in_alphabet (b ∷ raw) =
    rw (code_char-in_set (b % 32) code_alphabet (omega arith), code-in_alphabet raw) refl

byte_len-plain : (s : Text) → all is_plain s ≡ true → byte_len s ≡ length s
unfolding all byte_len
byte_len-plain [] h = refl
byte_len-plain (c ∷ s) h =
    omega (arith, (is_plain_cases c (ground arith)).2, byte_len-plain s (ground arith))

length-code : (raw : List ℕ) → length (new_approval_code raw) ≡ length raw
unfolding new_approval_code
length-code [] = refl
length-code (b ∷ raw) = omega (arith, length-code raw)

code-is_code : (raw : List ℕ) → length raw ≡ 5 → is_code (new_approval_code raw) ≡ true
unfolding is_code
code-is_code raw h = ground (
  arith,
  code-in_alphabet raw,
  all-in_alphabet (new_approval_code raw),
  byte_len-plain (new_approval_code raw),
  length-code raw,
)

-- The answers that a question asks for are accepted: for five random bytes and every answer, the
-- text of the answer's word, a blank and the code of those bytes parses to that answer and that code.
pub parse-new_approval_code :
    (t : CaseTable) (raw : List ℕ) (a : Answer)
    → length raw ≡ 5
    → a ≢ answer_none
    → parse_approval_answer t (word_of a ++ codes " " ++ new_approval_code raw)
      ≡ (a, new_approval_code raw)
unfolding parse_approval_answer
parse-new_approval_code t raw a h n =
    let code = new_approval_code raw in
    let valid = code-is_code raw h in
    let plain = all-in_alphabet code (code-in_alphabet raw) in
    rw (fields-word_of a code n valid) (
      parse_words_code t a code n valid
        (unfold parse_code in rw (trim_right_plain code plain) (map-to_upper_plain t code plain)))
