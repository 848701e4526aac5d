-- ===== src/Daemon/Approvals.antt =====
-- internal/daemon/approvals.go: permission questions and their answers on a card.
pub mod Answers
pub mod Subject
pub mod Fences
pub mod Requests
use fizzy_connector.Base.{
  ℕ, zero, suc, ◌+◌, ◌%◌, ◌≡◌, Bool, true, false, not, ◌&&◌, ◌||◌, Option, none, some, List, [],
  ◌∷◌, ◌++◌, map, max, Text, codes, ltb, ◌==◌, if◌then◌else◌, same, trim_right, is_space,
  has_prefix, byte_len, length, take, CaseTable, to_upper, to_lower, mem_text, all, any, trim_space,
  Result, ok, err,
}
use fizzy_connector.Fizzy.{User, Comment, Libs}
use fizzy_connector.Config.{Config, is_trusted}
use fizzy_connector.Store.{CardState, is_handled}

abbrev pub max_approval_display : ℕ
max_approval_display = 4000

abbrev pub code_alphabet : Text
code_alphabet = codes "ABCDEFGHJKLMNPQRSTUVWXYZ23456789"

abbrev pub code_length : ℕ
code_length = 5

abbrev pub max_purpose_length : ℕ
max_purpose_length = 500

pub data Answer : Type 0 where
  answer_none answer_yes answer_always answer_no : Answer

-- strings.FieldsSeq: the words between white space. `w` is the word that is being read.
flush : Text → List Text → List Text
flush [] words = words
flush (c ∷ w) words = (c ∷ w) ∷ words

fields_from : Text → Text → List Text
fields_from w [] = flush w []
fields_from w (c ∷ s) = elim (is_space c) [
  | true ↦ flush w (fields_from [] s)
  | false ↦ fields_from (w ++ c ∷ []) s
]

unfoldable pub fields : Text → List Text
unfolding fields_from flush
fields s = fields_from [] s

-- The words after the mentions at the start.
unfoldable pub skip_mentions : List Text → List Text
skip_mentions [] = []
skip_mentions (w ∷ ws) =
    let rest = skip_mentions ws in if has_prefix w (codes "@") then rest else w ∷ ws

-- A character of a cut set, for strings.TrimRight and strings.Trim.
unfoldable pub in_set : Text → ℕ → Bool
in_set [] c = false
in_set (x ∷ xs) c = x == c || in_set xs c

parse_code : CaseTable → Text → Text
parse_code t word = map (to_upper t) (trim_right (in_set (codes ".!")) word)

-- `strings.Trim(code, codeAlphabet) != ""` holds when some character is not in the alphabet.
is_code : Text → Bool
is_code code = byte_len code == code_length && all (in_set code_alphabet) code

answer_word : Text → Answer
answer_word w =
    if same w (codes "yes")
    then answer_yes
    else if same w (codes "always")
    then answer_always
    else if same w (codes "no")
    then answer_no
    else answer_none

parse_words : CaseTable → List Text → Answer × Text
unfolding parse_code is_code answer_word
parse_words t (w ∷ c ∷ []) =
    let code = parse_code t c in
    let answer = answer_word (map (to_lower t) w) in
    if is_code code
    then elim answer [ answer_none ↦ (answer_none, []) | a ↦ (a, code) ]
    else (answer_none, [])
parse_words t _ = (answer_none, [])

unfoldable pub parse_approval_answer : CaseTable → Text → Answer × Text
unfolding parse_words
parse_approval_answer t plain = parse_words t (skip_mentions (fields plain))

unfoldable pub is_none : Answer → Bool
is_none answer_none = true
is_none answer_yes = false
is_none answer_always = false
is_none answer_no = false

unfoldable pub is_approval_answer : CaseTable → Text → Bool
is_approval_answer t plain = not (is_none (parse_approval_answer t plain).0)

-- `raw` is what the random source gave: each byte picks a character.
code_char : ℕ → Text → ℕ
code_char n [] = 0
code_char zero (c ∷ cs) = c
code_char (suc n) (c ∷ cs) = code_char n cs

unfoldable pub new_approval_code : List ℕ → Text
unfolding code_char
new_approval_code raw = map (λ b. code_char (b % 32) code_alphabet) raw
