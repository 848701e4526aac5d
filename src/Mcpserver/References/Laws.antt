-- ===== src/Mcpserver/References/Laws.antt =====
-- internal/mcpserver/server.go, parseCardReference: the URL of a card, in this account and in others.
use mathlib.Core.List.{reverse, reverse-append, reverse-cons, reverse-reverse}
use fizzy_connector.Base.{
  ℕ, zero, suc, ◌+◌, ◌/◌, ◌≤◌, ◌<◌, ◌≡◌, refl, sym, ap, ◌∙◌, inl, inr, Bool, true, false, not,
  Bool-cases, none, some, [], ◌∷◌, ◌++◌, append_assoc, append-nil, Text, codes, arith, ◌==◌, ltb,
  if◌then◌else◌, same, all, all-reverse, cut_prefix, trim_space, trim_left, trim_right, is_space,
  is_digit, decimal, digits_before, decimal-digits, atoi-decimal, max_int,
}
use fizzy_connector.Fizzy.Requests.{Client, account_url, card_url}
use fizzy_connector.Fizzy.Pages.{take_while, drop_while}
use fizzy_connector.Mcpserver.Results.{done, refused, bad_reference}
use fizzy_connector.Mcpserver.References.{
  is_number, after_hash, number_group, is_tail, path_group, number_from, group_after, from_url,
  parse_trimmed, parse_card_reference,
}

abbrev pub not_slash : ℕ → Bool
not_slash c = not (c == b'/')

not_space : ℕ → Bool
not_space c = not (is_space c)

append_one-nonempty : (s : Text) (c : ℕ) → same (s ++ c ∷ []) [] ≡ false
unfolding same
append_one-nonempty [] c = refl
append_one-nonempty (x ∷ s) c = refl

cut_prefix-common : (a x y : Text) → cut_prefix (a ++ x) (a ++ y) ≡ cut_prefix x y
unfolding cut_prefix
cut_prefix-common [] x y = refl
cut_prefix-common (c ∷ a) x y = ground (arith, cut_prefix-common a x y)

-- Behind the prefix of one account there is no card path of another.
group_after-account :
    (other own rest : Text)
    → all not_slash other ≡ true
    → all not_slash own ≡ true
    → group_after (cut_prefix (other ++ b'/' ∷ rest) own)
      ≡ (if same other own then path_group (b'/' ∷ rest) else none)
unfolding cut_prefix group_after same all
group_after-account [] [] rest h k = refl
group_after-account (x ∷ other) [] rest h k =
    let other_char : x == b'/' ≡ false = ground arith in rw (other_char, path_group) refl
group_after-account [] (p ∷ own) rest h k =
    let other_char : b'/' == p ≡ false = ground arith in rw other_char refl
group_after-account (x ∷ other) (p ∷ own) rest h k = elim (Bool-cases (x == p)) [
  | inl e ↦ rw e (group_after-account other own rest (ground arith) (ground arith))
  | inr e ↦ rw e refl
]

take_while-all : (p : ℕ → Bool) (s : Text) → all p s ≡ true → take_while p s ≡ s
unfolding take_while all
take_while-all p [] h = refl
take_while-all p (c ∷ s) h = ground (arith, take_while-all p s)

drop_while-all : (p : ℕ → Bool) (s : Text) → all p s ≡ true → drop_while p s ≡ []
unfolding drop_while all
drop_while-all p [] h = refl
drop_while-all p (c ∷ s) h = ground (arith, drop_while-all p s)

digits_before-nonempty : (f n d : ℕ) (rest : Text) → same (digits_before f n (d ∷ rest)) [] ≡ false
unfolding digits_before
digits_before-nonempty zero n d rest = unfold same in refl
digits_before-nonempty (suc f) n d rest = elim (Bool-cases (ltb n 10)) [
  | inl e ↦ rw e (unfold same in refl)
  | inr e ↦ rw e (digits_before-nonempty f (n / 10) _ (d ∷ rest))
]

digits_some : (f n : ℕ) → 0 < f → same (digits_before f n []) [] ≡ false
unfolding digits_before
digits_some zero n h = absurd (omega arith)
digits_some (suc f) n h = elim (Bool-cases (ltb n 10)) [
  | inl e ↦ rw e (unfold same in refl)
  | inr e ↦ rw e (digits_before-nonempty f (n / 10) _ [])
]

decimal-nonempty : (n : ℕ) → same (decimal n) [] ≡ false
unfolding decimal
decimal-nonempty n = digits_some (n + 1) n (omega arith)

path_group-decimal : (n : ℕ) → path_group (codes "/cards/" ++ decimal n) ≡ some (decimal n)
unfolding path_group cut_prefix is_number is_tail
path_group-decimal n =
    rw
      (
        take_while-all is_digit (decimal n) (decimal-digits n),
        drop_while-all is_digit (decimal n) (decimal-digits n),
        decimal-nonempty n,
        decimal-digits n,
      )
      refl

trim_left-kept :
    (a b : Text) → same a [] ≡ false → all not_space a ≡ true → trim_left is_space (a ++ b) ≡ a ++ b
unfolding trim_left same all not_space
trim_left-kept [] b h k = absurd (ground arith)
trim_left-kept (c ∷ a) b h k =
    let kept : is_space c ≡ false = ground arith in rw (kept, trim_left) refl

reverse-nonempty : (s : Text) → same s [] ≡ false → same (reverse s) [] ≡ false
unfolding same
reverse-nonempty [] h = h
reverse-nonempty (c ∷ s) h = rw (reverse-cons c s) (append_one-nonempty (reverse s) c)

all-not_space : (s : Text) → all is_digit s ≡ true → all not_space s ≡ true
unfolding all not_space is_space
all-not_space [] h = refl
all-not_space (c ∷ s) h = ground (arith, all-not_space s)

trim_right-kept :
    (s digits : Text)
    → all is_digit digits ≡ true
    → same digits [] ≡ false
    → trim_right is_space (s ++ digits) ≡ s ++ digits
unfolding trim_right
trim_right-kept s digits h k = rw (reverse-append s digits) (
    rw
      (trim_left-kept (reverse digits) (reverse s) (reverse-nonempty digits k)
        (all-not_space (reverse digits) (all-reverse is_digit digits ∙ h)))
      (ap reverse (sym (reverse-append s digits)) ∙ reverse-reverse (s ++ digits)))

-- A text with a letter h in front and digits behind has no blanks at its ends.
trim_space-url :
    (s digits : Text)
    → all is_digit digits ≡ true
    → same digits [] ≡ false
    → trim_space (b'h' ∷ (s ++ digits)) ≡ b'h' ∷ (s ++ digits)
unfolding trim_space trim_left is_space
trim_space-url s digits h k = trim_right-kept (b'h' ∷ s) digits h k

group_after-url :
    (base slug own : Text) (n : ℕ)
    → all not_slash slug ≡ true
    → all not_slash own ≡ true
    → group_after (
        cut_prefix
          (base ++ codes "/" ++ slug ++ (codes "/cards/" ++ decimal n))
          (base ++ codes "/" ++ own ++ []))
      ≡ (if same slug own then some (decimal n) else none)
group_after-url base slug own n other mine =
    rw
      (
        append_assoc (base ++ codes "/") slug (codes "/cards/" ++ decimal n),
        append-nil,
        cut_prefix-common (base ++ codes "/") (slug ++ (codes "/cards/" ++ decimal n)) own,
      )
      (group_after-account slug own (codes "cards/" ++ decimal n) other mine
        ∙ ap (λ g. if same slug own then g else none) (path_group-decimal n))

from_url-url :
    (c : Client) (slug : Text) (n : ℕ)
    → all not_slash slug ≡ true
    → all not_slash c.slug ≡ true
    → n ≤ max_int
    → from_url c (card_url (record c { slug = slug }) n) ≡ (
        if same slug c.slug
        then done n
        else refused (bad_reference (card_url (record c { slug = slug }) n) (account_url c [])))
unfolding from_url card_url account_url
from_url-url c slug n other mine bound = elim (Bool-cases (same slug c.slug)) [
  | inl e ↦
      rw (e, from_url, group_after-url c.base_url slug c.slug n other mine, e)
        (rw (number_from, atoi-decimal n bound) refl)
  | inr e ↦ rw (e, from_url, group_after-url c.base_url slug c.slug n other mine, e) refl
]

number_group-letter : (s : Text) → number_group (b'h' ∷ s) ≡ none
unfolding number_group is_number after_hash all same
number_group-letter s = refl

-- A reference that is the URL of card n, on this server and in the account `slug`, is card n if
-- `slug` is the account of the connector, and is refused if it is another. The URL of the server
-- begins with http, the names of the accounts have no slash, and n is in the range of an int.
pub parse_card_reference-card_url :
    (c : Client) (slug host : Text) (n : ℕ)
    → c.base_url ≡ codes "http" ++ host
    → all not_slash slug ≡ true
    → all not_slash c.slug ≡ true
    → n ≤ max_int
    → parse_card_reference c (card_url (record c { slug = slug }) n) ≡ (
        if same slug c.slug
        then done n
        else refused (bad_reference (card_url (record c { slug = slug }) n) (account_url c [])))
unfolding parse_card_reference card_url account_url
parse_card_reference-card_url c slug host n http other mine bound =
    let url = card_url (record c { slug = slug }) n in
    let rest = codes "ttp" ++ host ++ codes "/" ++ slug ++ codes "/cards/" in
    let shape : url ≡ b'h' ∷ (rest ++ decimal n) = rw http (
      sym
        (append_assoc (codes "http" ++ host ++ codes "/" ++ slug) (codes "/cards/") (decimal n))) in
    let trimmed : trim_space url ≡ url =
      ap trim_space shape
      ∙ trim_space-url rest (decimal n) (decimal-digits n) (decimal-nonempty n)
      ∙ sym shape in
    let no_number : number_group url ≡ none =
      ap number_group shape ∙ number_group-letter (rest ++ decimal n) in
    ap (parse_trimmed c) trimmed
    ∙ rw (parse_trimmed, no_number) (from_url-url c slug n other mine bound)
