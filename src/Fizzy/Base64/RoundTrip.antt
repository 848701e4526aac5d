-- ===== src/Fizzy/Base64/RoundTrip.antt =====
-- internal/fizzy/mention.go, decodeBase64: the encoding of RFC 4648, and what the decoder makes of it.
use fizzy_connector.Base.{
  ℕ, ◌+◌, ◌-◌, ◌*◌, ◌/◌, ◌%◌, ◌<◌, ◌≡◌, ◌⊎◌, inl, inr, refl, ap, ◌∙◌, Bool, true, false, not, ◌||◌,
  Bool-cases, Option, none, some, List, [], ◌∷◌, ◌++◌, map, Text, arith, ltb, ◌==◌, if◌then◌else◌,
  All, all, trim_left, trim_right, all-reverse,
}
use mathlib.Core.List.{reverse, reverse-append, reverse-reverse}
use fizzy_connector.Fizzy.Base64.{
  sextet, sextets, bytes_of, decode_with, is_padding, either, decode_base64,
}

-- The character of six bits.
abbrev letter_of : ℕ → ℕ → ℕ → ℕ
letter_of plus slash v =
    if ltb v 26
    then v + b'A'
    else if ltb v 52
    then v - 26 + b'a'
    else if ltb v 62
    then v - 52 + b'0'
    else if v == 62
    then plus
    else slash

-- The bits of bytes in groups of six, filled up with zeros.
unfoldable pub sixes : List ℕ → List ℕ
sixes [] = []
sixes (a ∷ []) = (a / 4) ∷ (a % 4 * 16) ∷ []
sixes (a ∷ b ∷ []) = (a / 4) ∷ (a % 4 * 16 + b / 16) ∷ (b % 16 * 4) ∷ []
sixes (a ∷ b ∷ c ∷ rest) =
    (a / 4) ∷ (a % 4 * 16 + b / 16) ∷ (b % 16 * 4 + c / 64) ∷ (c % 64) ∷ sixes rest

unfoldable pub encode_base64 : ℕ → ℕ → List ℕ → Text
unfolding sixes
encode_base64 plus slash bytes = map (letter_of plus slash) (sixes bytes)

abbrev pub AreBytes : List ℕ → Type 0
AreBytes bytes = All (λ b. b < 256) bytes

AreSixes : List ℕ → Type 0
AreSixes vs = All (λ v. v < 64) vs

sixes-AreSixes : (bytes : List ℕ) → AreBytes bytes → AreSixes (sixes bytes)
unfolding sixes AreSixes
sixes-AreSixes [] h = tt
sixes-AreSixes (a ∷ []) (ha, _) = (omega arith, (omega arith, tt))
sixes-AreSixes (a ∷ b ∷ []) (ha, (hb, _)) = (omega arith, (omega arith, (omega arith, tt)))
sixes-AreSixes (a ∷ b ∷ c ∷ rest) (ha, (hb, (hc, h))) =
    (omega arith, (omega arith, (omega arith, (omega arith, sixes-AreSixes rest h))))

bytes_of-sixes : (bytes : List ℕ) → AreBytes bytes → bytes_of (sixes bytes) ≡ some bytes
unfolding bytes_of sixes
bytes_of-sixes [] h = refl
bytes_of-sixes (a ∷ []) (ha, _) = ap (λ n. Option.some (n ∷ [])) (omega arith)
bytes_of-sixes (a ∷ b ∷ []) (ha, (hb, _)) =
    let first : a / 4 * 4 + (a % 4 * 16 + b / 16) / 16 ≡ a = omega arith in
    let second : (a % 4 * 16 + b / 16) % 16 * 16 + b % 16 * 4 / 4 ≡ b = omega arith in
    rw (first, second) refl
bytes_of-sixes (a ∷ b ∷ c ∷ rest) (ha, (hb, (hc, h))) =
    let first : a / 4 * 4 + (a % 4 * 16 + b / 16) / 16 ≡ a = omega arith in
    let second : (a % 4 * 16 + b / 16) % 16 * 16 + (b % 16 * 4 + c / 64) / 4 ≡ b = omega arith in
    let third : (b % 16 * 4 + c / 64) % 4 * 64 + c % 64 ≡ c = omega arith in
    rw (bytes_of-sixes rest h, first, second, third) refl

-- A character stands for six bits in an alphabet, and is neither a line break nor padding.
abbrev IsLetterFor : ℕ → ℕ → ℕ → ℕ → Type 0
IsLetterFor plus slash v c =
    ((c == 10 || c == 13) ≡ false) × (is_padding c ≡ false) × (sextet plus slash c ≡ some v)

letter_of-IsLetterFor : (v : ℕ) → v < 64 → IsLetterFor b'+' b'/' v (letter_of b'+' b'/' v)
unfolding sextet is_padding
letter_of-IsLetterFor v h = (ground arith, ground arith, ground arith)

url_letter_of-IsLetterFor : (v : ℕ) → v < 64 → IsLetterFor b'-' b'_' v (letter_of b'-' b'_' v)
unfolding sextet is_padding
url_letter_of-IsLetterFor v h = (ground arith, ground arith, ground arith)

-- The two alphabets differ in letters that the other one refuses.
url_letter_of-other :
    (v : ℕ)
    → v < 64
    → (sextet b'+' b'/' (letter_of b'-' b'_' v) ≡ some v)
      ⊎ (sextet b'+' b'/' (letter_of b'-' b'_' v) ≡ none)
unfolding sextet
url_letter_of-other v h = elim (Bool-cases (ltb v 62)) [
  | inl e ↦ inl (ground arith)
  | inr e ↦ inr (ground arith)
]

sextets-letters :
    (plus slash : ℕ) (f : ℕ → ℕ) (vs : List ℕ)
    → ((v : ℕ) → v < 64 → IsLetterFor plus slash v (f v))
    → AreSixes vs
    → sextets plus slash (map f vs) ≡ some vs
unfolding sextets AreSixes
sextets-letters plus slash f [] letters h = refl
sextets-letters plus slash f (v ∷ vs) letters (hv, h) =
    let (plain, other, six) = letters v hv in
    rw (plain, six, sextets-letters plus slash f vs letters h) refl

url_sextets-other :
    (vs : List ℕ)
    → AreSixes vs
    → (sextets b'+' b'/' (map (letter_of b'-' b'_') vs) ≡ some vs)
      ⊎ (sextets b'+' b'/' (map (letter_of b'-' b'_') vs) ≡ none)
unfolding sextets AreSixes
url_sextets-other [] h = inl refl
url_sextets-other (v ∷ vs) (hv, h) =
    let (plain, _, _) = url_letter_of-IsLetterFor v hv in
    elim (url_letter_of-other v hv) [
      | inr e ↦ inr (rw (plain, e) refl)
      | inl e ↦ elim (url_sextets-other vs h) [
        | inl e' ↦ inl (rw (plain, e, e') refl)
        | inr e' ↦ inr (rw (plain, e, e') refl)
      ]
    ]

letters-not_padding :
    (plus slash : ℕ) (f : ℕ → ℕ) (vs : List ℕ)
    → ((v : ℕ) → v < 64 → IsLetterFor plus slash v (f v))
    → AreSixes vs
    → all (λ c. not (is_padding c)) (map f vs) ≡ true
unfolding all AreSixes
letters-not_padding plus slash f [] letters h = refl
letters-not_padding plus slash f (v ∷ vs) letters (hv, h) =
    let (plain, other, six) = letters v hv in
    rw (other, letters-not_padding plus slash f vs letters h) refl

trim_left-all :
    (p : ℕ → Bool) (pads s : Text) → all p pads ≡ true → trim_left p (pads ++ s) ≡ trim_left p s
unfolding trim_left all
trim_left-all p [] s h = refl
trim_left-all p (c ∷ pads) s h =
    let here : p c ≡ true = ground arith in rw here (trim_left-all p pads s (ground arith))

trim_left-none : (p : ℕ → Bool) (s : Text) → all (λ c. not (p c)) s ≡ true → trim_left p s ≡ s
unfolding trim_left all
trim_left-none p [] h = refl
trim_left-none p (c ∷ s) h = let here : p c ≡ false = ground arith in rw here refl

trim_right-padded :
    (p : ℕ → Bool) (s pads : Text)
    → all p pads ≡ true
    → all (λ c. not (p c)) s ≡ true
    → trim_right p (s ++ pads) ≡ s
unfolding trim_right
trim_right-padded p s pads h k =
    ap (λ r. reverse (trim_left p r)) (reverse-append s pads)
    ∙ ap reverse (trim_left-all p (reverse pads) (reverse s) (all-reverse p pads ∙ h))
    ∙ ap reverse (trim_left-none p (reverse s) (all-reverse (λ c. not (p c)) s ∙ k))
    ∙ reverse-reverse s

decode_with-encode :
    (plus slash : ℕ) (bytes : List ℕ)
    → ((v : ℕ) → v < 64 → IsLetterFor plus slash v (letter_of plus slash v))
    → AreBytes bytes
    → decode_with plus slash (encode_base64 plus slash bytes) ≡ some bytes
unfolding decode_with encode_base64
decode_with-encode plus slash bytes letters h =
    rw (sextets-letters plus slash _ (sixes bytes) letters (sixes-AreSixes bytes h), decode_with)
      (bytes_of-sixes bytes h)

decode_with-other :
    (bytes : List ℕ)
    → AreBytes bytes
    → (decode_with b'+' b'/' (encode_base64 b'-' b'_' bytes) ≡ some bytes)
      ⊎ (decode_with b'+' b'/' (encode_base64 b'-' b'_' bytes) ≡ none)
unfolding decode_with encode_base64
decode_with-other bytes h = elim (url_sextets-other (sixes bytes) (sixes-AreSixes bytes h)) [
  | inl e ↦ inl (rw (e, decode_with) (bytes_of-sixes bytes h))
  | inr e ↦ inr (rw (e, decode_with) refl)
]

either-left : (r s : Option (List ℕ)) (bytes : List ℕ) → r ≡ some bytes → either r s ≡ some bytes
unfolding either
either-left r s bytes h = rw h refl

either-right :
    (r s : Option (List ℕ)) (bytes : List ℕ)
    → (r ≡ some bytes) ⊎ (r ≡ none)
    → s ≡ some bytes
    → either r s ≡ some bytes
unfolding either
either-right r s bytes (inl e) h = rw e refl
either-right r s bytes (inr e) h = rw e h

-- A text in the alphabet of RFC 4648, standard or for URLs, with any padding on behind, is decoded to
-- the bytes that it encodes.
pub decode_base64-encode_base64 :
    (bytes pads : List ℕ)
    → AreBytes bytes
    → all is_padding pads ≡ true
    → (decode_base64 (encode_base64 b'+' b'/' bytes ++ pads) ≡ some bytes)
      × (decode_base64 (encode_base64 b'-' b'_' bytes ++ pads) ≡ some bytes)
unfolding decode_base64 encode_base64
decode_base64-encode_base64 bytes pads h k =
    let six = sixes-AreSixes bytes h in
    let bare =
      trim_right-padded is_padding (encode_base64 b'+' b'/' bytes) pads k
        (letters-not_padding b'+' b'/' _ (sixes bytes) letter_of-IsLetterFor six) in
    let url_bare =
      trim_right-padded is_padding (encode_base64 b'-' b'_' bytes) pads k
        (letters-not_padding b'-' b'_' _ (sixes bytes) url_letter_of-IsLetterFor six) in
    let read = decode_with-encode b'+' b'/' bytes letter_of-IsLetterFor h in
    let url_read = decode_with-encode b'-' b'_' bytes url_letter_of-IsLetterFor h in
    (
      ap (λ t. either (decode_with b'+' b'/' t) (decode_with b'-' b'_' t)) bare
          ∙ either-left _ _ bytes read,
      ap (λ t. either (decode_with b'+' b'/' t) (decode_with b'-' b'_' t)) url_bare
          ∙ either-right _ _ bytes (decode_with-other bytes h) url_read,
    )
