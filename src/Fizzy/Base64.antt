-- ===== src/Fizzy/Base64.antt =====
-- internal/fizzy/mention.go, decodeBase64, with the two alphabets of package encoding/base64. What is
-- decoded is a list of bytes.
pub mod RoundTrip
use fizzy_connector.Base.{
  ℕ, ◌+◌, ◌-◌, ◌*◌, ◌/◌, ◌%◌, Bool, true, false, not, ◌&&◌, ◌||◌, Option, none, some, List, [], ◌∷◌,
  ◌++◌, Text, leb, ltb, ◌==◌, if◌then◌else◌, trim_right,
}

-- The six bits of a character; `plus` and `slash` are the last two of the alphabet.
unfoldable pub sextet : ℕ → ℕ → ℕ → Option ℕ
sextet plus slash c =
    if leb b'A' c && leb c b'Z'
    then some (c - b'A')
    else if leb b'a' c && leb c b'z'
    then some (c - b'a' + 26)
    else if leb b'0' c && leb c b'9'
    then some (c - b'0' + 52)
    else if c == plus
    then some 62
    else if c == slash
    then some 63
    else none

-- The decoder skips line breaks, and refuses any other character that is not of its alphabet.
unfoldable pub sextets : ℕ → ℕ → Text → Option (List ℕ)
unfolding sextet
sextets plus slash [] = some []
sextets plus slash (c ∷ s) =
    let rest = sextets plus slash s in
    if c == 10 || c == 13 then rest else elim (sextet plus slash c) [
      | none ↦ none
      | some v ↦ elim rest [ none ↦ none | some vs ↦ some (v ∷ vs) ]
    ]

abbrev pub cons_option : List ℕ → Option (List ℕ) → Option (List ℕ)
cons_option bytes none = none
cons_option bytes (some rest) = some (bytes ++ rest)

-- Four characters are three bytes; two are one, and three are two. One is an error.
unfoldable pub bytes_of : List ℕ → Option (List ℕ)
bytes_of [] = some []
bytes_of (a ∷ []) = none
bytes_of (a ∷ b ∷ []) = some ((a * 4 + b / 16) ∷ [])
bytes_of (a ∷ b ∷ c ∷ []) = some ((a * 4 + b / 16) ∷ (b % 16 * 16 + c / 4) ∷ [])
bytes_of (a ∷ b ∷ c ∷ d ∷ rest) =
    cons_option ((a * 4 + b / 16) ∷ (b % 16 * 16 + c / 4) ∷ (c % 4 * 64 + d) ∷ []) (bytes_of rest)

-- RawStdEncoding and RawURLEncoding.
unfoldable pub decode_with : ℕ → ℕ → Text → Option (List ℕ)
unfolding sextets bytes_of
decode_with plus slash s = elim (sextets plus slash s) [ none ↦ none | some vs ↦ bytes_of vs ]

unfoldable pub is_padding : ℕ → Bool
is_padding c = c == b'='

pub either : Option (List ℕ) → Option (List ℕ) → Option (List ℕ)
either (some bytes) other = some bytes
either none other = other

unfoldable pub decode_base64 : Text → Option (List ℕ)
unfolding decode_with either is_padding
decode_base64 s =
    either (decode_with b'+' b'/' (trim_right is_padding s))
      (decode_with b'-' b'_' (trim_right is_padding s))
