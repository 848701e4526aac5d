-- ===== src/Mcpserver/References.antt =====
-- internal/mcpserver/server.go, parseCardReference, and actions.go, resolveCard: how a session
-- names a card.
pub mod Laws
use fizzy_connector.Base.{
  ℕ, Bool, true, false, not, ◌&&◌, ◌||◌, Option, none, some, List, [], ◌∷◌, ◌++◌, Text, codes, ◌==◌,
  if◌then◌else◌, same, all, cut_prefix, trim_space, is_digit, atoi,
}
use fizzy_connector.Fizzy.Requests.{Client, account_url}
use fizzy_connector.Fizzy.Pages.{take_while, drop_while}
use fizzy_connector.Mcpserver.Results.{Outcome, done, refused, out_of_range, bad_reference}

-- One or more digits.
unfoldable pub is_number : Text → Bool
unfolding all
is_number s = not (same s []) && all is_digit s

unfoldable pub after_hash : Text → Text
after_hash [] = []
after_hash (c ∷ s) = if c == b'#' then s else c ∷ s

-- The group of `^#?(\d+)$`.
unfoldable pub number_group : Text → Option Text
unfolding is_number after_hash
number_group s = if is_number (after_hash s) then some (after_hash s) else none

not_newline : ℕ → Bool
not_newline c = not (c == 10)

-- `(?:[/#?].*)?$`.
unfoldable pub is_tail : Text → Bool
unfolding not_newline all
is_tail [] = true
is_tail (c ∷ s) = (c == b'/' || c == b'#' || c == b'?') && all not_newline s

-- The group of `^/cards/(\d+)(?:[/#?].*)?$`.
unfoldable pub path_group : Text → Option Text
unfolding is_number is_tail take_while drop_while
path_group s = elim (cut_prefix s (codes "/cards/")) [
  | none ↦ none
  | some rest ↦
      if is_number (take_while is_digit rest) && is_tail (drop_while is_digit rest)
      then some (take_while is_digit rest)
      else none
]

unfoldable pub number_from : Text → Outcome ℕ
number_from digits = elim (atoi digits) [ none ↦ refused out_of_range | some n ↦ done n ]

-- The digits in a path behind the URL of the account.
unfoldable pub group_after : Option Text → Option Text
unfolding path_group
group_after none = none
group_after (some path) = path_group path

unfoldable pub from_url : Client → Text → Outcome ℕ
unfolding group_after number_from
from_url c reference = elim (group_after (cut_prefix reference (account_url c []))) [
  | none ↦ refused (bad_reference reference (account_url c []))
  | some digits ↦ number_from digits
]

-- The code of a reference without blanks at its ends.
unfoldable pub parse_trimmed : Client → Text → Outcome ℕ
unfolding number_group number_from from_url
parse_trimmed c reference = elim (number_group reference) [
  | some digits ↦ number_from digits
  | none ↦ from_url c reference
]

unfoldable pub parse_card_reference : Client → Text → Outcome ℕ
unfolding parse_trimmed
parse_card_reference c reference = parse_trimmed c (trim_space reference)

-- An empty reference is the card of the conversation.
unfoldable pub resolve_card : Client → ℕ → Text → Outcome ℕ
resolve_card c card reference =
    if same (trim_space reference) [] then done card else parse_card_reference c reference
