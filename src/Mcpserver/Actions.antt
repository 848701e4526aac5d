-- ===== src/Mcpserver/Actions.antt =====
-- internal/mcpserver/actions.go: the tools that change cards.
pub mod Tags
pub mod Assignments
use fizzy_connector.Base.{
  ℕ, suc, ◌+◌, Bool, true, false, not, ◌&&◌, ◌||◌, Option, none, some, List, [], ◌∷◌, ◌++◌, map,
  Text, codes, ltb, leb, ◌==◌, if◌then◌else◌, same, any, contains, trim_space, trim_prefix, join,
  length, CaseTable, to_lower,
}
use fizzy_connector.Fizzy.{User, Board, Column, Card, Libs}
use fizzy_connector.Fizzy.Requests.{Client, C, card_url}
use fizzy_connector.Mcpserver.Results.{
  Api, Output, made_card, closed_card, reopened_card, no_columns, column_list, board_list,
  moved_to_column, moved_to_board, assigned, already_assigned, added_tag, removed_tag, had_tag,
  lacked_tag, comment_posted, Refusal, empty_tag, empty_board, no_board, no_column, many_boards,
  many_columns, unclear_user, own_card, Outcome, done, refused, T, checked, and_then,
}
use fizzy_connector.Mcpserver.References.{parse_card_reference, resolve_card}

-- The tables of package unicode; `orbit c` stands for the characters that equal `c` but for case.
pub record Chars : Type 0 where
  pub table : CaseTable
  pub orbit : ℕ → ℕ

unfoldable pub fold : Chars → ℕ → ℕ
fold t c = if ltb c 0x80 then (if leb b'A' c && leb c b'Z' then c + 32 else c) else t.orbit c

-- strings.EqualFold.
unfoldable pub equal_fold : Chars → Text → Text → Bool
unfolding fold
equal_fold t a b = same (map (fold t) a) (map (fold t) b)

unfoldable pub lower_text : Chars → Text → Text
lower_text t s = map (to_lower t.table) s

unfoldable pub board_names : List Board → List Text
board_names [] = []
board_names (b ∷ bs) = b.name ∷ board_names bs

unfoldable pub column_names : List Column → List Text
column_names [] = []
column_names (c ∷ cs) = c.name ∷ column_names cs

unfoldable pub boards_named : Chars → Text → List Board → List Text
boards_named t name [] = []
boards_named t name (b ∷ bs) =
    let rest = boards_named t name bs in
    if equal_fold t b.name (trim_space name) then b.id ∷ rest else rest

unfoldable pub columns_named : Chars → Text → List Column → List Column
columns_named t name [] = []
columns_named t name (c ∷ cs) =
    let rest = columns_named t name cs in
    if equal_fold t c.name (trim_space name) then c ∷ rest else rest

-- The three results of a search for one board, and for one column.
unfoldable pub one_board : Text → List Board → List Text → Outcome Text
unfolding board_names
one_board name boards [] = refused (no_board name (join (codes ", ") (board_names boards)))
one_board name boards (id ∷ []) = done id
one_board name boards (id ∷ other ∷ ids) = refused (many_boards (length (id ∷ other ∷ ids)) name)

unfoldable pub one_column : Text → List Column → List Column → Outcome Column
unfolding column_names
one_column name columns [] = refused (no_column name (join (codes ", ") (column_names columns)))
one_column name columns (c ∷ []) = done c
one_column name columns (c ∷ other ∷ cs) = refused (many_columns (length (c ∷ other ∷ cs)) name)

-- `matches` and `byName` of the loop of `assignCard`.
unfoldable pub by_email : Chars → Text → List User → List User
unfolding lower_text
by_email t wanted [] = []
by_email t wanted (u ∷ us) =
    let rest = by_email t wanted us in
    if u.active && same (lower_text t u.email_address) wanted then u ∷ rest else rest

unfoldable pub by_name : Chars → Text → List User → List User
unfolding lower_text
by_name t wanted [] = []
by_name t wanted (u ∷ us) =
    let rest = by_name t wanted us in
    if u.active
      && not (same (lower_text t u.email_address) wanted)
      && contains (lower_text t u.name) wanted
    then u ∷ rest
    else rest

unfoldable pub matches_of : List User → List User → List User
matches_of [] named = named
matches_of (u ∷ us) named = u ∷ us

unfoldable pub one_user : Text → List User → Outcome User
one_user who (u ∷ []) = done u
one_user who [] = refused (unclear_user 0 who)
one_user who (u ∷ other ∷ us) = refused (unclear_user (length (u ∷ other ∷ us)) who)

unfoldable pub user_named : Chars → Text → List User → Outcome User
unfolding by_email by_name matches_of one_user lower_text
user_named t who users = one_user who (
    matches_of (by_email t (lower_text t (trim_space who)) users)
      (by_name t (lower_text t (trim_space who)) users))

unfoldable pub is_user : User → User → Bool
is_user u assignee = same assignee.id u.id

unfoldable pub tag_of : Text → Text
tag_of tag = trim_prefix (trim_space tag) (codes "#")

-- `tagged` after the loop of `setTag`.
unfoldable pub is_tagged : Chars → Text → List Text → Bool
is_tagged t title [] = false
is_tagged t title (tag ∷ tags) = equal_fold t tag title || is_tagged t title tags

unfoldable pub unchanged_tag : Bool → ℕ → Text → Output
unchanged_tag wanted n title = if wanted then had_tag n title else lacked_tag n title

unfoldable pub changed_tag : Bool → ℕ → Text → Output
changed_tag wanted n title = if wanted then added_tag n title else removed_tag n title

-- `s.card` is the card of the conversation.
module _ {S : Type 0} (api : Api S) (libs : Libs) (t : Chars) (c : Client) (card : ℕ) where
  unfoldable pub resolved : Text → T S ℕ
  unfolding resolve_card
  resolved reference s = (resolve_card c card reference, s)

  unfoldable pub resolve_board : Text → T S Text
  unfolding and_then checked one_board boards_named
  resolve_board name s =
      if same (trim_space name) []
      then and_then (checked (api.card card s)) (λ found s. (done found.board.id, s))
      else and_then (checked (api.boards s))
          (λ boards s. (one_board name boards (boards_named t name boards), s))

  unfoldable pub create_card : Text → Text → Text → T S Output
  unfolding resolve_board
  create_card title description board s = and_then (resolve_board board s) (λ id s.
      and_then (checked (api.new_card id title (libs.markdown_to_html description) s))
        (λ n s. (done (made_card n (card_url c n)), s)))

  unfoldable pub close_card : Text → T S Output
  unfolding resolved
  close_card reference s =
      and_then (resolved reference s)
        (λ n s. and_then (checked (api.close n s)) (λ _ s. (done (closed_card n), s)))

  unfoldable pub reopen_card : Text → T S Output
  unfolding resolved
  reopen_card reference s =
      and_then (resolved reference s)
        (λ n s. and_then (checked (api.reopen n s)) (λ _ s. (done (reopened_card n), s)))

  unfoldable pub columns_of : Text → T S (ℕ × List Column)
  unfolding resolved
  columns_of reference s = and_then (resolved reference s) (λ n s.
      and_then (checked (api.card n s)) (λ found s.
        and_then (checked (api.columns found.board.id s)) (λ columns s. (done (n, columns), s))))

  unfoldable pub list_columns : Text → T S Output
  unfolding columns_of column_names
  list_columns reference s = and_then (columns_of reference s) (λ found s. (
    elim found.1 [
      | [] ↦ done no_columns
      | x ∷ xs ↦ done (column_list (join (codes ", ") (column_names (x ∷ xs))))
    ],
    s,
  ))

  unfoldable pub move_card : Text → Text → T S Output
  unfolding columns_of one_column columns_named
  move_card reference name s = and_then (columns_of reference s) (λ found s.
      and_then (one_column name found.1 (columns_named t name found.1), s)
        (λ column s.
          and_then (checked (api.to_column found.0 column.id s))
            (λ _ s. (done (moved_to_column found.0 column.name), s))))

  -- The end of `assignCard`: the card is got, and the assignment toggled if it is not there.
  unfoldable pub assign_user : ℕ → User → T S Output
  unfolding is_user any
  assign_user n u s = and_then (checked (api.card n s)) (λ found s.
      if any (is_user u) found.assignees
      then (done (already_assigned n u.name), s)
      else and_then (checked (api.assignment n u.id s)) (λ _ s. (done (assigned n u.name), s)))

  unfoldable pub assign_card : Text → Text → T S Output
  unfolding resolved user_named assign_user
  assign_card reference who s = and_then (resolved reference s) (λ n s.
      and_then (checked (api.users s))
        (λ users s. and_then (user_named t who users, s) (λ u s. assign_user n u s)))

  unfoldable pub comment_on_card : Text → Text → T S Output
  unfolding parse_card_reference
  comment_on_card reference markdown s =
      and_then (parse_card_reference c reference, s)
        (λ n s.
          if n == card
          then (refused (own_card n), s)
          else and_then (checked (api.comment n (libs.markdown_to_html markdown) s))
              (λ _ s. (done (comment_posted n), s)))

  -- The end of `setTag`: the card is got, and the tag toggled if that changes what is wanted.
  unfoldable pub toggle_to : Bool → ℕ → Text → T S Output
  unfolding is_tagged unchanged_tag changed_tag
  toggle_to wanted n title s = and_then (checked (api.card n s)) (λ found s.
      if (is_tagged t title found.tags && wanted)
        || (not (is_tagged t title found.tags) && not wanted)
      then (done (unchanged_tag wanted n title), s)
      else and_then (checked (api.tagging n title s))
          (λ _ s. (done (changed_tag wanted n title), s)))

  unfoldable pub set_tag : Bool → Text → Text → T S Output
  unfolding resolved tag_of toggle_to
  set_tag wanted reference tag s = and_then (resolved reference s) (λ n s.
      if same (tag_of tag) [] then (refused empty_tag, s) else toggle_to wanted n (tag_of tag) s)

  unfoldable pub add_tag : Text → Text → T S Output
  add_tag reference tag s = set_tag true reference tag s

  unfoldable pub remove_tag : Text → Text → T S Output
  remove_tag reference tag s = set_tag false reference tag s

  unfoldable pub list_boards : T S Output
  unfolding board_names
  list_boards s =
      and_then (checked (api.boards s))
        (λ boards s. (done (board_list (join (codes "\n") (board_names boards))), s))

  unfoldable pub move_card_to_board : Text → Text → T S Output
  unfolding resolved resolve_board
  move_card_to_board reference board s = and_then (resolved reference s) (λ n s.
      if same (trim_space board) []
      then (refused empty_board, s)
      else and_then (resolve_board board s) (λ id s.
        and_then (checked (api.to_board n id s))
          (λ _ s. (done (moved_to_board n (trim_space board)), s))))
