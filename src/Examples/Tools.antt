-- ===== src/Examples/Tools.antt =====
-- The client of the API and the tools of a session.
use fizzy_connector.Base.{
  ℕ, ◌≡◌, ◌<◌, refl, Option, some, List, [], ◌∷◌, Text, codes, arith, if◌then◌else◌, same, Result,
  ok, all,
}
use fizzy_connector.Fizzy.Requests.{Client, Reply, replied, card_url, account_url}
use fizzy_connector.Fizzy.Pages.{get_all}
use fizzy_connector.Fizzy.Pages.Laws.{Chain, get_all_iff}
use fizzy_connector.Mcpserver.Results.{done, refused, bad_reference}
use fizzy_connector.Mcpserver.References.{parse_card_reference}
use fizzy_connector.Mcpserver.References.Laws.{parse_card_reference-card_url}

abbrev pub client : Client
client = record {
  base_url = codes "http://x";
  slug = codes "1";
  token = codes "t";
  session_token = [];
}

parse_card_reference_example :
    parse_card_reference client (card_url (record client { slug = codes "2" }) 42) ≡ (
      if same (codes "2") (codes "1")
      then done 42
      else refused (
          bad_reference (card_url (record client { slug = codes "2" }) 42) (account_url client [])))
unfolding all
parse_card_reference_example =
    parse_card_reference-card_url client (codes "2") (codes "://x") 42 refl refl refl (omega arith)

abbrev pub reply_of : Text → Text → Reply
reply_of link body = replied (record {
  status = 200;
  link = link;
  location = codes "/1/cards/7/comments/c9";
  etag = [];
  magic_link_code = [];
  body = body;
})

-- Two pages: u, with a link to v, and v.
abbrev paged : Text → Reply
paged url =
    if same url (codes "u")
    then reply_of (codes "<v>; rel=\"next\"") (codes "a")
    else reply_of [] (codes "b")

abbrev whole : Text → Option (List Text)
whole body = some (body ∷ [])

abbrev both : Result (List Text)
both = ok (codes "a" ∷ codes "b" ∷ [])

get_all_example :
    ((n fuel : ℕ)
      → Chain whole paged (codes "u") both n
      → n < fuel
      → get_all whole paged fuel (codes "u") [] ≡ some both)
    × ((fuel : ℕ)
        → get_all whole paged fuel (codes "u") [] ≡ some both
        → Chain whole paged (codes "u") both fuel)
get_all_example = get_all_iff whole paged (codes "u") both
