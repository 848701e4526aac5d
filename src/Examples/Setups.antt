-- ===== src/Examples/Setups.antt =====
-- The dialogues of the setup, and the checks of the doctor.
use fizzy_connector.Base.{
  ℕ, ◌≡◌, ◌≢◌, ◌+◌, ◌⊎◌, inl, inr, refl, Bool, true, false, Option, some, none, List, [], ◌∷◌, ◌++◌,
  Text, codes, arith, all, Result, ok, err, failed,
}
use fizzy_connector.Config.{defaults}
use fizzy_connector.Fizzy.{User, Account, Identity, Board}
use fizzy_connector.Fizzy.Requests.{Request, Reply}
use fizzy_connector.Fizzy.Client.{Codec}
use fizzy_connector.Fizzy.Session.{Page}
use fizzy_connector.Fizzy.Base64.{decode_base64}
use fizzy_connector.Fizzy.Mentions.{mentions}
use fizzy_connector.Setup.Prompts.{Talk}
use fizzy_connector.Setup.Accounts.{Kit}
use fizzy_connector.Setup.Init.{Machine, Written, whole, init, login}
use fizzy_connector.Setup.Init.Laws.Ends.{InitEnds, init-InitEnds}
use fizzy_connector.Setup.Init.Laws.Logins.{LoginEnds, login-LoginEnds}
use fizzy_connector.Setup.Doctor.{Health, doctor}
use fizzy_connector.Setup.Doctor.Laws.{IsHealthy, doctor-IsHealthy}
use fizzy_connector.Base.{In}
use fizzy_connector.Fizzy.{Comment}
use fizzy_connector.Examples.Data.{ann, bot, table, config}
use fizzy_connector.Examples.Tools.{reply_of}

abbrev bot_account : Account
bot_account = record { id = codes "a"; name = codes "A"; slug = codes "/1"; user = bot }

abbrev me : Identity
me = record { id = codes "i"; accounts = bot_account ∷ [] }

abbrev codec : Codec
codec = record {
  users = λ body. some (ann ∷ bot ∷ []);
  boards = λ body. some (record { id = codes "b"; name = codes "B" } ∷ []);
  columns = λ body. none;
  comments = λ body. none;
  cards = λ body. none;
  accesses = λ body. none;
  notifications = λ body. some [];
  card = λ body. none;
  comment_id = λ body. none;
  access_token = λ body. some (codes "t");
  identity = λ body. some me;
  pending_token = λ body. some (codes "p");
  session_token = λ body. some (codes "s");
  query = λ fields. [];
}

abbrev page : Page
page = record {
  status = 200;
  path = codes "/1";
  body = codes "<turbo signed-stream-name=\"Ing6bm90aWZpY2F0aW9ucyI=--0\">";
}

abbrev kit : Kit (Unit {0})
kit = record {
  server = λ request s. (reply_of [] [], s);
  codec = codec;
  browse = λ request s. (some page, s);
  unescape = λ text. text;
  table = table;
  ended = failed (codes "cancelled");
  pages = 2;
}

abbrev machine : Machine
machine = record {
  existing = none;
  defaults = defaults (codes "/s");
  absolute = λ path. ok path;
  in_home = λ path. path;
  is_dir = λ path. true;
  write_config = λ cfg. whole;
  save_session = λ cfg token. whole;
}

-- A dialogue that logs in to an existing user and trusts Ann.
abbrev dialogue : Talk (Unit {0})
dialogue = record {
  lines =
      codes "http://x"
      ∷ (codes "2"
          ∷ (codes "bot@x" ∷ (codes "abc" ∷ (codes "2" ∷ (codes "1" ∷ (codes "/r" ∷ []))))));
  fizzy = tt;
  config_file = none;
  session_file = none;
}

init_example : InitEnds kit machine dialogue (init kit machine dialogue)
init_example = init-InitEnds kit machine dialogue

init_saves : (init kit machine dialogue).1.session_file ≡ some (codes "s")
unfolding init fizzy_connector.Setup.Prompts.◌>>=◌ fizzy_connector.Setup.Prompts.ask_required
    fizzy_connector.Setup.Prompts.ask_for fizzy_connector.Base.same fizzy_connector.Base.trim_space
    fizzy_connector.Setup.Accounts.login_bot_user fizzy_connector.Setup.Prompts.calling
    fizzy_connector.Fizzy.Session.request_magic_link fizzy_connector.Fizzy.Session.session_post
    fizzy_connector.Fizzy.Session.submit_magic_link fizzy_connector.Fizzy.Client.identity_of
    fizzy_connector.Fizzy.Client.get fizzy_connector.Fizzy.Requests.do_request
    fizzy_connector.Setup.Prompts.giving fizzy_connector.Fizzy.Client.create_access_token
    fizzy_connector.Fizzy.Client.users_of fizzy_connector.Base.atoi_signed
    fizzy_connector.Base.number_up_to fizzy_connector.Base.split_on fizzy_connector.Base.value_from
    all fizzy_connector.Base.cut_prefix fizzy_connector.Base.has_prefix
    fizzy_connector.Base.is_space fizzy_connector.Base.to_upper fizzy_connector.Base.trim_left
    fizzy_connector.Base.trim_right fizzy_connector.Fizzy.Client.decoded
    fizzy_connector.Fizzy.Client.list_at fizzy_connector.Fizzy.Client.replies
    fizzy_connector.Fizzy.Pages.drop_while fizzy_connector.Fizzy.Pages.get_all
    fizzy_connector.Fizzy.Pages.link_at fizzy_connector.Fizzy.Pages.next_link
    fizzy_connector.Fizzy.Pages.not_close fizzy_connector.Fizzy.Pages.page_of
    fizzy_connector.Fizzy.Pages.take_while fizzy_connector.Fizzy.Requests.account_url
    fizzy_connector.Fizzy.Requests.headers_of fizzy_connector.Fizzy.Requests.outcome_of
    fizzy_connector.Fizzy.Requests.received fizzy_connector.Fizzy.Requests.request_of
    fizzy_connector.Fizzy.Session.session_request fizzy_connector.Setup.Accounts.account_number
    fizzy_connector.Setup.Accounts.account_with fizzy_connector.Setup.Accounts.choose_account
    fizzy_connector.Setup.Accounts.client_at fizzy_connector.Setup.Accounts.magic_link_login
    fizzy_connector.Setup.Accounts.nth fizzy_connector.Setup.Accounts.one_account
    fizzy_connector.Setup.Accounts.session_client fizzy_connector.Setup.Accounts.trim_slashes
    fizzy_connector.Setup.Init.ask_dir fizzy_connector.Setup.Init.candidates
    fizzy_connector.Setup.Init.choose_trusted_users fizzy_connector.Setup.Init.expand_home
    fizzy_connector.Setup.Init.ids_at fizzy_connector.Setup.Init.init_dialogue
    fizzy_connector.Setup.Init.is_candidate fizzy_connector.Setup.Init.method_of
    fizzy_connector.Setup.Init.or_default fizzy_connector.Setup.Init.save_session
    fizzy_connector.Setup.Init.start_config fizzy_connector.Setup.Init.trusted_ids
    fizzy_connector.Setup.Init.write_config fizzy_connector.Setup.Prompts.answer
    fizzy_connector.Setup.Prompts.ask_until
init_saves = refl

login_example : LoginEnds kit machine config dialogue (login kit machine config dialogue)
login_example = login-LoginEnds kit machine config dialogue

login_saves : (login kit machine config dialogue).1.session_file ≡ some (codes "s")
unfolding login fizzy_connector.Setup.Prompts.◌>>=◌ fizzy_connector.Setup.Prompts.ask_required
    fizzy_connector.Setup.Prompts.ask_for fizzy_connector.Setup.Accounts.bot_email
    fizzy_connector.Setup.Prompts.calling fizzy_connector.Fizzy.Client.identity_of
    fizzy_connector.Fizzy.Client.get fizzy_connector.Fizzy.Requests.do_request
    fizzy_connector.Base.same fizzy_connector.Base.trim_space
    fizzy_connector.Setup.Accounts.magic_link_login fizzy_connector.Fizzy.Session.request_magic_link
    fizzy_connector.Fizzy.Session.session_post fizzy_connector.Fizzy.Session.submit_magic_link
    fizzy_connector.Setup.Accounts.verify_session_user fizzy_connector.Setup.Prompts.giving
    fizzy_connector.Base.contains fizzy_connector.Base.cut_prefix fizzy_connector.Base.has_prefix
    fizzy_connector.Base.is_space fizzy_connector.Base.to_upper fizzy_connector.Base.trim_left
    fizzy_connector.Base.trim_right fizzy_connector.Base.trim_suffix
    fizzy_connector.Fizzy.Base64.bytes_of decode_base64 fizzy_connector.Fizzy.Base64.decode_with
    fizzy_connector.Fizzy.Base64.is_padding fizzy_connector.Fizzy.Base64.sextet
    fizzy_connector.Fizzy.Base64.sextets fizzy_connector.Fizzy.Client.decoded
    fizzy_connector.Fizzy.Mentions.before fizzy_connector.Fizzy.Mentions.find_all
    fizzy_connector.Fizzy.Mentions.not_char fizzy_connector.Fizzy.Pages.drop_while
    fizzy_connector.Fizzy.Pages.take_while fizzy_connector.Fizzy.Requests.account_url
    fizzy_connector.Fizzy.Requests.headers_of fizzy_connector.Fizzy.Requests.outcome_of
    fizzy_connector.Fizzy.Requests.received fizzy_connector.Fizzy.Requests.request_of
    fizzy_connector.Fizzy.Session.first_stream fizzy_connector.Fizzy.Session.is_notifications
    fizzy_connector.Fizzy.Session.notification_stream_name
    fizzy_connector.Fizzy.Session.session_request fizzy_connector.Fizzy.Session.stream_in_page
    fizzy_connector.Fizzy.Session.stream_name_at fizzy_connector.Fizzy.Session.stream_request
    fizzy_connector.Setup.Accounts.client_at fizzy_connector.Setup.Accounts.email_found
    fizzy_connector.Setup.Accounts.email_of fizzy_connector.Setup.Accounts.is_bot_account
    fizzy_connector.Setup.Accounts.session_client fizzy_connector.Setup.Init.save_session
    fizzy_connector.Setup.Prompts.answer fizzy_connector.Setup.Prompts.ask_until
login_saves = refl

abbrev health : Health
health = record {
  stat = λ path. ok true;
  version = λ path env. ok (codes "2.0");
  session_token = codes "s";
  quote = λ text. text;
}

doctor_example : IsHealthy kit health config (λ n. tt)
unfolding doctor fizzy_connector.Fizzy.Client.identity_of fizzy_connector.Fizzy.Client.get
    fizzy_connector.Fizzy.Requests.do_request fizzy_connector.Base.same
    fizzy_connector.Fizzy.Client.notifications fizzy_connector.Fizzy.Client.boards_of
    fizzy_connector.Fizzy.Client.list_at fizzy_connector.Fizzy.Pages.get_all
    fizzy_connector.Fizzy.Requests.account_url fizzy_connector.Setup.Accounts.client_at
    fizzy_connector.Fizzy.Pages.next_link fizzy_connector.Fizzy.Session.notification_stream_name
    fizzy_connector.Base.contains fizzy_connector.Base.trim_suffix decode_base64
doctor_example = doctor-IsHealthy kit health config (λ n. tt) refl
