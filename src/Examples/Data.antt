-- ===== src/Examples/Data.antt =====
-- Small concrete inputs: a bot, a trusted person, a card and an empty store.
use fizzy_connector.Store.Laws.{IsKept}
use fizzy_connector.Base.{
  arith, true, false, none, some, [], ◌∷◌, ◌++◌, codes, contains, ◌*◌, ◌==◌, if◌then◌else◌, ok,
  CaseTable,
}
use fizzy_connector.Fizzy.{User, Card, Comment, Notification, Libs}
use fizzy_connector.Config.{Config, pos, finite, second, minute, hour}
use fizzy_connector.Store.{comment, agent_message, Item, CardState, Store, new_state}
use fizzy_connector.Daemon.Effects.{Sys}
use fizzy_connector.Daemon.Triggers.{Trigger, Evidence, Scan}
use fizzy_connector.Daemon.Scan.{Scanner, Sight}

abbrev pub bot : User
bot = record {
  id = codes "bot";
  name = codes "Bot";
  role = codes "member";
  active = true;
  email_address = codes "bot@x";
}

abbrev pub ann : User
ann = record {
  id = codes "ann";
  name = codes "Ann";
  role = codes "member";
  active = true;
  email_address = codes "ann@x";
}

abbrev pub libs : Libs
libs = record {
  mentions = λ html user. contains html (codes "@" ++ user);
  plain_text = λ html. html;
  markdown_to_html = λ text. text;
  digest = λ text. text;
}

abbrev pub config : Config
config = record {
  base_url = codes "http://x";
  account_slug = codes "1";
  token = codes "t";
  bot_user_id = codes "bot";
  trusted_user_ids = codes "ann" ∷ [];
  repo = codes "/r";
  claude_path = codes "claude";
  claude_config_dir = [];
  model = [];
  effort = [];
  permission_mode = codes "auto";
  allowed_tools = [];
  add_dirs = [];
  approvals = true;
  max_concurrent = pos 4;
  turn_timeout = pos (30 * minute);
  max_cost_per_turn = finite (pos 10_000_000_000);
  approval_timeout = pos (10 * minute);
  progress_interval = pos (10 * minute);
  poll_interval = pos (3 * second);
  log_retention = pos (24 * hour);
  state_dir = codes "/s";
}

abbrev pub card : Card
card = record {
  number = 7;
  title = codes "T";
  status = codes "published";
  description = codes "D";
  description_html = codes "D @bot";
  tags = [];
  closed = false;
  url = codes "u";
  board = record { id = codes "b"; name = codes "B" };
  creator = ann;
  assignees = [];
}

abbrev pub call_comment : Comment
call_comment = record { id = codes "c1"; created_at = 5; html = codes "@bot go"; creator = ann }

abbrev pub empty_store : Store
empty_store = record { file = λ n. none; read_fails = λ n. false; write_fails = λ n. false }

abbrev pub empty_sys : Sys
empty_sys = record { store = empty_store; sent = []; pending_scans = λ n. false }

abbrev pub call_item : Item
call_item = record {
  kind = comment;
  trigger_id = codes "c1";
  author_id = codes "ann";
  author_name = codes "Ann";
  from_card = 0;
  text = [];
  hops = 0;
}

abbrev pub agent_item : Item
agent_item = record {
  kind = agent_message;
  trigger_id = [];
  author_id = [];
  author_name = [];
  from_card = 3;
  text = codes "hello";
  hops = 1;
}

abbrev pub call_trigger : Trigger
call_trigger = record { item = call_item; author = ann; trusted = true }

abbrev pub scanner : Scanner
scanner = record { libs = libs; cfg = config; is_approval_answer = λ t. false }

abbrev pub sight : Sight
sight = record {
  card = ok card;
  comments = ok (call_comment ∷ []);
  members = ok (ann ∷ bot ∷ []);
  noticed = ok (codes "n1");
  reacted = λ i. ok tt;
  approval_pending = false;
  others = λ c. c;
}

abbrev pub evidence : Evidence
evidence = record { mentioner = ann; body = codes "D" }

abbrev pub notification : Notification
notification = record {
  id = codes "note1";
  is_read = false;
  source_type = codes "mention";
  body = codes "D";
  creator = ann;
  card_number = 7;
}

abbrev pub scan : Scan
scan = record {
  libs = libs;
  cfg = config;
  is_approval_answer = λ t. false;
  trusted_board = true;
  approval_pending = false;
}

abbrev pub table : CaseTable
table = record { upper = λ c. c; lower = λ c. c }

-- Card 7 has a session.
abbrev pub started_card : CardState
started_card = record (new_state 7) { session_id = codes "s"; session_started = true }

abbrev pub started_store : Store
started_store = record empty_store { file = λ n. if n == 7 then some started_card else none }

pub empty_store-IsKept : IsKept empty_store
empty_store-IsKept n c h = ground arith
