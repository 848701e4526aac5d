-- ===== src/Examples/Questions.antt =====
-- Documents, answers and permission questions.
use fizzy_connector.Base.{
  ◌≡◌, refl, ◌≢◌, ◌⊎◌, ◌↔◌, ◌<◌, ◌≤◌, ◌+◌, inl, inr, ℕ, Bool, true, false, some, none, Option, List,
  [], ◌∷◌, ◌++◌, Text, codes, arith, In, All, Result, ok, map, filter_by, length, trim_space,
  trim_right, byte_len, all, to_lower, to_upper, contains,
}
use fizzy_connector.Fizzy.{Comment}
use fizzy_connector.Store.{CardState, new_state}
use fizzy_connector.Ipc.{approved_response}
use fizzy_connector.Daemon.Prompt.{PromptInput, build_prompt, show, ask, item_requests}
use fizzy_connector.Daemon.Prompt.Shown.{Shows, IsItem}
use fizzy_connector.Daemon.Prompt.Spec.{is_shown, is_asked, build_prompt_lem}
use fizzy_connector.Daemon.Approvals.{
  Answer, answer_none, answer_yes, parse_approval_answer, fields, skip_mentions, in_set,
  code_alphabet, new_approval_code,
}
use fizzy_connector.Daemon.Approvals.Answers.{parse-new_approval_code}
use fizzy_connector.Daemon.Approvals.Subject.{Subject, subject, is_command}
use fizzy_connector.Daemon.Approvals.Requests.{
  Question, Round, polled, Asking, entered, request_approval,
}
use fizzy_connector.Daemon.Approvals.Requests.Grants.{Reason, request_approval_approved}
use fizzy_connector.Examples.Data.{bot, ann, libs, config, card, call_comment, call_item, table}

abbrev prompt : PromptInput
prompt = record {
  libs = libs;
  cfg = config;
  card = card;
  comments = call_comment ∷ [];
  items = call_item ∷ [];
  state = new_state 7;
  first_turn = true;
  during_turn = false;
  prompted_up_to = 0;
}

build_prompt_example :
    let d = (build_prompt prompt).0 in
    ((d.comments ≡ map (show prompt) (filter_by (is_shown prompt) (call_comment ∷ [])))
      × (d.requests
          ≡ item_requests prompt (call_item ∷ [])
            ++ map (ask prompt) (filter_by (is_asked prompt) (call_comment ∷ []))))
    × (((c : Comment) → (is_shown prompt c ≡ true) ↔ Shows prompt c)
        × ((c : Comment)
            → (is_asked prompt c ≡ true) ↔ (Shows prompt c × IsItem prompt.items c.id)))
build_prompt_example = build_prompt_lem prompt

abbrev pub bash_request : Subject
bash_request = record {
  tool_name = codes "Bash";
  command = codes "ls";
  display = codes "ls";
  purpose = codes "list";
}

said_yes : (parse_approval_answer table (codes "@Bot Yes abcde!")).0 ≡ answer_yes
unfolding parse_approval_answer skip_mentions fields fizzy_connector.Base.is_space
    fizzy_connector.Base.has_prefix byte_len trim_right in_set to_upper all
    fizzy_connector.Base.same to_lower
said_yes = refl

parse-new_approval_code_example :
    parse_approval_answer table
      (codes "yes" ++ codes " " ++ new_approval_code (1 ∷ 2 ∷ 3 ∷ 40 ∷ 255 ∷ []))
    ≡ (answer_yes, new_approval_code (1 ∷ 2 ∷ 3 ∷ 40 ∷ 255 ∷ []))
parse-new_approval_code_example =
    parse-new_approval_code table (1 ∷ 2 ∷ 3 ∷ 40 ∷ 255 ∷ []) answer_yes refl (λ e. ground arith)

abbrev pub question : Text → Question
question id = record {
  libs = libs;
  table = table;
  cfg = config;
  question_id = id;
  code = codes "ABCDE";
}

abbrev pub question_comment : Comment
question_comment = record { id = codes "q1"; created_at = 6; html = codes "May I?"; creator = bot }

abbrev pub answer_comment : Comment
answer_comment = record { id = codes "c2"; created_at = 7; html = codes "yes abcde"; creator = ann }

abbrev pub polled_round : Round
polled_round = record {
  wake = polled;
  comments = ok (question_comment ∷ answer_comment ∷ []);
  alive = true;
  saved = ok (new_state 7);
  write_fails = false;
}

abbrev pub asking : Asking
asking = record {
  gate = entered;
  state = ok (new_state 7);
  alive = true;
  posted = ok (codes "q1");
  rounds = polled_round ∷ [];
  refusal_text = λ r. [];
}

request_approval_example :
    (s : Subject) × (subject bash_request ≡ subject s)
    × (entered ≡ entered)
    × Reason question s (codes "10m") asking
unfolding request_approval is_command fizzy_connector.Base.same fizzy_connector.Base.mem_text
    new_state fizzy_connector.Daemon.Approvals.Requests.wait_rounds
    fizzy_connector.Daemon.Approvals.Requests.round
    fizzy_connector.Daemon.Approvals.Requests.find_approval_answer fizzy_connector.Config.is_trusted
    parse_approval_answer skip_mentions fields fizzy_connector.Base.is_space
    fizzy_connector.Base.has_prefix byte_len trim_right in_set to_upper all to_lower
    fizzy_connector.Daemon.Approvals.is_none fizzy_connector.Daemon.Approvals.Requests.grant
    fizzy_connector.Store.is_handled
request_approval_example =
    request_approval_approved question (subject bash_request) (codes "10m") asking approved_response
      refl refl
