-- ===== src/Examples/Sessions.antt =====
-- The tools of a session over a small Fizzy, and over the daemon.
use fizzy_connector.Base.{
  ℕ, ◌≡◌, refl, sym, ap, ◌∙◌, inl, inr, Bool, true, false, not, ◌&&◌, ◌||◌, Bool-cases, Option,
  none, some, List, [], ◌∷◌, Text, codes, arith, ◌==◌, if◌then◌else◌, same, same_iff, map, any, In,
  Result, ok, err, Error, failed,
}
use fizzy_connector.Fizzy.{User}
use fizzy_connector.Mcpserver.Results.{Api, Output, Outcome, done, comment_posted}
use fizzy_connector.Mcpserver.References.{resolve_card}
use fizzy_connector.Mcpserver.Actions.{equal_fold, tag_of, set_tag, assign_card}
use fizzy_connector.Mcpserver.Actions.Tags.{IsTagged, set_tag-IsTagged}
use fizzy_connector.Mcpserver.Actions.Assignments.{
  IsNamed, wanted_of, IsAssigned, assign_card-IsAssigned,
}
use fizzy_connector.Mcpserver.Tools.{reply, request, approve}
use fizzy_connector.Mcpserver.Tools.Laws.{HasReplied, World, served, approve_allow, reply_confirmed}
use fizzy_connector.Ipc.{Op}
use fizzy_connector.Daemon.Turns.{Turn, begin_turn, note_comment}
use fizzy_connector.Daemon.Messages.{Desk}
use fizzy_connector.Daemon.Approvals.Subject.{Subject, subject}
use fizzy_connector.Daemon.Approvals.Requests.{entered}
use fizzy_connector.Daemon.Approvals.Requests.Grants.{Reason}
use fizzy_connector.Examples.Questions.{question, asking, bash_request}
use fizzy_connector.Examples.Data.{config, empty_sys, libs}
use fizzy_connector.Examples.Tools.{client}
use fizzy_connector.Examples.Apis.{
  chars, no_api, one_tag, urgent_on, one_tag-TagLaws, ann_on, one_assignee,
  one_assignee-AssignmentLaws,
}

set_tag_example :
    (n : ℕ) × (resolve_card client 7 [] ≡ done n)
    × IsTagged one_tag libs chars client 7 urgent_on one_tag-TagLaws true n
        (tag_of (codes " #Urgent"))
        false
        (set_tag one_tag libs chars client 7 true [] (codes " #Urgent") false).1
unfolding set_tag fizzy_connector.Mcpserver.Results.and_then same fizzy_connector.Base.trim_space
    fizzy_connector.Base.trim_prefix fizzy_connector.Mcpserver.Results.checked equal_fold
set_tag_example =
    set_tag-IsTagged one_tag libs chars client 7 urgent_on one_tag-TagLaws true []
      (codes " #Urgent") false (Output.added_tag 7 (codes "Urgent")) refl

assign_card_example :
    (n : ℕ) × (users : List User) × (u : User) × (resolve_card client 7 (codes "#7") ≡ done n)
    × ((one_assignee.users false).0 ≡ ok users)
    × IsNamed chars (wanted_of chars (codes "Ann")) users u
    × IsAssigned one_assignee libs chars client 7 ann_on one_assignee-AssignmentLaws n u.id false
        (assign_card one_assignee libs chars client 7 (codes "#7") (codes "Ann") false).1
unfolding assign_card fizzy_connector.Mcpserver.Results.and_then same
    fizzy_connector.Base.trim_space fizzy_connector.Mcpserver.References.parse_card_reference
    fizzy_connector.Base.atoi fizzy_connector.Mcpserver.Results.checked
    fizzy_connector.Base.to_lower fizzy_connector.Base.contains
assign_card_example =
    assign_card-IsAssigned one_assignee libs chars client 7 ann_on one_assignee-AssignmentLaws
      (codes "#7") (codes "Ann") false (Output.assigned 7 (codes "Ann")) refl

abbrev desk : Desk
desk = record {
  now = 9;
  error_text = λ e. [];
  entered_in_time = true;
  activity = record {
    queue = ok [];
    reads = ok tt;
    document = λ items. ([], 0);
    in_time = true;
    now = 9;
  };
  interval = 5;
  note = [];
  subject_of = λ r. subject bash_request;
  question = question;
  wait = codes "10m";
  asking = asking;
  others = λ s. s;
}

abbrev session : Turn
session = begin_turn 1 7 0

abbrev world : World (Unit {0})
world = record {
  fizzy = tt;
  office = record {
    turns = λ token. if same token (codes "k") then some session else none;
    sys = empty_sys;
  };
}

-- A Fizzy that takes each comment.
abbrev posting : Api (World (Unit {0}))
posting = record no_api { comment = λ n html w. (ok (codes "c9"), w) }

approve_example :
    (codes "ls" ≡ codes "ls")
    × ((t : Turn) × (world.office.turns (codes "k") ≡ some t))
    × ((s : Subject) × (desk.subject_of (record (request Op.approve (codes "k")) {
      tool_name = codes "Bash";
      tool_input = codes "ls";
    })
          ≡ subject s)
        × (desk.asking.gate ≡ entered)
        × Reason desk.question s desk.wait desk.asking)
unfolding approve served fizzy_connector.Daemon.Messages.handle_ipc same
    fizzy_connector.Daemon.Approvals.Requests.request_approval
    fizzy_connector.Daemon.Approvals.Subject.is_command fizzy_connector.Base.mem_text
    fizzy_connector.Store.new_state fizzy_connector.Daemon.Approvals.Requests.wait_rounds
    fizzy_connector.Daemon.Approvals.Requests.round
    fizzy_connector.Daemon.Approvals.Requests.find_approval_answer fizzy_connector.Config.is_trusted
    fizzy_connector.Daemon.Approvals.parse_approval_answer
    fizzy_connector.Daemon.Approvals.skip_mentions fizzy_connector.Daemon.Approvals.fields
    fizzy_connector.Base.is_space fizzy_connector.Base.has_prefix fizzy_connector.Base.all
    fizzy_connector.Base.byte_len fizzy_connector.Base.cut_prefix fizzy_connector.Base.join
    fizzy_connector.Base.rune_width fizzy_connector.Base.to_lower fizzy_connector.Base.to_upper
    fizzy_connector.Base.trim_left fizzy_connector.Base.trim_right
    fizzy_connector.Daemon.Approvals.Requests.grant
    fizzy_connector.Daemon.Approvals.Requests.is_always fizzy_connector.Daemon.Approvals.in_set
    fizzy_connector.Daemon.Approvals.is_none fizzy_connector.Daemon.Effects.changed
    fizzy_connector.Daemon.Effects.get_card fizzy_connector.Daemon.Effects.meanwhile
    fizzy_connector.Daemon.Effects.send fizzy_connector.Daemon.Effects.update_card
    fizzy_connector.Daemon.Messages.deliver_agent_message fizzy_connector.Daemon.Messages.deliver_to
    fizzy_connector.Daemon.Messages.handle_op fizzy_connector.Daemon.Messages.message_item
    fizzy_connector.Daemon.Messages.queue_message fizzy_connector.Daemon.Messages.refuse
    fizzy_connector.Daemon.Prompt.has_human_trigger fizzy_connector.Daemon.Turns.check
    fizzy_connector.Daemon.Turns.give fizzy_connector.Daemon.Turns.max_hops
    fizzy_connector.Daemon.Turns.new_activity fizzy_connector.Daemon.Turns.new_items note_comment
    fizzy_connector.Daemon.Turns.note_due fizzy_connector.Daemon.Turns.progress_note_request
    fizzy_connector.Ipc.send_and_wait fizzy_connector.Mcpserver.Tools.permission request
    fizzy_connector.Store.get fizzy_connector.Store.is_handled fizzy_connector.Store.read
    fizzy_connector.Store.update fizzy_connector.Store.write
approve_example =
    approve_allow posting desk libs config client 7 (codes "k") (λ e. []) (λ i. i) (codes "Bash")
      (codes "ls") (codes "ls") world refl

reply_example :
    let posted = posting.comment 7 (libs.markdown_to_html (codes "Done.")) world in
    let after =
      (reply posting (served desk) libs config client 7 (codes "k") (codes "Done.") world).1 in
    ((id : Text) × (posted.0 ≡ ok id))
    × ((u : Turn) × (after.office.turns (codes "k") ≡ some u) × HasReplied 9 session u)
    × ((other : Text)
        → same other (codes "k") ≡ false
        → after.office.turns other ≡ posted.1.office.turns other)
unfolding same reply fizzy_connector.Base.trim_space served
    fizzy_connector.Daemon.Messages.handle_ipc begin_turn
reply_example =
    reply_confirmed posting desk libs config client 7 (codes "k") (codes "Done.") world session refl
      refl refl refl
