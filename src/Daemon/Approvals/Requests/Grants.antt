-- ===== src/Daemon/Approvals/Requests/Grants.antt =====
-- internal/daemon/approvals.go: when a request is approved.
use fizzy_connector.Base.{
  ◌≡◌, refl, ◌≢◌, ◌⊎◌, inl, inr, Bool, true, false, Option, none, some, List, [], ◌∷◌, ◌++◌, Text,
  arith, same_refl, mem_text, mem_text-append_one, Result, ok, err, Bool-cases, Option-cases, In,
}
use fizzy_connector.Fizzy.{Comment}
use fizzy_connector.Store.{CardState, is_handled}
use fizzy_connector.Ipc.{Response}
use fizzy_connector.Daemon.Approvals.{
  Answer, answer_none, answer_yes, answer_always, answer_no, is_none,
}
use fizzy_connector.Daemon.Approvals.Subject.{Subject, is_command, Checked, subject, refused}
use fizzy_connector.Daemon.Approvals.Requests.{
  Question, find_from, find_approval_answer, grant, Round, Wake, turn_ended, expired, polled, round,
  round_by, poll_round, update_round, after_grant, wait_rounds, Asking, Gate, entered, gate_ended,
  gate_expired, enter, ask, is_allowed, request_approval,
}
use fizzy_connector.Daemon.Approvals.Requests.Found.{Answers, found_from}

-- What stands behind an approval: a comment after the question that answers yes or always.
pub record IsGranted (q : Question) (s : Subject) (r : Round) : Type 0 where
  pub comments : List Comment
  pub fetched : r.comments ≡ ok comments
  pub answer_comment : Comment
  pub given : Answer
  pub says_yes : (given ≡ answer_yes) ⊎ (given ≡ answer_always)
  pub answers : Answers q answer_comment given
  pub follows :
      (earlier between rest : List Comment) × (x : Comment) × (x.id ≡ q.question_id)
      × (comments ≡ earlier ++ x ∷ between ++ answer_comment ∷ rest)
  pub alive : r.alive ≡ true
  pub old : CardState
  pub new : CardState
  pub read_state : r.saved ≡ ok old
  pub unused : is_handled old answer_comment.id ≡ false
  pub used : is_handled new answer_comment.id ≡ true

grant_used :
    (alive : Bool) (s : Subject) (a : Answer) (id : Text) (old : CardState)
    → (grant alive s a id old).0 ≡ true
    → (alive ≡ true)
      × (is_handled old id ≡ false)
      × (is_handled (grant alive s a id old).1 id ≡ true)
unfolding grant is_handled
grant_used alive s a id old h = ground (arith, mem_text-append_one id id old.handled, same_refl id)

after_grant_approved :
    (a : Answer) (c : Comment) (fails : Bool) (g : Bool × CardState) (p : Response)
    → (after_grant a c fails g).response ≡ some p
    → p.approved ≡ true
    → (g.0 ≡ true) × ((after_grant a c fails g).written ≡ some g.1) × (a ≢ answer_no)
unfolding after_grant
after_grant_approved answer_no c fails (granted, state) p h y = absurd (ground arith)
after_grant_approved answer_none c fails (granted, state) p h y = ground arith
after_grant_approved answer_yes c fails (granted, state) p h y = ground arith
after_grant_approved answer_always c fails (granted, state) p h y = ground arith

update_round_lem :
    (s : Subject) (r : Round) (c : Comment) (a : Answer) (saved : Result CardState) (p : Response)
    → (update_round s r c a saved).response ≡ some p
    → p.approved ≡ true
    → (old new : CardState) × (saved ≡ ok old)
      × ((update_round s r c a saved).written ≡ some new)
      × (r.alive ≡ true)
      × (is_handled old c.id ≡ false)
      × (is_handled new c.id ≡ true)
      × (a ≢ answer_no)
unfolding update_round
update_round_lem s r c a (err e) p h y = absurd (ground arith)
update_round_lem s r c a (ok old) p h y =
    let g = grant r.alive s a c.id old in
    let (granted, written, says) = after_grant_approved a c r.write_fails g p h y in
    let (alive, unused, used) = grant_used r.alive s a c.id old granted in
    (old, g.1, refl, written, alive, unused, used, says)

says_yes_of :
    (a : Answer) → is_none a ≡ false → a ≢ answer_no → (a ≡ answer_yes) ⊎ (a ≡ answer_always)
unfolding is_none
says_yes_of answer_none h n = absurd (ground arith)
says_yes_of answer_yes h n = inl refl
says_yes_of answer_always h n = inr refl
says_yes_of answer_no h n = absurd (n refl)

poll_IsGranted :
    (q : Question) (s : Subject) (r : Round) (cs : List Comment) (p : Response)
    → r.comments ≡ ok cs
    → (f : Option (Comment × Answer)) → find_from q false cs ≡ f
    → (poll_round s r f).response ≡ some p
    → p.approved ≡ true
    → (g : IsGranted q s r) × ((poll_round s r f).written ≡ some g.new)
unfolding poll_round
poll_IsGranted q s r cs p fetched none found h y = absurd (ground arith)
poll_IsGranted q s r cs p fetched (some (c, a)) found h y = elim (Bool-cases (is_none a)) [
  | inl nothing ↦ absurd (ground arith)
  | inr something ↦
      let (old, new, saved, written, alive, unused, used, says) =
        update_round_lem s r c a r.saved p (rw something at h) y in
      let (earlier, between, rest, x, asked, order, v) = found_from q cs c a found in
      (
        record {
          comments = cs;
          fetched = fetched;
          answer_comment = c;
          given = a;
          says_yes = says_yes_of a something says;
          answers = v;
          follows = (earlier, between, rest, x, asked, order);
          alive = alive;
          old = old;
          new = new;
          read_state = saved;
          unused = unused;
          used = used;
        },
        rw something written,
      )
]

fetched_IsGranted :
    (q : Question) (s : Subject) (r : Round) (p : Response) (cs : Result (List Comment))
    → r.comments ≡ cs
    → (poll_round s r (find_approval_answer q cs)).response ≡ some p
    → p.approved ≡ true
    → (g : IsGranted q s r) × ((poll_round s r (find_approval_answer q cs)).written ≡ some g.new)
unfolding find_approval_answer
fetched_IsGranted q s r p (err e) fetched h y = absurd (unfold poll_round in ground arith)
fetched_IsGranted q s r p (ok cs) fetched h y =
    poll_IsGranted q s r cs p fetched (find_from q false cs) refl h y

round_IsGranted :
    (q : Question) (s : Subject) (wait : Text) (r : Round) (p : Response) (w : Wake)
    → (round_by q s wait r w).response ≡ some p
    → p.approved ≡ true
    → (g : IsGranted q s r) × ((round_by q s wait r w).written ≡ some g.new)
unfolding round_by
round_IsGranted q s wait r p turn_ended h y = absurd (ground arith)
round_IsGranted q s wait r p expired h y = absurd (ground arith)
round_IsGranted q s wait r p polled h y = fetched_IsGranted q s r p r.comments refl h y

-- A round that granted, and the state that it wrote.
abbrev pub GrantedIn : Question → Subject → Text → List Round → Type 0
GrantedIn q s wait rs =
    (r : Round) × In r rs × ((g : IsGranted q s r) × ((round q s wait r).written ≡ some g.new))

-- A wait approves only in a round where a comment after the question, by a trusted user who is not
-- the bot, says yes or always with the code of the question, while the turn is alive; that comment
-- had not been used, and the state that the round writes marks it as used.
pub wait_rounds_approved :
    (q : Question) (s : Subject) (wait : Text) (rs : List Round) (p : Response)
    → wait_rounds q s wait rs ≡ some p
    → p.approved ≡ true
    → GrantedIn q s wait rs
unfolding wait_rounds
wait_rounds_approved q s wait [] p h y = absurd (ground arith)
wait_rounds_approved q s wait (r ∷ rs) p h y = elim (Option-cases (round q s wait r).response) [
  | inl waiting ↦
      let (r', m, g) = wait_rounds_approved q s wait rs p (ground arith) y in (r', inr m, g)
  | inr (p', done) ↦
      let closed : (round q s wait r).response ≡ some p = ground arith in
      (r, inl refl, unfold round in round_IsGranted q s wait r p r.wake closed y)
]

-- Why an entered request is approved.
abbrev pub Reason : (Text → Question) → Subject → Text → Asking → Type 0
Reason q s wait a =
    ((is_command s ≡ true)
      × (a.alive ≡ true)
      × ((state : CardState) × (a.state ≡ ok state)
          × (mem_text s.command state.allowed_commands ≡ true)))
    ⊎ ((id : Text) × (a.posted ≡ ok id) × GrantedIn (q id) s wait a.rounds)

ask_approved :
    (q : Text → Question) (s : Subject) (wait : Text) (a : Asking) (p : Response)
    (posted : Result Text)
    → ask q s wait a posted ≡ some p
    → p.approved ≡ true
    → (id : Text) × (posted ≡ ok id) × GrantedIn (q id) s wait a.rounds
unfolding ask
ask_approved q s wait a p (err e) h y = absurd (ground arith)
ask_approved q s wait a p (ok id) h y =
    (id, refl, wait_rounds_approved (q id) s wait a.rounds p h y)

allowed_approved :
    (s : Subject) (a : Asking) (state : Result CardState) (p : Response)
    → is_allowed s a state ≡ some p
    → p.approved ≡ true
    → (a.alive ≡ true)
      × ((st : CardState) × (state ≡ ok st) × (mem_text s.command st.allowed_commands ≡ true))
unfolding is_allowed
allowed_approved s a (err e) p h y = absurd (ground arith)
allowed_approved s a (ok st) p h y = (ground arith, (st, refl, ground arith))

enter_approved :
    (q : Text → Question) (s : Subject) (wait : Text) (a : Asking) (p : Response) (g : Gate)
    → enter q s wait a g ≡ some p
    → p.approved ≡ true
    → (g ≡ entered) × Reason q s wait a
unfolding enter
enter_approved q s wait a p gate_ended h y = absurd (ground arith)
enter_approved q s wait a p gate_expired h y = absurd (ground arith)
enter_approved q s wait a p entered h y = elim (Bool-cases (is_command s)) [
  | inr other ↦ (refl, inr (ask_approved q s wait a p a.posted (rw other at h) y))
  | inl command ↦ elim (Option-cases (is_allowed s a a.state)) [
    | inl asks ↦ (refl, inr (ask_approved q s wait a p a.posted (ground arith) y))
    | inr (p', e) ↦
        let done : is_allowed s a a.state ≡ some p = ground arith in
        let (alive, allowed) = allowed_approved s a a.state p done y in
        (refl, inl (command, alive, allowed))
  ]
]

-- A request is approved only when it is well formed, the gate of its card was entered, and either
-- the same command was permitted for good on this card and the turn is alive, or the question was
-- posted and a round of the wait granted it.
pub request_approval_approved :
    (q : Text → Question) (c : Checked) (wait : Text) (a : Asking) (p : Response)
    → request_approval q c wait a ≡ some p
    → p.approved ≡ true
    → (s : Subject) × (c ≡ subject s) × (a.gate ≡ entered) × Reason q s wait a
unfolding request_approval
request_approval_approved q (refused r) wait a p h y = absurd (ground arith)
request_approval_approved q (subject s) wait a p h y =
    let (g, e) = enter_approved q s wait a p a.gate h y in (s, refl, g, e)
