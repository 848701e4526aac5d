-- ===== src/Daemon/Approvals/Requests/Found.antt =====
-- internal/daemon/approvals.go, findApprovalAnswer: what an answer that is found is.
use fizzy_connector.Base.{
  ◌≡◌, ap, subst, inl, inr, Bool, true, false, not, ◌&&◌, Option, some, List, [], ◌∷◌, ◌++◌, arith,
  if◌then◌else◌, same, same_iff, Bool-cases,
}
use fizzy_connector.Fizzy.{Comment}
use fizzy_connector.Config.{is_trusted}
use fizzy_connector.Daemon.Approvals.{Answer, parse_approval_answer}
use fizzy_connector.Daemon.Approvals.Requests.{Question, find_from, may_answer, answer_of}

-- A comment of a trusted user, not of the bot, that parses to the answer with the code.
pub record Answers (q : Question) (c : Comment) (a : Answer) : Type 0 where
  pub not_bot : same c.creator.id q.cfg.bot_user_id ≡ false
  pub trusted : is_trusted q.cfg c.creator.id ≡ true
  pub parsed : (parse_approval_answer q.table (q.libs.plain_text c.html)).0 ≡ a
  pub coded : (parse_approval_answer q.table (q.libs.plain_text c.html)).1 ≡ q.code

matches : Question → Comment → Bool
matches q x = may_answer q x && same (answer_of q x).1 q.code

found_here :
    (q : Question) (x c : Comment) (a : Answer)
    → matches q x ≡ true
    → ◌≡◌ {A = Option (Comment × Answer)} (some (x, (answer_of q x).0)) (some (c, a))
    → (x ≡ c) × Answers q c a
unfolding matches may_answer answer_of
found_here q x c a m e =
    let here : x ≡ c = ground arith in
    (
      here,
      subst (λ y. Answers q y a) here
          (record {
            not_bot = ground arith;
            trusted = ground arith;
            parsed = ground arith;
            coded = ground (arith, same_iff (answer_of q x).1 q.code);
          }),
    )

-- What the loop does at a comment that is not the question, once the question was seen.
find_from_seen :
    (q : Question) (x : Comment) (cs : List Comment)
    → find_from q true (x ∷ cs) ≡ (
        if same x.id q.question_id
        then find_from q true cs
        else if matches q x
        then some (x, (answer_of q x).0)
        else find_from q true cs)
unfolding find_from matches
find_from_seen q x cs = ground arith

found_after :
    (q : Question) (cs : List Comment) (c : Comment) (a : Answer)
    → find_from q true cs ≡ some (c, a)
    → (before rest : List Comment) × (cs ≡ before ++ c ∷ rest) × Answers q c a
found_after q [] c a h = absurd (unfold find_from in ground arith)
found_after q (x ∷ cs) c a h = elim (Bool-cases (not (same x.id q.question_id) && matches q x)) [
  | inl here ↦
      let (e, v) = found_here q x c a (ground arith) (ground (arith, find_from_seen q x cs)) in
      ([], cs, ap (λ y. y ∷ cs) e, v)
  | inr later ↦
      let (before, rest, e, v) = found_after q cs c a (ground (arith, find_from_seen q x cs)) in
      (x ∷ before, rest, ap (◌∷◌ x) e, v)
]

pub found_from :
    (q : Question) (cs : List Comment) (c : Comment) (a : Answer)
    → find_from q false cs ≡ some (c, a)
    → (earlier between rest : List Comment) × (x : Comment) × (x.id ≡ q.question_id)
      × (cs ≡ earlier ++ x ∷ between ++ c ∷ rest)
      × Answers q c a
found_from q [] c a h = absurd (unfold find_from in ground arith)
found_from q (x ∷ cs) c a h = elim (Bool-cases (same x.id q.question_id)) [
  | inl asked ↦
      let (before, rest, e, v) = found_after q cs c a (unfold find_from in ground arith) in
      ([], before, rest, x, (same_iff x.id q.question_id).0 asked, ap (◌∷◌ x) e, v)
  | inr other ↦
      let (earlier, between, rest, y, asked, e, v) =
        found_from q cs c a (unfold find_from in ground arith) in
      (x ∷ earlier, between, rest, y, asked, ap (◌∷◌ x) e, v)
]
