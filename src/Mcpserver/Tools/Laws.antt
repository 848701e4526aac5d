-- ===== src/Mcpserver/Tools/Laws.antt =====
-- internal/mcpserver/server.go and approve.go, over the daemon that serves their requests
-- (internal/ipc/ipc.go, internal/daemon/daemon.go).
use fizzy_connector.Base.{
  ℕ, ◌≡◌, refl, inl, inr, true, false, Bool-cases, Option, none, some, Option-cases, Text, [],
  arith, same, same_refl, trim_space, ok, Error, Result-cases,
}
use fizzy_connector.Config.{Config}
use fizzy_connector.Fizzy.{Libs}
use fizzy_connector.Fizzy.Requests.{Client}
use fizzy_connector.Ipc.{Op, Request, Response, Exchange, not_read, answered, send_and_wait}
use fizzy_connector.Daemon.Turns.{Turn, note_comment}
use fizzy_connector.Daemon.Messages.{Desk, Office, handle_ipc, handle_op}
use fizzy_connector.Daemon.Approvals.Subject.{Subject, subject}
use fizzy_connector.Daemon.Approvals.Requests.{request_approval, entered}
use fizzy_connector.Daemon.Approvals.Requests.Grants.{Reason, request_approval_approved}
use fizzy_connector.Mcpserver.Results.{Api, comment_posted, done, checked, and_then}
use fizzy_connector.Mcpserver.Tools.{allow, permission, request, told, reply, approve}

-- What the tools and the daemon share: Fizzy, and the turns that run.
pub record World (F : Type 0) : Type 0 where
  pub fizzy : F
  pub office : Office

exchange_of : Option Response → Exchange
exchange_of none = not_read
exchange_of (some r) = answered r

answered_with : {F : Type 0} → F → Option Response × Office → Exchange × World F
unfolding exchange_of
answered_with f (r, o) = (exchange_of r, record { fizzy = f; office = o })

-- A connection to the daemon: `handleIPC` answers the request, or the wait for it ends.
unfoldable pub served : {F : Type 0} → Desk → Request → World F → Exchange × World F
unfolding answered_with
served d r w = answered_with w.fizzy (handle_ipc d r w.office)

permission_allow :
    {I : Type 0} (describe : Error → Text) (i j : I) (x : Exchange)
    → permission describe i (send_and_wait x) ≡ allow j
    → (i ≡ j) × ((r : Response) × (x ≡ answered r) × (r.approved ≡ true))
unfolding permission send_and_wait
permission_allow describe i j Exchange.not_dialed h = absurd (ground arith)
permission_allow describe i j Exchange.not_written h = absurd (ground arith)
permission_allow describe i j not_read h = absurd (ground arith)
permission_allow describe i j (answered r) h = (ground arith, (r, refl, ground arith))

exchange_of-answered :
    (o : Option Response) (r : Response) → exchange_of o ≡ answered r → o ≡ some r
unfolding exchange_of
exchange_of-answered none r h = ground arith
exchange_of-answered (some x) r h = ground arith

handle_ipc-approved :
    (d : Desk) (q : Request) (o : Office) (r : Response)
    → q.op ≡ Op.approve
    → (handle_ipc d q o).0 ≡ some r
    → r.approved ≡ true
    → (t : Turn) × (o.turns q.token ≡ some t)
      × (request_approval d.question (d.subject_of q) d.wait d.asking ≡ some r)
unfolding handle_ipc handle_op
handle_ipc-approved d q o r is_approve h y = elim (Option-cases (o.turns q.token)) [
  | inl e ↦ absurd (ground arith)
  | inr (t, e) ↦ (t, e, ground arith)
]

-- A turn after its reply at a time: it has replied, its last comment is of that time, and the rest of it is
-- that of the turn before.
abbrev pub HasReplied : ℕ → Turn → Turn → Type 0
HasReplied now t u =
    (u.replied ≡ true)
    × (u.last_comment_at ≡ now)
    × (t ≡ record u { replied = t.replied; last_comment_at = t.last_comment_at })

note_comment-HasReplied :
    (now : ℕ) (t : Turn) → t.alive ≡ true → HasReplied now t (note_comment now true t)
unfolding note_comment
note_comment-HasReplied now t alive = rw alive (ground arith, refl, refl)

module _ {F : Type 0} (api : Api (World F)) (d : Desk) (libs : Libs) (config : Config) (c : Client)
    (card : ℕ) (token : Text) where
  -- Claude Code is told to allow an action only with its input unchanged, for a turn that runs, and
  -- when the permission request is well formed, the gate of the card was entered, and either the same
  -- command was permitted for good on this card and the turn is alive, or the question was posted and
  -- a round of the wait granted it.
  pub approve_allow :
      {I : Type 0} (describe : Error → Text) (encode : I → Text) (tool_name : Text) (i j : I)
      (w : World F)
      → (approve api (served d) libs config c card token describe encode tool_name i w).0 ≡ allow j
      → (i ≡ j)
        × ((t : Turn) × (w.office.turns token ≡ some t))
        × ((s : Subject) × (d.subject_of
                (record (request Op.approve token) { tool_name = tool_name; tool_input = encode i })
              ≡ subject s)
            × (d.asking.gate ≡ entered)
            × Reason d.question s d.wait d.asking)
  unfolding approve served request
  approve_allow describe encode tool_name i j w h =
      let q = record (request Op.approve token) { tool_name = tool_name; tool_input = encode i } in
      let (i_j, (r, ans, granted)) =
        permission_allow describe i j (exchange_of (handle_ipc d q w.office).0) h in
      let (t, running, asked) =
        handle_ipc-approved d q w.office r refl
          (exchange_of-answered (handle_ipc d q w.office).0 r ans) granted in
      let (s, well, gate, reason) =
        request_approval_approved d.question (d.subject_of q) d.wait d.asking r asked granted in
      (i_j, (t, running), (s, well, gate, reason))

  -- An answer on a card that is confirmed was posted there, by a request that Fizzy took, and the
  -- daemon knows of it: when a daemon serves the tool, and the turn of its token is there and alive after
  -- the post, this turn then has replied, and its last comment is of now; nothing else of it and no other
  -- turn differs.
  pub reply_confirmed :
      (markdown : Text) (w : World F) (t : Turn)
      → same token [] ≡ false
      → (reply api (served d) libs config c card token markdown w).0 ≡ done (comment_posted card)
      → let posted = api.comment card (libs.markdown_to_html markdown) w in
        let after = (reply api (served d) libs config c card token markdown w).1 in
        posted.1.office.turns token ≡ some t
        → t.alive ≡ true
        → ((id : Text) × (posted.0 ≡ ok id))
          × ((u : Turn) × (after.office.turns token ≡ some u) × HasReplied d.now t u)
          × ((other : Text)
              → same other token ≡ false
              → after.office.turns other ≡ posted.1.office.turns other)
  unfolding reply told and_then checked served request handle_ipc handle_op
  reply_confirmed markdown w t has_token h running alive =
      elim (Bool-cases (same (trim_space markdown) [])) [
        | inl e ↦ absurd (ground arith)
        | inr e ↦ elim (Result-cases (api.comment card (libs.markdown_to_html markdown) w).0) [
          | inl (x, failed) ↦ absurd (ground arith)
          | inr (id, posted) ↦
              rw (e, posted, has_token, running)
                (
                  (id, refl),
                  (
                    note_comment d.now true t,
                    rw (same_refl token) refl,
                    note_comment-HasReplied d.now t alive,
                  ),
                  (λ other differs. rw differs refl),
                )
        ]
      ]
