-- ===== src/Setup/Init/Laws.antt =====
-- internal/setup/setup.go: what Init writes, and what Login saves.
pub mod Ends
pub mod Logins
use fizzy_connector.Base.{
  ℕ, zero, suc, ◌-◌, ◌≤◌, ◌<◌, ◌≡◌, ◌≢◌, ◌⊎◌, inl, inr, refl, sym, ap, ◌∙◌, subst, Bool, true,
  false, not, ◌&&◌, Bool-cases, Option, none, some, Option-cases, List, [], ◌∷◌, Text, codes, arith,
  ◌==◌, if◌then◌else◌, if_rule, same, same_iff, mem_text, length, All, In, filter_by,
  In-of-filter_by, number_up_to, split_on, trim_right, trim_space, Result, ok, err, Error,
  Result-cases,
}
use fizzy_connector.Config.{Config, is_trusted}
use fizzy_connector.Fizzy.{User, Account, Identity}
use fizzy_connector.Fizzy.Requests.{Client}
use fizzy_connector.Fizzy.Client.{users_of, identity_of}
use fizzy_connector.Setup.Prompts.{
  Talk, P, answer, ask_for, ask_required, calling, giving, and_do, ◌>>=◌,
}
use fizzy_connector.Setup.Prompts.Laws.{bind-ok, ask_for-ok}
use fizzy_connector.Setup.Frames.{
  SameFiles, KeepsFiles, bind-KeepsFiles, ask_for-KeepsFiles, ask_required-KeepsFiles,
  calling-KeepsFiles, giving-KeepsFiles, create_bot_user-KeepsFiles, login_bot_user-KeepsFiles,
  token_bot_user-KeepsFiles, magic_link_login-KeepsFiles, verify_session_user-KeepsFiles,
}
use fizzy_connector.Setup.Accounts.{
  Kit, client_at, trim_slashes, nth, is_bot_account, session_client, verify_session_user, bot_email,
}
use fizzy_connector.Setup.Init.{
  start_config, or_default, is_slash, method_of, is_candidate, candidates, ids_at, trusted_ids,
  Machine, Method, new_user, existing_user, access_token, access_by, dir_checked, ask_dir,
  dir_lines, choose_dir, users_waited, several_users, choose_trusted_users, init_dialogue, written,
  saved, write_config, save_session, init, expand_home, login, with_email,
}
use fizzy_connector.Setup.Init.Chosen.{
  AreIdsOf, ids_at-AreIdsOf, split_on-nonempty, ArePeople, AreIdsOf-ArePeople, ArePeople-bot,
  ask_dir-ok, dir_lines-SameFiles,
}

module _ {S : Type 0} (kit : Kit S) (m : Machine) where
  several_users-ok :
      (users : List User) (t : Talk S) (ids : List Text)
      → (several_users kit m users t).0 ≡ ok ids
      → AreIdsOf users ids × (0 < length ids)
  unfolding several_users giving trusted_ids
  several_users-ok [] t ids h = absurd (ground arith)
  several_users-ok (u ∷ us) t ids h =
      let (line, e) = ask_for-ok kit.ended (trusted_ids (u ∷ us)) [] t ids h in
      let (are, size) = ids_at-AreIdsOf (u ∷ us) (split_on b',' line) ids e in
      (are, subst (λ n. 0 < n) (sym size) (split_on-nonempty b',' line))

  -- The users that Fizzy lists for a client in some state of it.
  abbrev pub IsListed : Client → List User → Type 0
  IsListed c users = (s : S) × ((users_waited kit m c s).0 ≡ ok users)

  choose_trusted_users-ok :
      (c : Client) (bot : Text) (t : Talk S) (ids : List Text)
      → (choose_trusted_users kit m c bot t).0 ≡ ok ids
      → (users : List User) × IsListed c users × ArePeople bot users ids × (0 < length ids)
  unfolding choose_trusted_users calling
  choose_trusted_users-ok c bot t ids h =
      let (users, listed, rest) = bind-ok _ _ t ids h in
      let (are, some_id) = several_users-ok (candidates bot users) _ ids rest in
      (users, (t.fizzy, listed), AreIdsOf-ArePeople bot users ids are, some_id)

  -- A configuration under which the bot takes orders from active people of the account alone, as Fizzy lists
  -- them to the user of the configuration, of whom there is one or more, and works in a directory that is there.
  abbrev pub IsSafe : Config → Type 0
  IsSafe cfg =
      (users : List User) × IsListed (client_at cfg.base_url cfg.account_slug cfg.token) users
      × ArePeople cfg.bot_user_id users cfg.trusted_user_ids
      × (0 < length cfg.trusted_user_ids)
      × (is_trusted cfg cfg.bot_user_id ≡ false)
      × (m.is_dir cfg.repo ≡ true)

  choose_dir-ok :
      (fallback : Text) (t : Talk S) (dir : Text)
      → (choose_dir kit m fallback t).0 ≡ ok dir
      → m.is_dir dir ≡ true
  unfolding choose_dir dir_lines
  choose_dir-ok fallback t dir h = ask_dir-ok m kit.ended fallback t.lines dir h

  settings_of : Config → Result (Config × Text) → Config
  settings_of cfg (err e) = cfg
  settings_of cfg (ok settings) = settings.0

  init_dialogue-IsSafe :
      (t : Talk S) (cfg : Config) (session : Text)
      → (init_dialogue kit m t).0 ≡ ok (cfg, session)
      → IsSafe cfg
  unfolding init_dialogue giving is_trusted settings_of
  init_dialogue-IsSafe t cfg session h =
      let start = start_config m in
      let t1 =
        (ask_required kit.ended (or_default start.base_url (codes "https://app.fizzy.do")) t).1 in
      let t2 = (ask_for kit.ended method_of (codes "1") t1).1 in
      let (url, asked, h1) = bind-ok _ _ t (cfg, session) h in
      let (method, chosen, h2) = bind-ok _ _ t1 (cfg, session) h1 in
      let (access, got, h3) = bind-ok _ _ t2 (cfg, session) h2 in
      let t3 = (access_by kit m (trim_right is_slash url) method t2).1 in
      let c = client_at (trim_right is_slash url) (trim_slashes access.account.slug) access.token in
      let (trusted, trust, h4) = bind-ok _ _ t3 (cfg, session) h3 in
      let t4 = (choose_trusted_users kit m c access.account.user.id t3).1 in
      let (repo, dir, h5) = bind-ok _ _ t4 (cfg, session) h4 in
      let (users, listed, are, some_id) =
        choose_trusted_users-ok c access.account.user.id t3 trusted trust in
      let there = choose_dir-ok start.repo t4 repo dir in
      let whole = ap (settings_of cfg) h5 in
      subst IsSafe whole
        (users, listed, are, some_id, ArePeople-bot access.account.user.id users trusted are, there)

  several_users-KeepsFiles : (users : List User) → KeepsFiles (several_users kit m users)
  unfolding several_users
  several_users-KeepsFiles [] = giving-KeepsFiles _
  several_users-KeepsFiles (u ∷ us) = ask_for-KeepsFiles _ _ _

  choose_dir-KeepsFiles : (fallback : Text) → KeepsFiles (choose_dir kit m fallback)
  unfolding choose_dir
  choose_dir-KeepsFiles fallback t = dir_lines-SameFiles t (ask_dir m kit.ended fallback t.lines)

  choose_trusted_users-KeepsFiles :
      (c : Client) (bot : Text) → KeepsFiles (choose_trusted_users kit m c bot)
  unfolding choose_trusted_users
  choose_trusted_users-KeepsFiles c bot =
      bind-KeepsFiles _ _ (calling-KeepsFiles _)
        (λ users. several_users-KeepsFiles (candidates bot users))

  access_by-KeepsFiles : (base : Text) (method : Method) → KeepsFiles (access_by kit m base method)
  unfolding access_by
  access_by-KeepsFiles base new_user = create_bot_user-KeepsFiles kit base
  access_by-KeepsFiles base existing_user = login_bot_user-KeepsFiles kit base
  access_by-KeepsFiles base access_token = token_bot_user-KeepsFiles kit base

  init_dialogue-KeepsFiles : KeepsFiles (init_dialogue kit m)
  unfolding init_dialogue
  init_dialogue-KeepsFiles = bind-KeepsFiles _ _ (ask_required-KeepsFiles _ _) (λ url.
      bind-KeepsFiles _ _ (ask_for-KeepsFiles _ _ _) (λ method.
        bind-KeepsFiles _ _ (access_by-KeepsFiles _ method) (λ access.
          bind-KeepsFiles _ _ (choose_trusted_users-KeepsFiles _ _) (λ trusted.
            bind-KeepsFiles _ _ (choose_dir-KeepsFiles (start_config m).repo)
              (λ repo. giving-KeepsFiles _)))))
