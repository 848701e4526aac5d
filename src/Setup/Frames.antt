-- ===== src/Setup/Frames.antt =====
-- internal/setup/setup.go: the questions and the logins change no file.
use fizzy_connector.Base.{
  ◌≡◌, refl, ◌∙◌, Option, List, [], ◌∷◌, Text, if_rule, same, Result, ok, err, Error,
}
use fizzy_connector.Config.{Config}
use fizzy_connector.Fizzy.{Account, Identity}
use fizzy_connector.Fizzy.Requests.{Client, C}
use fizzy_connector.Setup.Prompts.{
  Talk, P, ask_for, ask_required, ask_secret, calling, giving, and_do, ◌>>=◌,
}
use fizzy_connector.Setup.Accounts.{
  Kit, magic_link_login, one_account, choose_account, create_bot_user, login_bot_user,
  token_bot_user, verify_session_user, email_found, bot_email,
}

abbrev pub SameFiles : {S : Type 0} → Talk S → Talk S → Type 0
SameFiles t u = (u.config_file ≡ t.config_file) × (u.session_file ≡ t.session_file)

abbrev pub KeepsFiles : {A S : Type 0} → P S A → Type 0
KeepsFiles {S = S} m = (t : Talk S) → SameFiles t (m t).1

and_do-SameFiles :
    {A B S : Type 0} (t : Talk S) (r : Result A × Talk S) (f : A → P S B)
    → SameFiles t r.1
    → ((a : A) → KeepsFiles (f a))
    → SameFiles t (and_do r f).1
and_do-SameFiles t (err e, u) f h hf = h
and_do-SameFiles t (ok a, u) f (c, s) hf = let (c', s') = hf a u in (c' ∙ c, s' ∙ s)

pub bind-KeepsFiles :
    {A B S : Type 0} (m : P S A) (f : A → P S B)
    → KeepsFiles m
    → ((a : A) → KeepsFiles (f a))
    → KeepsFiles (m >>= f)
unfolding ◌>>=◌
bind-KeepsFiles m f hm hf t = and_do-SameFiles t (m t) f (hm t) hf

pub ask_for-KeepsFiles :
    {A S : Type 0} (ended : Error) (accept : Text → Option A) (fallback : Text)
    → KeepsFiles {S = S} (ask_for ended accept fallback)
unfolding ask_for
ask_for-KeepsFiles ended accept fallback t = (refl, refl)

pub ask_required-KeepsFiles :
    {S : Type 0} (ended : Error) (fallback : Text)
    → KeepsFiles {S = S} (ask_required ended fallback)
unfolding ask_required
ask_required-KeepsFiles ended fallback t = ask_for-KeepsFiles ended Option.some fallback t

pub calling-KeepsFiles : {A S : Type 0} (call : C S A) → KeepsFiles (calling call)
unfolding calling
calling-KeepsFiles call t = (refl, refl)

pub giving-KeepsFiles : {A S : Type 0} (r : Result A) → KeepsFiles {S = S} (giving r)
unfolding giving
giving-KeepsFiles r t = (refl, refl)

module _ {S : Type 0} (kit : Kit S) where
  pub magic_link_login-KeepsFiles :
      (base email : Text) → KeepsFiles (magic_link_login kit base email)
  unfolding magic_link_login
  magic_link_login-KeepsFiles base email =
      bind-KeepsFiles _ _ (calling-KeepsFiles _)
        (λ link. bind-KeepsFiles _ _ (ask_required-KeepsFiles _ _) (λ code. calling-KeepsFiles _))

  one_account-KeepsFiles : (accounts : List Account) → KeepsFiles (one_account kit accounts)
  unfolding one_account
  one_account-KeepsFiles [] = giving-KeepsFiles _
  one_account-KeepsFiles (a ∷ []) = giving-KeepsFiles _
  one_account-KeepsFiles (a ∷ b ∷ accounts) = ask_for-KeepsFiles _ _ _

  choose_account-KeepsFiles : (c : Client) (slug : Text) → KeepsFiles (choose_account kit c slug)
  unfolding choose_account
  choose_account-KeepsFiles c slug = bind-KeepsFiles _ _ (calling-KeepsFiles _) (λ identity.
      if_rule KeepsFiles (same slug []) _ _ (λ e. one_account-KeepsFiles identity.accounts)
        (λ e. giving-KeepsFiles _))

  pub create_bot_user-KeepsFiles : (base : Text) → KeepsFiles (create_bot_user kit base)
  unfolding create_bot_user
  create_bot_user-KeepsFiles base = bind-KeepsFiles _ _ (ask_for-KeepsFiles _ _ _) (λ link.
      bind-KeepsFiles _ _ (ask_required-KeepsFiles _ _) (λ email.
        bind-KeepsFiles _ _ (ask_required-KeepsFiles _ _) (λ name.
          bind-KeepsFiles _ _ (calling-KeepsFiles _) (λ joined.
            bind-KeepsFiles _ _ (magic_link_login-KeepsFiles _ _) (λ session.
              bind-KeepsFiles _ _ (calling-KeepsFiles _) (λ verified.
                bind-KeepsFiles _ _ (choose_account-KeepsFiles _ _) (λ account.
                  bind-KeepsFiles _ _ (calling-KeepsFiles _) (λ renamed.
                    bind-KeepsFiles _ _ (calling-KeepsFiles _)
                      (λ token. giving-KeepsFiles _)))))))))

  pub login_bot_user-KeepsFiles : (base : Text) → KeepsFiles (login_bot_user kit base)
  unfolding login_bot_user
  login_bot_user-KeepsFiles base = bind-KeepsFiles _ _ (ask_required-KeepsFiles _ _) (λ email.
      bind-KeepsFiles _ _ (magic_link_login-KeepsFiles _ _) (λ session.
        bind-KeepsFiles _ _ (choose_account-KeepsFiles _ _)
          (λ account. bind-KeepsFiles _ _ (calling-KeepsFiles _) (λ token. giving-KeepsFiles _))))

  pub token_bot_user-KeepsFiles : (base : Text) → KeepsFiles (token_bot_user kit base)
  unfolding token_bot_user ask_secret
  token_bot_user-KeepsFiles base = bind-KeepsFiles _ _ (ask_required-KeepsFiles _ _) (λ token.
      bind-KeepsFiles _ _ (choose_account-KeepsFiles _ _) (λ account. giving-KeepsFiles _))

  pub verify_session_user-KeepsFiles :
      (cfg : Config) (session : Text) → KeepsFiles (verify_session_user kit cfg session)
  unfolding verify_session_user
  verify_session_user-KeepsFiles cfg session =
      bind-KeepsFiles _ _ (calling-KeepsFiles _) (λ identity. giving-KeepsFiles _)

  email_found-SameFiles :
      (bot : Text) (t : Talk S) (r : Result Identity × Talk S)
      → SameFiles t r.1
      → SameFiles t (email_found kit bot r).1
  unfolding email_found
  email_found-SameFiles bot t (err e, u) h = h
  email_found-SameFiles bot t (ok identity, u) h = h

  pub bot_email-SameFiles : (cfg : Config) (t : Talk S) → SameFiles t (bot_email kit cfg t).1
  unfolding bot_email
  bot_email-SameFiles cfg t = email_found-SameFiles cfg.bot_user_id t _ (calling-KeepsFiles _ t)
