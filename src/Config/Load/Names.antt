-- ===== src/Config/Load/Names.antt =====
-- internal/config/config.go, DataDir: the names of the data directories of different identities.
use fizzy_connector.Base.{
  ◌≡◌, ◌≢◌, ◌⊎◌, inl, inr, ℕ, Bool, true, not, ◌==◌, all, append_assoc, codes, refl, sym, ap, ◌∙◌,
  [], ◌∷◌, ◌++◌, Text, arith, length, length-append,
}
use mathlib.Core.List.{reverse, reverse-append, reverse-reverse, reverse-cons}
use fizzy_connector.Config.{Config}
use fizzy_connector.Config.DataDir.{identity}
use fizzy_connector.Config.Load.{Host, data_dir_name}

append-same_prefix : (x y a b : Text) → length x ≡ length y → x ++ a ≡ y ++ b → x ≡ y
append-same_prefix [] [] a b size h = refl
append-same_prefix [] (d ∷ y) a b size h = absurd (ground arith)
append-same_prefix (c ∷ x) [] a b size h = absurd (ground arith)
append-same_prefix (c ∷ x) (d ∷ y) a b size h =
    let rest = append-same_prefix x y a b (ground arith) (ground arith) in ground arith

reverse-length : (s : Text) → length (reverse s) ≡ length s
reverse-length [] = refl
reverse-length (c ∷ s) =
    let before = reverse-length s in
    ap length (reverse-cons c s) ∙ length-append (reverse s) (c ∷ []) ∙ omega arith

append-same_suffix : (x y a b : Text) → length a ≡ length b → x ++ a ≡ y ++ b → a ≡ b
append-same_suffix x y a b size h =
    sym (reverse-reverse a)
    ∙ ap reverse (
        append-same_prefix (reverse a) (reverse b) (reverse x) (reverse y)
          (reverse-length a ∙ size ∙ sym (reverse-length b))
          (sym (reverse-append x a) ∙ ap reverse h ∙ reverse-append y b))
    ∙ reverse-reverse b

same_name-digest :
    (h : Host) (c d : Config)
    → ((text : Text) → length (h.digest text) ≡ 12)
    → data_dir_name h c ≡ data_dir_name h d
    → h.digest (identity c) ≡ h.digest (identity d)
unfolding data_dir_name
same_name-digest h c d twelve same_name =
    append-same_suffix _ _ (h.digest (identity c)) (h.digest (identity d))
      (twelve (identity c) ∙ sym (twelve (identity d))) same_name

abbrev pub not_newline : ℕ → Bool
not_newline c = not (c == 10)

-- A text up to its first newline, and the rest.
cut_lines :
    (a b x y : Text)
    → all not_newline a ≡ true
    → all not_newline b ≡ true
    → a ++ 10 ∷ x ≡ b ++ 10 ∷ y
    → (a ≡ b) × (x ≡ y)
unfolding all
cut_lines [] [] x y ha hb h = (refl, ground arith)
cut_lines [] (d ∷ b) x y ha hb h = absurd (ground arith)
cut_lines (c ∷ a) [] x y ha hb h = absurd (ground arith)
cut_lines (c ∷ a) (d ∷ b) x y ha hb h =
    let (first, rest) = cut_lines a b x y (ground arith) (ground arith) (ground arith) in
    (ground arith, rest)

identity_lines :
    (c : Config) → identity c ≡ c.base_url ++ 10 ∷ (c.account_slug ++ 10 ∷ c.bot_user_id)
unfolding identity
identity_lines c =
    append_assoc (c.base_url ++ codes "\n" ++ c.account_slug) (codes "\n") c.bot_user_id
    ∙ append_assoc (c.base_url ++ codes "\n") c.account_slug (10 ∷ c.bot_user_id)
    ∙ append_assoc c.base_url (codes "\n") (c.account_slug ++ 10 ∷ c.bot_user_id)

same_identity :
    (c d : Config)
    → all not_newline c.base_url ≡ true
    → all not_newline d.base_url ≡ true
    → all not_newline c.account_slug ≡ true
    → all not_newline d.account_slug ≡ true
    → identity c ≡ identity d
    → (c.base_url ≡ d.base_url)
      × ((c.account_slug ≡ d.account_slug) × (c.bot_user_id ≡ d.bot_user_id))
same_identity c d url url' slug slug' h =
    let (same_url, rest) =
      cut_lines c.base_url d.base_url _ _ url url'
        (sym (identity_lines c) ∙ h ∙ identity_lines d) in
    (same_url, cut_lines c.account_slug d.account_slug c.bot_user_id d.bot_user_id slug slug' rest)

-- Two configurations differ in the server, the account or the bot, and neither server nor account has
-- a newline. Where a digest has twelve characters and the digests of these two identities do not
-- collide, the names of their data directories differ.
pub data_dir_name-identity :
    (h : Host) (c d : Config)
    → ((text : Text) → length (h.digest text) ≡ 12)
    → (h.digest (identity c) ≡ h.digest (identity d) → identity c ≡ identity d)
    → all not_newline c.base_url ≡ true
    → all not_newline d.base_url ≡ true
    → all not_newline c.account_slug ≡ true
    → all not_newline d.account_slug ≡ true
    → (c.base_url ≢ d.base_url)
      ⊎ ((c.account_slug ≢ d.account_slug) ⊎ (c.bot_user_id ≢ d.bot_user_id))
    → data_dir_name h c ≢ data_dir_name h d
data_dir_name-identity h c d twelve apart url url' slug slug' differ same_name =
    let (same_url, (same_slug, same_bot)) =
      same_identity c d url url' slug slug' (apart (same_name-digest h c d twelve same_name)) in
    elim differ [ inl ne ↦ ne same_url | inr (inl ne) ↦ ne same_slug | inr (inr ne) ↦ ne same_bot ]
