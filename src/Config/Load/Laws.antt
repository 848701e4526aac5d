-- ===== src/Config/Load/Laws.antt =====
-- internal/config/config.go: what a configuration that is loaded satisfies.
use fizzy_connector.Base.{
  ℕ, ◌≡◌, refl, sym, ap, ◌∙◌, subst, Bool, false, Option, none, some, [], ◌∷◌, ◌++◌, Text, arith,
  if_rule, trim_left, trim_right, Result, ok, err,
}
use mathlib.Core.List.{reverse, reverse-append, reverse-reverse}
use fizzy_connector.Config.{Config, Problem, validate}
use fizzy_connector.Config.Laws.{IsValid, validate-IsValid}
use fizzy_connector.Config.Load.{
  Host, Loaded, unread, invalid, loaded, is_slash, trimmed, checked, placed, decoded, load,
}

-- Whether the first character of a text satisfies a test, and the last one.
abbrev pub starts : (ℕ → Bool) → Text → Bool
starts p [] = false
starts p (c ∷ s) = p c

abbrev pub ends : (ℕ → Bool) → Text → Bool
ends p s = starts p (reverse s)

trim_left-starts : (p : ℕ → Bool) (s : Text) → starts p (trim_left p s) ≡ false
unfolding trim_left
trim_left-starts p [] = refl
trim_left-starts p (c ∷ s) =
    if_rule (λ t. starts p t ≡ false) (p c) (trim_left p s) (c ∷ s) (λ e. trim_left-starts p s)
      (λ e. e)

trim_right-ends : (p : ℕ → Bool) (s : Text) → ends p (trim_right p s) ≡ false
unfolding trim_right
trim_right-ends p s =
    ap (starts p) (reverse-reverse (trim_left p (reverse s))) ∙ trim_left-starts p (reverse s)

trim_left-suffix : (p : ℕ → Bool) (s : Text) → (pre : Text) × (s ≡ pre ++ trim_left p s)
unfolding trim_left
trim_left-suffix p [] = ([], refl)
trim_left-suffix p (c ∷ s) =
    let (pre, e) = trim_left-suffix p s in
    if_rule (λ t. (pre : Text) × (c ∷ s ≡ pre ++ t)) (p c) (trim_left p s) (c ∷ s)
      (λ _. (c ∷ pre, ap (λ r. c ∷ r) e)) (λ _. ([], refl))

trim_right-prefix : (p : ℕ → Bool) (s : Text) → (post : Text) × (s ≡ trim_right p s ++ post)
unfolding trim_right
trim_right-prefix p s =
    let (pre, e) = trim_left-suffix p (reverse s) in
    (
      reverse pre,
      sym (reverse-reverse s) ∙ ap reverse e ∙ reverse-append pre (trim_left p (reverse s)),
    )

prefix-starts : (p : ℕ → Bool) (s post : Text) → starts p (s ++ post) ≡ false → starts p s ≡ false
prefix-starts p [] post h = refl
prefix-starts p (c ∷ s) post h = h

trim_right-starts :
    (p : ℕ → Bool) (s : Text) → starts p s ≡ false → starts p (trim_right p s) ≡ false
trim_right-starts p s h =
    let (post, e) = trim_right-prefix p s in
    prefix-starts p (trim_right p s) post (ap (starts p) (sym e) ∙ h)

-- What the rest of the program relies on: a valid configuration, whose URL has no slash at its end, and
-- whose account has none at both.
abbrev pub IsReady : Config → Type 0
IsReady cfg =
    IsValid cfg
    × (ends is_slash cfg.base_url ≡ false)
    × (starts is_slash cfg.account_slug ≡ false)
    × (ends is_slash cfg.account_slug ≡ false)

trimmed-ends :
    (cfg : Config) (dir : Text)
    → (ends is_slash (trimmed cfg dir).base_url ≡ false)
      × (starts is_slash (trimmed cfg dir).account_slug ≡ false)
      × (ends is_slash (trimmed cfg dir).account_slug ≡ false)
unfolding trimmed
trimmed-ends cfg dir = (
  trim_right-ends is_slash cfg.base_url,
  trim_right-starts is_slash (trim_left is_slash cfg.account_slug)
      (trim_left-starts is_slash cfg.account_slug),
  trim_right-ends is_slash (trim_left is_slash cfg.account_slug),
)

config_of : Config → Loaded → Config
config_of d (unread e) = d
config_of d (invalid p) = d
config_of d (loaded path cfg) = cfg

checked-IsReady :
    (path path' : Text) (ready cfg : Config) (problem : Option Problem)
    → (problem ≡ none → IsReady ready)
    → checked path ready problem ≡ loaded path' cfg
    → IsReady cfg
unfolding checked config_of
checked-IsReady path path' ready cfg none valid h =
    subst IsReady (ap (config_of cfg) h) (valid refl)
checked-IsReady path path' ready cfg (some problem) valid h = absurd (ground arith)

placed-IsReady :
    (h : Host) (c : Config) (r r' : Result Text) (path : Text) (cfg : Config)
    → placed h c r r' ≡ loaded path cfg
    → IsReady cfg
unfolding placed
placed-IsReady h c (err e) r' path cfg got = absurd (ground arith)
placed-IsReady h c (ok p) (err e) path cfg got = absurd (ground arith)
placed-IsReady h c (ok p) (ok dir) path cfg got =
    let ready = trimmed c dir in
    let (url, start, end) = trimmed-ends c dir in
    checked-IsReady p path ready cfg (validate (h.parse_url ready.base_url) ready)
      (λ e. (validate-IsValid (h.parse_url ready.base_url) ready e, url, start, end)) got

decoded-IsReady :
    (h : Host) (at : Text) (r : Option (Result Config)) (path : Text) (cfg : Config)
    → decoded h at r ≡ loaded path cfg
    → IsReady cfg
unfolding decoded
decoded-IsReady h at none path cfg got = absurd (ground arith)
decoded-IsReady h at (some (err e)) path cfg got = absurd (ground arith)
decoded-IsReady h at (some (ok c)) path cfg got =
    placed-IsReady h c (h.absolute at) (h.absolute c.state_dir) path cfg got

-- A configuration that is loaded, from whatever file, has a bot user that is not trusted, at least one
-- process, a turn timeout of a minute or more, a poll interval of 100 ms or more, an approval timeout from
-- ten seconds up to the turn timeout, a progress interval and a cost limit that are not negative, a log
-- retention of zero or, while twice the turn timeout is below 2^63 ns, of at least that, and an absolute directory; its URL has no slash at
-- its end, and its account has none at its start or end.
pub load-IsReady :
    (h : Host) (file path : Text) (cfg : Config) → load h file ≡ loaded path cfg → IsReady cfg
unfolding load
load-IsReady h file path cfg got = decoded-IsReady h file _ path cfg got
