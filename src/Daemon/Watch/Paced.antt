-- ===== src/Daemon/Watch/Paced.antt =====
-- internal/daemon/daemon.go: how long watchCable waits between its passes.
use fizzy_connector.Base.{
  ℕ, suc, ◌*◌, ◌^◌, min, ◌≡◌, refl, ap, ◌∙◌, Bool, true, false, List, [], ◌∷◌, Text, arith,
  if◌then◌else◌, if_rule, same, Result, ok, err,
}
use fizzy_connector.Config.{Config, second, minute}
use fizzy_connector.Cable.{Net, Event, sent, ready, signal, listen}
use fizzy_connector.Daemon.Watch.{
  Watch, Pass, on_event, on_events, subscription_of, listen_cable, connect, waited, with_wait,
  watch, watch_cable,
}

-- A pass in which the subscription was confirmed.
has_ready : List Event → Bool
has_ready [] = false
has_ready (sent command ∷ events) = has_ready events
has_ready (ready ∷ events) = true
has_ready (signal ∷ events) = has_ready events

ready_on : Config → Text → Net → Result Text → Bool
unfolding has_ready
ready_on cfg token net (err e) = false
ready_on cfg token net (ok stream) = has_ready (listen net (subscription_of cfg token stream)).0

unfoldable pub is_connected : Config → Pass → Bool
unfolding ready_on
is_connected cfg p = if same p.token [] then false else ready_on cfg p.token p.net p.stream

-- The waits, by the number of passes since the last one with a confirmed subscription, or since the start.
unfoldable pub paced : Config → List Pass → ℕ → List ℕ
unfolding is_connected
paced cfg [] n = []
paced cfg (p ∷ passes) n =
    let k = if is_connected cfg p then 0 else n in
    min (2 ^ k * second) (5 * minute) ∷ paced cfg passes (suc k)

same_branches : (b : Bool) (n : ℕ) → (if b then n else n) ≡ n
same_branches true n = refl
same_branches false n = refl

on_events-backoff :
    (events : List Event) (w : Watch)
    → (on_events events w).backoff ≡ (if has_ready events then second else w.backoff)
unfolding on_events on_event has_ready
on_events-backoff [] w = refl
on_events-backoff (sent command ∷ events) w = on_events-backoff events w
on_events-backoff (signal ∷ events) w = on_events-backoff events _
on_events-backoff (ready ∷ events) w =
    on_events-backoff events _ ∙ same_branches (has_ready events) second

listen_cable-backoff :
    (cfg : Config) (token : Text) (net : Net) (r : Result Text) (w : Watch)
    → (listen_cable cfg token net r w).backoff
      ≡ (if ready_on cfg token net r then second else w.backoff)
unfolding listen_cable ready_on
listen_cable-backoff cfg token net (err e) w = refl
listen_cable-backoff cfg token net (ok stream) w =
    on_events-backoff (listen net (subscription_of cfg token stream)).0 w

connect-backoff :
    (cfg : Config) (p : Pass) (w : Watch)
    → (connect cfg p w).backoff ≡ (if is_connected cfg p then second else w.backoff)
unfolding connect is_connected
connect-backoff cfg p w =
    if_rule (λ (v : Watch). v.backoff ≡ (if is_connected cfg p then second else w.backoff))
      (same p.token []) w _ (λ e. rw e refl)
      (λ e. rw e (listen_cable-backoff cfg p.token p.net p.stream w))

doubled :
    (n : ℕ)
    → min (min (2 ^ n * second) (5 * minute) * 2) (5 * minute)
      ≡ min (2 ^ suc n * second) (5 * minute)
doubled n = omega arith

branch_paced :
    (b : Bool) (n x : ℕ)
    → x ≡ min (2 ^ n * second) (5 * minute)
    → (if b then second else x) ≡ min (2 ^ (if b then 0 else n) * second) (5 * minute)
branch_paced true n x h = omega arith
branch_paced false n x h = h

watch-paced :
    (cfg : Config) (passes : List Pass) (w : Watch) (n : ℕ)
    → w.backoff ≡ min (2 ^ n * second) (5 * minute)
    → (watch cfg passes w).0 ≡ paced cfg passes n
unfolding watch paced with_wait waited
watch-paced cfg [] w n h = refl
watch-paced cfg (p ∷ passes) w n h =
    let k = if is_connected cfg p then 0 else n in
    let now : (connect cfg p w).backoff ≡ min (2 ^ k * second) (5 * minute) =
      connect-backoff cfg p w ∙ branch_paced (is_connected cfg p) n w.backoff h in
    let later =
      watch-paced cfg passes (waited (connect cfg p w)) (suc k)
        (ap (λ b. min (b * 2) (5 * minute)) now ∙ doubled k) in
    ap (λ b. b ∷ (watch cfg passes (waited (connect cfg p w))).0) now
    ∙ ap (λ l. min (2 ^ k * second) (5 * minute) ∷ l) later

-- The waits of watchCable between its passes: one second behind a pass in which the subscription was
-- confirmed, and at the start; and then twice as long behind each pass without that, up to five minutes.
pub watch_cable-paced :
    (cfg : Config) (passes : List Pass) → (watch_cable cfg passes).0 ≡ paced cfg passes 0
unfolding watch_cable
watch_cable-paced cfg passes = watch-paced cfg passes _ 0 (omega arith)
