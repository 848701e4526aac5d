-- ===== src/Daemon/Watch.antt =====
-- internal/daemon/daemon.go: watchCable, listenCable and signalFetch, and the wait of fetchLoop. A
-- duration is a number of nanoseconds.
pub mod Paced
use fizzy_connector.Base.{
  ℕ, ◌+◌, ◌*◌, min, Bool, true, false, Option, none, some, List, [], ◌∷◌, ◌++◌, Text, if◌then◌else◌,
  same, Result, ok, err, Error,
}
use fizzy_connector.Config.{Config, ℤ, pos, second, minute}
use fizzy_connector.Cable.{Subscription, Net, Event, sent, ready, signal, listen}

-- The variables of watchCable: the next wait, cableConnected, and how many times signalFetch was called.
pub record Watch : Type 0 where
  pub backoff : ℕ
  pub connected : Bool
  pub signals : ℕ

-- One pass of the loop: the session token in its file, the stream that Fizzy names, and the network.
pub record Pass : Type 0 where
  pub token : Text
  pub stream : Result Text
  pub net : Net

-- signalFetch on the channel, which holds one signal at most.
unfoldable pub signal_fetch : Bool → Bool
signal_fetch holds = true

-- onReady and onSignal of listenCable.
unfoldable pub on_event : Event → Watch → Watch
on_event (sent command) w = w
on_event ready w = record w { backoff = second; connected = true; signals = w.signals + 1 }
on_event signal w = record w { signals = w.signals + 1 }

unfoldable pub on_events : List Event → Watch → Watch
unfolding on_event
on_events [] w = w
on_events (event ∷ events) w = on_events events (on_event event w)

pub subscription_of : Config → Text → Text → Subscription
subscription_of cfg token stream = record {
  base_url = cfg.base_url;
  account_slug = cfg.account_slug;
  session_token = token;
  stream_name = stream;
}

listened : List Event × Error → Watch → Watch
unfolding on_events
listened (events, e) w = on_events events w

unfoldable pub listen_cable : Config → Text → Net → Result Text → Watch → Watch
unfolding listened subscription_of
listen_cable cfg token net (err e) w = w
listen_cable cfg token net (ok stream) w =
    listened (listen net (subscription_of cfg token stream)) w

-- A pass up to its wait.
unfoldable pub connect : Config → Pass → Watch → Watch
unfolding listen_cable
connect cfg p w =
    if same p.token []
    then w
    else record (listen_cable cfg p.token p.net p.stream w) { connected = false }

waited : Watch → Watch
waited w = record w { backoff = min (w.backoff * 2) (5 * minute) }

with_wait : ℕ → List ℕ × Watch → List ℕ × Watch
with_wait n (waits, w) = (n ∷ waits, w)

-- The loop of watchCable, over the passes until the daemon stops: the waits, and the variables behind them.
unfoldable pub watch : Config → List Pass → Watch → List ℕ × Watch
unfolding connect waited with_wait
watch cfg [] w = ([], w)
watch cfg (p ∷ passes) w =
    with_wait (connect cfg p w).backoff (watch cfg passes (waited (connect cfg p w)))

unfoldable pub watch_cable : Config → List Pass → List ℕ × Watch
unfolding watch
watch_cable cfg passes =
    watch cfg passes (record { backoff = second; connected = false; signals = 0 })

-- The wait of fetchLoop when no signal comes.
unfoldable pub fetch_interval : Config → Bool → ℤ
fetch_interval cfg connected = if connected then pos (30 * second) else cfg.poll_interval
