-- ===== src/Examples/Commands.antt =====
-- The mentions of a text, the websocket, the sweep of the logs and the commands on sessions.
use fizzy_connector.Base.{
  In, ◌↔◌, ℕ, ◌≡◌, ◌≢◌, ◌+◌, ◌⊎◌, inl, inr, refl, Bool, true, false, Option, some, none, List, [],
  ◌∷◌, ◌++◌, Text, codes, arith, all, Result, ok, err, failed,
}
use fizzy_connector.Config.{pos, defaults}
use fizzy_connector.Fizzy.{User, Account, Identity, Board}
use fizzy_connector.Fizzy.Base64.{decode_base64}
use fizzy_connector.Fizzy.Base64.RoundTrip.{encode_base64, decode_base64-encode_base64}
use fizzy_connector.Fizzy.Mentions.{mentions}
use fizzy_connector.Fizzy.Mentions.Laws.{IsMentionOf, mentions-IsMentionOf}
use fizzy_connector.Store.{Store, CardState, get, reset_session, new_state}
use fizzy_connector.Cli.{Shell, reset}
use fizzy_connector.Cli.Laws.{IsReset, attach-reset}
use fizzy_connector.Examples.Cards.{started_store-IsKept}
use fizzy_connector.Cable.{Net, Message, Frame, said, Wire}
use fizzy_connector.Daemon.Watch.{Pass, watch_cable}
use fizzy_connector.Daemon.Watch.Paced.{paced, watch_cable-paced}
use fizzy_connector.Daemon.Logs.{Entry, modified, sweep}
use fizzy_connector.Daemon.Logs.Laws.{Deletes, IsOldLog, old_logs, sweep-Deletes}
use fizzy_connector.Fizzy.{Comment}
use fizzy_connector.Daemon.Triggers.{Scan}
use fizzy_connector.Daemon.Triggers.Orders.{IsOrder, record_triggers-IsOrder}
use fizzy_connector.Examples.Data.{
  card, scan, call_comment, call_item, config, started_card, started_store,
}

abbrev mention_html : Text
mention_html =
    codes
      "hi <action-text-attachment sgid=\"Z2lkOi8vZi9Vc2VyLzAzZg==--0\" content-type=\"application/vnd.actiontext.mention\">"

mentions_example : IsMentionOf (λ bytes. none) (codes "03f") mention_html
unfolding mentions fizzy_connector.Base.mem_text fizzy_connector.Base.cut_prefix
    fizzy_connector.Base.same decode_base64 fizzy_connector.Base.trim_right
    fizzy_connector.Base.has_prefix
mentions_example = mentions-IsMentionOf (λ bytes. none) mention_html (codes "03f") refl

abbrev tagged : Comment
tagged = record call_comment { html = mention_html }

abbrev tag_scan : Scan
tag_scan = record scan { cfg = record config { bot_user_id = codes "03f" } }

record_triggers-IsOrder_example :
    In call_item (new_state 7).queue
    ⊎ IsOrder (λ bytes. none) tag_scan card (tagged ∷ []) none call_item
unfolding fizzy_connector.Daemon.Triggers.record_triggers
    fizzy_connector.Daemon.Triggers.find_triggers
    fizzy_connector.Daemon.Triggers.description_triggers
    fizzy_connector.Daemon.Triggers.comment_triggers fizzy_connector.Daemon.Triggers.add
    fizzy_connector.Store.is_handled fizzy_connector.Base.mem_text new_state
    fizzy_connector.Base.same mentions fizzy_connector.Base.cut_prefix decode_base64
    fizzy_connector.Base.trim_right fizzy_connector.Base.has_prefix
    fizzy_connector.Config.is_trusted fizzy_connector.Daemon.Triggers.comment_item
record_triggers-IsOrder_example =
    record_triggers-IsOrder (λ bytes. none) tag_scan (new_state 7) card (tagged ∷ []) none call_item
      (inl refl)

decode_base64_example :
    (decode_base64 (encode_base64 b'+' b'/' (255 ∷ []) ++ codes "==") ≡ some (255 ∷ []))
    × (decode_base64 (encode_base64 b'-' b'_' (255 ∷ []) ++ codes "==") ≡ some (255 ∷ []))
unfolding all fizzy_connector.Fizzy.Base64.is_padding
decode_base64_example = decode_base64-encode_base64 (255 ∷ []) (codes "==") (omega arith, tt) refl

abbrev offline : Net
offline = record {
  parse_url = λ text. none;
  json_object = λ fields. [];
  dial = λ url headers. err (failed []);
}

abbrev online : Net
online = record {
  parse_url =
      λ text. some (record { scheme = codes "http"; host = codes "x"; path = []; others = [] });
  json_object = λ fields. [];
  dial = λ url headers. ok (record {
    frames =
        said (record { kind = codes "confirm_subscription"; body = []; reason = [] }) (ok tt) ∷ [];
    broken = failed [];
  });
}

abbrev passes : List Pass
passes =
    record { token = codes "s"; stream = ok (codes "n"); net = offline }
    ∷ (record { token = codes "s"; stream = ok (codes "n"); net = offline }
        ∷ (record { token = codes "s"; stream = ok (codes "n"); net = online } ∷ []))

watch_cable_example : (watch_cable config passes).0 ≡ paced config passes 0
watch_cable_example = watch_cable-paced config passes

watch_cable_waits :
    (watch_cable config passes).0 ≡ 1_000_000_000 ∷ (2_000_000_000 ∷ (1_000_000_000 ∷ []))
unfolding watch_cable fizzy_connector.Base.same fizzy_connector.Cable.listen
watch_cable_waits = refl

abbrev shell : Shell
shell = record {
  executable = ok (codes "/bin/f");
  config_path = codes "/c";
  mcp_json = λ command args. [];
  look_path = λ name. ok name;
  change_dir = λ dir. ok tt;
}

attach-reset_example :
    IsReset shell config
      (codes "new")
      (codes "7")
      started_store
      (reset_session (codes "new") started_card)
unfolding reset fizzy_connector.Base.atoi_signed all fizzy_connector.Store.update
attach-reset_example =
    attach-reset shell config (codes "new") (codes "7") started_store
      (reset_session (codes "new") started_card) started_store-IsKept refl

abbrev logs : List Entry
logs =
    record { name = codes "card-7.log"; found = modified 10; removal = ok tt }
    ∷ (record { name = codes "card-07.log"; found = modified 10; removal = ok tt }
        ∷ (record { name = codes "card-8.log"; found = modified 95; removal = ok tt } ∷ []))

sweep_example :
    (((pos 20 ≡ pos 0) × (sweep (pos 20) 100 (some (ok logs)) ≡ ([], ok 0)))
      ⊎ ((pos 20 ≢ pos 0)
          × Deletes (sweep (pos 20) 100 (some (ok logs))) (old_logs (pos 20) 100 logs)))
    × (In (codes "card-7.log") (old_logs (pos 20) 100 logs)
        ↔ IsOldLog (pos 20) 100 logs (codes "card-7.log"))
sweep_example = sweep-Deletes (pos 20) 100 logs (codes "card-7.log")

sweep_old : sweep (pos 20) 100 (some (ok logs)) ≡ (codes "card-7.log" ∷ [], ok 1)
unfolding sweep fizzy_connector.Base.cut_prefix fizzy_connector.Base.atoi_signed
    fizzy_connector.Base.trim_suffix all fizzy_connector.Base.same fizzy_connector.Base.decimal
sweep_old = refl
