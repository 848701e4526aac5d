-- ===== src/Examples/Workers.antt =====
-- Workers, rounds of the fetch loop, and a start.
use fizzy_connector.Base.{
  ℕ, ◌≡◌, ◌≤◌, ◌<◌, refl, inl, Bool, true, false, [], ◌∷◌, ◌++◌, Text, codes, arith, ◌==◌, ok, In,
}
use fizzy_connector.Store.{CardState}
use fizzy_connector.Daemon.Effects.{Sys}
use fizzy_connector.Daemon.Worker.{Crew, kick_step, Reach, here, next, first_crew, kick}
use fizzy_connector.Daemon.Worker.Counts.{total, on, is_working}
use fizzy_connector.Daemon.Worker.Invariant.{Reach-bounds}
use fizzy_connector.Daemon.Worker.Due.{Runs}
use fizzy_connector.Daemon.Worker.Progress.{works, Reach-turn}
use fizzy_connector.Daemon.Scan.{Notified}
use fizzy_connector.Daemon.Scan.Frames.{marked_ids}
use fizzy_connector.Daemon.Fetch.{Fetcher, Round, fetch_round, resume}
use fizzy_connector.Daemon.Fetch.Laws.{AreAccepted, unread_ids, fetch_round-unread_ids}
use fizzy_connector.Examples.Data.{empty_sys, scanner, sight, notification, empty_store-IsKept}

abbrev seven_works : ℕ → Bool
seven_works m = m == 7

seven-owed : (m : ℕ) → seven_works m ≡ true → In m (7 ∷ [])
seven-owed m h = inl (ground arith)

abbrev start : Crew
start = first_crew seven_works (7 ∷ [])

abbrev kicked_crew : Crew
kicked_crew = kick 7 (record start { owed = [] })

kicked_crew-Reach : Reach 1 start kicked_crew
kicked_crew-Reach = next here (kick_step 7 [] [] refl refl refl)

Reach-turn_example : (t : Crew) × Runs 1 kicked_crew t × (0 < total (works 7) t.workers)
unfolding kick
Reach-turn_example =
    Reach-turn 1 seven_works (7 ∷ []) 7 (omega arith) seven-owed kicked_crew-Reach refl refl refl
      refl

Reach-bounds_example :
    (total (on 7) kicked_crew.workers ≤ 1)
    × (total (λ w. is_working w.place) kicked_crew.workers ≤ 1)
Reach-bounds_example = Reach-bounds 1 seven_works (7 ∷ []) seven-owed kicked_crew-Reach 7

abbrev fetcher : Fetcher
fetcher = record { etag = []; sys = empty_sys }

abbrev fetch_of_one : Round
fetch_of_one = record {
  pending = [];
  sights = λ n. sight;
  answer = ok (notification ∷ [], codes "e1");
  seen = λ n. record { first = sight; second = sight; marked = ok tt };
  draining = false;
}

fetch_round_example :
    (marked_ids (fetch_round scanner fetch_of_one fetcher).sys.sent
      ≡ marked_ids empty_sys.sent ++ unread_ids (notification ∷ []))
    × AreAccepted fetch_of_one.seen (notification ∷ [])
unfolding fizzy_connector.Base.same fizzy_connector.Base.mem_text fizzy_connector.Base.trim_space
    fizzy_connector.Base.cut_prefix fizzy_connector.Base.has_prefix fizzy_connector.Base.is_space
    fizzy_connector.Base.trim_left fizzy_connector.Base.trim_right fizzy_connector.Base.trim_suffix
    fetch_round fizzy_connector.Daemon.Scan.handle_notification
    fizzy_connector.Daemon.Scan.check_card fizzy_connector.Daemon.Effects.get_card
    fizzy_connector.Store.get fizzy_connector.Daemon.Triggers.long_description_mention
    fizzy_connector.Fizzy.is_mention fizzy_connector.Config.is_trusted
    fizzy_connector.Daemon.Triggers.proves_start_of fizzy_connector.Daemon.Effects.meanwhile
    fizzy_connector.Daemon.Triggers.find_triggers
    fizzy_connector.Daemon.Triggers.description_triggers
    fizzy_connector.Daemon.Triggers.description_counts fizzy_connector.Daemon.Triggers.proves_all
    fizzy_connector.Daemon.Effects.changed fizzy_connector.Daemon.Effects.send
    fizzy_connector.Daemon.Effects.update_card fizzy_connector.Daemon.Fetch.fetch
    fizzy_connector.Daemon.Fetch.handle_all fizzy_connector.Daemon.Fetch.is_not_modified
    fizzy_connector.Daemon.Fetch.rescan_pending fizzy_connector.Daemon.Fetch.with_failure
    fizzy_connector.Daemon.Scan.acknowledge fizzy_connector.Daemon.Scan.acknowledge_all
    fizzy_connector.Daemon.Scan.after_check fizzy_connector.Daemon.Scan.announce
    fizzy_connector.Daemon.Scan.board_trust fizzy_connector.Daemon.Scan.evidence_of
    fizzy_connector.Daemon.Scan.explain_long_description fizzy_connector.Daemon.Scan.found_card
    fizzy_connector.Daemon.Scan.is_card_gone fizzy_connector.Daemon.Scan.noted
    fizzy_connector.Daemon.Scan.reaction fizzy_connector.Daemon.Scan.record_found
    fizzy_connector.Daemon.Scan.rescan fizzy_connector.Daemon.Scan.scan_again
    fizzy_connector.Daemon.Scan.scan_of fizzy_connector.Daemon.Scan.scanned
    fizzy_connector.Daemon.Scan.set_needs_scan fizzy_connector.Daemon.Scan.with_members
    fizzy_connector.Daemon.Triggers.add fizzy_connector.Daemon.Triggers.comment_item
    fizzy_connector.Daemon.Triggers.comment_triggers fizzy_connector.Daemon.Triggers.description_id
    fizzy_connector.Daemon.Triggers.description_item fizzy_connector.Daemon.Triggers.is_complete
    fizzy_connector.Daemon.Triggers.only_trusted_members
    fizzy_connector.Daemon.Triggers.record_trigger fizzy_connector.Daemon.Triggers.record_triggers
    fizzy_connector.Store.is_handled fizzy_connector.Store.new_state fizzy_connector.Store.read
    fizzy_connector.Store.update fizzy_connector.Store.write fizzy_connector.Base.contains
fetch_round_example =
    fetch_round-unread_ids scanner fetch_of_one fetcher (notification ∷ []) (codes "e1")
      empty_store-IsKept (λ n c. (refl, refl)) (λ n. ((λ c. (refl, refl)), (λ c. (refl, refl))))
      refl refl refl
