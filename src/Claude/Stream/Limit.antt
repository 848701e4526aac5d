-- ===== src/Claude/Stream/Limit.antt =====
-- internal/claude/claude.go, parseStream: the cost limit stops a turn once, and in time.
use fizzy_connector.Base.{
  ℕ, ◌+◌, ◌≤◌, ◌<◌, ◌≡◌, refl, ◌≢◌, inl, inr, max, true, false, not, ◌&&◌, Option, none, some, List,
  [], ◌∷◌, Text, codes, arith, if◌then◌else◌, same, same_iff, ltb, IsDistinct, Bool-cases,
}
use fizzy_connector.Claude.Prices.{cost, guard_price}
use fizzy_connector.Claude.Usage.{Call, calls_of, sum_usage}
use fizzy_connector.Claude.Usage.Laws.{total, ids, put_call-IsDistinct, total-guard, sum_usage_lem}
use fizzy_connector.Claude.Stream.{
  Event, Stream, start, guard_from, guard_estimate, guard_limit, on_call, on_result, on_event,
  on_line, parse_from, parse_stream, call_of,
}

guard_from-total :
    (cs : List Call) (e : ℕ)
    → guard_from cs e ≡ e + total (λ c. cost (guard_price c.model) c.tokens) cs
unfolding guard_from
guard_from-total [] e = omega arith
guard_from-total (c ∷ cs) e =
    omega (arith, guard_from-total cs (e + cost (guard_price c.model) c.tokens))

-- The guarded cost of the calls.
abbrev pub guarded : Stream → ℕ
guarded s = total (λ c. cost (guard_price c.model) c.tokens) (calls_of s.calls)

-- What holds of the variables of the loop under a limit.
pub record IsGuarded (limit : ℕ) (s : Stream) : Type 0 where
  pub distinct : IsDistinct (ids s.calls)
  pub once : s.stops ≡ (if s.limit_reached then 1 else 0)
  pub off : limit ≡ 0 → s.limit_reached ≡ false
  pub within : 0 < limit → s.limit_reached ≡ false → guarded s ≤ limit
  pub late_answer :
      s.answered_after_stop ≡ true → (s.limit_reached ≡ true) × (s.is_error ≡ false) × (s.text ≢ [])

guard_limit-IsGuarded :
    (limit : ℕ) (s : Stream) (cs : List (Text × Call))
    → IsGuarded limit s
    → IsDistinct (ids cs)
    → IsGuarded limit (guard_limit limit (record s { calls = cs }))
unfolding guard_limit guard_estimate
guard_limit-IsGuarded limit s cs v d =
    elim (Bool-cases (
      ltb 0 limit
      && not s.limit_reached
      && ltb limit (max (guard_from (calls_of cs) 0) s.result_cost))) [
        | inl over ↦ rw over (record {
          distinct = d;
          once = ground (arith, v.once);
          off = λ z. absurd (ground arith);
          within = λ p n. absurd (ground arith);
          late_answer = λ a. (refl, (v.late_answer a).1, (v.late_answer a).2);
        })
        | inr under ↦ rw under (record {
          distinct = d;
          once = v.once;
          off = v.off;
          within = λ p n. ground (arith, guard_from-total (calls_of cs) 0);
          late_answer = v.late_answer;
        })
      ]

on_result-IsGuarded :
    (limit : ℕ) (e : Event) (s : Stream) → IsGuarded limit s → IsGuarded limit (on_result e s)
unfolding on_result
on_result-IsGuarded limit e s v = record {
  distinct = v.distinct;
  once = v.once;
  off = v.off;
  within = v.within;
  late_answer = λ a. elim (Bool-cases s.limit_reached) [
    | inl reached ↦ (reached, ground arith, ground (arith, same_iff e.result []))
    | inr open_limit ↦
        let old : s.answered_after_stop ≡ true = ground arith in
        absurd (ground (arith, v.late_answer old))
  ];
}

on_event-IsGuarded :
    (limit : ℕ) (e : Event) (s : Stream) → IsGuarded limit s → IsGuarded limit (on_event limit e s)
unfolding on_event on_call
on_event-IsGuarded limit e s v =
    elim (Bool-cases (same e.event_type (codes "system") && same e.subtype (codes "init"))) [
      | inl init ↦ rw init (record {
        distinct = v.distinct;
        once = v.once;
        off = v.off;
        within = v.within;
        late_answer = v.late_answer;
      })
      | inr not_init ↦
          rw not_init
            (elim (Bool-cases (same e.event_type (codes "assistant") && not (same e.id []))) [
              | inl call ↦ rw call (
                  guard_limit-IsGuarded limit s _ v
                    (put_call-IsDistinct e.id (call_of e) s.calls v.distinct))
              | inr not_call ↦ rw not_call (elim (Bool-cases (same e.event_type (codes "result"))) [
                | inl result ↦ rw result (on_result-IsGuarded limit e s v)
                | inr other ↦ rw other v
              ])
            ])
    ]

parse_from-IsGuarded :
    (limit : ℕ) (ls : List (Option Event)) (s : Stream)
    → IsGuarded limit s
    → IsGuarded limit (parse_from limit ls s)
unfolding parse_from
parse_from-IsGuarded limit [] s v = v
parse_from-IsGuarded limit (none ∷ ls) s v =
    parse_from-IsGuarded limit ls (on_line limit none s) (unfold on_line in v)
parse_from-IsGuarded limit (some e ∷ ls) s v =
    parse_from-IsGuarded limit ls (on_line limit (some e) s)
      (unfold on_line in on_event-IsGuarded limit e s v)

start-IsGuarded : (limit : ℕ) → IsGuarded limit start
start-IsGuarded limit = record {
  distinct = tt;
  once = refl;
  off = λ z. refl;
  within = λ p n. unfold calls_of in omega arith;
  late_answer = λ a. absurd (ground arith);
}

-- In every stream each API call is kept once; the turn is stopped at most once, and never when the
-- limit is zero; under a limit that was not reached the guarded cost of the calls is within it; and
-- a late answer is counted only when the last result, after the stop, is an answer.
pub parse_stream-IsGuarded :
    (limit : ℕ) (ls : List (Option Event)) → IsGuarded limit (parse_stream limit ls)
unfolding parse_stream
parse_stream-IsGuarded limit ls = parse_from-IsGuarded limit ls start (start-IsGuarded limit)

-- A stream that is read under a limit and makes no stop: the calls that it reports cost, together, no more than
-- the limit or what Claude Code reported. (The usage of the turn may be that of its transcript instead, whose calls
-- can cost more.)
pub parse_stream_cost :
    (limit : ℕ) (ls : List (Option Event))
    → 0 < limit
    → (parse_stream limit ls).stops ≡ 0
    → let s = parse_stream limit ls in
      (sum_usage (calls_of s.calls) s.result_cost).cost_usd ≤ max s.result_cost limit
parse_stream_cost limit ls p h =
    let s = parse_stream limit ls in
    let v = parse_stream-IsGuarded limit ls in
    let open_limit : s.limit_reached ≡ false = ground (arith, v.once) in
    omega (
      arith,
      v.within p open_limit,
      (sum_usage_lem (calls_of s.calls) s.result_cost).4,
      total-guard (calls_of s.calls),
    )
