-- ===== src/Traversal/Results.antt =====
-- What a device reports of a punch: `record_punch_result` and `validate_connectivity` of
-- backend/app/services/nat.py.
use midscale.Prelude.{
  ℕ, ◌+◌, String, Bool, true, false, Option, none, some, [], ◌∷◌, find, leb, if◌then◌else◌,
}
use midscale.Prelude.Int.{ℤ, pos}
use midscale.Events.{text, num, flag, publish, nat_punch_failed, nat_connectivity_validated}
use midscale.Traversal.{NatSession, World, has_id, parties}
use midscale.Traversal.Promote.{Promotion, multiple_results_found, result, promote_endpoint}
use midscale.Traversal.Sessions.{
  Env, Outcome, raised, returned, save, connected_by, failed_by, with_failure, failures,
  fall_back_if, after_promotion, punch_succeeded,
}

-- The threshold is looked at in the dict in memory, which has both writes.
unfoldable pub punch_failed :
    Env → Option String → NatSession → World → Outcome (Option NatSession) × World
unfolding fall_back_if
punch_failed env error s w =
    let s' = failed_by env.tracks error env.now s in
    let noted : World = record (save s.id (failed_by env.tracks error env.now) w) {
      punch_failed = w.punch_failed + 1;
      events =
          publish env.event_bus
            (record {
              event_type = nat_punch_failed;
              payload = parties s (("error", text error) ∷ []);
            })
            w.events;
    } in
    (
      returned (some s'),
      fall_back_if (leb 2 (failures (with_failure error s.extra_metadata))) env s noted,
    )

unfoldable pub record_punch_result :
    Env
    → (nat_session_id : ℕ) (success : Bool) (selected_endpoint : Option String)
      (selected_port latency_ms : Option ℤ) (error : Option String)
    → World
    → Outcome (Option NatSession) × World
unfolding punch_succeeded punch_failed
record_punch_result env k success endpoint port latency error w =
    elim (find (has_id k) w.sessions) [
      | none ↦ (returned none, w)
      | some s ↦
          if success
          then punch_succeeded env endpoint port latency s w
          else punch_failed env error s w
    ]

-- The dict that `validate_connectivity` returns, without the id that it was given.
pub data Status : Type 0 where
  session_not_found connected_status failed_status : Status

pub record Validation : Type 0 where
  pub status : Status
  pub direct_path_promoted : Bool
  pub score : ℤ
  pub preferred : Bool

abbrev pub validated :
    Env
    → (endpoint : String) (port : ℤ) (reachable : Bool) (latency : Option ℤ) → NatSession
    → World
    → World
validated env endpoint port reachable latency s w = record w {
  events =
      publish env.event_bus
        (record {
          event_type = nat_connectivity_validated;
          payload = parties s (
              ("reachable", flag reachable)
              ∷ ("target_endpoint", text (some endpoint))
              ∷ ("target_port", num (some port))
              ∷ ("latency_ms", num latency)
              ∷ ("direct_path_promoted", flag reachable)
              ∷ []);
        })
        w.events;
}

-- After the promotion: the counter, the event and the answer, or what it raised.
abbrev pub reached :
    Env → String → ℤ → Option ℤ → NatSession → Promotion × World → Outcome Validation × World
reached env endpoint port latency s (multiple_results_found, w) = (raised, w)
reached env endpoint port latency s (result score preferred, w) = (
  returned (record {
    status = connected_status;
    direct_path_promoted = true;
    score = score;
    preferred = preferred;
  }),
  validated env endpoint port true latency s
      (record w { connectivity_success = w.connectivity_success + 1 }),
)

unfoldable pub validate_connectivity :
    Env
    → (nat_session_id : ℕ) (target_endpoint : String) (target_port : ℤ) (reachable : Bool)
      (latency_ms : Option ℤ)
    → World
    → Outcome Validation × World
unfolding promote_endpoint
validate_connectivity env k endpoint port reachable latency w = elim (find (has_id k) w.sessions) [
  | none ↦ (
    returned (record {
      status = session_not_found;
      direct_path_promoted = false;
      score = pos 0;
      preferred = false;
    }),
    record w { connectivity_failed = w.connectivity_failed + 1 },
  )
  | some s ↦
      if reachable
      then reached env endpoint port latency s (
          after_promotion env s w (
            promote_endpoint s.target_device_id endpoint port latency env.now
              (save k (connected_by (some endpoint) (some port) latency env.now) w)))
      else (
        returned (record {
          status = failed_status;
          direct_path_promoted = false;
          score = pos 0;
          preferred = false;
        }),
        validated env endpoint port false latency s
            (record (save k (λ t. record t { updated_at = env.now }) w) {
              connectivity_failed = w.connectivity_failed + 1;
            }),
      )
]
