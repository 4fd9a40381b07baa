-- ===== src/Scoring/Tests.antt =====
-- Runs of backend/app/services/endpoint_scoring.py.
use mathlib.Core.List.{Mem, mem-cons_self}
use midscale.Prelude.{◌≡◌, refl, true, false, none, some, [], ◌∷◌, arith}
use midscale.Prelude.Int.{pos, ◌+ℤ◌, ◌-ℤ◌, ◌≤ℤ◌}
use midscale.Endpoints.{DeviceEndpoint}
use midscale.Scoring.{compute_endpoint_score, raw_score, select_best_endpoint}
use midscale.Scoring.Bounds.{compute_endpoint_score_mono}
use midscale.Scoring.Order.{AtLeast, select_best_endpoint_lem}

fast : compute_endpoint_score true (some (pos 10)) 0 5 (pos 50) ≡ pos 109
unfolding compute_endpoint_score raw_score ◌+ℤ◌ ◌-ℤ◌
fast = refl

floor : compute_endpoint_score false (some (pos 9999)) 999 0 (pos 999) ≡ pos 0
unfolding compute_endpoint_score raw_score ◌+ℤ◌ ◌-ℤ◌
floor = refl

abbrev slow : DeviceEndpoint
slow = record {
  id = 1;
  device_id = 2;
  endpoint = "198.51.100.4";
  source = "probe";
  port = pos 51820;
  local_ip = none;
  public_ip = none;
  priority = pos 100;
  is_active = true;
  last_seen = some 3;
  latency_ms = some (pos 80);
  reachable = true;
  last_probe_at = some 3;
  failure_count = 0;
  success_count = 1;
  score = pos 94;
}

abbrev local : DeviceEndpoint
local = record slow { id = 2; latency_ms = some (pos 0) }

-- A latency of 0 ms loses against one of 80 ms.
zero_latency_last : select_best_endpoint (local ∷ slow ∷ []) ≡ some slow
unfolding select_best_endpoint
zero_latency_last = refl

compute_endpoint_score_mono_example :
    compute_endpoint_score false (some (pos 95)) 3 1 (pos 100)
    ≤ℤ compute_endpoint_score true (some (pos 20)) 2 4 (pos 10)
compute_endpoint_score_mono_example =
    compute_endpoint_score_mono false true (some (pos 95)) (some (pos 20)) 3 2 1 4 (pos 100)
      (pos 10) (λ h. refl) (omega arith) (omega arith) (omega arith) (omega arith)

select_best_endpoint_lem_example :
    (b : DeviceEndpoint) × (select_best_endpoint (local ∷ slow ∷ []) ≡ some b)
    × Mem b (local ∷ slow ∷ [])
    × AtLeast b local
select_best_endpoint_lem_example = select_best_endpoint_lem local (slow ∷ []) local mem-cons_self
