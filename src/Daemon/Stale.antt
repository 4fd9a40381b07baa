-- ===== src/Daemon/Stale.antt =====
-- What a clean-up leaves: `stale_endpoint_cleanup` of backend/app/services/daemon.py.
use midscale.Prelude.{ℕ, Bool, List, [], ◌∷◌, ◌≡◌, ◌+◌, refl, arith, count}
use midscale.Endpoints.{DeviceEndpoint}
use midscale.Daemon.{is_stale, stale_endpoint_cleanup}

abbrev pub is_active : DeviceEndpoint → Bool
is_active e = e.is_active

-- A clean-up leaves no active endpoint that is older than the limit, and the number that it returns is
-- by how much the active endpoints have become fewer.
stale_endpoint_cleanup_lem :
    (age now : ℕ) (eps : List DeviceEndpoint)
    → let (cleaned, left) = stale_endpoint_cleanup age now eps in
      (count (is_stale age now) left ≡ 0) × (count is_active left + cleaned ≡ count is_active eps)
unfolding stale_endpoint_cleanup
stale_endpoint_cleanup_lem age now [] = (refl, refl)
stale_endpoint_cleanup_lem age now (e ∷ es) =
    let rest = stale_endpoint_cleanup_lem age now es in
    (ground (arith, rest.0), ground (arith, rest.1))
