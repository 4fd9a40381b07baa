-- ===== src/Api/Deletion.antt =====
-- What a deletion takes and leaves: `delete_route` of backend/app/api/v1/routes.py.
use midscale.Prelude.{ℕ, ◌≡◌, keep, count}
use midscale.Prelude.Int.{pos, ◌-ℤ◌}
use midscale.Api.Routes.{World, has_route_id}

-- What is left of the routes, and the counter of routes.
abbrev Without : (k j : ℕ) → World → World → Type 0
Without k j w w' =
    (count (has_route_id k) w'.db.routes ≡ 0)
    × (keep (has_route_id j) w'.db.routes ≡ keep (has_route_id j) w.db.routes)
    × (w'.routes_total ≡ w.routes_total -ℤ pos 1)
