-- ===== src/Api/Approval.antt =====
-- Who approves routes: backend/app/api/v1/routes.py.
use midscale.Prelude.{
  ℕ, String, Bool, true, false, not, Option, none, some, [], ◌∷◌, ◌+◌, ◌≡◌, ◌≤◌, refl, ap, ◌∙◌,
  arith, keep, find, count, if◌then◌else◌, count-append, count-update_first,
  count-update_first_same, count-keep_le,
}
use mathlib.Core.Path.{subst}
use midscale.Scoring.{first}
use midscale.Api.{
  User, Network, AdvertisedRoute, Reply, ok, error, crash, require, found, one_or_none, device_of,
  owns, network_of, require_network_owner, settle,
}
use midscale.Api.Prefix.{IpNetworks, check_safe_prefix}
use midscale.Api.Routes.{
  World, log, has_route_id, route_of, is_empty, overlaps_with_existing, insert_route, advertise,
  is_mine, advertise_route, device_advertise_route, approve_route, update_route, delete_route,
  select_exit_node, after_dec, or_keep, is_own_device, check_exit, is_default_route,
}
use midscale.Api.Replies.{bind-answers, found-ok, require-ok, ok_inj}
use midscale.Api.RouteRequests.{
  Request, advertised, device_advertised, approved, updated, deleted, selected, handle,
}
use midscale.Api.RouteTable.{respond-routes}

abbrev pub is_approved : AdvertisedRoute → Bool
is_approved r = r.approved

abbrev pub approvals : World → ℕ
approvals w = count is_approved w.db.routes

abbrev pub owner_in : User → Option Network → Bool
owner_in u none = false
owner_in u (some n) = owns u n

abbrev pub owner_of : User → Option AdvertisedRoute → World → Bool
owner_of u none w = false
owner_of u (some r) w = owner_in u (network_of r.network_id w.db)

-- A request to approve, by a superuser or the owner of the route's network.
abbrev pub may_approve : Request → World → Bool
may_approve (approved k true b u) w = owner_of u (route_of k w) w
may_approve _ w = false

pub owner-ok :
    (k : ℕ) (u : User) (w : World) (n : Network)
    → require_network_owner k u w.db ≡ ok n
    → owner_in u (network_of k w.db) ≡ true
unfolding require_network_owner
owner-ok k u w n h =
    let (m, e, h1) = bind-answers (found (network_of k w.db) 404) _ h in
    let (_, o, _) = bind-answers (require (owns u m) 403) _ h1 in
    ap (owner_in u) (found-ok _ 404 m e) ∙ require-ok (owns u m) 403 o

module _ (lib : IpNetworks) (debug has_dec takes_none : Bool) where
  abbrev Bounded : World → World → ℕ → Type 0
  Bounded w w' n = approvals w' ≤ approvals w + n

  advertise-approvals :
      (i d n : ℕ) (p : String) (e : Bool) (w w' : World)
      → advertise lib debug i d n p e w ≡ ok w'
      → Bounded w w' 0
  unfolding advertise insert_route
  advertise-approvals i d n p e w w' h =
      let (_, _, h1) = bind-answers (check_safe_prefix lib debug p e) _ h in
      let (_, _, h2) = bind-answers (require (is_empty (overlaps_with_existing n p w)) 409) _ h1 in
      subst (λ w''. Bounded w w'' 0) (ok_inj _ w' h2)
        (omega (
          arith,
          count-append is_approved w.db.routes (
              record {
                id = i;
                device_id = d;
                network_id = n;
                prefix = p;
                enabled = false;
                approved = false;
                is_exit_node = e;
              }
              ∷ []),
        ))

  approve-approvals :
      (k : ℕ) (a b : Bool) (u : User) (w w' : World)
      → approve_route k a b u w ≡ ok w'
      → Bounded w w' (if may_approve (approved k a b u) w then 1 else 0)
  unfolding approve_route
  approve-approvals k a b u w w' h =
      let f : AdvertisedRoute → AdvertisedRoute = λ r. record r { approved = a; enabled = b } in
      let (r, e, h1) = bind-answers (found (route_of k w) 404) _ h in
      let (n, o, h2) = bind-answers (require_network_owner r.network_id u w.db) _ h1 in
      let is_owner : owner_of u (route_of k w) w ≡ true =
        ap (λ r. owner_of u r w) (found-ok _ 404 r e) ∙ owner-ok r.network_id u w n o in
      subst (λ w''. Bounded w w'' (if may_approve (approved k a b u) w then 1 else 0))
        (ok_inj _ w' h2)
        (ground (
          arith,
          is_owner,
          count-update_first is_approved (has_route_id k) f w.db.routes r (found-ok _ 404 r e),
        ))

  after_dec-approvals :
      (k : ℕ) (r : AdvertisedRoute) (w w' : World) (b : Bool)
      → after_dec b k r w ≡ ok w'
      → Bounded w w' 0
  after_dec-approvals k r w w' false h = cc
  after_dec-approvals k r w w' true h =
      subst (λ w''. Bounded w w'' 0) (ok_inj _ w' h)
        (omega (arith, count-keep_le is_approved (λ s. not (has_route_id k s)) w.db.routes))

  settled :
      (w : World) (m : Reply World) (n : ℕ)
      → ((w' : World) → m ≡ ok w' → Bounded w w' n)
      → Bounded w (settle w m) n
  settled w (ok w') n h = h w' refl
  settled w (error k) n h = omega arith
  settled w crash n h = omega arith

  handle-approvals :
      (r : Request) (w w' : World)
      → handle lib debug has_dec takes_none r w ≡ ok w'
      → Bounded w w' (if may_approve r w then 1 else 0)
  unfolding handle advertise_route device_advertise_route update_route delete_route select_exit_node
  handle-approvals (advertised i n p e u) w w' h =
      let (_, _, h1) = bind-answers (require_network_owner n u w.db) _ h in
      let (d, _, h2) = bind-answers (found (first (keep (is_mine u n) w.db.devices)) 400) _ h1 in
      let (w1, adv, h3) = bind-answers (advertise lib debug i d.id n p e w) _ h2 in
      subst (λ w''. Bounded w w'' 0) (ok_inj _ w' h3) (advertise-approvals i d.id n p e w w1 adv)
  handle-approvals (device_advertised i k p e) w w' h =
      let (d, _, h1) = bind-answers (found (device_of k w.db) 404) _ h in
      let (_, _, h2) = bind-answers (require d.is_active 404) _ h1 in
      advertise-approvals i k d.network_id p e w w' h2
  handle-approvals (approved k a b u) w w' h = approve-approvals k a b u w w' h
  handle-approvals (updated k b u) w w' h =
      let (r, _, h1) = bind-answers (found (route_of k w) 404) _ h in
      let (n, _, h2) = bind-answers (require_network_owner r.network_id u w.db) _ h1 in
      subst (λ w''. Bounded w w'' 0) (ok_inj _ w' h2)
        (omega (
          arith,
          count-update_first_same is_approved (has_route_id k)
              (λ r. record r { enabled = or_keep b r.enabled }) w.db.routes (λ r. refl),
        ))
  handle-approvals (deleted k u) w w' h =
      let (r, _, h1) = bind-answers (found (route_of k w) 404) _ h in
      let (n, _, h2) = bind-answers (require_network_owner r.network_id u w.db) _ h1 in
      after_dec-approvals k r (log "route.delete" k w) w' has_dec h2
  handle-approvals (selected k x u) w w' h =
      let (d, _, h1) = bind-answers (found (find (is_own_device k u) w.db.devices) 404) _ h in
      let (_, _, h2) = bind-answers (check_exit x d.network_id w) _ h1 in
      let (o, _, h3) = bind-answers (one_or_none (keep (is_default_route k) w.db.routes)) _ h2 in
      subst (λ w''. Bounded w w'' 0) (respond-routes o _ w' takes_none h3) (omega arith)

  -- Only the owner of a route's network, or a superuser, approves it: a request raises the number of
  -- approved routes by one at most, and only if it is such a user's request to approve a route.
  pub settle-approvals :
      (r : Request) (w : World)
      → approvals (settle w (handle lib debug has_dec takes_none r w))
        ≤ approvals w + (if may_approve r w then 1 else 0)
  settle-approvals r w =
      settled w (handle lib debug has_dec takes_none r w) _ (λ w' h. handle-approvals r w w' h)
