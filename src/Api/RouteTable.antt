-- ===== src/Api/RouteTable.antt =====
-- What any requests leave of the table of routes: backend/app/api/v1/routes.py.
use mathlib.Core.Path.{subst}
use midscale.Prelude.{
  ℕ, String, Bool, true, false, not, Option, none, some, List, [], ◌∷◌, ◌++◌, ◌≡◌, ◌≤◌, refl, ap,
  ◌∙◌, inl, inr, arith, keep, find, all, count, update_first, eq_iff, ==_iff, Bool-cases,
  count-append, count-update_first_same, all-append, all-update_first_same, count-keep_le, all-keep,
  keep_none-count,
}
use midscale.Scoring.{first}
use midscale.Api.{
  User, AdvertisedRoute, settle, Reply, ok, error, crash, require, found, one_or_none, device_of,
  require_network_owner,
}
use midscale.Api.Replies.{bind-answers, require-ok, ok_inj}
use midscale.Api.Prefix.{IpNetworks, check_safe_prefix}
use midscale.Api.Routes.{
  World, has_prefix, has_route_id, route_of, is_empty, insert_route, overlaps_with_existing,
  advertise, advertise_route, device_advertise_route, approve_route, update_route, delete_route,
  select_exit_node, or_keep, is_mine, log, after_dec, respond, is_own_device, check_exit,
  is_default_route,
}
use midscale.Api.RouteRequests.{
  Request, advertised, device_advertised, approved, updated, deleted, selected, accepted, handle,
  run,
}

pub respond-routes :
    (o : Option AdvertisedRoute) (w w' : World) (b : Bool) → respond b o w ≡ ok w' → w ≡ w'
respond-routes none w w' false h = cc
respond-routes none w w' true h = cc
respond-routes (some r) w w' b h = cc

module _ (lib : IpNetworks) (debug has_dec takes_none : Bool) where
  abbrev pub is_safe : AdvertisedRoute → Bool
  is_safe r = accepted (check_safe_prefix lib debug r.prefix r.is_exit_node)

  -- Each route's prefix has passed the check, and no two routes of a network have the same prefix.
  abbrev pub IsTidy : List AdvertisedRoute → Type 0
  IsTidy routes =
      (all is_safe routes ≡ true)
      × ((network : ℕ) (prefix : String) → count (has_prefix network prefix) routes ≤ 1)

  -- A route that is safe and whose prefix its network does not have yet joins a tidy table.
  append-IsTidy :
      (routes : List AdvertisedRoute) (r : AdvertisedRoute)
      → is_safe r ≡ true
      → count (has_prefix r.network_id r.prefix) routes ≡ 0
      → IsTidy routes
      → IsTidy (routes ++ r ∷ [])
  append-IsTidy routes r safe free t = (
    ground (arith, all-append is_safe routes (r ∷ []), safe, t.0),
    λ n p. elim (Bool-cases (has_prefix n p r)) [
      | inl e ↦
          let same_n : r.network_id ≡ n = (==_iff r.network_id n).0 (ground (arith, e)) in
          let same_p : r.prefix ≡ p = (eq_iff r.prefix p).0 (ground (arith, e)) in
          let none_yet : count (has_prefix n p) routes ≡ 0 =
            subst (λ m. count (has_prefix m p) routes ≡ 0) same_n
              (subst (λ q. count (has_prefix r.network_id q) routes ≡ 0) same_p free) in
          ground (arith, count-append (has_prefix n p) routes (r ∷ []), none_yet, e)
      | inr e ↦ ground (arith, count-append (has_prefix n p) routes (r ∷ []), t.1 n p, e)
    ],
  )

  -- A change of other columns keeps a table tidy.
  update-IsTidy :
      (q : AdvertisedRoute → Bool) (f : AdvertisedRoute → AdvertisedRoute)
      (routes : List AdvertisedRoute)
      → ((r : AdvertisedRoute) → is_safe (f r) ≡ is_safe r)
      → ((n : ℕ) (p : String) (r : AdvertisedRoute) → has_prefix n p (f r) ≡ has_prefix n p r)
      → IsTidy routes
      → IsTidy (update_first q f routes)
  update-IsTidy q f routes safe same t = (
    all-update_first_same is_safe q f routes safe ∙ t.0,
    λ n p. ground (arith, count-update_first_same (has_prefix n p) q f routes (same n p), t.1 n p),
  )

  accepted-ok : (m : Reply (Unit {0})) {u : Unit {0}} → m ≡ ok u → accepted m ≡ true
  accepted-ok m h = ap accepted h

  empty-nil : (xs : List AdvertisedRoute) → is_empty xs ≡ true → xs ≡ []
  empty-nil [] h = refl
  empty-nil (x ∷ xs) h = cc

  advertise-IsTidy :
      (i d n : ℕ) (p : String) (e : Bool) (w w' : World)
      → advertise lib debug i d n p e w ≡ ok w'
      → IsTidy w.db.routes
      → IsTidy w'.db.routes
  unfolding advertise overlaps_with_existing insert_route
  advertise-IsTidy i d n p e w w' h t =
      let (u, safe, rest) = bind-answers (check_safe_prefix lib debug p e) _ h in
      let (v, free, same) =
        bind-answers (require (is_empty (overlaps_with_existing n p w)) 409) _ rest in
      let nil = empty-nil (keep (has_prefix n p) w.db.routes) (require-ok _ 409 free) in
      subst (λ w''. IsTidy w''.db.routes) (ok_inj _ w' same)
        (append-IsTidy w.db.routes _ (accepted-ok _ safe)
          (keep_none-count (has_prefix n p) w.db.routes nil) t)

  advertise_route-IsTidy :
      (i n : ℕ) (p : String) (e : Bool) (u : User) (w w' : World)
      → advertise_route lib debug i n p e u w ≡ ok w'
      → IsTidy w.db.routes
      → IsTidy w'.db.routes
  unfolding advertise_route
  advertise_route-IsTidy i n p e u w w' h t =
      let (net, _, h1) = bind-answers (require_network_owner n u w.db) _ h in
      let (d, _, h2) = bind-answers (found (first (keep (is_mine u n) w.db.devices)) 400) _ h1 in
      let (w1, adv, h3) = bind-answers (advertise lib debug i d.id n p e w) _ h2 in
      subst (λ w''. IsTidy w''.db.routes) (ok_inj _ w' h3)
        (advertise-IsTidy i d.id n p e w w1 adv t)

  device_advertise_route-IsTidy :
      (i k : ℕ) (p : String) (e : Bool) (w w' : World)
      → device_advertise_route lib debug i k p e w ≡ ok w'
      → IsTidy w.db.routes
      → IsTidy w'.db.routes
  unfolding device_advertise_route
  device_advertise_route-IsTidy i k p e w w' h t =
      let (d, _, h1) = bind-answers (found (device_of k w.db) 404) _ h in
      let (_, _, h2) = bind-answers (require d.is_active 404) _ h1 in
      advertise-IsTidy i k d.network_id p e w w' h2 t

  approve_route-IsTidy :
      (k : ℕ) (a b : Bool) (u : User) (w w' : World)
      → approve_route k a b u w ≡ ok w'
      → IsTidy w.db.routes
      → IsTidy w'.db.routes
  unfolding approve_route
  approve_route-IsTidy k a b u w w' h t =
      let (r, _, h1) = bind-answers (found (route_of k w) 404) _ h in
      let (n, _, h2) = bind-answers (require_network_owner r.network_id u w.db) _ h1 in
      subst (λ w''. IsTidy w''.db.routes) (ok_inj _ w' h2)
        (update-IsTidy (has_route_id k) (λ r. record r { approved = a; enabled = b }) w.db.routes
          (λ r. refl) (λ n p r. refl) t)

  update_route-IsTidy :
      (k : ℕ) (b : Option Bool) (u : User) (w w' : World)
      → update_route k b u w ≡ ok w'
      → IsTidy w.db.routes
      → IsTidy w'.db.routes
  unfolding update_route
  update_route-IsTidy k b u w w' h t =
      let (r, _, h1) = bind-answers (found (route_of k w) 404) _ h in
      let (n, _, h2) = bind-answers (require_network_owner r.network_id u w.db) _ h1 in
      subst (λ w''. IsTidy w''.db.routes) (ok_inj _ w' h2)
        (update-IsTidy (has_route_id k) (λ r. record r { enabled = or_keep b r.enabled })
          w.db.routes (λ r. refl) (λ n p r. refl) t)

  after_dec-IsTidy :
      (k : ℕ) (r : AdvertisedRoute) (w w' : World) (b : Bool)
      → after_dec b k r w ≡ ok w'
      → IsTidy w.db.routes
      → IsTidy w'.db.routes
  after_dec-IsTidy k r w w' false h t = cc
  after_dec-IsTidy k r w w' true h t =
      let p : AdvertisedRoute → Bool = λ s. not (has_route_id k s) in
      subst (λ w''. IsTidy w''.db.routes) (ok_inj _ w' h)
        (
          all-keep is_safe p w.db.routes t.0,
          λ n q. omega (arith, count-keep_le (has_prefix n q) p w.db.routes, t.1 n q),
        )

  delete_route-IsTidy :
      (k : ℕ) (u : User) (w w' : World)
      → delete_route has_dec k u w ≡ ok w'
      → IsTidy w.db.routes
      → IsTidy w'.db.routes
  unfolding delete_route
  delete_route-IsTidy k u w w' h t =
      let (r, _, h1) = bind-answers (found (route_of k w) 404) _ h in
      let (n, _, h2) = bind-answers (require_network_owner r.network_id u w.db) _ h1 in
      after_dec-IsTidy k r (log "route.delete" k w) w' has_dec h2 t

  select_exit_node-IsTidy :
      (k : ℕ) (x : Option ℕ) (u : User) (w w' : World)
      → select_exit_node takes_none k x u w ≡ ok w'
      → IsTidy w.db.routes
      → IsTidy w'.db.routes
  unfolding select_exit_node
  select_exit_node-IsTidy k x u w w' h t =
      let (d, _, h1) = bind-answers (found (find (is_own_device k u) w.db.devices) 404) _ h in
      let (_, _, h2) = bind-answers (check_exit x d.network_id w) _ h1 in
      let (o, _, h3) = bind-answers (one_or_none (keep (is_default_route k) w.db.routes)) _ h2 in
      subst (λ w''. IsTidy w''.db.routes) (respond-routes o _ w' takes_none h3) t

  handle-IsTidy :
      (r : Request) (w w' : World)
      → handle lib debug has_dec takes_none r w ≡ ok w'
      → IsTidy w.db.routes
      → IsTidy w'.db.routes
  unfolding handle
  handle-IsTidy (advertised i n p e u) w w' = advertise_route-IsTidy i n p e u w w'
  handle-IsTidy (device_advertised i d p e) w w' = device_advertise_route-IsTidy i d p e w w'
  handle-IsTidy (approved r a e u) w w' = approve_route-IsTidy r a e u w w'
  handle-IsTidy (updated r e u) w w' = update_route-IsTidy r e u w w'
  handle-IsTidy (deleted r u) w w' = delete_route-IsTidy r u w w'
  handle-IsTidy (selected d x u) w w' = select_exit_node-IsTidy d x u w w'

  settle-IsTidy :
      (w : World) (m : Reply World)
      → ((w' : World) → m ≡ ok w' → IsTidy w'.db.routes)
      → IsTidy w.db.routes
      → IsTidy (settle w m).db.routes
  settle-IsTidy w (ok w') h t = h w' refl
  settle-IsTidy w (error n) h t = t
  settle-IsTidy w crash h t = t

  -- Over any requests of users and devices to a table where each route's prefix has passed
  -- `check_safe_prefix` and no two routes of a network have the same prefix, both stay so: whichever
  -- requests are refused, and whether or not a counter can be decremented and a response be empty.
  pub run-IsTidy :
      (rs : List Request) (w : World)
      → IsTidy w.db.routes
      → IsTidy (run lib debug has_dec takes_none rs w).db.routes
  unfolding run
  run-IsTidy [] w t = t
  run-IsTidy (r ∷ rs) w t = run-IsTidy rs (settle w (handle lib debug has_dec takes_none r w)) (
      settle-IsTidy w (handle lib debug has_dec takes_none r w) (λ w' h. handle-IsTidy r w w' h t)
        t)
