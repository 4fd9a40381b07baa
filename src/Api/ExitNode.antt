-- ===== src/Api/ExitNode.antt =====
-- Exit nodes: what `select_exit_node` of backend/app/api/v1/routes.py has found when it answers without
-- an error.
use midscale.Prelude.{
  ℕ, Bool, true, false, Option, none, some, List, [], ◌∷◌, ◌≡◌, refl, ap, ◌∙◌, keep, find, any,
  keep-any,
}
use midscale.Api.{User, Device, AdvertisedRoute, ok, found, one_or_none}
use midscale.Api.Routes.{
  World, is_own_device, is_exit_route, is_default_route, check_exit, respond, select_exit_node,
}
use midscale.Api.Replies.{bind-answers, found-ok}

one-of :
    (p : AdvertisedRoute → Bool) (xs ys : List AdvertisedRoute) (r : AdvertisedRoute)
    → keep p xs ≡ ys
    → one_or_none ys ≡ ok (some r)
    → any p xs ≡ true
one-of p xs [] r e h = cc
one-of p xs (y ∷ []) r e h = keep-any p xs [] y e
one-of p xs (y ∷ z ∷ more) r e h = cc

check_exit-ok :
    (x : ℕ) (network : ℕ) (w : World) {u : Unit {0}}
    → check_exit (some x) network w ≡ ok u
    → any (is_exit_route x network) w.db.routes ≡ true
check_exit-ok x network w h =
    let (o, one, h1) =
      bind-answers (one_or_none (keep (is_exit_route x network) w.db.routes)) _ h in
    let (r, got, _) = bind-answers (found o 400) _ h1 in
    one-of (is_exit_route x network) w.db.routes _ r refl (one ∙ ap ok (found-ok o 400 r got))

respond-some :
    (o : Option AdvertisedRoute) (w w' : World)
    → respond false o w ≡ ok w'
    → (r : AdvertisedRoute) × (o ≡ some r)
respond-some none w w' h = cc
respond-some (some r) w w' h = (r, refl)

-- Where the response model takes no `None`, a choice of an exit node succeeds only for a device of the
-- user's, with an approved and enabled exit route of the chosen node in the device's network, and only
-- if the choosing device itself advertises 0.0.0.0/0.
pub select_exit_node_lem :
    (takes_none : Bool) (k x : ℕ) (u : User) (w w' : World)
    → takes_none ≡ false
    → select_exit_node takes_none k (some x) u w ≡ ok w'
    → (d : Device) × (find (is_own_device k u) w.db.devices ≡ some d)
      × (any (is_exit_route x d.network_id) w.db.routes ≡ true)
      × (any (is_default_route k) w.db.routes ≡ true)
unfolding select_exit_node
select_exit_node_lem true k x u w w' strict h = cc
select_exit_node_lem false k x u w w' strict h =
    let (d, own, h1) = bind-answers (found (find (is_own_device k u) w.db.devices) 404) _ h in
    let (_, exit, h2) = bind-answers (check_exit (some x) d.network_id w) _ h1 in
    let (o, one, h3) = bind-answers (one_or_none (keep (is_default_route k) w.db.routes)) _ h2 in
    let (r, got) = respond-some o _ w' h3 in
    (
      d,
      found-ok _ 404 d own,
      check_exit-ok x d.network_id w exit,
      one-of (is_default_route k) w.db.routes _ r refl (one ∙ ap ok got),
    )
