-- ===== src/Controller/Converge.antt =====
-- Where a reconciliation leads: `_reconcile_interface` of backend/app/services/wg_controller.py on the
-- mock adapter of backend/app/services/wg_adapter.py.
use midscale.Prelude.{
  ℕ, String, Bool, true, false, not, Option, none, some, List, [], ◌∷◌, ◌++◌, ◌≡◌, refl, ap, ◌∙◌,
  arith, keep, map, find, any, all, str_eq, eq_iff, ◌&&◌, ◌||◌, Bool-cases, inl, inr,
}
use midscale.Events.{Event}
use midscale.WgAdapter.{
  WgPeer, InterfaceState, DesiredPeer, PeerDiff, Adapter, Mock, mock, mock_interface_exists,
  mock_get_interface_state, ok,
}
use midscale.Prelude.Dict.{get}
use midscale.Controller.{
  Device, Network, AdvertisedRoute, ReconciliationResult, has_peer, wants, has, distinct,
  keys_where, orphan, compute_peer_diff, get_desired_peers, peer_of, same_text, interface_of,
}
use midscale.Controller.Reconcile.{
  World, apply_diff, after_diff, after_sync, reconcile_state, reconcile_interface, empty_result,
  remove_peers, after_removal,
}
use midscale.Controller.MockPeers.{
  Holds, drop_keys, put_all, find-drop_keys, put_all-there, put_all-others, is_there,
  remove_peers-Holds, add_peers-Holds,
}

-- No desired peer is marked for removal.
abbrev pub AllStay : List DesiredPeer → Type 0
AllStay ds = all (λ d. not d.remove) ds ≡ true

peer_of-AllStay :
    (routes : List AdvertisedRoute) (d : Device) (key ip : Option String) (rest : List DesiredPeer)
    → AllStay rest
    → AllStay (peer_of routes d key ip ++ rest)
peer_of-AllStay routes d none ip rest h = h
peer_of-AllStay routes d (some k) none rest h = h
peer_of-AllStay routes d (some k) (some ip) rest h = h

any-append :
    (p : DesiredPeer → Bool) (xs ys : List DesiredPeer) → any p (xs ++ ys) ≡ (any p xs || any p ys)
any-append p [] ys = refl
any-append p (x ∷ xs) ys = ground (arith, any-append p xs ys)

has-distinct : (keys : List String) (k : String) → has (distinct keys) k ≡ has keys k
has-distinct [] k = refl
has-distinct (x ∷ keys) k = ground (arith, has-distinct keys k, has-without x (distinct keys) k)
  where
    has-without :
        (j : String) (ks : List String) (k : String)
        → has (keep (λ y. not (str_eq y j)) ks) k ≡ (not (str_eq j k) && has ks k)
    has-without j [] k = ground arith
    has-without j (y ∷ ks) k =
        ground (arith, has-without j ks k, eq_iff y j, eq_iff y k, eq_iff j k)

has-peers :
    (ps : List WgPeer) (k : String) → has (map (λ p. p.public_key) ps) k ≡ any (has_peer k) ps
has-peers [] k = refl
has-peers (p ∷ ps) k = ground (arith, has-peers ps k)

-- The desired peers that a set of keys lacks.
wants-added :
    (actual : List String) (ds : List DesiredPeer) (k : String)
    → AllStay ds
    → any (wants k) (keep (λ p. not p.remove && not (has actual p.public_key)) ds)
      ≡ (any (wants k) ds && not (has actual k))
wants-added actual [] k h = refl
wants-added actual (d ∷ ds) k h = ground (arith, wants-added actual ds k, eq_iff d.public_key k)

no_removals :
    (actual : List String) (ds : List DesiredPeer)
    → AllStay ds
    → keep (λ p. p.remove && has actual p.public_key) ds ≡ []
no_removals actual [] h = refl
no_removals actual (d ∷ ds) h = ground (arith, no_removals actual ds)

no_removed_keys : (ds : List DesiredPeer) → AllStay ds → keys_where (λ p. p.remove) ds ≡ []
no_removed_keys [] h = refl
no_removed_keys (d ∷ ds) h = ground (arith, no_removed_keys ds)

stay_keys :
    (ds : List DesiredPeer) (k : String)
    → AllStay ds
    → has (keys_where (λ p. not p.remove) ds) k ≡ any (wants k) ds
stay_keys [] k h = refl
stay_keys (d ∷ ds) k h = ground (arith, stay_keys ds k)

wants-orphans :
    (f : String → Bool) (ks : List String) (k : String)
    → any (wants k) (map orphan (keep f ks)) ≡ (has ks k && f k)
wants-orphans f [] k = refl
wants-orphans f (x ∷ ks) k = ground (arith, wants-orphans f ks k, eq_iff x k)

-- Which keys the diff adds and removes.
module _ (ds : List DesiredPeer) (actual : List String) (k : String) (stay : AllStay ds) where
  diff-to_add :
      any (wants k) (compute_peer_diff ds actual).to_add ≡ (any (wants k) ds && not (has actual k))
  unfolding compute_peer_diff
  diff-to_add = wants-added actual ds k stay

  diff-to_remove :
      any (wants k) (compute_peer_diff ds actual).to_remove
      ≡ (has actual k && not (any (wants k) ds))
  unfolding compute_peer_diff
  diff-to_remove = rw (no_removals actual ds stay) (
      wants-orphans
        (λ x.
          not (has (keys_where (λ p. not p.remove) ds) x)
          && not (has (keys_where (λ p. p.remove) ds) x))
        actual k
      ∙ ground (arith, stay_keys ds k, no_removed_keys ds stay))

-- The peers of an interface of the mock.
abbrev pub peers_of : String → Mock → List WgPeer
peers_of i m = elim (get (some i) m.interfaces) [ none ↦ [] | some st ↦ st.peers ]

Holds-peers_of : (i : String) (ps : List WgPeer) (m : Mock) → Holds i ps m → peers_of i m ≡ ps
Holds-peers_of i ps m (st, e, same) = rw (e, peers_of) same

-- What the controller wants on the interface.
abbrev pub desired_on : String → World Mock → List DesiredPeer
desired_on i w = get_desired_peers w.wireguard_interface w.networks w.routes i w.devices

get_desired_peers-AllStay :
    (default : String) (networks : List Network) (routes : List AdvertisedRoute) (i : String)
    (ds : List Device)
    → AllStay (get_desired_peers default networks routes i ds)
unfolding get_desired_peers
get_desired_peers-AllStay default networks routes i [] = refl
get_desired_peers-AllStay default networks routes i (d ∷ ds) =
    let rest = get_desired_peers-AllStay default networks routes i ds in
    elim (Bool-cases (
      d.is_active
      && (same_text (interface_of default networks d) i
          && not (str_eq d.name "__midscale_server__")))) [
            | inl e ↦ rw e (peer_of-AllStay routes d d.public_key d.ip_address _ rest)
            | inr e ↦ rw e rest
          ]

apply_diff-Holds :
    (mock_key : ℕ → String) (i : String) (diff : PeerDiff) (ps : List WgPeer) (m : Mock)
    (r : ReconciliationResult)
    → Holds i ps m
    → Holds i
        (put_all diff.to_add (drop_keys diff.to_remove ps))
        (apply_diff (mock mock_key) i diff (m, r)).1
unfolding apply_diff
apply_diff-Holds mock_key i diff ps m r h =
    let (running, h') = remove_peers-Holds mock_key i diff.to_remove ps m r h in
    rw (running, after_removal)
      (add_peers-Holds mock_key i diff.to_add (drop_keys diff.to_remove ps)
        (remove_peers (mock mock_key) i diff.to_remove (m, r)).1
        (remove_peers (mock mock_key) i diff.to_remove (m, r)).2 h').1

module _ {S : Type 0} (adapter : Adapter S) (now : ℕ) (bus : Bool) where
  after_sync-adapter :
      (s : S) (r : ReconciliationResult) (w : World S) (o : Option (List Device × List Event))
      → (after_sync adapter now bus s r w o).1.adapter ≡ s
  after_sync-adapter s r w none = refl
  after_sync-adapter s r w (some (devices, events)) = refl

  after_diff-adapter :
      (i : String) (st : InterfaceState) (w : World S) (t : Bool × S × ReconciliationResult)
      → (after_diff adapter now bus i st w t).1.adapter ≡ t.1
  after_diff-adapter i st w (true, s, r) = refl
  after_diff-adapter i st w (false, s, r) = after_sync-adapter s r w _

any-there : (k : String) (ps : List WgPeer) → any (has_peer k) ps ≡ is_there (find (has_peer k) ps)
any-there k [] = refl
any-there k (p ∷ ps) = ground (arith, any-there k ps)

module _ (mock_key : ℕ → String) (now : ℕ) (bus : Bool) (i : String) (w : World Mock)
    (st : InterfaceState) (found : get (some i) w.adapter.interfaces ≡ some st) where
  abbrev the_diff : PeerDiff
  the_diff = compute_peer_diff (desired_on i w) (distinct (map (λ p. p.public_key) st.peers))

  abbrev final : List WgPeer
  final = put_all the_diff.to_add (drop_keys the_diff.to_remove st.peers)

  actual_has :
      (k : String) → has (distinct (map (λ p. p.public_key) st.peers)) k ≡ any (has_peer k) st.peers
  actual_has k = has-distinct (map (λ p. p.public_key) st.peers) k ∙ has-peers st.peers k

  stay : AllStay (desired_on i w)
  stay = get_desired_peers-AllStay w.wireguard_interface w.networks w.routes i w.devices

  -- The keys that are put and those that are dropped.
  added :
      (k : String)
      → any (wants k) the_diff.to_add
        ≡ (any (wants k) (desired_on i w) && not (any (has_peer k) st.peers))
  added k =
      diff-to_add (desired_on i w) (distinct (map (λ p. p.public_key) st.peers)) k stay
      ∙ ap (λ b. any (wants k) (desired_on i w) && not b) (actual_has k)

  dropped :
      (k : String)
      → any (wants k) the_diff.to_remove
        ≡ (any (has_peer k) st.peers && not (any (wants k) (desired_on i w)))
  dropped k =
      diff-to_remove (desired_on i w) (distinct (map (λ p. p.public_key) st.peers)) k stay
      ∙ ap (λ b. b && not (any (wants k) (desired_on i w))) (actual_has k)

  final-there : (k : String) → any (has_peer k) final ≡ any (wants k) (desired_on i w)
  final-there k =
      any-there k final
      ∙ put_all-there the_diff.to_add (drop_keys the_diff.to_remove st.peers) k
      ∙ ground (
        arith,
        added k,
        dropped k,
        find-drop_keys the_diff.to_remove st.peers k,
        any-there k st.peers,
      )

  final-keeps :
      (k : String) (p : WgPeer)
      → find (has_peer k) st.peers ≡ some p
      → any (wants k) (desired_on i w) ≡ true
      → find (has_peer k) final ≡ some p
  final-keeps k p there wanted =
      put_all-others the_diff.to_add (drop_keys the_diff.to_remove st.peers) k
        (ground (arith, added k, any-there k st.peers))
      ∙ find-drop_keys the_diff.to_remove st.peers k
      ∙ ground (arith, dropped k)

  is_found : mock_interface_exists mock_key i w.adapter ≡ true
  unfolding mock_interface_exists
  is_found = rw (found, mock_interface_exists) refl

  is_read : mock_get_interface_state mock_key i w.adapter ≡ ok st
  unfolding mock_get_interface_state
  is_read = rw (found, mock_get_interface_state) refl

  reconcile-state :
      reconcile_interface (mock mock_key) now bus i w
      ≡ reconcile_state (mock mock_key) now bus i w (ok st)
  unfolding reconcile_interface mock
  reconcile-state =
      rw (is_found, reconcile_interface) (ap (reconcile_state (mock mock_key) now bus i w) is_read)

  reconcile-Holds : Holds i final (reconcile_interface (mock mock_key) now bus i w).1.adapter
  unfolding reconcile_state
  reconcile-Holds = rw reconcile-state (
      rw after_diff-adapter (
        apply_diff-Holds mock_key i the_diff st.peers w.adapter (empty_result i) (st, found, refl)))

  -- After a reconciliation of an interface that the mock adapter has, a key is among the interface's
  -- peers exactly if it is the key of one of the desired peers.
  pub reconcile_interface-converges :
      (k : String)
      → any (has_peer k) (peers_of i (reconcile_interface (mock mock_key) now bus i w).1.adapter)
        ≡ any (wants k) (desired_on i w)
  reconcile_interface-converges k =
      rw
        (Holds-peers_of i final (reconcile_interface (mock mock_key) now bus i w).1.adapter
          reconcile-Holds)
        (final-there k)

  -- A peer that an interface of the mock adapter has and that is desired stays as it is through a
  -- reconciliation, whatever allowed addresses are desired for it.
  pub reconcile_interface-keeps :
      (k : String) (p : WgPeer)
      → find (has_peer k) st.peers ≡ some p
      → any (wants k) (desired_on i w) ≡ true
      → find (has_peer k) (peers_of i (reconcile_interface (mock mock_key) now bus i w).1.adapter)
        ≡ some p
  reconcile_interface-keeps k p there wanted =
      rw
        (Holds-peers_of i final (reconcile_interface (mock mock_key) now bus i w).1.adapter
          reconcile-Holds)
        (final-keeps k p there wanted)
