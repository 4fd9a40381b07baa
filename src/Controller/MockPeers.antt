-- ===== src/Controller/MockPeers.antt =====
-- What calls of the mock adapter do to the peers of an interface: `WgMockAdapter` of
-- backend/app/services/wg_adapter.py.
use midscale.Prelude.{
  ℕ, String, Bool, true, false, not, Option, none, some, List, [], ◌∷◌, ◌≡◌, refl, ◌∙◌, arith, keep,
  find, any, str_eq, eq_iff, if◌then◌else◌, ◌||◌,
}
use midscale.Prelude.Dict.{Key, Dict, key_eq_iff, get, put, get-put}
use midscale.WgAdapter.{
  WgPeer, InterfaceState, DesiredPeer, Mock, new_peer, put_peer, with_peer, without_peer,
  mock_add_peer, mock_remove_peer, mock,
}
use midscale.Controller.{ReconciliationResult, has_peer, wants}
use midscale.Controller.Reconcile.{remove_peers, add_peers, note_removed, note_added}

find-put_peer :
    (n : WgPeer) (ps : List WgPeer) (k : String)
    → find (has_peer k) (put_peer n ps)
      ≡ (if str_eq n.public_key k then some n else find (has_peer k) ps)
find-put_peer n [] k = refl
find-put_peer n (p ∷ ps) k = ground (
  arith,
  find-put_peer n ps k,
  eq_iff p.public_key n.public_key,
  eq_iff p.public_key k,
  eq_iff n.public_key k,
)

find-without :
    (j : String) (ps : List WgPeer) (k : String)
    → find (has_peer k) (keep (λ p. not (str_eq p.public_key j)) ps)
      ≡ (if str_eq j k then none else find (has_peer k) ps)
find-without j [] k = ground arith
find-without j (p ∷ ps) k =
    ground (arith, find-without j ps k, eq_iff p.public_key j, eq_iff p.public_key k, eq_iff j k)

get-put_same :
    (k : Key) (st : InterfaceState) (d : Dict InterfaceState) → get k (put k st d) ≡ some st
get-put_same k st d = get-put k k st d ∙ ground (arith, key_eq_iff k k)

-- The interface `i` exists and has the peers `ps`.
abbrev pub Holds : String → List WgPeer → Mock → Type 0
Holds i ps m = (st : InterfaceState) × (get (some i) m.interfaces ≡ some st) × (st.peers ≡ ps)

module _ (mock_key : ℕ → String) (i : String) where
  add-Holds :
      (key : String) (ips : List String) (ps : List WgPeer) (m : Mock)
      → Holds i ps m
      → ((mock_add_peer mock_key i key ips m).0 ≡ none)
        × Holds i (put_peer (new_peer key ips) ps) (mock_add_peer mock_key i key ips m).1
  unfolding mock_add_peer
  add-Holds key ips ps m (st, e, same) =
      rw (e, mock_add_peer)
        (
          refl,
          (
            with_peer key ips st,
            get-put_same (some i) (with_peer key ips st) m.interfaces,
            rw same refl,
          ),
        )

  remove-Holds :
      (key : String) (ps : List WgPeer) (m : Mock)
      → Holds i ps m
      → ((mock_remove_peer mock_key i key m).0 ≡ none)
        × Holds i
            (keep (λ p. not (str_eq p.public_key key)) ps)
            (mock_remove_peer mock_key i key m).1
  unfolding mock_remove_peer
  remove-Holds key ps m (st, e, same) =
      rw (e, mock_remove_peer)
        (
          refl,
          (
            without_peer key st,
            get-put_same (some i) (without_peer key st) m.interfaces,
            rw same refl,
          ),
        )

-- The peers that are left once the keys of `ds` are gone, and those that are there once they are put.
abbrev pub drop_keys : List DesiredPeer → List WgPeer → List WgPeer
drop_keys [] ps = ps
drop_keys (d ∷ ds) ps = drop_keys ds (keep (λ p. not (str_eq p.public_key d.public_key)) ps)

abbrev pub put_all : List DesiredPeer → List WgPeer → List WgPeer
put_all [] ps = ps
put_all (d ∷ ds) ps = put_all ds (put_peer (new_peer d.public_key d.allowed_ips) ps)

pub find-drop_keys :
    (ds : List DesiredPeer) (ps : List WgPeer) (k : String)
    → find (has_peer k) (drop_keys ds ps)
      ≡ (if any (wants k) ds then none else find (has_peer k) ps)
find-drop_keys [] ps k = refl
find-drop_keys (d ∷ ds) ps k =
    find-drop_keys ds (keep (λ p. not (str_eq p.public_key d.public_key)) ps) k
    ∙ ground (arith, find-without d.public_key ps k)

abbrev pub is_there : Option WgPeer → Bool
is_there none = false
is_there (some p) = true

-- A key that is put is there afterwards; another key's peer stays as it was.
pub put_all-there :
    (ds : List DesiredPeer) (ps : List WgPeer) (k : String)
    → is_there (find (has_peer k) (put_all ds ps))
      ≡ (any (wants k) ds || is_there (find (has_peer k) ps))
put_all-there [] ps k = refl
put_all-there (d ∷ ds) ps k =
    put_all-there ds (put_peer (new_peer d.public_key d.allowed_ips) ps) k
    ∙ ground (arith, find-put_peer (new_peer d.public_key d.allowed_ips) ps k)

pub put_all-others :
    (ds : List DesiredPeer) (ps : List WgPeer) (k : String)
    → any (wants k) ds ≡ false
    → find (has_peer k) (put_all ds ps) ≡ find (has_peer k) ps
put_all-others [] ps k h = refl
put_all-others (d ∷ ds) ps k h =
    put_all-others ds (put_peer (new_peer d.public_key d.allowed_ips) ps) k (ground arith)
    ∙ ground (arith, find-put_peer (new_peer d.public_key d.allowed_ips) ps k)

module _ (mock_key : ℕ → String) (i : String) where
  pub remove_peers-Holds :
      (ds : List DesiredPeer) (ps : List WgPeer) (m : Mock) (r : ReconciliationResult)
      → Holds i ps m
      → let t = remove_peers (mock mock_key) i ds (m, r) in
        (t.0 ≡ false) × Holds i (drop_keys ds ps) t.1
  unfolding remove_peers mock
  remove_peers-Holds [] ps m r h = (refl, h)
  remove_peers-Holds (d ∷ ds) ps m r h =
      let (none_raised, h') = remove-Holds mock_key i d.public_key ps m h in
      rw (none_raised, remove_peers)
        (remove_peers-Holds ds (keep (λ p. not (str_eq p.public_key d.public_key)) ps)
          (mock_remove_peer mock_key i d.public_key m).1
          (note_removed d.public_key (mock_remove_peer mock_key i d.public_key m).0 r).1 h')

  pub add_peers-Holds :
      (ds : List DesiredPeer) (ps : List WgPeer) (m : Mock) (r : ReconciliationResult)
      → Holds i ps m
      → let t = add_peers (mock mock_key) i ds (m, r) in (t.0 ≡ false) × Holds i (put_all ds ps) t.1
  unfolding add_peers mock
  add_peers-Holds [] ps m r h = (refl, h)
  add_peers-Holds (d ∷ ds) ps m r h =
      let (none_raised, h') = add-Holds mock_key i d.public_key d.allowed_ips ps m h in
      rw (none_raised, add_peers)
        (add_peers-Holds ds (put_peer (new_peer d.public_key d.allowed_ips) ps)
          (mock_add_peer mock_key i d.public_key d.allowed_ips m).1
          (note_added d.public_key (mock_add_peer mock_key i d.public_key d.allowed_ips m).0 r).1
          h')
