-- ===== src/Controller.antt =====
-- The reconciliation of WireGuard interfaces with the database:
-- backend/app/services/wg_controller.py. The three tables are lists of the columns that the
-- controller reads or writes.
pub mod Reconcile
pub mod MockPeers
pub mod Converge
pub mod Metadata
mod Tests
use Prim.Native.String.{◌++◌ as append}
use midscale.Prelude.{
  ℕ, ◌+◌, ◌*◌, String, Bool, true, false, not, Option, none, some, List, [], ◌∷◌, ◌++◌, ◌&&◌, ◌||◌,
  map, keep, find, any, update_where, str_eq, ltb, ◌==◌, if◌then◌else◌,
}
use midscale.Topology.{or_text, get_list}
use midscale.WgAdapter.{WgPeer, DesiredPeer, PeerDiff, WgError}

pub record Device : Type 0 where
  pub id : ℕ
  pub name : String
  pub network_id : ℕ
  pub public_key : Option String
  pub ip_address : Option String
  pub is_active : Bool
  pub last_handshake : Option ℕ
  pub created_at : ℕ
  pub updated_at : ℕ

pub record Network : Type 0 where
  pub id : ℕ
  pub interface_name : Option String

pub record AdvertisedRoute : Type 0 where
  pub device_id : ℕ
  pub prefix : String
  pub enabled : Bool
  pub approved : Bool

-- A text of `result.errors`: which call failed for which key, and how.
pub data RunError : Type 0 where
  remove_failed add_failed : (public_key : String) → WgError → RunError
  command_failed : RunError

-- `ReconciliationResult` without the duration; `peers_updated` stays 0.
pub record ReconciliationResult : Type 0 where
  pub interface : String
  pub peers_added : ℕ
  pub peers_removed : ℕ
  pub peers_updated : ℕ
  pub errors : List RunError

abbrev pub has_peer : String → WgPeer → Bool
has_peer k p = str_eq p.public_key k

abbrev pub wants : String → DesiredPeer → Bool
wants k p = str_eq p.public_key k

-- {p.public_key for p in peers}: the order of a set is not used; here it is that of first occurrence.
abbrev pub distinct : List String → List String
distinct [] = []
distinct (x ∷ xs) = x ∷ keep (λ y. not (str_eq y x)) (distinct xs)

abbrev pub has : List String → String → Bool
has keys k = any (λ x. str_eq x k) keys

-- The keys of the desired peers that are to stay, or to go.
abbrev pub keys_where : (DesiredPeer → Bool) → List DesiredPeer → List String
keys_where p desired = map (λ d. d.public_key) (keep p desired)

abbrev pub orphan : String → DesiredPeer
orphan k = record { public_key = k; allowed_ips = []; remove = true }

unfoldable pub compute_peer_diff : List DesiredPeer → (actual_keys : List String) → PeerDiff
compute_peer_diff desired actual = record {
  to_add = keep (λ p. not p.remove && not (has actual p.public_key)) desired;
  to_update = keep (λ p. not p.remove && has actual p.public_key) desired;
  to_remove =
      keep (λ p. p.remove && has actual p.public_key) desired
      ++ map orphan (
          keep
            (λ k.
              not (has (keys_where (λ p. not p.remove) desired) k)
              && not (has (keys_where (λ p. p.remove) desired) k))
            actual);
}

-- The texts of the ids are the keys of `routes_by_device`; the ids serve as well.
abbrev pub routes_of : List AdvertisedRoute → ℕ → List String
routes_of rows d =
    map (λ r. r.prefix) (keep (λ r. (r.approved && r.enabled) && r.device_id == d) rows)

-- The join: the network of a device, and its interface or the default one.
abbrev pub interface_of : String → List Network → Device → Option String
interface_of default [] d = none
interface_of default (n ∷ ns) d =
    if n.id == d.network_id
    then or_text n.interface_name (some default)
    else interface_of default ns d

abbrev pub same_text : Option String → String → Bool
same_text none b = false
same_text (some a) b = str_eq a b

-- A row of the query that becomes a peer, if the device has a key and an address.
abbrev pub peer_of :
    List AdvertisedRoute → Device → Option String → Option String → List DesiredPeer
peer_of routes d (some key) (some ip) =
    record {
      public_key = key;
      allowed_ips = append ip "/32" ∷ routes_of routes d.id;
      remove = false;
    }
    ∷ []
peer_of routes d _ _ = []

unfoldable pub get_desired_peers :
    (default_interface : String)
    → List Network
    → List AdvertisedRoute
    → (interface : String) → List Device
    → List DesiredPeer
get_desired_peers default networks routes i [] = []
get_desired_peers default networks routes i (d ∷ ds) =
    (if d.is_active
        && (same_text (interface_of default networks d) i
            && not (str_eq d.name "__midscale_server__"))
      then peer_of routes d d.public_key d.ip_address
      else [])
    ++ get_desired_peers default networks routes i ds

-- Within three minutes of the handshake.
abbrev pub is_online : ℕ → Option ℕ → Bool
is_online now none = false
is_online now (some t) = ltb now (t + 180)

-- The handshake that the interface reports is newer.
abbrev pub is_newer : Option ℕ → Option ℕ → Bool
is_newer none old = false
is_newer (some t) none = true
is_newer (some t) (some old) = ltb old t

-- What a peer's handshake makes of the device that has its key.
abbrev pub with_handshake : ℕ → Option ℕ → Device → Device
with_handshake now reported d =
    if is_newer reported d.last_handshake
    then record d { last_handshake = reported; updated_at = now }
    else d

-- Active devices without a handshake since the threshold, which are themselves older than that.
-- The days of `stale_device_days` are moved to the other side of the comparisons.
abbrev pub is_stale : (days now : ℕ) → Device → Bool
is_stale days now d =
    d.is_active
    && (elim d.last_handshake [ none ↦ true | some h ↦ ltb (h + days * 86400) now ]
        && ltb (d.created_at + days * 86400) now)

unfoldable pub cleanup_stale_peers : (stale_device_days now : ℕ) → List Device → List Device
cleanup_stale_peers days now rows =
    update_where (is_stale days now) (λ d. record d { is_active = false; updated_at = now }) rows
