-- ===== src/WgAdapter.antt =====
-- What a WireGuard interface holds and how it is changed: the types of
-- backend/app/services/wg_models.py, the adapter's interface and its in-memory implementation of
-- backend/app/services/wg_adapter.py. The errors are those of backend/app/services/wg_exceptions.py.
use midscale.Prelude.{
  ℕ, ◌+◌, String, Bool, true, false, not, Option, none, some, List, [], ◌∷◌, keep, str_eq,
  if◌then◌else◌,
}
use midscale.Prelude.Dict.{Dict, get, put}

pub record WgPeer : Type 0 where
  pub public_key : String
  pub allowed_ips : List String
  pub endpoint : Option String
  pub latest_handshake : Option ℕ
  pub transfer_rx : ℕ
  pub transfer_tx : ℕ
  pub persistent_keepalive : Option ℕ

pub record InterfaceState : Type 0 where
  pub name : String
  pub private_key : Option String
  pub public_key : Option String
  pub listen_port : ℕ
  pub fwmark : Option String
  pub peers : List WgPeer

pub record DesiredPeer : Type 0 where
  pub public_key : String
  pub allowed_ips : List String
  pub remove : Bool

pub record PeerDiff : Type 0 where
  pub to_add : List DesiredPeer
  pub to_update : List DesiredPeer
  pub to_remove : List DesiredPeer

-- WireGuardInterfaceNotFound, WireGuardKeyError and WireGuardCommandError.
pub data WgError : Type 0 where
  interface_not_found key_error command_error : WgError

pub data WgResult (A : Type 0) : Type 0 where
  ok : A → WgResult A
  error : WgError → WgResult A

-- The part of `WireGuardAdapter` that the controller calls, on a state of the implementation's own. A
-- call that changes the state returns the error that it raises, if any. `add_peer` is called with its
-- defaults. `peers_now` is what the `peers` of a state that was read earlier show now: the adapter may
-- have handed out the object that it goes on changing.
pub record Adapter (S : Type 0) : Type 0 where
  pub interface_exists : String → S → Bool
  pub get_interface_state : String → S → WgResult InterfaceState
  pub add_peer : (interface public_key : String) → List String → S → Option WgError × S
  pub remove_peer : (interface public_key : String) → S → Option WgError × S
  pub peers_now : (interface : String) → InterfaceState → S → List WgPeer

-- `WgMockAdapter`: the interfaces by name and the counter of its made-up keys.
pub record Mock : Type 0 where
  pub interfaces : Dict InterfaceState
  pub next_key_counter : ℕ

abbrev pub new_peer : String → List String → WgPeer
new_peer key ips = record {
  public_key = key;
  allowed_ips = ips;
  endpoint = none;
  latest_handshake = none;
  transfer_rx = 0;
  transfer_tx = 0;
  persistent_keepalive = none;
}

-- The first peer with the key is replaced; a key that no peer has is appended.
abbrev pub put_peer : WgPeer → List WgPeer → List WgPeer
put_peer n [] = n ∷ []
put_peer n (p ∷ ps) =
    let rest = put_peer n ps in if str_eq p.public_key n.public_key then n ∷ ps else p ∷ rest

-- A dataclass at its defaults.
abbrev pub new_interface : String → String → InterfaceState
new_interface name key = record {
  name = name;
  private_key = none;
  public_key = some key;
  listen_port = 51820;
  fwmark = none;
  peers = [];
}

abbrev pub with_peer : String → List String → InterfaceState → InterfaceState
with_peer key ips st = record st { peers = put_peer (new_peer key ips) st.peers }

abbrev pub without_peer : String → InterfaceState → InterfaceState
without_peer key st = record st { peers = keep (λ p. not (str_eq p.public_key key)) st.peers }

-- The text of a made-up key is the number in a format, which is an argument.
module _ (mock_key : ℕ → String) where
  unfoldable pub mock_add_peer :
      (interface public_key : String) → List String → Mock → Option WgError × Mock
  mock_add_peer i key ips m = elim (get (some i) m.interfaces) [
    | none ↦ (
      none,
      record {
        interfaces =
            put (some i) (with_peer key ips (new_interface i (mock_key (m.next_key_counter + 1))))
              m.interfaces;
        next_key_counter = m.next_key_counter + 1;
      },
    )
    | some st ↦ (none, record m { interfaces = put (some i) (with_peer key ips st) m.interfaces })
  ]

  unfoldable pub mock_remove_peer : (interface public_key : String) → Mock → Option WgError × Mock
  mock_remove_peer i key m = elim (get (some i) m.interfaces) [
    | none ↦ (none, m)
    | some st ↦ (none, record m { interfaces = put (some i) (without_peer key st) m.interfaces })
  ]

  unfoldable pub mock_get_interface_state : String → Mock → WgResult InterfaceState
  mock_get_interface_state i m = elim (get (some i) m.interfaces) [
    | none ↦ error interface_not_found
    | some st ↦ ok st
  ]

  unfoldable pub mock_interface_exists : String → Mock → Bool
  mock_interface_exists i m = elim (get (some i) m.interfaces) [ none ↦ false | some st ↦ true ]

  -- The mock hands out the interface's own object.
  unfoldable pub mock_peers_now : String → InterfaceState → Mock → List WgPeer
  mock_peers_now i st m = elim (get (some i) m.interfaces) [
    | none ↦ st.peers
    | some live ↦ live.peers
  ]

  unfoldable pub mock : Adapter Mock
  unfolding mock_peers_now mock_add_peer mock_remove_peer mock_get_interface_state
      mock_interface_exists
  mock = record {
    interface_exists = mock_interface_exists;
    get_interface_state = mock_get_interface_state;
    add_peer = mock_add_peer;
    remove_peer = mock_remove_peer;
    peers_now = mock_peers_now;
  }
