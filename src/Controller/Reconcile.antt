-- ===== src/Controller/Reconcile.antt =====
-- One reconciliation of an interface: `_reconcile_interface`, `_sync_runtime_metadata` and the events
-- of backend/app/services/wg_controller.py.
use midscale.Prelude.{
  ℕ, ◌+◌, String, Bool, true, false, Option, none, some, List, [], ◌∷◌, ◌++◌, map, keep,
  update_where, length, ◌==◌, if◌then◌else◌,
}
use midscale.Prelude.Int.{pos}
use midscale.Events
use midscale.Events.{Event, ident, text, num, publish, device_online, device_offline, peer_synced}
use midscale.WgAdapter.{
  WgPeer, InterfaceState, DesiredPeer, PeerDiff, WgError, interface_not_found, key_error,
  command_error, WgResult, ok, error, Adapter,
}
use midscale.Controller.{
  Device, Network, AdvertisedRoute, remove_failed, add_failed, command_failed, ReconciliationResult,
  distinct, compute_peer_diff, get_desired_peers, is_online, is_newer, with_handshake, same_text,
}

-- The adapter's state, the tables as the session sees them, `settings.wireguard_interface`, the runs
-- that the metrics have counted, and what has been published.
pub record World (S : Type 0) : Type 0 where
  pub adapter : S
  pub devices : List Device
  pub networks : List Network
  pub routes : List AdvertisedRoute
  pub wireguard_interface : String
  pub runs : List ReconciliationResult
  pub events : List Event

-- The two events of a device; the text of its last handshake is shown as the time.
abbrev pub online_event : Device → Event
online_event d = record {
  event_type = device_online;
  payload = ("device_id", ident d.id) ∷ ("device_name", text (some d.name)) ∷ [];
}

abbrev pub time_of : Option ℕ → Events.Value
time_of none = text (some "")
time_of (some t) = num (some (pos t))

abbrev pub offline_event : Device → Event
offline_event d = record {
  event_type = device_offline;
  payload =
      ("device_id", ident d.id)
      ∷ ("device_name", text (some d.name))
      ∷ ("last_seen", time_of d.last_handshake)
      ∷ [];
}

-- `was` and `is` say whether the device was online before and after its handshake was written.
abbrev pub notice : (event_bus changed was is : Bool) → Device → List Event → List Event
notice bus true false true d log = publish bus (online_event d) log
notice bus true true false d log = publish bus (offline_event d) log
notice bus _ _ _ d log = log

-- One peer of the interface, by the devices that have its key; with several `scalar_one_or_none`
-- raises.
abbrev pub sync_found :
    (now : ℕ) (event_bus : Bool)
    → Option ℕ
    → List Device
    → List Device × List Event
    → Option (List Device × List Event)
sync_found now bus reported [] (rows, log) = some (rows, log)
sync_found now bus reported (d ∷ []) (rows, log) =
    let d' = with_handshake now reported d in
    some (
      update_where (λ e. e.id == d.id) (with_handshake now reported) rows,
      notice bus (is_newer reported d.last_handshake) (is_online now d.last_handshake)
          (is_online now d'.last_handshake) d' log,
    )
sync_found now bus reported (d ∷ e ∷ more) (rows, log) = none

unfoldable pub sync_runtime_metadata :
    (now : ℕ) (event_bus : Bool)
    → List WgPeer
    → List Device × List Event
    → Option (List Device × List Event)
sync_runtime_metadata now bus [] db = some db
sync_runtime_metadata now bus (p ∷ ps) db =
    elim (sync_found now bus p.latest_handshake
      (keep (λ d. same_text d.public_key p.public_key) db.0) db) [
        | none ↦ none
        | some db' ↦ sync_runtime_metadata now bus ps db'
      ]

-- What a call's outcome writes into the result; only a command error ends the loop.
abbrev pub note_removed :
    String → Option WgError → ReconciliationResult → Bool × ReconciliationResult
note_removed key none r = (false, record r { peers_removed = r.peers_removed + 1 })
note_removed key (some command_error) r = (true, r)
note_removed key (some e) r = (false, record r { errors = r.errors ++ remove_failed key e ∷ [] })

abbrev pub note_added : String → Option WgError → ReconciliationResult → Bool × ReconciliationResult
note_added key none r = (false, record r { peers_added = r.peers_added + 1 })
note_added key (some command_error) r = (true, r)
note_added key (some e) r = (false, record r { errors = r.errors ++ add_failed key e ∷ [] })

module _ {S : Type 0} (adapter : Adapter S) (interface : String) where
  -- The two loops; the flag says whether a command error has ended one.
  unfoldable pub remove_peers :
      List DesiredPeer → S × ReconciliationResult → Bool × S × ReconciliationResult
  remove_peers [] (s, r) = (false, s, r)
  remove_peers (p ∷ ps) (s, r) =
      let (raised, s') = adapter.remove_peer interface p.public_key s in
      let (stop, r') = note_removed p.public_key raised r in
      elim stop [ true ↦ (true, s', r') | false ↦ remove_peers ps (s', r') ]

  unfoldable pub add_peers :
      List DesiredPeer → S × ReconciliationResult → Bool × S × ReconciliationResult
  add_peers [] (s, r) = (false, s, r)
  add_peers (p ∷ ps) (s, r) =
      let (raised, s') = adapter.add_peer interface p.public_key p.allowed_ips s in
      let (stop, r') = note_added p.public_key raised r in
      elim stop [ true ↦ (true, s', r') | false ↦ add_peers ps (s', r') ]

  abbrev pub after_removal :
      List DesiredPeer → Bool × S × ReconciliationResult → Bool × S × ReconciliationResult
  after_removal to_add (true, s, r) = (true, s, r)
  after_removal to_add (false, s, r) = add_peers to_add (s, r)

  -- The removals, then the additions. The peers of `to_update` are not looked at.
  unfoldable pub apply_diff : PeerDiff → S × ReconciliationResult → Bool × S × ReconciliationResult
  unfolding remove_peers add_peers
  apply_diff diff sr = after_removal diff.to_add (remove_peers diff.to_remove sr)

abbrev pub empty_result : String → ReconciliationResult
empty_result i = record {
  interface = i;
  peers_added = 0;
  peers_removed = 0;
  peers_updated = 0;
  errors = [];
}

-- The end of a run: the metrics count it.
abbrev pub finish :
    {S : Type 0} → ReconciliationResult → World S → Option ReconciliationResult × World S
finish r w = (some r, record w { runs = w.runs ++ r ∷ [] })

module _ {S : Type 0} (adapter : Adapter S) (now : ℕ) (event_bus : Bool) where
  abbrev pub after_sync :
      S
      → ReconciliationResult
      → World S
      → Option (List Device × List Event)
      → Option ReconciliationResult × World S
  after_sync s r w none = (none, record w { adapter = s })
  after_sync s r w (some (devices, events)) =
      finish r (record w { adapter = s; devices = devices; events = events })

  -- After the loops: the handshakes of the peers that the state read before them shows now, or the
  -- command error.
  abbrev pub after_diff :
      String
      → InterfaceState
      → World S
      → Bool × S × ReconciliationResult
      → Option ReconciliationResult × World S
  after_diff i st w (true, s, r) =
      finish (record r { errors = r.errors ++ command_failed ∷ [] }) (record w { adapter = s })
  after_diff i st w (false, s, r) =
      after_sync s r w
        (sync_runtime_metadata now event_bus (adapter.peers_now i st s) (w.devices, w.events))

  -- By what `get_interface_state` returns or raises; a key error is caught nowhere in the method.
  unfoldable pub reconcile_state :
      String → World S → WgResult InterfaceState → Option ReconciliationResult × World S
  unfolding apply_diff compute_peer_diff get_desired_peers sync_runtime_metadata
  reconcile_state i w (error interface_not_found) = finish (empty_result i) w
  reconcile_state i w (error command_error) =
      finish (record (empty_result i) { errors = command_failed ∷ [] }) w
  reconcile_state i w (error key_error) = (none, w)
  reconcile_state i w (ok st) = after_diff i st w (
      apply_diff adapter i
        (compute_peer_diff (get_desired_peers w.wireguard_interface w.networks w.routes i w.devices)
          (distinct (map (λ p. p.public_key) st.peers)))
        (w.adapter, empty_result i))

  -- `none` where the method raises.
  unfoldable pub reconcile_interface : String → World S → Option ReconciliationResult × World S
  unfolding reconcile_state
  reconcile_interface i w =
      if adapter.interface_exists i w.adapter
      then reconcile_state i w (adapter.get_interface_state i w.adapter)
      else (some (empty_result i), w)

-- The errors are shown by their number; the duration is left out.
abbrev pub publish_peer_sync_event :
    (event_bus : Bool) → ReconciliationResult → List Event → List Event
publish_peer_sync_event bus r log =
    publish bus
      (record {
        event_type = peer_synced;
        payload =
            ("interface", text (some r.interface))
            ∷ ("peers_added", num (some (pos r.peers_added)))
            ∷ ("peers_removed", num (some (pos r.peers_removed)))
            ∷ ("peers_updated", num (some (pos r.peers_updated)))
            ∷ ("errors", num (some (pos (length r.errors))))
            ∷ [];
      })
      log
