-- ===== src/WgRuntime.antt =====
-- The daemon's WireGuardRuntime: midscaled/daemon/wg_runtime.py. What the commands do to the interface
-- is the work of `wg` and `ip`, so the model is the log of the commands that the runtime starts, in
-- order, with the one that raises as the last. The machine says after which log a command raises, what
-- `wg genkey` prints and which peers `wg show dump` lists; the exit status of a command is looked at
-- for `genkey` only. A set of keys is a list.
pub mod Broken
use midscale.Prelude.{
  ℕ, String, Bool, true, false, not, Option, none, some, List, [], ◌∷◌, ◌++◌, map, keep, any,
  str_eq, ◌==◌, if◌then◌else◌,
}
use midscale.Prelude.Int.{ℤ, pos, eq_ℤ}
use midscale.Prelude.Texts.{before_code, after_code}
use midscale.Topology.{truthy}
use midscale.Config.Answer.{RelayCandidateInfo}

pub record DesiredPeer : Type 0 where
  pub public_key : String
  pub allowed_ips : List String
  pub endpoint : Option String
  pub endpoint_port : Option ℤ
  pub persistent_keepalive : Option ℕ
  pub relay_required : Bool
  pub relay_candidates : List RelayCandidateInfo

pub record DesiredConfig : Type 0 where
  pub private_key : String
  pub address : String
  pub subnet : String
  pub listen_port : Option ℕ
  pub dns_servers : Option (List String)
  pub peers : List DesiredPeer
  pub mtu : Option ℕ

-- The commands, each on the daemon's one interface, with the arguments that vary.
pub data Command : Type 0 where
  show genkey link_add link_up show_dump : Command
  addr_add : (address prefix : String) → Command
  set_private_key : String → Command
  set_interface : (private_key : String) (listen_port : ℕ) → Command
  set_peer :
      (public_key : String) (allowed_ips : List String) (endpoint : Option (String × ℤ))
      (persistent_keepalive : Option ℕ)
      → Command
  remove_peer : (public_key : String) → Command

pub record Machine : Type 0 where
  pub raises : List Command → Command → Bool
  pub generated : List Command → Option String
  pub dumped : List Command → List String

-- subnet.split('/')[1] if '/' in subnet else '24'
abbrev pub prefix_of : Option String → String
prefix_of none = "24"
prefix_of (some rest) = before_code b'/' rest

-- `config.listen_port or 51820`
abbrev pub listen_port_of : Option ℕ → ℕ
listen_port_of none = 51820
listen_port_of (some p) = if p == 0 then 51820 else p

-- `peer.endpoint_port or 51820`
abbrev pub endpoint_port_of : Option ℤ → ℤ
endpoint_port_of none = pos 51820
endpoint_port_of (some p) = if eq_ℤ p (pos 0) then pos 51820 else p

-- `if peer.endpoint`
abbrev pub endpoint_of : Option String → Option ℤ → Option (String × ℤ)
endpoint_of none port = none
endpoint_of (some e) port = if truthy e then some (e, endpoint_port_of port) else none

abbrev pub peer_command : DesiredPeer → Command
peer_command p =
    set_peer p.public_key p.allowed_ips (endpoint_of p.endpoint p.endpoint_port)
      p.persistent_keepalive

abbrev pub wants : List DesiredPeer → String → Bool
wants peers key = any (λ p. str_eq p.public_key key) peers

abbrev pub private_key_command : Option String → List Command
private_key_command none = []
private_key_command (some key) = if truthy key then set_private_key key ∷ [] else []

module _ (machine : Machine) where
  -- Commands one after the other, up to one that raises: whether all have run, and the log.
  abbrev pub run_all : List Command → List Command → Bool × List Command
  run_all [] log = (true, log)
  run_all (c ∷ cs) log =
      let rest = run_all cs (log ++ c ∷ []) in
      if machine.raises log c then (false, log ++ c ∷ []) else rest

  -- The interface that `wg show` did not run for.
  abbrev pub create_interface : (address prefix : String) → List Command → Bool × List Command
  create_interface address prefix log =
      if machine.raises log genkey
      then (false, log ++ genkey ∷ [])
      else run_all
          (link_add
            ∷ addr_add address prefix
            ∷ link_up
            ∷ private_key_command (machine.generated log))
          (log ++ genkey ∷ [])

  -- `interface_exists` is true whenever `wg show` has run, whatever it exits with.
  unfoldable pub bring_up_interface : (address subnet : String) → List Command → Bool × List Command
  unfolding after_code before_code
  bring_up_interface address subnet log =
      let prefix = prefix_of (after_code b'/' subnet) in
      if machine.raises log show
      then create_interface address prefix (log ++ show ∷ [])
      else run_all (addr_add address prefix ∷ link_up ∷ []) (log ++ show ∷ [])

  -- `get_state` drops what it raises, and then there are no keys.
  abbrev pub current_keys : List Command → List String
  current_keys log = if machine.raises log show_dump then [] else machine.dumped log

  abbrev pub peer_commands : List DesiredPeer → List String → List Command
  peer_commands peers keys =
      map peer_command peers ++ map remove_peer (keep (λ k. not (wants peers k)) keys)

  unfoldable pub apply_config : DesiredConfig → List Command → Bool × List Command
  apply_config config log =
      let first = set_interface config.private_key (listen_port_of config.listen_port) in
      if machine.raises log first
      then (false, log ++ first ∷ [])
      else let log1 = log ++ first ∷ [] in
        run_all (peer_commands config.peers (current_keys log1)) (log1 ++ show_dump ∷ [])
