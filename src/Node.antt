-- ===== src/Node.antt =====
-- The daemon's reconciliation: midscaled/daemon/reconciler.py with the cache of
-- midscaled/daemon/state_store.py, on the commands of midscaled/daemon/wg_runtime.py. What the server,
-- the machine and the key file answer in a round are arguments, and so are `json.dumps` and the parser
-- of the INI text, which is regular expressions.
pub mod Rounds
pub mod Puncher
pub mod Replies
pub mod Punches
mod Tests
use Prim.Native.String.{◌++◌ as append}
use midscale.Prelude.{
  ℕ, String, Bool, true, false, not, Option, none, some, List, [], ◌∷◌, ◌++◌, ◌&&◌, ◌+◌, map, keep,
  str_eq, if◌then◌else◌,
}
use midscale.Prelude.Int.{ℤ}
use midscale.Prelude.Dict.{Dict, get, put}
use midscale.Prelude.Texts.{before_code, after_code}
use midscale.Topology.{truthy}
use midscale.WgRuntime as WgRuntime
use midscale.WgRuntime.{DesiredPeer, DesiredConfig, Command, Machine, bring_up_interface}
use midscale.Config.Answer.{
  EndpointCandidate, RelayCandidateInfo, PeerInfo, Interface, ConfigData, DeviceConfigV2Response,
}

pub record ProbeTarget : Type 0 where
  pub public_key : String
  pub endpoint : String
  pub port : Option ℤ

-- The reconciler with its StateStore, DaemonState and prober. `commands` is the log of the commands that
-- the runtime has started; `relay_tasks` has the peers for which an activation was started.
pub record NodeState : Type 0 where
  pub cache : Dict String
  pub last_config : Option String
  pub reconfigure_count : ℕ
  pub error_count : ℕ
  pub last_config_fetch : Option ℕ
  pub last_config_hash : Option String
  pub last_config_revision : Option ℕ
  pub targets : List ProbeTarget
  pub relay_tasks : List DesiredPeer
  pub commands : List Command

unfoldable pub update_cache : String → String → NodeState → NodeState
unfolding put
update_cache key value s = record s { cache = put (some key) value s.cache }

unfoldable pub get_cache : String → NodeState → Option String
unfolding get
get_cache key s = get (some key) s.cache

-- `x or []`
abbrev pub or_empty {ℓ} : {A : Type ℓ} → Option (List A) → List A
or_empty none = []
or_empty (some xs) = xs

abbrev pub desired_peer : PeerInfo → DesiredPeer
desired_peer p = record {
  public_key = p.public_key;
  allowed_ips = p.allowed_ips;
  endpoint = p.endpoint;
  endpoint_port = p.endpoint_port;
  persistent_keepalive = p.persistent_keepalive;
  relay_required = p.relay_required;
  relay_candidates = or_empty p.relay_candidates;
}

abbrev pub subnet_of : Option String → String
subnet_of none = ""
subnet_of (some rest) = append "0.0.0.0/" (before_code b'/' rest)

-- On a response of the server, which has all the fields.
unfoldable pub parse_config_v2 : ConfigData → (private_key : String) → DesiredConfig
unfolding before_code after_code
parse_config_v2 c private_key = record {
  private_key = private_key;
  address = before_code b'/' c.interface.address;
  subnet = subnet_of (after_code b'/' c.interface.address);
  listen_port = none;
  dns_servers = c.interface.dns;
  peers = map desired_peer c.peers;
  mtu = none;
}

-- What one round meets: the key file's text without blanks at its ends, the server's answer, the
-- machine that the commands run on, the relay client and the prober.
pub record Round : Type 0 where
  pub private_key : Option String
  pub pulled : Option DeviceConfigV2Response
  pub machine : Machine
  pub relay_connected : Bool
  pub has_prober : Bool
  pub now : ℕ

-- What follows the commands of a configuration.
abbrev pub after_commands : Bool × List Command → NodeState → NodeState
after_commands (done, log) s =
    if done
    then record s { reconfigure_count = s.reconfigure_count + 1; commands = log }
    else record s { error_count = s.error_count + 1; commands = log }

-- What follows the attempt to bring the interface up.
abbrev pub after_up : Machine → DesiredConfig → Bool × List Command → NodeState → NodeState
after_up machine config (up, log) s =
    if up
    then after_commands (WgRuntime.apply_config machine config log) s
    else record s { commands = log }

unfoldable pub apply_config : Machine → DesiredConfig → NodeState → NodeState
unfolding bring_up_interface WgRuntime.apply_config
apply_config machine config s =
    after_up machine config (bring_up_interface machine config.address config.subnet s.commands) s

abbrev pub is_empty {ℓ} : {A : Type ℓ} → List A → Bool
is_empty [] = true
is_empty (x ∷ xs) = false

abbrev pub wants_relay : DesiredPeer → Bool
wants_relay p = p.relay_required && not (is_empty p.relay_candidates)

abbrev pub own_target : PeerInfo → Option String → List ProbeTarget
own_target p none = []
own_target p (some ep) =
    if truthy ep
    then record { public_key = p.public_key; endpoint = ep; port = p.endpoint_port } ∷ []
    else []

abbrev pub targets_of : List PeerInfo → List ProbeTarget
targets_of [] = []
targets_of (p ∷ ps) =
    own_target p p.endpoint
    ++ map (λ c. record { public_key = p.public_key; endpoint = c.endpoint; port = some c.port })
        p.endpoint_candidates
    ++ targets_of ps

abbrev pub same_text : Option String → String → Bool
same_text none t = false
same_text (some s) t = str_eq s t

abbrev pub fetched : ℕ → NodeState → NodeState
fetched now s = record s { last_config_fetch = some now }

module _ (dumps : ConfigData → String) where
  -- What follows an application, whether it has succeeded or not.
  unfoldable pub after_apply :
      Round → DeviceConfigV2Response → DesiredConfig → NodeState → NodeState
  unfolding update_cache
  after_apply r c config s =
      let s1 = record s {
        relay_tasks =
            if r.relay_connected
            then s.relay_tasks ++ keep wants_relay config.peers
            else s.relay_tasks;
      } in
      let s2 = update_cache "last_config_v2" (dumps c.config) s1 in
      let s3 =
        if truthy c.hash
        then record (update_cache "last_config_hash" c.hash s2) {
          last_config_hash = some c.hash;
          last_config_revision = some c.revision;
        }
        else s2 in
      if r.has_prober && not (is_empty c.config.peers)
      then record s3 { targets = targets_of c.config.peers }
      else s3

  abbrev pub is_unchanged : DeviceConfigV2Response → NodeState → Bool
  is_unchanged c s =
      if truthy c.hash
      then same_text (get_cache "last_config_hash" s) c.hash
      else same_text (get_cache "last_config_v2" s) (dumps c.config)

  abbrev pub with_pulled :
      Round → (private_key : String) → Option DeviceConfigV2Response → NodeState → NodeState
  with_pulled r key none s = s
  with_pulled r key (some c) s =
      if is_unchanged c s
      then fetched r.now s
      else let config = parse_config_v2 c.config key in
        after_apply r c config (apply_config r.machine config s)

  abbrev pub with_key : Round → Option String → NodeState → NodeState
  with_key r none s = s
  with_key r (some key) s = if str_eq key "" then s else with_pulled r key r.pulled s

  unfoldable pub reconcile_v2 : Round → NodeState → NodeState
  unfolding get_cache parse_config_v2 apply_config after_apply
  reconcile_v2 r s = with_key r r.private_key s

  unfoldable pub run : List Round → NodeState → NodeState
  unfolding reconcile_v2
  run [] s = s
  run (r ∷ rs) s = run rs (reconcile_v2 r s)

-- `_reconcile_v1`, for a daemon that has not enrolled; `none` is a pull that failed.
module _ (parse_config_ini : String → Option DesiredConfig) (machine : Machine) where
  abbrev pub apply_parsed : Option DesiredConfig → NodeState → NodeState
  apply_parsed none s = s
  apply_parsed (some config) s = apply_config machine config s

  abbrev pub is_none : Option String → Bool
  is_none none = true
  is_none (some x) = false

  abbrev pub from_cache : Option String → NodeState → NodeState
  from_cache none s = s
  from_cache (some cached) s =
      if truthy cached && is_none s.last_config
      then apply_parsed (parse_config_ini cached) (record s { last_config = some cached })
      else s

  unfoldable pub reconcile_v1 : Option String → (now : ℕ) → NodeState → NodeState
  unfolding get_cache update_cache apply_config
  reconcile_v1 none now s = from_cache (get_cache "last_config" s) s
  reconcile_v1 (some ini) now s =
      if str_eq ini ""
      then s
      else if same_text s.last_config ini
      then fetched now s
      else apply_parsed (parse_config_ini ini)
          (record (update_cache "last_config" ini s) { last_config = some ini })
