-- ===== src/Node/Rounds.antt =====
-- Rounds that meet the same configuration: `_reconcile_v2` of midscaled/daemon/reconciler.py.
use midscale.Prelude.{String, Bool, true, Option, none, some, ◌+◌, ◌⊎◌, ◌≡◌, str_eq}
use midscale.Config.Answer.{DeviceConfigV2Response}
use midscale.WgRuntime as WgRuntime
use midscale.WgRuntime.{DesiredConfig, Machine}
use midscale.WgRuntime.Broken.{IsWhole, IsBroken}
use midscale.Node.{NodeState, Round, get_cache}

abbrev pub hash_is : String → Option DeviceConfigV2Response → Bool
hash_is h none = true
hash_is h (some c) = str_eq c.hash h

-- A round in which the server answers the configuration with this hash, or does not answer.
abbrev pub serves : String → Round → Bool
serves h r = hash_is h r.pulled

-- The commands, the number of applications and the cached hash.
abbrev Same : NodeState → NodeState → Type 0
Same s s' =
    (s'.commands ≡ s.commands)
    × (s'.reconfigure_count ≡ s.reconfigure_count)
    × (get_cache "last_config_hash" s' ≡ get_cache "last_config_hash" s)

-- What an attempt leaves: one application more and all its commands, or none and a log that ends with
-- what raised.
abbrev Counted : Machine → DesiredConfig → NodeState → NodeState → Type 0
Counted m config s t =
    ((t.reconfigure_count ≡ s.reconfigure_count + 1) × IsWhole m config t.commands)
    ⊎ ((t.reconfigure_count ≡ s.reconfigure_count) × IsBroken m t.commands)
