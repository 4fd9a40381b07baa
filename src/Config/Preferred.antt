-- ===== src/Config/Preferred.antt =====
-- Which endpoint a peer is given: the loop over the peers in `build_config_v2` of
-- backend/app/services/wireguard.py.
use midscale.Prelude.{
  String, Bool, true, false, Option, some, List, [], ◌∷◌, ◌≡◌, refl, ◌∙◌, arith, map, count,
  ==_refl,
}
use midscale.Prelude.Int.{ℤ}
use midscale.Prelude.Sort.{sorted, count-sorted}
use midscale.Endpoints.{DeviceEndpoint}
use midscale.Scoring.{first, outranks, select_best_endpoint, sort_endpoint_candidates}
use midscale.Topology.{PeerPlan, or_text, or_num}
use midscale.Config.Answer.{EndpointCandidate}
use midscale.Config.Build.{candidate, is_preferred, is_empty, chosen, peer_info}

abbrev pub is_chosen : EndpointCandidate → Bool
is_chosen c = c.preferred

count-candidates :
    (best : Option DeviceEndpoint) (eps : List DeviceEndpoint)
    → count is_chosen (map (candidate best) eps) ≡ count (is_preferred best) eps
count-candidates best [] = refl
count-candidates best (e ∷ es) = ground (arith, count-candidates best es)

chosen-rest :
    (best : DeviceEndpoint) (es : List DeviceEndpoint) (a : String) (b : ℤ)
    → count (is_preferred (some best)) es ≡ 0
    → chosen (some best) es (some a, some b) ≡ (some a, some b)
chosen-rest best [] a b h = refl
chosen-rest best (e ∷ es) a b h = ground (arith, chosen-rest best es a b)

chosen-first :
    (best : DeviceEndpoint) (ranked : List DeviceEndpoint) (at : Option String × Option ℤ)
    → first ranked ≡ some best
    → count (is_preferred (some best)) ranked ≡ 1
    → chosen (some best) ranked at ≡ (some best.endpoint, some best.port)
chosen-first best [] at e h = cc
chosen-first best (x ∷ xs) at e h =
    ground (arith, e, ==_refl best.id, chosen-rest best xs best.endpoint best.port)

not_empty :
    (eps : List DeviceEndpoint) (best : DeviceEndpoint)
    → select_best_endpoint eps ≡ some best
    → is_empty eps ≡ false
unfolding select_best_endpoint
not_empty [] best h = cc
not_empty (e ∷ es) best h = refl

-- In a mesh or hybrid network a peer with endpoints is given the address and the port of the row that
-- scoring selects, but the plan's for an address that is empty and the plan's for a port that is 0; it
-- is not to be relayed, and exactly one of its candidates is marked as preferred (the selected row
-- occurs once among the endpoints, since its id is a primary key).
pub peer_info-preferred :
    (relay_endpoint : String) (pp : PeerPlan) (eps : List DeviceEndpoint) (best : DeviceEndpoint)
    → select_best_endpoint eps ≡ some best
    → count (is_preferred (some best)) eps ≡ 1
    → let p = peer_info relay_endpoint true pp eps in
      (p.endpoint ≡ or_text (some best.endpoint) pp.endpoint)
      × (p.endpoint_port ≡ or_num (some best.port) pp.endpoint_port)
      × (p.relay_required ≡ false)
      × (count is_chosen p.endpoint_candidates ≡ 1)
unfolding peer_info select_best_endpoint sort_endpoint_candidates
peer_info-preferred relay_endpoint pp eps best h once =
    let at =
      chosen-first best (sorted outranks eps) (pp.endpoint, pp.endpoint_port) h
        (count-sorted outranks (is_preferred (some best)) eps ∙ once) in
    rw (h, not_empty eps best h, at)
      (
        refl,
        refl,
        refl,
        count-candidates (some best) (sorted outranks eps)
            ∙ count-sorted outranks (is_preferred (some best)) eps
            ∙ once,
      )
