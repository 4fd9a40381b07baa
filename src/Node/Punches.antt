-- ===== src/Node/Punches.antt =====
-- How every punch ends: midscaled/daemon/hole_puncher.py.
use midscale.Prelude.{
  ℕ, zero, suc, Bool, true, false, not, some, List, [], ◌∷◌, ◌++◌, ◌≡◌, refl, ◌∙◌, arith, all, map,
  keep, str_eq, if◌then◌else◌, all-append,
}
use text.Mathlib.TextPositions.{eq_refl}
use midscale.Prelude.Dict.{get, put, get-put}
use midscale.Node.Puncher.{
  NumberText, CandidatePair, PunchSession, Datagram, Step, Expected, expect_response, key_of,
  addr_key, attempt_pair, Flow, stopped, connected, exhausted, next_step, attempted, try_pairs,
  execute_punch, flow, Candidate, pair, pairs_of, or_default, build_candidate_pairs, on_side,
  is_empty,
}
use midscale.Node.Replies.{other_key, received-other}

module _ (lib : NumberText) (bind_port : ℕ) where
  -- A pair whose key is the one that its constructor makes.
  abbrev pub IsKeyed : List CandidatePair → Type 0
  IsKeyed [] = Unit
  IsKeyed (p ∷ ps) =
      (p.pair_key
        ≡ key_of lib bind_port p.local_endpoint p.local_port p.remote_endpoint p.remote_port)
      × IsKeyed ps

  attempt-fails :
      (has_transport : Bool) (p : CandidatePair) (ds : List Datagram) (e : Expected)
      → p.pair_key
        ≡ key_of lib bind_port p.local_endpoint p.local_port p.remote_endpoint p.remote_port
      → (attempt_pair lib bind_port has_transport p ds e).0 ≡ false
  unfolding attempt_pair expect_response
  attempt-fails false p ds e k = refl
  attempt-fails true p ds e k =
      let foreign : (d : Datagram) → str_eq (addr_key lib bind_port d) p.pair_key ≡ false = λ d.
        rw k (
          other_key lib bind_port d p.local_endpoint p.local_port p.remote_endpoint
            p.remote_port) in
      let waits : get (some p.pair_key) (put (some p.pair_key) false e) ≡ some false =
        get-put (some p.pair_key) (some p.pair_key) false e ∙ rw (eq_refl p.pair_key) refl in
      rw
        (received-other lib bind_port p.pair_key foreign ds (put (some p.pair_key) false e) ∙ waits)
        refl

  -- Nothing has succeeded so far.
  abbrev pub Unconnected : PunchSession → Type 0
  Unconnected s = (str_eq s.state "connected" ≡ false) × (all not s.attempts ≡ true)

  abbrev UnconnectedFlow : Flow lib bind_port → Type 0
  UnconnectedFlow (stopped s later e) = Unconnected s
  UnconnectedFlow (connected s later e) = ⊥
  UnconnectedFlow (exhausted s later e) = Unconnected s

  attempted-Unconnected :
      (s : PunchSession) → Unconnected s → Unconnected (attempted lib bind_port false s)
  attempted-Unconnected s u = (u.0, ground (arith, all-append not s.attempts (false ∷ []), u.1))

  flow-Unconnected :
      (running success : Bool) (p : CandidatePair) (s : PunchSession) (later : List Step)
      (e e' : Expected) (rest : Flow lib bind_port)
      → success ≡ false
      → Unconnected s
      → UnconnectedFlow rest
      → UnconnectedFlow (flow lib bind_port running success p s later e e' rest)
  flow-Unconnected false success p s later e e' rest h u r = u
  flow-Unconnected true true p s later e e' rest h u r = cc
  flow-Unconnected true false p s later e e' rest h u r = r

  try_pairs-Unconnected :
      (has_transport : Bool) (ps : List CandidatePair) (s : PunchSession) (steps : List Step)
      (e : Expected)
      → IsKeyed ps
      → Unconnected s
      → UnconnectedFlow (try_pairs lib bind_port has_transport ps s steps e)
  unfolding try_pairs
  try_pairs-Unconnected has_transport [] s steps e k u = u
  try_pairs-Unconnected has_transport (p ∷ ps) s steps e k u =
      let step = (next_step lib bind_port steps).0 in
      let tried = attempt_pair lib bind_port has_transport p step.arrivals e in
      flow-Unconnected step.running tried.0 p s (next_step lib bind_port steps).1 e tried.1 _
        (attempt-fails has_transport p step.arrivals e k.0) u
        (try_pairs-Unconnected has_transport ps (attempted lib bind_port false s)
          (next_step lib bind_port steps).1 tried.1 k.1 (attempted-Unconnected s u))

  resume-Unconnected :
      (retries : ℕ) (has_transport : Bool) (ps : List CandidatePair) (f : Flow lib bind_port)
      → ((s : PunchSession) (steps : List Step) (e : Expected)
          → Unconnected s
          → Unconnected (execute_punch lib bind_port retries has_transport ps s steps e))
      → UnconnectedFlow f
      → Unconnected (elim f [
        | stopped s later e' ↦ s
        | connected s later e' ↦ s
        | exhausted s later e' ↦ execute_punch lib bind_port retries has_transport ps s later e'
      ])
  resume-Unconnected retries has_transport ps (stopped s later e') go u = u
  resume-Unconnected retries has_transport ps (connected s later e') go u = absurd u
  resume-Unconnected retries has_transport ps (exhausted s later e') go u = go s later e' u

  execute_punch-Unconnected :
      (retries : ℕ) (has_transport : Bool) (ps : List CandidatePair) (s : PunchSession)
      (steps : List Step) (e : Expected)
      → IsKeyed ps
      → Unconnected s
      → Unconnected (execute_punch lib bind_port retries has_transport ps s steps e)
  unfolding execute_punch
  execute_punch-Unconnected zero has_transport ps s steps e k u = (refl, u.1)
  execute_punch-Unconnected (suc retries) has_transport ps s steps e k u =
      resume-Unconnected retries has_transport ps
        (try_pairs lib bind_port has_transport ps s steps e)
        (λ t later e' v. execute_punch-Unconnected retries has_transport ps t later e' k v)
        (try_pairs-Unconnected has_transport ps s steps e k u)

  pairs-IsKeyed :
      (ic : Candidate) (tcs : List Candidate) → IsKeyed (map (pair lib bind_port ic) tcs)
  pairs-IsKeyed ic [] = tt
  pairs-IsKeyed ic (tc ∷ tcs) = (refl, pairs-IsKeyed ic tcs)

  append-IsKeyed : (ps qs : List CandidatePair) → IsKeyed ps → IsKeyed qs → IsKeyed (ps ++ qs)
  append-IsKeyed [] qs h k = k
  append-IsKeyed (p ∷ ps) qs h k = (h.0, append-IsKeyed ps qs h.1 k)

  pairs_of-IsKeyed : (ics tcs : List Candidate) → IsKeyed (pairs_of lib bind_port ics tcs)
  pairs_of-IsKeyed [] tcs = tt
  pairs_of-IsKeyed (ic ∷ ics) tcs =
      append-IsKeyed (map (pair lib bind_port ic) tcs) (pairs_of lib bind_port ics tcs)
        (pairs-IsKeyed ic tcs) (pairs_of-IsKeyed ics tcs)

  or_default-IsKeyed :
      (ps : List CandidatePair) → IsKeyed ps → IsKeyed (or_default lib bind_port ps)
  or_default-IsKeyed [] h = (refl, tt)
  or_default-IsKeyed (p ∷ ps) h = h

  chosen-IsKeyed :
      (b : Bool) (ps qs : List CandidatePair)
      → IsKeyed ps
      → IsKeyed qs
      → IsKeyed (if b then ps else qs)
  chosen-IsKeyed true ps qs h k = h
  chosen-IsKeyed false ps qs h k = k

  -- No punch ever connects: whatever the candidates, the number of retries and the datagrams that
  -- arrive, and however long the puncher runs, no attempt on the pairs that it builds succeeds and
  -- the session does not become connected, where a shuffle, as a reordering does, leaves each pair
  -- with the key that its constructor makes. The key under which a reply is looked up ends in
  -- "->...", which the key of no pair does.
  pub punch-never_connects :
      (shuffle : List CandidatePair → List CandidatePair)
      → ((ps : List CandidatePair) → IsKeyed ps → IsKeyed (shuffle ps))
      → (candidates : List Candidate) (retries : ℕ) (has_transport : Bool) (s : PunchSession)
        (steps : List Step) (e : Expected)
      → Unconnected s
      → Unconnected (
          execute_punch lib bind_port retries has_transport
            (build_candidate_pairs lib bind_port shuffle candidates)
            s
            steps
            e)
  unfolding build_candidate_pairs
  punch-never_connects shuffle keeps candidates retries has_transport s steps e u =
      let ics = keep (on_side "initiator") candidates in
      let tcs = keep (on_side "target") candidates in
      let everyone = pairs_of lib bind_port candidates candidates in
      execute_punch-Unconnected retries has_transport _ s steps e
        (keeps _ (
          or_default-IsKeyed _ (
            chosen-IsKeyed (is_empty ics) everyone _ (pairs_of-IsKeyed candidates candidates) (
              chosen-IsKeyed (is_empty tcs) everyone (pairs_of lib bind_port ics tcs)
                (pairs_of-IsKeyed candidates candidates) (pairs_of-IsKeyed ics tcs)))))
        u
