-- ===== src/Node/Puncher.antt =====
-- The hole puncher of a node: midscaled/daemon/hole_puncher.py. What arrives while an attempt waits, and
-- whether the puncher is still running, are arguments, one step for each attempt; so are the text of a
-- number and the order that `random.shuffle` makes. Clocks are left out.
use Prim.Native.String.{◌++◌ as append}
use midscale.Prelude.{
  ℕ, zero, suc, String, Bool, true, false, Option, none, some, List, [], ◌∷◌, ◌++◌, ◌≡◌, map, keep,
  str_eq, leb, if◌then◌else◌,
}
use midscale.Prelude.Dict.{Dict, get, put, pop}
use midscale.Prelude.Texts.{last_code}

-- What the code relies on of a number's text: it ends with a digit.
pub record NumberText : Type 0 where
  pub str : ℕ → String
  pub last_digit : (n d : ℕ) → leb 48 (last_code d (str n)) ≡ true

pub record Candidate : Type 0 where
  pub side : Option String
  pub endpoint : Option String
  pub port : Option ℕ

pub record CandidatePair : Type 0 where
  pub local_endpoint : String
  pub local_port : ℕ
  pub remote_endpoint : String
  pub remote_port : ℕ
  pub pair_key : String

-- The session, with the callbacks that have been called.
pub record PunchSession : Type 0 where
  pub attempts : List Bool
  pub state : String
  pub result_endpoint : Option String
  pub result_port : Option ℕ
  pub called : List String

-- A datagram: whether it starts with `_PUNCH_MAGIC`, and its sender.
pub record Datagram : Type 0 where
  pub is_punch : Bool
  pub ip : String
  pub port : ℕ

pub record Step : Type 0 where
  pub running : Bool
  pub arrivals : List Datagram

-- The futures that wait, by key, and whether each is done.
abbrev pub Expected : Type 0
Expected = Dict Bool

unfoldable pub expect_response : String → Expected → Expected
expect_response key e = put (some key) false e

unfoldable pub forget_response : String → Expected → Expected
forget_response key e = pop (some key) e

abbrev pub set_done : String → Option Bool → Expected → Expected
set_done key (some false) e = put (some key) true e
set_done key _ e = e

unfoldable pub deliver_response : String → Expected → Expected
deliver_response key e = set_done key (get (some key) e) e

abbrev pub is_done : Option Bool → Bool
is_done (some true) = true
is_done _ = false

abbrev pub with_default {ℓ} : {A : Type ℓ} → Option A → A → A
with_default none d = d
with_default (some a) d = a

abbrev pub is_empty {ℓ} : {A : Type ℓ} → List A → Bool
is_empty [] = true
is_empty (x ∷ xs) = false

abbrev pub on_side : String → Candidate → Bool
on_side side c = str_eq (with_default c.side "") side

module _ (lib : NumberText) (bind_port : ℕ) where
  open lib use {str}

  -- f"{local_endpoint}:{local_port}->{remote_endpoint}:{remote_port}"
  abbrev pub key_of : String → ℕ → String → ℕ → String
  key_of l p r q =
      append l (append ":" (append (str p) (append "->" (append r (append ":" (str q))))))

  abbrev pub pair_of : String → ℕ → String → ℕ → CandidatePair
  pair_of l p r q = record {
    local_endpoint = l;
    local_port = p;
    remote_endpoint = r;
    remote_port = q;
    pair_key = key_of l p r q;
  }

  abbrev pub pair : Candidate → Candidate → CandidatePair
  pair ic tc =
      pair_of (with_default ic.endpoint "127.0.0.1") (with_default ic.port bind_port)
        (with_default tc.endpoint "") (with_default tc.port bind_port)

  abbrev pub pairs_of : List Candidate → List Candidate → List CandidatePair
  pairs_of [] tcs = []
  pairs_of (ic ∷ ics) tcs = map (pair ic) tcs ++ pairs_of ics tcs

  abbrev pub or_default : List CandidatePair → List CandidatePair
  or_default [] = pair_of "127.0.0.1" bind_port "127.0.0.1" bind_port ∷ []
  or_default (p ∷ ps) = p ∷ ps

  unfoldable pub build_candidate_pairs :
      (shuffle : List CandidatePair → List CandidatePair) → List Candidate → List CandidatePair
  build_candidate_pairs shuffle candidates =
      let ics = keep (on_side "initiator") candidates in
      let tcs = keep (on_side "target") candidates in
      shuffle (
        or_default (
          if is_empty ics
          then pairs_of candidates candidates
          else if is_empty tcs
          then pairs_of candidates candidates
          else pairs_of ics tcs))

  -- f"{addr[0]}:{addr[1]}->..."
  abbrev pub addr_key : Datagram → String
  addr_key d = append d.ip (append ":" (append (str d.port) "->..."))

  abbrev pub handle_datagram : Datagram → Expected → Expected
  handle_datagram d e = if d.is_punch then deliver_response (addr_key d) e else e

  unfoldable pub datagram_received : Datagram → Expected → Expected
  unfolding deliver_response
  datagram_received d e =
      handle_datagram d (if d.is_punch then deliver_response (addr_key d) e else e)

  abbrev pub received : List Datagram → Expected → Expected
  received [] e = e
  received (d ∷ ds) e = received ds (datagram_received d e)

  -- Whether the attempt succeeds, and the futures afterwards.
  unfoldable pub attempt_pair :
      (has_transport : Bool) → CandidatePair → List Datagram → Expected → Bool × Expected
  unfolding expect_response forget_response datagram_received
  attempt_pair has_transport p arrivals e =
      if has_transport
      then (let e' = received arrivals (expect_response p.pair_key e) in
          (is_done (get (some p.pair_key) e'), forget_response p.pair_key e'))
      else (false, e)

  -- How the loop over the candidates ends.
  pub data Flow : Type 0 where
    stopped connected exhausted : PunchSession → List Step → Expected → Flow

  -- A step that is missing finds the puncher running and nothing arriving.
  abbrev pub next_step : List Step → Step × List Step
  next_step [] = (record { running = true; arrivals = [] }, [])
  next_step (s ∷ ss) = (s, ss)

  abbrev pub attempted : Bool → PunchSession → PunchSession
  attempted b session = record session { attempts = session.attempts ++ b ∷ [] }

  abbrev pub connect : CandidatePair → PunchSession → PunchSession
  connect p session = record session {
    state = "connected";
    result_endpoint = some p.remote_endpoint;
    result_port = some p.remote_port;
    called = session.called ++ "on_success" ∷ [];
  }

  -- One round of the loop, of whether the puncher runs and the attempt succeeds; `rest` is the loop's
  -- remainder.
  abbrev pub flow :
      (running success : Bool)
      → CandidatePair
      → PunchSession
      → List Step
      → (before after : Expected) → (rest : Flow) → Flow
  flow false success p session later e e' rest = stopped session later e
  flow true true p session later e e' rest = connected (connect p (attempted true session)) later e'
  flow true false p session later e e' rest = rest

  unfoldable pub try_pairs :
      (has_transport : Bool) → List CandidatePair → PunchSession → List Step → Expected → Flow
  unfolding attempt_pair
  try_pairs has_transport [] session steps e = exhausted session steps e
  try_pairs has_transport (p ∷ ps) session steps e =
      let (step, later) = next_step steps in
      let (success, e') = attempt_pair has_transport p step.arrivals e in
      let rest = try_pairs has_transport ps (attempted false session) later e' in
      flow step.running success p session later e e' rest

  abbrev pub fail : PunchSession → PunchSession
  fail session = record session {
    state = "failed";
    called = session.called ++ "on_failure" ∷ "on_relay_fallback" ∷ [];
  }

  -- The retries that are left.
  unfoldable pub execute_punch :
      ℕ
      → (has_transport : Bool) → List CandidatePair
      → PunchSession
      → List Step
      → Expected
      → PunchSession
  unfolding try_pairs
  execute_punch zero has_transport pairs session steps e = fail session
  execute_punch (suc retries) has_transport pairs session steps e =
      elim (try_pairs has_transport pairs session steps e) [
        | stopped s later e' ↦ s
        | connected s later e' ↦ s
        | exhausted s later e' ↦ execute_punch retries has_transport pairs s later e'
      ]
