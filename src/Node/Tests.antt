-- ===== src/Node/Tests.antt =====
-- Rounds of a node and a punch, and the theorems about them at concrete answers.
use midscale.Prelude.{ℕ, String, Bool, true, false, not, none, some, List, [], ◌∷◌, ◌≡◌, refl, leb}
use midscale.Prelude.Texts.{last_code}
use midscale.Config.Answer.{ConfigData, DeviceConfigV2Response}
use midscale.WgRuntime.{
  Command, Machine, show, addr_add, link_up, set_interface, show_dump, remove_peer,
}
use midscale.Node.{NodeState, Round, parse_config_v2, reconcile_v1, run}
use midscale.Node.Puncher.{
  NumberText, Candidate, PunchSession, Step, build_candidate_pairs, execute_punch,
}
use midscale.Node.Punches.{Unconnected, punch-never_connects}

abbrev start : NodeState
start = record {
  cache = [];
  last_config = none;
  reconfigure_count = 0;
  error_count = 0;
  last_config_fetch = none;
  last_config_hash = none;
  last_config_revision = none;
  targets = [];
  relay_tasks = [];
  commands = [];
}

abbrev answer : DeviceConfigV2Response
answer = record {
  config = record {
    interface = record { address = "10.0.0.2/24"; dns = none };
    peers = [];
    routes = [];
    exit_node = none;
  };
  revision = 100;
  hash = "h1";
}

-- A machine on which the commands run, or on which setting the interface raises.
abbrev machine : Bool → Machine
machine works = record {
  raises = λ log c. elim c [ set_interface key port ↦ not works | _ ↦ false ];
  generated = λ log. none;
  dumped = λ log. "old" ∷ [];
}

abbrev round : Bool → Round
round works = record {
  private_key = some "sk";
  pulled = some answer;
  machine = machine works;
  relay_connected = false;
  has_prober = true;
  now = 7;
}

abbrev dumps : ConfigData → String
dumps c = "json"

parsed : (parse_config_v2 answer.config "sk").subnet ≡ "0.0.0.0/24"
unfolding parse_config_v2
parsed = refl

-- The commands of a round in which everything runs: the peer that is not desired goes.
abbrev applied_commands : List Command
applied_commands =
    show
    ∷ addr_add "10.0.0.2" "24"
    ∷ link_up
    ∷ set_interface "sk" 51820
    ∷ show_dump
    ∷ remove_peer "old"
    ∷ []

applied : (run dumps (round true ∷ round true ∷ []) start).commands ≡ applied_commands
unfolding run
applied = refl

-- A command raises once: the rounds that follow do not try again.
abbrev broken_commands : List Command
broken_commands = show ∷ addr_add "10.0.0.2" "24" ∷ link_up ∷ set_interface "sk" 51820 ∷ []

never_applied :
    (run dumps (round false ∷ round true ∷ round true ∷ []) start).commands ≡ broken_commands
unfolding run
never_applied = refl

-- A daemon that has not enrolled applies its cached text when the server does not answer.
uncached : (reconcile_v1 (λ s. none) (machine true) none 7 start).last_config ≡ none
unfolding reconcile_v1
uncached = refl

ends_in_digit : (n d : ℕ) → leb 48 (last_code d "0") ≡ true
unfolding last_code
ends_in_digit n d = refl

digit : NumberText
digit = record { str = λ n. "0"; last_digit = ends_in_digit }

abbrev candidate : String → String → Candidate
candidate side ip = record { side = some side; endpoint = some ip; port = some 51820 }

abbrev candidates : List Candidate
candidates = candidate "initiator" "10.0.0.2" ∷ candidate "target" "203.0.113.2" ∷ []

abbrev session : PunchSession
session = record {
  attempts = [];
  state = "punching";
  result_endpoint = none;
  result_port = none;
  called = [];
}

-- The peer answers each attempt from the address that was punched.
abbrev replies : List Step
replies =
    record {
      running = true;
      arrivals = record { is_punch = true; ip = "203.0.113.2"; port = 51820 } ∷ [];
    }
    ∷ []

punch-never_connects_example : Unconnected digit 51820 (
    execute_punch digit 51820 3 true
      (build_candidate_pairs digit 51820 (λ ps. ps) candidates)
      session
      replies
      [])
punch-never_connects_example =
    punch-never_connects digit 51820 (λ ps. ps) (λ ps k. k) candidates 3 true session replies []
      (refl, refl)
