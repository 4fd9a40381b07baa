-- ===== src/WsManager.antt =====
-- The registry of WebSockets: `WebSocketConnectionManager` of backend/app/services/ws_manager.py. A
-- socket is a number. Each method runs under the manager's lock. Whether a send succeeds is an
-- argument: `alive` says it for each socket.
pub mod Tidy
mod Tests
use midscale.Prelude.{
  ℕ, String, Bool, true, false, not, Option, none, some, List, [], ◌∷◌, ◌++◌, keep, any, ◌==◌,
  if◌then◌else◌,
}
use midscale.Prelude.Dict.{Dict, get, put, pop}

-- The set `_connections` as a list without repetitions, and `_daemon_connections`.
pub record Manager : Type 0 where
  pub connections : List ℕ
  pub daemon_connections : Dict ℕ

abbrev pub add : ℕ → List ℕ → List ℕ
add c cs = if any (λ x. x == c) cs then cs else cs ++ c ∷ []

abbrev pub discard : ℕ → List ℕ → List ℕ
discard c cs = keep (λ x. not (x == c)) cs

unfoldable pub connect : ℕ → Manager → Manager
connect c m = record m { connections = add c m.connections }

unfoldable pub connect_daemon : (websocket : ℕ) (device_id : String) → Manager → Manager
connect_daemon c d m = record m {
  connections = add c m.connections;
  daemon_connections = put (some d) c m.daemon_connections;
}

-- The loop that deletes the first entry of a socket and breaks.
abbrev pub drop_first : ℕ → Dict ℕ → Dict ℕ
drop_first c [] = []
drop_first c ((k, v) ∷ d) = let rest = drop_first c d in if v == c then d else (k, v) ∷ rest

unfoldable pub disconnect : ℕ → Manager → Manager
disconnect c m = record m {
  connections = discard c m.connections;
  daemon_connections = drop_first c m.daemon_connections;
}

abbrev pub disconnect_all : List ℕ → Manager → Manager
disconnect_all [] m = m
disconnect_all (c ∷ cs) m = disconnect_all cs (disconnect c m)

-- The sockets that got the message, and the manager without those that did not.
unfoldable pub broadcast : (alive : ℕ → Bool) → Manager → List ℕ × Manager
unfolding disconnect
broadcast alive m =
    (keep alive m.connections, disconnect_all (keep (λ c. not (alive c)) m.connections) m)

unfoldable pub send_to_device : (alive : ℕ → Bool) (device_id : String) → Manager → Bool × Manager
send_to_device alive d m = elim (get (some d) m.daemon_connections) [
  | none ↦ (false, m)
  | some c ↦ if alive c then (true, m) else (
    false,
    record m {
      connections = discard c m.connections;
      daemon_connections = pop (some d) m.daemon_connections;
    },
  )
]
