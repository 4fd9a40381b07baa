-- ===== src/WsManager/Tests.antt =====
-- A daemon and an observer, and the theorems about them: backend/app/services/ws_manager.py.
use midscale.Prelude.{ℕ, ◌≤◌, Bool, not, [], ◌≡◌, refl, arith, ◌==◌, if◌then◌else◌}
use midscale.WsManager.{Manager, connect, connect_daemon, broadcast}
use midscale.WsManager.Tidy.{
  IsTidy, times, owned, here, next, join, join_daemon, Reach-IsTidy, broadcast_lem,
}

abbrev empty : Manager
empty = record { connections = []; daemon_connections = [] }

empty-IsTidy : IsTidy empty
empty-IsTidy = record { once = λ c. omega arith; known = λ c. omega arith }

abbrev busy : Manager
busy = connect_daemon 2 "dev" (connect 1 empty)

fresh : times 2 (connect 1 empty).connections ≡ 0
unfolding connect
fresh = refl

Reach-IsTidy_example : IsTidy busy
Reach-IsTidy_example =
    Reach-IsTidy (next (next here (join 1)) (join_daemon 2 "dev" fresh)) empty-IsTidy

-- Socket 2 is dead.
abbrev alive : ℕ → Bool
alive c = not (c == 2)

broadcast_lem_example :
    let (sent, m') = broadcast alive busy in
    (times 2 m'.connections ≡ times 2 sent)
    × (owned 2 m'.daemon_connections ≤ (if alive 2 then 1 else 0))
broadcast_lem_example =
    broadcast_lem alive busy 2
      (Reach-IsTidy (next (next here (join 1)) (join_daemon 2 "dev" fresh)) empty-IsTidy)
