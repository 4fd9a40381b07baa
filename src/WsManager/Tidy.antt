-- ===== src/WsManager/Tidy.antt =====
-- The sockets that devices are registered with: backend/app/services/ws_manager.py.
use midscale.Prelude.{
  ℕ, ◌+◌, ◌-◌, ◌≤◌, String, Bool, true, false, not, some, List, [], ◌∷◌, ◌≡◌, refl, ◌∙◌, arith, inl,
  inr, keep, any, count, count-append, ◌==◌, ==_iff, ◌&&◌, if◌then◌else◌, Option-cases, Bool-cases,
}
use midscale.Prelude.Dict.{Key, Dict, get, put, pop, keep_items}
use midscale.WsManager.{
  Manager, add, discard, connect, connect_daemon, drop_first, disconnect, disconnect_all, broadcast,
  send_to_device,
}

-- How often a socket is registered for a device, and how often it is among the connections.
abbrev pub owned : ℕ → Dict ℕ → ℕ
owned c d = count (λ (e : Key × ℕ). e.1 == c) d

abbrev pub times : ℕ → List ℕ → ℕ
times c cs = count (λ x. x == c) cs

-- A socket is a connection at most once, and is registered for at most one device, and for none if it
-- is no connection.
pub record IsTidy (m : Manager) : Type 0 where
  pub once : (c : ℕ) → times c m.connections ≤ 1
  pub known : (c : ℕ) → owned c m.daemon_connections ≤ times c m.connections

times-any : (c : ℕ) (cs : List ℕ) → any (λ x. x == c) cs ≡ false → times c cs ≡ 0
times-any c [] h = refl
times-any c (x ∷ cs) h = ground (arith, times-any c cs)

any-times : (c : ℕ) (cs : List ℕ) → any (λ x. x == c) cs ≡ true → 1 ≤ times c cs
any-times c [] h = cc
any-times c (x ∷ cs) h = ground (arith, any-times c cs)

times-discard :
    (c j : ℕ) (cs : List ℕ) → times j (discard c cs) ≡ (if c == j then 0 else times j cs)
times-discard c j [] = ground arith
times-discard c j (x ∷ cs) = ground (arith, times-discard c j cs)

owned-put :
    (k : Key) (c j : ℕ) (d : Dict ℕ) → owned j (put k c d) ≤ owned j d + (if c == j then 1 else 0)
unfolding put
owned-put k c j [] = ground arith
owned-put k c j ((i, v) ∷ d) = ground (arith, owned-put k c j d)

owned-drop_first :
    (c j : ℕ) (d : Dict ℕ)
    → (owned j (drop_first c d) ≤ owned j d) × (owned c (drop_first c d) ≤ owned c d - 1)
owned-drop_first c j [] = ground arith
owned-drop_first c j ((k, v) ∷ d) = ground (arith, owned-drop_first c j d)

owned-pop : (k : Key) (j : ℕ) (d : Dict ℕ) → owned j (pop k d) ≤ owned j d
unfolding pop keep_items
owned-pop k j [] = omega arith
owned-pop k j ((i, v) ∷ d) = ground (arith, owned-pop k j d)

owned-pop-found :
    (k : Key) (c : ℕ) (d : Dict ℕ) → get k d ≡ some c → owned c (pop k d) + 1 ≤ owned c d
unfolding get pop keep_items
owned-pop-found k c [] h = cc
owned-pop-found k c ((i, v) ∷ d) h = ground (arith, owned-pop-found k c d, owned-pop k c d)

times-add :
    (c j : ℕ) (cs : List ℕ)
    → times c cs ≤ 1
    → (times j (add c cs) ≡ (if c == j then 1 else times j cs))
times-add c j cs once = elim (Bool-cases (any (λ x. x == c) cs)) [
  | inl e ↦ ground (arith, e, any-times c cs, ==_iff c j)
  | inr e ↦ ground (arith, e, count-append (λ x. x == j) cs (c ∷ []), times-any c cs, ==_iff c j)
]

connect-IsTidy : (c : ℕ) (m : Manager) → IsTidy m → IsTidy (connect c m)
unfolding connect
connect-IsTidy c m h = record {
  once = λ j. ground (arith, times-add c j m.connections, h.once c, h.once j);
  known = λ j. ground (arith, times-add c j m.connections, h.once c, h.known j, h.once j);
}

connect_daemon-IsTidy :
    (c : ℕ) (d : String) (m : Manager)
    → times c m.connections ≡ 0
    → IsTidy m
    → IsTidy (connect_daemon c d m)
unfolding connect_daemon
connect_daemon-IsTidy c d m fresh h = record {
  once = λ j. ground (arith, times-add c j m.connections, h.once c, h.once j);
  known = λ j. ground (
    arith,
    times-add c j m.connections,
    h.once c,
    h.known j,
    h.known c,
    owned-put (some d) c j m.daemon_connections,
    ==_iff c j,
  );
}

disconnect-IsTidy : (c : ℕ) (m : Manager) → IsTidy m → IsTidy (disconnect c m)
unfolding disconnect
disconnect-IsTidy c m h = record {
  once = λ j. ground (arith, times-discard c j m.connections, h.once j);
  known = λ j. ground (
    arith,
    times-discard c j m.connections,
    owned-drop_first c j m.daemon_connections,
    h.known j,
    h.once j,
    ==_iff c j,
  );
}

disconnect_all-IsTidy : (cs : List ℕ) (m : Manager) → IsTidy m → IsTidy (disconnect_all cs m)
disconnect_all-IsTidy [] m h = h
disconnect_all-IsTidy (c ∷ cs) m h =
    disconnect_all-IsTidy cs (disconnect c m) (disconnect-IsTidy c m h)

send-IsTidy :
    (alive : ℕ → Bool) (d : String) (m : Manager) → IsTidy m → IsTidy (send_to_device alive d m).1
unfolding send_to_device
send-IsTidy alive d m h = elim (Option-cases (get (some d) m.daemon_connections)) [
  | inl e ↦ rw (e, send_to_device) h
  | inr (c, e) ↦ elim (Bool-cases (alive c)) [
    | inl a ↦ rw (e, send_to_device, a) h
    | inr a ↦
        rw (e, send_to_device, a)
          (record {
            once = λ j. ground (arith, times-discard c j m.connections, h.once j);
            known = λ j. ground (
              arith,
              times-discard c j m.connections,
              owned-pop (some d) j m.daemon_connections,
              owned-pop-found (some d) c m.daemon_connections e,
              h.known j,
              h.once j,
              ==_iff c j,
            );
          })
  ]
]

-- What can happen to the manager; a daemon's socket is new when it connects.
pub data Step (m : Manager) : Manager → Type 0 where
  join : (c : ℕ) → Step m (connect c m)
  join_daemon : (c : ℕ) (d : String) → times c m.connections ≡ 0 → Step m (connect_daemon c d m)
  leave : (c : ℕ) → Step m (disconnect c m)
  announce : (alive : ℕ → Bool) → Step m (broadcast alive m).1
  send : (alive : ℕ → Bool) (d : String) → Step m (send_to_device alive d m).1

pub data Reach (m : Manager) : Manager → Type 0 where
  here : Reach m m
  next : {u v : Manager} → Reach m u → Step u v → Reach m v

Step-IsTidy : {m v : Manager} → Step m v → IsTidy m → IsTidy v
unfolding broadcast
Step-IsTidy {m = m} (join c) h = connect-IsTidy c m h
Step-IsTidy {m = m} (join_daemon c d fresh) h = connect_daemon-IsTidy c d m fresh h
Step-IsTidy {m = m} (leave c) h = disconnect-IsTidy c m h
Step-IsTidy {m = m} (announce alive) h =
    disconnect_all-IsTidy (keep (λ c. not (alive c)) m.connections) m h
Step-IsTidy {m = m} (send alive d) h = send-IsTidy alive d m h

-- From a manager on which each socket is a connection at most once and is registered for at most one
-- device, and for none if it is no connection (such as the empty one), every manager that connections,
-- disconnections, broadcasts and sends lead to is such a one, where a daemon connects by a socket that
-- is no connection yet.
pub Reach-IsTidy : {m v : Manager} → Reach m v → IsTidy m → IsTidy v
Reach-IsTidy here h = h
Reach-IsTidy (next r st) h = Step-IsTidy st (Reach-IsTidy r h)

times-disconnect_all :
    (j : ℕ) (cs : List ℕ) (m : Manager)
    → times j (disconnect_all cs m).connections
      ≡ (if any (λ c. c == j) cs then 0 else times j m.connections)
unfolding disconnect
times-disconnect_all j [] m = refl
times-disconnect_all j (c ∷ cs) m =
    times-disconnect_all j cs (disconnect c m) ∙ ground (arith, times-discard c j m.connections)

module _ (alive : ℕ → Bool) (j : ℕ) where
  any-dead :
      (cs : List ℕ)
      → any (λ c. c == j) (keep (λ c. not (alive c)) cs) ≡ (not (alive j) && any (λ c. c == j) cs)
  any-dead [] = ground arith
  any-dead (c ∷ cs) = ground (arith, any-dead cs, ==_iff c j)

  times-alive : (cs : List ℕ) → times j (keep alive cs) ≡ (if alive j then times j cs else 0)
  times-alive [] = ground arith
  times-alive (c ∷ cs) = ground (arith, times-alive cs, ==_iff c j)

-- On a manager on which each socket is a connection at most once and is registered for at most one
-- device, and for none if it is no connection, a broadcast leaves as connections exactly the sockets
-- that got the message, and no device keeps a socket that is dead.
pub broadcast_lem :
    (alive : ℕ → Bool) (m : Manager) (j : ℕ)
    → IsTidy m
    → let (sent, m') = broadcast alive m in
      (times j m'.connections ≡ times j sent)
      × (owned j m'.daemon_connections ≤ (if alive j then 1 else 0))
unfolding broadcast
broadcast_lem alive m j h =
    let dead = keep (λ c. not (alive c)) m.connections in
    let tidy = disconnect_all-IsTidy dead m h in
    let left = times-disconnect_all j dead m in
    (
      ground (
        arith,
        left,
        any-dead alive j m.connections,
        times-alive alive j m.connections,
        times-any j m.connections,
      ),
      ground (
        arith,
        left,
        tidy.known j,
        tidy.once j,
        any-dead alive j m.connections,
        times-any j m.connections,
      ),
    )
