-- ===== src/Daemon/Repeats.antt =====
-- Endpoints that are reported twice: backend/app/services/daemon.py.
use text.Mathlib.TextPositions.{eq_refl}
use mathlib.Core.Path.{subst}
use midscale.Prelude.{
  ℕ, String, false, Option, none, some, List, [], ◌∷◌, ◌++◌, ◌+◌, ◌≡◌, ◌≤◌, refl, ap, ◌∙◌, arith,
  keep, length, count, update_where, ◌==◌, ==_refl, count-append, count-update_first_same,
  length-keep-eq-count,
}
use midscale.Prelude.Int.{ℤ}
use midscale.Endpoints.{DeviceEndpoint}
use midscale.Api.{settle, Db, Reply, ok, error, crash, found, one_or_none, device_of}
use midscale.Api.Replies.{bind-answers, ok_inj}
use midscale.Daemon.{
  new_endpoint, process_heartbeat, report_endpoint, is_stale, stale_endpoint_cleanup, Probe,
  is_probed, probed, first_probe, write_probe, insertable, process_probe_result,
}
use midscale.Daemon.Reports.{Report, heartbeat, endpoint, probe, cleanup, handle, run}

two-crash : (es : List DeviceEndpoint) → 2 ≤ length es → one_or_none es ≡ crash
two-crash [] h = absurd (omega arith)
two-crash (e ∷ []) h = absurd (omega arith)
two-crash (e ∷ f ∷ es) h = refl

report-count :
    (p : Probe) (i : ℕ) (source : String) (port : ℤ) (l q : Option String) (priority : ℤ) (now : ℕ)
    (db db' : Db)
    → report_endpoint i p.peer_device_id p.endpoint source port l q priority now db ≡ ok db'
    → count (is_probed p) db'.endpoints ≡ count (is_probed p) db.endpoints + 1
unfolding report_endpoint
report-count p i source port l q priority now db db' h =
    let (d, _, h1) = bind-answers (found (device_of p.peer_device_id db) 404) _ h in
    let row = new_endpoint i p.peer_device_id p.endpoint source port l q priority now in
    subst (λ x. count (is_probed p) x.endpoints ≡ count (is_probed p) db.endpoints + 1)
      (ok_inj _ db' h1)
      (ground (
        arith,
        count-append (is_probed p) db.endpoints (row ∷ []),
        ==_refl p.peer_device_id,
        eq_refl p.endpoint,
      ))

-- The rows of an endpoint that a table has, at most as many as another has.
abbrev Grows : Probe → List DeviceEndpoint → List DeviceEndpoint → Type 0
Grows p eps eps' = count (is_probed p) eps ≤ count (is_probed p) eps'

append-Grows :
    (p : Probe) (eps : List DeviceEndpoint) (e : DeviceEndpoint) → Grows p eps (eps ++ e ∷ [])
append-Grows p eps e = omega (arith, count-append (is_probed p) eps (e ∷ []))

cleanup-Grows :
    (p : Probe) (age now : ℕ) (eps : List DeviceEndpoint)
    → Grows p eps (update_where (is_stale age now) (λ e. record e { is_active = false }) eps)
cleanup-Grows p age now [] = omega arith
cleanup-Grows p age now (e ∷ es) = ground (arith, cleanup-Grows p age now es)

write_probe-Grows :
    (p q : Probe) (i now : ℕ) (o : Option DeviceEndpoint) (eps : List DeviceEndpoint)
    → Grows p eps (write_probe q i now o eps).1
write_probe-Grows p q i now none eps = append-Grows p eps (first_probe q i now)
write_probe-Grows p q i now (some e) eps = omega (
  arith,
  count-update_first_same (is_probed p) (λ x. x.id == e.id) (probed q now) eps (λ x. refl),
)

handle-Grows :
    (p : Probe) (r : Report) (db db' : Db)
    → handle r db ≡ ok db'
    → Grows p db.endpoints db'.endpoints
unfolding handle process_heartbeat report_endpoint process_probe_result stale_endpoint_cleanup
handle-Grows p (heartbeat k key ip now) db db' h =
    let (d, _, h1) = bind-answers (found (device_of k db) 404) _ h in
    subst (λ x. Grows p db.endpoints x.endpoints) (ok_inj _ db' h1) (omega arith)
handle-Grows p (endpoint i k ep source port l q priority now) db db' h =
    let (d, _, h1) = bind-answers (found (device_of k db) 404) _ h in
    subst (λ x. Grows p db.endpoints x.endpoints) (ok_inj _ db' h1)
      (append-Grows p db.endpoints (new_endpoint i k ep source port l q priority now))
handle-Grows p (probe q i now) db db' h =
    let (r, g, h1) = bind-answers (process_probe_result q i now db) _ h in
    let (o, _, h2) = bind-answers (one_or_none (keep (is_probed q) db.endpoints)) _ g in
    let (_, _, h3) = bind-answers (insertable q o db) _ h2 in
    subst (λ x. Grows p db.endpoints x.endpoints) (ap (λ x. x.0) (ok_inj _ r h3) ∙ ok_inj _ db' h1)
      (write_probe-Grows p q i now o db.endpoints)
handle-Grows p (cleanup age now) db db' h =
    subst (λ x. Grows p db.endpoints x.endpoints) (ok_inj _ db' h)
      (cleanup-Grows p age now db.endpoints)

settle-Grows :
    (p : Probe) (db : Db) (m : Reply Db)
    → ((db' : Db) → m ≡ ok db' → Grows p db.endpoints db'.endpoints)
    → Grows p db.endpoints (settle db m).endpoints
settle-Grows p db (ok db') h = h db' refl
settle-Grows p db (error n) h = omega arith
settle-Grows p db crash h = omega arith

run-Grows : (p : Probe) (rs : List Report) (db : Db) → Grows p db.endpoints (run rs db).endpoints
unfolding run
run-Grows p [] db = omega arith
run-Grows p (r ∷ rs) db = omega (
  arith,
  settle-Grows p db (handle r db) (λ db' h. handle-Grows p r db db' h),
  run-Grows p rs (settle db (handle r db)),
)

-- A device that reports the same endpoint twice, with any requests in between, makes the results of
-- probing it unusable for good: the second report inserts a second row, and whatever requests follow,
-- at least two rows are left and each probe result for the endpoint raises.
pub report_twice-process_probe_result :
    (p : Probe) (i j n now again later : ℕ) (source source' : String) (port port' : ℤ)
    (l l' q q' : Option String) (priority priority' : ℤ) (between after : List Report)
    (db db1 db2 : Db)
    → report_endpoint i p.peer_device_id p.endpoint source port l q priority now db ≡ ok db1
    → report_endpoint j p.peer_device_id p.endpoint source' port' l' q' priority' again
        (run between db1)
      ≡ ok db2
    → (count (is_probed p) db2.endpoints ≡ count (is_probed p) (run between db1).endpoints + 1)
      × (2 ≤ count (is_probed p) (run after db2).endpoints)
      × (process_probe_result p n later (run after db2) ≡ crash)
unfolding process_probe_result
report_twice-process_probe_result p i j n now again later source source' port port' l l' q q'
      priority priority' between after db db1 db2 h k =
    let second = report-count p j source' port' l' q' priority' again (run between db1) db2 k in
    let rows : 2 ≤ count (is_probed p) (run after db2).endpoints = omega (
      arith,
      second,
      report-count p i source port l q priority now db db1 h,
      run-Grows p between db1,
      run-Grows p after db2,
    ) in
    (
      second,
      rows,
      rw (
          two-crash (keep (is_probed p) (run after db2).endpoints)
            (omega (arith, length-keep-eq-count (is_probed p) (run after db2).endpoints, rows))),
    )
