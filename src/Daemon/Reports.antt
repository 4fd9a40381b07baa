-- ===== src/Daemon/Reports.antt =====
-- Sequences of reports: backend/app/services/daemon.py.
use mathlib.Core.Path.{subst}
use midscale.Prelude.{
  ℕ, String, Bool, true, false, Option, none, some, List, [], ◌∷◌, ◌&&◌, ◌+◌, ◌≡◌, refl, ap, ◌∙◌,
  arith, keep, all, update_first, update_where, ◌==◌, if◌then◌else◌, all-append,
}
use midscale.Prelude.Int.{ℤ, pos, leb_ℤ}
use midscale.Endpoints.{DeviceEndpoint}
use midscale.Scoring.{score_max}
use midscale.Scoring.Bounds.{compute_endpoint_score_bounds}
use midscale.Api.{settle, Db, Reply, ok, error, crash, ◌>>=◌, found, one_or_none, device_of}
use midscale.Api.Replies.{bind-answers, ok_inj}
use midscale.Daemon.{
  with_endpoints, new_endpoint, process_heartbeat, report_endpoint, is_stale,
  stale_endpoint_cleanup, Probe, ProbeResult, is_probed, probed, first_probe, write_probe,
  insertable, process_probe_result,
}

pub data Report : Type 0 where
  heartbeat : (device_id : ℕ) (public_key ip_address : Option String) (now : ℕ) → Report
  endpoint :
      (new_id device_id : ℕ) (endpoint source : String) (port : ℤ)
      (local_ip public_ip : Option String) (priority : ℤ) (now : ℕ)
      → Report
  probe : Probe → (new_id now : ℕ) → Report
  cleanup : (max_age_minutes now : ℕ) → Report

abbrev pub db_of : Reply (Db × ProbeResult) → Reply Db
db_of m = m >>= λ r. ok r.0

unfoldable pub handle : Report → Db → Reply Db
unfolding process_heartbeat report_endpoint process_probe_result stale_endpoint_cleanup
handle (heartbeat k key ip now) db = process_heartbeat k key ip now db
handle (endpoint i k ep source port l p priority now) db =
    report_endpoint i k ep source port l p priority now db
handle (probe p i now) db = db_of (process_probe_result p i now db)
handle (cleanup age now) db = ok (with_endpoints (stale_endpoint_cleanup age now db.endpoints).1 db)

unfoldable pub run : List Report → Db → Db
unfolding handle
run [] db = db
run (r ∷ rs) db = run rs (settle db (handle r db))

abbrev pub in_range : DeviceEndpoint → Bool
in_range e = leb_ℤ (pos 0) e.score && leb_ℤ e.score score_max

probed_range : (p : Probe) (now : ℕ) (e : DeviceEndpoint) → in_range (probed p now e) ≡ true
probed_range p now e = ground (
  arith,
  compute_endpoint_score_bounds p.reachable p.latency_ms
      (if p.reachable then e.failure_count else e.failure_count + 1)
      (if p.reachable then e.success_count + 1 else e.success_count) e.priority,
)

first_probe_range : (p : Probe) (i now : ℕ) → in_range (first_probe p i now) ≡ true
first_probe_range p i now = ground (
  arith,
  compute_endpoint_score_bounds p.reachable p.latency_ms (if p.reachable then 0 else 1)
      (if p.reachable then 1 else 0) (pos 100),
)

all-update_first :
    (q p : DeviceEndpoint → Bool) (f : DeviceEndpoint → DeviceEndpoint) (es : List DeviceEndpoint)
    → ((e : DeviceEndpoint) → q (f e) ≡ true)
    → all q es ≡ true
    → all q (update_first p f es) ≡ true
all-update_first q p f [] h k = refl
all-update_first q p f (e ∷ es) h k = ground (arith, h e, all-update_first q p f es h)

all-cleanup :
    (age now : ℕ) (es : List DeviceEndpoint)
    → all in_range es ≡ true
    → all in_range (update_where (is_stale age now) (λ e. record e { is_active = false }) es) ≡ true
all-cleanup age now [] h = refl
all-cleanup age now (e ∷ es) h = ground (arith, all-cleanup age now es)

write_probe_range :
    (p : Probe) (i now : ℕ) (o : Option DeviceEndpoint) (es : List DeviceEndpoint)
    → all in_range es ≡ true
    → all in_range (write_probe p i now o es).1 ≡ true
write_probe_range p i now none es h =
    ground (arith, all-append in_range es (first_probe p i now ∷ []), first_probe_range p i now, h)
write_probe_range p i now (some e) es h =
    all-update_first in_range (λ x. x.id == e.id) (probed p now) es (probed_range p now) h

handle_range :
    (r : Report) (db db' : Db)
    → handle r db ≡ ok db'
    → all in_range db.endpoints ≡ true
    → all in_range db'.endpoints ≡ true
unfolding handle process_heartbeat report_endpoint process_probe_result stale_endpoint_cleanup
handle_range (heartbeat k key ip now) db db' h t =
    let (d, _, h1) = bind-answers (found (device_of k db) 404) _ h in
    subst (λ x. all in_range x.endpoints ≡ true) (ok_inj _ db' h1) t
handle_range (endpoint i k ep source port l p priority now) db db' h t =
    let (d, _, h1) = bind-answers (found (device_of k db) 404) _ h in
    subst (λ x. all in_range x.endpoints ≡ true) (ok_inj _ db' h1)
      (ground (
        arith,
        all-append in_range db.endpoints (new_endpoint i k ep source port l p priority now ∷ []),
        t,
      ))
handle_range (probe p i now) db db' h t =
    let (r, g, h1) = bind-answers (process_probe_result p i now db) _ h in
    let (o, _, h2) = bind-answers (one_or_none (keep (is_probed p) db.endpoints)) _ g in
    let (_, _, h3) = bind-answers (insertable p o db) _ h2 in
    subst (λ x. all in_range x.endpoints ≡ true) (ap (λ x. x.0) (ok_inj _ r h3) ∙ ok_inj _ db' h1)
      (write_probe_range p i now o db.endpoints t)
handle_range (cleanup age now) db db' h t =
    subst (λ x. all in_range x.endpoints ≡ true) (ok_inj _ db' h)
      (all-cleanup age now db.endpoints t)

settle_range :
    (db : Db) (m : Reply Db)
    → ((db' : Db) → m ≡ ok db' → all in_range db'.endpoints ≡ true)
    → all in_range db.endpoints ≡ true
    → all in_range (settle db m).endpoints ≡ true
settle_range db (ok db') h t = h db' refl
settle_range db (error n) h t = t
settle_range db crash h t = t

-- Over any heartbeats, reports, probe results and clean-ups, granted or refused, the score of each
-- endpoint stays between 0 and 200.
pub run_range :
    (rs : List Report) (db : Db)
    → all in_range db.endpoints ≡ true
    → all in_range (run rs db).endpoints ≡ true
unfolding run
run_range [] db t = t
run_range (r ∷ rs) db t =
    run_range rs (settle db (handle r db))
      (settle_range db (handle r db) (λ db' h. handle_range r db db' h t) t)
