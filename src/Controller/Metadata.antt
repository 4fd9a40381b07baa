-- ===== src/Controller/Metadata.antt =====
-- What the controller writes to devices: `_sync_runtime_metadata` and `_cleanup_stale_peers` of
-- backend/app/services/wg_controller.py.
use midscale.Prelude.{
  ℕ, ◌+◌, ◌≤◌, Bool, false, not, Option, none, some, List, [], ◌∷◌, ◌≡◌, refl, sym, ap, ◌∙◌, arith,
  keep, find, count, length, update_where, length-update_where, ◌==◌, inl, inr, Option-cases, ◌&&◌,
}
use midscale.Events.{Event}
use midscale.WgAdapter.{WgPeer}
use midscale.Controller.{Device, with_handshake, is_stale, cleanup_stale_peers, same_text}
use midscale.Controller.Reconcile.{sync_runtime_metadata, sync_found}

-- One more than the time of the last handshake, 0 without one.
abbrev pub since : Option ℕ → ℕ
since none = 0
since (some t) = t + 1

abbrev handshake : Option Device → ℕ
handshake none = 0
handshake (some d) = since d.last_handshake

abbrev pub handshake_of : ℕ → List Device → ℕ
handshake_of k rows = handshake (find (λ d. d.id == k) rows)

with_handshake-later :
    (now : ℕ) (reported : Option ℕ) (d : Device)
    → since d.last_handshake ≤ since (with_handshake now reported d).last_handshake
with_handshake-later now reported d = ground arith

with_handshake-id :
    (now : ℕ) (reported : Option ℕ) (d : Device) → (with_handshake now reported d).id ≡ d.id
with_handshake-id now reported d = ground arith

update-later :
    (k j now : ℕ) (reported : Option ℕ) (rows : List Device)
    → handshake_of k rows
      ≤ handshake_of k (update_where (λ e. e.id == j) (with_handshake now reported) rows)
update-later k j now reported [] = omega arith
update-later k j now reported (d ∷ rows) = ground (
  arith,
  update-later k j now reported rows,
  with_handshake-later now reported d,
  with_handshake-id now reported d,
)

abbrev rows_of : Option (List Device × List Event) → List Device
rows_of none = []
rows_of (some db) = db.0

sync_found-later :
    (k now : ℕ) (bus : Bool) (reported : Option ℕ) (found rows : List Device) (log : List Event)
    (rows' : List Device) (log' : List Event)
    → sync_found now bus reported found (rows, log) ≡ some (rows', log')
    → handshake_of k rows ≤ handshake_of k rows'
sync_found-later k now bus reported [] rows log rows' log' h = rw (sym (ap rows_of h)) (omega arith)
sync_found-later k now bus reported (d ∷ []) rows log rows' log' h =
    rw (sym (ap rows_of h)) (update-later k d.id now reported rows)
sync_found-later k now bus reported (d ∷ e ∷ more) rows log rows' log' h = cc

-- The devices that have the key of a peer.
abbrev owners : WgPeer → List Device → List Device
owners p rows = keep (λ d. same_text d.public_key p.public_key) rows

module _ (now : ℕ) (bus : Bool) (p : WgPeer) (ps : List WgPeer)
    (db : List Device × List Event) where
  sync-none :
      sync_found now bus p.latest_handshake (owners p db.0) db ≡ none
      → sync_runtime_metadata now bus (p ∷ ps) db ≡ none
  unfolding sync_runtime_metadata
  sync-none e = rw (e, sync_runtime_metadata) refl

  sync-some :
      (db' : List Device × List Event)
      → sync_found now bus p.latest_handshake (owners p db.0) db ≡ some db'
      → sync_runtime_metadata now bus (p ∷ ps) db ≡ sync_runtime_metadata now bus ps db'
  unfolding sync_runtime_metadata
  sync-some db' e = rw (e, sync_runtime_metadata) refl

-- A sync that does not raise never moves a device's last handshake back, whatever the interface
-- reports.
pub sync_runtime_metadata-later :
    (k now : ℕ) (bus : Bool) (peers : List WgPeer) (rows : List Device) (log : List Event)
    (rows' : List Device) (log' : List Event)
    → sync_runtime_metadata now bus peers (rows, log) ≡ some (rows', log')
    → handshake_of k rows ≤ handshake_of k rows'
unfolding sync_runtime_metadata
sync_runtime_metadata-later k now bus [] rows log rows' log' h =
    rw (sym (ap rows_of h)) (omega arith)
sync_runtime_metadata-later k now bus (p ∷ ps) rows log rows' log' h =
    elim (Option-cases (sync_found now bus p.latest_handshake (owners p rows) (rows, log))) [
      | inl e ↦ cc (sync-none now bus p ps (rows, log) e)
      | inr ((mid, mid_log), e) ↦ omega (
        arith,
        sync_found-later k now bus p.latest_handshake (owners p rows) rows log mid mid_log e,
        sync_runtime_metadata-later k now bus ps mid mid_log rows' log'
            (sym (sync-some now bus p ps (rows, log) (mid, mid_log) e) ∙ h),
      )
    ]

module _ (days now : ℕ) where
  stale-after :
      (rows : List Device)
      → count (is_stale days now) (
          update_where
            (is_stale days now)
            (λ d. record d { is_active = false; updated_at = now })
            rows)
        ≡ 0
  stale-after [] = refl
  stale-after (d ∷ rows) = ground (arith, stale-after rows)

  others-after :
      (rows : List Device)
      → keep
          (λ d. d.is_active)
          (update_where
            (is_stale days now)
            (λ d. record d { is_active = false; updated_at = now })
            rows)
        ≡ keep (λ d. d.is_active && not (is_stale days now d)) rows
  others-after [] = refl
  others-after (d ∷ rows) = ground (arith, others-after rows)

  -- A cleanup keeps the number of devices, leaves no stale device active, and the devices that are
  -- active afterwards are those that were active and not stale, unchanged and in order.
  cleanup_stale_peers_lem :
      (rows : List Device)
      → (length (cleanup_stale_peers days now rows) ≡ length rows)
        × (count (is_stale days now) (cleanup_stale_peers days now rows) ≡ 0)
        × (keep (λ d. d.is_active) (cleanup_stale_peers days now rows)
            ≡ keep (λ d. d.is_active && not (is_stale days now d)) rows)
  unfolding cleanup_stale_peers
  cleanup_stale_peers_lem rows =
      (length-update_where (is_stale days now) _ rows, stale-after rows, others-after rows)
