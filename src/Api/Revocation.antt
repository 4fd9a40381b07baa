-- ===== src/Api/Revocation.antt =====
-- What revoking a device does: `revoke_device` of backend/app/api/v1/devices.py.
use mathlib.Core.List.{Mem, mem-cons, not-mem-nil}
use mathlib.Core.Logic.Or
use mathlib.Core.HLevel.{⊥_prop}
use mathlib.Core.Path.{subst}
use midscale.Prelude.{
  ℕ, String, Bool, true, false, not, some, List, [], ◌∷◌, ◌≡◌, ◌≢◌, ◌≤◌, refl, sym, ap, ◌∙◌, arith,
  count, update_first, str_eq, ◌==◌, ==_iff, if◌then◌else◌, find-some,
}
use midscale.Api.{User, Device, Db, Reply, ok, error, crash, require, found, device_of, network_of}
use midscale.Api.Replies.{bind-answers, found-ok, ok_inj}
use midscale.Api.Auth.{Passwords, get_current_device_by_id}
use midscale.Api.Tokens.{get_current_device_by_id-ok}
use midscale.Config.Build.{Environment, build_config_v2}
use midscale.Config.Answer.{DeviceConfigV2Response}
use midscale.Config.Grouping.{is_active_row, build_config_v2-inactive}
use midscale.Api.Devices.{
  World, log, has_id, update_row, owned_device, owned, announce, publish_config_change,
  revoke_device,
}

abbrev revoked : ℕ → Device → Device
revoked now d = record d { enrollment_status = "revoked"; is_active = false; revoked_at = some now }

other_rows : (k : ℕ) (ds : List Device) → count (has_id k) ds ≡ 0 → count (is_active_row k) ds ≡ 0
other_rows k [] h = refl
other_rows k (d ∷ ds) h = ground (arith, other_rows k ds)

-- Of a device with one row no row is active after it has been rewritten.
inactive_rows :
    (k now : ℕ) (ds : List Device)
    → count (has_id k) ds ≤ 1
    → count (is_active_row k) (update_first (has_id k) (revoked now) ds) ≡ 0
inactive_rows k now [] h = refl
inactive_rows k now (d ∷ ds) h = ground (arith, other_rows k ds, inactive_rows k now ds)

not-active-mem :
    (k : ℕ) (d : Device) (ds : List Device)
    → d.id ≡ k
    → d.is_active ≡ true
    → count (is_active_row k) ds ≡ 0
    → ¬ Mem d ds
not-active-mem k d [] e on none_on m = not-mem-nil m
not-active-mem k d (x ∷ xs) e on none_on m =
    Or.elim ⊥_prop (mem-cons.0 m) (λ s. ground (arith, s, ap (λ z. is_active_row k z) s, e))
      (λ r. not-active-mem k d xs e on (ground arith) r)

silent :
    (ws : Bool) (env : Environment) (bus : Bool) (d : Device) (reason : String) (w : World)
    (m : Reply DeviceConfigV2Response)
    → ((c : DeviceConfigV2Response) → m ≢ ok c)
    → announce env bus ws d reason m w ≡ w
silent ws env bus d reason w (ok c) h = absurd (h c refl)
silent ws env bus d reason w (error n) h = refl
silent ws env bus d reason w crash h = refl

if_same : (b : Bool) {x y : World} → x ≡ y → (if b then x else y) ≡ y
if_same true h = h
if_same false h = refl

owned-id : (k : ℕ) (user : User) (db : Db) (d : Device) → owned_device k user db ≡ ok d → d.id ≡ k
owned-id k user db d h =
    let (e, got, h1) = bind-answers (found (device_of k db) 404) _ h in
    let (_, _, h2) = bind-answers (require (owned user (network_of e.network_id db)) 403) _ h1 in
    subst (λ z. z.id ≡ k) (ok_inj e d h2)
      ((==_iff e.id k).0 (find-some (λ z. z.id == k) db.devices e (found-ok _ 404 e got)))

-- A revocation that succeeds takes effect at once and tells no one: where ids are a primary key, no
-- active row of the device is left and no token lets anyone in as the device any more; and neither an
-- event nor a message goes out, since no configuration can be built for an inactive device.
pub revoke_device_lem :
    (env : Environment) (bus ws : Bool) (k now : ℕ) (user : User) (w w' : World)
    → count (has_id k) w.db.devices ≤ 1
    → revoke_device env bus ws k now user w ≡ ok w'
    → (count (is_active_row k) w'.db.devices ≡ 0)
      × ((lib : Passwords) (token : String) (d : Device)
          → get_current_device_by_id lib k token w'.db ≢ ok d)
      × (w'.events ≡ w.events)
      × (w'.messages ≡ w.messages)
unfolding revoke_device publish_config_change
revoke_device_lem env bus ws k now user w w' unique h =
    let (d, own, h1) = bind-answers (owned_device k user w.db) _ h in
    let (_, _, h2) = bind-answers (require (not (str_eq d.enrollment_status "revoked")) 400) _ h1 in
    let w1 = update_row k (revoked now) w in
    let gone : count (is_active_row k) w1.db.devices ≡ 0 =
      inactive_rows k now w.db.devices unique in
    let same : d.id ≡ k = owned-id k user w.db d own in
    let quiet : publish_config_change env bus ws now (revoked now d) "device.revoked" w1 ≡ w1 =
      if_same bus (
        silent ws env bus (revoked now d) "device.revoked" w1
          (build_config_v2 env now (revoked now d) w1.db)
          (λ c.
            build_config_v2-inactive env now (revoked now d) w1.db c
              (subst (λ i. count (is_active_row i) w1.db.devices ≡ 0) (sym same) gone))) in
    let result : log "device.revoke" k w1 ≡ w' =
      ap (log "device.revoke" k) (sym quiet) ∙ ok_inj _ w' h2 in
    subst
      (λ v.
        (count (is_active_row k) v.db.devices ≡ 0)
        × ((lib : Passwords) (token : String) (d : Device)
            → get_current_device_by_id lib k token v.db ≢ ok d)
        × (v.events ≡ w.events)
        × (v.messages ≡ w.messages))
      result
      (
        gone,
        λ lib token c e.
            let (id, stands) =
              get_current_device_by_id-ok lib k token (log "device.revoke" k w1).db c e in
            not-active-mem k c w1.db.devices id stands.1 gone stands.0,
        refl,
        refl,
      )
