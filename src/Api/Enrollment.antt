-- ===== src/Api/Enrollment.antt =====
-- How often a pre-auth key admits a device: backend/app/api/v1/devices.py.
use mathlib.Core.Path.{subst}
use midscale.Prelude.{
  ℕ, String, Bool, true, not, Option, none, some, List, [], ◌∷◌, ◌++◌, ◌≡◌, ◌≤◌, ◌+◌, refl, sym, ap,
  ◌∙◌, arith, count, all, find, str_eq, eq_iff, ◌==◌, ==_refl, if◌then◌else◌, find-some,
  count-keep_le, count-update_first_same, all-keep, all-update_first_same, find-all,
  count-keep_removed, Bool-cases, inl, inr,
}
use midscale.Api.{settle, Device, PreAuthKey, Reply, ok, error, crash, require, network_of}
use midscale.Api.Replies.{bind-answers, ok_inj}
use midscale.Api.Auth.{Passwords, get_current_device}
use midscale.Config.Build.{Environment, build_config_v2}
use midscale.Config.Answer.{DeviceConfigV2Response}
use midscale.Api.Devices.{
  World, owned_device, update_device, enroll_device, rotate_device_token, revoke_device, referenced,
  is_device, publish_config_change, announce,
}
use midscale.Api.Admission.{
  usable, has_key, used_list, spend, is_unused, must, allocate, enroll_by_key, register_device,
}
use midscale.Api.DeviceRequests.{
  Request, update, enroll, rotate, revoke, enroll_key, register, is_single, handle, granted, uses,
  run, admissions,
}

-- Spending a key: no key with the text becomes reusable, and a key with the text is used up.
spend-single :
    (key text : String) (keys : List PreAuthKey) (p : PreAuthKey) (i : ℕ)
    → find (has_key text) keys ≡ some p
    → all (is_single key) keys ≡ true
    → (all (is_single key) (spend p i keys) ≡ true)
      × ((if str_eq text key then 1 else 0) + count (has_key key) (spend p i keys)
          ≤ count (has_key key) keys)
spend-single key text keys p i e single =
    let named : str_eq p.key text ≡ true = find-some (has_key text) keys p e in
    let alone : is_single key p ≡ true = find-all (has_key text) (is_single key) keys p single e in
    let gone : PreAuthKey → Bool = λ q. not (q.id == p.id) in
    elim (Bool-cases p.reusable) [
      | inl r ↦ rw r (
        all-update_first_same (is_single key) (λ q. q.id == p.id) _ keys (λ x. refl) ∙ single,
        ground (
          arith,
          r,
          alone,
          named,
          eq_iff p.key text,
          eq_iff text key,
          eq_iff p.key key,
          count-update_first_same (has_key key) (λ q. q.id == p.id)
              (λ q. record q { used_by = some (used_list q.used_by ++ i ∷ []) }) keys (λ x. refl),
        ),
      )
      | inr r ↦ rw r (
        all-keep (is_single key) gone keys single,
        elim (Bool-cases (str_eq text key)) [
          | inl s ↦
              let has : has_key key p ≡ true =
                ground (arith, named, s, eq_iff p.key text, eq_iff text key, eq_iff p.key key) in
              ground (
                arith,
                s,
                count-keep_removed (has_key text) (has_key key) gone keys p e has
                    (rw (==_refl p.id)),
              )
          | inr s ↦ ground (arith, s, count-keep_le (has_key key) gone keys)
        ],
      )
    ]

announce-db :
    (env : Environment) (bus ws : Bool) (d : Device) (reason : String)
    (m : Reply DeviceConfigV2Response) (w : World)
    → (announce env bus ws d reason m w).db ≡ w.db
announce-db env bus ws d reason (ok c) w = refl
announce-db env bus ws d reason (error n) w = refl
announce-db env bus ws d reason crash w = refl

-- How often a step that is granted uses a key up, and what it leaves.
abbrev Spent : (key : String) → ℕ → World → World → Type 0
Spent key n w w' =
    (all (is_single key) w.db.preauth_keys ≡ true)
    → (all (is_single key) w'.db.preauth_keys ≡ true)
      × (n + count (has_key key) w'.db.preauth_keys ≤ count (has_key key) w.db.preauth_keys)

same_keys :
    (key : String) (w w' : World) → w'.db.preauth_keys ≡ w.db.preauth_keys → Spent key 0 w w'
same_keys key w w' e single =
    (ap (all (is_single key)) e ∙ single, omega (arith, ap (count (has_key key)) e))

usable-find : (now : ℕ) (o : Option PreAuthKey) (p : PreAuthKey) → usable now o ≡ ok p → o ≡ some p
usable-find now none p h = cc
usable-find now (some q) p h = ground (arith, h)

module _ (lib : Passwords) (env : Environment) (hosts : String → Option (List String))
    (bus ws : Bool) where
  publish-db :
      (now : ℕ) (d : Device) (reason : String) (w : World)
      → (publish_config_change env bus ws now d reason w).db ≡ w.db
  unfolding publish_config_change
  publish-db now d reason w = elim (Bool-cases bus) [
    | inr b ↦ rw b refl
    | inl b ↦ rw b (announce-db env bus ws d reason (build_config_v2 env now d w.db) w)
  ]

  -- Each kind of request, where it is granted.
  handle-Spent :
      (key : String) (r : Request) (w w' : World)
      → handle lib env hosts bus ws r w ≡ ok w'
      → Spent key (if uses key r then 1 else 0) w w'
  unfolding handle update_device enroll_device rotate_device_token revoke_device enroll_by_key
      register_device
  handle-Spent key (update k req u) w w' h single =
      let (_, _, h1) = bind-answers (owned_device k u w.db) _ h in
      let (_, _, h2) = bind-answers (referenced (is_device req.exit_node_id w.db)) _ h1 in
      same_keys key w w' (ap (λ v. v.db.preauth_keys) (sym (ok_inj _ w' h2))) single
  handle-Spent key (enroll k pk ip p s now u) w w' h single =
      let (r, g, e) = bind-answers (enroll_device lib k pk ip p s now u w) _ h in
      let (d, _, h1) = bind-answers (owned_device k u w.db) _ g in
      let (_, _, h2) = bind-answers (require d.is_node_owned 400) _ h1 in
      let (_, _, h3) = bind-answers (require (str_eq d.enrollment_status "pending") 400) _ h2 in
      same_keys key w w'
        (ap (λ v. v.db.preauth_keys) (sym (ok_inj _ w' e))
          ∙ ap (λ v. v.0.db.preauth_keys) (sym (ok_inj _ r h3)))
        single
  handle-Spent key (rotate k t p s) w w' h single =
      let (r, g, e) = bind-answers (rotate_device_token lib k t p s w) _ h in
      let (d, _, h1) = bind-answers (get_current_device lib t w.db) _ g in
      let (_, _, h2) = bind-answers (require (d.id == k) 403) _ h1 in
      let (_, _, h3) = bind-answers (require (str_eq d.enrollment_status "active") 400) _ h2 in
      same_keys key w w'
        (ap (λ v. v.db.preauth_keys) (sym (ok_inj _ w' e))
          ∙ ap (λ v. v.0.db.preauth_keys) (sym (ok_inj _ r h3)))
        single
  handle-Spent key (revoke k now u) w w' h single =
      let (d, _, h1) = bind-answers (owned_device k u w.db) _ h in
      let (_, _, h2) =
        bind-answers (require (not (str_eq d.enrollment_status "revoked")) 400) _ h1 in
      same_keys key w w'
        (ap (λ v. v.db.preauth_keys) (sym (ok_inj _ w' h2))
          ∙ ap (λ db. db.preauth_keys) (publish-db now _ _ _))
        single
  handle-Spent key (enroll_key text name pk i p s now) w w' h single =
      let (r, g, e) = bind-answers (enroll_by_key lib env hosts text name pk i p s now w) _ h in
      let (k, ok_k, h1) = bind-answers (usable now (find (has_key text) w.db.preauth_keys)) _ g in
      let (_, _, h2) = bind-answers (require (is_unused k) 401) _ h1 in
      let (n, _, h3) = bind-answers (must (network_of k.network_id w.db)) _ h2 in
      let (ip, _, h4) = bind-answers (allocate hosts n w.db) _ h3 in
      let (c, _, h5) = bind-answers (build_config_v2 env now _ _) _ h4 in
      let after : spend k i w.db.preauth_keys ≡ w'.db.preauth_keys =
        ap (λ v. v.0.db.preauth_keys) (ok_inj _ r h5)
        ∙ ap (λ v. v.db.preauth_keys) (ok_inj _ w' e) in
      subst
        (λ ks.
          (all (is_single key) ks ≡ true)
          × ((if str_eq text key then 1 else 0) + count (has_key key) ks
              ≤ count (has_key key) w.db.preauth_keys))
        after (spend-single key text w.db.preauth_keys k i (usable-find now _ k ok_k) single)
  handle-Spent key (register text name i pk sk now) w w' h single =
      let (k, ok_k, h1) = bind-answers (usable now (find (has_key text) w.db.preauth_keys)) _ h in
      let (n, _, h2) = bind-answers (must (network_of k.network_id w.db)) _ h1 in
      let (ip, _, h3) = bind-answers (allocate hosts n w.db) _ h2 in
      subst
        (λ ks.
          (all (is_single key) ks ≡ true)
          × ((if str_eq text key then 1 else 0) + count (has_key key) ks
              ≤ count (has_key key) w.db.preauth_keys))
        (ap (λ v. v.db.preauth_keys) (ok_inj _ w' h3))
        (spend-single key text w.db.preauth_keys k i (usable-find now _ k ok_k) single)

  settle-Spent :
      (key : String) (w : World) (m : Reply World) (used : Bool)
      → ((w' : World) → m ≡ ok w' → Spent key (if used then 1 else 0) w w')
      → Spent key (if used then granted m else 0) w (settle w m)
  settle-Spent key w (ok w') used h single = h w' refl single
  settle-Spent key w (error n) used h single = (single, ground arith)
  settle-Spent key w crash used h single = (single, ground arith)

  -- A pre-auth key that is not reusable admits one device at most: over any requests, of any users and
  -- devices and in any order, the devices that enroll or register with a key and the rows with that key
  -- that are left are no more than the rows with the key at the start, none of them reusable.
  pub admissions-le :
      (key : String) (rs : List Request) (w : World)
      → all (is_single key) w.db.preauth_keys ≡ true
      → admissions lib env hosts bus ws key rs w
          + count (has_key key) (run lib env hosts bus ws rs w).db.preauth_keys
        ≤ count (has_key key) w.db.preauth_keys
  unfolding run admissions
  admissions-le key [] w single = omega arith
  admissions-le key (r ∷ rs) w single =
      let (single', step) =
        settle-Spent key w (handle lib env hosts bus ws r w) (uses key r)
          (λ w' h. handle-Spent key r w w' h) single in
      omega (arith, step, admissions-le key rs (settle w (handle lib env hosts bus ws r w)) single')
