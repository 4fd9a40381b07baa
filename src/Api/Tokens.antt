-- ===== src/Api/Tokens.antt =====
-- Which device a token stands for: backend/app/api/deps.py.
use Prim.Native.String.{◌++◌ as append}
use text.Mathlib.TextPositions.{starts_with-append}
use mathlib.Core.List.{Mem}
use mathlib.Core.Path.{subst}
use midscale.Prelude.{
  ℕ, String, Bool, true, Option, none, some, List, [], ◌∷◌, ◌&&◌, ◌≡◌, ◌<◌, refl, sym, ap, ◌∙◌, ◌⊎◌,
  inl, inr, arith, keep, find, ltb, ==_refl, lt→ltb, Bool-cases, find-some, find-mem, keep-mem,
}
use midscale.Prelude.Texts.{
  count_chars, take_chars, drop_chars, take_chars-append, drop_chars-append, count_chars-append,
  drop_chars_more,
}
use midscale.Api.{Device, Db, ok, found, one_or_none}
use midscale.Api.Replies.{bind-answers, found-ok}
use midscale.Api.Auth.{
  Passwords, token_prefix, token_of, cut, split_token, check_device_status, has_prefix, verifies,
  checked, scan_devices, by_prefix, by_parts, lookup_device_by_token, get_current_device_by_id,
  generate_device_token,
}

underscore : count_chars "_" ≡ 1
unfolding count_chars
underscore = refl

module _ (prefix secret : String) (eight : count_chars prefix ≡ 8)
    (drawn : 0 < count_chars secret) where
  abbrev behind : String
  behind = append prefix (append "_" secret)

  count-behind : ltb 9 (count_chars behind) ≡ true
  count-behind = lt→ltb 9 (count_chars behind) (
      omega (
        arith,
        count_chars-append prefix (append "_" secret),
        count_chars-append "_" secret,
        underscore,
        eight,
        drawn,
      ))

  drop-behind : drop_chars 8 behind ≡ append "_" secret
  drop-behind =
      subst (λ n. drop_chars n behind ≡ append "_" secret) eight
        (drop_chars-append prefix (append "_" secret))

  take-behind : take_chars 8 behind ≡ prefix
  take-behind =
      subst (λ n. take_chars n behind ≡ prefix) eight (take_chars-append prefix (append "_" secret))

  drop-behind_secret : drop_chars 9 behind ≡ secret
  drop-behind_secret =
      drop_chars_more 8 1 behind
      ∙ ap (drop_chars 1) drop-behind
      ∙ subst (λ n. drop_chars n (append "_" secret) ≡ secret) underscore
          (drop_chars-append "_" secret)

  cut-behind : cut behind ≡ some (prefix, secret)
  cut-behind = rw (
    count-behind,
    drop-behind,
    subst (λ n. take_chars n (append "_" secret) ≡ "_") underscore (take_chars-append "_" secret),
    take-behind,
    drop-behind_secret,
  )

  split_token-token_of : split_token (token_of prefix secret) ≡ some (prefix, secret)
  unfolding split_token
  split_token-token_of =
      rw (starts_with-append token_prefix behind, drop_chars-append token_prefix behind) cut-behind

module _ (lib : Passwords) where
  -- A device that the scan or the prefix finds, and that has passed the check of its status: it
  -- verifies the token, or the secret that the token has.
  abbrev pub Stands : (token : String) (parts : Option (String × String)) → Device → Db → Type 0
  Stands token parts d db =
      Mem d db.devices
      × (d.is_active ≡ true)
      × (check_device_status d ≡ ok d)
      × ((verifies lib token d ≡ true)
          ⊎ ((prefix : String) × (secret : String) × (parts ≡ some (prefix, secret))
              × (verifies lib secret d ≡ true)))

  status-ok : (d e : Device) → check_device_status d ≡ ok e → d ≡ e
  unfolding check_device_status
  status-ok d e h = ground arith

  checked-ok :
      (o : Option Device) (d : Device)
      → checked lib o ≡ ok (some d)
      → (o ≡ some d) × (check_device_status d ≡ ok d)
  checked-ok none d h = cc
  checked-ok (some c) d h =
      let (e, st, fin) = bind-answers (check_device_status c) _ h in
      let same : e ≡ d = cc in
      let c_e : c ≡ e = status-ok c e st in
      (
        ap some (c_e ∙ same),
        subst (λ x. check_device_status x ≡ ok x) (c_e ∙ same) (st ∙ ap ok (sym c_e)),
      )

  scan-ok :
      (token : String) (parts : Option (String × String)) (db : Db) (d : Device)
      → scan_devices lib token db ≡ ok (some d)
      → Stands token parts d db
  unfolding scan_devices
  scan-ok token parts db d h =
      let p : Device → Bool = λ d. d.is_active && verifies lib token d in
      let (e, st) = checked-ok (find p db.devices) d h in
      let passes = find-some p db.devices d e in
      (find-mem p db.devices d e, ground (arith, passes), st, inl (ground (arith, passes)))

  by_prefix-ok :
      (token secret prefix : String) (rows : List Device) (o : Option Device) (db : Db) (d : Device)
      → keep (has_prefix prefix) db.devices ≡ rows
      → one_or_none rows ≡ ok o
      → by_prefix lib token secret o db ≡ ok (some d)
      → Stands token (some (prefix, secret)) d db
  by_prefix-ok token secret prefix rows none db d e one h =
      scan-ok token (some (prefix, secret)) db d h
  by_prefix-ok token secret prefix [] (some c) db d e one h = cc
  by_prefix-ok token secret prefix (x ∷ y ∷ zs) (some c) db d e one h = cc
  by_prefix-ok token secret prefix (x ∷ []) (some c) db d e one h =
      elim (Bool-cases (verifies lib secret c)) [
        | inr v ↦ scan-ok token (some (prefix, secret)) db d (ground (arith, v))
        | inl v ↦
            let same : x ≡ c = cc in
            let (got, st) = checked-ok (some c) d (ground (arith, v)) in
            let c_d : c ≡ d = cc in
            let (mem, has) = keep-mem (has_prefix prefix) db.devices [] x e in
            subst (λ z. Stands token (some (prefix, secret)) z db) c_d
              (
                subst (λ z. Mem z db.devices) same mem,
                ground (arith, has, same),
                subst (λ z. check_device_status z ≡ ok z) (sym c_d) st,
                inr (prefix, secret, refl, v),
              )
      ]

  by_parts-ok :
      (token : String) (parts : Option (String × String)) (db : Db) (d : Device)
      → by_parts lib token parts db ≡ ok (some d)
      → Stands token parts d db
  by_parts-ok token none db d h = scan-ok token none db d h
  by_parts-ok token (some (prefix, secret)) db d h =
      let (o, one, h1) = bind-answers (one_or_none (keep (has_prefix prefix) db.devices)) _ h in
      by_prefix-ok token secret prefix (keep (has_prefix prefix) db.devices) o db d refl one h1

  -- Whoever a token lets in as a device is an active row of the table with that id, whose status is not
  -- revoked, expired or pending, and whose stored hash verifies the token or the secret that is cut
  -- from it.
  pub get_current_device_by_id-ok :
      (k : ℕ) (token : String) (db : Db) (d : Device)
      → get_current_device_by_id lib k token db ≡ ok d
      → (d.id ≡ k) × Stands token (split_token token) d db
  unfolding get_current_device_by_id lookup_device_by_token
  get_current_device_by_id-ok k token db d h =
      let (o, lk, h1) = bind-answers (lookup_device_by_token lib token db) _ h in
      let (e, got, h2) = bind-answers (found o 401) _ h1 in
      let same : (e.id ≡ k) × (e ≡ d) = ground arith in
      subst (λ z. (z.id ≡ k) × Stands token (split_token token) z db) same.1
        (same.0, by_parts-ok token (split_token token) db e (lk ∙ ap ok (found-ok o 401 e got)))

  -- A device's new token lets it in: with a prefix of eight characters that no other active device has,
  -- a secret that is not empty and its hash stored, an active device whose status is active is the one
  -- that the token stands for.
  pub get_current_device_by_id-token_of :
      (prefix secret : String) (db : Db) (d : Device)
      → count_chars prefix ≡ 8
      → 0 < count_chars secret
      → keep (has_prefix prefix) db.devices ≡ d ∷ []
      → d.device_token_hash ≡ some (lib.hash_password secret)
      → d.enrollment_status ≡ "active"
      → get_current_device_by_id lib d.id (generate_device_token lib prefix secret).0 db ≡ ok d
  unfolding get_current_device_by_id lookup_device_by_token generate_device_token
      check_device_status
  get_current_device_by_id-token_of prefix secret db d eight drawn only hash active = rw (
    split_token-token_of prefix secret eight drawn,
    by_parts,
    only,
    hash,
    lib.hash-nonempty secret,
    lib.verify-hash secret,
    active,
    ==_refl d.id,
  )
