-- ===== src/Config/Grouping.antt =====
-- What the dictionaries by device hold: backend/app/services/network_state.py.
use text.Mathlib.TextPositions.{eq_refl}
use mathlib.Core.List.{append-nil, append_assoc}
use midscale.Prelude.{
  ℕ, String, Bool, none, some, List, [], ◌∷◌, ◌++◌, ◌&&◌, ◌≡◌, ◌≢◌, refl, sym, ap, ◌∙◌, inl, inr,
  arith, map, keep, find, count, str_eq, eq_iff, ◌==◌, ==_iff, if◌then◌else◌, Bool-cases,
}
use midscale.Topology.{get_list}
use midscale.Api.{Device, Db, ok, found}
use midscale.Api.Replies.{bind-answers, found-ok}
use midscale.Config.{
  UuidText, append_to, group, is_in_force, takes_part, state_of, build_network_state,
  build_device_states, build_routes_by_device,
}
use midscale.Config.Build.{Environment, build_config_v2}
use midscale.Config.Answer.{DeviceConfigV2Response}

module _ {ℓ} {A : Type ℓ} where
  get_list-append_to :
      (k j : String) (v : A) (d : List (String × List A))
      → get_list (append_to k v d) j ≡ (if str_eq k j then get_list d j ++ v ∷ [] else get_list d j)
  get_list-append_to k j v [] = ground arith
  get_list-append_to k j v ((i, vs) ∷ d) =
      ground (arith, eq_iff k j, eq_iff i k, eq_iff i j, get_list-append_to k j v d)

module _ {ℓ κ} {A : Type ℓ} {B : Type κ} (key : A → String) (value : A → B) (k : String) where
  -- Under a key stand the values of the rows with that key, in their order.
  get_list-group :
      (xs : List A) (d : List (String × List B))
      → get_list (group key value xs d) k
        ≡ get_list d k ++ map value (keep (λ x. str_eq (key x) k) xs)
  get_list-group [] d = sym (append-nil (get_list d k))
  get_list-group (x ∷ xs) d = elim (Bool-cases (str_eq (key x) k)) [
    | inl e ↦ rw e (
        get_list-group xs (append_to (key x) (value x) d)
        ∙ ap (λ l. l ++ map value (keep (λ x. str_eq (key x) k) xs))
            (get_list-append_to (key x) k (value x) d ∙ rw e refl)
        ∙ append_assoc (get_list d k) (value x ∷ []) (map value (keep (λ x. str_eq (key x) k) xs)))
    | inr e ↦ rw e (
        get_list-group xs (append_to (key x) (value x) d)
        ∙ ap (λ l. l ++ map value (keep (λ x. str_eq (key x) k) xs))
            (get_list-append_to (key x) k (value x) d ∙ rw e refl))
  ]

keep-keep {ℓ} :
    {A : Type ℓ} (p q : A → Bool) (xs : List A) → keep p (keep q xs) ≡ keep (λ x. q x && p x) xs
keep-keep p q [] = refl
keep-keep p q (x ∷ xs) = ground (arith, keep-keep p q xs)

keep-same {ℓ} :
    {A : Type ℓ} (p q : A → Bool) (xs : List A) → ((x : A) → p x ≡ q x) → keep p xs ≡ keep q xs
keep-same p q [] h = refl
keep-same p q (x ∷ xs) h = ground (arith, h x, keep-same p q xs h)

-- The active row of a device.
abbrev pub is_active_row : ℕ → Device → Bool
is_active_row j d = d.id == j && d.is_active

module _ (uuid : UuidText) where
  open uuid use {str, str_inj}

  str-test : (a b : ℕ) → str_eq (str a) (str b) ≡ (a == b)
  str-test a b = elim (Bool-cases (a == b)) [
    | inl e ↦ rw (e, ap str ((==_iff a b).0 e)) (eq_refl (str b))
    | inr e ↦ ground (arith, str_inj a b, e)
  ]

  -- The routes that the plans of a network give a device are the prefixes of exactly its routes that
  -- are approved and enabled in that network, in the order of the table.
  pub routes_in_force :
      (network_id device_id : ℕ) (db : Db)
      → get_list (build_routes_by_device uuid network_id db).1 (str device_id)
        ≡ map
            (λ r. r.prefix)
            (keep (λ r. is_in_force network_id r && r.device_id == device_id) db.routes)
  unfolding build_routes_by_device
  routes_in_force k j db =
      get_list-group (λ r. str r.device_id) (λ r. r.prefix) (str j) (keep (is_in_force k) db.routes)
        []
      ∙ ap (map (λ r. r.prefix)) (
          keep-same (λ r. str_eq (str r.device_id) (str j)) (λ r. r.device_id == j)
            (keep (is_in_force k) db.routes) (λ r. str-test r.device_id j)
          ∙ keep-keep (λ r. r.device_id == j) (is_in_force k) db.routes)

  find-inactive :
      (k j : ℕ) (devices : List Device)
      → count (is_active_row j) devices ≡ 0
      → find (λ s. str_eq s.id (str j)) (map (state_of uuid) (keep (takes_part k) devices)) ≡ none
  find-inactive k j [] h = refl
  find-inactive k j (d ∷ ds) h = ground (arith, str-test d.id j, find-inactive k j ds)

-- A device without an active row has no configuration: `build_config_v2` raises, whatever the settings
-- and the tables.
pub build_config_v2-inactive :
    (env : Environment) (now : ℕ) (device : Device) (db : Db) (r : DeviceConfigV2Response)
    → count (is_active_row device.id) db.devices ≡ 0
    → build_config_v2 env now device db ≢ ok r
unfolding build_config_v2 build_device_states
build_config_v2-inactive env now device db r h e =
    let (net, _, e1) = bind-answers (build_network_state device.network_id db) _ e in
    let (cur, got, _) =
      bind-answers
        (found
          (find (λ s. str_eq s.id (env.uuid.str device.id))
            (build_device_states env.uuid device.network_id db).0)
          404)
        _ e1 in
    let missing : none ≡ some cur =
      sym (find-inactive env.uuid device.network_id device.id db.devices h)
      ∙ found-ok _ 404 cur got in
    cc
