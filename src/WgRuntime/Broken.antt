-- ===== src/WgRuntime/Broken.antt =====
-- How an attempt of midscaled/daemon/wg_runtime.py ends: with all its commands, or with one that raised.
use mathlib.Core.List.{append-nil, append_assoc}
use midscale.Prelude.{
  sym, ◌∙◌, String, Bool, true, false, List, ◌⊎◌, [], ◌∷◌, ◌++◌, ◌≡◌, refl, Bool-cases, inl, inr,
}
use midscale.Prelude.Texts.{after_code}
use midscale.WgRuntime.{
  DesiredConfig, Command, Machine, show, genkey, link_add, link_up, addr_add, show_dump,
  set_interface, private_key_command, prefix_of, listen_port_of, run_all, create_interface,
  bring_up_interface, peer_commands, current_keys, apply_config,
}

-- The last command of the log raised.
abbrev pub IsBroken : Machine → List Command → Type 0
IsBroken m log =
    (before : List Command) × ((c : Command) × (log ≡ before ++ c ∷ [])
      × (m.raises before c ≡ true))

-- The log ends with all the commands of the configuration, for some keys that were listed.
abbrev pub IsWhole : Machine → DesiredConfig → List Command → Type 0
IsWhole m config log =
    (before : List Command) × ((keys : List String) × (log
        ≡ before
          ++ set_interface config.private_key (listen_port_of config.listen_port) ∷ []
          ++ show_dump ∷ []
          ++ peer_commands m config.peers keys))

-- What has not run to its end has ended in a command that raised.
abbrev pub Ends : Machine → (List Command → Type 0) → Bool × List Command → Type 0
Ends m Whole r = ((r.0 ≡ true) × Whole r.1) ⊎ ((r.0 ≡ false) × IsBroken m r.1)

abbrev pub Anything : List Command → Type 0
Anything log = Unit

module _ (m : Machine) where
  Ends-map :
      (P Q : List Command → Type 0) (r : Bool × List Command)
      → ((log : List Command) → P log → Q log)
      → Ends m P r
      → Ends m Q r
  Ends-map P Q r f (inl (done, whole)) = inl (done, f r.1 whole)
  Ends-map P Q r f (inr broken) = inr broken

  raised-Ends :
      (P : List Command → Type 0) (log : List Command) (c : Command)
      → m.raises log c ≡ true
      → Ends m P (false, log ++ c ∷ [])
  raised-Ends P log c e = inr (refl, (log, (c, refl, e)))

  run_all-Ends : (cs log : List Command) → Ends m (λ l. l ≡ log ++ cs) (run_all m cs log)
  run_all-Ends [] log = inl (refl, sym (append-nil log))
  run_all-Ends (c ∷ cs) log = elim (Bool-cases (m.raises log c)) [
    | inl e ↦ rw e (raised-Ends (λ l. l ≡ log ++ c ∷ cs) log c e)
    | inr e ↦ rw e (
        Ends-map (λ l. l ≡ log ++ c ∷ [] ++ cs) (λ l. l ≡ log ++ c ∷ cs)
          (run_all m cs (log ++ c ∷ [])) (λ l h. h ∙ append_assoc log (c ∷ []) cs)
          (run_all-Ends cs (log ++ c ∷ [])))
  ]

  all_run-Ends : (cs log : List Command) → Ends m Anything (run_all m cs log)
  all_run-Ends cs log =
      Ends-map (λ l. l ≡ log ++ cs) Anything (run_all m cs log) (λ l h. tt) (run_all-Ends cs log)

  create_interface-Ends :
      (address prefix : String) (log : List Command)
      → Ends m Anything (create_interface m address prefix log)
  create_interface-Ends address prefix log = elim (Bool-cases (m.raises log genkey)) [
    | inl e ↦ rw e (raised-Ends Anything log genkey e)
    | inr e ↦ rw e (
        all_run-Ends
          (link_add ∷ addr_add address prefix ∷ link_up ∷ private_key_command (m.generated log))
          (log ++ genkey ∷ []))
  ]

  pub bring_up_interface-Ends :
      (address subnet : String) (log : List Command)
      → Ends m Anything (bring_up_interface m address subnet log)
  unfolding bring_up_interface
  bring_up_interface-Ends address subnet log =
      let prefix = prefix_of (after_code b'/' subnet) in
      elim (Bool-cases (m.raises log show)) [
        | inl e ↦ rw e (create_interface-Ends address prefix (log ++ show ∷ []))
        | inr e ↦ rw e (all_run-Ends (addr_add address prefix ∷ link_up ∷ []) (log ++ show ∷ []))
      ]

  pub apply_config-Ends :
      (config : DesiredConfig) (log : List Command)
      → Ends m (IsWhole m config) (apply_config m config log)
  unfolding apply_config
  apply_config-Ends config log =
      let first = set_interface config.private_key (listen_port_of config.listen_port) in
      let keys = current_keys m (log ++ first ∷ []) in
      let cs = peer_commands m config.peers keys in
      elim (Bool-cases (m.raises log first)) [
        | inl e ↦ rw e (raised-Ends (IsWhole m config) log first e)
        | inr e ↦ rw e (
            Ends-map (λ l. l ≡ log ++ first ∷ [] ++ show_dump ∷ [] ++ cs) (IsWhole m config)
              (run_all m cs (log ++ first ∷ [] ++ show_dump ∷ [])) (λ l h. (log, (keys, h)))
              (run_all-Ends cs (log ++ first ∷ [] ++ show_dump ∷ [])))
      ]
