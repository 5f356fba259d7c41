-- ===== src/Config/Precedence.antt =====
-- The order in which defaults, the file and the environment count.
use trust_mate.Common.{
  ℕ, ◌≡◌, refl, String, Bool, Option, some, List, arith, inl, inr, Option-cases,
}
use trust_mate.Exec.{ok}
use trust_mate.Exec.Inversion.{Result-cases}
use trust_mate.Config.Types.{Config}
use trust_mate.Config.Load.{
  Surroundings, str_var, str_slice_var, bool_var, int_ptr_var, apply_env_overrides, load,
  load_from_env,
}
use trust_mate.Config.Validation.{IsAcceptable, trimmed, validate_iff}

module _ (s : Surroundings) where
  str_var-twice : (key dst : String) → str_var s key (str_var s key dst) ≡ str_var s key dst
  unfolding str_var
  str_var-twice key dst = ground arith

  str_slice_var-twice :
      (key : String) (dst : List String)
      → str_slice_var s key (str_slice_var s key dst) ≡ str_slice_var s key dst
  unfolding str_slice_var
  str_slice_var-twice key dst = elim (Option-cases (s.lookup_env key)) [
    | inl e ↦ ground (arith, e)
    | inr (v, e) ↦ ground (arith, e)
  ]

  bool_var-twice :
      (key : String) (dst : Bool) → bool_var s key (bool_var s key dst) ≡ bool_var s key dst
  unfolding bool_var
  bool_var-twice key dst = ground arith

  int_ptr_var-twice :
      (key : String) (dst : Option ℕ)
      → int_ptr_var s key (int_ptr_var s key dst) ≡ int_ptr_var s key dst
  unfolding int_ptr_var
  int_ptr_var-twice key dst = ground arith

  -- Applying the environment's overrides a second time changes nothing, whatever the variables hold.
  pub apply_env_overrides_idempotent :
      (cfg : Config) → apply_env_overrides s (apply_env_overrides s cfg) ≡ apply_env_overrides s cfg
  unfolding apply_env_overrides
  apply_env_overrides_idempotent cfg =
      simp (str_var-twice, str_slice_var-twice, bool_var-twice, int_ptr_var-twice) refl

  -- Where LoadFromEnv returns a configuration, it is what Load returned with the environment's overrides on
  -- top and the trailing slashes of the base URL removed, and it is that of an acceptable configuration; the
  -- store's driver and the base URL are those of their variables where these are set.
  pub load_from_env-ok :
      (path : String) (cfg : Config)
      → load_from_env s path ≡ ok cfg
      → (base : Config) × (load s path ≡ ok base)
        × IsAcceptable s (apply_env_overrides s base)
        × (cfg ≡ trimmed s (apply_env_overrides s base))
        × ((v : String) → s.lookup_env "TRUSTMATE_STORE_DRIVER" ≡ some v → cfg.store.driver ≡ v)
        × ((v : String)
            → s.lookup_env "TRUSTMATE_PUBLIC_BASE_URL" ≡ some v
            → cfg.server.public_base_url ≡ s.trim_right_slash v)
  unfolding load_from_env apply_env_overrides str_var
  load_from_env-ok path cfg h = elim (Result-cases (load s path)) [
    | inr (e, l) ↦ absurd (ground (arith, h, l))
    | inl (base, l) ↦
        (let (accepted, same) =
            (validate_iff s (apply_env_overrides s base)).1 cfg (ground (arith, h, l)) in
          (base, l, accepted, same, λ v e. ground (arith, same, e), λ v e. ground (arith, same, e)))
  ]
