-- ===== src/Config/Validation.antt =====
-- Which configurations the service starts with.
use trust_mate.Common.{
  ◌≡◌, ◌≢◌, ◌⊎◌, true, false, none, some, arith, inl, inr, eq_iff, eq_false, Bool-cases,
  Option-cases, ◌==◌, ◌&&◌, not,
}
use trust_mate.Exec.{ok}
use trust_mate.Config.Types.{Config}
use trust_mate.Config.Load.{
  Surroundings, Url, is_store_driver, is_keystore_driver, is_set, with_trimmed_url, validate,
}

-- the public base URL without slashes at its end
abbrev pub trimmed : Surroundings → Config → Config
trimmed s cfg = record cfg {
  server = record cfg.server { public_base_url = s.trim_right_slash cfg.server.public_base_url };
}

-- a supported datastore and keystore, a PKCS#11 token named in one way at most, and an absolute URL
pub record IsAcceptable (s : Surroundings) (cfg : Config) : Type 0 where
  pub store : (cfg.store.driver ≡ "sqlite") ⊎ (cfg.store.driver ≡ "postgres")
  pub keystore :
      (cfg.keystore.driver ≡ "file")
      ⊎ (cfg.keystore.driver ≡ "vault")
      ⊎ (cfg.keystore.driver ≡ "pkcs11")
  pub token : (cfg.keystore.pkcs11.token_label ≡ "") ⊎ (cfg.keystore.pkcs11.slot_number ≡ none)
  pub url : Url
  pub parsed : s.parse_url cfg.server.public_base_url ≡ some url
  pub scheme : url.scheme ≢ ""
  pub host : url.host ≢ ""

module _ (s : Surroundings) (cfg : Config) where
  is_store_driver_iff :
      is_store_driver s cfg.store.driver ≡ true
      → (cfg.store.driver ≡ "sqlite") ⊎ (cfg.store.driver ≡ "postgres")
  unfolding is_store_driver
  is_store_driver_iff h = elim (Bool-cases (cfg.store.driver == "sqlite")) [
    | inl e ↦ inl ((eq_iff _ _).0 e)
    | inr e ↦ inr ((eq_iff _ _).0 (ground (arith, h, e)))
  ]

  is_keystore_driver_iff :
      is_keystore_driver s cfg.keystore.driver ≡ true
      → (cfg.keystore.driver ≡ "file")
        ⊎ (cfg.keystore.driver ≡ "vault")
        ⊎ (cfg.keystore.driver ≡ "pkcs11")
  unfolding is_keystore_driver
  is_keystore_driver_iff h = elim (Bool-cases (cfg.keystore.driver == "file")) [
    | inl e ↦ inl ((eq_iff _ _).0 e)
    | inr e ↦ inr (elim (Bool-cases (cfg.keystore.driver == "vault")) [
      | inl f ↦ inl ((eq_iff _ _).0 f)
      | inr f ↦ inr ((eq_iff _ _).0 (ground (arith, h, e, f)))
    ])
  ]

  -- what validate accepts, it returns trimmed
  validate_sound : (c : Config) → validate s cfg ≡ ok c → IsAcceptable s cfg × (c ≡ trimmed s cfg)
  unfolding validate with_trimmed_url
  validate_sound c h = elim (Bool-cases (is_store_driver s cfg.store.driver)) [
    | inr a ↦ absurd (ground (arith, h, a))
    | inl a ↦ (elim (Bool-cases (is_keystore_driver s cfg.keystore.driver)) [
      | inr b ↦ absurd (ground (arith, h, a, b))
      | inl b ↦ (elim (Option-cases (s.parse_url cfg.server.public_base_url)) [
        | inl p ↦ absurd (ground (arith, h, a, b, p))
        | inr (u, p) ↦ (
          record {
            store = is_store_driver_iff a;
            keystore = is_keystore_driver_iff b;
            token = elim (Bool-cases (cfg.keystore.pkcs11.token_label == "")) [
              | inl t ↦ inl ((eq_iff _ _).0 t)
              | inr t ↦ (elim (Option-cases cfg.keystore.pkcs11.slot_number) [
                | inl n ↦ inr n
                | inr (n, f) ↦ absurd (ground (arith, h, a, b, t, f))
              ])
            ];
            url = u;
            parsed = p;
            scheme = λ e. ground (arith, h, a, b, p, (eq_iff u.scheme "").1 e);
            host = λ e. ground (arith, h, a, b, p, (eq_iff u.host "").1 e);
          },
          ground (arith, h, a, b, p),
        )
      ])
    ])
  ]

  supported_store :
      (cfg.store.driver ≡ "sqlite") ⊎ (cfg.store.driver ≡ "postgres")
      → is_store_driver s cfg.store.driver ≡ true
  unfolding is_store_driver
  supported_store (inl e) = ground (arith, (eq_iff cfg.store.driver "sqlite").1 e)
  supported_store (inr e) = ground (arith, (eq_iff cfg.store.driver "postgres").1 e)

  supported_keystore :
      (cfg.keystore.driver ≡ "file")
        ⊎ (cfg.keystore.driver ≡ "vault")
        ⊎ (cfg.keystore.driver ≡ "pkcs11")
      → is_keystore_driver s cfg.keystore.driver ≡ true
  unfolding is_keystore_driver
  supported_keystore (inl e) = ground (arith, (eq_iff cfg.keystore.driver "file").1 e)
  supported_keystore (inr (inl e)) = ground (arith, (eq_iff cfg.keystore.driver "vault").1 e)
  supported_keystore (inr (inr e)) = ground (arith, (eq_iff cfg.keystore.driver "pkcs11").1 e)

  one_selector :
      (cfg.keystore.pkcs11.token_label ≡ "") ⊎ (cfg.keystore.pkcs11.slot_number ≡ none)
      → (not (cfg.keystore.pkcs11.token_label == "") && is_set s cfg.keystore.pkcs11.slot_number)
        ≡ false
  one_selector (inl e) = ground (arith, (eq_iff cfg.keystore.pkcs11.token_label "").1 e)
  one_selector (inr e) = ground (arith, e)

  validate_complete : IsAcceptable s cfg → validate s cfg ≡ ok (trimmed s cfg)
  unfolding validate with_trimmed_url
  validate_complete k = ground (
    arith,
    supported_store k.store,
    supported_keystore k.keystore,
    one_selector k.token,
    k.parsed,
    eq_false k.url.scheme "" k.scheme,
    eq_false k.url.host "" k.host,
  )

-- validate accepts a configuration exactly if its drivers are supported, its PKCS#11 token is not named by
-- label and slot both, and its public base URL is absolute; it then changes nothing but the slashes at the
-- end of that URL.
pub validate_iff :
    (s : Surroundings) (cfg : Config)
    → (IsAcceptable s cfg → validate s cfg ≡ ok (trimmed s cfg))
      × ((c : Config) → validate s cfg ≡ ok c → IsAcceptable s cfg × (c ≡ trimmed s cfg))
validate_iff s cfg = (validate_complete s cfg, validate_sound s cfg)
