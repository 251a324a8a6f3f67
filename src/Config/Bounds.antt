-- ===== src/Config/Bounds.antt =====
-- What a runtime configuration that rust/src/config.rs returns has been checked for.
use jbl_aura_play_together.Base.{
  ℕ, ◌+◌, ◌≤◌, ◌≡◌, ◌≢◌, refl, inl, inr, arith, String, false, Option, none, some, Option-cases,
  List, [], ◌∷◌, ◌++◌, Result, ok, err, Result-cases, codes, trim, Bool-cases, u64_max,
}
use mathlib.Core.Option
use jbl_aura_play_together.Error.{JblError, missing_setting, invalid_config, invalid_timeout}
use jbl_aura_play_together.Model.{DeviceIdentity, identity_eq, parse}
use jbl_aura_play_together.Model.Identity.{IsIdentity, parse-IsIdentity}
use jbl_aura_play_together.Model.Group.{ok_or, nonempty, and_then, ◌>>=◌}
use jbl_aura_play_together.Config.Text.{PathBuf, parse_unsigned, path_of}
use jbl_aura_play_together.Config.{
  Variable, environment_overrides, select_config_source, automatic_config_path, load,
  with_identities, RuntimeConfig, BroadcastConfirmation, PrivateFiles, source_path, or_default,
  within, required, timeout_setting, port_setting, confirmation_setting, identity_setting,
  runtime_config, from_values, config_values, load_from_source, resolve_path, max_u16,
}
use jbl_aura_play_together.Config.Settings.{Values, lookup}

-- What the rest of the program takes for granted.
pub record IsRuntimeConfig (c : RuntimeConfig) : Type 0 where
  pub address : c.address ≢ []
  pub tls_sha256 : c.tls_sha256 ≢ []
  pub timeout : (1 ≤ c.timeout_seconds) × (c.timeout_seconds ≤ 30)
  pub port : (1024 ≤ c.gena_callback_port) × (c.gena_callback_port ≤ max_u16)
  pub jbl : IsIdentity c.jbl_identity
  pub aura : IsIdentity c.aura_identity
  pub distinct : identity_eq c.jbl_identity c.aura_identity ≡ false

-- A chain that succeeds has succeeded in its first step.
bind_ok :
    {A C : Type 0} (r : Result A JblError) (f : A → Result C JblError) (c : C)
    → (r >>= f) ≡ ok c
    → (a : A) × (r ≡ ok a) × (f a ≡ ok c)
bind_ok (ok a) f c h = (a, refl, h)
bind_ok (err e) f c h = absurd (ground arith)

ok_or_ok : {A : Type 0} (o : Option A) (e : JblError) (a : A) → ok_or o e ≡ ok a → o ≡ some a
ok_or_ok none e a h = absurd (ground arith)
ok_or_ok (some b) e a h = ground arith

within_bounds :
    (low high : ℕ) (o : Option ℕ) (e : JblError) (n : ℕ)
    → ok_or (and_then o (within low high)) e ≡ ok n
    → (low ≤ n) × (n ≤ high)
within_bounds low high none e n h = absurd (ground arith)
within_bounds low high (some m) e n h = ground arith

timeout_bounds : (values : Values) (n : ℕ) → timeout_setting values ≡ ok n → (1 ≤ n) × (n ≤ 30)
unfolding timeout_setting
timeout_bounds values n h =
    within_bounds 1 30
      (parse_unsigned (u64_max + 1)
        (or_default (codes "5") (lookup (codes "JBL_LOCAL_API_TIMEOUT") values)))
      invalid_timeout n h

port_bounds : (values : Values) (n : ℕ) → port_setting values ≡ ok n → (1024 ≤ n) × (n ≤ max_u16)
unfolding port_setting
port_bounds values n h = elim (Option-cases (lookup (codes "JBL_GENA_CALLBACK_PORT") values)) [
  | inl q ↦ ground (arith, q)
  | inr (v, q) ↦
      within_bounds 1024 max_u16 (parse_unsigned (max_u16 + 1) v) invalid_config n
        (ground (arith, q))
]

nonempty_some : (s v : List ℕ) → nonempty s ≡ some v → v ≢ []
nonempty_some [] v h e = absurd (ground arith)
nonempty_some (c ∷ s) v h e = ground (arith, e)

required_nonempty :
    (values : Values) (key : String) (v : List ℕ) → required values key ≡ ok v → v ≢ []
unfolding required
required_nonempty values key v h = elim (Option-cases (lookup (codes key) values)) [
  | inl q ↦ absurd (ground (arith, q))
  | inr (raw, q) ↦
      nonempty_some (trim raw) v
        (ok_or_ok (nonempty (trim raw)) (missing_setting key) v (ground (arith, q, h)))
]

identity_setting-IsIdentity :
    (values : Values) (key : String) (i : DeviceIdentity)
    → identity_setting values key ≡ ok i
    → IsIdentity i
unfolding identity_setting
identity_setting-IsIdentity values key i h =
    let b = bind_ok (required values key) (λ value. ok_or (parse value) invalid_config) i h in
    parse-IsIdentity b.0 i (ok_or_ok (parse b.0) invalid_config i b.2)

-- The last part of the load keeps the numbers and the identities.
runtime_config-IsRuntimeConfig :
    (current_dir config_path : Option PathBuf) (values : Values) (s t : List ℕ) (timeout port : ℕ)
    (confirmation : BroadcastConfirmation) (jbl aura : DeviceIdentity) (c : RuntimeConfig)
    → runtime_config current_dir config_path values s t timeout port confirmation jbl aura ≡ ok c
    → (1 ≤ timeout) × (timeout ≤ 30)
    → (1024 ≤ port) × (port ≤ max_u16)
    → IsIdentity jbl
    → IsIdentity aura
    → identity_eq jbl aura ≡ false
    → IsRuntimeConfig c
unfolding runtime_config
runtime_config-IsRuntimeConfig current_dir config_path values s t timeout port confirmation jbl aura
      c h ht hp hj ha hd =
    elim (Result-cases (required values "JBL_IP")) [
      | inr (e, q) ↦ absurd (ground (arith, q, h))
      | inl (address, q) ↦ elim (Result-cases (resolve_path current_dir s config_path)) [
        | inr (e, r) ↦ absurd (ground (arith, q, r, h))
        | inl (certificate, r) ↦ elim (Result-cases (resolve_path current_dir t config_path)) [
          | inr (e, u) ↦ absurd (ground (arith, q, r, u, h))
          | inl (key, u) ↦ elim (Result-cases (required values "JBL_LOCAL_API_TLS_SHA256")) [
            | inr (e, w) ↦ absurd (ground (arith, q, r, u, w, h))
            | inl (tls, w) ↦
                let e : c ≡ record {
                  address = address;
                  certificate = certificate;
                  private_key = key;
                  tls_sha256 = tls;
                  jbl_identity = jbl;
                  expected_model =
                      or_default (codes "JBL Authentics 300")
                        (lookup (codes "JBL_EXPECTED_MODEL") values);
                  aura_identity = aura;
                  timeout_seconds = timeout;
                  gena_callback_port = port;
                  broadcast_confirmation = confirmation;
                } =
                  ground (arith, q, r, u, w, h) in
                rw e (record {
                  address = required_nonempty values "JBL_IP" address q;
                  tls_sha256 = required_nonempty values "JBL_LOCAL_API_TLS_SHA256" tls w;
                  timeout = ht;
                  port = hp;
                  jbl = hj;
                  aura = ha;
                  distinct = hd;
                })
          ]
        ]
      ]
    ]

with_identities-IsRuntimeConfig :
    (current_dir config_path : Option PathBuf) (values : Values) (s t : List ℕ) (timeout port : ℕ)
    (confirmation : BroadcastConfirmation) (c : RuntimeConfig)
    → with_identities current_dir config_path values s t timeout port confirmation ≡ ok c
    → (1 ≤ timeout) × (timeout ≤ 30)
    → (1024 ≤ port) × (port ≤ max_u16)
    → IsRuntimeConfig c
unfolding with_identities
with_identities-IsRuntimeConfig current_dir config_path values s t timeout port confirmation c h ht
      hp =
    elim (Result-cases (identity_setting values "JBL_BT_MAC")) [
      | inr (e, q) ↦ absurd (ground (arith, q, h))
      | inl (jbl, q) ↦ elim (Result-cases (identity_setting values "AURA_BT_MAC")) [
        | inr (e, r) ↦ absurd (ground (arith, q, r, h))
        | inl (aura, r) ↦ elim (Bool-cases (identity_eq jbl aura)) [
          | inl u ↦ absurd (ground (arith, q, r, u, h))
          | inr u ↦
              runtime_config-IsRuntimeConfig current_dir config_path values s t timeout port
                confirmation jbl aura c (ground (arith, q, r, u, h)) ht hp
                (identity_setting-IsIdentity values "JBL_BT_MAC" jbl q)
                (identity_setting-IsIdentity values "AURA_BT_MAC" aura r) u
        ]
      ]
    ]

from_values-IsRuntimeConfig :
    (current_dir config_path : Option PathBuf) (values : Values) (c : RuntimeConfig)
    → from_values current_dir config_path values ≡ ok c
    → IsRuntimeConfig c
unfolding from_values
from_values-IsRuntimeConfig current_dir config_path values c h =
    elim (Result-cases (required values "JBL_LOCAL_API_CERT")) [
      | inr (e, q) ↦ absurd (ground (arith, q, h))
      | inl (s, q) ↦ elim (Result-cases (required values "JBL_LOCAL_API_KEY")) [
        | inr (e, r) ↦ absurd (ground (arith, q, r, h))
        | inl (t, r) ↦ elim (Result-cases (timeout_setting values)) [
          | inr (e, u) ↦ absurd (ground (arith, q, r, u, h))
          | inl (timeout, u) ↦ elim (Result-cases (port_setting values)) [
            | inr (e, v) ↦ absurd (ground (arith, q, r, u, v, h))
            | inl (port, v) ↦ elim (Result-cases (confirmation_setting values)) [
              | inr (e, w) ↦ absurd (ground (arith, q, r, u, v, w, h))
              | inl (confirmation, w) ↦
                  with_identities-IsRuntimeConfig current_dir config_path values s t timeout port
                    confirmation c (ground (arith, q, r, u, v, w, h))
                    (timeout_bounds values timeout u) (port_bounds values port v)
            ]
          ]
        ]
      ]
    ]

-- Whatever the environment, the private file and the working directory, a configuration that loads
-- has a non-empty address and fingerprint, a timeout of 1 to 30 seconds, a port of 1024 to 65535, and
-- two valid identities that differ.
pub load-IsRuntimeConfig :
    (current_dir : Option PathBuf) (files : PrivateFiles) (env : List ℕ → Variable)
    (explicit_path : Option PathBuf) (environment_path xdg_config_home home : Option (List ℕ))
    (c : RuntimeConfig)
    → load current_dir files env explicit_path environment_path xdg_config_home home ≡ ok c
    → IsRuntimeConfig c
unfolding load load_from_source
load-IsRuntimeConfig current_dir files env explicit_path environment_path xdg_config_home home c h =
    let source =
      select_config_source explicit_path (Option.map path_of environment_path)
        (automatic_config_path xdg_config_home home) in
    elim (Result-cases (environment_overrides env)) [
      | inr (e, q) ↦ absurd (ground (arith, q, h))
      | inl (overrides, q) ↦ elim (Result-cases (config_values files source)) [
        | inr (e, r) ↦ absurd (ground (arith, q, r, h))
        | inl (values, r) ↦
            from_values-IsRuntimeConfig current_dir (source_path source) (overrides ++ values) c
              (ground (arith, q, r, h))
      ]
    ]
