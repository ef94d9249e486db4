-- ===== src/Server/Tls.antt =====
-- OckRpcSetTlsConfigs and OckRpcExpandOptionInit of src/hcom4db.cpp: when a server runs with TLS.
use hcom4db.Base.{
  ℕ, ◌≡◌, ◌≢◌, none, refl, Bool, true, false, ◌&&◌, some, Bool-cases, Option-cases, inl, inr, arith,
}
use mathlib.Core.Option.{some_inj}
use hcom4db.Base.Maps.{lookup, bytes_key, bytes_eq, bytes_eq_iff}
use hcom4db.Hcom.Types.{codes}
use hcom4db.Config.{CStr, ConfigMap, CreateConfig, has_bit, yes_or_no}
use hcom4db.Hcom.Service.{service_register_tls_cb}
use hcom4db.Hcom.World.{World, is_ok, invoke_value}
use hcom4db.Server.Features.{
  enable_tls_key, expand_option_init, register_tls, set_heartbeat, set_rndv, set_tls_configs,
  set_workers,
}

-- What the entry for TLS says: "yes", "no", or nothing, which counts as a yes.
pub data Says (m : ConfigMap) : Bool → Type 0 where
  default : lookup enable_tls_key m ≡ none → Says m true
  yes : (v : CStr) → lookup enable_tls_key m ≡ some v → v.bytes ≡ codes "yes" → Says m true
  no : (v : CStr) → lookup enable_tls_key m ≡ some v → v.bytes ≡ codes "no" → Says m false

-- TLS is on exactly where the mask announces the functions and the entry does not say "no"; then
-- none of the three functions is null, and they are the ones on record.
abbrev pub TlsAsConfigured : CreateConfig → ConfigMap → World → Type 0
TlsAsConfigured c m w =
    (b : Bool) × Says m b
    × (w.options.enable_tls ≡ has_bit c.mask 2 && b)
    × (w.options.enable_tls ≡ true
        → (c.get_ca_and_verify ≢ 0)
          × (c.get_cert ≢ 0)
          × (c.get_pri_key ≢ 0)
          × (w.tls_func.get_ca_and_verify ≡ c.get_ca_and_verify)
          × (w.tls_func.get_cert ≡ c.get_cert)
          × (w.tls_func.get_pri_key ≡ c.get_pri_key))

register_tls-on :
    (service : ℕ) (c : CreateConfig) (b : Bool) (w : World)
    → w.options.enable_tls ≡ b
    → let r = register_tls service c b w in
      is_ok r.0 ≡ true
      → (r.1.options.enable_tls ≡ has_bit c.mask 2 && b)
        × (r.1.options.enable_tls ≡ true
            → (c.get_ca_and_verify ≢ 0)
              × (c.get_cert ≢ 0)
              × (c.get_pri_key ≢ 0)
              × (r.1.tls_func.get_ca_and_verify ≡ c.get_ca_and_verify)
              × (r.1.tls_func.get_cert ≡ c.get_cert)
              × (r.1.tls_func.get_pri_key ≡ c.get_pri_key))
unfolding register_tls service_register_tls_cb invoke_value
register_tls-on service c b w = ground arith

yes_or_no-Says : (m : ConfigMap) (b : Bool) → yes_or_no m enable_tls_key true ≡ some b → Says m b
unfolding yes_or_no
yes_or_no-Says m b = elim (Option-cases (lookup enable_tls_key m)) [
  | inl missing ↦
      rw (missing, yes_or_no) λ e. (let same = some_inj.0 e in rw (← same) (Says.default missing))
  | inr (v, there) ↦
      rw (there, yes_or_no)
        (elim (Bool-cases (bytes_eq v.bytes (codes "yes"))) [
          | inl y ↦ rw y λ e.
              (let same = some_inj.0 e in rw (← same) (Says.yes v there ((bytes_eq_iff _ _).0 y)))
          | inr other ↦ rw other (elim (Bool-cases (bytes_eq v.bytes (codes "no"))) [
            | inl n ↦ rw n λ e.
                (let same = some_inj.0 e in rw (← same) (Says.no v there ((bytes_eq_iff _ _).0 n)))
            | inr neither ↦ rw neither λ e. cc
          ])
        ])
]

set_tls_configs-TlsAsConfigured :
    (service : ℕ) (c : CreateConfig) (m : ConfigMap) (w : World)
    → let r = set_tls_configs service c m w in is_ok r.0 ≡ true → TlsAsConfigured c m r.1
unfolding set_tls_configs
set_tls_configs-TlsAsConfigured service c m w =
    elim (Option-cases (yes_or_no m enable_tls_key true)) [
      | inl bad ↦ rw bad λ good. cc
      | inr (b, chosen) ↦ rw chosen λ good.
          (let (on, functions) = register_tls-on service c b _ refl good in
            (b, yes_or_no-Says m b chosen, on, functions))
    ]

-- Where OckRpcExpandOptionInit answers OCK_RPC_OK, the entry for TLS is "yes", "no" or missing, and
-- TLS is on exactly if the mask announces the TLS functions and the entry is not "no": without that
-- bit of the mask TLS is off also where the entry is "yes". Where TLS is on, none of the three
-- functions is null, and they are the ones that the TLS callbacks will call.
pub expand_option_init-TlsAsConfigured :
    (service : ℕ) (c : CreateConfig) (m : ConfigMap) (w : World)
    → let r = expand_option_init service c m w in is_ok r.0 ≡ true → TlsAsConfigured c m r.1
unfolding expand_option_init
expand_option_init-TlsAsConfigured service c m w =
    let w1 = (set_workers c m w).1 in
    let w2 = (set_heartbeat m w1).1 in
    let w3 = (set_rndv service m w2).1 in
    elim (Bool-cases (is_ok (set_workers c m w).0)) [
      | inr a ↦ rw a λ good. cc
      | inl a ↦ rw a (elim (Bool-cases (is_ok (set_heartbeat m w1).0)) [
        | inr b ↦ rw b λ good. cc
        | inl b ↦ rw b (elim (Bool-cases (is_ok (set_rndv service m w2).0)) [
          | inr d ↦ rw d λ good. cc
          | inl d ↦ rw d (elim (Bool-cases (is_ok (set_tls_configs service c m w3).0)) [
            | inr e ↦ rw e λ good. cc
            | inl e ↦ rw e λ good. set_tls_configs-TlsAsConfigured service c m w3 e
          ])
        ])
      ])
    ]
