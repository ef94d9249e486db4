-- ===== src/Server/TlsCallback.antt =====
-- The TLS callbacks of src/hcom4db.cpp, which libhcom.so calls: OckRpcTlsGetCertCb,
-- OckRpcTlsKeypassEraseCb, OckRpcTlsGetPrivateKeyCb and OckRpcTlsGetCACb. A path or a password is the
-- address of its text. The answer of getPriKey has the path in `out`, the password in `key` and the
-- function that erases it in `size`; the one of getCaAndVerify has the two paths in `out` and `key`.
use hcom4db.Base.{
  ℕ, ◌==◌, ℤ, ◌≡◌, refl, Bool, true, false, ◌||◌, ◌∷◌, if◌then◌else◌, ap, ◌∙◌, arith,
}
use hcom4db.Config.{ConfigMap, CreateConfig}
use hcom4db.Hcom.Types.{Func, ock_rpc_ok, ock_rpc_err}
use hcom4db.Hcom.World.{
  World, M, user_cert, user_ca, user_pri_key, user_erase, pure, ◌>>=◌, ◌>>◌, gets, modify, ask,
  emit, is_ok,
}
use hcom4db.Server.Features.{expand_option_init, lacks_tls_function}
use hcom4db.Server.Tls.{expand_option_init-TlsAsConfigured}

-- `return missing ? OCK_RPC_ERR : OCK_RPC_OK`, as the callbacks end.
abbrev pub unless_missing : Bool → ℤ
unless_missing missing = if missing then ock_rpc_err else ock_rpc_ok

pub record CertAnswer : Type 0 where
  pub ret : ℤ
  pub cert_path : ℕ

unfoldable pub tls_get_cert_cb : M CertAnswer
tls_get_cert_cb = do
  t ← gets (λ w. w.tls_func)
  r ← ask (user_cert t.get_cert)
  pure (record { ret = unless_missing (r.out == 0); cert_path = r.out })

unfoldable pub tls_keypass_erase_cb : ℕ → M (Unit {0})
tls_keypass_erase_cb key_pass = do
  t ← gets (λ w. w.tls_func)
  emit (user_erase t.erase_key_pass key_pass)

pub record KeyAnswer : Type 0 where
  pub ret : ℤ
  pub pri_key_path : ℕ
  pub key_pass : ℕ
  pub erase : Func

-- `*erase` is the address of a function and never null.
unfoldable pub tls_get_private_key_cb : M KeyAnswer
tls_get_private_key_cb = do
  t ← gets (λ w. w.tls_func)
  r ← ask (user_pri_key t.get_pri_key t.erase_key_pass)
  modify (λ w. record w { tls_func = record w.tls_func { erase_key_pass = r.size } })
  pure (record {
    ret = unless_missing ((r.out == 0) || (r.key == 0));
    pri_key_path = r.out;
    key_pass = r.key;
    erase = Func.ock_rpc_tls_keypass_erase_cb;
  })

pub record CaAnswer : Type 0 where
  pub ret : ℤ
  pub ca_path : ℕ
  pub crl_path : ℕ
  pub verify_type : ℕ

-- C_VERIFY_BY_CUSTOM_FUNC.
abbrev pub c_verify_by_custom_func : ℕ
c_verify_by_custom_func = 2

-- `verify` is where the user's function stores the one that verifies a certificate.
unfoldable pub tls_get_ca_cb : ℕ → M CaAnswer
tls_get_ca_cb verify = do
  t ← gets (λ w. w.tls_func)
  r ← ask (user_ca t.get_ca_and_verify verify)
  pure (record {
    ret = unless_missing ((r.out == 0) || (r.key == 0) || (verify == 0));
    ca_path = r.out;
    crl_path = r.key;
    verify_type = c_verify_by_custom_func;
  })

-- Where OckRpcExpandOptionInit answers OCK_RPC_OK with TLS on, then, as long as the TLS functions on
-- record are not replaced, OckRpcTlsGetCertCb, OckRpcTlsGetPrivateKeyCb and OckRpcTlsGetCACb each
-- call the function of the configuration, and nothing else, and none of the three is null.
pub expand_option_init-callbacks :
    (service : ℕ) (c : CreateConfig) (m : ConfigMap) (w later : World) (verify : ℕ)
    → let r = expand_option_init service c m w in
      is_ok r.0 ≡ true
      → r.1.options.enable_tls ≡ true
      → later.tls_func ≡ r.1.tls_func
      → (lacks_tls_function c ≡ false)
        × ((tls_get_cert_cb later).1.trace ≡ user_cert c.get_cert ∷ later.trace)
        × ((tls_get_private_key_cb later).1.trace
            ≡ user_pri_key c.get_pri_key later.tls_func.erase_key_pass ∷ later.trace)
        × ((tls_get_ca_cb verify later).1.trace ≡ user_ca c.get_ca_and_verify verify ∷ later.trace)
unfolding tls_get_cert_cb tls_get_private_key_cb tls_get_ca_cb
expand_option_init-callbacks service c m w later verify good on same =
    let (b, says, enabled, functions) = expand_option_init-TlsAsConfigured service c m w good in
    let (some_ca, some_cert, some_key, ca, cert, key) = functions on in
    let present : lacks_tls_function c ≡ false = ground arith in
    (
      present,
      ap (λ f. user_cert f ∷ later.trace) (ap (λ t. t.get_cert) same ∙ cert),
      ap (λ f. user_pri_key f later.tls_func.erase_key_pass ∷ later.trace)
          (ap (λ t. t.get_pri_key) same ∙ key),
      ap (λ f. user_ca f verify ∷ later.trace) (ap (λ t. t.get_ca_and_verify) same ∙ ca),
    )

-- OckRpcTlsGetPrivateKeyCb answers OCK_RPC_OK exactly if neither the path nor the password is null;
-- whatever it answers, OckRpcTlsKeypassEraseCb, called later and with the TLS functions on record not
-- replaced, runs the function that the user's getPriKey stored, on the password that it is given.
pub tls_get_private_key_cb-erases :
    (w later : World) (key_pass : ℕ)
    → let r = w.lib (user_pri_key w.tls_func.get_pri_key w.tls_func.erase_key_pass ∷ w.trace) in
      let k = tls_get_private_key_cb w in
      later.tls_func ≡ k.1.tls_func
      → (is_ok k.0.ret ≡ (if r.out == 0 then false else if r.key == 0 then false else true))
        × (k.0.erase ≡ Func.ock_rpc_tls_keypass_erase_cb)
        × ((tls_keypass_erase_cb key_pass later).1.trace ≡ user_erase r.size key_pass ∷ later.trace)
unfolding tls_get_private_key_cb tls_keypass_erase_cb
tls_get_private_key_cb-erases w later key_pass same =
    (ground arith, refl, ap (λ t. user_erase t.erase_key_pass key_pass ∷ later.trace) same)
