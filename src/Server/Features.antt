-- ===== src/Server/Features.antt =====
-- The optional features of a server in src/hcom4db.cpp: the rendezvous handlers, TLS, and
-- OckRpcExpandOptionInit, which sets both with the worker threads and the heartbeat.
use hcom4db.Base.{ℕ, ◌==◌, ℤ, Bool, true, false, ◌&&◌, ◌||◌, if◌then◌else◌, u16}
use hcom4db.Base.Maps.{lookup, bytes_key}
use hcom4db.Config.{ConfigMap, CreateConfig, has_bit, string_2_num, yes_or_no}
use hcom4db.Hcom.Types.{Bytes, Func, TlsFuncs, codes, ock_rpc_ok, ock_rpc_err}
use hcom4db.Hcom.Service.{
  service_register_allocate_handler, service_register_free_handler,
  service_register_rndv_op_handler, service_register_tls_cb,
}
use hcom4db.Hcom.World.{M, pure, ◌>>=◌, ◌>>◌, modify, unless_ok, or_return}
use hcom4db.Server.Options.{set_options, set_work_thread_configs}

abbrev pub rndv_malloc_key : Bytes
rndv_malloc_key = codes "server.rndv.malloc"

abbrev pub rndv_mfree_key : Bytes
rndv_mfree_key = codes "server.rndv.mfree"

-- The two functions are the addresses of the values.
unfoldable pub register_rndv : ℕ → ℕ → ℕ → M ℤ
unfolding service_register_allocate_handler service_register_free_handler
    service_register_rndv_op_handler
register_rndv service allocate release = do
  service_register_allocate_handler service (Func.at allocate)
  service_register_free_handler service (Func.at release)
  service_register_rndv_op_handler service Func.ock_rpc_rndv_receive_handler
  pure ock_rpc_ok

unfoldable pub set_rndv_op_handler : ℕ → ConfigMap → M ℤ
set_rndv_op_handler service m = or_return (lookup rndv_malloc_key m) ock_rpc_err λ allocate.
    or_return (lookup rndv_mfree_key m) ock_rpc_err
      λ release. register_rndv service allocate.address release.address

abbrev pub enable_tls_key : Bytes
enable_tls_key = codes "server.tls.enable"

-- C_SERVICE_TLS_1_3.
abbrev pub c_service_tls_1_3 : ℕ
c_service_tls_1_3 = 772

-- One of the three functions is missing.
abbrev pub lacks_tls_function : CreateConfig → Bool
lacks_tls_function c = (c.get_ca_and_verify == 0) || (c.get_cert == 0) || (c.get_pri_key == 0)

abbrev pub tls_functions : CreateConfig → TlsFuncs → TlsFuncs
tls_functions c old = record old {
  get_ca_and_verify = c.get_ca_and_verify;
  get_cert = c.get_cert;
  get_pri_key = c.get_pri_key;
}

-- The part behind the choice: `OCK_RPC_CONFIG_USE_SSL_CALLBACK` is bit 2.
unfoldable pub register_tls : ℕ → CreateConfig → Bool → M ℤ
unfolding service_register_tls_cb
register_tls service c enable =
    if has_bit c.mask 2 && enable
    then (if lacks_tls_function c then pure ock_rpc_err else (do
      modify (λ w. record w { tls_func = tls_functions c w.tls_func })
      service_register_tls_cb service Func.ock_rpc_tls_get_cert_cb
          Func.ock_rpc_tls_get_private_key_cb Func.ock_rpc_tls_get_ca_cb
      pure ock_rpc_ok))
    else (set_options (λ o. record o { enable_tls = false }) >> pure ock_rpc_ok)

unfoldable pub set_tls_configs : ℕ → CreateConfig → ConfigMap → M ℤ
set_tls_configs service c m = do
  set_options (λ o. record o { enable_tls = true; tls_version = c_service_tls_1_3 })
  or_return (yes_or_no m enable_tls_key true) ock_rpc_err λ enable. do
    set_options (λ o. record o { enable_tls = enable })
    register_tls service c enable

abbrev pub enable_rndv_key : Bytes
enable_rndv_key = codes "server.rndv.enable"

unfoldable pub enable_rndv : ℕ → ConfigMap → M ℤ
enable_rndv service m = do
  ret ← set_rndv_op_handler service m
  unless_ok ret ock_rpc_err do set_options (λ o. record o { enable_rndv = true }); pure ock_rpc_ok

unfoldable pub set_rndv : ℕ → ConfigMap → M ℤ
set_rndv service m = do
  set_options (λ o. record o { enable_rndv = false })
  or_return (yes_or_no m enable_rndv_key false) ock_rpc_err
      λ enable. if enable then enable_rndv service m else pure ock_rpc_ok

abbrev pub heartbeat_key : Bytes
heartbeat_key = codes "server.heartbeat.idle"

-- The heartbeat is a uint32_t that is stored in a uint16_t.
unfoldable pub set_heartbeat : ConfigMap → M ℤ
set_heartbeat m =
    or_return (string_2_num m heartbeat_key 1) ock_rpc_err
      λ n. do set_options (λ o. record o { heart_beat_idle_time = u16 n }); pure ock_rpc_ok

-- The worker threads are configured only where the mask says that there is a configuration.
unfoldable pub set_workers : CreateConfig → ConfigMap → M ℤ
set_workers c m = if has_bit c.mask 0 then set_work_thread_configs m else pure ock_rpc_ok

-- Four steps, each of which ends the call with OCK_RPC_ERR where it fails.
unfoldable pub expand_option_init : ℕ → CreateConfig → ConfigMap → M ℤ
expand_option_init service c m = do
  workers ← set_workers c m
  unless_ok workers ock_rpc_err do
    heartbeat ← set_heartbeat m
    unless_ok heartbeat ock_rpc_err do
      rndv ← set_rndv service m
      unless_ok rndv ock_rpc_err
          do tls ← set_tls_configs service c m; unless_ok tls ock_rpc_err (pure ock_rpc_ok)
