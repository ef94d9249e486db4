-- ===== src/Examples/Options.antt =====
-- The set-up of a server and the registry of its handlers, at concrete inputs.
use hcom4db.Base.{ℕ, List, ◌≡◌, refl, pos, true, false, [], ◌∷◌, none, some, arith}
use hcom4db.Base.Maps.{bytes_key, erase, insert, lookup}
use hcom4db.Config.{
  ConfigMap, ConfigPair, CreateConfig, init_config_map, insert_pairs, string_2_num, yes_or_no,
}
use hcom4db.Config.Stoi.{stoi}
use hcom4db.Hcom.Call.{symbol}
use hcom4db.Hcom.Loader.{get_lib_path, init_dlopen_so, init_ock_rpc_dl, load_from, resolve_path}
use hcom4db.Hcom.Service.{
  service_create, service_destroy, service_register_channel_handler, service_register_op_handler,
  service_register_tls_cb, service_set_external_logger, service_set_oob_ip_and_port, service_stop,
}
use hcom4db.Hcom.Types.{Func, codes}
use hcom4db.Hcom.World.{
  World, invoke_int, invoke_value, invoke_void, is_ok, no_reply, user_ca, user_cert, user_erase,
  user_pri_key,
}
use hcom4db.Server.{
  RpcService, create_server, create_service, find_server, forget_server, server_destroy,
  service_name, transport_of,
}
use hcom4db.Server.Create.{
  check_create_cfg, create_configured, or_destroy, register_channel_handle, register_handlers,
  server_create_with_cfg, set_logger, set_up_options,
}
use hcom4db.Server.Features.{
  enable_rndv_key, expand_option_init, lacks_tls_function, register_tls, set_heartbeat, set_rndv,
  set_tls_configs, set_workers,
}
use hcom4db.Server.Options.{
  copy_entry, copy_field, default_option_init, set_addresses, set_segment_count, set_segments,
  set_work_thread_configs,
}
use hcom4db.Server.Registry.{add_all, add_all-register_all, knows, register_all, registry}
use hcom4db.Server.Tls.{TlsAsConfigured, expand_option_init-TlsAsConfigured}
use hcom4db.Server.TlsCallback.{
  expand_option_init-callbacks, tls_get_ca_cb, tls_get_cert_cb, tls_get_private_key_cb,
  tls_get_private_key_cb-erases, tls_keypass_erase_cb,
}
use hcom4db.Server.Undone.Maps.{CanDestroy}
use hcom4db.Server.Undone.{server_create_with_cfg-undone}
use hcom4db.Examples.Answers.{answers_texts, with_functions}
use hcom4db.Examples.Server.{serving, svc}

-- The library is loaded, with the functions of a server.
abbrev loaded : World
loaded =
    record (with_functions
      ("Service_Create" ∷ "Service_Stop" ∷ "Service_Destroy" ∷ "Service_RegisterTLSCb" ∷ [])) {
        lib = answers_texts;
        hcom_dl = 1;
      }

abbrev pair : ConfigPair
pair = record {
  key = some enable_rndv_key;
  value = some (record { address = 1; bytes = codes "maybe" });
}

-- A configuration that is refused after the service was created: "maybe" is neither yes nor no.
abbrev undecided : CreateConfig
undecided = record {
  mask = 1;
  size = pos 1;
  pairs = some (pair ∷ []);
  get_ca_and_verify = 0;
  get_cert = 0;
  get_pri_key = 0;
}

abbrev undecided_map : ConfigMap
undecided_map = (enable_rndv_key, record { address = 1; bytes = codes "maybe" }) ∷ []

undecided-read : init_config_map undecided [] ≡ some undecided_map
unfolding init_config_map insert_pairs insert
undecided-read = refl

loaded-CanDestroy : CanDestroy loaded
unfolding lookup
loaded-CanDestroy = record { bound = refl; answers = λ s t. refl }

loaded-free : lookup (service_name undecided_map) loaded.service_map ≡ none
unfolding lookup
loaded-free = refl

-- The server that is created.
fresh :
    find_server
      (server_create_with_cfg (some (codes "10.0.0.1")) 2000 64 (some undecided) loaded).0.1
      []
    ≡ none
unfolding find_server
fresh = refl

failed :
    is_ok (server_create_with_cfg (some (codes "10.0.0.1")) 2000 64 (some undecided) loaded).0.0
    ≡ false
unfolding server_create_with_cfg init_dlopen_so get_lib_path resolve_path load_from init_ock_rpc_dl
    check_create_cfg init_config_map insert_pairs insert create_configured set_logger
    service_set_external_logger create_server create_service service_create transport_of
    register_handlers service_set_oob_ip_and_port register_channel_handle
    service_register_channel_handler service_register_op_handler set_up_options default_option_init
    set_segments set_segment_count set_addresses copy_field string_2_num stoi expand_option_init
    set_workers set_work_thread_configs copy_entry set_heartbeat set_rndv yes_or_no or_destroy
    server_destroy find_server service_stop service_destroy forget_server erase invoke_int
    invoke_void invoke_value symbol lookup
failed = refl

server_create_with_cfg-undone_example :
    (server_create_with_cfg (some (codes "10.0.0.1")) 2000 64 (some undecided) loaded).1.service_map
    ≡ []
server_create_with_cfg-undone_example =
    server_create_with_cfg-undone (codes "10.0.0.1") 2000 64 undecided undecided_map loaded
      (λ e. absurd (omega arith)) loaded-CanDestroy undecided-read loaded-free fresh failed

-- TLS functions are announced by bit 2 of the mask.
abbrev secured : CreateConfig
secured = record undecided { mask = 4; get_ca_and_verify = 11; get_cert = 12; get_pri_key = 13 }

secured-ok : is_ok (expand_option_init 5 secured [] loaded).0 ≡ true
unfolding expand_option_init set_workers set_heartbeat string_2_num set_rndv yes_or_no
    set_tls_configs register_tls service_register_tls_cb invoke_value symbol lookup
secured-ok = refl

expand_option_init-TlsAsConfigured_example :
    TlsAsConfigured secured [] (expand_option_init 5 secured [] loaded).1
expand_option_init-TlsAsConfigured_example =
    expand_option_init-TlsAsConfigured 5 secured [] loaded secured-ok

-- The world that the callbacks find, with a path, a password and a function that erases it.
abbrev after_init : World
after_init = (expand_option_init 5 secured [] loaded).1

abbrev with_key : World
with_key = record after_init {
  lib = λ h. record (no_reply (pos 0)) { out = 70; key = 71; size = 72 };
}

with_key-tls_func : with_key.tls_func ≡ after_init.tls_func
with_key-tls_func = refl

after_init-on : after_init.options.enable_tls ≡ true
unfolding expand_option_init set_workers set_heartbeat string_2_num set_rndv yes_or_no
    set_tls_configs register_tls service_register_tls_cb invoke_value symbol lookup
after_init-on = refl

expand_option_init-callbacks_example :
    (lacks_tls_function secured ≡ false)
    × ((tls_get_cert_cb with_key).1.trace ≡ user_cert 12 ∷ with_key.trace)
    × ((tls_get_private_key_cb with_key).1.trace
        ≡ user_pri_key 13 with_key.tls_func.erase_key_pass ∷ with_key.trace)
    × ((tls_get_ca_cb 90 with_key).1.trace ≡ user_ca 11 90 ∷ with_key.trace)
expand_option_init-callbacks_example =
    expand_option_init-callbacks 5 secured [] loaded with_key 90 secured-ok after_init-on
      with_key-tls_func

tls_get_private_key_cb-erases_example :
    let k = tls_get_private_key_cb with_key in
    (is_ok k.0.ret ≡ true)
    × (k.0.erase ≡ Func.ock_rpc_tls_keypass_erase_cb)
    × ((tls_keypass_erase_cb 71 k.1).1.trace ≡ user_erase 72 71 ∷ k.1.trace)
tls_get_private_key_cb-erases_example =
    tls_get_private_key_cb-erases with_key (tls_get_private_key_cb with_key).1 71 refl

-- A registration that is taken, one for an unknown server, and one with an id out of range.
abbrev requests : List (ℕ × RpcService)
requests = (5, svc) ∷ (6, svc) ∷ (5, record svc { id = 1000 }) ∷ []

add_all-register_all_example :
    let r = register_all (knows serving) requests (registry serving) in
    ((add_all requests serving).0 ≡ r.0) × (registry (add_all requests serving).1 ≡ r.1)
add_all-register_all_example = add_all-register_all requests serving
