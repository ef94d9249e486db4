-- ===== src/Program/Creating.antt =====
-- OckRpcServerCreateWithCfg, OckRpcServerDestroy and OckRpcServerStart of src/hcom4db.cpp keep the
-- program sound and leave no mutex held.
use hcom4db.Base.{ℕ, ℤ, Option}
use hcom4db.Base.Maps.{bytes_key, int_eq}
use hcom4db.Config.{ConfigMap, CreateConfig}
use hcom4db.Hcom.Types.{Bytes, ock_rpc_ok, ock_rpc_err_invalid_param}
use hcom4db.Hcom.Service.{service_start}
use hcom4db.Hcom.World.{M, is_ok}
use hcom4db.Server.{create_server, server_destroy, server_start}
use hcom4db.Server.Create.{
  create_configured, or_destroy, register_handlers, server_create_with_cfg, set_logger,
  set_up_options,
}
use hcom4db.Server.Kept.Steps.{
  default_option_init-Keeps, expand_option_init-Keeps, register_handlers-Keeps, set_logger-Keeps,
}
use hcom4db.Server.Locks.{create_server-free, server_destroy-free}
use hcom4db.Program.Loading.{init_dlopen_so-Orderly}
use hcom4db.Program.Servers.{create_server-Safe, server_destroy-Safe}
use hcom4db.Program.Orderly.{
  Orderly, Keeps-Orderly, orderly, bind-Orderly, if-Orderly, pure-Orderly,
}

pub server_start-Orderly : (server : ℕ) → Orderly (server_start server)
unfolding server_start service_start
server_start-Orderly server = search orderly depth 10

pub server_destroy-Orderly : (server : ℕ) → Orderly (server_destroy server)
server_destroy-Orderly server = record {
  sound = server_destroy-Safe server;
  tidy = server_destroy-free server;
}

create_server-Orderly : (m : ConfigMap) → Orderly (create_server m)
create_server-Orderly m = record { sound = create_server-Safe m; tidy = create_server-free m }

or_destroy-Orderly :
    (service : ℕ) (ret : ℤ) (rest : M ℤ) → Orderly rest → Orderly (or_destroy service ret rest)
unfolding or_destroy
or_destroy-Orderly service ret rest safe =
    if-Orderly (is_ok ret) safe
      (bind-Orderly (server_destroy-Orderly service) (λ _. pure-Orderly ock_rpc_err_invalid_param))

set_up_options-Orderly :
    (service : ℕ) (ip : Bytes) (c : CreateConfig) (m : ConfigMap)
    → Orderly (set_up_options service ip c m)
unfolding set_up_options
set_up_options-Orderly service ip c m =
    bind-Orderly (Keeps-Orderly (default_option_init-Keeps m ip)) (λ d.
      or_destroy-Orderly service d _ (
        bind-Orderly (Keeps-Orderly (expand_option_init-Keeps service c m))
          (λ x. or_destroy-Orderly service x _ (pure-Orderly ock_rpc_ok))))

set_logger-Orderly : Orderly set_logger
set_logger-Orderly = Keeps-Orderly set_logger-Keeps

register_handlers-Orderly :
    (service : ℕ) (ip : Bytes) (port : ℕ) (m : ConfigMap)
    → Orderly (register_handlers service ip port m)
register_handlers-Orderly service ip port m =
    Keeps-Orderly (register_handlers-Keeps service ip port m)

create_configured-Orderly :
    (ip : Bytes) (port : ℕ) (c : CreateConfig) (m : ConfigMap)
    → Orderly (create_configured ip port c m)
unfolding create_configured
create_configured-Orderly ip port c m =
    search
      (
        orderly, set_logger-Orderly, create_server-Orderly, register_handlers-Orderly,
        set_up_options-Orderly,
      )
      depth 14

pub server_create_with_cfg-Orderly :
    (ip : Option Bytes) (port server : ℕ) (c : Option CreateConfig)
    → Orderly (server_create_with_cfg ip port server c)
unfolding server_create_with_cfg
server_create_with_cfg-Orderly ip port server c =
    search (orderly, init_dlopen_so-Orderly, create_configured-Orderly) depth 12
