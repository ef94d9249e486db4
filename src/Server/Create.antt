-- ===== src/Server/Create.antt =====
-- OckRpcServerCreateWithCfg of src/hcom4db.cpp: it finds the library, checks the arguments, creates the
-- service, registers the handlers and sets the options; when the options fail it destroys the service.
use hcom4db.Base.{ℕ, ◌==◌, ℤ, ◌&&◌, ◌||◌, not, [], Option, none, some, if◌then◌else◌, ltb, eq_ℤ}
use hcom4db.Base.Maps.{lookup, bytes_key}
use hcom4db.Config.{ConfigMap, CreateConfig, init_config_map}
use hcom4db.Hcom.Types.{
  Bytes, ChannelPolicy, Func, HandlerType, OpHandlerType, codes, ock_rpc_ok, ock_rpc_err,
  ock_rpc_err_invalid_param,
}
use hcom4db.Hcom.Loader.{init_dlopen_so}
use hcom4db.Hcom.Service.{
  service_register_channel_handler, service_register_op_handler, service_set_external_logger,
  service_set_oob_ip_and_port,
}
use hcom4db.Hcom.World.{M, pure, ◌>>=◌, ◌>>◌, gets, modify, is_ok, unless_ok, or_return}
use hcom4db.Server.{create_server, server_destroy}
use hcom4db.Server.Options.{default_option_init}
use hcom4db.Server.Features.{expand_option_init}

abbrev pub client_new_key : Bytes
client_new_key = codes "server.client.new"

abbrev pub client_break_key : Bytes
client_break_key = codes "server.client.break"

-- The function at the address of an entry, or a default.
abbrev pub handler_of : ConfigMap → Bytes → Func → Func
handler_of m key default = elim (lookup key m) [ none ↦ default | some v ↦ Func.at v.address ]

unfoldable pub register_channel_handle : ℕ → ConfigMap → M (Unit {0})
unfolding service_register_channel_handler
register_channel_handle service m = do
  service_register_channel_handler service HandlerType.c_channel_new
      (handler_of m client_new_key Func.ock_rpc_new_channel) ChannelPolicy.c_channel_broken_all 1
  service_register_channel_handler service HandlerType.c_channel_broken
      (handler_of m client_break_key Func.ock_rpc_broken_channel) ChannelPolicy.c_channel_broken_all
      1
  pure tt

abbrev pub ock_min_port_num : ℕ
ock_min_port_num = 1024

-- The checks shared by server and client: the address is there, the port is 0 or at least 1024, the
-- out parameter and the configuration are not null.
unfoldable pub check_create_cfg :
    Option Bytes → ℕ → ℕ → Option CreateConfig → Option (Bytes × CreateConfig)
check_create_cfg none port out configs = none
check_create_cfg (some ip) port out none = none
check_create_cfg (some ip) port out (some c) =
    if (not (port == 0) && ltb port ock_min_port_num) || (out == 0) then none else some (ip, c)

-- `HcomLog` where the user set no logger.
abbrev pub logger_of : Func → Func
logger_of Func.null = Func.hcom_log
logger_of f = f

unfoldable pub set_logger : M (Unit {0})
unfolding service_set_external_logger
set_logger = do
  old ← gets (λ w. w.log_func)
  modify (λ w. record w { log_func = logger_of old })
  service_set_external_logger (logger_of old)

unfoldable pub register_handlers : ℕ → Bytes → ℕ → ConfigMap → M (Unit {0})
unfolding service_set_oob_ip_and_port service_register_op_handler
register_handlers service ip port m = do
  service_set_oob_ip_and_port service ip port
  register_channel_handle service m
  service_register_op_handler service 0 OpHandlerType.c_service_request_received
      Func.ock_rpc_receive_handle
  service_register_op_handler service 0 OpHandlerType.c_service_request_posted
      Func.ock_rpc_post_handle
  service_register_op_handler service 0 OpHandlerType.c_service_readwrite_done
      Func.ock_rpc_one_side_done
  pure tt

-- `OckRpcServerDestroy(service); return OCK_RPC_ERR_INVALID_PARAM;` where a step fails.
unfoldable pub or_destroy : ℕ → ℤ → M ℤ → M ℤ
or_destroy service ret rest =
    if is_ok ret then rest else (server_destroy service >> pure ock_rpc_err_invalid_param)

unfoldable pub set_up_options : ℕ → Bytes → CreateConfig → ConfigMap → M ℤ
set_up_options service ip c m = do
  defaults ← default_option_init m ip
  or_destroy service defaults
      (do expanded ← expand_option_init service c m; or_destroy service expanded (pure ock_rpc_ok))

-- The part behind the checks; the second component is what `*server` is set to.
unfoldable pub create_configured : Bytes → ℕ → CreateConfig → ConfigMap → M (ℤ × ℕ)
create_configured ip port c m = do
  set_logger
  (ret, service) ← create_server m
  if eq_ℤ ret ock_rpc_err_invalid_param
      then pure (ock_rpc_err_invalid_param, service)
      else unless_ok ret (ock_rpc_err, service)
          do
            register_handlers service ip port m
            done ← set_up_options service ip c m
            pure (done, service)

unfoldable pub server_create_with_cfg : Option Bytes → ℕ → ℕ → Option CreateConfig → M (ℤ × ℕ)
server_create_with_cfg ip port server configs = do
  loaded ← init_dlopen_so
  unless_ok loaded (ock_rpc_err, 0)
      (or_return (check_create_cfg ip port server configs) (ock_rpc_err_invalid_param, 0)
        λ (address, c).
          or_return (init_config_map c []) (ock_rpc_err_invalid_param, 0)
            λ m. create_configured address port c m)
