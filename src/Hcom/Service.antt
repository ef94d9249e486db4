-- ===== src/Hcom/Service.antt =====
-- The wrappers of src/hcom4db_dlopen_hcom.cpp for services: each makes
-- its call if the table holds the function, and otherwise answers the default of its kind.
use hcom4db.Base.{ℕ, Bool}
use hcom4db.Hcom.Types.{
  Bytes, ChannelPolicy, ConnectOpt, Func, HandlerType, OpHandlerType, ServiceOptions, ServiceType,
}
use hcom4db.Hcom.Call
use hcom4db.Hcom.World.{M, Reply, invoke_int, invoke_value, invoke_void}

unfoldable pub service_set_external_logger : Func → M (Unit {0})
service_set_external_logger h = invoke_void (Call.service_set_external_logger h)

unfoldable pub service_create : ServiceType → Bytes → Bool → M Reply
service_create t name start_oob_svr = invoke_int (Call.service_create t name start_oob_svr)

unfoldable pub service_set_oob_ip_and_port : ℕ → Bytes → ℕ → M (Unit {0})
service_set_oob_ip_and_port service ip port =
    invoke_void (Call.service_set_oob_ip_and_port service ip port)

unfoldable pub service_get_oob_ip_and_port : ℕ → M Reply
service_get_oob_ip_and_port service = invoke_value (Call.service_get_oob_ip_and_port service)

unfoldable pub service_start : ℕ → ServiceOptions → M Reply
service_start service options = invoke_int (Call.service_start service options)

unfoldable pub service_stop : ℕ → M (Unit {0})
service_stop service = invoke_void (Call.service_stop service)

unfoldable pub service_destroy : ℕ → M Reply
service_destroy service = invoke_int (Call.service_destroy service)

unfoldable pub service_connect : ℕ → Bytes → ℕ → Bytes → ConnectOpt → M Reply
service_connect service oob_ip_or_name oob_port payload options =
    invoke_int (Call.service_connect service oob_ip_or_name oob_port payload options)

unfoldable pub service_register_channel_handler :
    ℕ → HandlerType → Func → ChannelPolicy → ℕ → M Reply
service_register_channel_handler service t h policy usr_ctx =
    invoke_value (Call.service_register_channel_handler service t h policy usr_ctx)

unfoldable pub service_register_op_handler : ℕ → ℕ → OpHandlerType → Func → M Reply
service_register_op_handler service i t h =
    invoke_value (Call.service_register_op_handler service i t h)

unfoldable pub service_register_idle_handler : ℕ → Func → M Reply
service_register_idle_handler service h =
    invoke_value (Call.service_register_idle_handler service h)

unfoldable pub service_register_allocate_handler : ℕ → Func → M Reply
service_register_allocate_handler service h =
    invoke_value (Call.service_register_allocate_handler service h)

unfoldable pub service_register_free_handler : ℕ → Func → M Reply
service_register_free_handler service h =
    invoke_value (Call.service_register_free_handler service h)

unfoldable pub service_register_rndv_op_handler : ℕ → Func → M Reply
service_register_rndv_op_handler service h =
    invoke_value (Call.service_register_rndv_op_handler service h)

unfoldable pub service_register_tls_cb : ℕ → Func → Func → Func → M Reply
service_register_tls_cb service cert_cb pri_key_cb ca_cb =
    invoke_value (Call.service_register_tls_cb service cert_cb pri_key_cb ca_cb)
