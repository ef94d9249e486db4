-- ===== src/Hcom/Context.antt =====
-- The wrappers of src/hcom4db_dlopen_hcom.cpp for service contexts and rendezvous contexts: each makes
-- its call if the table holds the function, and otherwise answers the default of its kind.
use hcom4db.Base.{ℕ, Option}
use hcom4db.Hcom.Types.{Callback, Message, OpInfo}
use hcom4db.Hcom.Call
use hcom4db.Hcom.World.{M, Reply, invoke_int, invoke_value, invoke_void}

unfoldable pub service_get_channel : ℕ → M Reply
service_get_channel context = invoke_int (Call.service_get_channel context)

unfoldable pub service_get_context_type : ℕ → M Reply
service_get_context_type context = invoke_int (Call.service_get_context_type context)

unfoldable pub service_get_result : ℕ → M Reply
service_get_result context = invoke_int (Call.service_get_result context)

unfoldable pub service_get_rsp_ctx : ℕ → M Reply
service_get_rsp_ctx context = invoke_int (Call.service_get_rsp_ctx context)

unfoldable pub service_get_op_info : ℕ → M Reply
service_get_op_info context = invoke_int (Call.service_get_op_info context)

unfoldable pub service_get_message_data : ℕ → M Reply
service_get_message_data context = invoke_value (Call.service_get_message_data context)

unfoldable pub service_get_message_data_len : ℕ → M Reply
service_get_message_data_len context = invoke_value (Call.service_get_message_data_len context)

unfoldable pub service_context_clone : ℕ → M Reply
service_context_clone context = invoke_value (Call.service_context_clone context)

unfoldable pub service_context_de_clone : ℕ → M (Unit {0})
service_context_de_clone context = invoke_void (Call.service_context_de_clone context)

unfoldable pub service_get_rndv_channel : ℕ → M Reply
service_get_rndv_channel context = invoke_int (Call.service_get_rndv_channel context)

unfoldable pub service_get_rndv_ctx_type : ℕ → M Reply
service_get_rndv_ctx_type context = invoke_int (Call.service_get_rndv_ctx_type context)

unfoldable pub service_get_rndv_op_info : ℕ → M Reply
service_get_rndv_op_info context = invoke_int (Call.service_get_rndv_op_info context)

unfoldable pub service_get_rndv_message : ℕ → M Reply
service_get_rndv_message context = invoke_int (Call.service_get_rndv_message context)

unfoldable pub service_rndv_free_context : ℕ → M Reply
service_rndv_free_context context = invoke_int (Call.service_rndv_free_context context)

unfoldable pub service_rndv_reply : ℕ → OpInfo → Message → Option Callback → M Reply
service_rndv_reply context op_info message cb =
    invoke_int (Call.service_rndv_reply context op_info message cb)
