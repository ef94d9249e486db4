-- ===== src/Hcom/Channel.antt =====
-- The wrappers of src/hcom4db_dlopen_hcom.cpp for channels: each makes
-- its call if the table holds the function, and otherwise answers the default of its kind.
use hcom4db.Base.{ℕ, ℤ, Option}
use hcom4db.Hcom.Types.{Callback, Message, OpInfo, Request, SglRequest}
use hcom4db.Hcom.Call
use hcom4db.Hcom.World.{M, Reply, invoke_int, invoke_void}

unfoldable pub channel_set_up_ctx : ℕ → ℕ → M Reply
channel_set_up_ctx channel ctx = invoke_int (Call.channel_set_up_ctx channel ctx)

unfoldable pub channel_get_up_ctx : ℕ → M Reply
channel_get_up_ctx channel = invoke_int (Call.channel_get_up_ctx channel)

unfoldable pub channel_post_send : ℕ → OpInfo → Message → Option Callback → M Reply
channel_post_send channel op_info message cb =
    invoke_int (Call.channel_post_send channel op_info message cb)

unfoldable pub channel_post_response : ℕ → ℕ → OpInfo → Message → Option Callback → M Reply
channel_post_response channel rsp_ctx op_info message cb =
    invoke_int (Call.channel_post_response channel rsp_ctx op_info message cb)

unfoldable pub channel_post_send_raw : ℕ → Message → Option Callback → M Reply
channel_post_send_raw channel message cb =
    invoke_int (Call.channel_post_send_raw channel message cb)

unfoldable pub channel_post_response_raw : ℕ → ℕ → Message → Option Callback → M Reply
channel_post_response_raw channel rsp_ctx message cb =
    invoke_int (Call.channel_post_response_raw channel rsp_ctx message cb)

unfoldable pub channel_post_send_raw_sgl : ℕ → SglRequest → Option Callback → M Reply
channel_post_send_raw_sgl channel message cb =
    invoke_int (Call.channel_post_send_raw_sgl channel message cb)

unfoldable pub channel_post_response_raw_sgl : ℕ → ℕ → SglRequest → Option Callback → M Reply
channel_post_response_raw_sgl channel rsp_ctx message cb =
    invoke_int (Call.channel_post_response_raw_sgl channel rsp_ctx message cb)

unfoldable pub channel_sync_call : ℕ → OpInfo → Message → OpInfo → Message → M Reply
channel_sync_call channel req_info req rsp_info rsp =
    invoke_int (Call.channel_sync_call channel req_info req rsp_info rsp)

unfoldable pub channel_async_call : ℕ → OpInfo → Message → Option Callback → M Reply
channel_async_call channel op_info req cb =
    invoke_int (Call.channel_async_call channel op_info req cb)

unfoldable pub channel_sync_call_raw : ℕ → Message → Message → M Reply
channel_sync_call_raw channel req rsp = invoke_int (Call.channel_sync_call_raw channel req rsp)

unfoldable pub channel_async_call_raw : ℕ → Message → Option Callback → M Reply
channel_async_call_raw channel req cb = invoke_int (Call.channel_async_call_raw channel req cb)

unfoldable pub channel_sync_call_raw_sgl : ℕ → SglRequest → Message → M Reply
channel_sync_call_raw_sgl channel req rsp =
    invoke_int (Call.channel_sync_call_raw_sgl channel req rsp)

unfoldable pub channel_async_call_raw_sgl : ℕ → SglRequest → Option Callback → M Reply
channel_async_call_raw_sgl channel req cb =
    invoke_int (Call.channel_async_call_raw_sgl channel req cb)

unfoldable pub channel_sync_rndv_call : ℕ → OpInfo → Request → OpInfo → Message → M Reply
channel_sync_rndv_call channel req_info req rsp_info rsp =
    invoke_int (Call.channel_sync_rndv_call channel req_info req rsp_info rsp)

unfoldable pub channel_async_rndv_call : ℕ → OpInfo → Request → Option Callback → M Reply
channel_async_rndv_call channel req_info req cb =
    invoke_int (Call.channel_async_rndv_call channel req_info req cb)

unfoldable pub channel_sync_rndv_sgl_call : ℕ → OpInfo → SglRequest → OpInfo → Message → M Reply
channel_sync_rndv_sgl_call channel req_info req rsp_info rsp =
    invoke_int (Call.channel_sync_rndv_sgl_call channel req_info req rsp_info rsp)

unfoldable pub channel_async_rndv_sgl_call : ℕ → OpInfo → SglRequest → Option Callback → M Reply
channel_async_rndv_sgl_call channel req_info req cb =
    invoke_int (Call.channel_async_rndv_sgl_call channel req_info req cb)

unfoldable pub channel_read : ℕ → Request → Option Callback → M Reply
channel_read channel req cb = invoke_int (Call.channel_read channel req cb)

unfoldable pub channel_read_sgl : ℕ → Option SglRequest → Option Callback → M Reply
channel_read_sgl channel req cb = invoke_int (Call.channel_read_sgl channel req cb)

unfoldable pub channel_write : ℕ → Request → Option Callback → M Reply
channel_write channel req cb = invoke_int (Call.channel_write channel req cb)

unfoldable pub channel_write_sgl : ℕ → Option SglRequest → Option Callback → M Reply
channel_write_sgl channel req cb = invoke_int (Call.channel_write_sgl channel req cb)

unfoldable pub channel_close : ℕ → M (Unit {0})
channel_close channel = invoke_void (Call.channel_close channel)

unfoldable pub channel_set_one_side_timeout : ℕ → ℤ → M (Unit {0})
channel_set_one_side_timeout channel timeout =
    invoke_void (Call.channel_set_one_side_timeout channel timeout)

unfoldable pub channel_set_two_side_timeout : ℕ → ℤ → M (Unit {0})
channel_set_two_side_timeout channel timeout =
    invoke_void (Call.channel_set_two_side_timeout channel timeout)

unfoldable pub channel_de_refer : ℕ → M (Unit {0})
channel_de_refer channel = invoke_void (Call.channel_de_refer channel)

unfoldable pub channel_destroy : ℕ → M (Unit {0})
channel_destroy channel = invoke_void (Call.channel_destroy channel)
