-- ===== src/Hcom/Call.antt =====
-- The calls of libhcom.so, one constructor for each function of the table in
-- src/hcom4db_dlopen_hcom.cpp, with the arguments that the code passes. `symbol` is the name under
-- which the function is looked up in the library.
use hcom4db.Base.{ℕ, ℤ, Bool, Option, String}
use hcom4db.Hcom.Types.{
  AllocatorOptions, AllocatorType, Bytes, Callback, ChannelPolicy, ConnectOpt, Func, HandlerType,
  Message, OpHandlerType, OpInfo, Request, ServiceOptions, ServiceType, SglRequest,
}

pub data Call : Type 0 where
  service_get_channel : ℕ → Call
  service_get_context_type : ℕ → Call
  service_get_result : ℕ → Call
  service_get_rsp_ctx : ℕ → Call
  service_get_op_info : ℕ → Call
  service_get_message_data : ℕ → Call
  service_get_message_data_len : ℕ → Call
  service_context_clone : ℕ → Call
  service_context_de_clone : ℕ → Call
  service_get_rndv_channel : ℕ → Call
  service_get_rndv_ctx_type : ℕ → Call
  service_get_rndv_op_info : ℕ → Call
  service_get_rndv_message : ℕ → Call
  service_rndv_free_context : ℕ → Call
  service_rndv_reply : ℕ → OpInfo → Message → Option Callback → Call
  channel_set_up_ctx : ℕ → ℕ → Call
  channel_get_up_ctx : ℕ → Call
  channel_post_send : ℕ → OpInfo → Message → Option Callback → Call
  channel_post_response : ℕ → ℕ → OpInfo → Message → Option Callback → Call
  channel_post_send_raw : ℕ → Message → Option Callback → Call
  channel_post_response_raw : ℕ → ℕ → Message → Option Callback → Call
  channel_post_send_raw_sgl : ℕ → SglRequest → Option Callback → Call
  channel_post_response_raw_sgl : ℕ → ℕ → SglRequest → Option Callback → Call
  channel_sync_call : ℕ → OpInfo → Message → OpInfo → Message → Call
  channel_async_call : ℕ → OpInfo → Message → Option Callback → Call
  channel_sync_call_raw : ℕ → Message → Message → Call
  channel_async_call_raw : ℕ → Message → Option Callback → Call
  channel_sync_call_raw_sgl : ℕ → SglRequest → Message → Call
  channel_async_call_raw_sgl : ℕ → SglRequest → Option Callback → Call
  channel_sync_rndv_call : ℕ → OpInfo → Request → OpInfo → Message → Call
  channel_async_rndv_call : ℕ → OpInfo → Request → Option Callback → Call
  channel_sync_rndv_sgl_call : ℕ → OpInfo → SglRequest → OpInfo → Message → Call
  channel_async_rndv_sgl_call : ℕ → OpInfo → SglRequest → Option Callback → Call
  channel_read : ℕ → Request → Option Callback → Call
  channel_read_sgl : ℕ → Option SglRequest → Option Callback → Call
  channel_write : ℕ → Request → Option Callback → Call
  channel_write_sgl : ℕ → Option SglRequest → Option Callback → Call
  channel_close : ℕ → Call
  channel_set_one_side_timeout : ℕ → ℤ → Call
  channel_set_two_side_timeout : ℕ → ℤ → Call
  channel_de_refer : ℕ → Call
  channel_destroy : ℕ → Call
  service_set_external_logger : Func → Call
  service_create : ServiceType → Bytes → Bool → Call
  service_set_oob_ip_and_port : ℕ → Bytes → ℕ → Call
  service_get_oob_ip_and_port : ℕ → Call
  service_start : ℕ → ServiceOptions → Call
  service_stop : ℕ → Call
  service_destroy : ℕ → Call
  service_connect : ℕ → Bytes → ℕ → Bytes → ConnectOpt → Call
  service_register_channel_handler : ℕ → HandlerType → Func → ChannelPolicy → ℕ → Call
  service_register_op_handler : ℕ → ℕ → OpHandlerType → Func → Call
  service_register_idle_handler : ℕ → Func → Call
  service_register_allocate_handler : ℕ → Func → Call
  service_register_free_handler : ℕ → Func → Call
  service_register_rndv_op_handler : ℕ → Func → Call
  service_register_tls_cb : ℕ → Func → Func → Func → Call
  service_register_memory_region : ℕ → ℕ → Call
  service_register_assign_memory_region : ℕ → ℕ → ℕ → Call
  service_get_memory_region_info : ℕ → Call
  service_destroy_memory_region : ℕ → ℕ → Call
  net_memory_allocator_create : AllocatorType → AllocatorOptions → Call
  net_memory_allocator_destroy : ℕ → Call
  net_memory_allocator_set_mr_key : ℕ → ℕ → Call
  net_memory_allocator_mem_offset : ℕ → ℕ → Call
  net_memory_allocator_free_size : ℕ → Call
  net_memory_allocator_allocate : ℕ → ℕ → Call
  net_memory_allocator_free : ℕ → ℕ → Call

unfoldable pub symbol : Call → String
symbol (service_get_channel _) = "Service_GetChannel"
symbol (service_get_context_type _) = "Service_GetContextType"
symbol (service_get_result _) = "Service_GetResult"
symbol (service_get_rsp_ctx _) = "Service_GetRspCtx"
symbol (service_get_op_info _) = "Service_GetOpInfo"
symbol (service_get_message_data _) = "Service_GetMessageData"
symbol (service_get_message_data_len _) = "Service_GetMessageDataLen"
symbol (service_context_clone _) = "Service_ContextClone"
symbol (service_context_de_clone _) = "Service_ContextDeClone"
symbol (service_get_rndv_channel _) = "Service_GetRndvChannel"
symbol (service_get_rndv_ctx_type _) = "Service_GetRndvCtxType"
symbol (service_get_rndv_op_info _) = "Service_GetRndvOpInfo"
symbol (service_get_rndv_message _) = "Service_GetRndvMessage"
symbol (service_rndv_free_context _) = "Service_RndvFreeContext"
symbol (service_rndv_reply _ _ _ _) = "Service_RndvReply"
symbol (channel_set_up_ctx _ _) = "Channel_SetUpCtx"
symbol (channel_get_up_ctx _) = "Channel_GetUpCtx"
symbol (channel_post_send _ _ _ _) = "Channel_PostSend"
symbol (channel_post_response _ _ _ _ _) = "Channel_PostResponse"
symbol (channel_post_send_raw _ _ _) = "Channel_PostSendRaw"
symbol (channel_post_response_raw _ _ _ _) = "Channel_PostResponseRaw"
symbol (channel_post_send_raw_sgl _ _ _) = "Channel_PostSendRawSgl"
symbol (channel_post_response_raw_sgl _ _ _ _) = "Channel_PostResponseRawSgl"
symbol (channel_sync_call _ _ _ _ _) = "Channel_SyncCall"
symbol (channel_async_call _ _ _ _) = "Channel_AsyncCall"
symbol (channel_sync_call_raw _ _ _) = "Channel_SyncCallRaw"
symbol (channel_async_call_raw _ _ _) = "Channel_AsyncCallRaw"
symbol (channel_sync_call_raw_sgl _ _ _) = "Channel_SyncCallRawSgl"
symbol (channel_async_call_raw_sgl _ _ _) = "Channel_AsyncCallRawSgl"
symbol (channel_sync_rndv_call _ _ _ _ _) = "Channel_SyncRndvCall"
symbol (channel_async_rndv_call _ _ _ _) = "Channel_AsyncRndvCall"
symbol (channel_sync_rndv_sgl_call _ _ _ _ _) = "Channel_SyncRndvSglCall"
symbol (channel_async_rndv_sgl_call _ _ _ _) = "Channel_AsyncRndvSglCall"
symbol (channel_read _ _ _) = "Channel_Read"
symbol (channel_read_sgl _ _ _) = "Channel_ReadSgl"
symbol (channel_write _ _ _) = "Channel_Write"
symbol (channel_write_sgl _ _ _) = "Channel_WriteSgl"
symbol (channel_close _) = "Channel_Close"
symbol (channel_set_one_side_timeout _ _) = "Channel_SetOneSideTimeout"
symbol (channel_set_two_side_timeout _ _) = "Channel_SetTwoSideTimeout"
symbol (channel_de_refer _) = "Channel_DeRefer"
symbol (channel_destroy _) = "Channel_Destroy"
symbol (service_set_external_logger _) = "Service_SetExternalLogger"
symbol (service_create _ _ _) = "Service_Create"
symbol (service_set_oob_ip_and_port _ _ _) = "Service_SetOobIpAndPort"
symbol (service_get_oob_ip_and_port _) = "Service_GetOobIpAndPort"
symbol (service_start _ _) = "Service_Start"
symbol (service_stop _) = "Service_Stop"
symbol (service_destroy _) = "Service_Destroy"
symbol (service_connect _ _ _ _ _) = "Service_Connect"
symbol (service_register_channel_handler _ _ _ _ _) = "Service_RegisterChannelHandler"
symbol (service_register_op_handler _ _ _ _) = "Service_RegisterOpHandler"
symbol (service_register_idle_handler _ _) = "Service_RegisterIdleHandler"
symbol (service_register_allocate_handler _ _) = "Service_RegisterAllocateHandler"
symbol (service_register_free_handler _ _) = "Service_RegisterFreeHandler"
symbol (service_register_rndv_op_handler _ _) = "Service_RegisterRndvOpHandler"
symbol (service_register_tls_cb _ _ _ _) = "Service_RegisterTLSCb"
symbol (service_register_memory_region _ _) = "Service_RegisterMemoryRegion"
symbol (service_register_assign_memory_region _ _ _) = "Service_RegisterAssignMemoryRegion"
symbol (service_get_memory_region_info _) = "Service_GetMemoryRegionInfo"
symbol (service_destroy_memory_region _ _) = "Service_DestroyMemoryRegion"
symbol (net_memory_allocator_create _ _) = "Net_MemoryAllocatorCreate"
symbol (net_memory_allocator_destroy _) = "Net_MemoryAllocatorDestroy"
symbol (net_memory_allocator_set_mr_key _ _) = "Net_MemoryAllocatorSetMrKey"
symbol (net_memory_allocator_mem_offset _ _) = "Net_MemoryAllocatorMemOffset"
symbol (net_memory_allocator_free_size _) = "Net_MemoryAllocatorFreeSize"
symbol (net_memory_allocator_allocate _ _) = "Net_MemoryAllocatorAllocate"
symbol (net_memory_allocator_free _ _) = "Net_MemoryAllocatorFree"
