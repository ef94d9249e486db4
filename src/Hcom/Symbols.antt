-- ===== src/Hcom/Symbols.antt =====
-- The symbols that each loader of src/hcom4db_dlopen_hcom.cpp looks up, in its order; each loader
-- is `load_symbols` of its list. `dl_symbol_funcs` is the array of the loaders.
use hcom4db.Base.{String, List, [], ◌∷◌}

abbrev pub dlsym_service_layer_service_handler_func : List String
dlsym_service_layer_service_handler_func =
    "Service_GetChannel" ∷ "Service_GetContextType" ∷ "Service_GetResult" ∷ "Service_GetRspCtx"
    ∷ "Service_GetOpInfo" ∷ "Service_GetMessageData" ∷ "Service_GetMessageDataLen"
    ∷ "Service_ContextClone" ∷ "Service_ContextDeClone" ∷ []

abbrev pub dlsym_service_layer_service_rndv_handler_func : List String
dlsym_service_layer_service_rndv_handler_func =
    "Service_GetRndvChannel" ∷ "Service_GetRndvCtxType" ∷ "Service_GetRndvOpInfo"
    ∷ "Service_GetRndvMessage" ∷ "Service_RndvFreeContext" ∷ "Service_RndvReply" ∷ []

abbrev pub dlsym_service_layer_rndv_func : List String
dlsym_service_layer_rndv_func =
    "Channel_SyncRndvCall" ∷ "Channel_AsyncRndvCall" ∷ "Channel_SyncRndvSglCall"
    ∷ "Channel_AsyncRndvSglCall" ∷ []

abbrev pub dlsym_service_layer_send_func : List String
dlsym_service_layer_send_func =
    "Channel_SetUpCtx" ∷ "Channel_GetUpCtx" ∷ "Channel_PostSend" ∷ "Channel_PostResponse"
    ∷ "Channel_PostSendRaw" ∷ "Channel_PostResponseRaw" ∷ "Channel_PostSendRawSgl" ∷ []

abbrev pub dlsym_service_layer_call_func : List String
dlsym_service_layer_call_func =
    "Channel_SyncCall" ∷ "Channel_AsyncCall" ∷ "Channel_SyncCallRaw" ∷ "Channel_AsyncCallRaw"
    ∷ "Channel_SyncCallRawSgl" ∷ "Channel_AsyncCallRawSgl" ∷ []

abbrev pub dlsym_service_layer_oneside_func : List String
dlsym_service_layer_oneside_func =
    "Service_RegisterMemoryRegion" ∷ "Service_RegisterAssignMemoryRegion"
    ∷ "Service_GetMemoryRegionInfo" ∷ "Service_DestroyMemoryRegion" ∷ "Channel_Read"
    ∷ "Channel_ReadSgl" ∷ "Channel_Write" ∷ "Channel_WriteSgl" ∷ []

abbrev pub dlsym_service_layer_channel_handle_func : List String
dlsym_service_layer_channel_handle_func =
    "Channel_Close" ∷ "Channel_DeRefer" ∷ "Channel_SetOneSideTimeout" ∷ "Channel_SetTwoSideTimeout"
    ∷ []

abbrev pub dlsym_service_layer_service_init_func : List String
dlsym_service_layer_service_init_func =
    "Service_SetExternalLogger" ∷ "Service_Create" ∷ "Service_SetOobIpAndPort"
    ∷ "Service_GetOobIpAndPort" ∷ "Service_Start" ∷ "Service_Stop" ∷ "Service_Destroy"
    ∷ "Service_Connect" ∷ "Channel_Destroy" ∷ []

abbrev pub dlsym_service_layer_service_create_register_func : List String
dlsym_service_layer_service_create_register_func =
    "Service_RegisterChannelHandler" ∷ "Service_RegisterOpHandler" ∷ "Service_RegisterIdleHandler"
    ∷ "Service_RegisterAllocateHandler" ∷ "Service_RegisterFreeHandler"
    ∷ "Service_RegisterRndvOpHandler" ∷ "Service_RegisterTLSCb" ∷ []

abbrev pub dlsym_trans_layer_allocator_func : List String
dlsym_trans_layer_allocator_func =
    "Net_MemoryAllocatorCreate" ∷ "Net_MemoryAllocatorDestroy" ∷ "Net_MemoryAllocatorSetMrKey"
    ∷ "Net_MemoryAllocatorMemOffset" ∷ "Net_MemoryAllocatorAllocate" ∷ "Net_MemoryAllocatorFreeSize"
    ∷ "Net_MemoryAllocatorFree" ∷ []

-- g_dlSymFuncsArr.
abbrev pub dl_symbol_funcs : List (List String)
dl_symbol_funcs =
    dlsym_service_layer_call_func ∷ dlsym_service_layer_channel_handle_func
    ∷ dlsym_service_layer_oneside_func ∷ dlsym_service_layer_rndv_func
    ∷ dlsym_service_layer_send_func ∷ dlsym_service_layer_service_create_register_func
    ∷ dlsym_service_layer_service_handler_func ∷ dlsym_service_layer_service_init_func
    ∷ dlsym_service_layer_service_rndv_handler_func ∷ dlsym_trans_layer_allocator_func ∷ []
