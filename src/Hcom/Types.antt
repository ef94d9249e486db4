-- ===== src/Hcom/Types.antt =====
-- Structs and enums of src/hcom4db_hcom.h and src/hcom4db.h. Addresses and handles are numbers,
-- with 0 for nullptr; a pointer to a struct that may be null is an Option; a C string is the list
-- of its bytes without the terminator.
use hcom4db.Base.{ℕ, ℤ, pos, negsuc, Bool, List, [], ◌∷◌, Option}
use Prim.Native.Char.{code}
use Prim.Native.String.{String}

abbrev pub Bytes : Type 0
Bytes = List ℕ

abbrev pub codes : String → Bytes
codes String.[] = []
codes (String.◌∷◌ c s) = code c ∷ codes s

-- OckRpcStatus.
abbrev pub ock_rpc_ok : ℤ
ock_rpc_ok = pos 0

abbrev pub ock_rpc_err : ℤ
ock_rpc_err = negsuc 0

abbrev pub ock_rpc_err_invalid_param : ℤ
ock_rpc_err_invalid_param = negsuc 1

pub record OpInfo : Type 0 where
  pub op_code : ℕ
  pub timeout : ℤ

-- Service_OpInfo(): all fields zero. The code leaves `flags` and `errorCode` so.
abbrev pub zero_op_info : OpInfo
zero_op_info = record { op_code = 0; timeout = pos 0 }

-- Service_Message.
pub record Message : Type 0 where
  pub data_ptr : ℕ
  pub size : ℕ

-- OckRpcMessage.
pub record RpcMessage : Type 0 where
  pub data_ptr : ℕ
  pub len : ℕ

-- Service_Request and OckRpcRequest.
pub record Request : Type 0 where
  pub l_address : ℕ
  pub r_address : ℕ
  pub l_key : ℕ
  pub r_key : ℕ
  pub size : ℕ

abbrev pub zero_request : Request
zero_request = record { l_address = 0; r_address = 0; l_key = 0; r_key = 0; size = 0 }

-- Service_SglRequest and OckRpcSglRequest.
pub record SglRequest : Type 0 where
  pub iov : List Request
  pub iov_count : ℕ

-- A function pointer: null, the user's at an address, or one of the program's own functions.
pub data Func : Type 0 where
  null : Func
  at : ℕ → Func
  hcom_log ock_rpc_new_channel ock_rpc_broken_channel : Func
  ock_rpc_receive_handle ock_rpc_post_handle ock_rpc_one_side_done : Func
  ock_rpc_rndv_receive_handler : Func
  ock_rpc_tls_get_cert_cb ock_rpc_tls_get_private_key_cb ock_rpc_tls_get_ca_cb : Func
  ock_rpc_tls_keypass_erase_cb : Func
  response_call_back ock_rpc_callback_func : Func

-- Channel_Callback.
pub record Callback : Type 0 where
  pub cb : Func
  pub arg : ℕ

-- Service_MemoryRegionInfo.
pub record MemoryRegionInfo : Type 0 where
  pub l_address : ℕ
  pub l_key : ℕ
  pub size : ℕ

-- Net_MemoryAllocatorOptions.
pub record AllocatorOptions : Type 0 where
  pub address : ℕ
  pub size : ℕ
  pub min_block_size : ℕ
  pub bucket_count : ℕ
  pub aligned_address : ℕ
  pub cache_tier_count : ℕ
  pub cache_block_count_per_tier : ℕ
  pub cache_tier_policy : ℕ

pub data ServiceType : Type 0 where
  c_service_rdma c_service_tcp : ServiceType

-- Service_HandlerType.
pub data HandlerType : Type 0 where
  c_channel_new c_channel_broken : HandlerType

-- Service_ChannelPolicy.
pub data ChannelPolicy : Type 0 where
  c_channel_broken_all c_channel_reconnect c_channel_keep_alive : ChannelPolicy

-- Service_OpHandlerType.
pub data OpHandlerType : Type 0 where
  c_service_request_received c_service_request_posted c_service_readwrite_done : OpHandlerType

-- Net_MemoryAllocatorType.
pub data AllocatorType : Type 0 where
  c_dynamic_size c_dynamic_size_with_cache : AllocatorType

pub data WorkingMode : Type 0 where
  c_service_busy_polling c_service_event_polling : WorkingMode

-- Service_Options, the fields that the code sets.
pub record ServiceOptions : Type 0 where
  pub net_device_ip_mask : Bytes
  pub enable_tls : Bool
  pub tls_version : ℕ
  pub enable_rndv : Bool
  pub mode : WorkingMode
  pub worker_groups : Bytes
  pub worker_groups_cpu_set : Bytes
  pub heart_beat_idle_time : ℕ
  pub mr_send_receive_seg_count : ℕ
  pub mr_send_receive_seg_size : ℕ
  pub completion_queue_depth : ℕ
  pub pre_post_receive_size_per_qp : ℕ
  pub qp_send_queue_size : ℕ
  pub qp_receive_queue_size : ℕ
  pub oob_port_range : Bytes

-- Service_ConnectOpt, the fields that the code sets.
pub record ConnectOpt : Type 0 where
  pub ep_size : ℕ
  pub flags : ℕ

-- Service_ContextType.
pub data ContextType : Type 0 where
  service_received service_received_raw service_sent service_sent_raw service_one_side : ContextType
  service_invalid_op_type : ContextType

-- TlsFuncs: function pointers.
pub record TlsFuncs : Type 0 where
  pub get_ca_and_verify : ℕ
  pub get_cert : ℕ
  pub get_pri_key : ℕ
  pub erase_key_pass : ℕ

-- AsyncCbInfo. `req_addr` is the malloc'ed array, with what was stored in it.
pub record AsyncCbInfo : Type 0 where
  pub cb : ℕ
  pub arg : ℕ
  pub client : ℕ
  pub rsp : Option ℕ
  pub req_addr : Option (ℕ × List ℕ)
  pub req_cnt : ℕ

-- OckRpcMrInfo.
pub record MrInfo : Type 0 where
  pub mr : ℕ
  pub mr_info : MemoryRegionInfo
  pub server : ℕ

-- OckRpcCallDone.
pub record CallDone : Type 0 where
  pub cb : ℕ
  pub arg : ℕ
