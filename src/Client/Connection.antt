-- ===== src/Client/Connection.antt =====
-- OckRpcClientConnectWithCfg and OckRpcClientDisconnect of src/hcom4db.cpp: a connection finds its
-- server by name, opens a channel, and gives the channel an allocator; a disconnect undoes both.
pub mod Maps
pub mod Forgets
pub mod Opened
use hcom4db.Base.{ℕ, ℤ, ◌==◌, Bool, true, false, Option, none, some, if◌then◌else◌, ltb, length, []}
use hcom4db.Base.Maps.{lookup, erase, bytes_key, nat_eq}
use hcom4db.Config.{CStr, ConfigMap, CreateConfig, init_config_map, yes_or_no}
use hcom4db.Config.Allocator.{prepare_mem_allocator}
use hcom4db.Hcom.Types.{
  AllocatorOptions, Bytes, ConnectOpt, MrInfo, codes, ock_rpc_ok, ock_rpc_err,
  ock_rpc_err_invalid_param,
}
use hcom4db.Hcom.Channel.{channel_close}
use hcom4db.Hcom.Memory.{net_memory_allocator_destroy, service_destroy_memory_region}
use hcom4db.Hcom.Service.{service_connect}
use hcom4db.Hcom.World.{
  M, World, Mutex, LockOp, mutex, free, pure, ◌>>=◌, ◌>>◌, gets, modify, emit, is_ok, unless_ok,
  or_return,
}
use hcom4db.Server.{service_name}
use hcom4db.Server.Create.{check_create_cfg}

-- `none` for OCK_RPC_ERR and OCK_RPC_ERR_INVALID_PARAM, which the caller treats alike.
unfoldable pub get_cur_service : ConfigMap → M (Option ℕ)
get_cur_service m = if ltb 64 (length (service_name m)) then pure none else do
  emit (mutex Mutex.service_mutex LockOp.lock_shared)
  found ← gets (λ w. lookup (service_name m) w.service_map)
  emit (mutex Mutex.service_mutex LockOp.unlock_shared)
  pure found

abbrev pub self_polling_key : Bytes
self_polling_key = codes "client.enable.selfpolling"

-- SER_C_CHANNEL_SELF_POLLING where the channel polls itself, and one endpoint.
abbrev pub connection_option : Bool → ConnectOpt
connection_option self_polling = record { ep_size = 1; flags = if self_polling then 1 else 0 }

abbrev pub set_connection_option : ConfigMap → Option ConnectOpt
set_connection_option m = elim (yes_or_no m self_polling_key true) [
  | none ↦ none
  | some b ↦ some (connection_option b)
]

abbrev pub client_create_info_key : Bytes
client_create_info_key = codes "client.create.info"

-- OCK_RPC_STR_CLIENT_CREATE_INFO, `hello` by default.
abbrev pub pay_load : ConfigMap → Bytes
pay_load m = elim (lookup client_create_info_key m) [ none ↦ codes "hello" | some v ↦ v.bytes ]

-- From Service_Connect on; the second component is what `*client` is set to, and `option` is the
-- uninitialised local of OckRpcPrepareMemAllocator.
unfoldable pub open_channel : Bytes → ℕ → ConfigMap → AllocatorOptions → ℕ → ConnectOpt → M (ℤ × ℕ)
unfolding service_connect
open_channel ip port m option service conn = do
  client ← service_connect service ip port (pay_load m) conn
  unless_ok client.ret (ock_rpc_err, client.out)
      do
        prepared ← prepare_mem_allocator service client.out m option
        unless_ok prepared (ock_rpc_err, client.out) (pure (ock_rpc_ok, client.out))

unfoldable pub connect_configured : Bytes → ℕ → AllocatorOptions → ConfigMap → M (ℤ × ℕ)
connect_configured ip port option m = do
  service ← get_cur_service m
  or_return service (ock_rpc_err_invalid_param, 0)
      λ s.
        or_return (set_connection_option m) (ock_rpc_err_invalid_param, 0)
          λ conn. open_channel ip port m option s conn

-- OckRpcCheckClientCreateCfg makes the checks that the server makes.
abbrev pub check_client_create_cfg :
    Option Bytes → ℕ → ℕ → Option CreateConfig → Option (Bytes × CreateConfig)
check_client_create_cfg = check_create_cfg

unfoldable pub connect_with_cfg :
    Option Bytes → ℕ → ℕ → Option CreateConfig → AllocatorOptions → M (ℤ × ℕ)
connect_with_cfg ip port client configs option =
    or_return (check_client_create_cfg ip port client configs) (ock_rpc_err_invalid_param, 0)
      λ (address, c).
        or_return (init_config_map c []) (ock_rpc_err_invalid_param, 0)
          λ m. connect_configured address port option m

-- The status of Net_MemoryAllocatorDestroy is only logged.
unfoldable pub drop_allocator : ℕ → M (Unit {0})
unfolding net_memory_allocator_destroy
drop_allocator client = do
  allocator ← gets (λ w. lookup client w.memory_allocator)
  or_return allocator tt λ a. do
    net_memory_allocator_destroy a
    modify (λ w. record w { memory_allocator = erase client w.memory_allocator })

unfoldable pub drop_region : ℕ → M (Unit {0})
unfolding service_destroy_memory_region
drop_region client = do
  region ← gets (λ w. lookup client w.memory_region)
  or_return region tt λ r. do
    emit (free r.mr_info.l_address)
    service_destroy_memory_region r.server r.mr
    modify (λ w. record w { memory_region = erase client w.memory_region })

unfoldable pub disconnect : ℕ → M (Unit {0})
unfolding channel_close
disconnect client = do drop_allocator client; drop_region client; channel_close client
