-- ===== src/Forward.antt =====
-- The functions of src/hcom4db.cpp that only pass their arguments on to libhcom.so, or do nothing,
-- and OckRpcGetMemoryRegionInfo and OckRpcMemoryAllocatorCreate, which copy a struct on the way.
use hcom4db.Base.{ℕ, ◌==◌, if◌then◌else◌, ℤ, pos, Option, none, some}
use hcom4db.Hcom.Types.{
  AllocatorOptions, AllocatorType, Func, MemoryRegionInfo, ock_rpc_ok, ock_rpc_err,
  ock_rpc_err_invalid_param,
}
use hcom4db.Hcom.Channel.{channel_de_refer, channel_get_up_ctx, channel_set_up_ctx}
use hcom4db.Hcom.Context.{
  service_context_clone, service_context_de_clone, service_get_channel, service_get_rndv_channel,
  service_rndv_free_context,
}
use hcom4db.Hcom.Memory.{
  net_memory_allocator_allocate, net_memory_allocator_create, net_memory_allocator_destroy,
  net_memory_allocator_free, net_memory_allocator_free_size, net_memory_allocator_mem_offset,
  net_memory_allocator_set_mr_key, service_destroy_memory_region, service_get_memory_region_info,
  service_register_assign_memory_region, service_register_memory_region,
}
use hcom4db.Hcom.Service.{service_get_oob_ip_and_port}
use hcom4db.Hcom.World.{M, Reply, pure, ◌>>=◌, ◌>>◌, modify, unless_ok}

unfoldable pub get_oob_ip_and_port : ℕ → M Reply
unfolding service_get_oob_ip_and_port
get_oob_ip_and_port server = service_get_oob_ip_and_port server

unfoldable pub clone_ctx : ℕ → M Reply
unfolding service_context_clone
clone_ctx ctx = service_context_clone ctx

unfoldable pub de_clone_ctx : ℕ → M (Unit {0})
unfolding service_context_de_clone
de_clone_ctx ctx = service_context_de_clone ctx

unfoldable pub cleanup_ctx : ℕ → M (Unit {0})
cleanup_ctx ctx = pure tt

unfoldable pub server_ctx_builder_thread_local : ℕ → M ℕ
server_ctx_builder_thread_local server = pure 0

unfoldable pub server_ctx_cleanup_thread_local : ℕ → ℕ → M (Unit {0})
server_ctx_cleanup_thread_local server ctx = pure tt

unfoldable pub disable_secure_hmac : M (Unit {0})
disable_secure_hmac = pure tt

unfoldable pub disconnect_break_handler : ℕ → M (Unit {0})
unfolding channel_de_refer
disconnect_break_handler client = channel_de_refer client

unfoldable pub set_up_ctx : ℕ → ℕ → M Reply
unfolding channel_set_up_ctx
set_up_ctx client ctx = channel_set_up_ctx client ctx

unfoldable pub get_up_ctx : ℕ → M Reply
unfolding channel_get_up_ctx
get_up_ctx client = channel_get_up_ctx client

-- The handlers that a server registers where the user has none.
unfoldable pub ock_rpc_new_channel : ℕ → M ℤ
ock_rpc_new_channel channel = pure ock_rpc_ok

unfoldable pub ock_rpc_broken_channel : ℕ → M ℤ
unfolding channel_de_refer
ock_rpc_broken_channel channel = channel_de_refer channel >> pure ock_rpc_ok

unfoldable pub ock_rpc_post_handle : ℕ → M ℤ
ock_rpc_post_handle ctx = pure (pos 0)

unfoldable pub ock_rpc_one_side_done : ℕ → M ℤ
ock_rpc_one_side_done ctx = pure (pos 0)

unfoldable pub get_client : ℕ → M Reply
unfolding service_get_channel
get_client ctx = service_get_channel ctx

unfoldable pub get_rndv_client : ℕ → M Reply
unfolding service_get_rndv_channel
get_rndv_client ctx = service_get_rndv_channel ctx

unfoldable pub cleanup_rndv_ctx : ℕ → M Reply
unfolding service_rndv_free_context
cleanup_rndv_ctx ctx = service_rndv_free_context ctx

unfoldable pub register_memory_region : ℕ → ℕ → M Reply
unfolding service_register_memory_region
register_memory_region server size = service_register_memory_region server size

unfoldable pub register_assign_memory_region : ℕ → ℕ → ℕ → M Reply
unfolding service_register_assign_memory_region
register_assign_memory_region server address size =
    service_register_assign_memory_region server address size

unfoldable pub destroy_memory_region : ℕ → ℕ → M (Unit {0})
unfolding service_destroy_memory_region
destroy_memory_region server mr = service_destroy_memory_region server mr

-- `none` is a null `info`; the second component is what `*info` is set to.
unfoldable pub get_memory_region_info :
    ℕ → Option MemoryRegionInfo → M (ℤ × Option MemoryRegionInfo)
unfolding service_get_memory_region_info
get_memory_region_info mr none = pure (ock_rpc_err_invalid_param, none)
get_memory_region_info mr (some info) = do
  r ← service_get_memory_region_info mr
  unless_ok r.ret (ock_rpc_err, some info)
      (pure (ock_rpc_ok, some (record { l_address = r.out; l_key = r.key; size = r.size })))

-- OckRpcMemoryAllocatorType and OckRpcMemoryAllocatorCacheTierPolicy by their numbers; another
-- number leaves the zero-initialised value.
abbrev pub allocator_type : ℕ → AllocatorType
allocator_type n =
    if n == 1 then AllocatorType.c_dynamic_size_with_cache else AllocatorType.c_dynamic_size

abbrev pub tier_policy : ℕ → ℕ
tier_policy n = if n == 1 then 1 else 0

unfoldable pub memory_allocator_create : ℕ → Option AllocatorOptions → M (ℤ × ℕ)
unfolding net_memory_allocator_create
memory_allocator_create t none = pure (ock_rpc_err_invalid_param, 0)
memory_allocator_create t (some o) = do
  r ←
      net_memory_allocator_create (allocator_type t)
        (record o { cache_tier_policy = tier_policy o.cache_tier_policy })
  pure (r.ret, r.out)

unfoldable pub memory_allocator_destroy : ℕ → M Reply
unfolding net_memory_allocator_destroy
memory_allocator_destroy allocator = net_memory_allocator_destroy allocator

unfoldable pub memory_allocator_set_mr_key : ℕ → ℕ → M Reply
unfolding net_memory_allocator_set_mr_key
memory_allocator_set_mr_key allocator mr_key = net_memory_allocator_set_mr_key allocator mr_key

unfoldable pub memory_allocator_mem_offset : ℕ → ℕ → M Reply
unfolding net_memory_allocator_mem_offset
memory_allocator_mem_offset allocator address = net_memory_allocator_mem_offset allocator address

unfoldable pub memory_allocator_free_size : ℕ → M Reply
unfolding net_memory_allocator_free_size
memory_allocator_free_size allocator = net_memory_allocator_free_size allocator

unfoldable pub memory_allocator_allocate : ℕ → ℕ → M Reply
unfolding net_memory_allocator_allocate
memory_allocator_allocate allocator size = net_memory_allocator_allocate allocator size

unfoldable pub memory_allocator_free : ℕ → ℕ → M Reply
unfolding net_memory_allocator_free
memory_allocator_free allocator address = net_memory_allocator_free allocator address

-- OckRpcSetExternalLogger, the global of src/hcom4db.cpp.
unfoldable pub set_external_logger : Func → M (Unit {0})
set_external_logger h = modify (λ w. record w { log_func = h })
