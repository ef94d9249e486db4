-- ===== src/Config/Allocator.antt =====
-- OckRpcSetAllocatorOption, OckRpcRegisterMr and OckRpcPrepareMemAllocator of src/hcom4db.cpp: the
-- memory behind a client's allocator.
pub mod Options
pub mod Prepared
use hcom4db.Base.{
  ℕ, ◌*◌, ◌/◌, ◌==◌, ℤ, List, Option, none, some, ltb, if◌then◌else◌, u32, eq_ℤ, ◌^◌,
}
use hcom4db.Base.Maps.{lookup, insert, nat_eq}
use hcom4db.Utils.{calculate_2_power_times}
use hcom4db.Config.{ConfigMap, string_2_num}
use hcom4db.Hcom.Types.{
  AllocatorOptions, AllocatorType, Bytes, MemoryRegionInfo, MrInfo, codes, ock_rpc_ok, ock_rpc_err,
  ock_rpc_err_invalid_param,
}
use hcom4db.Hcom.Memory.{
  net_memory_allocator_create, net_memory_allocator_set_mr_key,
  service_register_assign_memory_region, service_get_memory_region_info,
}
use hcom4db.Hcom.World.{
  M, malloc, pure, ◌>>=◌, ◌>>◌, gets, modify, ask, is_ok, unless_ok, or_return,
}

abbrev pub segment_size_key : Bytes
segment_size_key = codes "server.create.segsize"

abbrev pub segment_count_key : Bytes
segment_count_key = codes "server.create.segcount"

abbrev pub max_segment_size : ℕ
max_segment_size = 943718400

abbrev pub max_segment_count : ℕ
max_segment_count = 65535

abbrev pub ock_max_messag_size : ℕ
ock_max_messag_size = 65536

abbrev pub ock_max_messag_count : ℕ
ock_max_messag_count = 1024

abbrev pub mr_min_size : ℕ
mr_min_size = 4096

-- A number of the configuration that may be at most `limit`.
unfoldable pub bounded_num : ConfigMap → Bytes → ℕ → ℕ → Option ℕ
bounded_num config_map key default limit = elim (string_2_num config_map key default) [
  | none ↦ none
  | some n ↦ if ltb limit n then none else some n
]

-- The tiers of `Calculate2PowerTimes(maxSize / MR_MIN_SIZE)`.
unfoldable pub tiers_of : ℕ → ℕ
tiers_of max_size = elim (calculate_2_power_times (max_size / mr_min_size)) [
  | none ↦ 0
  | some c ↦ c
]

-- The part behind the two limits: the product is one of uint32_t.
unfoldable pub fill_option : ℕ → ℕ → AllocatorOptions → M (ℤ × AllocatorOptions)
fill_option max_size max_count option = do
  let product = u32 (max_size * max_count)
  if product == 0 then pure (ock_rpc_err_invalid_param, option) else (do
    let allocator_size = if ltb product mr_min_size then mr_min_size else product
    block ← ask (malloc allocator_size)
    if block.out == 0
        then pure (ock_rpc_err, option)
        else pure (
          ock_rpc_ok,
          record {
            address = block.out;
            size = allocator_size;
            min_block_size = mr_min_size;
            bucket_count = 1024;
            aligned_address = 1;
            cache_tier_count = tiers_of max_size;
            cache_block_count_per_tier = 10;
            cache_tier_policy = 1;
          },
        ))

unfoldable pub set_allocator_option : ConfigMap → AllocatorOptions → M (ℤ × AllocatorOptions)
set_allocator_option config_map option =
    or_return (bounded_num config_map segment_size_key ock_max_messag_size max_segment_size)
      (ock_rpc_err, option)
      λ max_size.
        or_return (bounded_num config_map segment_count_key ock_max_messag_count max_segment_count)
          (ock_rpc_err, option) λ max_count. fill_option max_size max_count option

-- The handle of the region and its description; `none` is OCK_RPC_ERR.
unfoldable pub register_mr : ℕ → ℕ → ℕ → M (Option (ℕ × MemoryRegionInfo))
unfolding service_register_assign_memory_region service_get_memory_region_info
register_mr server address mem_size = do
  mr ← service_register_assign_memory_region server address mem_size
  unless_ok mr.ret none do
    info ← service_get_memory_region_info mr.out
    unless_ok info.ret none
        (pure (some (mr.out, record { l_address = info.out; l_key = info.key; size = info.size })))

-- map.find, then map.insert where nothing is found.
unfoldable pub remember : ℕ → ℕ → MrInfo → M ℤ
remember client allocator mr_info = do
  modify (λ w. record w { memory_allocator = insert client allocator w.memory_allocator })
  modify (λ w. record w { memory_region = insert client mr_info w.memory_region })
  pure ock_rpc_ok

-- The part behind the registration of the memory.
unfoldable pub attach_region : ℕ → ℕ → ℕ → Option (ℕ × MemoryRegionInfo) → M ℤ
unfolding net_memory_allocator_set_mr_key
attach_region server client allocator none = pure ock_rpc_err
attach_region server client allocator (some (mr, info)) = do
  set ← net_memory_allocator_set_mr_key allocator info.l_key
  unless_ok set.ret ock_rpc_err
      (remember client allocator (record { mr = mr; mr_info = info; server = server }))

unfoldable pub create_allocator : ℕ → ℕ → AllocatorOptions → M ℤ
unfolding net_memory_allocator_create
create_allocator server client option = do
  allocator ← net_memory_allocator_create AllocatorType.c_dynamic_size_with_cache option
  unless_ok allocator.ret ock_rpc_err do
    region ← register_mr server option.address option.size
    attach_region server client allocator.out region

-- `option` is the uninitialised local.
unfoldable pub prepare_mem_allocator : ℕ → ℕ → ConfigMap → AllocatorOptions → M ℤ
prepare_mem_allocator server client config_map option = do
  (ret, option') ← set_allocator_option config_map option
  if eq_ℤ ret ock_rpc_err_invalid_param
      then pure ock_rpc_ok
      else unless_ok ret ock_rpc_err (create_allocator server client option')
