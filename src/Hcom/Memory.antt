-- ===== src/Hcom/Memory.antt =====
-- The wrappers of src/hcom4db_dlopen_hcom.cpp for memory regions and memory allocators: each makes
-- its call if the table holds the function, and otherwise answers the default of its kind.
use hcom4db.Base.{ℕ}
use hcom4db.Hcom.Types.{AllocatorOptions, AllocatorType}
use hcom4db.Hcom.Call
use hcom4db.Hcom.World.{M, Reply, invoke_int, invoke_void}

unfoldable pub service_register_memory_region : ℕ → ℕ → M Reply
service_register_memory_region service size =
    invoke_int (Call.service_register_memory_region service size)

unfoldable pub service_register_assign_memory_region : ℕ → ℕ → ℕ → M Reply
service_register_assign_memory_region service address size =
    invoke_int (Call.service_register_assign_memory_region service address size)

unfoldable pub service_get_memory_region_info : ℕ → M Reply
service_get_memory_region_info mr = invoke_int (Call.service_get_memory_region_info mr)

unfoldable pub service_destroy_memory_region : ℕ → ℕ → M (Unit {0})
service_destroy_memory_region service mr =
    invoke_void (Call.service_destroy_memory_region service mr)

unfoldable pub net_memory_allocator_create : AllocatorType → AllocatorOptions → M Reply
net_memory_allocator_create t options = invoke_int (Call.net_memory_allocator_create t options)

unfoldable pub net_memory_allocator_destroy : ℕ → M Reply
net_memory_allocator_destroy allocator = invoke_int (Call.net_memory_allocator_destroy allocator)

unfoldable pub net_memory_allocator_set_mr_key : ℕ → ℕ → M Reply
net_memory_allocator_set_mr_key allocator mr_key =
    invoke_int (Call.net_memory_allocator_set_mr_key allocator mr_key)

unfoldable pub net_memory_allocator_mem_offset : ℕ → ℕ → M Reply
net_memory_allocator_mem_offset allocator address =
    invoke_int (Call.net_memory_allocator_mem_offset allocator address)

unfoldable pub net_memory_allocator_free_size : ℕ → M Reply
net_memory_allocator_free_size allocator =
    invoke_int (Call.net_memory_allocator_free_size allocator)

unfoldable pub net_memory_allocator_allocate : ℕ → ℕ → M Reply
net_memory_allocator_allocate allocator size =
    invoke_int (Call.net_memory_allocator_allocate allocator size)

unfoldable pub net_memory_allocator_free : ℕ → ℕ → M Reply
net_memory_allocator_free allocator address =
    invoke_int (Call.net_memory_allocator_free allocator address)
