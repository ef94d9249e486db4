-- ===== src/Config/Allocator/Prepared.antt =====
-- OckRpcPrepareMemAllocator of src/hcom4db.cpp: what a success leaves for the client.
use hcom4db.Base.{
  ℕ, ◌≡◌, ◌⊎◌, inl, inr, List, [], ◌∷◌, true, Option, none, some, is_some, eq_ℤ, Bool-cases, arith,
}
use hcom4db.Base.Maps.{lookup, insert, nat_eq, beq_refl, eq_ℤ_iff}
use hcom4db.Config.{ConfigMap}
use hcom4db.Hcom.Types.{
  AllocatorOptions, AllocatorType, MemoryRegionInfo, MrInfo, ock_rpc_err_invalid_param,
}
use hcom4db.Hcom.World.{World, is_ok}
use hcom4db.Hcom.Memory.{net_memory_allocator_create, net_memory_allocator_set_mr_key}
use hcom4db.Config.Allocator.{
  set_allocator_option, fill_option, remember, create_allocator, attach_region,
  prepare_mem_allocator,
}

lookup-insert_some :
    {V : Type 0} (k : ℕ) (v : V) (m : List (ℕ × V)) → is_some (lookup k (insert k v m)) ≡ true
unfolding lookup insert
lookup-insert_some k v [] = ground (arith, beq_refl k)
lookup-insert_some k v ((j, u) ∷ m) = ground (arith, lookup-insert_some k v m)

-- Both maps of a client have an entry.
abbrev pub IsPrepared : ℕ → World → Type 0
IsPrepared client w =
    (is_some (lookup client w.memory_allocator) ≡ true)
    × (is_some (lookup client w.memory_region) ≡ true)

remember-IsPrepared :
    (client a : ℕ) (mr : MrInfo) (w : World) → IsPrepared client (remember client a mr w).1
unfolding remember
remember-IsPrepared client a mr w =
    (lookup-insert_some client a w.memory_allocator, lookup-insert_some client mr w.memory_region)

attach_region-IsPrepared :
    (server client a : ℕ) (region : Option (ℕ × MemoryRegionInfo)) (w : World)
    → let r = attach_region server client a region w in is_ok r.0 ≡ true → IsPrepared client r.1
unfolding attach_region
attach_region-IsPrepared server client a none w = λ good. cc
attach_region-IsPrepared server client a (some (mr, info)) w =
    elim (Bool-cases (is_ok (net_memory_allocator_set_mr_key a info.l_key w).0.ret)) [
      | inl set ↦ rw set λ good. remember-IsPrepared client a _ _
      | inr unset ↦ rw unset λ good. cc
    ]

create_allocator-IsPrepared :
    (server client : ℕ) (option : AllocatorOptions) (w : World)
    → let r = create_allocator server client option w in is_ok r.0 ≡ true → IsPrepared client r.1
unfolding create_allocator
create_allocator-IsPrepared server client option w =
    let (a, w1) = net_memory_allocator_create AllocatorType.c_dynamic_size_with_cache option w in
    elim (Bool-cases (is_ok a.ret)) [
      | inl made ↦ rw made (attach_region-IsPrepared server client a.out _ _)
      | inr failed ↦ rw failed λ good. cc
    ]

pub set_allocator_option-maps :
    (m : ConfigMap) (option : AllocatorOptions) (w : World)
    → let w' = (set_allocator_option m option w).1 in
      (w'.memory_allocator ≡ w.memory_allocator) × (w'.memory_region ≡ w.memory_region)
unfolding set_allocator_option fill_option
set_allocator_option-maps m option w = ground arith

-- Where OckRpcPrepareMemAllocator answers OCK_RPC_OK, the client has an allocator and a memory
-- region, unless OckRpcSetAllocatorOption found nothing to allocate: then no client's entry changed.
pub prepare_mem_allocator-IsPrepared :
    (server client : ℕ) (m : ConfigMap) (option : AllocatorOptions) (w : World)
    → let r = prepare_mem_allocator server client m option w in
      is_ok r.0 ≡ true
      → IsPrepared client r.1
        ⊎ (((set_allocator_option m option w).0.0 ≡ ock_rpc_err_invalid_param)
            × (r.1.memory_allocator ≡ w.memory_allocator)
            × (r.1.memory_region ≡ w.memory_region))
unfolding prepare_mem_allocator
prepare_mem_allocator-IsPrepared server client m option w =
    let ((ret, option'), u) = set_allocator_option m option w in
    elim (Bool-cases (eq_ℤ ret ock_rpc_err_invalid_param)) [
      | inl nothing ↦
          rw (nothing, prepare_mem_allocator)
            λ good.
              (let maps = set_allocator_option-maps m option w in
                inr ((eq_ℤ_iff ret ock_rpc_err_invalid_param).0 nothing, maps.0, maps.1))
      | inr some_size ↦ elim (Bool-cases (is_ok ret)) [
        | inl ok ↦
            rw (some_size, ok, prepare_mem_allocator)
              λ good. inl (create_allocator-IsPrepared server client option' u good)
        | inr failed ↦ rw (some_size, failed, prepare_mem_allocator) λ good. cc
      ]
    ]
