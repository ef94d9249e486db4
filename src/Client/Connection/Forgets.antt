-- ===== src/Client/Connection/Forgets.antt =====
-- OckRpcClientDisconnect of src/hcom4db.cpp undoes what OckRpcClientConnectWithCfg stored.
use hcom4db.Base.{ℕ, ◌≡◌, ◌==◌, ap, ◌∙◌, Option, none, if◌then◌else◌}
use hcom4db.Base.Maps.{lookup, erase, nat_eq, erase-insert, lookup-erase, DistinctKeys}
use hcom4db.Config.{CreateConfig}
use hcom4db.Hcom.Types.{AllocatorOptions, Bytes}
use hcom4db.Hcom.World.{World}
use hcom4db.Client.Connection.{connect_with_cfg, disconnect}
use hcom4db.Client.Connection.Maps.{Stored, erase_missing, connect_with_cfg-Stored, disconnect-maps}

-- After OckRpcClientDisconnect the client has neither an allocator nor a memory region, whatever
-- libhcom.so answers, and every other client has what it had.
disconnect-forgets :
    (client j : ℕ) (w : World)
    → DistinctKeys w.memory_allocator
    → DistinctKeys w.memory_region
    → let u = (disconnect client w).1 in
      (lookup j u.memory_allocator ≡ (if client == j then none else lookup j w.memory_allocator))
      × (lookup j u.memory_region ≡ (if client == j then none else lookup j w.memory_region))
disconnect-forgets client j w allocators regions =
    let (a, r) = disconnect-maps client w in
    (
      ap (lookup j) a ∙ lookup-erase client j w.memory_allocator allocators,
      ap (lookup j) r ∙ lookup-erase client j w.memory_region regions,
    )

erased :
    (client : ℕ) (w u : World)
    → lookup client w.memory_allocator ≡ none
    → lookup client w.memory_region ≡ none
    → Stored client w u
    → (erase client u.memory_allocator ≡ w.memory_allocator)
      × (erase client u.memory_region ≡ w.memory_region)
erased client w u no_allocator no_region (Stored.unstored same) = (
  ap (erase client) same.allocators ∙ erase_missing client w.memory_allocator no_allocator,
  ap (erase client) same.regions ∙ erase_missing client w.memory_region no_region,
)
erased client w u no_allocator no_region (Stored.stored a r allocators regions) = (
  ap (erase client) allocators ∙ erase-insert client a w.memory_allocator no_allocator,
  ap (erase client) regions ∙ erase-insert client r w.memory_region no_region,
)

-- OckRpcClientConnectWithCfg, whether it succeeds or fails, and then OckRpcClientDisconnect of the
-- channel that it set: where the channel had no entry before, both maps are what they were.
pub disconnect-connect_with_cfg :
    (ip : Option Bytes) (port client : ℕ) (c : Option CreateConfig) (option : AllocatorOptions)
    (w : World)
    → let ((ret, channel), v) = connect_with_cfg ip port client c option w in
      lookup channel w.memory_allocator ≡ none
      → lookup channel w.memory_region ≡ none
      → let u = (disconnect channel v).1 in
        (u.memory_allocator ≡ w.memory_allocator) × (u.memory_region ≡ w.memory_region)
disconnect-connect_with_cfg ip port client c option w no_allocator no_region =
    let ((ret, channel), v) = connect_with_cfg ip port client c option w in
    let (a, r) = disconnect-maps channel v in
    let (b, s) =
      erased channel w v no_allocator no_region
        (connect_with_cfg-Stored ip port client c option w) in
    (a ∙ b, r ∙ s)
