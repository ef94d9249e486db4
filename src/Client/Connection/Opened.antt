-- ===== src/Client/Connection/Opened.antt =====
-- OckRpcClientConnectWithCfg of src/hcom4db.cpp: what a success says about server and client.
use hcom4db.Base.{ℕ, ◌≡◌, ◌⊎◌, ◌*◌, ◌%◌, ◌^◌, some}
use hcom4db.Base.Maps.{bytes_key}
use hcom4db.Config.{ConfigMap}
use hcom4db.Config.Allocator.Options.{segment_size, segment_count}
use hcom4db.Config.Allocator.Prepared.{IsPrepared}
use hcom4db.Hcom.World.{World}

-- The segment size times the segment count, a product of uint32_t, wraps to 0.
abbrev pub AsksNothing : ConfigMap → Type 0
AsksNothing m =
    (max_size : ℕ) × (max_count : ℕ) × (segment_size m ≡ some max_size)
    × (segment_count m ≡ some max_count)
    × (max_size * max_count % 2 ^ 32 ≡ 0)

-- The channel has an allocator and a region; or the product wraps to 0, and no map has changed.
abbrev pub HasMemory : ℕ → ConfigMap → World → World → Type 0
HasMemory channel m w u =
    IsPrepared channel u
    ⊎ (AsksNothing m
        × (u.memory_allocator ≡ w.memory_allocator)
        × (u.memory_region ≡ w.memory_region))

abbrev SameMaps : World → World → Type 0
SameMaps w u = (u.memory_allocator ≡ w.memory_allocator) × (u.memory_region ≡ w.memory_region)
