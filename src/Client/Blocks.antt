-- ===== src/Client/Blocks.antt =====
-- The blocks of a client's memory allocator: OckRpcMemAlloc, OckRpcMemFree and FreeAllMemory of
-- src/hcom4db.cpp. `granted` and `released` read the history: the blocks that the allocator handed
-- out, with their sizes, and the addresses given back, the newest first.
use hcom4db.Base.{
  ℕ, zero, suc, ◌+◌, ◌≡◌, refl, ◌∙◌, true, List, [], ◌∷◌, ◌++◌, none, some, arith, if◌then◌else◌,
  get_or,
}
use native.Mathlib.Nat.{add-zero}
use hcom4db.Base.Maps.{lookup, assign, nat_eq, string_eq}
use hcom4db.Hcom.Call.{Call, symbol}
use hcom4db.Hcom.Types.{Request, SglRequest, zero_request, ock_rpc_ok, ock_rpc_err}
use hcom4db.Hcom.Memory.{net_memory_allocator_allocate, net_memory_allocator_free}
use hcom4db.Hcom.World.{
  M, World, Event, Reply, library, pure, ◌>>=◌, ◌>>◌, gets, modify, is_ok, is_bound, invoke_int,
}

-- `g_memoryAllocator[client]`: a client without an entry gets one that holds 0.
unfoldable pub allocator_of : ℕ → M ℕ
allocator_of client = do
  m ← gets (λ w. w.memory_allocator)
  elim (lookup client m) [
    | none ↦ modify (λ w. record w { memory_allocator = assign client 0 m }) >> pure 0
    | some a ↦ pure a
  ]

-- The answer holds the address and the key; its result is OCK_RPC_OK or OCK_RPC_ERR.
unfoldable pub mem_alloc : ℕ → ℕ → M Reply
unfolding allocator_of net_memory_allocator_allocate
mem_alloc client mem_size = do
  allocator ← allocator_of client
  r ← net_memory_allocator_allocate allocator mem_size
  pure (record r { ret = if is_ok r.ret then ock_rpc_ok else ock_rpc_err })

unfoldable pub mem_free : ℕ → ℕ → M (Unit {0})
unfolding allocator_of net_memory_allocator_free
mem_free client addr = do
  allocator ← allocator_of client
  net_memory_allocator_free allocator addr
  pure tt

-- `for (i = from; i < from + n; i++) OckRpcMemFree(client, iov[i].lAddress);`
unfoldable pub free_requests : ℕ → List Request → ℕ → ℕ → M (Unit {0})
free_requests client iov from zero = pure tt
free_requests client iov from (suc n) = do
  mem_free client (get_or iov from zero_request).l_address
  free_requests client iov (from + 1) n

abbrev pub ock_max_iov_count : ℕ
ock_max_iov_count = 4

unfoldable pub free_all_memory : ℕ → SglRequest → M (Unit {0})
unfolding free_requests
free_all_memory client service_req = free_requests client service_req.iov 0 ock_max_iov_count

abbrev block_of : Event → Reply → List (ℕ × ℕ)
block_of (library (Call.net_memory_allocator_allocate _ n)) r =
    if is_ok r.ret then (r.out, n) ∷ [] else []
block_of _ r = []

abbrev address_of : Event → List ℕ
address_of (library (Call.net_memory_allocator_free _ a)) = a ∷ []
address_of _ = []

abbrev pub granted : (List Event → Reply) → List Event → List (ℕ × ℕ)
granted lib [] = []
granted lib (e ∷ t) = block_of e (lib (e ∷ t)) ++ granted lib t

abbrev pub released : List Event → List ℕ
released [] = []
released (e ∷ t) = address_of e ++ released t

-- What no step on blocks touches.
pub record SameSetting (w w' : World) : Type 0 where
  pub lib : w'.lib ≡ w.lib
  pub table : w'.hcom_func ≡ w.hcom_func
  pub options : w'.options ≡ w.options

pub SameSetting-trans : {w u v : World} → SameSetting w u → SameSetting u v → SameSetting w v
SameSetting-trans a b = record {
  lib = b.lib ∙ a.lib;
  table = b.table ∙ a.table;
  options = b.options ∙ a.options;
}

pub record Allocated (w w' : World) (n : ℕ) (r : Reply) : Type 0 where
  pub setting : SameSetting w w'
  pub frees : released w'.trace ≡ released w.trace
  pub grants :
      granted w.lib w'.trace
      ≡ (if is_ok r.ret then (r.out, n) ∷ granted w.lib w.trace else granted w.lib w.trace)

pub mem_alloc-Allocated :
    (client n : ℕ) (w : World) → Allocated w (mem_alloc client n w).1 n (mem_alloc client n w).0
unfolding mem_alloc invoke_int
mem_alloc-Allocated client n w = ground arith

-- The allocator's free is there to be called.
abbrev pub CanFree : World → Type 0
CanFree w = is_bound "Net_MemoryAllocatorFree" w.hcom_func ≡ true

pub record Freed (w w' : World) (addresses : List ℕ) : Type 0 where
  pub setting : SameSetting w w'
  pub grants : granted w.lib w'.trace ≡ granted w.lib w.trace
  pub frees : released w'.trace ≡ addresses

pub mem_free-Freed :
    (client addr : ℕ) (w : World)
    → CanFree w
    → Freed w (mem_free client addr w).1 (addr ∷ released w.trace)
unfolding mem_free invoke_int symbol
mem_free-Freed client addr w b = ground arith

-- The addresses of the first `n` entries, the last one first.
abbrev pub addresses : ℕ → List Request → List ℕ
addresses zero iov = []
addresses (suc n) iov = (get_or iov n zero_request).l_address ∷ addresses n iov

-- What freeing `n` entries from `from` puts before `acc`.
unfoldable pub freed_onto : ℕ → ℕ → List Request → List ℕ → List ℕ
freed_onto from zero iov acc = acc
freed_onto from (suc n) iov acc =
    freed_onto (from + 1) n iov ((get_or iov from zero_request).l_address ∷ acc)

freed_onto_last :
    (from n : ℕ) (iov : List Request) (acc : List ℕ)
    → freed_onto from (suc n) iov acc
      ≡ (get_or iov (from + n) zero_request).l_address ∷ freed_onto from n iov acc
unfolding freed_onto
freed_onto_last from zero iov acc = ground (arith, add-zero from)
freed_onto_last from (suc n) iov acc =
    let same : from + 1 + n ≡ from + suc n = omega arith in
    rw (← same) (freed_onto_last (from + 1) n iov _)

pub freed_onto-addresses :
    (n : ℕ) (iov : List Request) (acc : List ℕ) → freed_onto 0 n iov acc ≡ addresses n iov ++ acc
unfolding freed_onto
freed_onto-addresses zero iov acc = refl
freed_onto-addresses (suc n) iov acc =
    let same : 0 + n ≡ n = omega arith in
    freed_onto_last 0 n iov acc ∙ rw (same, freed_onto-addresses n iov acc) refl

pub Freed-trans : {w u v : World} {xs ys : List ℕ} → Freed w u xs → Freed u v ys → Freed w v ys
Freed-trans a b = record {
  setting = SameSetting-trans a.setting b.setting;
  grants = ground (arith, a.setting.lib, a.grants, b.grants);
  frees = b.frees;
}

free_requests_onto :
    (client : ℕ) (iov : List Request) (from n : ℕ) (w : World)
    → CanFree w
    → Freed w (free_requests client iov from n w).1 (freed_onto from n iov (released w.trace))
unfolding free_requests freed_onto
free_requests_onto client iov from zero w b = ground arith
free_requests_onto client iov from (suc n) w b =
    let addr = (get_or iov from zero_request).l_address in
    let first = mem_free-Freed client addr w b in
    let u = (mem_free client addr w).1 in
    let rest = free_requests_onto client iov (from + 1) n u (rw first.setting.table b) in
    Freed-trans first (rw first.frees at rest)

-- Freeing the first `n` entries releases exactly their addresses.
pub free_requests-Freed :
    (client : ℕ) (iov : List Request) (n : ℕ) (w : World)
    → CanFree w
    → Freed w (free_requests client iov 0 n w).1 (addresses n iov ++ released w.trace)
free_requests-Freed client iov n w b =
    rw (freed_onto-addresses n iov (released w.trace)) at (free_requests_onto client iov 0 n w b)
