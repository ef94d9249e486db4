-- ===== src/Program/Sound.antt =====
-- What holds in every world that a run of the program in src/hcom4db.cpp reaches: the handlers on
-- record can be called, their ids are in range, and no map has two entries for one key.
use hcom4db.Base.{
  ℕ, ◌≡◌, ◌≢◌, ◌⊎◌, eq_ℤ, sym, ◌<◌, ◌∙◌, ℤ, pos, List, Option, none, some, Bool-cases, Option-cases,
  inl, inr, to_i16, arith,
}
use hcom4db.Base.Maps.{
  DistinctKeys, assign, bytes_key, int_eq, lookup, lookup-assign, nat_eq, eq_ℤ_iff,
}
use hcom4db.Hcom.Types.{Bytes}
use hcom4db.Hcom.World.{World}
use hcom4db.Server.{
  RpcService, server_add_service, server_add_rndv_service, checked_service, find_server,
}
use hcom4db.Server.Kept.{Kept}

-- Every handler is not null, under an id that OckRpcServerAddService accepts.
pub record Callable (handlers : List (ℤ × ℕ)) : Type 0 where
  pub not_null : (id : ℤ) (h : ℕ) → lookup id handlers ≡ some h → h ≢ 0
  pub in_range :
      (id : ℤ) (h : ℕ) → lookup id handlers ≡ some h → (n : ℕ) × (id ≡ pos n) × (n < 1000)

pub record IsSound (w : World) : Type 0 where
  pub handlers : Callable w.handle_map
  pub rndv_handlers : Callable w.rndv_handle_map
  pub servers : DistinctKeys w.service_map
  pub allocators : DistinctKeys w.memory_allocator
  pub regions : DistinctKeys w.memory_region

pub Kept-IsSound : {w u : World} → Kept w u → IsSound w → IsSound u
Kept-IsSound k s = record {
  handlers = rw k.handlers s.handlers;
  rndv_handlers = rw k.rndv_handlers s.rndv_handlers;
  servers = rw k.servers s.servers;
  allocators = rw k.allocators s.allocators;
  regions = rw k.regions s.regions;
}

assigned :
    (key id : ℤ) (h g : ℕ) (handlers : List (ℤ × ℕ))
    → lookup id (assign key h handlers) ≡ some g
    → ((id ≡ key) × (g ≡ h)) ⊎ (lookup id handlers ≡ some g)
assigned key id h g handlers found =
    let at = lookup-assign key id h handlers in
    elim (Bool-cases (eq_ℤ key id)) [
      | inl same ↦ inl (sym ((eq_ℤ_iff key id).0 same), ground (arith, at))
      | inr other ↦ inr (ground (arith, at))
    ]

assign-Callable :
    (n h : ℕ) (handlers : List (ℤ × ℕ))
    → n < 1000
    → h ≢ 0
    → Callable handlers
    → Callable (assign (to_i16 (pos n)) h handlers)
assign-Callable n h handlers small there c =
    let narrow : to_i16 (pos n) ≡ pos n = ground arith in
    record {
      not_null = λ id g found. elim (assigned _ id h g handlers found) [
        | inl (_, new) ↦ λ null. there (sym new ∙ null)
        | inr old ↦ c.not_null id g old
      ];
      in_range = λ id g found. elim (assigned _ id h g handlers found) [
        | inl (new, _) ↦ (n, new ∙ narrow, small)
        | inr old ↦ c.in_range id g old
      ];
    }

-- The two registrations assign a handler that was checked, or nothing.
checked_service-valid :
    (known : Option Bytes) (service : Option RpcService) (s : RpcService)
    → checked_service known service ≡ some s
    → (s.id < 1000) × (s.handler ≢ 0)
unfolding checked_service
checked_service-valid none service s h = cc
checked_service-valid (some _) none s h = cc
checked_service-valid (some _) (some t) s h = ground arith

pub server_add_service-IsSound :
    (server : ℕ) (service : Option RpcService) (w : World)
    → IsSound w
    → IsSound (server_add_service server service w).1
unfolding server_add_service
server_add_service-IsSound server service w s =
    let u = (server_add_service server service w).1 in
    let rndv_handlers_same : u.rndv_handle_map ≡ w.rndv_handle_map = ground arith in
    let servers : u.service_map ≡ w.service_map = ground arith in
    let allocators : u.memory_allocator ≡ w.memory_allocator = ground arith in
    let regions : u.memory_region ≡ w.memory_region = ground arith in
    let assigned : Callable u.handle_map =
      elim (Option-cases (checked_service (find_server server w.service_map) service)) [
        | inl refused ↦
            (let same : u.handle_map ≡ w.handle_map = ground arith in rw same s.handlers)
        | inr (t, accepted) ↦
            (let new : u.handle_map ≡ assign (to_i16 (pos t.id)) t.handler w.handle_map =
                ground arith in
              let (small, there) = checked_service-valid _ service t accepted in
              rw new (assign-Callable t.id t.handler w.handle_map small there s.handlers))
      ] in
    record {
      handlers = assigned;
      rndv_handlers = rw rndv_handlers_same s.rndv_handlers;
      servers = rw servers s.servers;
      allocators = rw allocators s.allocators;
      regions = rw regions s.regions;
    }

pub server_add_rndv_service-IsSound :
    (server : ℕ) (service : Option RpcService) (w : World)
    → IsSound w
    → IsSound (server_add_rndv_service server service w).1
unfolding server_add_rndv_service
server_add_rndv_service-IsSound server service w s =
    let u = (server_add_rndv_service server service w).1 in
    let handlers_same : u.handle_map ≡ w.handle_map = ground arith in
    let servers : u.service_map ≡ w.service_map = ground arith in
    let allocators : u.memory_allocator ≡ w.memory_allocator = ground arith in
    let regions : u.memory_region ≡ w.memory_region = ground arith in
    let assigned : Callable u.rndv_handle_map =
      elim (Option-cases (checked_service (find_server server w.service_map) service)) [
        | inl refused ↦
            (let same : u.rndv_handle_map ≡ w.rndv_handle_map = ground arith in
              rw same s.rndv_handlers)
        | inr (t, accepted) ↦
            (let new : u.rndv_handle_map ≡ assign (to_i16 (pos t.id)) t.handler w.rndv_handle_map =
                ground arith in
              let (small, there) = checked_service-valid _ service t accepted in
              rw new (assign-Callable t.id t.handler w.rndv_handle_map small there s.rndv_handlers))
      ] in
    record {
      handlers = rw handlers_same s.handlers;
      rndv_handlers = assigned;
      servers = rw servers s.servers;
      allocators = rw allocators s.allocators;
      regions = rw regions s.regions;
    }
