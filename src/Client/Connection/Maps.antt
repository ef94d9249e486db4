-- ===== src/Client/Connection/Maps.antt =====
-- OckRpcClientConnectWithCfg and OckRpcClientDisconnect of src/hcom4db.cpp and the maps of the
-- clients' allocators and memory regions.
use hcom4db.Base.{
  ℕ, ◌≡◌, refl, ap, ◌∙◌, List, ◌∷◌, Option, none, some, [], Bool-cases, Option-cases, inl, inr,
  arith, eq_ℤ,
}
use hcom4db.Base.Maps.{lookup, insert, erase, nat_eq}
use hcom4db.Config.{ConfigMap, CreateConfig, init_config_map}
use hcom4db.Config.Allocator.{
  set_allocator_option, create_allocator, attach_region, prepare_mem_allocator, register_mr,
  remember,
}
use hcom4db.Config.Allocator.Prepared.{set_allocator_option-maps}
use hcom4db.Hcom.Types.{
  AllocatorOptions, AllocatorType, MemoryRegionInfo, Bytes, ConnectOpt, MrInfo,
  ock_rpc_err_invalid_param,
}
use hcom4db.Hcom.Call.{Call}
use hcom4db.Hcom.Channel.{channel_close}
use hcom4db.Hcom.Memory.{
  net_memory_allocator_create, net_memory_allocator_destroy, net_memory_allocator_set_mr_key,
  service_destroy_memory_region, service_register_assign_memory_region,
  service_get_memory_region_info,
}
use hcom4db.Hcom.Service.{service_connect}
use hcom4db.Hcom.World.{World, is_ok, invoke_int, invoke_void}
use hcom4db.Client.Connection.{
  connect_configured, connect_with_cfg, disconnect, drop_allocator, drop_region, get_cur_service,
  open_channel, pay_load, set_connection_option,
}
use hcom4db.Server.Create.{check_create_cfg}

pub erase_missing : {V : Type 0} (k : ℕ) (m : List (ℕ × V)) → lookup k m ≡ none → erase k m ≡ m
unfolding lookup erase
erase_missing k [] h = refl
erase_missing k ((j, v) ∷ m) h = ground (arith, erase_missing k m)

-- A step that leaves both maps alone.
pub record SameMaps (w u : World) : Type 0 where
  pub allocators : u.memory_allocator ≡ w.memory_allocator
  pub regions : u.memory_region ≡ w.memory_region

-- Nothing was stored, or the two entries of one client were.
pub data Stored (client : ℕ) (w u : World) : Type 0 where
  unstored : SameMaps w u → Stored client w u
  stored :
      (a : ℕ) (r : MrInfo)
      → u.memory_allocator ≡ insert client a w.memory_allocator
      → u.memory_region ≡ insert client r w.memory_region
      → Stored client w u

SameMaps-refl : {w : World} → SameMaps w w
SameMaps-refl = record { allocators = refl; regions = refl }

invoke_int-SameMaps : (c : Call) (w : World) → SameMaps w (invoke_int c w).1
unfolding invoke_int
invoke_int-SameMaps c w = record { allocators = ground arith; regions = ground arith }

remember-Stored :
    (client a : ℕ) (r : MrInfo) (w : World) → Stored client w (remember client a r w).1
unfolding remember
remember-Stored client a r w = Stored.stored a r refl refl

Stored-SameMaps :
    {client : ℕ} {w u v : World} → SameMaps w u → Stored client u v → Stored client w v
Stored-SameMaps same (Stored.unstored more) = Stored.unstored (record {
  allocators = more.allocators ∙ same.allocators;
  regions = more.regions ∙ same.regions;
})
Stored-SameMaps {client} same (Stored.stored a r allocators regions) =
    Stored.stored a r (allocators ∙ ap (insert client a) same.allocators)
      (regions ∙ ap (insert client r) same.regions)

attach_region-Stored :
    (server client a : ℕ) (region : Option (ℕ × MemoryRegionInfo)) (w : World)
    → Stored client w (attach_region server client a region w).1
unfolding attach_region net_memory_allocator_set_mr_key
attach_region-Stored server client a none w = Stored.unstored SameMaps-refl
attach_region-Stored server client a (some (mr, info)) w =
    let set = net_memory_allocator_set_mr_key a info.l_key w in
    let same = invoke_int-SameMaps (Call.net_memory_allocator_set_mr_key a info.l_key) w in
    elim (Bool-cases (is_ok set.0.ret)) [
      | inl good ↦ rw good (Stored-SameMaps same (remember-Stored client a _ set.1))
      | inr bad ↦ rw bad (Stored.unstored same)
    ]

register_mr-SameMaps :
    (server address size : ℕ) (w : World) → SameMaps w (register_mr server address size w).1
unfolding register_mr service_register_assign_memory_region service_get_memory_region_info
    invoke_int
register_mr-SameMaps server address size w = record {
  allocators = ground arith;
  regions = ground arith;
}

create_allocator-Stored :
    (server client : ℕ) (option : AllocatorOptions) (w : World)
    → Stored client w (create_allocator server client option w).1
unfolding create_allocator net_memory_allocator_create
create_allocator-Stored server client option w =
    let c = Call.net_memory_allocator_create AllocatorType.c_dynamic_size_with_cache option in
    let made = invoke_int c w in
    let same = invoke_int-SameMaps c w in
    elim (Bool-cases (is_ok made.0.ret)) [
      | inl good ↦ rw good (
          Stored-SameMaps same (
            Stored-SameMaps (register_mr-SameMaps server option.address option.size made.1)
              (attach_region-Stored server client made.0.out _ _)))
      | inr bad ↦ rw bad (Stored.unstored same)
    ]

prepare_mem_allocator-Stored :
    (server client : ℕ) (m : ConfigMap) (option : AllocatorOptions) (w : World)
    → Stored client w (prepare_mem_allocator server client m option w).1
unfolding prepare_mem_allocator
prepare_mem_allocator-Stored server client m option w =
    let r = set_allocator_option m option w in
    let (allocators, regions) = set_allocator_option-maps m option w in
    let same : SameMaps w r.1 = record { allocators = allocators; regions = regions } in
    elim (Bool-cases (eq_ℤ r.0.0 ock_rpc_err_invalid_param)) [
      | inl nothing ↦ rw nothing (Stored.unstored same)
      | inr some_size ↦ rw some_size (elim (Bool-cases (is_ok r.0.0)) [
        | inl good ↦
            rw good (Stored-SameMaps same (create_allocator-Stored server client r.0.1 r.1))
        | inr bad ↦ rw bad (Stored.unstored same)
      ])
    ]

open_channel-Stored :
    (ip : Bytes) (port : ℕ) (m : ConfigMap) (option : AllocatorOptions) (service : ℕ)
    (conn : ConnectOpt) (w : World)
    → let r = open_channel ip port m option service conn w in Stored r.0.1 w r.1
unfolding open_channel service_connect
open_channel-Stored ip port m option service conn w =
    let c = Call.service_connect service ip port (pay_load m) conn in
    let channel = invoke_int c w in
    let same = invoke_int-SameMaps c w in
    let stored =
      Stored-SameMaps same
        (prepare_mem_allocator-Stored service channel.0.out m option channel.1) in
    elim (Bool-cases (is_ok channel.0.ret)) [
      | inr bad ↦ rw bad (Stored.unstored same)
      | inl good ↦
          rw good
            (elim (Bool-cases
              (is_ok (prepare_mem_allocator service channel.0.out m option channel.1).0)) [
                | inl fine ↦ rw fine stored
                | inr failed ↦ rw failed stored
              ])
    ]

get_cur_service-SameMaps : (m : ConfigMap) (w : World) → SameMaps w (get_cur_service m w).1
unfolding get_cur_service
get_cur_service-SameMaps m w = record { allocators = ground arith; regions = ground arith }

connect_configured-Stored :
    (ip : Bytes) (port : ℕ) (option : AllocatorOptions) (m : ConfigMap) (w : World)
    → let r = connect_configured ip port option m w in Stored r.0.1 w r.1
unfolding connect_configured
connect_configured-Stored ip port option m w =
    let s = get_cur_service m w in
    let same = get_cur_service-SameMaps m w in
    elim (Option-cases s.0) [
      | inl unknown ↦ rw unknown (Stored.unstored same)
      | inr (service, known) ↦ rw known (elim (Option-cases (set_connection_option m)) [
        | inl bad ↦ rw bad (Stored.unstored same)
        | inr (conn, chosen) ↦
            rw chosen (Stored-SameMaps same (open_channel-Stored ip port m option service conn s.1))
      ])
    ]

pub connect_with_cfg-Stored :
    (ip : Option Bytes) (port client : ℕ) (c : Option CreateConfig) (option : AllocatorOptions)
    (w : World)
    → let r = connect_with_cfg ip port client c option w in Stored r.0.1 w r.1
unfolding connect_with_cfg
connect_with_cfg-Stored ip port client configs option w =
    elim (Option-cases (check_create_cfg ip port client configs)) [
      | inl refused ↦ rw refused (Stored.unstored SameMaps-refl)
      | inr ((address, c), accepted) ↦ rw accepted (elim (Option-cases (init_config_map c [])) [
        | inl bad ↦ rw bad (Stored.unstored SameMaps-refl)
        | inr (m, read) ↦ rw read (connect_configured-Stored address port option m w)
      ])
    ]

drop_allocator-maps :
    (client : ℕ) (w : World)
    → let u = (drop_allocator client w).1 in
      (u.memory_allocator ≡ erase client w.memory_allocator) × (u.memory_region ≡ w.memory_region)
unfolding drop_allocator net_memory_allocator_destroy invoke_int
drop_allocator-maps client w = ground (arith, erase_missing client w.memory_allocator)

drop_region-maps :
    (client : ℕ) (w : World)
    → let u = (drop_region client w).1 in
      (u.memory_allocator ≡ w.memory_allocator) × (u.memory_region ≡ erase client w.memory_region)
unfolding drop_region service_destroy_memory_region invoke_void
drop_region-maps client w = ground (arith, erase_missing client w.memory_region)

pub disconnect-maps :
    (client : ℕ) (w : World)
    → let u = (disconnect client w).1 in
      (u.memory_allocator ≡ erase client w.memory_allocator)
      × (u.memory_region ≡ erase client w.memory_region)
unfolding disconnect channel_close invoke_void
disconnect-maps client w =
    let (a, r) = drop_allocator-maps client w in
    let u = (drop_allocator client w).1 in
    let (b, s) = drop_region-maps client u in ground (arith, a, r, b, s)
