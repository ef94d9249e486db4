-- ===== src/Program/Connections.antt =====
-- Connections of src/hcom4db.cpp keep the program sound, with at most one allocator and one memory
-- region of a client, and leave no mutex held.
use hcom4db.Base.{ℕ, ◌≡◌, arith, Option, none, some}
use hcom4db.Base.Maps.{bytes_key, nat_eq}
use hcom4db.Config.{ConfigMap, CreateConfig}
use hcom4db.Config.Allocator.{
  attach_region, create_allocator, fill_option, prepare_mem_allocator, register_mr, remember,
  set_allocator_option,
}
use hcom4db.Hcom.Channel.{channel_close}
use hcom4db.Hcom.Memory.{
  net_memory_allocator_create, net_memory_allocator_destroy, net_memory_allocator_set_mr_key,
  service_destroy_memory_region, service_get_memory_region_info,
  service_register_assign_memory_region,
}
use hcom4db.Hcom.Service.{service_connect}
use hcom4db.Hcom.Types.{AllocatorOptions, Bytes, ConnectOpt, MemoryRegionInfo, MrInfo}
use hcom4db.Client.Connection.{
  connect_configured, connect_with_cfg, disconnect, drop_allocator, drop_region, get_cur_service,
  open_channel,
}
use hcom4db.Hcom.World.{World, Mutex}
use hcom4db.Server.Locks.{Hold, hold_of}
use hcom4db.Program.Safe.{Safe, safely}
use hcom4db.Program.Orderly.{Orderly, orderly}

fill_option-Orderly : (a b : ℕ) (o : AllocatorOptions) → Orderly (fill_option a b o)
unfolding fill_option
fill_option-Orderly a b o = search orderly depth 10

set_allocator_option-Orderly :
    (m : ConfigMap) (o : AllocatorOptions) → Orderly (set_allocator_option m o)
unfolding set_allocator_option
set_allocator_option-Orderly m o = search (orderly, fill_option-Orderly) depth 10

remember-Orderly : (client a : ℕ) (r : MrInfo) → Orderly (remember client a r)
unfolding remember
remember-Orderly client a r = search orderly depth 10

register_mr-Orderly : (server address size : ℕ) → Orderly (register_mr server address size)
unfolding register_mr service_register_assign_memory_region service_get_memory_region_info
register_mr-Orderly server address size = search orderly depth 12

attach_region-Orderly :
    (server client a : ℕ) (r : Option (ℕ × MemoryRegionInfo))
    → Orderly (attach_region server client a r)
unfolding attach_region net_memory_allocator_set_mr_key
attach_region-Orderly server client a none = search orderly
attach_region-Orderly server client a (some (mr, info)) =
    search (orderly, remember-Orderly) depth 10

create_allocator-Orderly :
    (server client : ℕ) (o : AllocatorOptions) → Orderly (create_allocator server client o)
unfolding create_allocator net_memory_allocator_create
create_allocator-Orderly server client o =
    search (orderly, register_mr-Orderly, attach_region-Orderly) depth 12

prepare_mem_allocator-Orderly :
    (server client : ℕ) (m : ConfigMap) (o : AllocatorOptions)
    → Orderly (prepare_mem_allocator server client m o)
unfolding prepare_mem_allocator
prepare_mem_allocator-Orderly server client m o =
    search (orderly, set_allocator_option-Orderly, create_allocator-Orderly) depth 12

open_channel-Orderly :
    (ip : Bytes) (port : ℕ) (m : ConfigMap) (o : AllocatorOptions) (service : ℕ) (conn : ConnectOpt)
    → Orderly (open_channel ip port m o service conn)
unfolding open_channel service_connect
open_channel-Orderly ip port m o service conn =
    search (orderly, prepare_mem_allocator-Orderly) depth 12

get_cur_service-Safe : (m : ConfigMap) → Safe (get_cur_service m)
unfolding get_cur_service
get_cur_service-Safe m = search safely depth 12

get_cur_service-tidy :
    (m : ConfigMap) (w : World) (n : Mutex)
    → hold_of n w.trace ≡ some Hold.free
    → hold_of n (get_cur_service m w).1.trace ≡ some Hold.free
unfolding get_cur_service
get_cur_service-tidy m w Mutex.service_mutex h = ground arith
get_cur_service-tidy m w Mutex.service_add_mutex h = ground arith
get_cur_service-tidy m w Mutex.service_add_rndv_mutex h = ground arith

get_cur_service-Orderly : (m : ConfigMap) → Orderly (get_cur_service m)
get_cur_service-Orderly m = record { sound = get_cur_service-Safe m; tidy = get_cur_service-tidy m }

connect_configured-Orderly :
    (ip : Bytes) (port : ℕ) (o : AllocatorOptions) (m : ConfigMap)
    → Orderly (connect_configured ip port o m)
unfolding connect_configured
connect_configured-Orderly ip port o m =
    search (orderly, get_cur_service-Orderly, open_channel-Orderly) depth 12

pub connect_with_cfg-Orderly :
    (ip : Option Bytes) (port client : ℕ) (c : Option CreateConfig) (o : AllocatorOptions)
    → Orderly (connect_with_cfg ip port client c o)
unfolding connect_with_cfg
connect_with_cfg-Orderly ip port client c o = search (orderly, connect_configured-Orderly) depth 12

drop_allocator-Orderly : (client : ℕ) → Orderly (drop_allocator client)
unfolding drop_allocator net_memory_allocator_destroy
drop_allocator-Orderly client = search orderly depth 12

drop_region-Orderly : (client : ℕ) → Orderly (drop_region client)
unfolding drop_region service_destroy_memory_region
drop_region-Orderly client = search orderly depth 12

pub disconnect-Orderly : (client : ℕ) → Orderly (disconnect client)
unfolding disconnect channel_close
disconnect-Orderly client = search (orderly, drop_allocator-Orderly, drop_region-Orderly) depth 10
