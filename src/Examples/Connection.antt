-- ===== src/Examples/Connection.antt =====
-- Connections and timeouts, at concrete inputs.
use hcom4db.Base.{◌≡◌, ◌/◌, refl, pos, true, [], ◌∷◌, none, some, arith}
use hcom4db.Base.Maps.{DistinctKeys, bytes_key, lookup, nat_eq}
use hcom4db.Client.Connection.{connect_with_cfg, disconnect}
use hcom4db.Client.Connection.Forgets.{disconnect-connect_with_cfg}
use hcom4db.Client.Call.{client_call}
use hcom4db.Client.Timeout.{client_call-set_timeout, sent_with, set_timeout}
use hcom4db.Config.{CreateConfig}
use hcom4db.Hcom.Types.{MrInfo, RpcMessage, codes}
use hcom4db.Hcom.World.{World, is_bound, library}
use hcom4db.Examples.Answers.{with_functions}
use hcom4db.Examples.Config.{garbage}

abbrev region : MrInfo
region = record {
  mr = 70;
  mr_info = record { l_address = 4096; l_key = 3; size = 100 };
  server = 5;
}

-- Two clients, each with an allocator and a region.
abbrev two_clients : World
two_clients = record (with_functions ("Channel_Close" ∷ [])) {
  memory_allocator = (9, 100) ∷ (8, 200) ∷ [];
  memory_region = (9, region) ∷ (8, region) ∷ [];
}

two_clients-allocators : DistinctKeys two_clients.memory_allocator
unfolding lookup
two_clients-allocators = (refl, (refl, tt))

two_clients-regions : DistinctKeys two_clients.memory_region
unfolding lookup
two_clients-regions = (refl, (refl, tt))

-- A server on record, and the functions of a connection.
abbrev served : World
served =
    record (with_functions (
      "Service_Connect" ∷ "Net_MemoryAllocatorCreate" ∷ "Net_MemoryAllocatorSetMrKey"
      ∷ "Service_RegisterAssignMemoryRegion" ∷ "Service_GetMemoryRegionInfo" ∷ [])) {
        service_map = (codes "service", 5) ∷ [];
      }

-- Nothing is configured.
abbrev plain : CreateConfig
plain = record {
  mask = 0;
  size = pos 0;
  pairs = none;
  get_ca_and_verify = 0;
  get_cert = 0;
  get_pri_key = 0;
}

disconnect-connect_with_cfg_example :
    let r = connect_with_cfg (some (codes "10.0.0.1")) 2000 64 (some plain) garbage served in
    let u = (disconnect r.0.1 r.1).1 in
    (u.memory_allocator ≡ served.memory_allocator) × (u.memory_region ≡ served.memory_region)
unfolding lookup
disconnect-connect_with_cfg_example =
    disconnect-connect_with_cfg (some (codes "10.0.0.1")) 2000 64 (some plain) garbage served refl
      refl

abbrev hello : RpcMessage
hello = record { data_ptr = 100; len = 5 }

abbrev sending : World
sending = with_functions ("Channel_PostSend" ∷ [])

sending-bound : is_bound "Channel_PostSend" sending.hcom_func ≡ true
unfolding lookup
sending-bound = refl

client_call-set_timeout_example :
    let u = (set_timeout 9 (pos 2500) sending).1 in
    (client_call 9 7 (some hello) none none u).1.trace
    ≡ library (sent_with 9 7 hello (pos (2500 / 1000))) ∷ u.trace
client_call-set_timeout_example =
    client_call-set_timeout 9 2500 7 hello sending (omega arith) (omega arith) sending-bound
