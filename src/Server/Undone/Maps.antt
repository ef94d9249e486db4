-- ===== src/Server/Undone/Maps.antt =====
-- What making and destroying a server do to the map of the servers in src/hcom4db.cpp.
use hcom4db.Base.{
  ℕ, ◌≡◌, refl, ◌∙◌, ap, true, false, List, [], ◌∷◌, none, some, Bool-cases, Option-cases, inl, inr,
  arith, ltb, length,
}
use hcom4db.Base.Maps.{lookup, insert, erase, bytes_key}
use hcom4db.Config.{ConfigMap}
use hcom4db.Hcom.Call.{Call, symbol}
use hcom4db.Hcom.Types.{Bytes, ServiceType}
use hcom4db.Hcom.Service.{service_create, service_stop, service_destroy}
use hcom4db.Hcom.World.{World, Event, Mutex, LockOp, mutex, library, is_ok, is_bound, invoke_int}
use hcom4db.Server.{
  create_server, create_service, find_server, forget_server, server_destroy, service_name,
  transport_of,
}
use hcom4db.Server.Kept.{Kept, Keeps, invoke_void-Keeps}

-- The library destroys every service that it is asked to destroy.
pub record CanDestroy (w : World) : Type 0 where
  pub bound : is_bound "Service_Destroy" w.hcom_func ≡ true
  pub answers :
      (s : ℕ) (t : List Event) → is_ok (w.lib (library (Call.service_destroy s) ∷ t)).ret ≡ true

pub CanDestroy-Kept : {w u : World} → Kept w u → CanDestroy w → CanDestroy u
CanDestroy-Kept k d = record { bound = rw k.table d.bound; answers = rw k.lib d.answers }

service_stop-Keeps : (s : ℕ) → Keeps (service_stop s)
unfolding service_stop
service_stop-Keeps s = invoke_void-Keeps (Call.service_stop s)

service_destroy-ok : (s : ℕ) (u : World) → CanDestroy u → is_ok (service_destroy s u).0.ret ≡ true
unfolding service_destroy invoke_int symbol
service_destroy-ok s u d = rw d.bound (d.answers s u.trace)

service_destroy-map : (s : ℕ) (u : World) → (service_destroy s u).1.service_map ≡ u.service_map
unfolding service_destroy invoke_int
service_destroy-map s u = ground arith

pub server_destroy-map :
    (s : ℕ) (name : Bytes) (w : World)
    → CanDestroy w
    → find_server s w.service_map ≡ some name
    → (server_destroy s w).1.service_map ≡ erase name w.service_map
unfolding server_destroy forget_server find_server erase
server_destroy-map s name w d found =
    let locked : World = record w { trace = mutex Mutex.service_mutex LockOp.lock ∷ w.trace } in
    let unbothered : CanDestroy locked = record { bound = d.bound; answers = d.answers } in
    let stopped : Kept locked (service_stop s locked).1 = (service_stop-Keeps s).kept locked in
    rw found (
      rw (service_destroy-ok s _ (CanDestroy-Kept stopped unbothered))
        (ap (erase name) (service_destroy-map s _ ∙ stopped.servers)))

pub find_server-insert-found :
    (s : ℕ) (k : Bytes) (m : List (Bytes × ℕ))
    → lookup k m ≡ none
    → find_server s m ≡ none
    → find_server s (insert k s m) ≡ some k
unfolding lookup insert find_server
find_server-insert-found s k [] free fresh = ground arith
find_server-insert-found s k ((j, x) ∷ m) free fresh =
    ground (arith, find_server-insert-found s k m)

create_service-table :
    (type : ServiceType) (name : Bytes) (w : World)
    → let u = (create_service type name w).1 in (u.lib ≡ w.lib) × (u.hcom_func ≡ w.hcom_func)
unfolding create_service service_create invoke_int
create_service-table type name w = ground arith

create_service-failed :
    (type : ServiceType) (name : Bytes) (w : World)
    → let r = create_service type name w in is_ok r.0.0 ≡ false → r.1.service_map ≡ w.service_map
unfolding create_service service_create invoke_int
create_service-failed type name w = ground arith

-- What a creation does to the maps, whether it succeeds or fails.
pub create_server-table :
    (c : ConfigMap) (w : World)
    → let r = create_server c w in
      (r.1.lib ≡ w.lib)
      × (r.1.hcom_func ≡ w.hcom_func)
      × (is_ok r.0.0 ≡ false → r.1.service_map ≡ w.service_map)
unfolding create_server
create_server-table c w = elim (Bool-cases (ltb 64 (length (service_name c)))) [
  | inl long ↦ rw long (refl, refl, λ bad. refl)
  | inr short ↦ rw short (elim (Option-cases (transport_of c)) [
    | inl bad ↦ rw bad (refl, refl, λ failed. refl)
    | inr (none, default) ↦
        rw default (let (l, t) = create_service-table _ _ w in (l, t, create_service-failed _ _ w))
    | inr (some type, chosen) ↦
        rw chosen
          (let (l, t) = create_service-table type _ _ in (l, t, create_service-failed type _ _))
  ])
]
