-- ===== src/Program/Safe.antt =====
-- Steps of src/hcom4db.cpp that keep the program sound, composed as the code composes them.
use hcom4db.Base.{
  ℕ, ℤ, Bool, true, false, ◌∷◌, Option, none, some, if◌then◌else◌, Bool-cases, inl, inr,
}
use hcom4db.Base.Distinct.{erase-DistinctKeys, insert-DistinctKeys}
use hcom4db.Base.Maps.{bytes_key, erase, insert, nat_eq}
use hcom4db.Hcom.Types.{Bytes, MrInfo}
use hcom4db.Hcom.World.{
  M, World, Event, ask, emit, gets, is_ok, modify, or_return, pure, unless_ok, ◌>>=◌,
}
use hcom4db.Server.Kept.{Keeps}
use hcom4db.Program.Sound.{IsSound, Kept-IsSound}

pub record Safe {A : Type 0} (m : M A) : Type 0 where
  pub safe : (w : World) → IsSound w → IsSound (m w).1

pub Keeps-Safe : {A : Type 0} {m : M A} → Keeps m → Safe m
Keeps-Safe k = record { safe = λ w s. Kept-IsSound (k.kept w) s }

pub pure-Safe : {A : Type 0} (a : A) → Safe (pure a)
pure-Safe a = record { safe = λ w s. s }

pub bind-Safe :
    {A B : Type 0} {m : M A} {f : A → M B} → Safe m → ((a : A) → Safe (f a)) → Safe (m >>= f)
bind-Safe {m = m} first rest = record { safe = λ w s. (rest (m w).0).safe (m w).1 (first.safe w s) }

pub unless_ok-Safe :
    {A : Type 0} (ret : ℤ) (early : A) {m : M A} → Safe m → Safe (unless_ok ret early m)
unless_ok-Safe ret early rest = elim (Bool-cases (is_ok ret)) [
  | inl good ↦ rw good rest
  | inr bad ↦ rw bad (pure-Safe early)
]

pub or_return-Safe :
    {A B : Type 0} (o : Option A) (early : B) {f : A → M B}
    → ((a : A) → Safe (f a))
    → Safe (or_return o early f)
or_return-Safe none early rest = pure-Safe early
or_return-Safe (some a) early rest = rest a

pub if-Safe : {A : Type 0} (b : Bool) {m n : M A} → Safe m → Safe n → Safe (if b then m else n)
if-Safe true first second = first
if-Safe false first second = second

pub gets-Safe : {A : Type 0} (f : World → A) → Safe (gets f)
gets-Safe f = record { safe = λ w s. s }

-- An event changes no map.
event-IsSound : (e : Event) (w : World) → IsSound w → IsSound (record w { trace = e ∷ w.trace })
event-IsSound e w s = record {
  handlers = s.handlers;
  rndv_handlers = s.rndv_handlers;
  servers = s.servers;
  allocators = s.allocators;
  regions = s.regions;
}

pub emit-Safe : (e : Event) → Safe (emit e)
emit-Safe e = record { safe = λ w s. event-IsSound e w s }

pub ask-Safe : (e : Event) → Safe (ask e)
ask-Safe e = record { safe = λ w s. event-IsSound e w s }

pub insert_server-Safe :
    (name : Bytes) (server : ℕ)
    → Safe (modify (λ w. record w { service_map = insert name server w.service_map }))
insert_server-Safe name server = record {
  safe = λ w s. record {
    handlers = s.handlers;
    rndv_handlers = s.rndv_handlers;
    servers = insert-DistinctKeys name server w.service_map s.servers;
    allocators = s.allocators;
    regions = s.regions;
  };
}

pub erase_server-Safe :
    (name : Bytes) → Safe (modify (λ w. record w { service_map = erase name w.service_map }))
erase_server-Safe name = record {
  safe = λ w s. record {
    handlers = s.handlers;
    rndv_handlers = s.rndv_handlers;
    servers = erase-DistinctKeys name w.service_map s.servers;
    allocators = s.allocators;
    regions = s.regions;
  };
}

pub insert_allocator-Safe :
    (client a : ℕ)
    → Safe (modify (λ w. record w { memory_allocator = insert client a w.memory_allocator }))
insert_allocator-Safe client a = record {
  safe = λ w s. record {
    handlers = s.handlers;
    rndv_handlers = s.rndv_handlers;
    servers = s.servers;
    allocators = insert-DistinctKeys client a w.memory_allocator s.allocators;
    regions = s.regions;
  };
}

pub erase_allocator-Safe :
    (client : ℕ)
    → Safe (modify (λ w. record w { memory_allocator = erase client w.memory_allocator }))
erase_allocator-Safe client = record {
  safe = λ w s. record {
    handlers = s.handlers;
    rndv_handlers = s.rndv_handlers;
    servers = s.servers;
    allocators = erase-DistinctKeys client w.memory_allocator s.allocators;
    regions = s.regions;
  };
}

pub insert_region-Safe :
    (client : ℕ) (r : MrInfo)
    → Safe (modify (λ w. record w { memory_region = insert client r w.memory_region }))
insert_region-Safe client r = record {
  safe = λ w s. record {
    handlers = s.handlers;
    rndv_handlers = s.rndv_handlers;
    servers = s.servers;
    allocators = s.allocators;
    regions = insert-DistinctKeys client r w.memory_region s.regions;
  };
}

pub erase_region-Safe :
    (client : ℕ) → Safe (modify (λ w. record w { memory_region = erase client w.memory_region }))
erase_region-Safe client = record {
  safe = λ w s. record {
    handlers = s.handlers;
    rndv_handlers = s.rndv_handlers;
    servers = s.servers;
    allocators = s.allocators;
    regions = erase-DistinctKeys client w.memory_region s.regions;
  };
}

pub ruleset safely = (
  pure-Safe, bind-Safe, unless_ok-Safe, or_return-Safe, if-Safe, gets-Safe, emit-Safe, ask-Safe,
  insert_server-Safe, erase_server-Safe, insert_allocator-Safe, erase_allocator-Safe,
  insert_region-Safe, erase_region-Safe,
)
