-- ===== src/Server/Kept.antt =====
-- What a step of a server's set-up leaves alone: the maps of the program, the function table, and how
-- the thread holds each mutex; with the rules that compose such steps as the code composes them.
pub mod Steps
use hcom4db.Base.{
  if◌then◌else◌, ◌&&◌, ◌∷◌, pos, ℕ, ◌≡◌, refl, ◌∙◌, ℤ, Bool, true, false, List, Option, none, some,
  arith, Bool-cases, Option-cases, inl, inr,
}
use hcom4db.Config.{CStr, ConfigMap, CreateConfig, has_bit, string_2_num, yes_or_no}
use hcom4db.Config.Allocator.{
  segment_size_key, segment_count_key, ock_max_messag_size, ock_max_messag_count,
}
use hcom4db.Base.Maps.{lookup, bytes_key}
use hcom4db.Hcom.Types.{
  AsyncCbInfo, Func, RpcMessage, Bytes, ServiceOptions, TlsFuncs, ock_rpc_ok, ock_rpc_err,
  ock_rpc_err_invalid_param,
}
use hcom4db.Hcom.Service.{
  service_register_allocate_handler, service_register_channel_handler,
  service_register_free_handler, service_register_op_handler, service_register_rndv_op_handler,
  service_register_tls_cb, service_set_external_logger, service_set_oob_ip_and_port,
}
use hcom4db.Hcom.World.{
  M, World, Event, Reply, Mutex, ask, gets, library, no_reply, modify, buffer, invoke, write_text,
  is_bound, invoke_value, invoke_void, pure, ◌>>=◌, unless_ok, or_return, is_ok,
}
use hcom4db.Hcom.Call.{Call, symbol}
use hcom4db.Server.Options.{
  set_options, poll_worker_key, copy_field, copy_entry, set_work_thread_configs, set_addresses,
  set_segment_count, set_segments, default_option_init,
}
use hcom4db.Server.Features.{
  register_rndv, set_rndv_op_handler, register_tls, set_tls_configs, enable_rndv, set_rndv,
  set_heartbeat, set_workers, expand_option_init, rndv_malloc_key, rndv_mfree_key, enable_tls_key,
  enable_rndv_key, heartbeat_key, lacks_tls_function,
}
use hcom4db.Server.Create.{register_channel_handle, register_handlers, set_logger}
use hcom4db.Server.Locks.{Hold, hold_after, hold_of}

pub record Kept (w u : World) : Type 0 where
  pub lib : u.lib ≡ w.lib
  pub table : u.hcom_func ≡ w.hcom_func
  pub servers : u.service_map ≡ w.service_map
  pub handlers : u.handle_map ≡ w.handle_map
  pub rndv_handlers : u.rndv_handle_map ≡ w.rndv_handle_map
  pub allocators : u.memory_allocator ≡ w.memory_allocator
  pub regions : u.memory_region ≡ w.memory_region
  pub holds : (m : Mutex) → hold_of m u.trace ≡ hold_of m w.trace

pub Kept-refl : {w : World} → Kept w w
Kept-refl = record {
  lib = refl;
  table = refl;
  servers = refl;
  handlers = refl;
  rndv_handlers = refl;
  allocators = refl;
  regions = refl;
  holds = λ m. refl;
}

pub Kept-trans : {w u v : World} → Kept w u → Kept u v → Kept w v
Kept-trans a b = record {
  lib = b.lib ∙ a.lib;
  table = b.table ∙ a.table;
  servers = b.servers ∙ a.servers;
  handlers = b.handlers ∙ a.handlers;
  rndv_handlers = b.rndv_handlers ∙ a.rndv_handlers;
  allocators = b.allocators ∙ a.allocators;
  regions = b.regions ∙ a.regions;
  holds = λ m. b.holds m ∙ a.holds m;
}

-- A step that keeps all this from every world.
pub record Keeps {A : Type 0} (m : M A) : Type 0 where
  pub kept : (w : World) → Kept w (m w).1

-- The steps are composed as the code composes them.
pub pure-Keeps : {A : Type 0} (a : A) → Keeps (pure a)
pure-Keeps a = record { kept = λ w. Kept-refl }

pub bind-Keeps :
    {A B : Type 0} {m : M A} {f : A → M B} → Keeps m → ((a : A) → Keeps (f a)) → Keeps (m >>= f)
bind-Keeps {m = m} first rest = record {
  kept = λ w. Kept-trans (first.kept w) ((rest (m w).0).kept (m w).1);
}

pub unless_ok-Keeps :
    {A : Type 0} (ret : ℤ) (early : A) {m : M A} → Keeps m → Keeps (unless_ok ret early m)
unless_ok-Keeps ret early rest = elim (Bool-cases (is_ok ret)) [
  | inl good ↦ rw good rest
  | inr bad ↦ rw bad (pure-Keeps early)
]

pub or_return-Keeps :
    {A B : Type 0} (o : Option A) (early : B) {f : A → M B}
    → ((a : A) → Keeps (f a))
    → Keeps (or_return o early f)
or_return-Keeps none early rest = pure-Keeps early
or_return-Keeps (some a) early rest = rest a

pub if-Keeps : {A : Type 0} (b : Bool) {m n : M A} → Keeps m → Keeps n → Keeps (if b then m else n)
if-Keeps true first second = first
if-Keeps false first second = second

pub gets-Keeps : {A : Type 0} (f : World → A) → Keeps (gets f)
gets-Keeps f = record { kept = λ w. Kept-refl }

-- The fields that Kept does not name.
pub record Others : Type 0 where
  pub log_func : Func
  pub tls_func : TlsFuncs
  pub options : ServiceOptions
  pub timeout_time : ℤ
  pub rpc_messages : ℕ → RpcMessage
  pub cb_infos : ℕ → Option AsyncCbInfo

abbrev pub others : World → Others
others w = record {
  log_func = w.log_func;
  tls_func = w.tls_func;
  options = w.options;
  timeout_time = w.timeout_time;
  rpc_messages = w.rpc_messages;
  cb_infos = w.cb_infos;
}

abbrev pub with_others : World → Others → World
with_others w o = record w {
  log_func = o.log_func;
  tls_func = o.tls_func;
  options = o.options;
  timeout_time = o.timeout_time;
  rpc_messages = o.rpc_messages;
  cb_infos = o.cb_infos;
}

pub others-Keeps : (f : World → Others) → Keeps (modify (λ w. with_others w (f w)))
others-Keeps f = record {
  kept = λ w. record {
    lib = refl;
    table = refl;
    servers = refl;
    handlers = refl;
    rndv_handlers = refl;
    allocators = refl;
    regions = refl;
    holds = λ m. refl;
  };
}

-- An event on no mutex.
pub event-Kept :
    (e : Event) (w : World)
    → ((m : Mutex) (h : Option Hold) → hold_after m e h ≡ h)
    → Kept w (record w { trace = e ∷ w.trace })
event-Kept e w none_held = record {
  lib = refl;
  table = refl;
  servers = refl;
  handlers = refl;
  rndv_handlers = refl;
  allocators = refl;
  regions = refl;
  holds = λ m. none_held m _;
}

pub write_text-Keeps : (room : ℕ) (old text : Bytes) → Keeps (ask (write_text room old text))
write_text-Keeps room old text = record { kept = λ w. event-Kept _ w (λ m h. refl) }

pub library-Keeps : (c : Call) (missing : Reply) → Keeps (invoke c missing)
library-Keeps c missing = record {
  kept = λ w. (elim (Bool-cases (is_bound (symbol c) w.hcom_func)) [
    | inl b ↦ rw b (event-Kept (library c) w (λ m h. refl))
    | inr n ↦ rw n Kept-refl
  ]);
}

pub invoke_value-Keeps : (c : Call) → Keeps (invoke_value c)
unfolding invoke_value
invoke_value-Keeps c = library-Keeps c (no_reply (pos 0))

pub invoke_void-Keeps : (c : Call) → Keeps (invoke_void c)
unfolding invoke_void
invoke_void-Keeps c = bind-Keeps (library-Keeps c (no_reply (pos 0))) (λ r. pure-Keeps tt)

pub ruleset keeping = (
  bind-Keeps, pure-Keeps, unless_ok-Keeps, or_return-Keeps, if-Keeps, gets-Keeps, write_text-Keeps,
  invoke_value-Keeps, invoke_void-Keeps,
)
