-- ===== src/Hcom/World.antt =====
-- The state of the program and its dealings with everything outside it. Each call that leaves the
-- program is an event; the trace lists them, the newest first, and the world outside answers an
-- event by `lib`, which sees the whole history. The globals of src/hcom4db.cpp and
-- src/hcom4db_dlopen_hcom.cpp are the other fields.
use Prim.Native.String.{String}
use hcom4db.Base.{
  ℕ, ◌==◌, ℤ, pos, negsuc, Bool, true, false, List, [], ◌∷◌, Option, none, some, if◌then◌else◌,
}
use hcom4db.Base.Maps.{lookup, string_eq}
use hcom4db.Hcom.Types.{
  Bytes, ock_rpc_err, Message, RpcMessage, Func, ContextType, AsyncCbInfo, ServiceOptions, TlsFuncs,
  ServiceType, MrInfo,
}
use hcom4db.Hcom.Call.{Call, symbol}

-- The mutexes of src/hcom4db.cpp, and what is done to one.
pub data Mutex : Type 0 where
  service_mutex service_add_mutex service_add_rndv_mutex : Mutex

pub data LockOp : Type 0 where
  lock unlock lock_shared unlock_shared : LockOp

pub data Event : Type 0 where
  -- a function of libhcom.so
  library : Call → Event
  -- the C library: sizes and addresses
  malloc : ℕ → Event
  free : ℕ → Event
  getenv : Bytes → Event
  realpath : Bytes → Event
  dlopen : Bytes → Event
  dlsym : ℕ → String → Event
  dlclose : ℕ → Event
  -- securec: memcpy_s of memory (destination, its room, source, count), and a text written into a
  -- buffer of a struct (room, what it held, the text)
  memcpy_s : ℕ → ℕ → ℕ → ℕ → Event
  write_text : ℕ → Bytes → Bytes → Event
  memset_s : Event
  -- `head->msgId = msgId`
  store_msg_id : ℕ → ℕ → Event
  -- the read of `head->msgId`
  load_msg_id : ℕ → Event
  mutex : Mutex → LockOp → Event
  -- the user's functions: a completion callback with status and argument, a message handler with
  -- context and message, a rendezvous handler
  done : ℕ → ℤ → ℕ → Event
  handle : ℕ → ℕ → RpcMessage → Event
  handle_rndv : ℕ → ℕ → List RpcMessage → Event
  -- the user's TLS functions: getCert, getCaAndVerify, getPriKey with what g_tlsFunc.eraseKeyPass
  -- holds, and the function that erases a password
  user_cert : ℕ → Event
  user_ca : ℕ → ℕ → Event
  user_pri_key : ℕ → ℕ → Event
  user_erase : ℕ → ℕ → Event
  -- a read through a pointer to storage that is not there
  dangling : ℕ → Event

-- An answer: the result, then what is written through the out parameters.
pub record Reply : Type 0 where
  pub ret : ℤ
  -- the handle, address, data pointer or code
  pub out : ℕ
  -- the key
  pub key : ℕ
  pub size : ℕ
  -- the text, or what the buffer holds afterwards
  pub text : Option Bytes
  pub messages : List Message
  pub context_type : ContextType
  -- the indeterminate contents of fresh storage
  pub garbage : AsyncCbInfo

pub record World : Type 0 where
  pub lib : List Event → Reply
  pub trace : List Event
  pub hcom_dl : ℕ
  pub hcom_func : List (String × ℕ)
  pub log_func : Func
  pub tls_func : TlsFuncs
  pub options : ServiceOptions
  pub connection_type : ServiceType
  pub handle_map : List (ℤ × ℕ)
  pub rndv_handle_map : List (ℤ × ℕ)
  pub service_map : List (Bytes × ℕ)
  pub memory_allocator : List (ℕ × ℕ)
  pub memory_region : List (ℕ × MrInfo)
  pub timeout_time : ℤ
  -- the user's OckRpcMessage objects, by address
  pub rpc_messages : ℕ → RpcMessage
  -- the AsyncCbInfo objects that are allocated, by address
  pub cb_infos : ℕ → Option AsyncCbInfo

abbrev pub M : Type 0 → Type 0
M A = World → A × World

abbrev pub pure : {A : Type 0} → A → M A
pure a w = (a, w)

infixl 5 ◌>>=◌ ◌>>◌
abbrev pub ◌>>=◌ : {A B : Type 0} → M A → (A → M B) → M B
◌>>=◌ m f w = let (a, w') = m w in f a w'

abbrev pub ◌>>◌ : {A B : Type 0} → M A → M B → M B
m >> k = m >>= λ _. k

abbrev pub gets : {A : Type 0} → (World → A) → M A
gets f w = (f w, w)

abbrev pub modify : (World → World) → M (Unit {0})
modify f w = (tt, f w)

abbrev pub update {ℓ} : {V : Type ℓ} → (ℕ → V) → ℕ → V → ℕ → V
update f p v q = if p == q then v else f q

-- An event and its answer.
abbrev pub ask : Event → M Reply
ask e w = (w.lib (e ∷ w.trace), record w { trace = e ∷ w.trace })

-- An event without an answer that matters.
abbrev pub emit : Event → M (Unit {0})
emit e w = (tt, record w { trace = e ∷ w.trace })

-- `ret == OCK_RPC_OK`.
abbrev pub is_ok : ℤ → Bool
is_ok (pos n) = n == 0
is_ok (negsuc n) = false

-- What a buffer holds after a write.
abbrev pub buffer : Reply → Bytes
buffer r = elim r.text [ none ↦ [] | some t ↦ t ]

-- `if (ret != OCK_RPC_OK) return early;`
abbrev pub unless_ok : {A : Type 0} → ℤ → A → M A → M A
unless_ok ret early rest = if is_ok ret then rest else pure early

-- `if (it is missing) return early;`
abbrev pub or_return : {A B : Type 0} → Option A → B → (A → M B) → M B
or_return none early rest = pure early
or_return (some a) early rest = rest a

abbrev pub empty_info : AsyncCbInfo
empty_info = record { cb = 0; arg = 0; client = 0; rsp = none; req_addr = none; req_cnt = 0 }

-- What a wrapper answers when its function is missing.
abbrev pub no_reply : ℤ → Reply
no_reply r = record {
  ret = r;
  out = 0;
  key = 0;
  size = 0;
  text = none;
  messages = [];
  context_type = ContextType.service_received;
  garbage = empty_info;
}

-- `g_hcomFunc.f != nullptr`.
abbrev pub is_bound : String → List (String × ℕ) → Bool
is_bound s table = elim (lookup s table) [ none ↦ false | some p ↦ if p == 0 then false else true ]

abbrev pub invoke : Call → Reply → M Reply
invoke c missing w =
    if is_bound (symbol c) w.hcom_func then ask (Event.library c) w else (missing, w)

-- The three kinds of wrapper: the default is an error, a zero, or nothing.
unfoldable pub invoke_int : Call → M Reply
invoke_int c = invoke c (no_reply ock_rpc_err)

unfoldable pub invoke_value : Call → M Reply
invoke_value c = invoke c (no_reply (pos 0))

unfoldable pub invoke_void : Call → M (Unit {0})
invoke_void c = invoke c (no_reply (pos 0)) >> pure tt
