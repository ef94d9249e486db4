-- ===== src/Log/Logger.antt =====
-- The logger of src/hcom4db_log.cpp and the macros of src/hcom4db_log.h, on one thread: Instance,
-- SetExternalLogFunction, Log, OCK_RPC_LOG and OCK_RPC_HCOM_LOG with HcomLog of src/hcom4db.cpp.
pub mod Filter
use hcom4db.Base.{
  ℕ, ◌==◌, ◌≤◌, ◌≡◌, refl, ℤ, pos, negsuc, Bool, true, false, leb, List, [], ◌∷◌, ◌++◌, Option,
  none, some, if◌then◌else◌, arith,
}
use hcom4db.Hcom.Types.{Bytes, Func, codes}
use hcom4db.Log.{set_log_level, set_log_level_env}

-- A message that left the program, through the user's function or on std::cout. The time stamp in
-- front of a message on std::cout is left out.
pub data Output : Type 0 where
  external : Func → ℤ → Bytes → Output
  console : ℤ → Bytes → Output

-- `logger` is gLogger: null, or an object with its mLogFunc.
pub record LogState : Type 0 where
  pub logger : Option Func
  pub log_level : ℤ
  pub output : List Output

-- What a call of Instance meets: whether `new` finds storage, and the value of HCOM_SET_LOG_LEVEL.
pub record Meets : Type 0 where
  pub allocates : Bool
  pub env : Option Bytes

abbrev pub made_logger : Bool → Option Func
made_logger true = some Func.null
made_logger false = none

abbrev pub instance_of : Meets → Option Func → LogState → LogState
instance_of o (some f) s = s
instance_of o none s = record s {
  logger = made_logger o.allocates;
  log_level = set_log_level_env o.env s.log_level;
}

unfoldable pub instance_step : Meets → LogState → LogState
instance_step o s = instance_of o s.logger s

abbrev pub written : ℤ → Bytes → Func → Output
written level text Func.null = console level text
written level text f = external f level text

-- Log; `none` is a read through a null gLogger.
abbrev pub log_through : ℤ → Bytes → Option Func → LogState → Option LogState
log_through level text none s = none
log_through level text (some f) s = some (record s { output = written level text f ∷ s.output })

-- `level >= GetLogLevel()`.
abbrev pub at_least : ℤ → ℤ → Bool
at_least (pos a) (pos b) = leb b a
at_least (pos a) (negsuc b) = true
at_least (negsuc a) (pos b) = false
at_least (negsuc a) (negsuc b) = leb a b

abbrev pub tag : ℤ → Bytes
tag (negsuc n) = []
tag (pos n) =
    if n == 0
    then codes "[DEBUG]"
    else if n == 1
    then codes "[INFO]"
    else if n == 2
    then codes "[WARN]"
    else if n == 3
    then codes "[ERROR]"
    else []

-- The test of both macros and the call of Log behind it; the two calls of Instance may meet
-- different storage.
unfoldable pub log_if : Meets → Meets → ℤ → Bytes → LogState → Option LogState
unfolding instance_step
log_if o o' level text s =
    let s1 = instance_step o s in
    let s2 = instance_step o' s1 in
    if at_least level s1.log_level then log_through level text s2.logger s2 else some s1

-- OCK_RPC_LOG at a place `file:line`, with the text that `args` stream.
unfoldable pub ock_rpc_log : Meets → Meets → Bytes → ℤ → Bytes → LogState → Option LogState
ock_rpc_log o o' place level args s =
    log_if o o' level
      (tag level ++ (codes "[HCOM4DB " ++ (place ++ (codes "] (" ++ (args ++ codes ")"))))) s

-- HcomLog, by OCK_RPC_HCOM_LOG.
unfoldable pub hcom_log : Meets → Meets → ℤ → Bytes → LogState → Option LogState
hcom_log o o' level msg s = log_if o o' level (tag level ++ msg) s

abbrev pub set_function : Func → Option Func → LogState → Option LogState
set_function h none s = none
set_function h (some f) s = some (record s { logger = some h })

-- The logger's half of OckRpcSetExternalLogger.
unfoldable pub set_external_log_function : Meets → Func → LogState → Option LogState
unfolding instance_step
set_external_log_function o h s = let s1 = instance_step o s in set_function h s1.logger s1

-- SetLogLevel(int) on the state.
abbrev pub with_level : ℤ → LogState → LogState
with_level n s = record s { log_level = set_log_level n s.log_level }
