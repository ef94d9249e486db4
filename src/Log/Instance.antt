-- ===== src/Log/Instance.antt =====
-- Hcom4dbLog::Instance of src/hcom4db_log.cpp with any number of threads, one access of shared
-- memory at a time. Accesses take effect in the order of the steps: gLogger is no atomic, so in C++
-- its unlocked read is a data race, which is left out.
pub mod Single
pub mod Leaves
use hcom4db.Base.{ℕ, ◌+◌, ◌≡◌, ℤ, Bool, true, false, Option, none, some}
use hcom4db.Hcom.Types.{Bytes}
use hcom4db.Hcom.World.{update}
use hcom4db.Log.{set_log_level_env}

-- `logger` says whether gLogger is there, `owner` which thread holds gMutex, and `made` counts the
-- loggers that `new` has made.
pub record Shared : Type 0 where
  pub logger : Bool
  pub owner : Option ℕ
  pub made : ℕ
  pub log_level : ℤ

-- Where a thread stands.
pub data Pc : Type 0 where
  entry : Pc  -- before the first test
  locking : Pc  -- before the lock_guard
  testing : Pc  -- before the second test
  making : Pc  -- before `new`
  setting : Pc  -- before SetLogLevel
  leaving : Pc  -- before the lock is released
  returned : Pc

-- A step of thread `i`. Where HCOM_SET_LOG_LEVEL is read, its value is any.
pub data Move (i : ℕ) (m : Shared) : Pc → Shared → Pc → Type 0 where
  fast : m.logger ≡ true → Move i m entry m returned
  slow : m.logger ≡ false → Move i m entry m locking
  acquire : m.owner ≡ none → Move i m locking (record m { owner = some i }) testing
  found : m.logger ≡ true → Move i m testing m leaving
  missing : m.logger ≡ false → Move i m testing m making
  make : Move i m making (record m { logger = true; made = m.made + 1 }) setting
  fail : Move i m making (record m { logger = false }) setting
  set :
      (env : Option Bytes)
      → Move i m setting (record m { log_level = set_log_level_env env m.log_level }) leaving
  release : Move i m leaving (record m { owner = none }) returned
  again : Move i m returned m entry

pub record System : Type 0 where
  pub mem : Shared
  pub pc : ℕ → Pc

pub data Step (s : System) : System → Type 0 where
  pick :
      (i : ℕ) {m : Shared} {p : Pc}
      → Move i s.mem (s.pc i) m p
      → Step s (record { mem = m; pc = update s.pc i p })

-- No logger, and LOG_LEVEL_INFO.
abbrev pub init : System
init = record {
  mem = record { logger = false; owner = none; made = 0; log_level = ℤ.pos 1 };
  pc = λ _. entry;
}

pub data Reach : System → Type 0 where
  start : Reach init
  later : {s t : System} → Reach s → Step s t → Reach t

-- A run to `u`, from a state, of a number of steps.
pub data Run (u : System) : System → ℕ → Type 0 where
  done : Run u u 0
  and_then : {s t : System} {n k : ℕ} → Step s t → Run u t n → k ≡ n + 1 → Run u s k

-- The lock is held between its two ends.
abbrev pub inside : Pc → Bool
inside testing = true
inside making = true
inside setting = true
inside leaving = true
inside _ = false
