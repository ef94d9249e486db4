-- ===== src/Examples/Logger.antt =====
-- Messages and the logger's creation, at concrete inputs and in a concrete interleaving.
use hcom4db.Base.{ℕ, ◌≤◌, ◌≡◌, ◌↔◌, ◌==◌, refl, pos, true, false, [], ◌∷◌, List, none, some, arith}
use hcom4db.Hcom.Types.{Func, codes}
use hcom4db.Log.{set_str_stol, is_level, set_log_level_env, read_number}
use hcom4db.Log.Logger.{LogState, Meets, external, hcom_log, instance_step, log_if}
use hcom4db.Log.Logger.Filter.{Sent, settings_and_messages, settings_and_messages_lem}
use hcom4db.Log.Instance.{Pc, Move, System, pick, Reach, start, later, inside}
use hcom4db.Log.Instance.Single.{owns, Reach-IsSingle}
use hcom4db.Log.Instance.Leaves.{CanReturn, Reach-CanReturn}
use hcom4db.Log.Numeral.{Names}
use hcom4db.Log.Numeral.Taken.{set_str_stol_iff}

abbrev no_logger : LogState
no_logger = record { logger = none; log_level = pos 1; output = [] }

abbrev stored : Meets
stored = record { allocates = true; env = none }

abbrev no_storage : Meets
no_storage = record { allocates = false; env = some (codes "0") }

-- A warning passes level 2, information does not.
abbrev two_messages : List Sent
two_messages =
    record { first = stored; second = stored; level = 1; msg = codes "b" }
    ∷ record { first = no_storage; second = stored; level = 2; msg = codes "a" }
    ∷ []

settings_and_messages_lem_example :
    settings_and_messages stored (Func.at 7) 2 two_messages no_logger
    ≡ some (record {
      logger = some (Func.at 7);
      log_level = pos 2;
      output = external (Func.at 7) (pos 2) (codes "[WARN]a") ∷ [];
    })
settings_and_messages_lem_example =
    settings_and_messages_lem stored (Func.at 7) 2 two_messages no_logger refl (omega arith)

-- Without storage a message that passes the level reads through null.
null_logger : hcom_log no_storage no_storage (pos 3) (codes "a") no_logger ≡ none
unfolding hcom_log log_if instance_step set_log_level_env set_str_stol read_number
null_logger = refl

-- Thread 0 has stored gLogger and not yet set the level; thread 1 waits for the lock.
abbrev published : (s : System) × Reach s
published = (
  _,
  later
      (later
        (later (later (later start (pick 0 (Move.slow refl))) (pick 1 (Move.slow refl)))
          (pick 0 (Move.acquire refl)))
        (pick 0 (Move.missing refl)))
      (pick 0 Move.make),
)

-- Thread 2 then returns before the level is set.
early_return : (s : System) × Reach s × (s.pc 2 ≡ Pc.returned) × (s.pc 0 ≡ Pc.setting)
early_return = (_, later published.1 (pick 2 (Move.fast refl)), refl, refl)

Reach-IsSingle_example :
    (published.0.mem.made ≤ 1)
    × (published.0.mem.logger ≡ (published.0.mem.made == 1))
    × ((i : ℕ) → inside (published.0.pc i) ≡ owns published.0.mem.owner i)
    × (is_level published.0.mem.log_level ≡ true)
Reach-IsSingle_example = Reach-IsSingle published.1

Reach-CanReturn_example : CanReturn 1 published.0
Reach-CanReturn_example = Reach-CanReturn published.1 1

set_str_stol_iff_example :
    (set_str_stol (codes " +03") ≡ some (pos 3))
    ↔ ((n : ℕ) × (pos 3 ≡ pos n) × Names (codes " +03") n)
set_str_stol_iff_example = set_str_stol_iff (codes " +03") (pos 3)
