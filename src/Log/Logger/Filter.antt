-- ===== src/Log/Logger/Filter.antt =====
-- Which messages of OCK_RPC_LOG and HcomLog leave the program, and how.
use hcom4db.Base.{
  ℕ, ◌≤◌, ◌≡◌, refl, pos, leb, List, [], Option, some, none, if◌then◌else◌, true, ◌∷◌, ◌++◌, arith,
  Bool-cases, Option-cases, inl, inr, ℤ,
}
use hcom4db.Hcom.Types.{Bytes, Func}
use hcom4db.Log.{set_log_level, set_log_level_env}
use hcom4db.Log.Logger.{
  LogState, Meets, Output, hcom_log, instance_step, log_if, set_external_log_function, tag,
  with_level, written,
}

set_log_level-pos : (n : ℕ) (old : ℤ) → n ≤ 3 → set_log_level (pos n) old ≡ pos n
unfolding set_log_level
set_log_level-pos n old small = ground arith

-- A message that is given to HcomLog, with what its two calls of Instance meet.
pub record Sent : Type 0 where
  pub first : Meets
  pub second : Meets
  pub level : ℕ
  pub msg : Bytes

abbrev pub send_all : List Sent → LogState → Option LogState
send_all [] s = some s
send_all (m ∷ ms) s = elim (hcom_log m.first m.second (pos m.level) m.msg s) [
  | none ↦ none
  | some s' ↦ send_all ms s'
]

-- OckRpcSetExternalLogger, then SetLogLevel(n), then the messages.
abbrev pub settings_and_messages : Meets → Func → ℕ → List Sent → LogState → Option LogState
settings_and_messages o h n ms s = elim (set_external_log_function o h s) [
  | none ↦ none
  | some s1 ↦ send_all ms (with_level (pos n) s1)
]

-- The messages of a level from `n` on, each with its tag and through the function, the newest first.
abbrev pub passed : Func → ℕ → List Sent → List Output → List Output
passed h n [] out = out
passed h n (m ∷ ms) out =
    passed h n ms
      (if leb n m.level then written (pos m.level) (tag (pos m.level) ++ m.msg) h ∷ out else out)

module _ (h : Func) where
  -- Where a logger is there, or is made, it takes the function.
  set_external_log_function_lem :
      (o : Meets) (s : LogState)
      → o.allocates ≡ true
      → (l : ℤ) × (set_external_log_function o h s
          ≡ some (record s { logger = some h; log_level = l }))
  unfolding set_external_log_function instance_step
  set_external_log_function_lem o s fresh = elim (Option-cases s.logger) [
    | inl none_yet ↦ (set_log_level_env o.env s.log_level, ground arith)
    | inr (f, there) ↦ (s.log_level, ground arith)
  ]

  -- The state while `h` is set and the level is `n`.
  abbrev ready : ℕ → List Output → LogState
  ready n out = record { logger = some h; log_level = pos n; output = out }

  hcom_log_lem :
      (n : ℕ) (m : Sent) (out : List Output)
      → hcom_log m.first m.second (pos m.level) m.msg (ready n out)
        ≡ some (
            ready n (
              if leb n m.level
              then written (pos m.level) (tag (pos m.level) ++ m.msg) h ∷ out
              else out))
  unfolding hcom_log log_if instance_step
  hcom_log_lem n m out = elim (Bool-cases (leb n m.level)) [
    | inl up ↦ rw up refl
    | inr down ↦ rw down refl
  ]

  send_all_lem :
      (n : ℕ) (ms : List Sent) (out : List Output)
      → send_all ms (ready n out) ≡ some (ready n (passed h n ms out))
  send_all_lem n [] out = refl
  send_all_lem n (m ∷ ms) out = rw (hcom_log_lem n m out, send_all) (send_all_lem n ms _)

-- Where Instance finds storage for the logger, if there is none yet: after OckRpcSetExternalLogger
-- and SetLogLevel(n), with n from 0 to 3, no sequence of messages to HcomLog reads through a null
-- logger, whatever storage there is later, and what leaves the program is each message of a level of
-- at least n, once, in order, with its tag and through the function that was set.
pub settings_and_messages_lem :
    (o : Meets) (h : Func) (n : ℕ) (ms : List Sent) (s : LogState)
    → o.allocates ≡ true
    → n ≤ 3
    → settings_and_messages o h n ms s
      ≡ some (record { logger = some h; log_level = pos n; output = passed h n ms s.output })
settings_and_messages_lem o h n ms s fresh small =
    let (l, set) = set_external_log_function_lem h o s fresh in
    rw (set, settings_and_messages)
      (rw (set_log_level-pos n l small) (send_all_lem h n ms s.output))
