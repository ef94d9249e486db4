-- ===== src/Log/Instance/Single.antt =====
-- What every interleaving of Instance keeps: one thread at a time behind the lock, and one logger.
use hcom4db.Base.{
  ℕ, ◌≤◌, ◌==◌, ◌≡◌, refl, Bool, true, false, Option, none, some, if◌then◌else◌, arith,
}
use hcom4db.Hcom.World.{update}
use hcom4db.Log.{is_level, set_log_level_env-level}
use hcom4db.Log.Instance.{
  Shared, Pc, init, making, Move, System, Step, pick, Reach, start, later, inside,
}

pub record Inv (m : Shared) (pc : ℕ → Pc) : Type 0 where
  pub held : (i : ℕ) → inside (pc i) ≡ true → m.owner ≡ some i
  pub taken : (i : ℕ) → m.owner ≡ some i → inside (pc i) ≡ true
  pub counted : m.made ≡ (if m.logger then 1 else 0)
  pub missing : (i : ℕ) → pc i ≡ making → m.logger ≡ false
  pub level : is_level m.log_level ≡ true

-- The premise of a move, for the clauses that name no move.
abbrev Guard : {i : ℕ} {m m' : Shared} {p p' : Pc} → Move i m p m' p' → Type 0
Guard {m} (Move.acquire _) = m.owner ≡ none
Guard {m} (Move.missing _) = m.logger ≡ false
Guard _ = Unit {0}

guard : {i : ℕ} {m m' : Shared} {p p' : Pc} (mv : Move i m p m' p') → Guard mv
guard (Move.acquire g) = g
guard (Move.missing g) = g
guard _ = tt

module _ {m : Shared} {pc : ℕ → Pc} (inv : Inv m pc) (i : ℕ) where
  open inv use {held, taken, counted, missing, level}

  Move-held :
      {p p' : Pc} {m' : Shared}
      → Move i m p m' p'
      → pc i ≡ p
      → (j : ℕ) → inside (update pc i p' j) ≡ true
      → m'.owner ≡ some j
  Move-held (Move.acquire g) e j h = ground (arith, held j)
  Move-held mv e j h = ground (arith, held i, held j)

  Move-taken :
      {p p' : Pc} {m' : Shared}
      → Move i m p m' p'
      → pc i ≡ p
      → (j : ℕ) → m'.owner ≡ some j
      → inside (update pc i p' j) ≡ true
  Move-taken (Move.acquire g) e j h = ground (arith, taken j)
  Move-taken mv e j h = ground (arith, taken i, taken j)

  Move-counted :
      {p p' : Pc} {m' : Shared}
      → Move i m p m' p'
      → pc i ≡ p
      → m'.made ≡ (if m'.logger then 1 else 0)
  Move-counted Move.make e = ground (arith, missing i)
  Move-counted mv e = ground (arith, missing i)

  Move-missing :
      {p p' : Pc} {m' : Shared}
      → Move i m p m' p'
      → pc i ≡ p
      → (j : ℕ) → update pc i p' j ≡ making
      → m'.logger ≡ false
  Move-missing Move.make e j h = ground (arith, missing j, held i, held j)
  Move-missing mv e j h = ground (arith, guard mv, missing j, held i, held j)

  Move-level : {p p' : Pc} {m' : Shared} → Move i m p m' p' → is_level m'.log_level ≡ true
  Move-level (Move.set env) = set_log_level_env-level env m.log_level level
  Move-level mv = ground arith

  Move-Inv : {p p' : Pc} {m' : Shared} → Move i m p m' p' → pc i ≡ p → Inv m' (update pc i p')
  Move-Inv mv e = record {
    held = Move-held mv e;
    taken = Move-taken mv e;
    counted = Move-counted mv e;
    missing = Move-missing mv e;
    level = Move-level mv;
  }

Inv-init : Inv init.mem init.pc
Inv-init = record {
  held = λ i h. cc;
  taken = λ i h. cc;
  counted = refl;
  missing = λ i h. cc;
  level = refl;
}

Step-Inv : {s t : System} → Step s t → Inv s.mem s.pc → Inv t.mem t.pc
Step-Inv (pick i mv) inv = Move-Inv inv i mv refl

pub Reach-Inv : {s : System} → Reach s → Inv s.mem s.pc
Reach-Inv start = Inv-init
Reach-Inv (later r st) = Step-Inv st (Reach-Inv r)

-- The thread holds the lock.
abbrev pub owns : Option ℕ → ℕ → Bool
owns none i = false
owns (some j) i = j == i

-- In every state that any threads reach by calls of Instance, in any order of their steps and with
-- any values of HCOM_SET_LOG_LEVEL: at most one logger was made, gLogger is not null exactly if one
-- was, the threads between taking the lock and releasing it are exactly the one that owns it, and
-- the level is from 0 to 3.
pub Reach-IsSingle :
    {s : System}
    → Reach s
    → (s.mem.made ≤ 1)
      × (s.mem.logger ≡ (s.mem.made == 1))
      × ((i : ℕ) → inside (s.pc i) ≡ owns s.mem.owner i)
      × (is_level s.mem.log_level ≡ true)
Reach-IsSingle {s} r =
    let inv = Reach-Inv r in
    (
      ground (arith, inv.counted),
      ground (arith, inv.counted),
      λ i. ground (arith, inv.held i, inv.taken i),
      inv.level,
    )
