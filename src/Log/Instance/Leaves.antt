-- ===== src/Log/Instance/Leaves.antt =====
-- Instance ends: whatever the threads have done, each of them can return within a few steps, since
-- the one that holds the lock can always go on.
use hcom4db.Base.{
  ℕ, ◌+◌, ◌≤◌, ◌≡◌, ◌≢◌, refl, ap, ◌∙◌, true, false, none, some, Bool-cases, Option-cases, inl, inr,
  arith,
}
use mathlib.Core.Path.{subst}
use native.Mathlib.Decide.{ℕ_discrete}
use hcom4db.Hcom.World.{update}
use hcom4db.Log.Instance.{
  Shared, Pc, entry, locking, testing, making, setting, leaving, returned, Move, System, Step, pick,
  Reach, Run, done, and_then, inside,
}
use hcom4db.Log.Instance.Single.{Inv, Reach-Inv}

abbrev moved : System → ℕ → Shared → Pc → System
moved s i m p = record { mem = m; pc = update s.pc i p }

-- At most `bound` steps bring thread `i` to its return, with the lock free and the other threads
-- where they are.
record Ends (i : ℕ) (s : System) (bound : ℕ) : Type 0 where
  steps : ℕ
  last : System
  within : steps ≤ bound
  run : Run last s steps
  ended : last.pc i ≡ returned
  free : last.mem.owner ≡ none
  others : (j : ℕ) → i ≢ j → last.pc j ≡ s.pc j

module _ (i : ℕ) where
  Step-move :
      (s : System) {p p' : Pc} {m : Shared}
      → s.pc i ≡ p
      → Move i s.mem p m p'
      → Step s (moved s i m p')
  Step-move s e mv = pick i (rw e mv)

  moved_self : (s : System) (m : Shared) (p : Pc) → (moved s i m p).pc i ≡ p
  moved_self s m p = ground arith

  moved_other : (s : System) (m : Shared) (p : Pc) (j : ℕ) → i ≢ j → (moved s i m p).pc j ≡ s.pc j
  moved_other s m p j ne = ground arith

  first :
      (s : System) {p p' : Pc} {m : Shared} {b : ℕ}
      → s.pc i ≡ p
      → Move i s.mem p m p'
      → ((t : System) → t.pc i ≡ p' → t.mem ≡ m → Ends i t b)
      → Ends i s (b + 1)
  first s {p'} {m} {b} e mv rest = record {
    steps = r.steps + 1;
    last = r.last;
    within = omega (arith, r.within);
    run = and_then (Step-move s e mv) r.run refl;
    ended = r.ended;
    free = r.free;
    others = λ j ne. r.others j ne ∙ moved_other s m p' j ne;
  }
    where
      r : Ends i (moved s i m p') b
      r = rest (moved s i m p') (moved_self s m p') refl

  stays : (s : System) → s.pc i ≡ returned → s.mem.owner ≡ none → Ends i s 0
  stays s e free = record {
    steps = 0;
    last = s;
    within = omega arith;
    run = done;
    ended = e;
    free = free;
    others = λ j ne. refl;
  }

  from_leaving : (s : System) → s.pc i ≡ leaving → Ends i s 1
  from_leaving s e = first s {b = 0} e Move.release λ t q same. stays t q (ap (λ m. m.owner) same)

  from_setting : (s : System) → s.pc i ≡ setting → Ends i s 2
  from_setting s e = first s e (Move.set none) (λ t q _. from_leaving t q)

  from_making : (s : System) → s.pc i ≡ making → Ends i s 3
  from_making s e = first s e Move.make (λ t q _. from_setting t q)

  -- A longer bound.
  more : (s : System) {a b : ℕ} → a ≤ b → Ends i s a → Ends i s b
  more s le r = record {
    steps = r.steps;
    last = r.last;
    within = omega (arith, r.within);
    run = r.run;
    ended = r.ended;
    free = r.free;
    others = r.others;
  }

  from_testing : (s : System) → s.pc i ≡ testing → Ends i s 4
  from_testing s e = elim (Bool-cases s.mem.logger) [
    | inl there ↦ more s (omega arith) (first s e (Move.found there) (λ t q _. from_leaving t q))
    | inr missing ↦ first s e (Move.missing missing) (λ t q _. from_making t q)
  ]

  from_locking : (s : System) → s.pc i ≡ locking → s.mem.owner ≡ none → Ends i s 5
  from_locking s e free = first s e (Move.acquire free) (λ t q _. from_testing t q)

  from_entry : (s : System) → s.pc i ≡ entry → s.mem.owner ≡ none → Ends i s 6
  from_entry s e free = elim (Bool-cases s.mem.logger) [
    | inl there ↦
        more s (omega arith) (
          first s {b = 0} e (Move.fast there) λ t q same. stays t q (ap (λ m. m.owner) same ∙ free))
    | inr missing ↦
        first s e (Move.slow missing) λ t q same. from_locking t q (ap (λ m. m.owner) same ∙ free)
  ]

  -- Where thread `i` holds the lock.
  from_inside : (s : System) (p : Pc) → s.pc i ≡ p → inside p ≡ true → Ends i s 4
  from_inside s testing e h = from_testing s e
  from_inside s making e h = more s (omega arith) (from_making s e)
  from_inside s setting e h = more s (omega arith) (from_setting s e)
  from_inside s leaving e h = more s (omega arith) (from_leaving s e)
  from_inside s entry e h = absurd (cc)
  from_inside s locking e h = absurd (cc)
  from_inside s returned e h = absurd (cc)

  -- Where no thread holds the lock.
  from_outside :
      (s : System) (p : Pc) → s.pc i ≡ p → inside p ≡ false → s.mem.owner ≡ none → Ends i s 6
  from_outside s entry e h free = from_entry s e free
  from_outside s locking e h free = more s (omega arith) (from_locking s e free)
  from_outside s returned e h free = more s (omega arith) (stays s e free)
  from_outside s testing e h free = absurd (cc)
  from_outside s making e h free = absurd (cc)
  from_outside s setting e h free = absurd (cc)
  from_outside s leaving e h free = absurd (cc)

Run-append : {t u : System} {s : System} {n k : ℕ} → Run t s n → Run u t k → Run u s (n + k)
Run-append {t} {u} {s} {n} {k} done r = subst (Run u s) (omega arith) r
Run-append (and_then {n} st q same) r = and_then st (Run-append q r) (omega arith)

-- Some run of at most ten steps brings thread `i` to its return.
abbrev pub CanReturn : ℕ → System → Type 0
CanReturn i s = (k : ℕ) × (t : System) × (k ≤ 10) × Run t s k × (t.pc i ≡ returned)

returns : (i : ℕ) (s : System) {b : ℕ} → b ≤ 10 → Ends i s b → CanReturn i s
returns i s le r = (r.steps, r.last, omega (arith, r.within), r.run, r.ended)

not_inside :
    (i j : ℕ) (s : System) → Inv s.mem s.pc → s.mem.owner ≡ some j → j ≢ i → inside (s.pc i) ≡ false
not_inside i j s inv held ne = elim (Bool-cases (inside (s.pc i))) [
  | inl yes_inside ↦ ground (arith, inv.held i yes_inside)
  | inr out ↦ out
]

-- First the thread that holds the lock, then thread `i`.
returns_behind :
    (i j : ℕ) (s : System) → Inv s.mem s.pc → s.mem.owner ≡ some j → j ≢ i → CanReturn i s
returns_behind i j s inv held ne = (
  first_out.steps + then_out.steps,
  then_out.last,
  omega (arith, first_out.within, then_out.within),
  Run-append first_out.run then_out.run,
  then_out.ended,
)
  where
    first_out : Ends j s 4
    first_out = from_inside j s (s.pc j) refl (inv.taken j held)

    then_out : Ends i first_out.last 6
    then_out =
        from_outside i first_out.last (s.pc i) (first_out.others i ne)
          (not_inside i j s inv held ne) first_out.free

-- From every reachable state and for each thread, some run of at most ten steps brings the thread to
-- the return of Instance, so no state is a deadlock.
pub Reach-CanReturn : {s : System} → Reach s → (i : ℕ) → CanReturn i s
Reach-CanReturn {s} r i = elim (Option-cases s.mem.owner) [
  | inl free ↦ elim (Bool-cases (inside (s.pc i))) [
    | inl held ↦ returns i s (omega arith) (from_inside i s (s.pc i) refl held)
    | inr out ↦ returns i s (omega arith) (from_outside i s (s.pc i) refl out free)
  ]
  | inr (j, held) ↦ elim (ℕ_discrete j i) [
    | yes e ↦
        returns i s (omega arith)
          (from_inside i s (s.pc i) refl ((Reach-Inv r).taken i (held ∙ ap some e)))
    | no ne ↦ returns_behind i j s (Reach-Inv r) held ne
  ]
]
