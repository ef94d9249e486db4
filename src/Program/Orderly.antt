-- ===== src/Program/Orderly.antt =====
-- Steps of src/hcom4db.cpp that keep the program sound and leave every mutex free that was free,
-- composed as the code composes them.
use hcom4db.Base.{
  ℕ, ◌≡◌, ◌∙◌, ℤ, Bool, true, false, Option, none, some, if◌then◌else◌, Bool-cases, inl, inr,
}
use hcom4db.Base.Maps.{bytes_key, erase, insert, nat_eq}
use hcom4db.Hcom.Call.{Call}
use hcom4db.Hcom.Types.{MrInfo}
use hcom4db.Hcom.World.{
  M, World, Event, Mutex, ask, emit, gets, invoke_int, invoke_value, invoke_void, is_ok, modify,
  or_return, pure, unless_ok, ◌>>=◌,
}
use hcom4db.Server.Kept.{Keeps, invoke_value-Keeps, invoke_void-Keeps}
use hcom4db.Server.Locks.{Hold, hold_of, hold_after}
use hcom4db.Program.Kept.{invoke_int-Keeps}
use hcom4db.Program.Safe.{
  Safe, Keeps-Safe, ask-Safe, bind-Safe, emit-Safe, erase_allocator-Safe, erase_region-Safe,
  gets-Safe, insert_allocator-Safe, insert_region-Safe, pure-Safe,
}

pub record Orderly {A : Type 0} (m : M A) : Type 0 where
  pub sound : Safe m
  pub tidy :
      (w : World) (n : Mutex)
      → hold_of n w.trace ≡ some Hold.free
      → hold_of n (m w).1.trace ≡ some Hold.free

pub Keeps-Orderly : {A : Type 0} {m : M A} → Keeps m → Orderly m
Keeps-Orderly k = record { sound = Keeps-Safe k; tidy = λ w n h. (k.kept w).holds n ∙ h }

pub pure-Orderly : {A : Type 0} (a : A) → Orderly (pure a)
pure-Orderly a = record { sound = pure-Safe a; tidy = λ w n h. h }

pub bind-Orderly :
    {A B : Type 0} {m : M A} {f : A → M B}
    → Orderly m
    → ((a : A) → Orderly (f a))
    → Orderly (m >>= f)
bind-Orderly {m = m} first rest = record {
  sound = bind-Safe first.sound (λ a. (rest a).sound);
  tidy = λ w n h. (rest (m w).0).tidy (m w).1 n (first.tidy w n h);
}

pub unless_ok-Orderly :
    {A : Type 0} (ret : ℤ) (early : A) {m : M A} → Orderly m → Orderly (unless_ok ret early m)
unless_ok-Orderly ret early rest = elim (Bool-cases (is_ok ret)) [
  | inl good ↦ rw good rest
  | inr bad ↦ rw bad (pure-Orderly early)
]

pub or_return-Orderly :
    {A B : Type 0} (o : Option A) (early : B) {f : A → M B}
    → ((a : A) → Orderly (f a))
    → Orderly (or_return o early f)
or_return-Orderly none early rest = pure-Orderly early
or_return-Orderly (some a) early rest = rest a

pub if-Orderly :
    {A : Type 0} (b : Bool) {m n : M A} → Orderly m → Orderly n → Orderly (if b then m else n)
if-Orderly true first second = first
if-Orderly false first second = second

pub gets-Orderly : {A : Type 0} (f : World → A) → Orderly (gets f)
gets-Orderly f = record { sound = gets-Safe f; tidy = λ w n h. h }

-- An event on no mutex.
abbrev pub IsOther : Event → Type 0
IsOther e = (n : Mutex) (h : Option Hold) → hold_after n e h ≡ h

pub emit-Orderly : (e : Event) → IsOther e → Orderly (emit e)
emit-Orderly e other = record {
  sound = emit-Safe e;
  tidy = λ w n h. other n (hold_of n w.trace) ∙ h;
}

pub ask-Orderly : (e : Event) → IsOther e → Orderly (ask e)
ask-Orderly e other = record { sound = ask-Safe e; tidy = λ w n h. other n (hold_of n w.trace) ∙ h }

pub insert_allocator-Orderly :
    (client a : ℕ)
    → Orderly (modify (λ w. record w { memory_allocator = insert client a w.memory_allocator }))
insert_allocator-Orderly client a = record {
  sound = insert_allocator-Safe client a;
  tidy = λ w n h. h;
}

pub erase_allocator-Orderly :
    (client : ℕ)
    → Orderly (modify (λ w. record w { memory_allocator = erase client w.memory_allocator }))
erase_allocator-Orderly client = record { sound = erase_allocator-Safe client; tidy = λ w n h. h }

pub insert_region-Orderly :
    (client : ℕ) (r : MrInfo)
    → Orderly (modify (λ w. record w { memory_region = insert client r w.memory_region }))
insert_region-Orderly client r = record { sound = insert_region-Safe client r; tidy = λ w n h. h }

pub erase_region-Orderly :
    (client : ℕ) → Orderly (modify (λ w. record w { memory_region = erase client w.memory_region }))
erase_region-Orderly client = record { sound = erase_region-Safe client; tidy = λ w n h. h }

pub invoke_int-Orderly : (c : Call) → Orderly (invoke_int c)
invoke_int-Orderly c = Keeps-Orderly (invoke_int-Keeps c)

pub invoke_value-Orderly : (c : Call) → Orderly (invoke_value c)
invoke_value-Orderly c = Keeps-Orderly (invoke_value-Keeps c)

pub invoke_void-Orderly : (c : Call) → Orderly (invoke_void c)
invoke_void-Orderly c = Keeps-Orderly (invoke_void-Keeps c)

pub ruleset orderly = (
  pure-Orderly, bind-Orderly, emit-Orderly, ask-Orderly, unless_ok-Orderly, or_return-Orderly,
  if-Orderly, gets-Orderly, insert_allocator-Orderly, erase_allocator-Orderly,
  insert_region-Orderly, erase_region-Orderly, invoke_int-Orderly, invoke_value-Orderly,
  invoke_void-Orderly,
)
