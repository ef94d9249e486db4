-- ===== src/Client/Own.antt =====
-- Which allocator a step of src/hcom4db.cpp uses, of those that g_memoryAllocator holds. The rules compose such steps as the code composes them.
pub mod Packing
pub mod Calling
pub mod Completing
use hcom4db.Base.{
  ℕ, ◌==◌, ◌≡◌, refl, ◌∙◌, ℤ, Bool, true, false, List, [], ◌∷◌, ◌++◌, Option, none, some,
  if◌then◌else◌, Bool-cases, Option-cases, inl, inr, arith,
}
use hcom4db.Base.Maps.{lookup, assign, lookup-assign_self, nat_eq}
use hcom4db.Hcom.Call.{Call}
use hcom4db.Hcom.Memory.{net_memory_allocator_allocate, net_memory_allocator_free}
use hcom4db.Hcom.Types.{AsyncCbInfo, RpcMessage}
use hcom4db.Hcom.World.{
  M, World, Event, ask, emit, gets, invoke_int, invoke_value, is_ok, library, modify, or_return,
  pure, unless_ok, ◌>>=◌,
}
use hcom4db.Client.Blocks.{allocator_of, mem_alloc, mem_free}

-- The allocator of a client, null where the client has none.
abbrev pub allocator_at : ℕ → World → ℕ
allocator_at client w = elim (lookup client w.memory_allocator) [ none ↦ 0 | some a ↦ a ]

abbrev stranger_of : ℕ → Event → List Event
stranger_of a (library (Call.net_memory_allocator_allocate b n)) =
    if b == a then [] else library (Call.net_memory_allocator_allocate b n) ∷ []
stranger_of a (library (Call.net_memory_allocator_free b addr)) =
    if b == a then [] else library (Call.net_memory_allocator_free b addr) ∷ []
stranger_of a _ = []

-- The requests for a block, and the blocks given back, at any allocator but this one.
abbrev pub strangers : ℕ → List Event → List Event
strangers a [] = []
strangers a (e ∷ t) = stranger_of a e ++ strangers a t

-- From `w` to `u` every block was granted by the allocator that the client has in `w`, and every one
-- that came back went there.
abbrev pub UsesOwn : ℕ → World → World → Type 0
UsesOwn client w u =
    strangers (allocator_at client w) u.trace ≡ strangers (allocator_at client w) w.trace

pub record Own (client a : ℕ) {A : Type 0} (m : M A) : Type 0 where
  pub own :
      (w : World)
      → allocator_at client w ≡ a
      → (allocator_at client (m w).1 ≡ a) × (strangers a (m w).1.trace ≡ strangers a w.trace)

-- An event that is no business of another allocator.
abbrev IsNeutral : ℕ → Event → Type 0
IsNeutral a e = (t : List Event) → strangers a (e ∷ t) ≡ strangers a t

module _ {client a : ℕ} where
  pub pure-Own : {A : Type 0} (x : A) → Own client a (pure x)
  pure-Own x = record { own = λ w at. (at, refl) }

  pub bind-Own :
      {A B : Type 0} {m : M A} {f : A → M B}
      → Own client a m
      → ((x : A) → Own client a (f x))
      → Own client a (m >>= f)
  bind-Own {m = m} first rest = record {
    own = λ w at.
        (let (at', same) = first.own w at in
          let (at'', same') = (rest (m w).0).own (m w).1 at' in (at'', same' ∙ same));
  }

  pub if-Own :
      {A : Type 0} (b : Bool) {m n : M A}
      → Own client a m
      → Own client a n
      → Own client a (if b then m else n)
  if-Own true first second = first
  if-Own false first second = second

  pub unless_ok-Own :
      {A : Type 0} (ret : ℤ) (early : A) {m : M A}
      → Own client a m
      → Own client a (unless_ok ret early m)
  unless_ok-Own ret early rest = if-Own (is_ok ret) rest (pure-Own early)

  pub or_return-Own :
      {A B : Type 0} (o : Option A) (early : B) {f : A → M B}
      → ((x : A) → Own client a (f x))
      → Own client a (or_return o early f)
  or_return-Own none early rest = pure-Own early
  or_return-Own (some x) early rest = rest x

  pub gets-Own : {A : Type 0} (f : World → A) → Own client a (gets f)
  gets-Own f = record { own = λ w at. (at, refl) }

  pub emit-Own : (e : Event) → IsNeutral a e → Own client a (emit e)
  emit-Own e neutral = record { own = λ w at. (at, neutral w.trace) }

  pub ask-Own : (e : Event) → IsNeutral a e → Own client a (ask e)
  ask-Own e neutral = record { own = λ w at. (at, neutral w.trace) }

  pub invoke_int-Own : (c : Call) → IsNeutral a (library c) → Own client a (invoke_int c)
  unfolding invoke_int
  invoke_int-Own c neutral = record { own = λ w at. ground (arith, neutral w.trace) }

  pub invoke_value-Own : (c : Call) → IsNeutral a (library c) → Own client a (invoke_value c)
  unfolding invoke_value
  invoke_value-Own c neutral = record { own = λ w at. ground (arith, neutral w.trace) }

  pub infos-Own :
      (f : World → ℕ → Option AsyncCbInfo)
      → Own client a (modify (λ w. record w { cb_infos = f w }))
  infos-Own f = record { own = λ w at. (at, refl) }

  pub messages-Own :
      (f : World → ℕ → RpcMessage) → Own client a (modify (λ w. record w { rpc_messages = f w }))
  messages-Own f = record { own = λ w at. (at, refl) }

allocator_of-own :
    (client : ℕ) (w : World)
    → let r = allocator_of client w in
      (r.0 ≡ allocator_at client w)
      × (allocator_at client r.1 ≡ allocator_at client w)
      × (r.1.trace ≡ w.trace)
unfolding allocator_of
allocator_of-own client w = ground (arith, lookup-assign_self client 0 w.memory_allocator)

pub mem_alloc-Own : (client a n : ℕ) → Own client a (mem_alloc client n)
unfolding mem_alloc net_memory_allocator_allocate invoke_int
mem_alloc-Own client a n = record { own = λ w at. ground (arith, allocator_of-own client w) }

pub mem_free-Own : (client a addr : ℕ) → Own client a (mem_free client addr)
unfolding mem_free net_memory_allocator_free invoke_int
mem_free-Own client a addr = record { own = λ w at. ground (arith, allocator_of-own client w) }

pub ruleset owning = (
  pure-Own, bind-Own, if-Own, unless_ok-Own, or_return-Own, gets-Own, emit-Own, ask-Own,
  invoke_int-Own, invoke_value-Own, infos-Own, messages-Own, mem_alloc-Own, mem_free-Own,
)
