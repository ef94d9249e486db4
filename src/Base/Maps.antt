-- ===== src/Base/Maps.antt =====
-- std::map as an association list over keys with an equality. The code finds, inserts, assigns
-- and erases, and never depends on the order of the entries.
use Prim.Native.Nat.{ℕ}
use mathlib.Core.Path.{◌≡◌, refl}
use mathlib.Core.Logic.{◌↔◌}
use mathlib.Core.Bool.{Bool, true, false, ◌&&◌}
use mathlib.Core.Option.{Option, none, some, or_else}
use mathlib.Core.List.{List, [], ◌∷◌}
use native.Mathlib.Omega.{arith}
use Prim.Native.String.{String}
use text.Mathlib.Text.{◌==◌ as str_eq}
use text.Mathlib.TextEquality.{eq_iff}
use hcom4db.Base.Tests.{if◌then◌else◌, ◌==◌ as nat_beq, ==_iff, is_some}
use hcom4db.Base.Words.{ℤ, eq_ℤ}

pub record Eq {ℓ} (A : Type ℓ) : Type ℓ where
  pub beq : A → A → Bool
  pub beq_iff : (a b : A) → (beq a b ≡ true) ↔ (a ≡ b)

instance abbrev pub nat_eq : Eq ℕ
nat_eq = record { beq = nat_beq; beq_iff = ==_iff }

pub eq_ℤ_iff : (a b : ℤ) → (eq_ℤ a b ≡ true) ↔ (a ≡ b)
eq_ℤ_iff a b = ground arith

instance abbrev pub int_eq : Eq ℤ
int_eq = record { beq = eq_ℤ; beq_iff = eq_ℤ_iff }

instance abbrev pub string_eq : Eq String
string_eq = record { beq = str_eq; beq_iff = eq_iff }

abbrev pub bytes_eq : List ℕ → List ℕ → Bool
bytes_eq [] [] = true
bytes_eq (x ∷ xs) (y ∷ ys) = nat_beq x y && bytes_eq xs ys
bytes_eq _ _ = false

bytes_eq_refl : (a : List ℕ) → bytes_eq a a ≡ true
bytes_eq_refl [] = refl
bytes_eq_refl (x ∷ xs) = ground (arith, bytes_eq_refl xs)

bytes_eq_sound : (a b : List ℕ) → bytes_eq a b ≡ true → a ≡ b
bytes_eq_sound [] [] h = refl
bytes_eq_sound [] (y ∷ ys) h = cc
bytes_eq_sound (x ∷ xs) [] h = cc
bytes_eq_sound (x ∷ xs) (y ∷ ys) h = ground (arith, bytes_eq_sound xs ys)

pub bytes_eq_iff : (a b : List ℕ) → (bytes_eq a b ≡ true) ↔ (a ≡ b)
bytes_eq_iff a b = (bytes_eq_sound a b, λ e. rw (← e) (bytes_eq_refl a))

instance abbrev pub bytes_key : Eq (List ℕ)
bytes_key = record { beq = bytes_eq; beq_iff = bytes_eq_iff }

pub beq_refl {ℓ} : {K : Type ℓ} ⦃e : Eq K⦄ (k : K) → e.beq k k ≡ true
beq_refl ⦃e⦄ k = (e.beq_iff k k).1 refl

module _ {ℓ κ} {K : Type ℓ} {V : Type κ} ⦃e : Eq K⦄ where
  unfoldable pub lookup : K → List (K × V) → Option V
  lookup k [] = none
  lookup k ((j, v) ∷ m) = if e.beq j k then some v else lookup k m

  -- map.insert: an entry that is there stays.
  unfoldable pub insert : K → V → List (K × V) → List (K × V)
  insert k v [] = (k, v) ∷ []
  insert k v ((j, w) ∷ m) = if e.beq j k then (j, w) ∷ m else (j, w) ∷ insert k v m

  -- map[k] = v.
  unfoldable pub assign : K → V → List (K × V) → List (K × V)
  assign k v [] = (k, v) ∷ []
  assign k v ((j, w) ∷ m) = if e.beq j k then (j, v) ∷ m else (j, w) ∷ assign k v m

  unfoldable pub erase : K → List (K × V) → List (K × V)
  erase k [] = []
  erase k ((j, v) ∷ m) = if e.beq j k then m else (j, v) ∷ erase k m

  pub lookup-insert :
      (k j : K) (v : V) (m : List (K × V))
      → lookup k m ≡ none
      → lookup j (insert k v m) ≡ (if e.beq k j then some v else lookup j m)
  unfolding lookup insert
  lookup-insert k j v [] h = refl
  lookup-insert k j v ((i, w) ∷ m) h =
      ground (arith, e.beq_iff k j, e.beq_iff i k, e.beq_iff i j, lookup-insert k j v m)

  pub lookup-insert_keeps :
      (k j : K) (v : V) (m : List (K × V))
      → lookup j (insert k v m) ≡ or_else (lookup j m) (if e.beq k j then some v else none)
  unfolding lookup insert or_else
  lookup-insert_keeps k j v [] = refl
  lookup-insert_keeps k j v ((i, w) ∷ m) =
      ground (arith, e.beq_iff k j, e.beq_iff i k, e.beq_iff i j, lookup-insert_keeps k j v m)

  pub lookup-assign :
      (k j : K) (v : V) (m : List (K × V))
      → lookup j (assign k v m) ≡ (if e.beq k j then some v else lookup j m)
  unfolding lookup assign
  lookup-assign k j v [] = refl
  lookup-assign k j v ((i, w) ∷ m) =
      ground (arith, e.beq_iff k j, e.beq_iff i k, e.beq_iff i j, lookup-assign k j v m)

  pub lookup-assign_self : (k : K) (v : V) (m : List (K × V)) → lookup k (assign k v m) ≡ some v
  lookup-assign_self k v m = rw (lookup-assign, beq_refl)

  -- To erase a key that was new gives the old map back.
  pub erase-insert :
      (k : K) (v : V) (m : List (K × V)) → lookup k m ≡ none → erase k (insert k v m) ≡ m
  unfolding lookup insert erase
  erase-insert k v [] h = ground (arith, e.beq_iff k k)
  erase-insert k v ((j, w) ∷ m) h = ground (arith, erase-insert k v m)

  -- Each key stands once.
  abbrev pub DistinctKeys : List (K × V) → Type 0
  DistinctKeys [] = Unit
  DistinctKeys ((k, _) ∷ m) = (is_some (lookup k m) ≡ false) × DistinctKeys m

  pub lookup-erase :
      (k j : K) (m : List (K × V))
      → DistinctKeys m
      → lookup j (erase k m) ≡ (if e.beq k j then none else lookup j m)
  unfolding lookup erase
  lookup-erase k j [] d = ground arith
  lookup-erase k j ((i, w) ∷ m) d =
      ground (arith, e.beq_iff k j, e.beq_iff i k, e.beq_iff i j, lookup-erase k j m d.1)
