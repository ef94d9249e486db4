-- ===== src/Base/Distinct.antt =====
-- Association lists in which each key stands once, under the operations of std::map.
use mathlib.Core.Path.{◌≡◌, refl, ◌∙◌, ap}
use mathlib.Core.Bool.{false}
use mathlib.Core.List.{List, [], ◌∷◌}
use native.Mathlib.Omega.{arith}
use hcom4db.Base.Tests.{is_some, Bool-cases}
use mathlib.Core.Logic.{inl, inr}
use hcom4db.Base.Maps.{Eq, DistinctKeys, assign, erase, insert, lookup, lookup-assign, lookup-erase}

module _ {ℓ κ} {K : Type ℓ} {V : Type κ} ⦃e : Eq K⦄ where
  lookup-insert_other :
      (k j : K) (v : V) (m : List (K × V))
      → e.beq j k ≡ false
      → lookup j (insert k v m) ≡ lookup j m
  unfolding lookup insert
  lookup-insert_other k j v [] h = ground (arith, e.beq_iff k j, e.beq_iff j k)
  lookup-insert_other k j v ((i, w) ∷ m) h = ground (
    arith,
    e.beq_iff k j,
    e.beq_iff j k,
    e.beq_iff i k,
    e.beq_iff i j,
    lookup-insert_other k j v m,
  )

  pub insert-DistinctKeys :
      (k : K) (v : V) (m : List (K × V)) → DistinctKeys m → DistinctKeys (insert k v m)
  unfolding lookup insert
  insert-DistinctKeys k v [] d = (refl, tt)
  insert-DistinctKeys k v ((j, w) ∷ m) (alone, d) = elim (Bool-cases (e.beq j k)) [
    | inl same ↦ rw same (alone, d)
    | inr other ↦
        rw other
          (ap is_some (lookup-insert_other k j v m other) ∙ alone, insert-DistinctKeys k v m d)
  ]

  lookup-assign_other :
      (k j : K) (v : V) (m : List (K × V))
      → e.beq j k ≡ false
      → lookup j (assign k v m) ≡ lookup j m
  lookup-assign_other k j v m h =
      ground (arith, e.beq_iff k j, e.beq_iff j k, lookup-assign k j v m)

  pub assign-DistinctKeys :
      (k : K) (v : V) (m : List (K × V)) → DistinctKeys m → DistinctKeys (assign k v m)
  unfolding lookup assign
  assign-DistinctKeys k v [] d = (refl, tt)
  assign-DistinctKeys k v ((j, w) ∷ m) (alone, d) = elim (Bool-cases (e.beq j k)) [
    | inl same ↦ rw same (alone, d)
    | inr other ↦
        rw other
          (ap is_some (lookup-assign_other k j v m other) ∙ alone, assign-DistinctKeys k v m d)
  ]

  is_some-lookup-erase :
      (k j : K) (m : List (K × V))
      → DistinctKeys m
      → is_some (lookup j m) ≡ false
      → is_some (lookup j (erase k m)) ≡ false
  is_some-lookup-erase k j m d h = ground (arith, lookup-erase k j m d)

  pub erase-DistinctKeys : (k : K) (m : List (K × V)) → DistinctKeys m → DistinctKeys (erase k m)
  unfolding lookup erase
  erase-DistinctKeys k [] d = tt
  erase-DistinctKeys k ((j, w) ∷ m) (alone, d) = elim (Bool-cases (e.beq j k)) [
    | inl same ↦ rw same d
    | inr other ↦ rw other (is_some-lookup-erase k j m d alone, erase-DistinctKeys k m d)
  ]
