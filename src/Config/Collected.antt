-- ===== src/Config/Collected.antt =====
-- OckRpcInitConfigMap of src/hcom4db.cpp against a description of the map that it makes.
use hcom4db.Base.{
  ℕ, ◌≡◌, ◌⊎◌, refl, ◌∙◌, ℤ, pos, negsuc, Bool, true, false, List, [], ◌∷◌, Option, none, some,
  take, All, if◌then◌else◌, Bool-cases, Option-cases, inl, inr, arith,
}
use hcom4db.Base.Maps.{DistinctKeys, insert, lookup, lookup-insert_keeps, bytes_key, bytes_eq}
use mathlib.Core.Option.{or_else}
use hcom4db.Base.Distinct.{insert-DistinctKeys}
use hcom4db.Hcom.Types.{Bytes}
use hcom4db.Config.{
  CStr, ConfigMap, ConfigPair, CreateConfig, has_bit, init_config_map, insert_pairs,
}

-- A pair with a key and a value.
abbrev Filled : ConfigPair → Type 0
Filled p = (k : Bytes) × (v : CStr) × (p.key ≡ some k) × (p.value ≡ some v)

-- A pair without a key or without a value stands among the pairs.
pub data HasNull : List ConfigPair → Type 0 where
  no_key : {p : ConfigPair} {ps : List ConfigPair} → p.key ≡ none → HasNull (p ∷ ps)
  no_value : {p : ConfigPair} {ps : List ConfigPair} → p.value ≡ none → HasNull (p ∷ ps)
  later : {p : ConfigPair} {ps : List ConfigPair} → HasNull ps → HasNull (p ∷ ps)

abbrev has_key : Bytes → ConfigPair → Bool
has_key k p = elim p.key [ none ↦ false | some j ↦ bytes_eq j k ]

-- The value of the first pair with a key.
abbrev pub first_value : Bytes → List ConfigPair → Option CStr
first_value k [] = none
first_value k (p ∷ ps) = if has_key k p then p.value else first_value k ps

-- A map that holds, under each key, the value of the first pair with that key, and nothing else.
pub record Holds (m : ConfigMap) (ps : List ConfigPair) : Type 0 where
  pub filled : All Filled ps
  pub distinct : DistinctKeys m
  pub values : (k : Bytes) → lookup k m ≡ first_value k ps

-- What a configuration asks for, and the answer: `none` is OCK_RPC_ERR.
pub data Collected (c : CreateConfig) : Option ConfigMap → Type 0 where
  unasked : has_bit c.mask 0 ≡ false → Collected c (some [])
  no_pairs : has_bit c.mask 0 ≡ true → c.pairs ≡ none → Collected c none
  negative : (n : ℕ) → has_bit c.mask 0 ≡ true → c.size ≡ negsuc n → Collected c none
  null_part :
      (n : ℕ) (ps : List ConfigPair)
      → has_bit c.mask 0 ≡ true
      → c.size ≡ pos n
      → c.pairs ≡ some ps
      → HasNull (take n ps)
      → Collected c none
  collected :
      (n : ℕ) (ps : List ConfigPair) (m : ConfigMap)
      → has_bit c.mask 0 ≡ true
      → c.size ≡ pos n
      → c.pairs ≡ some ps
      → Holds m (take n ps)
      → Collected c (some m)

-- The rest of the pairs on top of a map.
record Extends (m : ConfigMap) (ps : List ConfigPair) (r : ConfigMap) : Type 0 where
  filled : All Filled ps
  distinct : DistinctKeys m → DistinctKeys r
  values : (k : Bytes) → lookup k r ≡ or_else (lookup k m) (first_value k ps)

data Inserted (m : ConfigMap) (ps : List ConfigPair) : Option ConfigMap → Type 0 where
  refused : HasNull ps → Inserted m ps none
  extended : (r : ConfigMap) → Extends m ps r → Inserted m ps (some r)

-- What a pair adds comes behind the entries that are there, and before the later pairs.
or_else-first :
    (key : Bytes) (p : ConfigPair) (ps : List ConfigPair) (k : Bytes) (v : CStr) (old : Option CStr)
    → p.key ≡ some k
    → p.value ≡ some v
    → or_else (or_else old (if bytes_eq k key then some v else none)) (first_value key ps)
      ≡ or_else old (first_value key (p ∷ ps))
unfolding or_else
or_else-first key p ps k v none has is = elim (Bool-cases (bytes_eq k key)) [
  | inl same ↦ rw (has, is, same) refl
  | inr other ↦ rw (has, other) refl
]
or_else-first key p ps k v (some _) has is = refl

Inserted-step :
    (p : ConfigPair) (ps : List ConfigPair) (k : Bytes) (v : CStr) (m : ConfigMap)
    (r : Option ConfigMap)
    → p.key ≡ some k
    → p.value ≡ some v
    → Inserted (insert k v m) ps r
    → Inserted m (p ∷ ps) r
unfolding or_else
Inserted-step p ps k v m _ has is (Inserted.refused null) = Inserted.refused (HasNull.later null)
Inserted-step p ps k v m _ has is (Inserted.extended r e) = Inserted.extended r (record {
  filled = ((k, v, has, is), e.filled);
  distinct = λ d. e.distinct (insert-DistinctKeys k v m d);
  values =
      λ j. (e.values j ∙ (rw lookup-insert_keeps (or_else-first j p ps k v (lookup j m) has is)));
})

insert_pairs-Inserted : (ps : List ConfigPair) (m : ConfigMap) → Inserted m ps (insert_pairs ps m)
unfolding insert_pairs lookup or_else
insert_pairs-Inserted [] m =
    Inserted.extended m (record { filled = tt; distinct = λ d. d; values = λ k. ground arith })
insert_pairs-Inserted (p ∷ ps) m = elim (Option-cases p.key) [
  | inl null ↦
      (let answer : insert_pairs (p ∷ ps) m ≡ none = rw null refl in
        rw answer (Inserted.refused (HasNull.no_key null)))
  | inr (k, has) ↦ elim (Option-cases p.value) [
    | inl null ↦
        (let answer : insert_pairs (p ∷ ps) m ≡ none = rw (has, null) refl in
          rw answer (Inserted.refused (HasNull.no_value null)))
    | inr (v, is) ↦
        (let answer : insert_pairs (p ∷ ps) m ≡ insert_pairs ps (insert k v m) =
            rw (has, is) refl in
          rw answer (Inserted-step p ps k v m _ has is (insert_pairs-Inserted ps (insert k v m))))
  ]
]

collect :
    (c : CreateConfig) (n : ℕ) (ps : List ConfigPair) (r : Option ConfigMap)
    → has_bit c.mask 0 ≡ true
    → c.size ≡ pos n
    → c.pairs ≡ some ps
    → Inserted [] (take n ps) r
    → Collected c r
unfolding lookup or_else
collect c n ps _ asked size pairs (Inserted.refused null) =
    Collected.null_part n ps asked size pairs null
collect c n ps _ asked size pairs (Inserted.extended r e) =
    Collected.collected n ps r asked size pairs
      (record { filled = e.filled; distinct = e.distinct tt; values = λ k. e.values k })

ℤ-cases : (x : ℤ) → ((n : ℕ) × (x ≡ pos n)) ⊎ ((n : ℕ) × (x ≡ negsuc n))
ℤ-cases (pos n) = inl (n, refl)
ℤ-cases (negsuc n) = inr (n, refl)

-- OckRpcInitConfigMap, for every configuration: without the bit OCK_RPC_CONFIG_USE_RPC_CONFIGS in the
-- mask the map stays empty; with it, OCK_RPC_ERR is answered only for no array, a negative size, or a
-- null key or value among the first `size` pairs, and otherwise the map has each key once and holds
-- under it the value of the first of those pairs with that key, and under no other key a value.
pub init_config_map-Collected : (c : CreateConfig) → Collected c (init_config_map c [])
unfolding init_config_map
init_config_map-Collected c = elim (Bool-cases (has_bit c.mask 0)) [
  | inr off ↦
      (let answer : init_config_map c [] ≡ some [] = rw off refl in
        rw answer (Collected.unasked off))
  | inl on ↦ elim (Option-cases c.pairs) [
    | inl null ↦
        (let answer : init_config_map c [] ≡ none = rw (on, null) refl in
          rw answer (Collected.no_pairs on null))
    | inr (ps, there) ↦ elim (ℤ-cases c.size) [
      | inl (n, size) ↦
          (let answer : init_config_map c [] ≡ insert_pairs (take n ps) [] =
              rw (on, there, size) refl in
            rw answer (collect c n ps _ on size there (insert_pairs-Inserted (take n ps) [])))
      | inr (n, size) ↦
          (let answer : init_config_map c [] ≡ none = rw (on, there, size) refl in
            rw answer (Collected.negative n on size))
    ]
  ]
]
