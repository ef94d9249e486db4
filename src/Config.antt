-- ===== src/Config.antt =====
-- The configuration of src/hcom4db.cpp: OckRpcInitConfigMap collects the user's pairs into a map, and
-- OckRpcString2Num reads a number out of it with std::stoi. A value is a `const char *`, of which the
-- code reads either the text or, for a function pointer, the address.
pub mod Stoi
pub mod Allocator
pub mod Collected
use hcom4db.Base.{
  ℕ, zero, suc, ◌+◌, ◌-◌, ◌/◌, ◌%◌, ◌^◌, ◌==◌, ℤ, pos, negsuc, Bool, true, false, List, [], ◌∷◌,
  Option, none, some, if◌then◌else◌, take, to_u32,
}
use hcom4db.Base.Maps.{lookup, insert, bytes_key, bytes_eq}
use hcom4db.Hcom.Types.{Bytes, codes, ock_rpc_ok, ock_rpc_err}
use hcom4db.Config.Stoi.{stoi}

pub record CStr : Type 0 where
  pub address : ℕ
  pub bytes : Bytes

abbrev pub ConfigMap : Type 0
ConfigMap = List (Bytes × CStr)

-- RpcConfigPair: a null pointer is `none`.
pub record ConfigPair : Type 0 where
  pub key : Option Bytes
  pub value : Option CStr

-- OckRpcCreateConfig: `pairs` is null or an array of `size` entries, the others are function
-- pointers.
pub record CreateConfig : Type 0 where
  pub mask : ℕ
  pub size : ℤ
  pub pairs : Option (List ConfigPair)
  pub get_ca_and_verify : ℕ
  pub get_cert : ℕ
  pub get_pri_key : ℕ

-- `mask & (1 << k)`.
abbrev pub has_bit : ℕ → ℕ → Bool
has_bit mask k = mask / 2 ^ k % 2 == 1

-- The loop over the pairs; `none` is OCK_RPC_ERR. The first of two pairs with the same key stays.
unfoldable pub insert_pairs : List ConfigPair → ConfigMap → Option ConfigMap
insert_pairs [] m = some m
insert_pairs (p ∷ ps) m = elim p.key [
  | none ↦ none
  | some k ↦ elim p.value [ none ↦ none | some v ↦ insert_pairs ps (insert k v m) ]
]

unfoldable pub init_config_map : CreateConfig → ConfigMap → Option ConfigMap
init_config_map configs m =
    if has_bit configs.mask 0
    then (elim configs.pairs [
      | none ↦ none
      | some ps ↦ elim configs.size [ negsuc _ ↦ none | pos n ↦ insert_pairs (take n ps) m ]
    ])
    else some m

-- The number under a key, or the value that is there already; `none` is OCK_RPC_ERR.
unfoldable pub string_2_num : ConfigMap → Bytes → ℕ → Option ℕ
string_2_num config_map key size = elim (lookup key config_map) [
  | none ↦ some size
  | some text ↦ elim (stoi text.bytes) [ none ↦ none | some n ↦ some (to_u32 n) ]
]

-- The tests of a value against "yes" and "no": `none` for any other text, and a default where there
-- is no entry.
unfoldable pub yes_or_no : ConfigMap → Bytes → Bool → Option Bool
yes_or_no config_map key default = elim (lookup key config_map) [
  | none ↦ some default
  | some text ↦
      if bytes_eq text.bytes (codes "yes")
      then some true
      else if bytes_eq text.bytes (codes "no")
      then some false
      else none
]
