-- ===== src/Examples/Config.antt =====
-- Numbers, options and allocators, at concrete inputs.
use hcom4db.Base.{ℕ, Option, ◌≤◌, ◌≡◌, refl, pos, true, [], ◌∷◌, none, some, arith}
use hcom4db.Base.Maps.{insert, lookup, bytes_key}
use hcom4db.Utils.{calculate_2_power_times, IsBitLength, calculate_2_power_times-IsBitLength}
use hcom4db.Config.{
  CStr, ConfigMap, ConfigPair, CreateConfig, init_config_map, insert_pairs, string_2_num,
}
use hcom4db.Config.Collected.{Collected, init_config_map-Collected}
use hcom4db.Config.Stoi.{stoi}
use hcom4db.Config.Allocator.{
  bounded_num, fill_option, set_allocator_option, segment_size_key, segment_count_key,
}
use hcom4db.Config.Allocator.Options.{
  Sized, segment_size, segment_count, set_allocator_option-Sized,
}
use hcom4db.Hcom.Types.{AllocatorOptions, Bytes, codes}
use hcom4db.Hcom.World.{is_ok}
use hcom4db.Examples.Answers.{start}

abbrev text : Bytes → CStr
text s = record { address = 1; bytes = s }

stoi_number : stoi (codes "  +128k") ≡ some (pos 128)
unfolding stoi
stoi_number = refl

stoi_overflow : stoi (codes "2147483648") ≡ none
unfolding stoi
stoi_overflow = refl

calculate_2_power_times-IsBitLength_example :
    (c : ℕ) × (calculate_2_power_times 16 ≡ some c) × IsBitLength 16 c × (c ≤ 32)
calculate_2_power_times-IsBitLength_example = calculate_2_power_times-IsBitLength 16 (omega arith)

abbrev pub garbage : AllocatorOptions
garbage = record {
  address = 0;
  size = 0;
  min_block_size = 0;
  bucket_count = 0;
  aligned_address = 0;
  cache_tier_count = 0;
  cache_block_count_per_tier = 0;
  cache_tier_policy = 0;
}

abbrev sized : ConfigMap
sized = (segment_size_key, text (codes "8192")) ∷ (segment_count_key, text (codes "16")) ∷ []

sized-ok : is_ok (set_allocator_option sized garbage start).0.0 ≡ true
unfolding set_allocator_option fill_option bounded_num string_2_num stoi lookup
sized-ok = refl

set_allocator_option-Sized_example :
    let r = set_allocator_option sized garbage start in
    (max_size : ℕ) × (max_count : ℕ) × (segment_size sized ≡ some max_size)
    × (segment_count sized ≡ some max_count)
    × Sized start r.1 max_size max_count r.0.1
set_allocator_option-Sized_example = set_allocator_option-Sized sized garbage start sized-ok

abbrev named : Option Bytes → Bytes → ConfigPair
named key value = record { key = key; value = some (text value) }

-- A key twice, and a pair without a key behind the size.
abbrev twice : CreateConfig
twice = record {
  mask = 1;
  size = pos 2;
  pairs = some (
      named (some (codes "a")) (codes "first")
      ∷ named (some (codes "a")) (codes "second")
      ∷ named none (codes "unread")
      ∷ []);
  get_ca_and_verify = 0;
  get_cert = 0;
  get_pri_key = 0;
}

twice-first : init_config_map twice [] ≡ some ((codes "a", text (codes "first")) ∷ [])
unfolding init_config_map insert_pairs insert
twice-first = refl

init_config_map-Collected_example : Collected twice (init_config_map twice [])
init_config_map-Collected_example = init_config_map-Collected twice
