-- ===== src/Config/Allocator/Options.antt =====
-- The bounds of the memory that OckRpcSetAllocatorOption of src/hcom4db.cpp allocates.
use hcom4db.Base.{
  ℕ, ◌*◌, ◌/◌, ◌^◌, ◌≤◌, ◌<◌, ◌≡◌, ◌≢◌, refl, ◌⊎◌, inl, inr, negsuc, true, ◌∷◌, Option, none, some,
  ltb, ◌==◌, if◌then◌else◌, u32, to_u32, Bool-cases, Option-cases, arith,
}
use hcom4db.Base.Maps.{lookup, bytes_key}
use hcom4db.Utils.{calculate_2_power_times-IsBitLength}
use hcom4db.Config.{ConfigMap, CStr, string_2_num}
use hcom4db.Config.Stoi.{stoi}
use hcom4db.Hcom.Types.{AllocatorOptions, Bytes, ock_rpc_err}
use hcom4db.Hcom.World.{World, malloc, is_ok}
use hcom4db.Config.Allocator.{
  segment_size_key, segment_count_key, ock_max_messag_size, ock_max_messag_count, max_segment_size,
  max_segment_count, mr_min_size, bounded_num, tiers_of, fill_option, set_allocator_option,
}

-- The numbers that the configuration gives, with the limits applied.
abbrev pub segment_size : ConfigMap → Option ℕ
segment_size m = bounded_num m segment_size_key ock_max_messag_size max_segment_size

abbrev pub segment_count : ConfigMap → Option ℕ
segment_count m = bounded_num m segment_count_key ock_max_messag_count max_segment_count

bounded_num-le :
    (m : ConfigMap) (key : Bytes) (d limit n : ℕ) → bounded_num m key d limit ≡ some n → n ≤ limit
unfolding bounded_num
bounded_num-le m key d limit n = elim (Option-cases (string_2_num m key d)) [
  | inl e ↦ rw (e, bounded_num) λ h. cc
  | inr (k, e) ↦ rw (e, bounded_num) λ h. ground arith
]

-- The memory of an allocator: what was asked of malloc, and how the cache is laid out.
pub record Sized (w w' : World) (max_size max_count : ℕ) (option : AllocatorOptions) : Type 0 where
  pub size_le : max_size ≤ max_segment_size
  pub count_le : max_count ≤ max_segment_count
  pub at_least : mr_min_size ≤ option.size
  pub fits : option.size < 2 ^ 32
  pub exact :
      max_size * max_count < 2 ^ 32
      → mr_min_size ≤ max_size * max_count
      → option.size ≡ max_size * max_count
  pub block : option.address ≡ (w.lib (malloc option.size ∷ w.trace)).out
  pub there : option.address ≢ 0
  pub asked : w'.trace ≡ malloc option.size ∷ w.trace
  pub tiers : max_size < mr_min_size * 2 ^ option.cache_tier_count

tiers_of-enough : (n : ℕ) → n ≤ max_segment_size → n < mr_min_size * 2 ^ tiers_of n
unfolding tiers_of
tiers_of-enough n h =
    let (c, runs, (below, _), _) =
      calculate_2_power_times-IsBitLength (n / mr_min_size) (omega arith) in
    rw (runs, tiers_of) (omega arith)

fill_option-Sized :
    (max_size max_count : ℕ) (option : AllocatorOptions) (w : World)
    → max_size ≤ max_segment_size
    → max_count ≤ max_segment_count
    → let r = fill_option max_size max_count option w in
      is_ok r.0.0 ≡ true → Sized w r.1 max_size max_count r.0.1
unfolding fill_option
fill_option-Sized max_size max_count option w size_le count_le =
    let product = u32 (max_size * max_count) in
    let allocator_size = if ltb product mr_min_size then mr_min_size else product in
    let out = (w.lib (malloc allocator_size ∷ w.trace)).out in
    elim (Bool-cases (product == 0)) [
      | inl z ↦ rw z λ good. cc
      | inr nz ↦ rw nz (elim (Bool-cases (out == 0)) [
        | inl z ↦ rw z λ good. cc
        | inr there ↦ rw there λ good. record {
          size_le = size_le;
          count_le = count_le;
          at_least = ground arith;
          fits = ground arith;
          exact = λ small big. ground arith;
          block = refl;
          there = ground arith;
          asked = refl;
          tiers = tiers_of-enough max_size size_le;
        }
      ])
    ]

-- Where OckRpcSetAllocatorOption succeeds, the configured segment size and count are within their
-- limits, the memory came from one malloc, is not null, has at least 4096 bytes and fewer than 2^32,
-- has exactly size times count where that product is in between, and the cache tiers cover a segment.
pub set_allocator_option-Sized :
    (m : ConfigMap) (option : AllocatorOptions) (w : World)
    → let r = set_allocator_option m option w in
      is_ok r.0.0 ≡ true
      → (max_size : ℕ) × (max_count : ℕ) × (segment_size m ≡ some max_size)
        × (segment_count m ≡ some max_count)
        × Sized w r.1 max_size max_count r.0.1
unfolding set_allocator_option
set_allocator_option-Sized m option w = elim (Option-cases (segment_size m)) [
  | inl e ↦ rw (e, set_allocator_option) λ good. cc
  | inr (s, e) ↦ elim (Option-cases (segment_count m)) [
    | inl f ↦ rw (e, f, set_allocator_option) λ good. cc
    | inr (c, f) ↦
        rw (e, f, set_allocator_option)
          λ good. (
            s,
            c,
            refl,
            refl,
            fill_option-Sized s c option w (bounded_num-le m _ _ _ s e) (bounded_num-le m _ _ _ c f)
                good,
          )
  ]
]

bounded_num-negative :
    (m : ConfigMap) (key : Bytes) (text : CStr) (n d limit : ℕ)
    → lookup key m ≡ some text
    → stoi text.bytes ≡ some (negsuc n)
    → n < 2 ^ 31
    → limit < 2 ^ 31
    → bounded_num m key d limit ≡ none
unfolding bounded_num string_2_num
bounded_num-negative m key text n d limit found number small low =
    let large : limit < to_u32 (negsuc n) = omega arith in
    rw (found, number, bounded_num, string_2_num) (ground arith)

-- A segment size or count that std::stoi reads as a negative number is refused:
-- OckRpcSetAllocatorOption answers OCK_RPC_ERR and allocates nothing.
set_allocator_option-negative :
    (m : ConfigMap) (key : Bytes) (text : CStr) (n : ℕ) (option : AllocatorOptions) (w : World)
    → (key ≡ segment_size_key) ⊎ (key ≡ segment_count_key)
    → lookup key m ≡ some text
    → stoi text.bytes ≡ some (negsuc n)
    → n < 2 ^ 31
    → set_allocator_option m option w ≡ ((ock_rpc_err, option), w)
unfolding set_allocator_option
set_allocator_option-negative m key text n option w (inl size) found number small =
    let refused =
      bounded_num-negative m key text n ock_max_messag_size max_segment_size found number small
        (omega arith) in
    rw (rw size at refused, set_allocator_option) refl
set_allocator_option-negative m key text n option w (inr count) found number small =
    let refused =
      bounded_num-negative m key text n ock_max_messag_count max_segment_count found number small
        (omega arith) in
    elim (Option-cases (segment_size m)) [
      | inl e ↦ rw (e, set_allocator_option) refl
      | inr (s, e) ↦ rw (e, rw count at refused, set_allocator_option) refl
    ]
