-- ===== src/Utils.antt =====
-- src/hcom4db_utils.cpp: Calculate2PowerTimes. The loop has fuel; 33 rounds are enough for a
-- uint32_t, because each round halves it.
use native.Mathlib.Nat.{add-zero, pow-succ'}
use hcom4db.Base.{
  ℕ, zero, suc, ◌+◌, ◌*◌, ◌/◌, ◌^◌, ◌≤◌, ◌<◌, ◌≡◌, refl, ap, ◌∙◌, ◌⊎◌, inl, inr, false, Option,
  none, some, ◌==◌, if◌then◌else◌, u32, Bool-cases, arith,
}

unfoldable pub power_times : ℕ → ℕ → ℕ → Option ℕ
power_times zero power_num count = none
power_times (suc fuel) power_num count =
    let rest = power_times fuel (power_num / 2) (u32 (count + 1)) in
    if power_num == 0 then some count else rest

unfoldable pub calculate_2_power_times : ℕ → Option ℕ
calculate_2_power_times power_num = power_times 33 power_num 0

-- `c` is the number of binary digits of `n`.
abbrev pub IsBitLength : ℕ → ℕ → Type 0
IsBitLength n c = (n < 2 ^ c) × (((n ≡ 0) × (c ≡ 0)) ⊎ (2 ^ c ≤ 2 * n))

IsBitLength-half : (n c : ℕ) → (n == 0) ≡ false → IsBitLength (n / 2) c → IsBitLength n (suc c)
IsBitLength-half n c pos (below, inl (z, none_left)) =
    let twice : 2 ^ suc c ≡ 2 * 2 ^ c = pow-succ' 2 c in
    let one : 2 ^ c ≡ 1 = rw none_left refl in (ground arith, inr (ground arith))
IsBitLength-half n c pos (below, inr above) =
    let twice : 2 ^ suc c ≡ 2 * 2 ^ c = pow-succ' 2 c in (omega arith, inr (omega arith))

power_times_lem :
    (k n fuel c : ℕ)
    → n < 2 ^ k
    → k < fuel
    → c + k < 2 ^ 32
    → (d : ℕ) × (power_times fuel n c ≡ some (c + d)) × IsBitLength n d × (d ≤ k)
unfolding power_times
power_times_lem k n zero c small enough room = absurd (omega arith)
power_times_lem zero n (suc fuel) c small enough room =
    let z : n ≡ 0 = omega arith in
    (0, ground (arith, add-zero c), (omega arith, inl (z, refl)), omega arith)
power_times_lem (suc k) n (suc fuel) c small enough room = elim (Bool-cases (n == 0)) [
  | inl z ↦ (0, ground (arith, add-zero c), (ground arith, inl (ground arith, refl)), omega arith)
  | inr pos ↦
      let twice : 2 ^ suc k ≡ 2 * 2 ^ k = pow-succ' 2 k in
      let next : u32 (c + 1) ≡ c + 1 = omega arith in
      let (d, runs, digits, le) =
        power_times_lem k (n / 2) fuel (c + 1) (omega arith) (omega arith) (omega arith) in
      let sum : c + 1 + d ≡ c + suc d = omega arith in
      let more : power_times fuel (n / 2) (u32 (c + 1)) ≡ some (c + suc d) =
        ap (power_times fuel (n / 2)) next ∙ runs ∙ ap some sum in
      (
        suc d,
        ap (λ b. if b then some c else power_times fuel (n / 2) (u32 (c + 1))) pos ∙ more,
        IsBitLength-half n d pos digits,
        omega arith,
      )
]

-- Calculate2PowerTimes returns, for every uint32_t, its number of binary digits, at most 32.
pub calculate_2_power_times-IsBitLength :
    (n : ℕ)
    → n < 2 ^ 32
    → (c : ℕ) × (calculate_2_power_times n ≡ some c) × IsBitLength n c × (c ≤ 32)
unfolding calculate_2_power_times
calculate_2_power_times-IsBitLength n h =
    let (d, runs, digits, le) = power_times_lem 32 n 33 0 h (omega arith) (omega arith) in
    let sum : 0 + d ≡ d = omega arith in (d, runs ∙ ap some sum, digits, le)
