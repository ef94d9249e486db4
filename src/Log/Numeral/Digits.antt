-- ===== src/Log/Numeral/Digits.antt =====
-- strtol of src/hcom4db_log.cpp on white space, a sign and digits.
use hcom4db.Base.{
  ℕ, zero, suc, ◌+◌, ◌-◌, ◌*◌, ◌≤◌, ◌==◌, ◌≡◌, refl, sym, ap, pos, Bool, true, false, [], ◌∷◌, ◌++◌,
  inl, inr, Bool-cases, arith,
}
use hcom4db.Config.Stoi.{is_digit, is_space, skip_spaces, starts_with_digit}
use hcom4db.Hcom.Types.{Bytes}
use hcom4db.Log.{read_number, signed, behind_sign, strtol_of}
use hcom4db.Log.Numeral.{all_spaces, zeros, plus}

read_number-le : (m : ℕ) (s : Bytes) → m ≤ (read_number m s).0
unfolding read_number
read_number-le m [] = omega arith
read_number-le m (c ∷ s) = ground (arith, read_number-le (10 * m + (c - 48)) s)

-- A number that was begun is above 3 after a further digit.
read_number-suc :
    (k n : ℕ) (s : Bytes) → read_number (suc k) s ≡ (n, []) → n ≤ 3 → (s ≡ []) × (n ≡ suc k)
unfolding read_number
read_number-suc k n [] h small = (refl, sym (ap (λ r. r.0) h))
read_number-suc k n (c ∷ s) h small = ground (arith, read_number-le (10 * suc k + (c - 48)) s)

read_number-zeros :
    (n : ℕ) (s : Bytes)
    → read_number 0 s ≡ (n, [])
    → 1 ≤ n
    → n ≤ 3
    → (z : ℕ) × (s ≡ zeros z ++ ((48 + n) ∷ []))
unfolding read_number
read_number-zeros n [] h low high = absurd (ground arith)
read_number-zeros n (c ∷ s) h low high = elim (Bool-cases (is_digit c)) [
  | inr other ↦ absurd (ground arith)
  | inl digit ↦ elim (Bool-cases (c == 48)) [
    | inl none_yet ↦
        let (z, e) = read_number-zeros n s (ground arith) low high in (suc z, ground arith)
    | inr begun ↦
        let (e, same) = read_number-suc (c - 49) n s (ground arith) high in (0, ground arith)
  ]
]

read_number-of_zeros : (n z : ℕ) → n ≤ 3 → read_number 0 (zeros z ++ ((48 + n) ∷ [])) ≡ (n, [])
unfolding read_number
read_number-of_zeros n zero small = ground arith
read_number-of_zeros n (suc z) small = read_number-of_zeros n z small

starts_with_digit-zeros : (n z : ℕ) → n ≤ 3 → starts_with_digit (zeros z ++ ((48 + n) ∷ [])) ≡ true
starts_with_digit-zeros n zero small = ground arith
starts_with_digit-zeros n (suc z) small = refl

-- The white space in front.
pub skip_spaces-split :
    (text : Bytes)
    → (spaces : Bytes) × (all_spaces spaces ≡ true) × (text ≡ spaces ++ skip_spaces text)
skip_spaces-split [] = ([], refl, refl)
skip_spaces-split (c ∷ s) = elim (Bool-cases (is_space c)) [
  | inl space ↦
      let (spaces, all, e) = skip_spaces-split s in (c ∷ spaces, ground arith, ground arith)
  | inr other ↦ ([], refl, rw other refl)
]

skip_spaces-append :
    (spaces : Bytes) (c : ℕ) (s : Bytes)
    → all_spaces spaces ≡ true
    → is_space c ≡ false
    → skip_spaces (spaces ++ (c ∷ s)) ≡ c ∷ s
skip_spaces-append [] c s all other = rw other refl
skip_spaces-append (d ∷ spaces) c s all other =
    ground (arith, skip_spaces-append spaces c s (ground arith) other)

signed-named :
    (negative : Bool) (k n : ℕ) (rest : Bytes)
    → (signed negative (k, rest)).remain ≡ []
    → (signed negative (k, rest)).value ≡ pos n
    → 1 ≤ n
    → n ≤ 3
    → (negative ≡ false) × (k ≡ n) × (rest ≡ [])
signed-named true k n rest empty value low high = ground arith
signed-named false k n rest empty value low high = ground arith

-- What strtol reads to the end as 1 to 3 is an optional plus, zeros and a digit.
module _ (text : Bytes) (n : ℕ) (low : 1 ≤ n) (high : n ≤ 3) where
  behind_sign-named :
      (negative : Bool) (s : Bytes)
      → (behind_sign text negative s).remain ≡ []
      → (behind_sign text negative s).value ≡ pos n
      → (negative ≡ false) × (z : ℕ) × (s ≡ zeros z ++ ((48 + n) ∷ []))
  behind_sign-named negative s empty value = elim (Bool-cases (starts_with_digit s)) [
    | inr other ↦ absurd (ground arith)
    | inl digit ↦
        let (k, rest) = read_number 0 s in
        let (positive, same, all) =
          signed-named negative k n rest (ground arith) (ground arith) low high in
        let (z, e) = read_number-zeros n s (λ i. (same i, all i)) low high in (positive, z, e)
  ]

  pub strtol_of-named :
      (s : Bytes)
      → (strtol_of text s).remain ≡ []
      → (strtol_of text s).value ≡ pos n
      → (sign : Bool) × (z : ℕ) × (s ≡ plus sign ++ (zeros z ++ ((48 + n) ∷ [])))
  strtol_of-named [] empty value = absurd (ground arith)
  strtol_of-named (c ∷ s) empty value = elim (Bool-cases (c == 43)) [
    | inl with_plus ↦
        let (_, z, e) = behind_sign-named false s (ground arith) (ground arith) in
        (true, z, ground arith)
    | inr no_plus ↦ elim (Bool-cases (c == 45)) [
      | inl minus ↦
          let (e, _, _) = behind_sign-named true s (ground arith) (ground arith) in absurd (cc)
      | inr digit ↦
          let (_, z, e) = behind_sign-named false (c ∷ s) (ground arith) (ground arith) in
          (false, z, e)
    ]
  ]

module _ (n : ℕ) (small : n ≤ 3) where
  behind_sign-numeral :
      (text : Bytes) (z : ℕ)
      → behind_sign text false (zeros z ++ ((48 + n) ∷ []))
        ≡ record { value = pos n; remain = []; range_error = false }
  behind_sign-numeral text z =
      rw (starts_with_digit-zeros n z small) (rw (read_number-of_zeros n z small) (ground arith))

  pub strtol_of-numeral :
      (text : Bytes) (sign : Bool) (z : ℕ)
      → strtol_of text (plus sign ++ (zeros z ++ ((48 + n) ∷ [])))
        ≡ record { value = pos n; remain = []; range_error = false }
  strtol_of-numeral text true z = behind_sign-numeral text z
  strtol_of-numeral text false zero = ground (arith, behind_sign-numeral text 0)
  strtol_of-numeral text false (suc z) = behind_sign-numeral text (suc z)

  pub skip_spaces-numeral :
      (spaces : Bytes) (sign : Bool) (z : ℕ)
      → all_spaces spaces ≡ true
      → skip_spaces (spaces ++ (plus sign ++ (zeros z ++ ((48 + n) ∷ []))))
        ≡ plus sign ++ (zeros z ++ ((48 + n) ∷ []))
  skip_spaces-numeral spaces true z all = skip_spaces-append spaces 43 _ all refl
  skip_spaces-numeral spaces false zero all =
      skip_spaces-append spaces (48 + n) [] all (ground arith)
  skip_spaces-numeral spaces false (suc z) all = skip_spaces-append spaces 48 _ all refl
