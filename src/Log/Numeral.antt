-- ===== src/Log/Numeral.antt =====
-- The texts that name a log level, described without strtol.
pub mod Digits
pub mod Taken
use hcom4db.Base.{
  ℕ, zero, suc, ◌+◌, ◌-◌, ◌*◌, ◌≤◌, ◌==◌, ◌≡◌, ◌↔◌, ◌⊎◌, refl, sym, ap, ◌∙◌, ℤ, pos, negsuc, Bool,
  true, false, ◌&&◌, ◌||◌, not, List, [], ◌∷◌, ◌++◌, Option, none, some, inl, inr, leb, ltb,
  if◌then◌else◌, Bool-cases, arith,
}
use hcom4db.Base.Maps.{bytes_eq, bytes_eq_iff}
use hcom4db.Config.Stoi.{is_digit, is_space, skip_spaces, starts_with_digit}
use hcom4db.Hcom.Types.{Bytes, codes}
use hcom4db.Log.{
  Parsed, checked, is_empty, is_level, is_zero, read_number, set_str_stol, strtol, signed,
  behind_sign, strtol_of,
}

abbrev pub all_spaces : Bytes → Bool
all_spaces [] = true
all_spaces (c ∷ s) = is_space c && all_spaces s

abbrev pub zeros : ℕ → Bytes
zeros zero = []
zeros (suc n) = 48 ∷ zeros n

abbrev pub plus : Bool → Bytes
plus true = codes "+"
plus false = []

-- `0` with nothing around it; or 1 to 3 behind any white space, an optional plus and any zeros.
abbrev pub Names : Bytes → ℕ → Type 0
Names text n =
    ((text ≡ codes "0") × (n ≡ 0))
    ⊎ ((1 ≤ n)
        × (n ≤ 3)
        × (spaces : Bytes) × (sign : Bool) × (z : ℕ) × (all_spaces spaces ≡ true)
        × (text ≡ spaces ++ (plus sign ++ (zeros z ++ ((48 + n) ∷ [])))))
