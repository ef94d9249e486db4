-- ===== src/Config/Stoi.antt =====
-- std::stoi in base 10, as src/hcom4db.cpp uses it: leading white space, a sign, digits, and anything
-- behind them. `none` stands for both exceptions.
use hcom4db.Base.{
  ℕ, ◌+◌, ◌-◌, ◌*◌, ◌^◌, ◌==◌, ℤ, pos, negsuc, Bool, ◌&&◌, ◌||◌, [], ◌∷◌, Option, none, some, ltb,
  leb, if◌then◌else◌,
}
use hcom4db.Hcom.Types.{Bytes}

abbrev pub is_space : ℕ → Bool
is_space c = (c == 32) || (leb 9 c && leb c 13)

abbrev pub is_digit : ℕ → Bool
is_digit c = leb 48 c && leb c 57

abbrev pub skip_spaces : Bytes → Bytes
skip_spaces [] = []
skip_spaces (c ∷ s) = if is_space c then skip_spaces s else c ∷ s

-- The value of the digits in front, behind those that were read.
abbrev pub read_digits : ℕ → Bytes → ℕ
read_digits n [] = n
read_digits n (c ∷ s) = if is_digit c then read_digits (10 * n + (c - 48)) s else n

abbrev pub starts_with_digit : Bytes → Bool
starts_with_digit [] = Bool.false
starts_with_digit (c ∷ _) = is_digit c

abbrev positive_of : Bytes → Option ℤ
positive_of s =
    if starts_with_digit s
    then (let n = read_digits 0 s in if ltb n (2 ^ 31) then some (pos n) else none)
    else none

abbrev negative_of : Bytes → Option ℤ
negative_of s =
    if starts_with_digit s
    then (let n = read_digits 0 s in
        if n == 0 then some (pos 0) else if leb n (2 ^ 31) then some (negsuc (n - 1)) else none)
    else none

unfoldable pub stoi : Bytes → Option ℤ
stoi text = elim (skip_spaces text) [
  | [] ↦ none
  | c ∷ s ↦
      if c == 43 then positive_of s else if c == 45 then negative_of s else positive_of (c ∷ s)
]
