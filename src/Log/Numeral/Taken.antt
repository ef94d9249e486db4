-- ===== src/Log/Numeral/Taken.antt =====
-- SetStrStol of src/hcom4db_log.cpp takes exactly the texts that name a level.
use hcom4db.Base.{
  ℕ, zero, suc, ◌≤◌, ◌≡◌, ◌↔◌, refl, sym, ap, ◌∙◌, ℤ, pos, negsuc, true, false, ◌&&◌, not, [], ◌∷◌,
  ◌++◌, some, inl, inr, arith,
}
use hcom4db.Base.Maps.{bytes_eq, bytes_eq_iff}
use hcom4db.Config.Stoi.{skip_spaces}
use hcom4db.Hcom.Types.{Bytes, codes}
use hcom4db.Log.{Parsed, checked, is_empty, is_level, is_zero, read_number, set_str_stol, strtol}
use hcom4db.Log.Numeral.{Names}
use hcom4db.Log.Numeral.Digits.{
  skip_spaces-split, strtol_of-named, strtol_of-numeral, skip_spaces-numeral,
}

is_empty-eq : (s : Bytes) → is_empty s ≡ true → s ≡ []
is_empty-eq [] h = refl
is_empty-eq (c ∷ s) h = absurd (cc)

split_by : (text spaces s t : Bytes) → text ≡ spaces ++ s → s ≡ t → text ≡ spaces ++ t
split_by text spaces s t e same = e ∙ ap (λ r. spaces ++ r) same

zero_taken : set_str_stol (codes "0") ≡ some (pos 0)
unfolding set_str_stol read_number
zero_taken = refl

checked-parts :
    (text : Bytes) (r : Parsed) (v : ℤ)
    → checked text r ≡ some v
    → (r.remain ≡ [])
      × (r.value ≡ v)
      × (is_level v ≡ true)
      × ((is_zero v && not (bytes_eq text (codes "0"))) ≡ false)
checked-parts text r v h =
    (is_empty-eq r.remain (ground arith), ground arith, ground arith, ground arith)

level-Names :
    (text : Bytes) (v : ℤ)
    → (strtol text).remain ≡ []
    → (strtol text).value ≡ v
    → is_level v ≡ true
    → (is_zero v && not (bytes_eq text (codes "0"))) ≡ false
    → (n : ℕ) × (v ≡ pos n) × Names text n
level-Names text (negsuc n) empty value level other = absurd (cc)
level-Names text (pos zero) empty value level other =
    (0, refl, inl ((bytes_eq_iff text (codes "0")).0 (ground arith), refl))
level-Names text (pos (suc m)) empty value level other =
    let (spaces, all, e) = skip_spaces-split text in
    let high : suc m ≤ 3 = ground arith in
    let (sign, z, rest) =
      strtol_of-named text (suc m) (omega arith) high (skip_spaces text) empty value in
    (suc m, refl, inr (omega arith, high, spaces, sign, z, all, split_by text spaces _ _ e rest))

set_str_stol-Names :
    (text : Bytes) (v : ℤ) → set_str_stol text ≡ some v → (n : ℕ) × (v ≡ pos n) × Names text n
unfolding set_str_stol
set_str_stol-Names text v h =
    let (empty, value, level, other) = checked-parts text (strtol text) v h in
    level-Names text v empty value level other

Names-set_str_stol : (text : Bytes) (n : ℕ) → Names text n → set_str_stol text ≡ some (pos n)
unfolding set_str_stol
Names-set_str_stol text n (inl (e, least)) = rw (e, least) zero_taken
Names-set_str_stol text n (inr (low, high, spaces, sign, z, all, e)) =
    let read : strtol text ≡ record { value = pos n; remain = []; range_error = false } =
      rw e
        (rw (skip_spaces-numeral n high spaces sign z all) (strtol_of-numeral n high _ sign z)) in
    rw read (ground arith)

-- SetStrStol takes a text, with a value, exactly if the text is `0` and the value 0, or the value is 1
-- to 3 and the text is white space, an optional plus, any zeros and the digit of the value.
pub set_str_stol_iff :
    (text : Bytes) (v : ℤ) → (set_str_stol text ≡ some v) ↔ ((n : ℕ) × (v ≡ pos n) × Names text n)
set_str_stol_iff text v = (
  set_str_stol-Names text v,
  λ (n, same, named). Names-set_str_stol text n named ∙ ap some (sym same),
)
