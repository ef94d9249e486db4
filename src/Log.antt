-- ===== src/Log.antt =====
-- The log level of src/hcom4db_log.cpp: SetStrStol with strtol, and the two forms of SetLogLevel. The
-- level is an int; what is printed is left out.
pub mod Logger
pub mod Instance
pub mod Numeral
use hcom4db.Base.{
  ℕ, ◌+◌, ◌-◌, ◌*◌, ◌==◌, ◌≡◌, refl, ℤ, pos, negsuc, Bool, true, false, ◌&&◌, ◌||◌, not, List, [],
  ◌∷◌, Option, none, some, if◌then◌else◌, leb, ltb, to_i32, to_u32, arith,
}
use hcom4db.Base.Maps.{bytes_eq}
use hcom4db.Config.Stoi.{is_digit, skip_spaces, starts_with_digit}
use hcom4db.Hcom.Types.{Bytes, codes}

-- The number that the digits in front stand for, behind those that were read, and what remains.
unfoldable pub read_number : ℕ → Bytes → ℕ × Bytes
read_number n [] = (n, [])
read_number n (c ∷ s) =
    let rest = read_number (10 * n + (c - 48)) s in if is_digit c then rest else (n, c ∷ s)

-- The result of strtol for digits behind a sign: `errno == ERANGE` and LONG_MAX or LONG_MIN for a
-- number that is out of range.
pub record Parsed : Type 0 where
  pub value : ℤ
  pub remain : Bytes
  pub range_error : Bool

abbrev pub long_max : ℕ
long_max = 9223372036854775807

abbrev pub signed : Bool → ℕ × Bytes → Parsed
signed false (n, rest) =
    if ltb long_max n
    then record { value = pos long_max; remain = rest; range_error = true }
    else record { value = pos n; remain = rest; range_error = false }
signed true (n, rest) =
    if ltb (long_max + 1) n
    then record { value = negsuc long_max; remain = rest; range_error = true }
    else if n == 0
    then record { value = pos 0; remain = rest; range_error = false }
    else record { value = negsuc (n - 1); remain = rest; range_error = false }

-- Without a digit nothing is read: 0, and the whole text remains.
abbrev pub unread : Bytes → Parsed
unread text = record { value = pos 0; remain = text; range_error = false }

abbrev pub behind_sign : Bytes → Bool → Bytes → Parsed
behind_sign text negative s =
    if starts_with_digit s then signed negative (read_number 0 s) else unread text

abbrev pub strtol_of : Bytes → Bytes → Parsed
strtol_of text [] = unread text
strtol_of text (c ∷ s) =
    if c == 43
    then behind_sign text false s
    else if c == 45
    then behind_sign text true s
    else behind_sign text false (c ∷ s)

abbrev pub strtol : Bytes → Parsed
strtol text = strtol_of text (skip_spaces text)

abbrev pub is_level : ℤ → Bool
is_level (pos n) = leb n 3
is_level (negsuc n) = false

abbrev pub is_zero : ℤ → Bool
is_zero (pos n) = n == 0
is_zero (negsuc n) = false

abbrev pub is_empty : Bytes → Bool
is_empty [] = true
is_empty (_ ∷ _) = false

-- The tests on what strtol read; `none` is false.
abbrev pub checked : Bytes → Parsed → Option ℤ
checked text r =
    if not (is_empty r.remain) || not (is_level r.value) || r.range_error
    then none
    else if is_zero r.value && not (bytes_eq text (codes "0"))
    then none
    else some r.value

unfoldable pub set_str_stol : Bytes → Option ℤ
set_str_stol text = checked text (strtol text)

abbrev pub taken : Option ℤ → ℤ → ℤ
taken none level = level
taken (some n) _ = n

-- SetLogLevel() with the value of HCOM_SET_LOG_LEVEL, from an old level to the new one.
unfoldable pub set_log_level_env : Option Bytes → ℤ → ℤ
set_log_level_env none level = level
set_log_level_env (some text) level = taken (set_str_stol text) level

-- SetLogLevel(int).
unfoldable pub set_log_level : ℤ → ℤ → ℤ
set_log_level level old = if leb (to_u32 (to_i32 level)) 3 then to_i32 level else old

-- One setting after another.
data Setting : Type 0 where
  env : Option Bytes → Setting
  int : ℤ → Setting

abbrev apply_settings : List Setting → ℤ → ℤ
apply_settings [] level = level
apply_settings (Setting.env text ∷ ss) level = apply_settings ss (set_log_level_env text level)
apply_settings (Setting.int n ∷ ss) level = apply_settings ss (set_log_level n level)

set_str_stol-level : (text : Bytes) (n : ℤ) → set_str_stol text ≡ some n → is_level n ≡ true
unfolding set_str_stol
set_str_stol-level text n h = ground arith

taken-level :
    (r : Option ℤ) (level : ℤ)
    → ((n : ℤ) → r ≡ some n → is_level n ≡ true)
    → is_level level ≡ true
    → is_level (taken r level) ≡ true
taken-level none level all ok = ok
taken-level (some n) level all ok = all n refl

pub set_log_level_env-level :
    (text : Option Bytes) (level : ℤ)
    → is_level level ≡ true
    → is_level (set_log_level_env text level) ≡ true
unfolding set_log_level_env
set_log_level_env-level none level ok = ok
set_log_level_env-level (some text) level ok =
    taken-level (set_str_stol text) level (set_str_stol-level text) ok

set_log_level-level :
    (n level : ℤ) → is_level level ≡ true → is_level (set_log_level n level) ≡ true
unfolding set_log_level
set_log_level-level n level ok = ground arith

-- From a level of 0 to 3, every sequence of settings, by the environment with any text and by
-- SetLogLevel with any int, leaves a level of 0 to 3.
apply_settings-level :
    (ss : List Setting) (level : ℤ)
    → is_level level ≡ true
    → is_level (apply_settings ss level) ≡ true
apply_settings-level [] level ok = ok
apply_settings-level (Setting.env text ∷ ss) level ok =
    apply_settings-level ss _ (set_log_level_env-level text level ok)
apply_settings-level (Setting.int n ∷ ss) level ok =
    apply_settings-level ss _ (set_log_level-level n level ok)
