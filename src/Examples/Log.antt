-- ===== src/Examples/Log.antt =====
-- The log level, at concrete settings.
use hcom4db.Base.{◌≡◌, refl, pos, negsuc, none, some}
use hcom4db.Hcom.Types.{codes}
use hcom4db.Log.{read_number, set_str_stol, set_log_level_env, set_log_level}

two : set_str_stol (codes "2") ≡ some (pos 2)
unfolding set_str_stol read_number
two = refl

plus_three : set_str_stol (codes " +3") ≡ some (pos 3)
unfolding set_str_stol read_number
plus_three = refl

too_high : set_str_stol (codes "4") ≡ none
unfolding set_str_stol read_number
too_high = refl

no_number : set_str_stol (codes "") ≡ none
unfolding set_str_stol read_number
no_number = refl

two_zeros : set_str_stol (codes "00") ≡ none
unfolding set_str_stol read_number
two_zeros = refl

with_rest : set_str_stol (codes "1x") ≡ none
unfolding set_str_stol read_number
with_rest = refl

out_of_range : set_str_stol (codes "99999999999999999999") ≡ none
unfolding set_str_stol read_number
out_of_range = refl

from_environment : set_log_level_env (some (codes "2")) (pos 1) ≡ pos 2
unfolding set_log_level_env set_str_stol read_number
from_environment = refl

negative_int : set_log_level (negsuc 0) (pos 2) ≡ pos 2
unfolding set_log_level
negative_int = refl
