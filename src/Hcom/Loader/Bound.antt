-- ===== src/Hcom/Loader/Bound.antt =====
-- What the loaders of src/hcom4db_dlopen_hcom.cpp leave in the function table: a symbol that is
-- listed becomes bound, and one that is not listed keeps its slot.
use Prim.Native.String.{String}
use text.Mathlib.Text.{◌==◌ as str_eq}
use hcom4db.Base.{ℕ, ◌≡◌, ◌≢◌, refl, ◌∙◌, Bool, true, false, ◌||◌, List, [], ◌∷◌, arith}
use hcom4db.Base.Maps.{lookup, string_eq, lookup-assign}
use hcom4db.Hcom.Types.{ock_rpc_ok}
use hcom4db.Hcom.World.{World, Event, Reply, dlsym, is_ok, is_bound}
use hcom4db.Hcom.Loader.{load_symbol, load_symbols, run_loaders}

-- dlsym finds every symbol, and dlerror is then silent.
abbrev pub Resolves : (List Event → Reply) → Type 0
Resolves lib =
    (h : ℕ) (s : String) (t : List Event)
    → (is_ok (lib (dlsym h s ∷ t)).ret ≡ true) × ((lib (dlsym h s ∷ t)).out ≢ 0)

abbrev pub is_listed : String → List String → Bool
is_listed s [] = false
is_listed s (x ∷ xs) = str_eq x s || is_listed s xs

abbrev pub is_listed_in : String → List (List String) → Bool
is_listed_in s [] = false
is_listed_in s (l ∷ ls) = is_listed s l || is_listed_in s ls

pub record Loads (symbols : String → Bool) (w w' : World) : Type 0 where
  pub same_lib : w'.lib ≡ w.lib
  pub bound :
      (s : String) → (symbols s || is_bound s w.hcom_func) ≡ true → is_bound s w'.hcom_func ≡ true

load_symbol-bound :
    (x s : String) (w : World)
    → Resolves w.lib
    → (str_eq x s || is_bound s w.hcom_func) ≡ true
    → is_bound s (load_symbol x w).1.hcom_func ≡ true
unfolding load_symbol
load_symbol-bound x s w r h = ground (
  arith,
  r w.hcom_dl x w.trace,
  lookup-assign x s (w.lib (dlsym w.hcom_dl x ∷ w.trace)).out w.hcom_func,
)

load_symbol-ok :
    (x : String) (w : World)
    → Resolves w.lib
    → ((load_symbol x w).0 ≡ ock_rpc_ok) × ((load_symbol x w).1.lib ≡ w.lib)
unfolding load_symbol
load_symbol-ok x w r = ground (arith, r w.hcom_dl x w.trace)

Loads-cons :
    (x : String) (symbols : String → Bool) {w w' : World}
    → Resolves w.lib
    → Loads symbols (load_symbol x w).1 w'
    → Loads (λ s. str_eq x s || symbols s) w w'
Loads-cons x symbols {w} r rest = record {
  same_lib = ground (arith, load_symbol-ok x w r, rest.same_lib);
  bound = λ s h. ground (arith, load_symbol-bound x s w r, rest.bound s);
}

load_symbols-Loads :
    (ss : List String) (w : World)
    → Resolves w.lib
    → Loads (λ s. is_listed s ss) w (load_symbols ss w).1
unfolding load_symbols
load_symbols-Loads [] w r = record { same_lib = refl; bound = λ s h. h }
load_symbols-Loads (x ∷ xs) w r =
    let (done, same) = load_symbol-ok x w r in
    rw done
      (Loads-cons x (λ s. is_listed s xs) r (load_symbols-Loads xs (load_symbol x w).1 (rw same r)))

pub run_loaders-Loads :
    (ls : List (List String)) (w : World)
    → Resolves w.lib
    → Loads (λ s. is_listed_in s ls) w (run_loaders ls w).1
unfolding run_loaders
run_loaders-Loads [] w r = record { same_lib = refl; bound = λ s h. h }
run_loaders-Loads (l ∷ ls) w r =
    let first = load_symbols-Loads l w r in
    let rest = run_loaders-Loads ls (load_symbols l w).1 (rw first.same_lib r) in
    record {
      same_lib = rest.same_lib ∙ first.same_lib;
      bound = λ s h. ground (arith, first.bound s, rest.bound s);
    }

load_symbol-other :
    (x s : String) (w : World)
    → str_eq x s ≡ false
    → lookup s (load_symbol x w).1.hcom_func ≡ lookup s w.hcom_func
unfolding load_symbol
load_symbol-other x s w h =
    ground (arith, lookup-assign x s (w.lib (dlsym w.hcom_dl x ∷ w.trace)).out w.hcom_func)

load_symbols-other :
    (s : String) (ss : List String) (w : World)
    → is_listed s ss ≡ false
    → lookup s (load_symbols ss w).1.hcom_func ≡ lookup s w.hcom_func
unfolding load_symbols
load_symbols-other s [] w h = refl
load_symbols-other s (x ∷ xs) w h =
    ground (arith, load_symbol-other x s w, load_symbols-other s xs (load_symbol x w).1)

pub run_loaders-other :
    (s : String) (ls : List (List String)) (w : World)
    → is_listed_in s ls ≡ false
    → lookup s (run_loaders ls w).1.hcom_func ≡ lookup s w.hcom_func
unfolding run_loaders
run_loaders-other s [] w h = refl
run_loaders-other s (l ∷ ls) w h =
    ground (arith, load_symbols-other s l w, run_loaders-other s ls (load_symbols l w).1)

pub run_loaders-ok : (ls : List (List String)) (w : World) → (run_loaders ls w).0 ≡ ock_rpc_ok
unfolding run_loaders
run_loaders-ok [] w = refl
run_loaders-ok (l ∷ ls) w = run_loaders-ok ls (load_symbols l w).1
