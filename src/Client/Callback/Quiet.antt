-- ===== src/Client/Callback/Quiet.antt =====
-- The steps at the end of a two-sided call in src/hcom4db.cpp that give back blocks, or only read,
-- and tell the user nothing.
use hcom4db.Base.{
  ℕ, suc, ◌+◌, ◌≡◌, refl, ap, ◌∙◌, ℤ, List, [], ◌∷◌, ◌++◌, Option, none, some, length, get_or,
  arith,
}
use hcom4db.Hcom.Call.{symbol}
use hcom4db.Hcom.Context.{service_get_message_data, service_get_message_data_len}
use hcom4db.Hcom.World.{World, Event, done, invoke_int, invoke_value}
use hcom4db.Client.Blocks.{CanFree, mem_free, released}
use hcom4db.Client.Callback.{free_addresses, copy_response, copy_to}

abbrev told : Event → List (ℕ × ℤ × ℕ)
told (done cb result arg) = (cb, result, arg) ∷ []
told _ = []

-- The completion callbacks that ran, with status and argument, the newest first.
abbrev pub completions : List Event → List (ℕ × ℤ × ℕ)
completions [] = []
completions (e ∷ t) = told e ++ completions t

-- Some steps gave back the addresses on top and told the user nothing.
pub record Quiet (w u : World) (addrs : List ℕ) : Type 0 where
  pub table : u.hcom_func ≡ w.hcom_func
  pub frees : released u.trace ≡ addrs
  pub tells : completions u.trace ≡ completions w.trace

pub Quiet-trans : {w u v : World} {xs ys : List ℕ} → Quiet w u xs → Quiet u v ys → Quiet w v ys
Quiet-trans a b = record { table = b.table ∙ a.table; frees = b.frees; tells = b.tells ∙ a.tells }

mem_free-Quiet :
    (client addr : ℕ) (w : World)
    → CanFree w
    → Quiet w (mem_free client addr w).1 (addr ∷ released w.trace)
unfolding mem_free invoke_int symbol
mem_free-Quiet client addr w b = ground arith

-- The addresses of a list before those of another one, the last one first.
abbrev pub rev_onto : List ℕ → List ℕ → List ℕ
rev_onto [] acc = acc
rev_onto (x ∷ xs) acc = rev_onto xs (x ∷ acc)

pub free_addresses-Quiet :
    (client : ℕ) (addrs xs : List ℕ) (from : ℕ) (w : World)
    → CanFree w
    → ((i : ℕ) → get_or addrs (from + i) 0 ≡ get_or xs i 0)
    → Quiet w (free_addresses client addrs from (length xs) w).1 (rev_onto xs (released w.trace))
unfolding free_addresses
free_addresses-Quiet client addrs [] from w b same = record {
  table = refl;
  frees = refl;
  tells = refl;
}
free_addresses-Quiet client addrs (x ∷ xs) from w b same =
    let addr = get_or addrs from 0 in
    let at_zero : from + 0 ≡ from = omega arith in
    let head : addr ≡ x = rw at_zero at (same 0) in
    let first = mem_free-Quiet client addr w b in
    let next =
      λ (i : ℕ). (let e : from + suc i ≡ from + 1 + i = omega arith in rw e at (same (suc i))) in
    let rest =
      free_addresses-Quiet client addrs xs (from + 1) (mem_free client addr w).1 (rw first.table b)
        next in
    let all = Quiet-trans first (rw first.frees at rest) in
    record {
      table = all.table;
      frees = all.frees ∙ ap (λ a. rev_onto xs (a ∷ released w.trace)) head;
      tells = all.tells;
    }

copy_response-Quiet :
    (context rsp : ℕ) (w : World) → Quiet w (copy_response context rsp w).1 (released w.trace)
unfolding copy_response service_get_message_data service_get_message_data_len invoke_value
copy_response-Quiet context rsp w = ground arith

pub copy_to-Quiet :
    (context : ℕ) (rsp : Option ℕ) (w : World)
    → Quiet w (copy_to context rsp w).1 (released w.trace)
unfolding copy_to
copy_to-Quiet context none w = record { table = refl; frees = refl; tells = refl }
copy_to-Quiet context (some rsp) w = copy_response-Quiet context rsp w
