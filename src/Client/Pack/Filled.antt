-- ===== src/Client/Pack/Filled.antt =====
-- The invariant of a request that is being packed: its entries are the blocks that the allocator
-- granted since `w0`, no block was given back, and no entry holds more than its block.
use native.Mathlib.Nat.{le_refl}
use hcom4db.Base.{
  ℕ, zero, suc, ◌+◌, ◌≤◌, ◌<◌, ◌≡◌, refl, ap, ◌∙◌, true, List, [], ◌∷◌, ◌++◌, length, get_or, set,
  u16, arith,
}
use hcom4db.Hcom.Types.{Request, SglRequest, zero_request}
use hcom4db.Hcom.World.{World, Event, Reply, is_ok}
use hcom4db.Client.Blocks.{granted, released, SameSetting, SameSetting-trans, Allocated}
use hcom4db.Client.Pack.{add_request}

-- Entry by entry, the last one first: the block's address, and no more bytes than the block has.
abbrev pub Fits : List (ℕ × ℕ) → ℕ → List Request → Type 0
Fits [] zero iov = Unit {0}
Fits ((a, c) ∷ bs) (suc n) iov =
    ((get_or iov n zero_request).l_address ≡ a)
    × ((get_or iov n zero_request).size ≤ c)
    × Fits bs n iov
Fits _ _ iov = ⊥

abbrev pub total_size : ℕ → List Request → ℕ
total_size zero iov = 0
total_size (suc n) iov = (get_or iov n zero_request).size + total_size n iov

-- The size of the newest block.
abbrev pub newest_size : List (ℕ × ℕ) → ℕ
newest_size [] = 0
newest_size ((_, c) ∷ _) = c

pub record Filled (w0 w : World) (req : SglRequest) (bytes room : ℕ) : Type 0 where
  pub setting : SameSetting w0 w
  pub blocks : List (ℕ × ℕ)
  pub grants : granted w0.lib w.trace ≡ blocks ++ granted w0.lib w0.trace
  pub frees : released w.trace ≡ released w0.trace
  pub four : length req.iov ≡ 4
  pub fits : Fits blocks req.iov_count req.iov
  pub total : total_size req.iov_count req.iov ≡ bytes
  pub newest : newest_size blocks ≡ room

pub get_or-set_ne :
    (xs : List Request) (i j : ℕ) (v : Request)
    → i < j
    → get_or (set xs j v) i zero_request ≡ get_or xs i zero_request
get_or-set_ne [] i j v h = refl
get_or-set_ne (x ∷ xs) zero (suc j) v h = refl
get_or-set_ne (x ∷ xs) (suc i) (suc j) v h = get_or-set_ne xs i j v (omega arith)
get_or-set_ne (x ∷ xs) i zero v h = absurd (omega arith)

pub get_or-set_self :
    (xs : List Request) (j : ℕ) (v : Request)
    → j < length xs
    → get_or (set xs j v) j zero_request ≡ v
get_or-set_self [] j v h = absurd (omega arith)
get_or-set_self (x ∷ xs) zero v h = refl
get_or-set_self (x ∷ xs) (suc j) v h = get_or-set_self xs j v (omega arith)

pub length-set : (xs : List Request) (j : ℕ) (v : Request) → length (set xs j v) ≡ length xs
length-set [] j v = refl
length-set (x ∷ xs) zero v = refl
length-set (x ∷ xs) (suc j) v = ap suc (length-set xs j v)

pub Fits-set :
    (bs : List (ℕ × ℕ)) (n : ℕ) (iov : List Request) (j : ℕ) (v : Request)
    → n ≤ j
    → Fits bs n iov
    → Fits bs n (set iov j v)
Fits-set [] zero iov j v h f = tt
Fits-set [] (suc n) iov j v h f = f
Fits-set (b ∷ bs) zero iov j v h f = f
Fits-set (b ∷ bs) (suc n) iov j v h (a, c, f) =
    let same = get_or-set_ne iov n j v (omega arith) in
    (rw same a, rw same c, Fits-set bs n iov j v (omega arith) f)

pub total_size-set :
    (n : ℕ) (iov : List Request) (j : ℕ) (v : Request)
    → n ≤ j
    → total_size n (set iov j v) ≡ total_size n iov
total_size-set zero iov j v h = refl
total_size-set (suc n) iov j v h =
    rw (get_or-set_ne iov n j v (omega arith), total_size-set n iov j v (omega arith))

-- A new block, taken as the next entry.
Filled-add_next :
    {w0 w w' : World} (req : SglRequest) {bytes room : ℕ} (n : ℕ) (block : Reply) (r : Request)
    → Filled w0 w req bytes room
    → Allocated w w' n block
    → is_ok block.ret ≡ true
    → req.iov_count < 4
    → r.l_address ≡ block.out
    → r.size ≤ n
    → Filled w0 w' (add_request req req.iov_count r) (bytes + r.size) n
Filled-add_next req n block r f a good small same le =
    let next : u16 (req.iov_count + 1) ≡ suc req.iov_count = omega arith in
    let kept = get_or-set_self req.iov req.iov_count r (rw f.four small) in
    let below = le_refl req.iov_count in
    record {
      setting = SameSetting-trans f.setting a.setting;
      blocks = (block.out, n) ∷ f.blocks;
      grants = ground (arith, a.grants, f.grants, f.setting.lib);
      frees = a.frees ∙ f.frees;
      four = length-set req.iov req.iov_count r ∙ f.four;
      fits = rw next (
        rw kept same,
        rw kept le,
        Fits-set f.blocks req.iov_count req.iov req.iov_count r below f.fits,
      );
      total =
          rw (next, kept, total_size-set req.iov_count req.iov req.iov_count r below)
            (omega (arith, f.total));
      newest = refl;
    }

-- The same, where the code names the entry's position.
pub Filled-add :
    {w0 w w' : World} (req : SglRequest) {bytes room : ℕ} (n p : ℕ) (block : Reply) (r : Request)
    → Filled w0 w req bytes room
    → Allocated w w' n block
    → is_ok block.ret ≡ true
    → req.iov_count ≡ p
    → p < 4
    → r.l_address ≡ block.out
    → r.size ≤ n
    → Filled w0 w' (add_request req p r) (bytes + r.size) n
Filled-add req n p block r f a good at small same le =
    rw (← at) (Filled-add_next req n block r f a good (rw at small) same le)

-- An event that is neither a grant nor a release.
pub Filled-emit :
    {w0 w : World} {req : SglRequest} {bytes room : ℕ} (e : Event)
    → Filled w0 w req bytes room
    → granted w.lib (e ∷ w.trace) ≡ granted w.lib w.trace
    → released (e ∷ w.trace) ≡ released w.trace
    → Filled w0 (record w { trace = e ∷ w.trace }) req bytes room
Filled-emit e f g r = record {
  setting = record { lib = f.setting.lib; table = f.setting.table; options = f.setting.options };
  blocks = f.blocks;
  grants = ground (arith, f.grants, f.setting.lib, g);
  frees = r ∙ f.frees;
  four = f.four;
  fits = f.fits;
  total = f.total;
  newest = f.newest;
}

-- The same request, its bytes counted otherwise.
pub Filled-bytes :
    {w0 w : World} {req : SglRequest} {b b' room : ℕ}
    → b ≡ b'
    → Filled w0 w req b room
    → Filled w0 w req b' room
Filled-bytes e f = record {
  setting = f.setting;
  blocks = f.blocks;
  grants = f.grants;
  frees = f.frees;
  four = f.four;
  fits = f.fits;
  total = f.total ∙ e;
  newest = f.newest;
}

pub Filled-room :
    {w0 w : World} {req : SglRequest} {b room room' : ℕ}
    → room ≡ room'
    → Filled w0 w req b room
    → Filled w0 w req b room'
Filled-room e f = record {
  setting = f.setting;
  blocks = f.blocks;
  grants = f.grants;
  frees = f.frees;
  four = f.four;
  fits = f.fits;
  total = f.total;
  newest = f.newest ∙ e;
}
