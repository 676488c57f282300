-- ===== src/KHeap/Blocks.antt =====
-- The block list of symphony/mm/kheap.c as a list of blocks, and the headers that stand for it.
use orchestr_os.Base.{
  ℕ, ◌+◌, ◌≤◌, ◌<◌, ◌^◌, ◌≡◌, refl, sym, ◌∙◌, Bool, true, false, List, [], ◌∷◌, ◌++◌, arith,
  if◌then◌else◌,
}
use mathlib.Core.Path.{subst}
use orchestr_os.Memory.{Mem, within}
use orchestr_os.KHeap.Header.{
  header, set_prev, relink, header-same, header-set_prev, set_prev-Touched,
}

-- A block: the address of its header, and the bytes behind the header.
pub record Block : Type 0 where
  pub addr : ℕ
  pub size : ℕ
  pub free : Bool

abbrev pub if_one : Bool → ℕ
if_one true = 1
if_one false = 0

-- How many of the blocks have the address in their header or their bytes.
abbrev pub cover : (a : ℕ) → List Block → ℕ
cover a [] = 0
cover a (b ∷ bs) = if_one (within b.addr (32 + b.size) a) + cover a bs

-- How many have it in their header.
abbrev pub headers_at : (a : ℕ) → List Block → ℕ
headers_at a [] = 0
headers_at a (b ∷ bs) = if_one (within b.addr 32 a) + headers_at a bs

-- What the blocks in use, by their addresses and sizes, add up to in a measure `f`.
abbrev pub uses : (f : ℕ → ℕ → ℕ) → List Block → ℕ
uses f [] = 0
uses f (b ∷ bs) = (if b.free then 0 else f b.addr b.size) + uses f bs

-- How many of the blocks in use have an address in their bytes.
abbrev pub used_at : (a : ℕ) → List Block → ℕ
used_at a = uses (λ addr size. if_one (within (addr + 32) size a))

-- The measure of the blocks in use that have an address in their bytes.
unfoldable pub holds : (a : ℕ) → ℕ → ℕ → ℕ
holds a addr size = if_one (within (addr + 32) size a)

abbrev pub first_or : ℕ → List Block → ℕ
first_or stop [] = stop
first_or stop (b ∷ bs) = b.addr

abbrev pub last_or : ℕ → List Block → ℕ
last_or prev [] = prev
last_or prev (b ∷ bs) = last_or b.addr bs

-- The headers of the blocks stand in memory, linked both ways, from `prev` to `stop`; no block is at
-- address 0 or runs past the end of the address space.
abbrev pub Seg : Mem → (prev stop : ℕ) → List Block → Type 0
Seg m prev stop [] = Unit {0}
Seg m prev stop (b ∷ bs) =
    (header m b.addr
      ≡ record { size = b.size; free = b.free; next = first_or stop bs; prev = prev })
    × (0 < b.addr)
    × (b.addr + 32 + b.size < 2 ^ 64)
    × Seg m b.addr stop bs

pub cover-append : (a : ℕ) (xs ys : List Block) → cover a (xs ++ ys) ≡ cover a xs + cover a ys
cover-append a [] ys = omega arith
cover-append a (x ∷ xs) ys = omega (arith, cover-append a xs ys)

pub headers_at-append :
    (a : ℕ) (xs ys : List Block) → headers_at a (xs ++ ys) ≡ headers_at a xs + headers_at a ys
headers_at-append a [] ys = omega arith
headers_at-append a (x ∷ xs) ys = omega (arith, headers_at-append a xs ys)

pub uses-append : (f : ℕ → ℕ → ℕ) (xs ys : List Block) → uses f (xs ++ ys) ≡ uses f xs + uses f ys
uses-append f [] ys = omega arith
uses-append f (x ∷ xs) ys = omega (arith, uses-append f xs ys)

pub used_at-append :
    (a : ℕ) (xs ys : List Block) → used_at a (xs ++ ys) ≡ used_at a xs + used_at a ys
used_at-append a = uses-append (λ addr size. if_one (within (addr + 32) size a))

-- Header and bytes in use are parts of the block.
pub headers_used_le : (a : ℕ) (bs : List Block) → headers_at a bs + used_at a bs ≤ cover a bs
headers_used_le a [] = omega arith
headers_used_le a (b ∷ bs) = ground (arith, headers_used_le a bs)

pub first_or-append :
    (stop : ℕ) (xs ys : List Block) → first_or stop (xs ++ ys) ≡ first_or (first_or stop ys) xs
first_or-append stop [] ys = refl
first_or-append stop (x ∷ xs) ys = refl

pub last_or-append :
    (prev : ℕ) (xs ys : List Block) → last_or prev (xs ++ ys) ≡ last_or (last_or prev xs) ys
last_or-append prev [] ys = refl
last_or-append prev (x ∷ xs) ys = last_or-append x.addr xs ys

pub Seg-join :
    (m : Mem) (prev stop : ℕ) (xs ys : List Block)
    → Seg m prev (first_or stop ys) xs
    → Seg m (last_or prev xs) stop ys
    → Seg m prev stop (xs ++ ys)
Seg-join m prev stop [] ys s t = t
Seg-join m prev stop (x ∷ xs) ys (e, pos, fits, s) t =
    (rw (first_or-append stop xs ys) e, pos, fits, Seg-join m x.addr stop xs ys s t)

pub Seg-split :
    (m : Mem) (prev stop : ℕ) (xs ys : List Block)
    → Seg m prev stop (xs ++ ys)
    → Seg m prev (first_or stop ys) xs × Seg m (last_or prev xs) stop ys
Seg-split m prev stop [] ys t = (tt, t)
Seg-split m prev stop (x ∷ xs) ys (e, pos, fits, s) =
    let (s', t) = Seg-split m x.addr stop xs ys s in
    ((rw (← first_or-append stop xs ys) e, pos, fits, s'), t)

pub first_or-lt : (m : Mem) (prev : ℕ) (bs : List Block) → Seg m prev 0 bs → first_or 0 bs < 2 ^ 64
first_or-lt m prev [] s = omega arith
first_or-lt m prev (b ∷ bs) (e, pos, fits, s) = omega (arith, fits)

-- A segment survives a change of memory that spares its headers.
pub Seg-frame :
    (m m' : Mem) (prev stop : ℕ) (bs : List Block)
    → ((a : ℕ) → 1 ≤ headers_at a bs → m' a ≡ m a)
    → Seg m prev stop bs
    → Seg m' prev stop bs
Seg-frame m m' prev stop [] same s = tt
Seg-frame m m' prev stop (b ∷ bs) same (e, pos, fits, s) = (
  header-same m m' b.addr (λ a h. same a (ground arith)) ∙ e,
  pos,
  fits,
  Seg-frame m m' b.addr stop bs (λ a h. same a (omega arith)) s,
)

-- An address in the header of one block is in no other block.
pub apart_of_headers_at :
    (a : ℕ) (b : Block) (bs : List Block)
    → cover a (b ∷ bs) ≤ 1
    → 1 ≤ headers_at a bs
    → within b.addr (32 + b.size) a ≡ false
apart_of_headers_at a b bs once h = ground (arith, headers_used_le a bs)

pub apart_header :
    (a : ℕ) (b : Block) → within b.addr (32 + b.size) a ≡ false → within b.addr 32 a ≡ false
apart_header a b h = ground arith

-- The first block of a segment gets another predecessor.
set_prev-Seg :
    (m : Mem) (prev new : ℕ) (b : Block) (bs : List Block)
    → new < 2 ^ 64
    → ((a : ℕ) → cover a (b ∷ bs) ≤ 1)
    → Seg m prev 0 (b ∷ bs)
    → Seg (set_prev b.addr new m) new 0 (b ∷ bs)
set_prev-Seg m prev new b bs small once (e, pos, fits, s) = (
  header-set_prev m b.addr _ e new small,
  pos,
  fits,
  Seg-frame m (set_prev b.addr new m) b.addr 0 bs
      (λ a h.
        (set_prev-Touched m b.addr new).outside a
          (apart_header a b (apart_of_headers_at a b bs (once a) h)))
      s,
)

pub relink-Seg :
    (m : Mem) (prev new : ℕ) (bs : List Block)
    → new < 2 ^ 64
    → ((a : ℕ) → cover a bs ≤ 1)
    → Seg m prev 0 bs
    → Seg (relink (first_or 0 bs) new m) new 0 bs
unfolding relink
relink-Seg m prev new [] small once s = tt
relink-Seg m prev new (b ∷ bs) small once s =
    let pos = s.1 in
    let there : relink b.addr new m ≡ set_prev b.addr new m = ground arith in
    subst (λ x. Seg x new 0 (b ∷ bs)) (sym there) (set_prev-Seg m prev new b bs small once s)

pub relink-outside :
    (m : Mem) (new : ℕ) (bs : List Block) (a : ℕ)
    → headers_at a bs ≡ 0
    → relink (first_or 0 bs) new m a ≡ m a
unfolding relink
relink-outside m new [] a h = refl
relink-outside m new (b ∷ bs) a h =
    let touched = set_prev-Touched m b.addr new in ground (arith, touched.outside a)

pub relink-bytes :
    (first new : ℕ) (m : Mem) → ((a : ℕ) → m a < 256) → (a : ℕ) → relink first new m a < 256
unfolding relink
relink-bytes first new m bytes a =
    ground (arith, bytes a, (set_prev-Touched m first new).bytes bytes a)

-- An address of the block `b` is in no header behind it.
pub no_header_behind :
    (a : ℕ) (b : Block) (bs : List Block)
    → cover a (b ∷ bs) ≤ 1
    → within b.addr (32 + b.size) a ≡ true
    → headers_at a bs ≡ 0
no_header_behind a b bs once h = ground (arith, headers_used_le a bs)

-- An address in no block is in no header behind the first block.
pub untouched :
    (a : ℕ) (b : Block) (bs : List Block)
    → cover a (b ∷ bs) ≡ 0
    → (within b.addr (32 + b.size) a ≡ false) × (headers_at a bs ≡ 0)
untouched a b bs h = ground (arith, headers_used_le a bs)

-- No more is one in the bytes of a block in use behind it.
pub used_behind :
    (a : ℕ) (b : Block) (bs : List Block)
    → cover a (b ∷ bs) ≤ 1
    → 1 ≤ used_at a bs
    → (within b.addr (32 + b.size) a ≡ false) × (headers_at a bs ≡ 0)
used_behind a b bs once h = ground (arith, headers_used_le a bs)

pub uses-free :
    (f : ℕ → ℕ → ℕ) (b : Block) (bs : List Block) → b.free ≡ true → uses f (b ∷ bs) ≡ uses f bs
uses-free f b bs h = rw h (omega arith)

pub uses-used :
    (f : ℕ → ℕ → ℕ) (b : Block) (bs : List Block)
    → b.free ≡ false
    → uses f (b ∷ bs) ≡ f b.addr b.size + uses f bs
uses-used f b bs h = rw h refl

pub used_at-free :
    (a : ℕ) (b : Block) (bs : List Block) → b.free ≡ true → used_at a (b ∷ bs) ≡ used_at a bs
used_at-free a b bs h = uses-free (λ addr size. if_one (within (addr + 32) size a)) b bs h
