-- ===== src/KHeap/Header.antt =====
-- struct kheap_block_header of symphony/mm/kheap.c in byte memory: its fields are read and written at
-- their offsets, `size` at 0, `free` at 8, `next` at 16 and `prev` at 24 of 32 bytes.
use orchestr_os.Base.{
  ℕ, ◌+◌, ◌≤◌, ◌<◌, ◌^◌, ◌≡◌, ◌⊎◌, refl, Bool, true, false, not, arith, ◌==◌, if◌then◌else◌,
}
use orchestr_os.Base.Word.{u64}
use orchestr_os.Memory.{Mem, store, within, memset}
use orchestr_os.Memory.Block.{memset_lem}
use orchestr_os.Memory.Words.{
  load64, store64, load64-store64, load64-same, store64-outside, store64-bytes,
}

pub record Header : Type 0 where
  pub size : ℕ
  pub free : Bool
  pub next : ℕ
  pub prev : ℕ

abbrev pub header_size : ℕ
header_size = 32

unfoldable pub header : Mem → ℕ → Header
header m bh = record {
  size = load64 m bh;
  free = not (m (bh + 8) == 0);
  next = load64 m (bh + 16);
  prev = load64 m (bh + 24);
}

-- `bh->size = v`, and the other fields.
unfoldable pub set_size : (bh v : ℕ) → Mem → Mem
set_size bh v m = store64 m bh v

unfoldable pub set_free : (bh : ℕ) → Bool → Mem → Mem
unfolding store
set_free bh v m = store m (bh + 8) (if v then 1 else 0)

unfoldable pub set_next : (bh v : ℕ) → Mem → Mem
set_next bh v m = store64 m (bh + 16) v

unfoldable pub set_prev : (bh v : ℕ) → Mem → Mem
set_prev bh v m = store64 m (bh + 24) v

-- `if (next) next->prev = new`
unfoldable pub relink : (next new : ℕ) → Mem → Mem
relink next new m = if not (next == 0) then set_prev next new m else m

-- `m'` differs from `m` at most in the header at `bh`, and holds bytes where `m` does.
pub record Touched (bh : ℕ) (m m' : Mem) : Type 0 where
  pub outside : (a : ℕ) → within bh 32 a ≡ false → m' a ≡ m a
  pub bytes : ((a : ℕ) → m a < 256) → (a : ℕ) → m' a < 256

-- Memory that is the same in a header leaves the header.
pub header-same :
    (m m' : Mem) (bh : ℕ)
    → ((a : ℕ) → within bh 32 a ≡ true → m' a ≡ m a)
    → header m' bh ≡ header m bh
unfolding header
header-same m m' bh same =
    rw
      (
        load64-same m m' bh (λ a h h'. same a (ground arith)),
        load64-same m m' (bh + 16) (λ a h h'. same a (ground arith)),
        load64-same m m' (bh + 24) (λ a h h'. same a (ground arith)),
        same (bh + 8) (ground arith),
      )
      refl

pub header-apart :
    {bh : ℕ} {m m' : Mem} (a : ℕ)
    → Touched bh m m'
    → (bh + 32 ≤ a) ⊎ (a + 32 ≤ bh)
    → header m' a ≡ header m a
header-apart a touched apart = header-same _ _ a (λ c h. touched.outside c (ground arith))

module _ (m : Mem) (bh : ℕ) where
  pub memset-Touched : Touched bh m (memset bh 0 32 m)
  memset-Touched = record {
    outside = λ a h. ground (arith, memset_lem bh 0 32 m a);
    bytes = λ b a. ground (arith, memset_lem bh 0 32 m a, b a);
  }

  pub set_size-Touched : (v : ℕ) → Touched bh m (set_size bh v m)
  unfolding set_size
  set_size-Touched v = record {
    outside = λ a h. store64-outside m bh v a (ground arith);
    bytes = λ b a. store64-bytes m bh v b a;
  }

  pub set_next-Touched : (v : ℕ) → Touched bh m (set_next bh v m)
  unfolding set_next
  set_next-Touched v = record {
    outside = λ a h. store64-outside m (bh + 16) v a (ground arith);
    bytes = λ b a. store64-bytes m (bh + 16) v b a;
  }

  pub set_prev-Touched : (v : ℕ) → Touched bh m (set_prev bh v m)
  unfolding set_prev
  set_prev-Touched v = record {
    outside = λ a h. store64-outside m (bh + 24) v a (ground arith);
    bytes = λ b a. store64-bytes m (bh + 24) v b a;
  }

  pub set_free-Touched : (v : Bool) → Touched bh m (set_free bh v m)
  unfolding set_free
  set_free-Touched v = record { outside = λ a h. ground arith; bytes = λ b a. ground (arith, b a) }

  read-set_size : (v : ℕ) → header (set_size bh v m) bh ≡ record (header m bh) { size = u64 v }
  unfolding set_size header
  read-set_size v =
      rw
        (
          load64-store64 m bh v,
          load64-same m (store64 m bh v) (bh + 16)
              (λ a h h'. store64-outside m bh v a (ground arith)),
          load64-same m (store64 m bh v) (bh + 24)
              (λ a h h'. store64-outside m bh v a (ground arith)),
          store64-outside m bh v (bh + 8) (ground arith),
        )
        refl

  read-set_next : (v : ℕ) → header (set_next bh v m) bh ≡ record (header m bh) { next = u64 v }
  unfolding set_next header
  read-set_next v =
      rw
        (
          load64-store64 m (bh + 16) v,
          load64-same m (store64 m (bh + 16) v) bh
              (λ a h h'. store64-outside m (bh + 16) v a (ground arith)),
          load64-same m (store64 m (bh + 16) v) (bh + 24)
              (λ a h h'. store64-outside m (bh + 16) v a (ground arith)),
          store64-outside m (bh + 16) v (bh + 8) (ground arith),
        )
        refl

  read-set_prev : (v : ℕ) → header (set_prev bh v m) bh ≡ record (header m bh) { prev = u64 v }
  unfolding set_prev header
  read-set_prev v =
      rw
        (
          load64-store64 m (bh + 24) v,
          load64-same m (store64 m (bh + 24) v) bh
              (λ a h h'. store64-outside m (bh + 24) v a (ground arith)),
          load64-same m (store64 m (bh + 24) v) (bh + 16)
              (λ a h h'. store64-outside m (bh + 24) v a (ground arith)),
          store64-outside m (bh + 24) v (bh + 8) (ground arith),
        )
        refl

  read-set_free : (v : Bool) → header (set_free bh v m) bh ≡ record (header m bh) { free = v }
  unfolding set_free header store
  read-set_free v =
      rw
        (
          load64-same m (set_free bh v m) bh (λ a h h'. ground arith),
          load64-same m (set_free bh v m) (bh + 16) (λ a h h'. ground arith),
          load64-same m (set_free bh v m) (bh + 24) (λ a h h'. ground arith),
          flag v,
        )
        refl
    where
      flag : (v : Bool) → not (set_free bh v m (bh + 8) == 0) ≡ v
      flag true = ground arith
      flag false = ground arith

-- A field that was written, in a header that was known.
module _ (m : Mem) (bh : ℕ) (h : Header) (e : header m bh ≡ h) where
  pub header-set_size : (v : ℕ) → v < 2 ^ 64 → header (set_size bh v m) bh ≡ record h { size = v }
  header-set_size v small =
      let word : u64 v ≡ v = omega arith in rw (read-set_size m bh v, e, word) refl

  pub header-set_next : (v : ℕ) → v < 2 ^ 64 → header (set_next bh v m) bh ≡ record h { next = v }
  header-set_next v small =
      let word : u64 v ≡ v = omega arith in rw (read-set_next m bh v, e, word) refl

  pub header-set_prev : (v : ℕ) → v < 2 ^ 64 → header (set_prev bh v m) bh ≡ record h { prev = v }
  header-set_prev v small =
      let word : u64 v ≡ v = omega arith in rw (read-set_prev m bh v, e, word) refl

  pub header-set_free : (v : Bool) → header (set_free bh v m) bh ≡ record h { free = v }
  header-set_free v = rw (read-set_free m bh v, e) refl
