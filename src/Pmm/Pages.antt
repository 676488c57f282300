-- ===== src/Pmm/Pages.antt =====
-- The bytes of the pages that the frame allocator of symphony/mm/pmm.c has given out, in the direct map.
use orchestr_os.Base.{
  ℕ, ◌+◌, ◌-◌, ◌*◌, ◌/◌, ◌%◌, ◌≤◌, ◌<◌, ◌^◌, ◌≡◌, ◌≢◌, Bool, Bool-cases, inl, inr, sym, ap, ◌∙◌,
  true, false, arith, if◌then◌else◌,
}
use orchestr_os.Base.Bits.{bit_is_set}
use orchestr_os.Base.Word.{page_size}
use orchestr_os.Memory.{Mem, within}
use orchestr_os.BootProto.{Limine}
use orchestr_os.Pmm.State.{Pmm, is_used}
use orchestr_os.Pmm.Frames.Laws.{IsPmm, Allocated, free-ApartFromBitmap}

pub true_ne_false : true ≢ false
true_ne_false e = cc e

-- The address lies in the direct map, in a page that the frame allocator tracks and that is in use, and
-- not in the allocator's bitmap.
pub record Owned (l : Limine) (s : Pmm) (a : ℕ) : Type 0 where
  pub mapped : l.hhdm_offset ≤ a
  pub tracked : (a - l.hhdm_offset) / page_size < s.bitmap_size * 8
  pub used : is_used s ((a - l.hhdm_offset) / page_size) ≡ true
  pub apart : within s.bitmap s.bitmap_size a ≡ false

-- Writes that spare the bitmap leave the pages.
pub is_used-write :
    (s : Pmm) (m : Mem)
    → ((a : ℕ) → within s.bitmap s.bitmap_size a ≡ true → m a ≡ s.memory a)
    → (k : ℕ) → k < s.bitmap_size * 8
    → is_used (record s { memory = m }) k ≡ is_used s k
unfolding is_used
is_used-write s m same k h = ap (λ t. bit_is_set t (k % 8)) (same (s.bitmap + k / 8) (ground arith))

pub IsPmm-write :
    (l : Limine) (s : Pmm) (m : Mem)
    → IsPmm l s
    → 0 < s.bitmap_size
    → ((a : ℕ) → m a < 256)
    → ((a : ℕ) → within s.bitmap s.bitmap_size a ≡ true → m a ≡ s.memory a)
    → IsPmm l (record s { memory = m })
IsPmm-write l s m inv some_page bytes same = record {
  bytes = bytes;
  mapped = inv.mapped;
  page_zero = is_used-write s m same 0 (omega arith) ∙ inv.page_zero;
  reserved = λ k a lt h h'. is_used-write s m same k lt ∙ inv.reserved k a lt h h';
}

pub Owned-write :
    (l : Limine) (s : Pmm) (m : Mem) (a : ℕ)
    → Owned l s a
    → ((a : ℕ) → within s.bitmap s.bitmap_size a ≡ true → m a ≡ s.memory a)
    → Owned l (record s { memory = m }) a
Owned-write l s m a o same = record {
  mapped = o.mapped;
  tracked = o.tracked;
  used = is_used-write s m same _ o.tracked ∙ o.used;
  apart = o.apart;
}

pub stays_used :
    (page n k : ℕ) (s p : Pmm)
    → is_used p k ≡ (if within page n k then true else is_used s k)
    → is_used s k ≡ true
    → is_used p k ≡ true
stays_used page n k s p e h = ground (arith, e, h)

pub becomes_used :
    (page n k : ℕ) (s p : Pmm)
    → is_used p k ≡ (if within page n k then true else is_used s k)
    → page ≤ k
    → k < page + n
    → is_used p k ≡ true
becomes_used page n k s p e lo hi = ground (arith, e)

pub same_range :
    (base page hhdm n a : ℕ)
    → base ≡ page * page_size
    → within (base + hhdm) (n * page_size) a ≡ true
    → within (page * page_size + hhdm) (page_size * n) a ≡ true
same_range base page hhdm n a e h = ground (arith, h, e)

pub page_of :
    (base page hhdm n a : ℕ)
    → base ≡ page * page_size
    → within (base + hhdm) (n * page_size) a ≡ true
    → (hhdm ≤ a) × (page ≤ (a - hhdm) / page_size) × ((a - hhdm) / page_size < page + n)
page_of base page hhdm n a e h = ground (arith, h, e)

pub no_wrap :
    (base page hhdm n tracked : ℕ)
    → base ≡ page * page_size
    → page + n ≤ tracked
    → tracked * page_size + hhdm < 2 ^ 64
    → base + hhdm + n * page_size < 2 ^ 64
no_wrap base page hhdm n tracked e fits below = omega arith

pub outside_of :
    (start n a : ℕ) (q : ℕ → Bool)
    → (within start n a ≡ true → q a ≡ false)
    → q a ≡ true
    → within start n a ≡ false
outside_of start n a q out h = elim (Bool-cases (within start n a)) [
  | inl e ↦ absurd (true_ne_false (sym h ∙ out e))
  | inr e ↦ e
]

-- The pages that were given out belong to who asked for them.
pub fresh-Owned :
    (l : Limine) (s : Pmm) (n base : ℕ) (p : Pmm)
    → IsPmm l s
    → Allocated s n base p
    → (a : ℕ) → within (base + l.hhdm_offset) (n * page_size) a ≡ true
    → Owned l p a
fresh-Owned l s n base p inv got a h =
    let (mapped, above, below) = page_of base got.page l.hhdm_offset n a got.address h in
    let fits = got.fit.fits in
    record {
      mapped = mapped;
      tracked = rw (got.marked.bitmap_size) (omega (arith, below, fits));
      used = becomes_used got.page n _ s p (got.marked.used _) above below;
      apart =
          rw (got.marked.bitmap, got.marked.bitmap_size)
            (free-ApartFromBitmap l s got.page n inv fits got.fit.free a
              (same_range base got.page l.hhdm_offset n a got.address h));
    }

-- Pages in use stay in use, and their bytes have not changed.
pub record KeepsPages (l : Limine) (s s' : Pmm) : Type 0 where
  pub bitmap : s'.bitmap ≡ s.bitmap
  pub bitmap_size : s'.bitmap_size ≡ s.bitmap_size
  pub used : (k : ℕ) → k < s.bitmap_size * 8 → is_used s k ≡ true → is_used s' k ≡ true
  pub bytes : (a : ℕ) → Owned l s a → s'.memory a ≡ s.memory a
