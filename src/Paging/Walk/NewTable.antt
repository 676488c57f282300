-- ===== src/Paging/Walk/NewTable.antt =====
-- `arch_vmm_new_pt` of symphony/arch/x86_64/mm.c.
use orchestr_os.Base.{ℕ, ◌+◌, ◌*◌, ◌≤◌, ◌<◌, ◌^◌, ◌≡◌, refl, sym, ◌∙◌, true, false, arith}
use orchestr_os.Base.Run.{Returns, returns, Returns-bind}
use orchestr_os.Base.Word.{u64, page_size}
use orchestr_os.Memory.{Mem, within, memset}
use orchestr_os.Memory.Block.{memset_lem}
use orchestr_os.Memory.Words.{load64, load64-same}
use orchestr_os.BootProto.{Limine}
use orchestr_os.Pmm.State.{Pmm}
use orchestr_os.Pmm.Find.FirstFit.{AllFree}
use orchestr_os.Pmm.Frames.Laws.{IsPmm, Allocated, alloc-Allocated}
use orchestr_os.Pmm.Frames.Invariant.{Allocated-IsPmm}
use orchestr_os.Pmm.Pages.{true_ne_false, IsPmm-write, no_wrap, outside_of, fresh-Owned}
use orchestr_os.Paging.Entry.{Opens}
use orchestr_os.Paging.Walk.{read_entry, entry_at, word_entry, new_pt}

zero_words : (p : ℕ) → load64 (λ _. 0) p ≡ 0
unfolding load64
zero_words p = refl

-- A table of zero bytes has no entry that is present.
pub memset-empty :
    (m : Mem) (pt i : ℕ)
    → pt + page_size < 2 ^ 64
    → i < 512
    → (read_entry (memset pt 0 page_size m) (entry_at pt i)).present ≡ false
unfolding read_entry word_entry
memset-empty m pt i fits lt =
    rw
      (
        load64-same (λ _. 0) (memset pt 0 page_size m) (entry_at pt i)
            (λ a lo hi. memset_lem pt 0 page_size m a ∙ ground arith),
        zero_words (entry_at pt i),
      )
      refl

-- And all its entries take no right away.
pub memset-Opens :
    (m : Mem) (pt i : ℕ)
    → pt + page_size < 2 ^ 64
    → i < 512
    → Opens (read_entry (memset pt 0 page_size m) (entry_at pt i))
unfolding read_entry word_entry
memset-Opens m pt i fits lt =
    rw
      (
        load64-same (λ _. 0) (memset pt 0 page_size m) (entry_at pt i)
            (λ a lo hi. memset_lem pt 0 page_size m a ∙ ground arith),
        zero_words (entry_at pt i),
      )
      (record {
        large = refl;
        executable = refl;
        writable = λ h. absurd (true_ne_false (sym h));
        user = λ h. absurd (true_ne_false (sym h));
      })

in_space : (base hhdm : ℕ) → base + hhdm + 1 * page_size < 2 ^ 64 → base + hhdm + page_size < 2 ^ 64
in_space base hhdm h = omega (arith, h)

pub word_below : {a : ℕ} → a + page_size < 2 ^ 64 → u64 a ≡ a
word_below {a} h = omega (arith, h)

pub some_tracked : (page size size' : ℕ) → page + 1 ≤ size * 8 → size' ≡ size → 0 < size'
some_tracked page size size' h e = omega arith

zeroed_bytes :
    (m : Mem) (pt : ℕ) → ((a : ℕ) → m a < 256) → (a : ℕ) → memset pt 0 page_size m a < 256
zeroed_bytes m pt bytes a = ground (arith, memset_lem pt 0 page_size m a, bytes a)

module _ (l : Limine) (s : Pmm) (base : ℕ) (p : Pmm) (inv : IsPmm l s)
    (below : s.bitmap_size * 8 * page_size + l.hhdm_offset < 2 ^ 64)
    (got : Allocated s 1 base p) where
  abbrev table : ℕ
  table = base + l.hhdm_offset

  pub fits : table + page_size < 2 ^ 64
  fits =
      in_space base l.hhdm_offset
        (no_wrap base got.page l.hhdm_offset 1 _ got.address got.fit.fits below)

  pub cleared_same :
      (a : ℕ)
      → within p.bitmap p.bitmap_size a ≡ true
      → memset table 0 page_size p.memory a ≡ p.memory a
  cleared_same a h =
      let out =
        outside_of table page_size a (within p.bitmap p.bitmap_size)
          (λ e. (fresh-Owned l s 1 base p inv got a e).apart) h in
      memset_lem table 0 page_size p.memory a ∙ rw (out) refl

  pub table-IsPmm : IsPmm l (record p { memory = memset table 0 page_size p.memory })
  table-IsPmm =
      IsPmm-write l p _ (Allocated-IsPmm l s 1 inv (omega arith) got)
        (some_tracked got.page s.bitmap_size _ got.fit.fits got.marked.bitmap_size)
        (zeroed_bytes p.memory table got.marked.bytes) cleared_same

-- `arch_vmm_new_pt`, where the frame allocator has a free page, returns a table of 512 entries none
-- of which is present, and leaves the frame allocator at work.
pub new_pt-empty :
    (l : Limine) (s : Pmm) (q : ℕ)
    → IsPmm l s
    → s.bitmap_size * 8 * page_size + l.hhdm_offset < 2 ^ 64
    → q + 1 ≤ s.bitmap_size * 8
    → AllFree s q 1
    → Returns
        (λ pt s'.
          IsPmm l s' × ((i : ℕ) → i < 512 → (read_entry s'.memory (entry_at pt i)).present ≡ false))
        (new_pt l s)
unfolding new_pt
new_pt-empty l s q inv below room free =
    Returns-bind (alloc-Allocated l s 1 q inv (omega arith) room free) λ base p got.
      let small = fits l s base p inv below got in
      rw (word_below small) (
        returns (
          table-IsPmm l s base p inv below got,
          λ i lt. memset-empty p.memory (base + l.hhdm_offset) i small lt,
        ))
