-- ===== src/Vmm/Init/Mapped.antt =====
-- `vmm_init` of symphony/mm/vmm.c maps the memory map and the kernel.
use orchestr_os.Base.{
  arith, ℕ, ◌+◌, ◌*◌, ◌/◌, ◌^◌, ◌≤◌, ◌<◌, ◌≡◌, refl, ap, Option, none, some, List, [], ◌∷◌, ◌++◌,
}
use orchestr_os.Base.Run.{Run, ok}
use orchestr_os.Base.Word.{u64, sub64, page_size, align_up}
use orchestr_os.BootProto.{Limine, LimineMemmapEntry, memmap_entry}
use orchestr_os.Pmm.State.{Pmm}
use orchestr_os.Pmm.Frames.Laws.{IsPmm}
use orchestr_os.Pmm.Init.{skip_page_zero}
use orchestr_os.Pmm.Room.{
  Ends-inner, HasFree, HasFree-one, HasFree-fewer, Spent, Spent-trans, Spent-few, Ends, done,
  exhausted, Ends-bind, Ends-mono,
}
use orchestr_os.Paging.Index.{Indexes, page_index}
use orchestr_os.Paging.Entry.{PageTableEntry, map_entry}
use orchestr_os.Paging.Tables.{IsPaging, Maps}
use orchestr_os.Paging.Tables.Map.{FitsFields}
use orchestr_os.Paging.Tables.Empty.{new_pt-IsPaging}
use orchestr_os.Vmm.{MapCall, page_calls, map_range-page_calls}
use orchestr_os.Vmm.Init.{
  Vmm, kernel_flags, run_range, vmm_map_range, map_entries, kernel_tables, vmm_switch, set_tables,
  vmm_init,
}
use orchestr_os.Vmm.Calls.{last_call, After}
use orchestr_os.Vmm.Needs.{tables_for, after, AllThere}
use orchestr_os.Vmm.Served.{Served, Served-nil, Served-bind, run_calls-Served}

-- The pages of a size that is rounded up.
abbrev pub pages_of : ℕ → ℕ
pages_of size = align_up size page_size / page_size

-- The size is not within a page of 2^64, and the fuel is more than its pages.
abbrev pub InFuel : (fuel size : ℕ) → Type 0
InFuel fuel size = (size + page_size ≤ 2 ^ 64) × (pages_of size < fuel)

-- The calls for an entry of the memory map, for all of them, and for the kernel.
abbrev pub entry_calls : Limine → LimineMemmapEntry → List MapCall
entry_calls l e =
    let entry = skip_page_zero (memmap_entry l e) in
    page_calls entry.base (u64 (entry.base + l.hhdm_offset)) (pages_of entry.length) 0

abbrev pub memmap_calls : Limine → List LimineMemmapEntry → List MapCall
memmap_calls l [] = []
memmap_calls l (e ∷ es) = entry_calls l e ++ memmap_calls l es

abbrev pub kernel_calls : Limine → List MapCall
kernel_calls l = page_calls l.kernel_physical_base l.kernel_virtual_base (pages_of l.kernel_size) 0

abbrev pub AllInFuel : (fuel : ℕ) → Limine → List LimineMemmapEntry → Type 0
AllInFuel fuel l [] = Unit {0}
AllInFuel fuel l (e ∷ es) =
    InFuel fuel (skip_page_zero (memmap_entry l e)).length × AllInFuel fuel l es

-- `vmm_map_range` with VMM_PRESENT and VMM_RWX.
vmm_map_range-Served :
    (fuel : ℕ) (l : Limine) (pt phys_addr virt_addr size run : ℕ) (seen : List MapCall) (s : Pmm)
    → InFuel fuel size
    → IsPaging l s pt
    → AllThere l s.memory pt seen
    → Ends
        (¬ HasFree s run 0 (tables_for seen (page_calls phys_addr virt_addr (pages_of size) 0)))
        (λ _ s'.
          Served l s pt kernel_flags seen (page_calls phys_addr virt_addr (pages_of size) 0) s')
        (vmm_map_range fuel l pt phys_addr virt_addr size kernel_flags s)
unfolding vmm_map_range run_range
vmm_map_range-Served fuel l pt phys_addr virt_addr size run seen s (small, enough) inv there =
    let calls = map_range-page_calls phys_addr virt_addr size fuel small enough in
    rw (ap (λ o. run_range l pt kernel_flags o s) calls) (
      run_calls-Served l s pt kernel_flags run seen
        (page_calls phys_addr virt_addr (pages_of size) 0) refl inv there)

map_entries-Served :
    (fuel : ℕ) (l : Limine) (pt run : ℕ) (es : List LimineMemmapEntry) (seen : List MapCall)
    (s : Pmm)
    → AllInFuel fuel l es
    → IsPaging l s pt
    → AllThere l s.memory pt seen
    → Ends
        (¬ HasFree s run 0 (tables_for seen (memmap_calls l es)))
        (λ _ s'. Served l s pt kernel_flags seen (memmap_calls l es) s')
        (map_entries fuel l pt es s)
unfolding map_entries
map_entries-Served fuel l pt run [] seen s fit inv there = done (Served-nil inv there)
map_entries-Served fuel l pt run (e ∷ es) seen s (fit, more) inv there =
    let entry = skip_page_zero (memmap_entry l e) in
    Served-bind l s pt kernel_flags run seen (entry_calls l e) (memmap_calls l es)
      (vmm_map_range-Served fuel l pt entry.base (u64 (entry.base + l.hhdm_offset)) entry.length run
        seen s fit inv there)
      λ _ t first.
        map_entries-Served fuel l pt run es (after (entry_calls l e) seen) t more first.ran.paging
          first.there

-- The page of an address, by the last call for it.
abbrev pub MappedBy : Limine → Pmm → (pt v : ℕ) → Option MapCall → Type 0
MappedBy l s pt v none = (e : PageTableEntry) → ¬ Maps l s.memory pt (page_index v) e
MappedBy l s pt v (some c) =
    (old : PageTableEntry) × FitsFields old
    × Maps l s.memory pt (page_index v) (map_entry c.phys_addr kernel_flags old)

-- The kernel's page tables after `vmm_init`.
pub record IsVmm (l : Limine) (s : Vmm) : Type 0 where
  pub paging : IsPaging l s.pmm s.kernel_pt
  pub mapped :
      (v : ℕ)
      → MappedBy l s.pmm s.kernel_pt v (last_call v (memmap_calls l l.entries ++ kernel_calls l))
  pub cr3 : s.cr3 ≡ sub64 s.kernel_pt l.hhdm_offset

After-MappedBy :
    (l : Limine) (t u : Pmm) (pt v : ℕ) (c : Option MapCall)
    → ((i : Indexes) (e : PageTableEntry) → ¬ Maps l t.memory pt i e)
    → After l t pt kernel_flags v c u
    → MappedBy l u pt v c
After-MappedBy l t u pt v none empty h = λ e m. empty (page_index v) e ((h e).1 m)
After-MappedBy l t u pt v (some c) empty h = h

-- The tables that the calls need, with the first.
abbrev pub tables_needed : Limine → ℕ
tables_needed l = 1 + tables_for [] (memmap_calls l l.entries ++ kernel_calls l)

-- Too few pages are free for the tables, with `run` more in a row behind them.
abbrev pub TooFew : Limine → Pmm → (run : ℕ) → Type 0
TooFew l s run = ¬ HasFree s run 0 (tables_needed l)

kernel_tables-Ends :
    (fuel : ℕ) (l : Limine) (s : Pmm) (run : ℕ)
    → IsPmm l s
    → s.bitmap_size * 8 * page_size + l.hhdm_offset < 2 ^ 64
    → s.bitmap_size * 8 ≤ 2 ^ 40
    → AllInFuel fuel l l.entries
    → InFuel fuel l.kernel_size
    → Ends
        (TooFew l s run)
        (λ pt s'.
          (IsPaging l s' pt
            × ((v : ℕ)
                → MappedBy l s' pt v (last_call v (memmap_calls l l.entries ++ kernel_calls l))))
          × Spent s (tables_needed l) s')
        (kernel_tables fuel l s)
unfolding kernel_tables
kernel_tables-Ends fuel l s run inv below physical fit fit' =
    let entries = memmap_calls l l.entries in
    let kernel = kernel_calls l in
    Ends-bind (new_pt-IsPaging l s inv below physical)
      (λ few h. few (HasFree-one s run 0 (HasFree-fewer s run (tables_needed l) 1 (omega arith) h)))
      λ pt t (paging, empty, spent).
        Ends-inner (map_entries fuel l pt l.entries t)
          (λ _ u.
            vmm_map_range fuel l pt l.kernel_physical_base l.kernel_virtual_base l.kernel_size
              kernel_flags u)
          (λ _ v. ok pt v)
          (Ends-bind
            (Served-bind l t pt kernel_flags run [] entries kernel
              (map_entries-Served fuel l pt run l.entries [] t fit paging tt)
              λ _ u first.
                vmm_map_range-Served fuel l pt l.kernel_physical_base l.kernel_virtual_base
                  l.kernel_size run (after entries []) u fit' first.ran.paging first.there)
            (Spent-few s t run 1 (tables_for [] (entries ++ kernel)) spent)
            λ _ v served. done (
              (served.ran.paging, λ a. After-MappedBy l t v pt a _ empty (served.ran.after a)),
              Spent-trans s t v 1 (tables_for [] (entries ++ kernel)) spent served.spent,
            ))

set_tables-Ends :
    {Few : Type 0} {P : ℕ → Pmm → Type 0} (l : Limine) (s : Vmm) {r : Run Pmm ℕ}
    → Ends Few P r
    → Ends Few
        (λ r s'. (r ≡ 0) × P s'.kernel_pt s'.pmm × (s'.cr3 ≡ sub64 s'.kernel_pt l.hhdm_offset))
        (set_tables l s r)
unfolding set_tables vmm_switch
set_tables-Ends l s (done p) = done (refl, p, refl)
set_tables-Ends l s (exhausted few) = exhausted few

-- `vmm_init` on a frame allocator at work, with more fuel than any range has pages and no range
-- within a page of 2^64, returns 0, or panics for want of memory, and then fewer pages were free than
-- the tables it needs, or no `run` pages in a row behind them. After it the kernel's page tables are
-- at work and loaded, and map the page of an address as the last call of `vmm_map` for it asked, over
-- the memory map in the direct map and then the kernel: the entry of the page is present, with that
-- call's physical page, and may be written and executed, and on the upper levels no entry is of a
-- large page or forbids execution, and those that are present may be written. A page of no call is not
-- mapped. No more of the first free pages were given out than there are tables: one for each first
-- part of an address that a call is the first to need.
pub vmm_init-IsVmm :
    (fuel : ℕ) (l : Limine) (s : Vmm) (run : ℕ)
    → IsPmm l s.pmm
    → s.pmm.bitmap_size * 8 * page_size + l.hhdm_offset < 2 ^ 64
    → s.pmm.bitmap_size * 8 ≤ 2 ^ 40
    → AllInFuel fuel l l.entries
    → InFuel fuel l.kernel_size
    → Ends
        (TooFew l s.pmm run)
        (λ r s'. (r ≡ 0) × IsVmm l s' × Spent s.pmm (tables_needed l) s'.pmm)
        (vmm_init fuel l s)
unfolding vmm_init
vmm_init-IsVmm fuel l s run inv below physical fit fit' =
    Ends-mono
      (set_tables-Ends l s (kernel_tables-Ends fuel l s.pmm run inv below physical fit fit'))
      (λ few. few)
      λ r s' (zero_result, ((paging, mapped), spent), loaded).
        (zero_result, record { paging = paging; mapped = mapped; cr3 = loaded }, spent)
