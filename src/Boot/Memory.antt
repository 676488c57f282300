-- ===== src/Boot/Memory.antt =====
-- The set-up of the memory by `_start` of symphony/kernel.c: frame allocator, page tables and heap.
use orchestr_os.Base.{
  arith, ℕ, ◌+◌, ◌≤◌, ◌<◌, ◌^◌, ◌≡◌, sym, ap, ◌∙◌, true, Option, none, some, [], ◌∷◌, ◌++◌,
}
use mathlib.Core.Path.{subst}
use orchestr_os.Base.Run.{ok, followed_by, pmm_init_failed, vmm_init_failed, kheap_init_failed}
use orchestr_os.Base.Word.{sub64}
use orchestr_os.BootProto.{Limine, LimineMemmapEntry}
use orchestr_os.Pmm.State.{Pmm}
use orchestr_os.Pmm.Frames.Laws.{IsPmm}
use orchestr_os.Pmm.Pages.{KeepsPages}
use orchestr_os.Pmm.Room.{HasFree, Spent, Ends, done, Ends-bind, Ends-mono, Returns-Ends}
use orchestr_os.Pmm.Init.LastPage.{end_page}
use orchestr_os.Pmm.Init.Ready.{
  IsMemmap, InitialPages, bitmap_bytes, init-Sized, size_below, size_physical,
}
use orchestr_os.Paging.Index.{page_index}
use orchestr_os.Paging.Tables.{IsPaging}
use orchestr_os.Paging.Tables.Map.{page_index-IsIndexes}
use orchestr_os.Paging.Tables.Keep.{kept-IsPaging, Maps-kept}
use orchestr_os.X86.Idt.{interrupt_init}
use orchestr_os.Vmm.{MapCall}
use orchestr_os.Vmm.Init.{vmm_init}
use orchestr_os.Vmm.Calls.{last_call}
use orchestr_os.Vmm.Init.Mapped.{
  InFuel, AllInFuel, memmap_calls, kernel_calls, MappedBy, IsVmm, TooFew, tables_needed,
  vmm_init-IsVmm,
}
use orchestr_os.KHeap.{KHeap, kheap_init, kheap_init_pages}
use orchestr_os.KHeap.Append.{new_block}
use orchestr_os.KHeap.Init.{size}
use orchestr_os.KHeap.Invariant.{IsKHeap}
use orchestr_os.KHeap.Ready.{kheap_init-Ends}
use orchestr_os.Base.Text.{codes}
use orchestr_os.Serial.{Ports}
use orchestr_os.Serial.Laws.{Spoke, Spoke-trans}
use orchestr_os.Boot.Print.{Empties, Says-trans, Says-Empties, Spoke-Empties, log_at-Says}
use orchestr_os.Boot.{
  run_pmm_init, run_vmm_init, log_at, loglevel_info, Platform, Kernel, on_vmm, on_kheap, expect,
  arch_init_early, init_memory, vmm_of,
}
use orchestr_os.Boot.Rest.{
  SameRest, SameRest-trans, with_ports-SameRest, on_pmm-Ends, on_vmm-Ends, on_kheap-Ends,
  expect-Ends, logged,
}

-- A platform on which the kernel can come up: a memory map of sorted whole pages with room for the
-- bitmap, whose last usable entry, `e` at index `i`, is not the first entry; physical addresses of 52
-- bits, ranges within the fuel, 64-bit addresses of the tables and stubs, and a base revision that the
-- bootloader supports.
pub record IsPlatform (p : Platform) (i : ℕ) (e : LimineMemmapEntry) : Type 0 where
  pub memmap : IsMemmap p.limine i e
  pub physical : end_page e + 8 ≤ 2 ^ 40
  pub entries : AllInFuel p.fuel p.limine p.limine.entries
  pub kernel : InFuel p.fuel p.limine.kernel_size
  pub idt : p.idt_address < 2 ^ 64
  pub stubs : (n : ℕ) → p.isr n < 2 ^ 64
  pub supported : p.base_revision_supported ≡ true

-- The page tables and the heap after the components that manage memory were set up.
pub record HasMemory (l : Limine) (k : Kernel) : Type 0 where
  pub paging : IsPaging l k.kheap.pmm k.kernel_pt
  pub mapped :
      (v : ℕ)
      → MappedBy l k.kheap.pmm k.kernel_pt v
          (last_call v (memmap_calls l l.entries ++ kernel_calls l))
  pub cr3 : k.cr3 ≡ sub64 k.kernel_pt l.hhdm_offset
  pub heap : (a : ℕ) × IsKHeap l k.kheap (new_block a size ∷ [])

-- When the frame allocator is set up, fewer pages are free than the page tables need, or no 16 in a
-- row for the heap behind them.
abbrev pub LowMemory : Limine → LimineMemmapEntry → Type 0
LowMemory l e =
    (s : Pmm) × InitialPages l s × (s.bitmap_size ≡ bitmap_bytes e) × TooFew l s kheap_init_pages

-- The map of pages while the heap is set up.
MappedBy-kept :
    (l : Limine) (s s' : Pmm) (pt v : ℕ) (c : Option MapCall)
    → IsPaging l s pt
    → IsPmm l s'
    → KeepsPages l s s'
    → MappedBy l s pt v c
    → MappedBy l s' pt v c
MappedBy-kept l s s' pt v none inv pmm' keeps h =
    λ e m. h e ((Maps-kept l s s' pt inv pmm' keeps (page_index v) e (page_index-IsIndexes v)).1 m)
MappedBy-kept l s s' pt v (some c) inv pmm' keeps (old, fits, m) =
    (old, fits, (Maps-kept l s s' pt inv pmm' keeps (page_index v) _ (page_index-IsIndexes v)).0 m)

kheap-HasMemory :
    (l : Limine) (k k' : Kernel)
    → IsVmm l (vmm_of k)
    → ((a : ℕ) × IsKHeap l k'.kheap (new_block a size ∷ []))
    → KeepsPages l k.kheap.pmm k'.kheap.pmm
    → k'.kernel_pt ≡ k.kernel_pt
    → k'.cr3 ≡ k.cr3
    → HasMemory l k'
kheap-HasMemory l k k' vmm (a, heap) keeps pt cr3 = record {
  paging =
      subst (λ x. IsPaging l k'.kheap.pmm x) (sym pt)
        (kept-IsPaging l k.kheap.pmm k'.kheap.pmm k.kernel_pt vmm.paging heap.pmm keeps);
  mapped = λ v.
      subst
        (λ x.
          MappedBy l k'.kheap.pmm x v (last_call v (memmap_calls l l.entries ++ kernel_calls l)))
        (sym pt)
        (MappedBy-kept l k.kheap.pmm k'.kheap.pmm k.kernel_pt v _ vmm.paging heap.pmm keeps
          (vmm.mapped v));
  cr3 = cr3 ∙ vmm.cr3 ∙ ap (λ x. sub64 x l.hhdm_offset) (sym pt);
  heap = (a, heap);
}

-- What the set-up of the memory has left.
pub record IsReady (p : Platform) (k k' : Kernel) : Type 0 where
  pub memory : HasMemory p.limine k'
  pub tables : k'.tables ≡ k.tables
  pub spoke : Spoke k.ports k'.ports
  pub interrupts : k'.interrupts ≡ interrupt_init p.idt_address p.isr k.interrupts

module _ (p : Platform) (i : ℕ) (e : LimineMemmapEntry) (is : IsPlatform p i e) where
  abbrev l : Limine
  l = p.limine

  abbrev Allocator : KHeap → (kernel_pt cr3 : ℕ) → Type 0
  Allocator heap pt cr3 =
      InitialPages l heap.pmm × IsPmm l heap.pmm × (heap.pmm.bitmap_size ≡ bitmap_bytes e)

  abbrev Mapped : Pmm → KHeap → (kernel_pt cr3 : ℕ) → Type 0
  Mapped s heap pt cr3 =
      IsVmm l (record { pmm = heap.pmm; kernel_pt = pt; cr3 = cr3 })
      × Spent s (tables_needed l) heap.pmm

  pmm_init-Ends :
      (k : Kernel)
      → Empties p k
      → ((a : ℕ) → k.kheap.pmm.memory a < 256)
      → Ends
          (LowMemory l e)
          (λ _ k'. Allocator k'.kheap k'.kernel_pt k'.cr3 × SameRest k k')
          (expect pmm_init_failed (run_pmm_init p k))
  unfolding run_pmm_init
  pmm_init-Ends k empties bytes = expect-Ends pmm_init_failed (
      Ends-bind (on_pmm-Ends k (Returns-Ends (init-Sized l i e is.memmap k.kheap.pmm bytes)))
        (λ few. few)
        λ r k1 ((zero_result, initial, inv, sz), same).
          Ends-mono
            (logged Allocator p k k1 loglevel_info (codes "PMM initialized\n") r empties zero_result
              (initial, inv, sz) same)
            (λ few. few) λ r' k' (zero_result', initial', same'). (zero_result', (initial', same')))

  -- `vmm_init` behind what it logs on its way.
  Mapped-Ends :
      (k : Kernel) (q : Ports)
      → Empties p k
      → Spoke k.ports q
      → IsPmm l k.kheap.pmm
      → k.kheap.pmm.bitmap_size ≡ bitmap_bytes e
      → Ends
          (TooFew l k.kheap.pmm kheap_init_pages)
          (λ r k'. (r ≡ 0) × Mapped k.kheap.pmm k'.kheap k'.kernel_pt k'.cr3 × SameRest k k')
          (followed_by
            (on_vmm (record k { ports = q }) (vmm_init p.fuel l (vmm_of (record k { ports = q }))))
            λ status k3.
              followed_by
                (log_at p loglevel_info (codes "VMM Initialized\n") [] k3)
                λ _ k4. ok status k4)
  Mapped-Ends k q empties spoke inv sz =
      let k2 : Kernel = record k { ports = q } in
      Ends-bind
        (on_vmm-Ends k2 (
          vmm_init-IsVmm p.fuel l (vmm_of k2) kheap_init_pages inv
            (rw sz (size_below l i e is.memmap)) (rw sz (size_physical l i e is.memmap is.physical))
            is.entries is.kernel))
        (λ few. few)
        λ r k3 ((zero_result, vmm, spent), same).
          logged (Mapped k.kheap.pmm) p k k3 loglevel_info (codes "VMM Initialized\n") r empties
            zero_result (vmm, spent) (SameRest-trans k k2 k3 (with_ports-SameRest k q spoke) same)

  tables-Ends :
      (k : Kernel)
      → Empties p k
      → IsPmm l k.kheap.pmm
      → k.kheap.pmm.bitmap_size ≡ bitmap_bytes e
      → Ends
          (TooFew l k.kheap.pmm kheap_init_pages)
          (λ _ k'. Mapped k.kheap.pmm k'.kheap k'.kernel_pt k'.cr3 × SameRest k k')
          (expect vmm_init_failed (run_vmm_init p k))
  unfolding run_vmm_init
  tables-Ends k empties inv sz = expect-Ends vmm_init_failed (
      Ends-bind (Returns-Ends (log_at-Says p _ _ _ k empties)) (λ few. few)
        λ _ k1 a.
          Ends-bind (Returns-Ends (log_at-Says p _ _ _ k1 (Says-Empties p k k1 a empties)))
            (λ few. few)
            λ _ k2 b.
              let (q, spoke, e2) = Says-trans k k1 k2 a b in
              subst
                (λ (x : Kernel).
                  Ends (TooFew l k.kheap.pmm kheap_init_pages)
                    (λ r k'.
                      (r ≡ 0) × (Mapped k.kheap.pmm k'.kheap k'.kernel_pt k'.cr3 × SameRest k k'))
                    (followed_by (on_vmm x (vmm_init p.fuel l (vmm_of x))) λ status k3.
                      followed_by (log_at p loglevel_info (codes "VMM Initialized\n") [] k3)
                        λ _ k4. ok status k4))
                (sym e2)
                (Ends-mono (Mapped-Ends k q empties spoke inv sz) (λ few. few)
                  λ r k' (zero_result, vmm, same). (zero_result, (vmm, same))))

  heap-Ends :
      (k : Kernel)
      → IsVmm l (vmm_of k)
      → Ends
          (¬ HasFree k.kheap.pmm kheap_init_pages 0 0)
          (λ _ k'. HasMemory l k' × SameRest k k')
          (expect kheap_init_failed (on_kheap k (kheap_init l k.kheap)))
  heap-Ends k vmm = expect-Ends kheap_init_failed (
      Ends-mono (on_kheap-Ends k (kheap_init-Ends l k.kheap vmm.paging.pmm vmm.paging.below))
        (λ few (b, lo, fits, free). few b fits free)
        λ r k' ((zero_result, heap, keeps), same, pt, cr3).
          (zero_result, (kheap-HasMemory l k k' vmm heap keeps pt cr3, same)))

  pub init_memory-Ends :
      (k : Kernel)
      → Empties p k
      → ((a : ℕ) → k.kheap.pmm.memory a < 256)
      → Ends (LowMemory l e) (λ _ k'. IsReady p k k') (init_memory p k)
  unfolding init_memory arch_init_early expect
  init_memory-Ends k empties bytes =
      Ends-bind (pmm_init-Ends k empties bytes) (λ few. few)
        λ _ k1 ((initial, inv, sz), same1).
          let k2 : Kernel = record k1 {
            interrupts = interrupt_init p.idt_address p.isr k1.interrupts;
          } in
          Ends-bind (tables-Ends k2 (Spoke-Empties p k k1 same1.spoke empties) inv sz)
            (λ few. (k1.kheap.pmm, initial, sz, few))
            λ _ k3 ((vmm, spent), same3).
              Ends-bind (heap-Ends k3 vmm)
                (λ few. (
                  k1.kheap.pmm,
                  initial,
                  sz,
                  λ h. few (spent kheap_init_pages 0 (tables_needed l) (omega arith) h),
                ))
                λ _ k4 (memory, same4). done record {
                  memory = memory;
                  tables = same4.tables ∙ same3.tables ∙ same1.tables;
                  spoke =
                      Spoke-trans k.ports k1.ports k4.ports same1.spoke
                        (Spoke-trans k2.ports k3.ports k4.ports same3.spoke same4.spoke);
                  interrupts =
                      same4.interrupts
                      ∙ same3.interrupts
                      ∙ ap (λ x. interrupt_init p.idt_address p.isr x) same1.interrupts;
                }
