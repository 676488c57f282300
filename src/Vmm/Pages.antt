-- ===== src/Vmm/Pages.antt =====
-- A range of pages mapped by symphony/mm/vmm.c has one call for each page.
use orchestr_os.Base.{
  ℕ, zero, suc, ◌+◌, ◌*◌, ◌/◌, ◌%◌, ◌^◌, ◌≤◌, ◌<◌, ◌≡◌, ◌≢◌, refl, sym, ap, ◌∙◌, true, false, none,
  some, ◌==◌, arith,
}
use mathlib.Core.Path.{subst}
use native.Mathlib.Decide.{ℕ_discrete}
use orchestr_os.Base.Word.{u64, page_size}
use orchestr_os.BootProto.{Limine}
use orchestr_os.Pmm.Frames.Laws.{IsPmm}
use orchestr_os.Pmm.Room.{Ends, Ends-mono}
use orchestr_os.Vmm.{map_call, page_calls}
use orchestr_os.Vmm.Calls.{same_page, or_else, last_call, last_call-append}
use orchestr_os.Vmm.Init.{Vmm, vmm_init}
use orchestr_os.Vmm.Init.Mapped.{
  pages_of, InFuel, AllInFuel, memmap_calls, kernel_calls, MappedBy, TooFew, vmm_init-IsVmm,
}

other_page :
    (virt_addr k j : ℕ)
    → k < j
    → j < k + 2 ^ 36
    → same_page (u64 (virt_addr + page_size * k)) (u64 (virt_addr + page_size * j)) ≡ false
other_page virt_addr k j h h' = differ _ _ (apart virt_addr k j h h')
  where
    differ : (x y : ℕ) → x ≢ y → (x == y) ≡ false
    differ x y ne = ground (arith, ne)

    apart :
        (virt_addr k j : ℕ)
        → k < j
        → j < k + 2 ^ 36
        → u64 (virt_addr + page_size * k) / 2 ^ 12 % 2 ^ 36
          ≢ u64 (virt_addr + page_size * j) / 2 ^ 12 % 2 ^ 36
    apart virt_addr k j h h' e = omega (arith, h, h', e)

no_call :
    (phys_addr virt_addr n k j : ℕ)
    → j < k
    → k + n ≤ j + 2 ^ 36
    → last_call (u64 (virt_addr + page_size * j)) (page_calls phys_addr virt_addr n k) ≡ none
unfolding page_calls
no_call phys_addr virt_addr zero k j h h' = refl
no_call phys_addr virt_addr (suc n) k j h h' =
    rw
      (
        no_call phys_addr virt_addr n (k + 1) j (omega arith) (omega (arith, h')),
        other_page virt_addr j k h (omega (arith, h')),
      )
      refl

first_call :
    (phys_addr virt_addr n k : ℕ)
    → suc n ≤ 2 ^ 36
    → last_call (u64 (virt_addr + page_size * k)) (page_calls phys_addr virt_addr (suc n) k)
      ≡ some (map_call phys_addr virt_addr (page_size * k))
unfolding page_calls
first_call phys_addr virt_addr n k few =
    rw
      (
        no_call phys_addr virt_addr n (k + 1) k (omega arith) (omega (arith, few)),
        same (u64 (virt_addr + page_size * k) / 2 ^ 12 % 2 ^ 36),
      )
      refl
  where
    same : (x : ℕ) → (x == x) ≡ true
    same x = ground arith

the_call :
    (phys_addr virt_addr n k j : ℕ)
    → k ≤ j
    → j < k + n
    → n ≤ 2 ^ 36
    → last_call (u64 (virt_addr + page_size * j)) (page_calls phys_addr virt_addr n k)
      ≡ some (map_call phys_addr virt_addr (page_size * j))
unfolding page_calls
the_call phys_addr virt_addr zero k j lo hi few = absurd (omega (arith, lo, hi))
the_call phys_addr virt_addr (suc n) k j lo hi few = elim (ℕ_discrete j k) [
  | no ne ↦
      rw
        (the_call phys_addr virt_addr n (k + 1) j (omega (arith, lo, ne)) (omega (arith, hi))
          (omega (arith, few)))
        refl
  | yes e ↦
      subst
        (λ x.
          last_call (u64 (virt_addr + page_size * x)) (page_calls phys_addr virt_addr (suc n) k)
          ≡ some (map_call phys_addr virt_addr (page_size * x)))
        (sym e) (first_call phys_addr virt_addr n k few)
]

-- `vmm_init` on a frame allocator at work, with more fuel than any range has pages and no range
-- within a page of 2^64, returns, or panics because fewer pages are free than the tables it needs. When
-- it returns, it has mapped every page of as many bytes as the kernel's file has, if these are at most
-- 2^36 pages: from the kernel's virtual base on, to the page at the same distance from its physical
-- base. Pages of the kernel in memory behind the size of its file are not in this.
pub vmm_init-kernel :
    (fuel : ℕ) (l : Limine) (s : Vmm)
    → IsPmm l s.pmm
    → s.pmm.bitmap_size * 8 * page_size + l.hhdm_offset < 2 ^ 64
    → s.pmm.bitmap_size * 8 ≤ 2 ^ 40
    → AllInFuel fuel l l.entries
    → InFuel fuel l.kernel_size
    → pages_of l.kernel_size ≤ 2 ^ 36
    → Ends
        (TooFew l s.pmm 0)
        (λ _ s'.
          (j : ℕ)
          → j < pages_of l.kernel_size
          → MappedBy l s'.pmm s'.kernel_pt
              (u64 (l.kernel_virtual_base + page_size * j))
              (some (map_call l.kernel_physical_base l.kernel_virtual_base (page_size * j))))
        (vmm_init fuel l s)
vmm_init-kernel fuel l s inv below physical fit fit' few =
    Ends-mono (vmm_init-IsVmm fuel l s 0 inv below physical fit fit') (λ f. f)
      λ _ s' (_, is, spent) j h.
        let v = u64 (l.kernel_virtual_base + page_size * j) in
        let last =
          the_call l.kernel_physical_base l.kernel_virtual_base (pages_of l.kernel_size) 0 j
            (omega arith) (omega (arith, h)) few in
        subst (λ o. MappedBy l s'.pmm s'.kernel_pt v o)
          (last_call-append v (memmap_calls l l.entries) (kernel_calls l)
            ∙ ap (λ o. or_else o (last_call v (memmap_calls l l.entries))) last)
          (is.mapped v)
