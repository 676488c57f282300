-- ===== src/Vmm/Init.antt =====
-- `vmm_init` and `vmm_kernel_pt` of symphony/mm/vmm.c over the page tables of x86_64. The loop over the
-- memory map runs over the list of its entries; what is logged is left out.
pub mod Mapped
use orchestr_os.Base.{ℕ, ◌+◌, Option, none, some, List, [], ◌∷◌, ◌==◌, if◌then◌else◌}
use orchestr_os.Base.Word.{u64, sub64}
use orchestr_os.Base.Run.{Run, ok, halt, Cmd, followed_by, no_kernel_page_table, out_of_fuel}
use orchestr_os.BootProto.{Limine, LimineMemmapEntry, memmap_entry}
use orchestr_os.Pmm.State.{Pmm}
use orchestr_os.Pmm.Init.{skip_page_zero}
use orchestr_os.Paging.Walk.{new_pt, vmm_map}
use orchestr_os.Vmm.{MapCall, map_range}

-- `kernelPT`, the register that `vmm_switch` loads, and the frame allocator below.
pub record Vmm : Type 0 where
  pub pmm : Pmm
  pub kernel_pt : ℕ
  pub cr3 : ℕ

-- VMM_PRESENT | VMM_RWX
abbrev pub kernel_flags : ℕ
kernel_flags = 7

unfoldable pub run_calls : Limine → (pt flags : ℕ) → List MapCall → Cmd Pmm (Unit {0})
run_calls l pt flags [] s = ok tt s
run_calls l pt flags (c ∷ cs) s =
    followed_by (vmm_map l pt c.phys_addr c.virt_addr flags s) λ _ t. run_calls l pt flags cs t

-- The calls of a range, if the fuel was enough to list them.
unfoldable pub run_range : Limine → (pt flags : ℕ) → Option (List MapCall) → Cmd Pmm (Unit {0})
run_range l pt flags none s = halt out_of_fuel
run_range l pt flags (some calls) s = run_calls l pt flags calls s

-- `vmm_map_range`, whose calls do not depend on the state.
unfoldable pub vmm_map_range :
    (fuel : ℕ) → Limine → (pt phys_addr virt_addr size flags : ℕ) → Cmd Pmm (Unit {0})
vmm_map_range fuel l pt phys_addr virt_addr size flags s =
    run_range l pt flags (map_range phys_addr virt_addr size fuel) s

-- The loop over the memory map, which maps each entry at its place in the direct map.
unfoldable pub map_entries :
    (fuel : ℕ) → Limine → (pt : ℕ) → List LimineMemmapEntry → Cmd Pmm (Unit {0})
map_entries fuel l pt [] s = ok tt s
map_entries fuel l pt (e ∷ es) s =
    let entry = skip_page_zero (memmap_entry l e) in
    followed_by
      (vmm_map_range fuel l pt entry.base (u64 (entry.base + l.hhdm_offset)) entry.length
        kernel_flags s)
      λ _ t. map_entries fuel l pt es t

-- The kernel's page tables: the memory map, then the kernel itself.
unfoldable pub kernel_tables : (fuel : ℕ) → Limine → Cmd Pmm ℕ
kernel_tables fuel l s = followed_by (new_pt l s) λ pt t.
    followed_by (map_entries fuel l pt l.entries t) λ _ u.
      followed_by
        (vmm_map_range fuel l pt l.kernel_physical_base l.kernel_virtual_base l.kernel_size
          kernel_flags u)
        λ _ v. ok pt v

-- `vmm_switch` loads the physical address of the table.
unfoldable pub vmm_switch : Limine → (pt : ℕ) → Vmm → Vmm
vmm_switch l pt s = record s { cr3 = sub64 pt l.hhdm_offset }

unfoldable pub set_tables : Limine → Vmm → Run Pmm ℕ → Run Vmm ℕ
unfolding vmm_switch
set_tables l s (ok pt p) = ok 0 (vmm_switch l pt (record s { pmm = p; kernel_pt = pt }))
set_tables l s (halt e) = halt e

unfoldable pub vmm_init : (fuel : ℕ) → Limine → Cmd Vmm ℕ
vmm_init fuel l s = set_tables l s (kernel_tables fuel l s.pmm)

unfoldable pub vmm_kernel_pt : Cmd Vmm ℕ
vmm_kernel_pt s = if s.kernel_pt == 0 then halt no_kernel_page_table else ok s.kernel_pt s
