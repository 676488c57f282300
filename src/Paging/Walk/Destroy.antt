-- ===== src/Paging/Walk/Destroy.antt =====
-- `arch_vmm_destroy_pt` of symphony/arch/x86_64/mm.c on a table without lower half.
use orchestr_os.Base.{ℕ, zero, suc, ◌+◌, ◌≤◌, ◌<◌, ◌≡◌, Bool, refl, true, false, ◌&&◌, arith}
use orchestr_os.Base.Run.{Cmd, ok}
use orchestr_os.Base.Word.{sub64}
use orchestr_os.BootProto.{Limine}
use orchestr_os.Pmm.State.{Pmm}
use orchestr_os.Pmm.Frames.{free}
use orchestr_os.Paging.Walk.{read_entry, entry_at, free_tables, destroy_pt}

free_tables-none :
    (l : Limine) (there : Bool) (inner : ℕ → Cmd Pmm (Unit {0})) (pt left i : ℕ) (s : Pmm)
    → ((j : ℕ) → i ≤ j → j < i + left → (read_entry s.memory (entry_at pt j)).present ≡ false)
    → free_tables l there inner pt left i s ≡ ok tt s
unfolding free_tables
free_tables-none l there inner pt zero i s none = refl
free_tables-none l there inner pt (suc left) i s none =
    let skipped : (there && (read_entry s.memory (entry_at pt i)).present) ≡ false =
      and_false there (none i (omega arith) (omega arith)) in
    rw (skipped) (
      free_tables-none l there inner pt left (i + 1) s
        (λ j lo hi. none j (omega (arith, lo)) (omega (arith, hi))))
  where
    and_false : {b : Bool} (a : Bool) → b ≡ false → (a && b) ≡ false
    and_false true e = e
    and_false false e = refl

-- `arch_vmm_destroy_pt` of a table whose first 256 entries are not present frees the page of the table
-- and no other.
pub destroy_pt-empty :
    (l : Limine) (pt : ℕ) (s : Pmm)
    → ((j : ℕ) → j < 256 → (read_entry s.memory (entry_at pt j)).present ≡ false)
    → destroy_pt l pt s ≡ free l (sub64 pt l.hhdm_offset) 1 s
unfolding destroy_pt
destroy_pt-empty l pt s none =
    rw (free_tables-none l true _ pt 256 0 s (λ j lo hi. none j (omega (arith, hi)))) refl
