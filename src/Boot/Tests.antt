-- ===== src/Boot/Tests.antt =====
-- The boot of a machine with 64 pages, which has memory enough.
use orchestr_os.Base.{
  ◌≤◌, ◌≢◌, ◌∙◌, ◌==◌, ◌||◌, not, leb, Bool-cases, ℕ, zero, suc, ◌+◌, ◌<◌, ◌≡◌, refl, inl, inr,
  true, false, arith,
}
use orchestr_os.Base.Word.{align_up}
use orchestr_os.BootProto.{memmap_entry, memmap_type}
use orchestr_os.Pmm.Init.Usable.{usable_page}
use orchestr_os.Pmm.Init.{skip_page_zero}
use orchestr_os.Pmm.Init.Ready.{InitialPages}
use orchestr_os.Pmm.State.{Pmm, is_used}
use orchestr_os.Pmm.Room.{Ends, HasFree, HasFree-down, Ends-Returns}
use orchestr_os.Base.Run.{Returns}
use orchestr_os.Memory.{within}
use orchestr_os.Vmm.Init.Mapped.{tables_needed}
use orchestr_os.Vmm.{page_calls}
use orchestr_os.Boot.{start}
use orchestr_os.Boot.Memory.{LowMemory}
use orchestr_os.Boot.Started.{IsStarted, start-IsStarted}
use orchestr_os.Boot.Machine.{
  usable_entry, limine, platform, loaded, platform-IsPlatform, loaded-IsLoaded,
}

start-IsStarted_example :
    Ends
      (LowMemory limine usable_entry)
      (λ _ k'. IsStarted platform loaded k')
      (start platform loaded)
start-IsStarted_example =
    start-IsStarted platform 1 usable_entry loaded platform-IsPlatform loaded-IsLoaded

seven_tables : tables_needed limine ≡ 7
unfolding align_up skip_page_zero memmap_entry memmap_type page_calls
seven_tables = refl

other_page :
    (k b : ℕ)
    → 0 < k
    → k < 64
    → k ≢ b
    → (k == 0 || within b 1 k || not (within 1 63 k || false)) ≡ false
other_page k b pos lt ne = ground (arith, pos, lt, ne)

-- Pages 1 to 63 are free after `pmm_init`, but for the page of the bitmap.
free_page :
    (s : Pmm) (initial : InitialPages limine s)
    → s.bitmap_size ≡ 8
    → (k : ℕ) → 0 < k
    → k < 64
    → k ≢ initial.bitmap_page
    → is_used s k ≡ false
unfolding usable_page memmap_entry memmap_type align_up
free_page s initial sz k pos lt ne =
    initial.pages k (rw sz lt) ∙ rw sz (other_page k initial.bitmap_page pos lt ne)

-- Free pages from `from` on, and a run behind them.
free_pages :
    (s : Pmm) (initial : InitialPages limine s)
    → s.bitmap_size ≡ 8
    → (from n : ℕ) → 0 < from
    → from + n + 16 ≤ 64
    → ((k : ℕ) → from ≤ k → k < from + n + 16 → k ≢ initial.bitmap_page)
    → HasFree s 16 from n
free_pages s initial sz from zero pos fits apart = (
  from,
  omega arith,
  rw sz (omega (arith, fits)),
  λ k lo hi.
      free_page s initial sz k (omega (arith, pos, lo)) (omega (arith, hi, fits))
        (apart k lo (omega (arith, hi))),
)
free_pages s initial sz from (suc n) pos fits apart = (
  from,
  omega arith,
  rw sz (omega (arith, fits)),
  free_page s initial sz from pos (omega (arith, fits)) (apart from (omega arith) (omega arith)),
  free_pages s initial sz (from + 1) n (omega arith) (omega (arith, fits))
      (λ k lo hi. apart k (omega (arith, lo)) (omega (arith, hi))),
)

enough_memory : ¬ LowMemory limine usable_entry
unfolding align_up
enough_memory (s, initial, sz, few) = few (
    rw (seven_tables) (elim (Bool-cases (leb 24 initial.bitmap_page)) [
      | inl behind ↦ HasFree-down s 16 1 0 7 (omega arith) (
          free_pages s initial sz 1 7 (omega arith) (omega arith)
            (λ k lo hi. differ_low k initial.bitmap_page hi behind))
      | inr before ↦ HasFree-down s 16 24 0 7 (omega arith) (
          free_pages s initial sz 24 7 (omega arith) (omega arith)
            (λ k lo hi. differ_high k initial.bitmap_page lo before))
    ]))
  where
    differ_low : (k b : ℕ) → k < 24 → leb 24 b ≡ true → k ≢ b
    differ_low k b h h' e = ground (arith, h, h', e)

    differ_high : (k b : ℕ) → 24 ≤ k → leb 24 b ≡ false → k ≢ b
    differ_high k b h h' e = ground (arith, h, h', e)

-- This machine has memory enough: it comes up.
comes_up : Returns (λ _ k'. IsStarted platform loaded k') (start platform loaded)
comes_up =
    Ends-Returns
      (start-IsStarted platform 1 usable_entry loaded platform-IsPlatform loaded-IsLoaded)
      enough_memory
