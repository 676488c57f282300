-- ===== src/Vmm.antt =====
-- `vmm_map_range` of symphony/mm/vmm.c, as the calls of vmm_map that it makes.
pub mod Init
pub mod Needs
pub mod Calls
pub mod Served
pub mod Pages
mod Tests
use orchestr_os.Base.{
  ℕ, zero, suc, ◌+◌, ◌*◌, ◌/◌, ◌-◌, ◌^◌, ◌≤◌, ◌<◌, ◌≡◌, refl, true, ap, Option, none, some, List,
  [], ◌∷◌, ltb, if◌then◌else◌, arith,
}
use orchestr_os.Base.Word.{u64, page_size, align_up, align_up_page}

-- `vmm_map(pageTable, physAddr, virtAddr, flags)`, for one table and one set of flags.
pub record MapCall : Type 0 where
  pub phys_addr : ℕ
  pub virt_addr : ℕ

-- The call for the offset `i`.
abbrev pub map_call : (phys_addr virt_addr i : ℕ) → MapCall
map_call phys_addr virt_addr i = record {
  phys_addr = u64 (phys_addr + i);
  virt_addr = u64 (virt_addr + i);
}

-- The loop, from the offset `i` on; `none` means that the fuel ran out.
map_from : (phys_addr virt_addr size fuel i : ℕ) → Option (List MapCall)
map_from phys_addr virt_addr size zero i = none
map_from phys_addr virt_addr size (suc fuel) i =
    let rest = map_from phys_addr virt_addr size fuel (u64 (i + page_size)) in
    if ltb i size
    then elim rest [ none ↦ none | some calls ↦ some (map_call phys_addr virt_addr i ∷ calls) ]
    else some []

-- The aligned size is computed and thrown away, so the loop sees the size that was given.
pub map_range : (phys_addr virt_addr size fuel : ℕ) → Option (List MapCall)
unfolding map_from
map_range phys_addr virt_addr size fuel = map_from phys_addr virt_addr size fuel 0

-- `n` pages, one after the other, from the page number `k` of both ranges on.
unfoldable pub page_calls : (phys_addr virt_addr n k : ℕ) → List MapCall
page_calls phys_addr virt_addr zero k = []
page_calls phys_addr virt_addr (suc n) k =
    map_call phys_addr virt_addr (page_size * k) ∷ page_calls phys_addr virt_addr n (k + 1)

map_from-page_calls :
    (phys_addr virt_addr size n fuel k : ℕ)
    → size + page_size ≤ 2 ^ 64
    → n < fuel
    → size ≤ page_size * (k + n)
    → page_size * (k + n) < size + page_size
    → map_from phys_addr virt_addr size fuel (page_size * k)
      ≡ some (page_calls phys_addr virt_addr n k)
unfolding map_from page_calls
map_from-page_calls phys_addr virt_addr size n zero k h enough above below = absurd (omega arith)
map_from-page_calls phys_addr virt_addr size zero (suc fuel) k h enough above below = ground arith
map_from-page_calls phys_addr virt_addr size (suc n) (suc fuel) k h enough above below =
    let next : u64 (page_size * k + page_size) ≡ page_size * (k + 1) = omega arith in
    let more : ltb (page_size * k) size ≡ true = ground arith in
    let rest =
      map_from-page_calls phys_addr virt_addr size n fuel (k + 1) h (omega arith) (omega arith)
        (omega arith) in
    rw (map_from, more, next, rest) refl

-- `vmm_map_range` maps each page of the size rounded up to whole pages, in order and once, although
-- the rounded size is thrown away, where the size is not within a page of 2^64; one round more than
-- there are pages is enough for the loop.
pub map_range-page_calls :
    (phys_addr virt_addr size fuel : ℕ)
    → size + page_size ≤ 2 ^ 64
    → align_up size page_size / page_size < fuel
    → map_range phys_addr virt_addr size fuel
      ≡ some (page_calls phys_addr virt_addr (align_up size page_size / page_size) 0)
unfolding map_range
map_range-page_calls phys_addr virt_addr size fuel h enough =
    let (whole, above, below) = align_up_page size h in
    map_from-page_calls phys_addr virt_addr size (align_up size page_size / page_size) fuel 0 h
      enough (omega arith) (omega arith)
