-- ===== src/Paging/Tables/Write.antt =====
-- The page tables of symphony/arch/x86_64/mm.c after the entry of a page was written.
use orchestr_os.Base.{
  ℕ, ◌+◌, ◌*◌, ◌≤◌, ◌<◌, ◌^◌, ◌≡◌, ◌≢◌, sym, ap, ◌∙◌, true, not, List, ◌⊎◌, inl, inr, arith,
}
use mathlib.Core.Path.{subst}
use native.Mathlib.Decide.{ℕ_discrete}
use orchestr_os.Base.Lists.{length}
use orchestr_os.Base.Word.{page_size}
use orchestr_os.Memory.{Mem, within}
use orchestr_os.Memory.Words.{store64, store64-outside, store64-bytes}
use orchestr_os.BootProto.{Limine}
use orchestr_os.Pmm.State.{Pmm, is_used}
use orchestr_os.Pmm.Pages.{Owned-write, is_used-write, IsPmm-write, outside_of}
use orchestr_os.Paging.Entry.{PageTableEntry, entry_word}
use orchestr_os.Paging.Walk.{read_entry, entry_at}
use orchestr_os.Paging.Walk.Present.{read-written}
use orchestr_os.Paging.Tables.{TableAt, IsTable, IsPaging}
use orchestr_os.Paging.Tables.Frame.{
  IsTable-entry, IsTable-apart, entry_bytes, read-same, TableAt-same, TableAt-back,
}
use orchestr_os.Paging.Tables.Next.{word_apart, in_word}
use orchestr_os.Paging.Tables.Grow.{Untouched}

some_page : (page size : ℕ) → page < size * 8 → 0 < size
some_page page size h = omega arith

module _ (l : Limine) (s : Pmm) (root : ℕ) (p : List ℕ) (t i : ℕ) (e : PageTableEntry)
    (inv : IsPaging l s root) (deep : length p ≡ 3) (at : TableAt l s.memory root p t)
    (lt : i < 512) (small : e.avl1 < 2 ^ 4) (small' : e.addr < 2 ^ 51) where
  abbrev to : ℕ
  to = entry_at t i

  abbrev m' : Mem
  m' = store64 s.memory to (entry_word e)

  abbrev s' : Pmm
  s' = record s { memory = m' }

  is : IsTable l s t
  is = inv.tables p t (omega (arith, deep)) at

  in_table : (a : ℕ) → within to 8 a ≡ true → within t page_size a ≡ true
  in_table a h = in_word t i to a (IsTable-entry i is inv.below lt) lt h

  -- The other entries are as they were.
  pub written-other :
      (q : List ℕ) (u j : ℕ)
      → length q ≤ 3
      → TableAt l s.memory root q u
      → j < 512
      → (u ≢ t) ⊎ (j ≢ i)
      → read_entry m' (entry_at u j) ≡ read_entry s.memory (entry_at u j)
  written-other q u j h there lt' differ =
      let is' = inv.tables q u h there in
      let at_j = IsTable-entry j is' inv.below lt' in
      read-same s.memory m' (entry_at u j) λ a lo hi.
        store64-outside s.memory to (entry_word e) a (elim (ℕ_discrete t u) [
          | no ne ↦
              outside_of to 8 a (within u page_size) (λ w. IsTable-apart a is is' ne (in_table a w))
                (entry_bytes u j (entry_at u j) a at_j lt' lo hi)
          | yes same ↦ elim differ [
            | inl ne ↦ absurd (ne (sym same))
            | inr ne ↦
                word_apart t i j (entry_at u j) to a (at_j ∙ ap (λ x. x + 8 * j) (sym same))
                  (IsTable-entry i is inv.below lt) ne lo hi
          ]
        ])

  pub written-entry : read_entry m' to ≡ e
  written-entry = read-written s.memory to e small small'

  on_the_way :
      (q : List ℕ) (u j : ℕ)
      → length q < 3
      → TableAt l s.memory root q u
      → j < 512
      → read_entry m' (entry_at u j) ≡ read_entry s.memory (entry_at u j)
  on_the_way q u j h there lt' = written-other q u j (omega (arith, h)) there lt' (
      inl λ same.
        let e' =
          inv.apart q p u (omega (arith, h)) (omega (arith, deep)) there
            (subst (λ x. TableAt l s.memory root p x) (sym same) at) in
        let n : length q ≡ length p = ap length e' in absurd (omega (arith, n, h, deep)))

  pub written-TableAt :
      (q : List ℕ) (u : ℕ) → length q ≤ 3 → TableAt l s.memory root q u → TableAt l m' root q u
  written-TableAt q u h there = TableAt-same l s.memory m' root q u 3 h on_the_way there

  pub written-back :
      (q : List ℕ) (u : ℕ) → length q ≤ 3 → TableAt l m' root q u → TableAt l s.memory root q u
  written-back q u h there = TableAt-back l s.memory m' root q u 3 h on_the_way there

  bitmap_same : (a : ℕ) → within s.bitmap s.bitmap_size a ≡ true → m' a ≡ s.memory a
  bitmap_same a h =
      store64-outside s.memory to (entry_word e) a
        (outside_of to 8 a (within s.bitmap s.bitmap_size) (λ w. is.apart a (in_table a w)) h)

  pub written_used : (k : ℕ) → k < s.bitmap_size * 8 → is_used s' k ≡ is_used s k
  written_used k h = is_used-write s m' bitmap_same k h

  pub written-IsPaging : IsPaging l s' root
  written-IsPaging = record {
    pmm =
        IsPmm-write l s m' inv.pmm (some_page is.page s.bitmap_size is.tracked)
          (store64-bytes s.memory to (entry_word e) inv.pmm.bytes) bitmap_same;
    below = inv.below;
    physical = inv.physical;
    tables = λ q u h there.
        let is' = inv.tables q u h (written-back q u h there) in
        record {
          page = is'.page;
          address = is'.address;
          tracked = is'.tracked;
          used = written_used is'.page is'.tracked ∙ is'.used;
          apart = is'.apart;
        };
    apart = λ q q' u h h' there there'.
        inv.apart q q' u h h' (written-back q u h there) (written-back q' u h' there');
    opens = λ q u j h there lt'.
        let old = written-back q u (omega (arith, h)) there in
        rw (on_the_way q u j (omega (arith, h)) old lt') (inv.opens q u j h old lt');
  }

  pub written_kept : (a : ℕ) → Untouched l s root a → Untouched l s' root a × (m' a ≡ s.memory a)
  written_kept a h = (
    record {
      owned = Owned-write l s m' a h.owned bitmap_same;
      no_table = λ q u short there. h.no_table q u short (written-back q u short there);
    },
    store64-outside s.memory to (entry_word e) a (
        outside_of to 8 a (λ x. not (within t page_size x)) (λ w. ap not (in_table a w))
          (ap not (h.no_table p t (omega (arith, deep)) at))),
  )
