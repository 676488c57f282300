-- ===== src/Paging/Tables/Next.antt =====
-- `page_from_index` of symphony/arch/x86_64/mm.c makes a missing table: what it writes.
use orchestr_os.Base.{
  refl, ℕ, ◌+◌, ◌*◌, ◌/◌, ◌%◌, ◌≤◌, ◌<◌, ◌^◌, ◌≡◌, ◌≢◌, sym, ap, ◌∙◌, true, false, List, ◌⊎◌, inl,
  inr, arith, if◌then◌else◌,
}
use native.Mathlib.Decide.{ℕ_discrete}
use orchestr_os.Base.Lists.{length}
use orchestr_os.Base.Word.{u64, sub64, page_size}
use orchestr_os.Memory.{Mem, within, memset}
use orchestr_os.Memory.Block.{memset_lem}
use orchestr_os.Memory.Words.{store64, store64-outside, store64-bytes}
use orchestr_os.BootProto.{Limine}
use orchestr_os.Pmm.State.{Pmm, is_used}
use orchestr_os.Pmm.Frames.Laws.{IsPmm, Allocated}
use orchestr_os.Pmm.Pages.{true_ne_false, is_used-write, IsPmm-write, outside_of}
use orchestr_os.Paging.Entry.{PageTableEntry, Opens, entry_word}
use orchestr_os.Paging.Walk.{read_entry, entry_at, table_of}
use orchestr_os.Paging.Walk.NewTable.{
  memset-empty, memset-Opens, cleared_same, table-IsPmm, fits, some_tracked,
}
use orchestr_os.Paging.Walk.Present.{read-written, read_entry-bounds}
use orchestr_os.Paging.Tables.{Link, TableAt, IsTable, IsPaging}
use orchestr_os.Paging.Tables.Frame.{
  IsTable-entry, IsTable-apart, pages_apart, entry_bytes, read-same,
}
use orchestr_os.Paging.Tables.Made.{Made}

-- What the entry of a new table holds.
abbrev pub linked : Limine → (table : ℕ) → PageTableEntry → PageTableEntry
linked l table e = record e {
  addr = sub64 table l.hhdm_offset / 2 ^ 12 % 2 ^ 51;
  present = true;
  read_write = true;
  user_supervisor = true;
}

table_back :
    (base page hhdm tracked : ℕ)
    → base ≡ page * page_size
    → page + 1 ≤ tracked
    → tracked ≤ 2 ^ 40
    → tracked * page_size + hhdm < 2 ^ 64
    → u64 (sub64 (base + hhdm) hhdm / 2 ^ 12 % 2 ^ 51 * 2 ^ 12 + hhdm) ≡ base + hhdm
table_back base page hhdm tracked e lt small below = omega arith

same_page : (k j hhdm t u : ℕ) → t ≡ k * page_size + hhdm → u ≡ j * page_size + hhdm → t ≡ u → k ≡ j
same_page k j hhdm t u e e' h = omega arith

pub word_apart :
    (t i j at to a : ℕ)
    → at ≡ t + 8 * j
    → to ≡ t + 8 * i
    → j ≢ i
    → at ≤ a
    → a < at + 8
    → within to 8 a ≡ false
word_apart t i j at to a e e' ne lo hi = ground (arith, e, e', ne, lo, hi)

pub in_word :
    (t i at a : ℕ) → at ≡ t + 8 * i → i < 512 → within at 8 a ≡ true → within t page_size a ≡ true
in_word t i at a e h w = ground (arith, e, h, w)

small_field : (n : ℕ) → n % 2 ^ 51 < 2 ^ 51
small_field n = omega arith

entry_below : (t i : ℕ) → t + page_size < 2 ^ 64 → i < 512 → entry_at t i ≡ t + 8 * i
entry_below t i h lt = omega arith

pub one_page : (n a : ℕ) → within n page_size a ≡ true → within n (1 * page_size) a ≡ true
one_page n a h = h

module _ (l : Limine) (s : Pmm) (root : ℕ) (p : List ℕ) (t i : ℕ) (inv : IsPaging l s root)
    (short : length p ≤ 2) (at : TableAt l s.memory root p t) (lt : i < 512)
    (absent : (read_entry s.memory (entry_at t i)).present ≡ false) (base : ℕ) (q : Pmm)
    (got : Allocated s 1 base q) where
  abbrev pub new : ℕ
  new = base + l.hhdm_offset

  abbrev pub cleared : Mem
  cleared = memset new 0 page_size q.memory

  abbrev pub to : ℕ
  to = entry_at t i

  abbrev pub e : PageTableEntry
  e = linked l new (read_entry s.memory to)

  abbrev pub m' : Mem
  m' = store64 cleared to (entry_word e)

  abbrev pub s' : Pmm
  s' = record q { memory = m' }

  pub is : IsTable l s t
  is = inv.tables p t (omega (arith, short)) at

  to_lem : to ≡ t + 8 * i
  to_lem = IsTable-entry i is inv.below lt

  pub new_address : new ≡ got.page * page_size + l.hhdm_offset
  new_address = ap (λ x. x + l.hhdm_offset) got.address

  pub page_free : is_used s got.page ≡ false
  page_free = got.fit.free got.page (omega arith) (omega arith)

  -- The new table is none of the old ones.
  pub new_apart : (u : ℕ) → IsTable l s u → u ≢ new
  new_apart u is' h =
      let e' = same_page is'.page got.page l.hhdm_offset u new is'.address new_address h in
      true_ne_false (sym is'.used ∙ ap (is_used s) e' ∙ page_free)

  apart_from_new :
      (u a : ℕ) → IsTable l s u → within u page_size a ≡ true → within new page_size a ≡ false
  apart_from_new u a is' h =
      pages_apart u new is'.page got.page l.hhdm_offset a is'.address new_address (new_apart u is')
        h

  pub in_table : (a : ℕ) → within to 8 a ≡ true → within t page_size a ≡ true
  in_table a h = in_word t i to a to_lem lt h

  pub cleared_old :
      (a : ℕ)
      → within new page_size a ≡ false
      → within s.bitmap s.bitmap_size a ≡ false
      → cleared a ≡ s.memory a
  cleared_old a h h' = memset_lem new 0 page_size q.memory a ∙ rw (h) (got.marked.outside a h')

  old_bytes : (u a : ℕ) → IsTable l s u → within u page_size a ≡ true → cleared a ≡ s.memory a
  old_bytes u a is' h = cleared_old a (apart_from_new u a is' h) (is'.apart a h)

  apart_word :
      (u j : ℕ)
      → IsTable l s u
      → j < 512
      → (u ≢ t) ⊎ (j ≢ i)
      → (a : ℕ) → entry_at u j ≤ a
      → a < entry_at u j + 8
      → within to 8 a ≡ false
  apart_word u j is' lt' differ a lo hi = elim (ℕ_discrete t u) [
    | no ne ↦
        outside_of to 8 a (within u page_size) (λ w. IsTable-apart a is is' ne (in_table a w))
          (entry_bytes u j (entry_at u j) a (IsTable-entry j is' inv.below lt') lt' lo hi)
    | yes same ↦ elim differ [
      | inl ne ↦ absurd (ne (sym same))
      | inr ne ↦
          word_apart t i j (entry_at u j) to a
            (IsTable-entry j is' inv.below lt' ∙ ap (λ x. x + 8 * j) (sym same)) to_lem ne lo hi
    ]
  ]

  pub other :
      (r : List ℕ) (u j : ℕ)
      → length r ≤ 3
      → TableAt l s.memory root r u
      → j < 512
      → (u ≢ t) ⊎ (j ≢ i)
      → read_entry m' (entry_at u j) ≡ read_entry s.memory (entry_at u j)
  other r u j h at' lt' differ =
      let is' = inv.tables r u h at' in
      read-same s.memory m' (entry_at u j) (λ a lo hi.
        store64-outside cleared to (entry_word e) a (apart_word u j is' lt' differ a lo hi)
        ∙ old_bytes u a is'
            (entry_bytes u j (entry_at u j) a (IsTable-entry j is' inv.below lt') lt' lo hi))

  written : read_entry m' to ≡ e
  written = read-written cleared to e (read_entry-bounds s.memory to).0 (small_field _)

  points_to_new : table_of l e ≡ new
  unfolding table_of
  points_to_new =
      table_back base got.page l.hhdm_offset _ got.address got.fit.fits inv.physical inv.below

  link : Link l m' t i new
  link = record {
    index = lt;
    present = ap (λ (x : PageTableEntry). x.present) written;
    points = ap (table_of l) written ∙ points_to_new;
  }

  new_fits : new + page_size < 2 ^ 64
  new_fits = fits l s base q inv.pmm inv.below got

  pub empty : (j : ℕ) → j < 512 → (read_entry m' (entry_at new j)).present ≡ false
  empty j lt' =
      ap (λ (x : PageTableEntry). x.present)
        (read-same cleared m' (entry_at new j) (λ a lo hi.
          store64-outside cleared to (entry_word e) a (
            outside_of to 8 a (within new page_size) (λ w. apart_from_new t a is (in_table a w))
              (entry_bytes new j (entry_at new j) a (entry_below new j new_fits lt') lt' lo hi))))
      ∙ memset-empty q.memory new j new_fits lt'

  pub new-Opens : (j : ℕ) → j < 512 → Opens (read_entry m' (entry_at new j))
  new-Opens j lt' =
      rw
        (read-same cleared m' (entry_at new j) (λ a lo hi.
          store64-outside cleared to (entry_word e) a (
            outside_of to 8 a (within new page_size) (λ w. apart_from_new t a is (in_table a w))
              (entry_bytes new j (entry_at new j) a (entry_below new j new_fits lt') lt' lo hi))))
        (memset-Opens q.memory new j new_fits lt')

  -- The entry of the new table gives all rights, if the missing one had no wrong bits.
  pub link-Opens : Opens (read_entry m' to)
  link-Opens =
      let old = inv.opens p t i short at lt in
      rw written (record {
        large = old.large;
        executable = old.executable;
        writable = λ h. refl;
        user = λ h. refl;
      })

  pub made : Made l s.memory m' root p t i new
  made = record { at = at; absent = absent; other = other; link = link; empty = empty }

  bitmap_same : (a : ℕ) → within q.bitmap q.bitmap_size a ≡ true → m' a ≡ cleared a
  bitmap_same a h = store64-outside cleared to (entry_word e) a (
      outside_of to 8 a (within q.bitmap q.bitmap_size)
        (λ w. rw (got.marked.bitmap, got.marked.bitmap_size) (is.apart a (in_table a w))) h)

  pub pmm' : IsPmm l s'
  pmm' =
      let cleared-IsPmm = table-IsPmm l s base q inv.pmm inv.below got in
      IsPmm-write l (record q { memory = cleared }) m' cleared-IsPmm
        (some_tracked got.page s.bitmap_size _ got.fit.fits got.marked.bitmap_size)
        (store64-bytes cleared to (entry_word e) cleared-IsPmm.bytes) bitmap_same

  pub used_same : (k : ℕ) → k < q.bitmap_size * 8 → is_used s' k ≡ is_used q k
  used_same k h =
      is_used-write q m'
        (λ a h. bitmap_same a h ∙ cleared_same l s base q inv.pmm inv.below got a h) k h

  pub used' :
      (k : ℕ)
      → k < s.bitmap_size * 8
      → is_used s' k ≡ (if within got.page 1 k then true else is_used s k)
  used' k h = used_same k (rw (got.marked.bitmap_size) h) ∙ got.marked.used k
