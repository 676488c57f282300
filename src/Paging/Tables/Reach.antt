-- ===== src/Paging/Tables/Reach.antt =====
-- `page_from_index` of symphony/arch/x86_64/mm.c: it finds the entry for an address, and makes the
-- tables that are missing.
use orchestr_os.Base.{
  ℕ, suc, ◌+◌, ◌≤◌, ◌<◌, ◌≡◌, refl, sym, ap, ◌∙◌, true, ◌⊎◌, List, [], ◌∷◌, inl, inr, arith,
  Bool-cases,
}
use orchestr_os.Base.Lists.{length}
use orchestr_os.Base.Word.{page_size}
use orchestr_os.Memory.{Mem, memset}
use orchestr_os.BootProto.{Limine}
use orchestr_os.Pmm.State.{Pmm}
use orchestr_os.Pmm.Frames.Laws.{Allocated}
use orchestr_os.Pmm.Pages.{true_ne_false}
use orchestr_os.Paging.Tables.Frame.{TableAt-unique}
use orchestr_os.Pmm.Room.{
  HasFree, HasFree-fewer, HasFree-one, Spent, Spent-none, Spent-trans, Spent-few, Ends, done,
  Ends-bind, alloc-Ends,
}
use orchestr_os.Paging.Index.{Indexes}
use orchestr_os.Paging.Walk.{read_entry, write_entry, entry_at, new_pt, next_table, page_from_index}
use orchestr_os.Paging.Walk.NewTable.{word_below, fits}
use orchestr_os.Paging.Walk.Present.{next_table-present}
use orchestr_os.Paging.Tables.{TableAt, IsPaging, path}
use orchestr_os.Paging.Tables.Grow.{Grown, Grown-refl, Grown-trans}
use orchestr_os.Paging.Tables.Added.{added-Grown, added-TableAt, added-HasFree}

-- A table is at the path.
abbrev pub There : Limine → Mem → (root : ℕ) → List ℕ → Type 0
There l m root p = (t : ℕ) × TableAt l m root p t

-- The table at the path `p` is at `u`, after at most `n` tables were made.
pub record Reached (l : Limine) (s : Pmm) (root : ℕ) (p : List ℕ) (n u : ℕ) (s' : Pmm)
    : Type 0 where
  pub grown : Grown l s root s'
  pub at : TableAt l s'.memory root p u
  pub spent : Spent s n s'

new_pt-Ends :
    (l : Limine) (s : Pmm) (root : ℕ)
    → IsPaging l s root
    → Ends
        (¬ HasFree s 0 0 1)
        (λ table t.
          (base : ℕ) × (q : Pmm) × Allocated s 1 base q
          × (table ≡ base + l.hhdm_offset)
          × (t ≡ record q { memory = memset (base + l.hhdm_offset) 0 page_size q.memory }))
        (new_pt l s)
unfolding new_pt
new_pt-Ends l s root inv =
    Ends-bind (alloc-Ends l s inv.pmm) (λ few. few)
      λ base q got.
        let e = word_below (fits l s base q inv.pmm inv.below got) in
        rw (e) (done (base, q, got, refl, refl))

link_is_present :
    (l : Limine) (s : Pmm) (root : ℕ) (p : List ℕ) (t i : ℕ)
    → TableAt l s.memory root p t
    → There l s.memory root (i ∷ p)
    → (read_entry s.memory (entry_at t i)).present ≡ true
link_is_present l s root p t i at (u, (t', at', link)) =
    ap (λ x. (read_entry s.memory (entry_at x i)).present)
      (TableAt-unique l s.memory root p t t' at at')
    ∙ link.present

pub next_table-Ends :
    (l : Limine) (s : Pmm) (root : ℕ) (p : List ℕ) (t i run n : ℕ)
    → IsPaging l s root
    → length p ≤ 2
    → TableAt l s.memory root p t
    → i < 512
    → There l s.memory root (i ∷ p) ⊎ (1 ≤ n)
    → Ends
        (¬ HasFree s run 0 n)
        (λ u s'. Reached l s root (i ∷ p) n u s')
        (next_table l (entry_at t i) s)
unfolding next_table write_entry
next_table-Ends l s root p t i run n inv short at lt costs =
    elim (Bool-cases (read_entry s.memory (entry_at t i)).present) [
      | inl there ↦ rw (next_table-present l (entry_at t i) _ s there refl) (
          done record {
            grown = Grown-refl inv;
            at = (t, at, record { index = lt; present = there; points = refl });
            spent = Spent-none s n;
          })
      | inr absent ↦ elim costs [
        | inl there ↦
            absurd (true_ne_false (sym (link_is_present l s root p t i at there) ∙ absent))
        | inr pos ↦ rw (absent) (
            Ends-bind (new_pt-Ends l s root inv)
              (λ few h. few (HasFree-one s run 0 (HasFree-fewer s run n 1 pos h)))
              λ table x (base, q, got, e, e').
                rw (e, e')
                  (done record {
                    grown = added-Grown l s root p t i inv short at lt absent base q got;
                    at = added-TableAt l s root p t i inv short at lt absent base q got;
                    spent = λ run k m le h.
                        added-HasFree l s root p t i inv short at lt absent base q got run k
                          (HasFree-fewer s run m (suc k) (omega (arith, le, pos)) h);
                  }))
      ]
    ]

-- The entry for the indexes was found, after at most `n` tables were made.
pub record Found (l : Limine) (s : Pmm) (root : ℕ) (i : Indexes) (n pte : ℕ) (s' : Pmm)
    : Type 0 where
  pub last : ℕ
  pub grown : Grown l s root s'
  pub at : TableAt l s'.memory root (path i) last
  pub pte_lem : pte ≡ entry_at last i.page
  pub spent : Spent s n s'

-- The indexes are those of entries.
pub record IsIndexes (i : Indexes) : Type 0 where
  pub page : i.page < 512
  pub table : i.table < 512
  pub directory : i.directory < 512
  pub pointer : i.pointer < 512

-- On the way to the entry, at most so many tables of each level are missing.
pub record Costs (l : Limine) (m : Mem) (root : ℕ) (i : Indexes) (a b c : ℕ) : Type 0 where
  pub top : There l m root (i.pointer ∷ []) ⊎ (1 ≤ a)
  pub middle : There l m root (i.directory ∷ i.pointer ∷ []) ⊎ (1 ≤ b)
  pub low : There l m root (path i) ⊎ (1 ≤ c)

still-There :
    {l : Limine} {s t : Pmm} {root : ℕ} (p : List ℕ) (n : ℕ)
    → length p ≤ 3
    → Grown l s root t
    → There l s.memory root p ⊎ (1 ≤ n)
    → There l t.memory root p ⊎ (1 ≤ n)
still-There p n short grown (inl (t, at)) = inl (t, grown.tables p t short at)
still-There p n short grown (inr pos) = inr pos

pub page_from_index-Ends :
    (l : Limine) (s : Pmm) (root : ℕ) (i : Indexes) (run a b c : ℕ)
    → IsPaging l s root
    → IsIndexes i
    → Costs l s.memory root i a b c
    → Ends
        (¬ HasFree s run 0 (a + (b + c)))
        (λ pte s'. Found l s root i (a + (b + c)) pte s')
        (page_from_index l root i s)
unfolding page_from_index
page_from_index-Ends l s root i run a b c inv is costs =
    Ends-bind
      (next_table-Ends l s root [] root i.pointer run a inv (omega arith) refl is.pointer costs.top)
      (λ few h. few (HasFree-fewer s run (a + (b + c)) a (omega arith) h))
      λ pdp t first.
        Ends-bind
          (next_table-Ends l t root (i.pointer ∷ []) pdp i.directory run b first.grown.paging
            (omega arith) first.at is.directory
            (still-There (i.directory ∷ i.pointer ∷ []) b (omega arith) first.grown costs.middle))
          (λ few h.
            Spent-few s t run a b first.spent few
              (HasFree-fewer s run (a + (b + c)) (a + b) (omega arith) h))
          λ pd u second.
            let grown = Grown-trans first.grown second.grown in
            Ends-bind
              (next_table-Ends l u root (i.directory ∷ i.pointer ∷ []) pd i.table run c
                second.grown.paging (omega arith) second.at is.table
                (still-There (path i) c (omega arith) grown costs.low))
              (λ few.
                Spent-few s t run a (b + c) first.spent (Spent-few t u run b c second.spent few))
              λ last v third. done record {
                last = last;
                grown = Grown-trans grown third.grown;
                at = third.at;
                pte_lem = refl;
                spent =
                    Spent-trans s t v a (b + c) first.spent
                      (Spent-trans t u v b c second.spent third.spent);
              }
