-- ===== src/X86/Gdt/Laws.antt =====
-- The descriptors of symphony/arch/x86_64/gdt.c as the processor reads them.
use orchestr_os.Base.{
  ℕ, zero, suc, ◌+◌, ◌*◌, ◌^◌, ◌<◌, ◌≡◌, ◌≢◌, refl, ap, some, List, [], ◌∷◌, arith,
}
use orchestr_os.Base.Lists.{length, get_elem?}
use orchestr_os.X86.Gdt.{
  GdtEntry, GdtSystemEntry, Gdt, Gdtr, Tables, sizeof_tss, gdt_set_entry, gdt_set_system_entry,
  modify_at, set_descriptors, gdt_at, tss_at, load_gdt,
}

-- The base and the limit that the processor puts together from a system descriptor.
abbrev pub system_base : GdtSystemEntry → ℕ
system_base e = e.base0 + e.base1 * 2 ^ 16 + e.base2 * 2 ^ 24 + e.base3 * 2 ^ 32

abbrev pub system_limit : GdtSystemEntry → ℕ
system_limit e = e.limit0 + e.limit1 * 2 ^ 16

-- The 64-bit word of a descriptor, its fields in the order of the structure.
abbrev pub descriptor_word : GdtEntry → ℕ
descriptor_word e =
    e.limit0
    + e.base0 * 2 ^ 16
    + e.base1 * 2 ^ 32
    + e.access * 2 ^ 40
    + e.limit1 * 2 ^ 48
    + e.flags * 2 ^ 52
    + e.base2 * 2 ^ 56

-- The processor reads back the base, an address of 64 bits, and the limit, of 20 bits, that
-- `gdt_set_system_entry` has split over the fields of the descriptor, whatever it held before.
pub gdt_set_system_entry-fields :
    (entry : GdtSystemEntry) (access flags base limit : ℕ)
    → base < 2 ^ 64
    → limit < 2 ^ 20
    → (system_base (gdt_set_system_entry entry access flags base limit) ≡ base)
      × (system_limit (gdt_set_system_entry entry access flags base limit) ≡ limit)
unfolding gdt_set_system_entry
gdt_set_system_entry-fields entry access flags base limit hb hl = (omega arith, omega arith)

-- One element is changed, and the others stay.
abbrev ModifiedAt : {A : Type 0} → (A → A) → ℕ → List A → List A → Type 0
ModifiedAt {A} f i xs ys =
    ((x : A) × (get_elem? xs i ≡ some x) × (get_elem? ys i ≡ some (f x)))
    × ((j : ℕ) → j ≢ i → get_elem? ys j ≡ get_elem? xs j)

get_elem?-head :
    {A : Type 0} (x y : A) (xs : List A) (j : ℕ)
    → j ≢ 0
    → get_elem? (y ∷ xs) j ≡ get_elem? (x ∷ xs) j
get_elem?-head x y xs zero ne = absurd (ne refl)
get_elem?-head x y xs (suc j) ne = refl

get_elem?-tail :
    {A : Type 0} (x : A) (xs ys : List A) (i j : ℕ)
    → ((k : ℕ) → k ≢ i → get_elem? ys k ≡ get_elem? xs k)
    → j ≢ suc i
    → get_elem? (x ∷ ys) j ≡ get_elem? (x ∷ xs) j
get_elem?-tail x xs ys i zero others ne = refl
get_elem?-tail x xs ys i (suc j) others ne = others j (λ e. ne (ap suc e))

modify_at_lem :
    {A : Type 0} (f : A → A) (i : ℕ) (xs : List A)
    → i < length xs
    → (ys : List A) × (modify_at f i xs ≡ some ys) × ModifiedAt f i xs ys
unfolding modify_at
modify_at_lem f i [] h = absurd (omega arith)
modify_at_lem f zero (x ∷ xs) h = (f x ∷ xs, refl, ((x, refl, refl), get_elem?-head x (f x) xs))
modify_at_lem f (suc i) (x ∷ xs) h =
    let (ys, e, (one, others)) = modify_at_lem f i xs (omega arith) in
    (x ∷ ys, rw (modify_at, e) refl, (one, λ j. get_elem?-tail x xs ys i j others))

-- What stands in the tables of a processor: the words of its descriptors, where the task state
-- segment is found, and the register, which covers the whole table.
pub Loaded : (gdt_address tss_address cpu : ℕ) → Tables → Tables → Type 0
Loaded gdt_address tss_address cpu t t' =
    ((g : Gdt) × (get_elem? t'.gdt cpu ≡ some g)
      × (descriptor_word g.null ≡ 0)
      × (descriptor_word g.kernel_code ≡ 0x00a0_9a00_0000_0000)
      × (descriptor_word g.kernel_data ≡ 0x00c0_9200_0000_0000)
      × (descriptor_word g.user_code ≡ 0x00a0_fa00_0000_0000)
      × (descriptor_word g.user_data ≡ 0x00c0_f200_0000_0000)
      × (system_base g.tss ≡ tss_at tss_address cpu)
      × (system_limit g.tss ≡ 104)
      × (g.tss.access ≡ 0xe9))
    × (get_elem? t'.gdtr cpu ≡ some (record { size = 55; offset = gdt_at gdt_address cpu }))
    × ((i : ℕ)
        → i ≢ cpu
        → (get_elem? t'.gdt i ≡ get_elem? t.gdt i) × (get_elem? t'.gdtr i ≡ get_elem? t.gdtr i))
    × (t'.tss ≡ t.tss)

-- `arch_load_gdt` succeeds for a processor that has its elements of the tables, and whatever they
-- held before, it leaves there the empty descriptor, the code and data descriptors of kernel and
-- user with their access bytes and flags over base 0 and limit 0, and a task state segment
-- descriptor from which the processor reads the address of the segment, its size and its access
-- byte; the register covers the 56 bytes of the table. The other processors' elements and the task
-- state segments stay.
pub load_gdt-Loaded :
    (gdt_address tss_address cpu : ℕ) (t : Tables)
    → cpu < length t.gdt
    → cpu < length t.gdtr
    → (t' : Tables) × (load_gdt gdt_address tss_address cpu t ≡ some t')
      × Loaded gdt_address tss_address cpu t t'
unfolding load_gdt Loaded set_descriptors gdt_set_entry
load_gdt-Loaded gdt_address tss_address cpu t h h' =
    let (gdt, e, ((g, _, eg), others)) =
      modify_at_lem (set_descriptors (tss_at tss_address cpu)) cpu t.gdt h in
    let (gdtr, e', ((r, _, er), others')) =
      modify_at_lem (λ (r : Gdtr). record r { size = 55; offset = gdt_at gdt_address cpu }) cpu
        t.gdtr h' in
    let (base, limit) =
      gdt_set_system_entry-fields g.tss 0xe9 0 (tss_at tss_address cpu) sizeof_tss (omega arith)
        (omega arith) in
    (
      record t { gdt = gdt; gdtr = gdtr },
      rw (e, e') refl,
      (
        (
          set_descriptors (tss_at tss_address cpu) g,
          eg,
          refl,
          refl,
          refl,
          refl,
          refl,
          base,
          limit,
          refl,
        ),
        er,
        (λ i ne. (others i ne, others' i ne)),
        refl,
      ),
    )
