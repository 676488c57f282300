-- ===== src/X86/Gdt.antt =====
-- symphony/arch/x86_64/gdt.c: the Global Descriptor Table and the Task State Segment. The tables are
-- the arrays of the source, one element for each processor; `none` is an access behind their end.
-- `gdt_address` and `tss_address` are where the linker puts the arrays.
pub mod Laws
use orchestr_os.Base.{ℕ, zero, suc, ◌+◌, ◌-◌, ◌*◌, ◌/◌, ◌%◌, ◌^◌, Option, none, some, List, [], ◌∷◌}
use orchestr_os.Base.Word.{u64}

pub record GdtEntry : Type 0 where
  pub limit0 : ℕ
  pub base0 : ℕ
  pub base1 : ℕ
  pub access : ℕ
  pub limit1 : ℕ
  pub flags : ℕ
  pub base2 : ℕ

pub record GdtSystemEntry : Type 0 where
  pub limit0 : ℕ
  pub base0 : ℕ
  pub base1 : ℕ
  pub access : ℕ
  pub limit1 : ℕ
  pub flags : ℕ
  pub base2 : ℕ
  pub base3 : ℕ
  pub reserved : ℕ

pub record Gdt : Type 0 where
  pub null : GdtEntry
  pub kernel_code : GdtEntry
  pub kernel_data : GdtEntry
  pub user_code : GdtEntry
  pub user_data : GdtEntry
  pub tss : GdtSystemEntry

-- `sizeof(struct gdt)`: the structures are packed.
abbrev pub sizeof_gdt : ℕ
sizeof_gdt = 5 * 8 + 16

pub record Gdtr : Type 0 where
  pub size : ℕ
  pub offset : ℕ

pub record Tss : Type 0 where
  pub reserved0 : ℕ
  pub rsp : List ℕ
  pub reserved1 : ℕ
  pub ist : List ℕ
  pub reserved2 : ℕ
  pub reserved3 : ℕ
  pub iomap_base : ℕ

-- `sizeof(struct tss)`
abbrev pub sizeof_tss : ℕ
sizeof_tss = 4 + 3 * 8 + 8 + 7 * 8 + 8 + 2 + 2

-- The statics `gdt`, `tss` and `gdtr`.
pub record Tables : Type 0 where
  pub gdt : List Gdt
  pub tss : List Tss
  pub gdtr : List Gdtr

-- The entry is written field by field; flags and the upper limit have four bits.
unfoldable pub gdt_set_entry : GdtEntry → (access flags : ℕ) → GdtEntry
gdt_set_entry entry access flags = record entry {
  access = access % 2 ^ 8;
  flags = flags % 2 ^ 4;
  base0 = 0;
  base1 = 0;
  base2 = 0;
  limit0 = 0;
  limit1 = 0;
}

unfoldable pub gdt_set_system_entry :
    GdtSystemEntry → (access flags base limit : ℕ) → GdtSystemEntry
gdt_set_system_entry entry access flags base limit = record entry {
  access = access % 2 ^ 8;
  flags = flags % 2 ^ 4;
  base0 = base % 2 ^ 16;
  base1 = base / 2 ^ 16 % 2 ^ 8;
  base2 = base / 2 ^ 24 % 2 ^ 8;
  base3 = base / 2 ^ 32 % 2 ^ 32;
  limit0 = limit % 2 ^ 16;
  limit1 = limit / 2 ^ 16 % 2 ^ 4;
}

-- `xs[i] = f(xs[i])`
unfoldable pub modify_at : {A : Type 0} → (A → A) → (i : ℕ) → List A → Option (List A)
modify_at f i [] = none
modify_at f zero (x ∷ xs) = some (f x ∷ xs)
modify_at f (suc i) (x ∷ xs) = elim (modify_at f i xs) [ none ↦ none | some ys ↦ some (x ∷ ys) ]

infixl 5 ◌>>=◌
abbrev ◌>>=◌ : {A B : Type 0} → Option A → (A → Option B) → Option B
◌>>=◌ none k = none
◌>>=◌ (some a) k = k a

-- The six descriptors of one processor, whose task state segment lies at `tss`.
unfoldable pub set_descriptors : (tss : ℕ) → Gdt → Gdt
unfolding gdt_set_entry gdt_set_system_entry
set_descriptors tss g = record {
  null = gdt_set_entry g.null 0 0;
  kernel_code = gdt_set_entry g.kernel_code 0x9a 0xa;
  kernel_data = gdt_set_entry g.kernel_data 0x92 0xc;
  user_code = gdt_set_entry g.user_code 0xfa 0xa;
  user_data = gdt_set_entry g.user_data 0xf2 0xc;
  tss = gdt_set_system_entry g.tss 0xe9 0 tss sizeof_tss;
}

-- `&gdt[cpu]` and `&tss[cpu]`
abbrev pub gdt_at : (gdt_address cpu : ℕ) → ℕ
gdt_at gdt_address cpu = u64 (gdt_address + cpu * sizeof_gdt)

abbrev pub tss_at : (tss_address cpu : ℕ) → ℕ
tss_at tss_address cpu = u64 (tss_address + cpu * sizeof_tss)

-- What `arch_load_gdt` writes before it loads the registers.
unfoldable pub load_gdt : (gdt_address tss_address cpu : ℕ) → Tables → Option Tables
unfolding modify_at set_descriptors
load_gdt gdt_address tss_address cpu t = do
  gdt ← modify_at (set_descriptors (tss_at tss_address cpu)) cpu t.gdt
  gdtr ←
      modify_at (λ r. record r { size = sizeof_gdt - 1; offset = gdt_at gdt_address cpu }) cpu
        t.gdtr
  some (record t { gdt = gdt; gdtr = gdtr })

-- `rsp[0] = stack`
unfoldable pub set_first : (stack : ℕ) → List ℕ → List ℕ
set_first stack [] = []
set_first stack (x ∷ xs) = stack ∷ xs

unfoldable pub set_kernel_stack : (cpu stack : ℕ) → Tables → Option Tables
unfolding modify_at set_first
set_kernel_stack cpu stack t = do
  tss ← modify_at (λ s. record s { rsp = set_first stack s.rsp }) cpu t.tss
  some (record t { tss = tss })
