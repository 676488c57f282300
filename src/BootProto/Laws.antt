-- ===== src/BootProto/Laws.antt =====
-- The memory map that the kernel sees, of symphony/boot_proto.c, against the bootloader's.
use orchestr_os.Base.{◌↔◌, ℕ, zero, suc, ◌≤◌, ◌<◌, ◌≡◌, ◌≢◌, refl, some, none, List, [], ◌∷◌, arith}
use orchestr_os.Base.Lists.{length, get_elem?, get_elem?-some}
use orchestr_os.Base.Run.{ok, halt, memmap_index_too_large}
use orchestr_os.BootProto.{
  Limine, LimineMemmapTypes, LimineMemmapEntry, memmap_type, memmap_entry, memmap_entry_get,
}
use orchestr_os.BootProto.MemmapType

abbrev NotIn : ℕ → List ℕ → Type 0
NotIn x [] = Unit {0}
NotIn x (y ∷ ys) = (x ≢ y) × NotIn x ys

abbrev pub AreDistinct : List ℕ → Type 0
AreDistinct [] = Unit {0}
AreDistinct (x ∷ xs) = NotIn x xs × AreDistinct xs

-- The bootloader's types that the kernel knows.
abbrev pub known : LimineMemmapTypes → List ℕ
known t =
    t.usable ∷ t.reserved ∷ t.acpi_reclaimable ∷ t.acpi_nvs ∷ t.bad_memory
    ∷ t.bootloader_reclaimable ∷ t.kernel_and_modules ∷ t.framebuffer ∷ []

-- The kernel's type `type` for the bootloader's type `x`: each has one of the same name, and all other
-- types of the bootloader are unknown.
pub record Translated (t : LimineMemmapTypes) (x type : ℕ) : Type 0 where
  pub usable : type ≡ MemmapType.usable ↔ x ≡ t.usable
  pub reserved : type ≡ MemmapType.reserved ↔ x ≡ t.reserved
  pub acpi_reclaimable : type ≡ MemmapType.acpi_reclaimable ↔ x ≡ t.acpi_reclaimable
  pub acpi_nvs : type ≡ MemmapType.acpi_nvs ↔ x ≡ t.acpi_nvs
  pub bad_memory : type ≡ MemmapType.bad_memory ↔ x ≡ t.bad_memory
  pub bootloader_reclaimable :
      type ≡ MemmapType.bootloader_reclaimable ↔ x ≡ t.bootloader_reclaimable
  pub kernel_and_modules : type ≡ MemmapType.kernel_and_modules ↔ x ≡ t.kernel_and_modules
  pub framebuffer : type ≡ MemmapType.framebuffer ↔ x ≡ t.framebuffer
  pub unknown : type ≡ MemmapType.unknown ↔ NotIn x (known t)

-- Where the bootloader's eight types differ, an entry of the memory map has each of the kernel's types
-- exactly if the bootloader gave it the type of the same name, and the type unknown exactly if it gave
-- none of the eight.
pub memmap_type-Translated :
    (t : LimineMemmapTypes) (x : ℕ) → AreDistinct (known t) → Translated t x (memmap_type t x)
unfolding memmap_type
memmap_type-Translated t x (d1, (d2, (d3, (d4, (d5, (d6, (d7, (d8, u)))))))) = record {
  usable = ((λ e. ground (arith, e)), (λ e. ground (arith, e)));
  reserved = ((λ e. ground (arith, e)), (λ e. ground (arith, e, d1)));
  acpi_reclaimable = ((λ e. ground (arith, e)), (λ e. ground (arith, e, d1, d2)));
  acpi_nvs = ((λ e. ground (arith, e)), (λ e. ground (arith, e, d1, d2, d3)));
  bad_memory = ((λ e. ground (arith, e)), (λ e. ground (arith, e, d1, d2, d3, d4)));
  bootloader_reclaimable = ((λ e. ground (arith, e)), (λ e. ground (arith, e, d1, d2, d3, d4, d5)));
  kernel_and_modules = ((λ e. ground (arith, e)), (λ e. ground (arith, e, d1, d2, d3, d4, d5, d6)));
  framebuffer = ((λ e. ground (arith, e)), (λ e. ground (arith, e, d1, d2, d3, d4, d5, d6, d7)));
  unknown = ((λ e. ground (arith, e)), (λ e. ground (arith, e)));
}

get_elem?-none : (es : List LimineMemmapEntry) (i : ℕ) → length es ≤ i → get_elem? es i ≡ none
get_elem?-none [] i h = refl
get_elem?-none (e ∷ es) zero h = absurd (omega arith)
get_elem?-none (e ∷ es) (suc i) h = get_elem?-none es i (omega arith)

-- `boot_proto_memmap_entry_get(i)` gives the base and the length of the bootloader's entry `i` with
-- its type translated, if there is one, and panics if `i` is not below the count.
pub memmap_entry_get_lem :
    {S : Type 0} (l : Limine) (i : ℕ) (s : S)
    → (i < length l.entries
        → (e : LimineMemmapEntry) × (get_elem? l.entries i ≡ some e)
          × (memmap_entry_get l i s
              ≡ ok
                  (record {
                    base = e.base;
                    length = e.length;
                    type = memmap_type l.memmap_types e.type;
                  })
                  s))
      × (length l.entries ≤ i → memmap_entry_get l i s ≡ halt memmap_index_too_large)
unfolding memmap_entry_get memmap_entry
memmap_entry_get_lem l i s = (
  λ h. let (e, at) = get_elem?-some l.entries i h in (e, at, rw (at, memmap_entry_get)),
  λ h. rw (get_elem?-none l.entries i h, memmap_entry_get),
)
