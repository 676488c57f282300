-- ===== src/KHeap/Tests.antt =====
-- The kernel heap on a machine with 32 pages.
use orchestr_os.Base.{
  ℕ, zero, suc, ◌+◌, ◌-◌, ◌/◌, ◌%◌, ◌≤◌, ◌<◌, ◌≡◌, refl, true, false, [], ◌∷◌, arith, ◌==◌,
  if◌then◌else◌,
}
use orchestr_os.Base.Bits.{bit_is_set}
use orchestr_os.Base.Run.{Returns}
use orchestr_os.Base.Word.{page_size, align_up}
use orchestr_os.BootProto.{Limine}
use orchestr_os.Memory.{Mem, within}
use orchestr_os.Memory.Words.{load64}
use orchestr_os.Pmm.State.{Pmm, is_used}
use orchestr_os.Pmm.Frames.Laws.{IsPmm}
use orchestr_os.KHeap.{KHeap, memory_of, kmalloc, kzalloc, kfree, kheap_init, request, extension}
use orchestr_os.KHeap.Header.{header}
use orchestr_os.KHeap.Blocks.{Block}
use orchestr_os.KHeap.Invariant.{IsKHeap}
use orchestr_os.KHeap.Free.{Kfreed, kfree-Kfreed}
use orchestr_os.KHeap.Append.{new_block}
use orchestr_os.KHeap.Init.{kheap_init-IsKHeap}
use orchestr_os.KHeap.Malloc.{Kmalloced}
use orchestr_os.KHeap.Allocate.{Room, kmalloc-Kmalloced}
use orchestr_os.KHeap.Zeroed.{kzalloc-Kmalloced}
use orchestr_os.Pmm.Pages.{Owned}

abbrev limine : Limine
limine = record {
  memmap_types = record {
    usable = 0;
    reserved = 1;
    acpi_reclaimable = 2;
    acpi_nvs = 3;
    bad_memory = 4;
    bootloader_reclaimable = 5;
    kernel_and_modules = 6;
    framebuffer = 7;
  };
  firmware_types = record { x86bios = 0; uefi32 = 1; uefi64 = 2 };
  firmware_type = 0;
  hhdm_offset = 0;
  entries = [];
  kernel_physical_base = 0x8000;
  kernel_virtual_base = 0x8000;
  kernel_size = 4096;
}

-- The bitmap lies in page 1, and page 3 is the heap's: a block of 64 bytes in use, and a free block of
-- the rest. The other pages from 2 on are free.
abbrev bytes : Mem
bytes a =
    if a == 4096
    then 0xd0
    else if a == 12288
    then 64
    else if a == 12304
    then 0x60
    else if a == 12305
    then 0x30
    else if a == 12384
    then 0x80
    else if a == 12385
    then 0x0f
    else if a == 12392
    then 1
    else if a == 12409
    then 0x30
    else 0

abbrev machine : Pmm
machine = record { memory = bytes; bitmap = 4096; bitmap_size = 4 }

abbrev kheap : KHeap
kheap = record {
  pmm = machine;
  block_list_start = 12288;
  block_list_end = 12384;
  kheap_size = 4096;
  kheap_size_usable = 4064;
}

abbrev in_use : Block
in_use = record { addr = 12288; size = 64; free = false }

abbrev rest : Block
rest = record { addr = 12384; size = 3968; free = true }

machine-IsPmm : IsPmm limine machine
unfolding is_used bit_is_set
machine-IsPmm = record {
  bytes = λ a. ground arith;
  mapped = omega arith;
  page_zero = refl;
  reserved = λ k a h p q. let e : k ≡ 1 = ground (arith, p, q) in rw e;
}

page_three : (a : ℕ) → 12288 ≤ a → a < 16384 → Owned limine machine a
unfolding is_used bit_is_set
page_three a lo hi =
    let e : (a - 0) / page_size ≡ 3 = omega arith in
    record { mapped = omega arith; tracked = omega arith; used = rw e refl; apart = ground arith }

kheap-IsKHeap : IsKHeap limine kheap (in_use ∷ rest ∷ [])
unfolding header load64
kheap-IsKHeap = record {
  pmm = machine-IsPmm;
  below = omega arith;
  seg = (refl, omega arith, omega arith, (refl, omega arith, omega arith, tt));
  start = refl;
  end = refl;
  nonempty = λ e. cc e;
  once = λ a. ground arith;
  owned = λ a h. page_three a (ground (arith, h)) (ground (arith, h));
}

kfree-Kfreed_example : Kfreed limine kheap (in_use ∷ rest ∷ []) in_use (kfree (12288 + 32) kheap)
kfree-Kfreed_example = kfree-Kfreed limine kheap [] in_use (rest ∷ []) kheap-IsKHeap refl

no_bits : (j : ℕ) → j < 8 → bit_is_set 0 j ≡ false
unfolding bit_is_set
no_bits zero h = refl
no_bits (suc zero) h = refl
no_bits (suc (suc zero)) h = refl
no_bits (suc (suc (suc zero))) h = refl
no_bits (suc (suc (suc (suc zero)))) h = refl
no_bits (suc (suc (suc (suc (suc zero))))) h = refl
no_bits (suc (suc (suc (suc (suc (suc zero)))))) h = refl
no_bits (suc (suc (suc (suc (suc (suc (suc zero))))))) h = refl
no_bits (suc (suc (suc (suc (suc (suc (suc (suc j)))))))) h = absurd (omega (arith, h))

clear : (b j : ℕ) → b ≡ 0 → j < 8 → bit_is_set b j ≡ false
clear b j e h = rw (e) (no_bits j h)

-- The pages from 8 on are free.
free_pages : (k : ℕ) → 8 ≤ k → k < 32 → is_used machine k ≡ false
unfolding is_used
free_pages k lo hi = clear (bytes (4096 + k / 8)) (k % 8) (ground arith) (omega arith)

-- No block has room for 5000 bytes, and the pages that hold them are free.
room : Room kheap (request 5000)
unfolding request extension align_up
room = (8, omega arith, λ k lo hi. free_pages k lo (omega arith))

-- A request that the free block has no room for: the heap is extended.
kmalloc-Kmalloced_example :
    Returns
      (λ ptr s'. Kmalloced limine kheap (in_use ∷ rest ∷ []) (request 5000) ptr s')
      (kmalloc 6 limine 5000 kheap)
kmalloc-Kmalloced_example =
    kmalloc-Kmalloced 6 limine kheap (in_use ∷ rest ∷ []) 5000 kheap-IsKHeap (omega arith)
      (omega arith) (λ _. room)

kzalloc-Kmalloced_example :
    Returns
      (λ ptr s'.
        Kmalloced limine kheap (in_use ∷ rest ∷ []) (request 5000) ptr s'
        × ((a : ℕ) → within ptr 5000 a ≡ true → memory_of s' a ≡ 0))
      (kzalloc 6 limine 5000 kheap)
kzalloc-Kmalloced_example =
    kzalloc-Kmalloced 6 limine kheap (in_use ∷ rest ∷ []) 5000 kheap-IsKHeap (omega arith)
      (omega arith) (λ _. room)

kheap_init-IsKHeap_example :
    Returns
      (λ r s'. (r ≡ 0) × (a : ℕ) × IsKHeap limine s' (new_block a 65536 ∷ []))
      (kheap_init limine kheap)
kheap_init-IsKHeap_example =
    kheap_init-IsKHeap limine kheap 8 machine-IsPmm (omega arith) (omega arith)
      (λ k lo hi. free_pages k lo (omega arith))

-- Ten bytes are not rounded up to sixteen.
request_ten : request 10 ≡ 10
unfolding request
request_ten = refl
