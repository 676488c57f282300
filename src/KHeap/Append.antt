-- ===== src/KHeap/Append.antt =====
-- What kheap_extend of symphony/mm/kheap.c writes: the list gets a block at its end.
use orchestr_os.Base.{
  ℕ, ◌+◌, ◌-◌, ◌≤◌, ◌<◌, ◌^◌, ◌≡◌, ◌⊎◌, refl, ◌∙◌, true, false, List, [], ◌∷◌, ◌++◌, arith,
}
use orchestr_os.Base.Word.{sub64}
use orchestr_os.Memory.{Mem, within, memset}
use orchestr_os.Memory.Block.{memset_lem}
use orchestr_os.KHeap.{append_memory}
use orchestr_os.KHeap.Header.{
  header, set_size, set_free, set_next, set_prev, header-same, header-apart, set_size-Touched,
  set_free-Touched, set_next-Touched, set_prev-Touched, header-set_size, header-set_free,
  header-set_next, header-set_prev,
}
use orchestr_os.KHeap.Blocks.{
  Block, cover, cover-append, headers_at, headers_at-append, used_at, headers_used_le, last_or,
  last_or-append, Seg, Seg-join, Seg-split, Seg-frame,
}

-- The block of the new pages.
abbrev pub new_block : (newbh size : ℕ) → Block
new_block newbh size = record { addr = newbh; size = size - 32; free = true }

-- Two blocks that share no address.
apart_blocks :
    (x y : Block)
    → ((a : ℕ) → cover a (x ∷ []) + cover a (y ∷ []) ≤ 1)
    → (x.addr + 32 + x.size ≤ y.addr) ⊎ (y.addr + 32 + y.size ≤ x.addr)
apart_blocks x y once = ground (arith, once x.addr, once y.addr)

-- The new block stands at the end of the list, behind the block `w`.
module _ (m : Mem) (ws : List Block) (w : Block) (n size : ℕ)
    (once : (a : ℕ) → cover a (ws ++ (w ∷ [])) + cover a (new_block n size ∷ []) ≤ 1)
    (large : 32 ≤ size) (pos : 0 < n) (at : n + size < 2 ^ 64)
    (s : Seg m 0 0 (ws ++ (w ∷ []))) where
  abbrev m1 : Mem
  m1 = memset n 0 size m

  abbrev m2 : Mem
  m2 = set_size n (size - 32) m1

  abbrev m3 : Mem
  m3 = set_free n true m2

  abbrev m4 : Mem
  m4 = set_prev n w.addr m3

  abbrev m5 : Mem
  m5 = set_next w.addr n m4

  abbrev m6 : Mem
  m6 = set_next n 0 m5

  seg_w : Seg m (last_or 0 ws) 0 (w ∷ [])
  seg_w = (Seg-split m 0 0 ws (w ∷ []) s).1

  apart : (w.addr + 32 + w.size ≤ n) ⊎ (n + 32 + (size - 32) ≤ w.addr)
  apart = apart_blocks w (new_block n size) (λ a. omega (arith, once a, cover-append a ws (w ∷ [])))

  m4-outside : (a : ℕ) → within n size a ≡ false → m4 a ≡ m a
  m4-outside a h =
      (set_prev-Touched m3 n w.addr).outside a (ground (arith, large))
      ∙ (set_free-Touched m2 n true).outside a (ground (arith, large))
      ∙ (set_size-Touched m1 n _).outside a (ground (arith, large))
      ∙ ground (arith, memset_lem n 0 size m a)

  m6-outside : (a : ℕ) → within n size a ≡ false → within w.addr 32 a ≡ false → m6 a ≡ m a
  m6-outside a h h' =
      (set_next-Touched m5 n 0).outside a (ground (arith, large))
      ∙ (set_next-Touched m4 w.addr n).outside a h'
      ∙ m4-outside a h

  m6-bytes : ((a : ℕ) → m a < 256) → (a : ℕ) → m6 a < 256
  m6-bytes h = (set_next-Touched m5 n 0).bytes (
      (set_next-Touched m4 w.addr n).bytes (
        (set_prev-Touched m3 n w.addr).bytes (
          (set_free-Touched m2 n true).bytes
            ((set_size-Touched m1 n _).bytes (λ a. ground (arith, memset_lem n 0 size m a, h a))))))

  header_w6 :
      header m6 w.addr ≡ record { size = w.size; free = w.free; next = n; prev = last_or 0 ws }
  header_w6 =
      header-apart w.addr (set_next-Touched m5 n 0) (omega (arith, apart))
      ∙ header-set_next m4 w.addr _
          (header-same m m4 w.addr (λ a h. m4-outside a (ground (arith, apart, large))) ∙ seg_w.0) n
          (omega (arith, at))

  header_n6 : header m6 n ≡ record { size = size - 32; free = true; next = 0; prev = w.addr }
  header_n6 =
      header-set_next m5 n _
        (header-apart n (set_next-Touched m4 w.addr n) (omega (arith, apart))
          ∙ header-set_prev m3 n _
              (header-set_free m2 n _ (header-set_size m1 n _ refl (size - 32) (omega (arith, at)))
                true)
              w.addr (omega (arith, seg_w.2)))
        0 (omega arith)

  not_in_new : (a : ℕ) → 1 ≤ cover a (ws ++ (w ∷ [])) → within n size a ≡ false
  not_in_new a h = ground (arith, once a, large)

  spared : (a : ℕ) → 1 ≤ headers_at a ws → m6 a ≡ m a
  spared a h =
      let covered : 1 ≤ cover a (ws ++ (w ∷ [])) =
        omega (arith, cover-append a ws (w ∷ []), headers_used_le a ws) in
      m6-outside a (not_in_new a covered)
        (ground (arith, once a, cover-append a ws (w ∷ []), headers_used_le a ws))

  behind : Seg m6 (last_or 0 (ws ++ (w ∷ []))) 0 (new_block n size ∷ [])
  behind = rw (last_or-append 0 ws (w ∷ [])) (header_n6, pos, omega (arith, at, large), tt)

  seg6 : Seg m6 0 0 ((ws ++ (w ∷ [])) ++ (new_block n size ∷ []))
  seg6 =
      Seg-join m6 0 0 (ws ++ (w ∷ [])) (new_block n size ∷ [])
        (Seg-join m6 0 n ws (w ∷ [])
          (Seg-frame m m6 0 w.addr ws spared (Seg-split m 0 0 ws (w ∷ []) s).0)
          (header_w6, seg_w.1, seg_w.2, tt))
        behind

  kept6 : (a : ℕ) → 1 ≤ used_at a (ws ++ (w ∷ [])) → m6 a ≡ m a
  kept6 a h =
      let bound = headers_used_le a (ws ++ (w ∷ [])) in
      let split = headers_at-append a ws (w ∷ []) in
      m6-outside a (not_in_new a (omega (arith, h, bound)))
        (ground (arith, once a, h, bound, split))

  append_memory-m6 : append_memory n size w.addr m ≡ m6
  unfolding append_memory
  append_memory-m6 =
      let rest : sub64 size 32 ≡ size - 32 = omega (arith, at, large) in rw (rest) refl

  -- The list, and what the writes spare.
  pub append_memory-lem :
      Seg (append_memory n size w.addr m) 0 0 ((ws ++ (w ∷ [])) ++ (new_block n size ∷ []))
      × ((a : ℕ)
          → within n size a ≡ false
          → within w.addr 32 a ≡ false
          → append_memory n size w.addr m a ≡ m a)
      × ((a : ℕ) → 1 ≤ used_at a (ws ++ (w ∷ [])) → append_memory n size w.addr m a ≡ m a)
      × (((a : ℕ) → m a < 256) → (a : ℕ) → append_memory n size w.addr m a < 256)
  append_memory-lem = rw (append_memory-m6) (seg6, m6-outside, kept6, m6-bytes)
