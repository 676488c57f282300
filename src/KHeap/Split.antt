-- ===== src/KHeap/Split.antt =====
-- What kheap_create_block of symphony/mm/kheap.c writes: one block becomes two.
use orchestr_os.Base.{
  ℕ, ◌+◌, ◌-◌, ◌≤◌, ◌<◌, ◌^◌, ◌≡◌, refl, sym, ◌∙◌, inl, inr, true, false, List, ◌∷◌, arith,
}
use mathlib.Core.Path.{subst}
use orchestr_os.Base.Word.{u64, sub64}
use orchestr_os.Memory.{Mem, within, memset}
use orchestr_os.KHeap.{split_memory}
use orchestr_os.KHeap.Header.{
  header, set_size, set_free, set_next, set_prev, relink, header-same, header-apart, memset-Touched,
  set_size-Touched, set_free-Touched, set_next-Touched, set_prev-Touched, header-set_size,
  header-set_free, header-set_next, header-set_prev,
}
use orchestr_os.KHeap.Blocks.{
  Block, relink-bytes, untouched, used_behind, used_at-free, no_header_behind, cover, headers_at,
  first_or, Seg, first_or-lt, apart_of_headers_at, Seg-frame, relink-Seg, relink-outside,
}
use orchestr_os.KHeap.Replaces.{Replaces}

module _ (m : Mem) (prev size : ℕ) (b : Block) (ys : List Block)
    (once : (a : ℕ) → cover a (b ∷ ys) ≤ 1) (larger : size + 32 < b.size)
    (s : Seg m prev 0 (b ∷ ys)) where
  abbrev p : ℕ
  p = b.addr

  abbrev q : ℕ
  q = b.addr + 32 + size

  -- The memory after each of the writes.
  abbrev m1 : Mem
  m1 = memset q 0 32 m

  abbrev m2 : Mem
  m2 = set_size q (b.size - (size + 32)) m1

  abbrev m3 : Mem
  m3 = set_size p size m2

  abbrev m4 : Mem
  m4 = set_next q (first_or 0 ys) m3

  abbrev m5 : Mem
  m5 = set_next p q m4

  abbrev m6 : Mem
  m6 = set_prev q p m5

  abbrev m7 : Mem
  m7 = relink (first_or 0 ys) q m6

  abbrev m8 : Mem
  m8 = set_free q true m7

  fits : p + 32 + b.size < 2 ^ 64
  fits = s.2

  first_small : first_or 0 ys < 2 ^ 64
  first_small = first_or-lt m b.addr ys s.3

  header_p1 :
      header m1 p ≡ record { size = b.size; free = b.free; next = first_or 0 ys; prev = prev }
  header_p1 = header-apart p (memset-Touched m q) (inr (omega arith)) ∙ s.0

  header_p3 : header m3 p ≡ record { size = size; free = b.free; next = first_or 0 ys; prev = prev }
  header_p3 =
      header-set_size m2 p _
        (header-apart p (set_size-Touched m1 q _) (inr (omega arith)) ∙ header_p1) size
        (omega (arith, fits))

  header_p5 : header m5 p ≡ record { size = size; free = b.free; next = q; prev = prev }
  header_p5 =
      header-set_next m4 p _
        (header-apart p (set_next-Touched m3 q _) (inr (omega arith)) ∙ header_p3) q
        (omega (arith, fits))

  header_p6 : header m6 p ≡ record { size = size; free = b.free; next = q; prev = prev }
  header_p6 = header-apart p (set_prev-Touched m5 q p) (inr (omega arith)) ∙ header_p5

  header_q6 : header m6 q ≡ record {
    size = b.size - (size + 32);
    free = (header m1 q).free;
    next = first_or 0 ys;
    prev = p;
  }
  header_q6 =
      header-set_prev m5 q _
        (header-apart q (set_next-Touched m4 p q) (inl (omega arith))
          ∙ header-set_next m3 q _
              (header-apart q (set_size-Touched m2 p size) (inl (omega arith))
                ∙ header-set_size m1 q _ refl (b.size - (size + 32)) (omega (arith, fits)))
              (first_or 0 ys) first_small)
        p (omega (arith, fits))

  -- Linking the block behind spares the two headers.
  spared : (a : ℕ) → within p (32 + b.size) a ≡ true → m7 a ≡ m6 a
  spared a h = relink-outside m6 q ys a (no_header_behind a b ys (once a) h)

  header_p8 : header m8 p ≡ record { size = size; free = b.free; next = q; prev = prev }
  header_p8 =
      header-apart p (set_free-Touched m7 q true) (inr (omega arith))
      ∙ header-same m6 m7 p (λ a h. spared a (ground arith))
      ∙ header_p6

  header_q8 :
      header m8 q
      ≡ record { size = b.size - (size + 32); free = true; next = first_or 0 ys; prev = p }
  header_q8 =
      header-set_free m7 q _ (header-same m6 m7 q (λ a h. spared a (ground arith)) ∙ header_q6) true

  -- Up to the links, only the block is written.
  m6-outside : (a : ℕ) → within p (32 + b.size) a ≡ false → m6 a ≡ m a
  m6-outside a h =
      (set_prev-Touched m5 q p).outside a (ground arith)
      ∙ (set_next-Touched m4 p q).outside a (ground arith)
      ∙ (set_next-Touched m3 q _).outside a (ground arith)
      ∙ (set_size-Touched m2 p size).outside a (ground arith)
      ∙ (set_size-Touched m1 q _).outside a (ground arith)
      ∙ (memset-Touched m q).outside a (ground arith)

  split_memory-m8 : split_memory p size m ≡ m8
  unfolding split_memory
  split_memory-m8 =
      let at : u64 (p + 32 + size) ≡ q = omega (arith, fits) in
      let asked : u64 (size + 32) ≡ size + 32 = omega (arith, fits) in
      let rest : sub64 b.size (size + 32) ≡ b.size - (size + 32) = omega (arith, fits) in
      rw (at, header_p1, asked, rest, header_p3, header_q6) refl

  inner_apart : (a : ℕ) → within p (32 + b.size) a ≡ false → within q 32 a ≡ false
  inner_apart a h = ground arith

  behind : Seg m8 q 0 ys
  behind =
      Seg-frame m7 m8 q 0 ys
        (λ a h.
          (set_free-Touched m7 q true).outside a
            (inner_apart a (apart_of_headers_at a b ys (once a) h)))
        (relink-Seg m6 p q ys (omega (arith, fits)) (λ a. ground (arith, once a))
          (Seg-frame m m6 p 0 ys (λ a h. m6-outside a (apart_of_headers_at a b ys (once a) h)) s.3))

  m8-outside : (a : ℕ) → within p (32 + b.size) a ≡ false → headers_at a ys ≡ 0 → m8 a ≡ m a
  m8-outside a h h' =
      (set_free-Touched m7 q true).outside a (inner_apart a h)
      ∙ relink-outside m6 q ys a h'
      ∙ m6-outside a h

  m8-bytes : ((a : ℕ) → m a < 256) → (a : ℕ) → m8 a < 256
  m8-bytes h = (set_free-Touched m7 q true).bytes (
      relink-bytes (first_or 0 ys) q m6 (
        (set_prev-Touched m5 q p).bytes (
          (set_next-Touched m4 p q).bytes (
            (set_next-Touched m3 q _).bytes (
              (set_size-Touched m2 p size).bytes
                ((set_size-Touched m1 q _).bytes ((memset-Touched m q).bytes h)))))))

-- The two blocks that `kheap_create_block` makes of the block `b`.
abbrev pub front : Block → (size : ℕ) → Block
front b size = record b { size = size }

abbrev pub back : Block → (size : ℕ) → Block
back b size = record { addr = b.addr + 32 + size; size = b.size - (size + 32); free = true }

module _ (m : Mem) (prev size : ℕ) (b : Block) (ys : List Block)
    (once : (a : ℕ) → cover a (b ∷ ys) ≤ 1) (larger : size + 32 < b.size) (is_free : b.free ≡ true)
    (s : Seg m prev 0 (b ∷ ys)) where
  pub split_memory-Replaces :
      Replaces m (split_memory b.addr size m) prev (b ∷ ys) (front b size ∷ back b size ∷ ys)
  split_memory-Replaces =
      subst (λ x. Replaces m x prev (b ∷ ys) (front b size ∷ back b size ∷ ys))
        (sym (split_memory-m8 m prev size b ys once larger s))
        (record {
          seg = (
            header_p8 m prev size b ys once larger s,
            s.1,
            omega (arith, s.2),
            (
              header_q8 m prev size b ys once larger s,
              omega arith,
              omega (arith, s.2),
              behind m prev size b ys once larger s,
            ),
          );
          first = refl;
          covers = λ a. ground arith;
          outside = λ a h.
              let (out, spared) = untouched a b ys h in
              m8-outside m prev size b ys once larger s a out spared;
          kept = λ a h h'.
              let (out, spared) =
                used_behind a b ys (once a) (rw (← used_at-free a b ys is_free) h) in
              m8-outside m prev size b ys once larger s a out spared;
          bytes = m8-bytes m prev size b ys once larger s;
        })
