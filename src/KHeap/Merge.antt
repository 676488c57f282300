-- ===== src/KHeap/Merge.antt =====
-- What a merge of kfree of symphony/mm/kheap.c writes: two blocks become one.
use orchestr_os.Base.{ℕ, ◌+◌, ◌≤◌, ◌<◌, ◌≡◌, refl, sym, ◌∙◌, inl, true, false, List, ◌∷◌, arith}
use mathlib.Core.Path.{subst}
use orchestr_os.Base.Word.{u64}
use orchestr_os.Memory.{Mem, within}
use orchestr_os.KHeap.{merge_memory}
use orchestr_os.KHeap.Header.{
  header, set_size, set_next, relink, header-same, header-apart, set_size-Touched, set_next-Touched,
  header-set_size, header-set_next,
}
use orchestr_os.KHeap.Blocks.{
  Block, relink-bytes, untouched, used_behind, used_at-free, cover, headers_at, used_at, first_or,
  Seg, first_or-lt, apart_of_headers_at, apart_header, Seg-frame, relink-Seg, relink-outside,
  no_header_behind,
}
use orchestr_os.KHeap.Replaces.{Replaces}

-- The block that takes in the one behind it.
abbrev pub joined : Block → Block → Block
joined x y = record x { size = x.size + (y.size + 32) }

module _ (m : Mem) (prev : ℕ) (x y : Block) (ys : List Block)
    (once : (a : ℕ) → cover a (x ∷ y ∷ ys) ≤ 1) (meet : x.addr + 32 + x.size ≡ y.addr)
    (x_free : x.free ≡ true) (y_free : y.free ≡ true) (s : Seg m prev 0 (x ∷ y ∷ ys)) where
  abbrev p : ℕ
  p = x.addr

  abbrev size : ℕ
  size = x.size + (y.size + 32)

  abbrev m1 : Mem
  m1 = set_size p size m

  abbrev m2 : Mem
  m2 = relink (first_or 0 ys) p m1

  abbrev m3 : Mem
  m3 = set_next p (first_or 0 ys) m2

  joined-cover : (a : ℕ) → cover a (joined x y ∷ ys) ≡ cover a (x ∷ y ∷ ys)
  joined-cover a = ground (arith, once a)

  joined-once : (a : ℕ) → cover a (joined x y ∷ ys) ≤ 1
  joined-once a = rw (joined-cover a) (once a)

  spared : (a : ℕ) → within p (32 + size) a ≡ true → m2 a ≡ m1 a
  spared a h = relink-outside m1 p ys a (no_header_behind a (joined x y) ys (joined-once a) h)

  header_p1 : header m1 p ≡ record { size = size; free = x.free; next = y.addr; prev = prev }
  header_p1 = header-set_size m p _ s.0 size (omega (arith, s.3.2))

  header_p2 : header m2 p ≡ record { size = size; free = x.free; next = y.addr; prev = prev }
  header_p2 = header-same m1 m2 p (λ a h. spared a (ground arith)) ∙ header_p1

  header_y1 :
      header m1 y.addr ≡ record { size = y.size; free = y.free; next = first_or 0 ys; prev = p }
  header_y1 = header-apart y.addr (set_size-Touched m p size) (inl (omega arith)) ∙ s.3.0

  header_y2 :
      header m2 y.addr ≡ record { size = y.size; free = y.free; next = first_or 0 ys; prev = p }
  header_y2 = header-same m1 m2 y.addr (λ a h. spared a (ground arith)) ∙ header_y1

  merge_memory-m3 : merge_memory p y.addr m ≡ m3
  unfolding merge_memory
  merge_memory-m3 =
      let word : u64 size ≡ size = omega (arith, s.3.2) in
      rw (s.0, s.3.0, word, header_y1, header_y2) refl

  header_p3 : header m3 p ≡ record { size = size; free = x.free; next = first_or 0 ys; prev = prev }
  header_p3 = header-set_next m2 p _ header_p2 (first_or 0 ys) (first_or-lt m y.addr ys s.3.3)

  m3-outside : (a : ℕ) → within p (32 + size) a ≡ false → headers_at a ys ≡ 0 → m3 a ≡ m a
  m3-outside a h h' =
      (set_next-Touched m2 p _).outside a (ground arith)
      ∙ relink-outside m1 p ys a h'
      ∙ (set_size-Touched m p size).outside a (ground arith)

  m3-bytes : ((a : ℕ) → m a < 256) → (a : ℕ) → m3 a < 256
  m3-bytes h =
      (set_next-Touched m2 p _).bytes
        (relink-bytes (first_or 0 ys) p m1 ((set_size-Touched m p size).bytes h))

  behind : Seg m3 p 0 ys
  behind =
      Seg-frame m2 m3 p 0 ys
        (λ a h.
          (set_next-Touched m2 p _).outside a
            (apart_header a (joined x y) (apart_of_headers_at a (joined x y) ys (joined-once a) h)))
        (relink-Seg m1 y.addr p ys (omega (arith, s.3.2)) (λ a. ground (arith, once a))
          (Seg-frame m m1 y.addr 0 ys
            (λ a h. (set_size-Touched m p size).outside a (
              apart_header a (joined x y)
                (apart_of_headers_at a (joined x y) ys (joined-once a) h)))
            s.3.3))

  used_joined : (a : ℕ) → used_at a (x ∷ y ∷ ys) ≡ used_at a ys
  used_joined a = used_at-free a x (y ∷ ys) x_free ∙ used_at-free a y ys y_free

  pub merge_memory-Replaces :
      Replaces m (merge_memory p y.addr m) prev (x ∷ y ∷ ys) (joined x y ∷ ys)
  merge_memory-Replaces =
      subst (λ t. Replaces m t prev (x ∷ y ∷ ys) (joined x y ∷ ys)) (sym merge_memory-m3)
        (record {
          seg = (header_p3, s.1, omega (arith, s.3.2), behind);
          first = refl;
          covers = joined-cover;
          outside = λ a h.
              let (out, spared) = untouched a (joined x y) ys (joined-cover a ∙ h) in
              m3-outside a out spared;
          kept = λ a h h'.
              let (out, spared) =
                used_behind a (joined x y) ys (joined-once a) (rw (← used_joined a) h) in
              m3-outside a out spared;
          bytes = m3-bytes;
        })
