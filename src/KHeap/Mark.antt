-- ===== src/KHeap/Mark.antt =====
-- What taking and freeing one block writes, of kmalloc and kfree of symphony/mm/kheap.c.
use orchestr_os.Base.{ℕ, ◌+◌, ◌≤◌, ◌≡◌, refl, ◌∙◌, Bool, true, false, List, ◌∷◌, arith}
use orchestr_os.Memory.{Mem, within, memset}
use orchestr_os.Memory.Block.{memset_lem}
use orchestr_os.KHeap.Header.{set_free, header-same, set_free-Touched, header-set_free}
use orchestr_os.KHeap.Blocks.{
  Block, untouched, used_behind, used_at-free, cover, used_at, headers_used_le, Seg,
  apart_of_headers_at, apart_header, Seg-frame,
}
use orchestr_os.KHeap.Replaces.{Replaces}

abbrev pub marked : Block → Bool → Block
marked b v = record b { free = v }

module _ (m : Mem) (prev : ℕ) (b : Block) (ys : List Block) (once : (a : ℕ) → cover a (b ∷ ys) ≤ 1)
    (s : Seg m prev 0 (b ∷ ys)) where
  used-apart : (a : ℕ) → 1 ≤ used_at a (b ∷ ys) → within b.addr 32 a ≡ false
  used-apart a h = ground (arith, once a, headers_used_le a ys)

  pub set_free-Replaces :
      (v : Bool) → Replaces m (set_free b.addr v m) prev (b ∷ ys) (marked b v ∷ ys)
  set_free-Replaces v =
      let touched = set_free-Touched m b.addr v in
      record {
        seg = (
          header-set_free m b.addr _ s.0 v,
          s.1,
          s.2,
          Seg-frame m (set_free b.addr v m) b.addr 0 ys
              (λ a h. touched.outside a (apart_header a b (apart_of_headers_at a b ys (once a) h)))
              s.3,
        );
        first = refl;
        covers = λ a. refl;
        outside = λ a h. touched.outside a (apart_header a b (untouched a b ys h).0);
        kept = λ a h h'. touched.outside a (used-apart a h);
        bytes = touched.bytes;
      }

  -- The memory after `kfree` has marked and filled the block.
  abbrev filled : Mem
  filled = memset (b.addr + 32) 0xff b.size (set_free b.addr true m)

  filled-outside : (a : ℕ) → within b.addr (32 + b.size) a ≡ false → filled a ≡ m a
  filled-outside a h =
      let touched = set_free-Touched m b.addr true in
      ground
        (arith, memset_lem (b.addr + 32) 0xff b.size (set_free b.addr true m) a, touched.outside a)

  pub poison-Replaces : Replaces m filled prev (b ∷ ys) (marked b true ∷ ys)
  poison-Replaces =
      let m' = set_free b.addr true m in
      record {
        seg = (
          header-same m' filled b.addr
                (λ a h. ground (arith, memset_lem (b.addr + 32) 0xff b.size m' a))
              ∙ header-set_free m b.addr _ s.0 true,
          s.1,
          s.2,
          Seg-frame m filled b.addr 0 ys
              (λ a h. filled-outside a (apart_of_headers_at a b ys (once a) h)) s.3,
        );
        first = refl;
        covers = λ a. refl;
        outside = λ a h. filled-outside a (untouched a b ys h).0;
        kept = λ a h h'.
            filled-outside a
              (used_behind a b ys (once a) (rw (← used_at-free a (marked b true) ys refl) h')).0;
        bytes = λ h a. ground (
          arith,
          memset_lem (b.addr + 32) 0xff b.size m' a,
          (set_free-Touched m b.addr true).bytes h a,
        );
      }
