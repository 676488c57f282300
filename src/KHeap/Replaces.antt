-- ===== src/KHeap/Replaces.antt =====
-- The end of the block list of symphony/mm/kheap.c, rewritten.
use orchestr_os.Base.{ℕ, ◌≤◌, ◌<◌, ◌≡◌, sym, ap, ◌∙◌, List, ◌++◌, arith}
use orchestr_os.Memory.{Mem}
use orchestr_os.KHeap.Blocks.{
  Block, cover, used_at, first_or, last_or, Seg, cover-append, headers_used_le, first_or-append,
  Seg-join, Seg-split, Seg-frame, used_at-append,
}

-- The end of the list from one block on was rewritten: the blocks `zs` became `zs'`, which take up the
-- same bytes. What was written lies in these blocks, and not in the bytes of one that was in use and
-- still is.
pub record Replaces (m m' : Mem) (prev : ℕ) (zs zs' : List Block) : Type 0 where
  pub seg : Seg m' prev 0 zs'
  pub first : first_or 0 zs' ≡ first_or 0 zs
  pub covers : (a : ℕ) → cover a zs' ≡ cover a zs
  pub outside : (a : ℕ) → cover a zs ≡ 0 → m' a ≡ m a
  pub kept : (a : ℕ) → 1 ≤ used_at a zs → 1 ≤ used_at a zs' → m' a ≡ m a
  pub bytes : ((a : ℕ) → m a < 256) → (a : ℕ) → m' a < 256

-- The whole list after its end was rewritten.
pub Replaces-append :
    {m m' : Mem} {prev : ℕ} {zs zs' : List Block} (xs : List Block)
    → ((a : ℕ) → cover a (xs ++ zs) ≤ 1)
    → Seg m prev 0 (xs ++ zs)
    → Replaces m m' (last_or prev xs) zs zs'
    → Replaces m m' prev (xs ++ zs) (xs ++ zs')
Replaces-append {m} {m'} {prev} {zs} {zs'} xs once s r = record {
  seg =
      Seg-join m' prev 0 xs zs'
        (rw (r.first) (
          Seg-frame m m' prev (first_or 0 zs) xs
            (λ a h.
              r.outside a (omega (arith, h, once a, cover-append a xs zs, headers_used_le a xs)))
            (Seg-split m prev 0 xs zs s).0))
        r.seg;
  first =
      first_or-append 0 xs zs' ∙ ap (λ f. first_or f xs) r.first ∙ sym (first_or-append 0 xs zs);
  covers = λ a. omega (arith, cover-append a xs zs, cover-append a xs zs', r.covers a);
  outside = λ a h. r.outside a (omega (arith, h, cover-append a xs zs));
  kept = λ a h h'. kept_lem a h h';
  bytes = r.bytes;
}
  where
    kept_lem : (a : ℕ) → 1 ≤ used_at a (xs ++ zs) → 1 ≤ used_at a (xs ++ zs') → m' a ≡ m a
    kept_lem a h h' = ground (
      arith,
      once a,
      cover-append a xs zs,
      used_at-append a xs zs,
      used_at-append a xs zs',
      headers_used_le a xs,
      r.outside a,
      r.kept a,
    )
