-- ===== src/KHeap/Find.antt =====
-- The loop of `kmalloc` of symphony/mm/kheap.c: the first block that is free and large enough.
use orchestr_os.Base.{
  ℕ, zero, suc, ◌+◌, ◌<◌, ◌^◌, ◌≡◌, ◌⊎◌, inl, inr, refl, ap, ◌∙◌, Bool, Bool-cases, true, false,
  not, ◌&&◌, ◌||◌, none, some, List, [], ◌∷◌, ◌++◌, ltb, leb, arith, ◌==◌, if◌then◌else◌,
}
use orchestr_os.Base.Lists.{length}
use orchestr_os.Base.Run.{ok}
use orchestr_os.Base.Word.{u64}
use orchestr_os.KHeap.{KHeap, memory_of, take, kheap_create_block, find_block}
use orchestr_os.KHeap.Header.{header}
use orchestr_os.KHeap.Blocks.{Block, first_or, Seg}

abbrev pub fits : (size : ℕ) → Block → Bool
fits size b = b.free && leb size b.size

-- None of the blocks is free and large enough.
abbrev pub NoneFits : (size : ℕ) → List Block → Type 0
NoneFits size [] = Unit {0}
NoneFits size (b ∷ bs) = (fits size b ≡ false) × NoneFits size bs

-- What the loop does to the block that it takes: it splits off what is more than a header too large.
abbrev pub taken : (size : ℕ) → Block → KHeap → KHeap
taken size b s =
    if leb b.size (size + 32) then take b.addr s else take b.addr (kheap_create_block b.addr size s)

module _ (fuel size : ℕ) (s : KHeap) (small : size + 32 < 2 ^ 64) where
  find_block-end : find_block (suc fuel) size 0 s ≡ ok none s
  unfolding find_block
  find_block-end = refl

  find_block-skip :
      (b : Block) (next prev : ℕ)
      → header (memory_of s) b.addr
        ≡ record { size = b.size; free = b.free; next = next; prev = prev }
      → 0 < b.addr
      → fits size b ≡ false
      → find_block (suc fuel) size b.addr s ≡ find_block fuel size next s
  unfolding find_block
  find_block-skip b next prev e pos unfit =
      let there : (b.addr == 0) ≡ false = ground arith in
      let skipped : (not b.free || ltb b.size size) ≡ true = ground (arith, unfit) in
      rw (e, there, skipped) refl

  find_block-take :
      (b : Block) (next prev : ℕ)
      → header (memory_of s) b.addr
        ≡ record { size = b.size; free = b.free; next = next; prev = prev }
      → 0 < b.addr
      → b.addr + 32 < 2 ^ 64
      → fits size b ≡ true
      → find_block (suc fuel) size b.addr s ≡ ok (some (b.addr + 32)) (taken size b s)
  unfolding find_block
  find_block-take b next prev e pos at fit =
      let there : (b.addr == 0) ≡ false = ground arith in
      let considered : (not b.free || ltb b.size size) ≡ false = ground (arith, fit) in
      let word : u64 (size + 32) ≡ size + 32 = omega arith in
      let result : u64 (b.addr + 32) ≡ b.addr + 32 = omega arith in
      rw (e, there, considered, word, result)
        (elim (Bool-cases (leb b.size (size + 32))) [
          | inl exact ↦
              let first : (b.size == size || (ltb size b.size && leb b.size (size + 32))) ≡ true =
                ground (arith, fit, exact) in
              rw (first, exact) refl
          | inr large ↦
              let first : (b.size == size || (ltb size b.size && leb b.size (size + 32))) ≡ false =
                ground (arith, large) in
              let second : ltb (size + 32) b.size ≡ true = ground (arith, large) in
              rw (first, second, large) refl
        ])

-- The first block that fits, among the blocks `zs`, and what the loop does.
pub record Found (fuel size : ℕ) (s : KHeap) (zs : List Block) : Type 0 where
  pub before : List Block
  pub block : Block
  pub behind : List Block
  pub split : zs ≡ before ++ (block ∷ behind)
  pub first : NoneFits size before
  pub fit : fits size block ≡ true
  pub result :
      find_block fuel size (first_or 0 zs) s ≡ ok (some (block.addr + 32)) (taken size block s)

-- The loop over the blocks `zs`, with more fuel than there are blocks, ends: at the list's end, with
-- nothing changed, where no block fits, and else at the first block that fits.
pub find_block-Found :
    (fuel size prev : ℕ) (s : KHeap) (zs : List Block)
    → size + 32 < 2 ^ 64
    → Seg (memory_of s) prev 0 zs
    → length zs < fuel
    → (NoneFits size zs × (find_block fuel size (first_or 0 zs) s ≡ ok none s))
      ⊎ Found fuel size s zs
find_block-Found zero size prev s zs small seg enough = absurd (omega arith)
find_block-Found (suc fuel) size prev s [] small seg enough =
    inl (tt, find_block-end fuel size s small)
find_block-Found (suc fuel) size prev s (b ∷ zs) small (e, pos, at, seg) enough =
    elim (Bool-cases (fits size b)) [
      | inl fit ↦ inr (record {
        before = [];
        block = b;
        behind = zs;
        split = refl;
        first = tt;
        fit = fit;
        result = find_block-take fuel size s small b (first_or 0 zs) prev e pos (omega arith) fit;
      })
      | inr unfit ↦
          let skip = find_block-skip fuel size s small b (first_or 0 zs) prev e pos unfit in
          elim (find_block-Found fuel size b.addr s zs small seg (omega arith)) [
            | inl (none_fits, ends) ↦ inl ((unfit, none_fits), skip ∙ ends)
            | inr found ↦ inr (record {
              before = b ∷ found.before;
              block = found.block;
              behind = found.behind;
              split = ap (λ t. b ∷ t) found.split;
              first = (unfit, found.first);
              fit = found.fit;
              result = skip ∙ found.result;
            })
          ]
    ]
