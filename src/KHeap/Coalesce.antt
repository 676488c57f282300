-- ===== src/KHeap/Coalesce.antt =====
-- The two merges of `kfree` of symphony/mm/kheap.c on a heap at work.
use orchestr_os.Base.{
  ℕ, ◌+◌, ◌<◌, ◌^◌, ◌≡◌, ◌⊎◌, inl, inr, refl, ap, ◌∙◌, Bool, Bool-cases, true, false, not, ◌&&◌,
  List, [], ◌∷◌, ◌++◌, arith, ◌==◌,
}
use orchestr_os.Base.Lists.{append_assoc}
use orchestr_os.Memory.{Mem}
use orchestr_os.BootProto.{Limine}
use orchestr_os.KHeap.{KHeap, memory_of, merge, merge_next, merge_prev, ends_at}
use orchestr_os.KHeap.Header.{Header, header}
use orchestr_os.KHeap.Blocks.{Block, uses, uses-append, uses-free}
use orchestr_os.KHeap.Merge.{joined}
use orchestr_os.KHeap.Invariant.{IsKHeap}
use orchestr_os.KHeap.Steps.{Step, Step-refl, seg_from, merge-Step}

-- Free blocks add nothing to a measure of the blocks in use.
uses-joined :
    (f : ℕ → ℕ → ℕ) (xs : List Block) (x y : Block) (ys : List Block)
    → x.free ≡ true
    → y.free ≡ true
    → uses f (xs ++ (joined x y ∷ ys)) ≡ uses f (xs ++ (x ∷ y ∷ ys))
uses-joined f xs x y ys hx hy = omega (
  arith,
  uses-append f xs (joined x y ∷ ys),
  uses-append f xs (x ∷ y ∷ ys),
  uses-free f (joined x y) ys hx,
  uses-free f x (y ∷ ys) hx,
  uses-free f y ys hy,
)

-- A step to a heap that has the same blocks in use.
pub record Merges (l : Limine) (s : KHeap) (bs : List Block) (s' : KHeap) (bs' : List Block)
    : Type 0 where
  pub step : Step l s bs s' bs'
  pub measure : (f : ℕ → ℕ → ℕ) → uses f bs' ≡ uses f bs

Merges-refl : (l : Limine) (s : KHeap) (bs : List Block) → IsKHeap l s bs → Merges l s bs s bs
Merges-refl l s bs inv = record { step = Step-refl l s bs inv; measure = λ f. refl }

ends_at_lem :
    (m : Mem) (bh next size : ℕ)
    → (header m bh).size ≡ size
    → bh + 32 + size < 2 ^ 64
    → ends_at m bh next ≡ true
    → bh + 32 + size ≡ next
unfolding ends_at
ends_at_lem m bh next size e fits meet = ground arith

-- The two outcomes of the first merge, by what stands in the headers.
merge_next-merges :
    (s : KHeap) (bh next : ℕ)
    → (header (memory_of s) bh).next ≡ next
    → 0 < next
    → ((header (memory_of s) next).free && ends_at (memory_of s) bh next) ≡ true
    → merge_next bh s ≡ merge bh next s
unfolding merge_next
merge_next-merges s bh next e pos both =
    let there : (next == 0) ≡ false = ground arith in rw (e, there, both) refl

merge_next-stays :
    (s : KHeap) (bh next : ℕ)
    → (header (memory_of s) bh).next ≡ next
    → (not (next == 0) && ((header (memory_of s) next).free && ends_at (memory_of s) bh next))
      ≡ false
    → merge_next bh s ≡ s
unfolding merge_next
merge_next-stays s bh next e apart = rw (e, apart) refl

merge_prev-merges :
    (s : KHeap) (bh prev : ℕ)
    → (header (memory_of s) bh).prev ≡ prev
    → 0 < prev
    → ((header (memory_of s) prev).free && ends_at (memory_of s) prev bh) ≡ true
    → merge_prev bh s ≡ merge prev bh s
unfolding merge_prev
merge_prev-merges s bh prev e pos both =
    let there : (prev == 0) ≡ false = ground arith in rw (e, there, both) refl

merge_prev-stays :
    (s : KHeap) (bh prev : ℕ)
    → (header (memory_of s) bh).prev ≡ prev
    → (not (prev == 0) && ((header (memory_of s) prev).free && ends_at (memory_of s) prev bh))
      ≡ false
    → merge_prev bh s ≡ s
unfolding merge_prev
merge_prev-stays s bh prev e apart = rw (e, apart) refl

and_true : (b c : Bool) → (b && c) ≡ true → (b ≡ true) × (c ≡ true)
and_true true c h = (refl, h)
and_true false c h = absurd (cc)

and_false : (b : Bool) → (b && false) ≡ false
and_false true = refl
and_false false = refl

module _ (l : Limine) (s : KHeap) (xs : List Block) where
  merge-Merges :
      (x y : Block) (ys : List Block)
      → IsKHeap l s (xs ++ (x ∷ y ∷ ys))
      → x.free ≡ true
      → y.free ≡ true
      → ends_at (memory_of s) x.addr y.addr ≡ true
      → Merges l s (xs ++ (x ∷ y ∷ ys)) (merge x.addr y.addr s) (xs ++ (joined x y ∷ ys))
  merge-Merges x y ys inv hx hy meet =
      let seg = seg_from l s xs (x ∷ y ∷ ys) inv in
      let at =
        ends_at_lem (memory_of s) x.addr y.addr x.size (ap (λ (h : Header). h.size) seg.0) seg.2
          meet in
      record {
        step = merge-Step l s xs x y ys inv at hx hy;
        measure = λ f. uses-joined f xs x y ys hx hy;
      }

  -- The first merge leaves the freed block where it is.
  pub merge_next-Merges :
      (x : Block) (ys : List Block)
      → IsKHeap l s (xs ++ (x ∷ ys))
      → x.free ≡ true
      → (x' : Block) × (ys' : List Block) × Merges l s
          (xs ++ (x ∷ ys))
          (merge_next x.addr s)
          (xs ++ (x' ∷ ys'))
        × (x'.addr ≡ x.addr)
        × (x'.free ≡ true)
  merge_next-Merges x [] inv hx =
      let seg = seg_from l s xs (x ∷ []) inv in
      let stays = merge_next-stays s x.addr 0 (ap (λ (h : Header). h.next) seg.0) refl in
      (x, [], rw (stays) (Merges-refl l s (xs ++ (x ∷ [])) inv), refl, hx)
  merge_next-Merges x (y ∷ ys) inv hx =
      let seg = seg_from l s xs (x ∷ y ∷ ys) inv in
      let m = memory_of s in
      let next = ap (λ (h : Header). h.next) seg.0 in
      let free = ap (λ (h : Header). h.free) seg.3.0 in
      elim (Bool-cases (y.free && ends_at m x.addr y.addr)) [
        | inl both ↦
            let (hy, meet) = and_true y.free _ both in
            let merges = merge_next-merges s x.addr y.addr next seg.3.1 (rw (free) both) in
            (joined x y, ys, rw (merges) (merge-Merges x y ys inv hx hy meet), refl, hx)
        | inr apart ↦
            let stays = merge_next-stays s x.addr y.addr next (rw (free, apart) (and_false _)) in
            (x, y ∷ ys, rw (stays) (Merges-refl l s (xs ++ (x ∷ y ∷ ys)) inv), refl, hx)
      ]

-- A list has a last element or none.
pub last-cases :
    (xs : List Block) → (xs ≡ []) ⊎ ((ws : List Block) × (w : Block) × (xs ≡ ws ++ (w ∷ [])))
last-cases [] = inl refl
last-cases (x ∷ xs) = elim (last-cases xs) [
  | inl e ↦ inr ([], x, ap (λ l. x ∷ l) e)
  | inr (ws, w, e) ↦ inr (x ∷ ws, w, ap (λ l. x ∷ l) e)
]

module _ (l : Limine) (s : KHeap) where
  merge_prev-first :
      (x : Block) (ys : List Block)
      → IsKHeap l s (x ∷ ys)
      → Merges l s (x ∷ ys) (merge_prev x.addr s) (x ∷ ys)
  merge_prev-first x ys inv =
      let seg = seg_from l s [] (x ∷ ys) inv in
      let stays = merge_prev-stays s x.addr 0 (ap (λ (h : Header). h.prev) seg.0) refl in
      rw (stays) (Merges-refl l s (x ∷ ys) inv)

  merge_prev-behind :
      (ws : List Block) (w x : Block) (ys : List Block)
      → IsKHeap l s (ws ++ (w ∷ x ∷ ys))
      → x.free ≡ true
      → (bs' : List Block) × Merges l s (ws ++ (w ∷ x ∷ ys)) (merge_prev x.addr s) bs'
  merge_prev-behind ws w x ys inv hx =
      let seg = seg_from l s ws (w ∷ x ∷ ys) inv in
      let m = memory_of s in
      let prev = ap (λ (h : Header). h.prev) seg.3.0 in
      let free = ap (λ (h : Header). h.free) seg.0 in
      elim (Bool-cases (w.free && ends_at m w.addr x.addr)) [
        | inl both ↦
            let (hw, meet) = and_true w.free _ both in
            let merges = merge_prev-merges s x.addr w.addr prev seg.1 (rw (free) both) in
            (ws ++ (joined w x ∷ ys), rw (merges) (merge-Merges l s ws w x ys inv hw hx meet))
        | inr apart ↦
            let stays = merge_prev-stays s x.addr w.addr prev (rw (free, apart) (and_false _)) in
            (ws ++ (w ∷ x ∷ ys), rw (stays) (Merges-refl l s (ws ++ (w ∷ x ∷ ys)) inv))
      ]

  pub merge_prev-Merges :
      (xs : List Block) (x : Block) (ys : List Block)
      → IsKHeap l s (xs ++ (x ∷ ys))
      → x.free ≡ true
      → (bs' : List Block) × Merges l s (xs ++ (x ∷ ys)) (merge_prev x.addr s) bs'
  merge_prev-Merges xs x ys inv hx = elim (last-cases xs) [
    | inl none ↦
        let e : xs ++ (x ∷ ys) ≡ x ∷ ys = ap (λ t. t ++ (x ∷ ys)) none in
        rw (e) (x ∷ ys, merge_prev-first x ys (rw (← e) inv))
    | inr (ws, w, some) ↦
        let e : xs ++ (x ∷ ys) ≡ ws ++ (w ∷ x ∷ ys) =
          ap (λ t. t ++ (x ∷ ys)) some ∙ append_assoc ws (w ∷ []) (x ∷ ys) in
        rw (e) (merge_prev-behind ws w x ys (rw (← e) inv) hx)
  ]
