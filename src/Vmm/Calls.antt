-- ===== src/Vmm/Calls.antt =====
-- What the calls of `vmm_map` in symphony/mm/vmm.c leave of the map from pages to entries: the last
-- call for a page decides.
use orchestr_os.Base.{
  ℕ, ◌≤◌, ◌*◌, ◌/◌, ◌%◌, ◌^◌, ◌<◌, ◌≡◌, ◌≢◌, ◌↔◌, refl, sym, ap, ◌∙◌, Bool, true, false, Bool-cases,
  inl, inr, Option, none, some, List, [], ◌∷◌, ◌++◌, ◌==◌, ==_iff, if◌then◌else◌, arith,
}
use mathlib.Core.Path.{subst}
use orchestr_os.Base.Lists.{length}
use orchestr_os.BootProto.{Limine}
use orchestr_os.Pmm.State.{Pmm, is_used}
use orchestr_os.Paging.Index.{page_index, page_index-same_page}
use orchestr_os.Paging.Entry.{PageTableEntry, has_present, map_entry}
use orchestr_os.Paging.Tables.{TableAt, IsPaging, Maps}
use orchestr_os.Paging.Tables.Grow.{Untouched}
use orchestr_os.Paging.Tables.Map.{FitsFields, Updates, page_index-IsIndexes}
use orchestr_os.Vmm.{MapCall}

-- The addresses lie in one page of those that four levels of tables tell apart.
abbrev pub same_page : (v w : ℕ) → Bool
same_page v w = (v / 2 ^ 12 % 2 ^ 36) == (w / 2 ^ 12 % 2 ^ 36)

abbrev pub or_else : Option MapCall → Option MapCall → Option MapCall
or_else (some c) d = some c
or_else none d = d

-- The last call for the page of an address.
abbrev pub last_call : (v : ℕ) → List MapCall → Option MapCall
last_call v [] = none
last_call v (c ∷ cs) = or_else (last_call v cs) (if same_page v c.virt_addr then some c else none)

or_else_assoc : (x y z : Option MapCall) → or_else (or_else x y) z ≡ or_else x (or_else y z)
or_else_assoc (some x) y z = refl
or_else_assoc none y z = refl

or_else-none : (x : Option MapCall) → or_else x none ≡ x
or_else-none none = refl
or_else-none (some x) = refl

pub last_call-append :
    (v : ℕ) (xs ys : List MapCall)
    → last_call v (xs ++ ys) ≡ or_else (last_call v ys) (last_call v xs)
last_call-append v [] ys = sym (or_else-none (last_call v ys))
last_call-append v (x ∷ xs) ys =
    ap (λ o. or_else o (if same_page v x.virt_addr then some x else none))
      (last_call-append v xs ys)
    ∙ or_else_assoc (last_call v ys) (last_call v xs) _

-- The page of the address after the calls, by the last one for it.
abbrev pub After : Limine → Pmm → (pt flags v : ℕ) → Option MapCall → Pmm → Type 0
After l s pt flags v none s' =
    (e : PageTableEntry)
    → Maps l s.memory pt (page_index v) e ↔ Maps l s'.memory pt (page_index v) e
After l s pt flags v (some c) s' =
    (old : PageTableEntry) × FitsFields old
    × Maps l s'.memory pt (page_index v) (map_entry c.phys_addr flags old)

-- The state after the calls.
pub record Ran (l : Limine) (s : Pmm) (pt flags : ℕ) (calls : List MapCall) (s' : Pmm)
    : Type 0 where
  pub paging : IsPaging l s' pt
  pub bitmap_size : s'.bitmap_size ≡ s.bitmap_size
  pub after : (v : ℕ) → After l s pt flags v (last_call v calls) s'
  pub used : (k : ℕ) → k < s.bitmap_size * 8 → is_used s k ≡ true → is_used s' k ≡ true
  pub tables :
      (p : List ℕ) (x : ℕ) → length p ≤ 3 → TableAt l s.memory pt p x → TableAt l s'.memory pt p x
  pub kept : (a : ℕ) → Untouched l s pt a → Untouched l s' pt a × (s'.memory a ≡ s.memory a)

After-trans :
    (l : Limine) (s t u : Pmm) (pt flags v : ℕ) (c d : Option MapCall)
    → After l s pt flags v c t
    → After l t pt flags v d u
    → After l s pt flags v (or_else d c) u
After-trans l s t u pt flags v c (some d) a b = b
After-trans l s t u pt flags v none none a b =
    λ e. ((λ h. (b e).0 ((a e).0 h)), (λ h. (a e).1 ((b e).1 h)))
After-trans l s t u pt flags v (some c) none (old, fits, h) b = (old, fits, (b _).0 h)

pub Ran-append :
    {l : Limine} {s t u : Pmm} {pt flags : ℕ} (xs ys : List MapCall)
    → Ran l s pt flags xs t
    → Ran l t pt flags ys u
    → Ran l s pt flags (xs ++ ys) u
Ran-append {l} {s} {t} {u} {pt} {flags} xs ys a b = record {
  paging = b.paging;
  bitmap_size = b.bitmap_size ∙ a.bitmap_size;
  after = λ v.
      subst (λ o. After l s pt flags v o u) (sym (last_call-append v xs ys))
        (After-trans l s t u pt flags v (last_call v xs) (last_call v ys) (a.after v) (b.after v));
  used = λ k lt h. b.used k (rw (a.bitmap_size) lt) (a.used k lt h);
  tables = λ p x h at. b.tables p x h (a.tables p x h at);
  kept = λ x h. let (h', e) = a.kept x h in let (h'', e') = b.kept x h' in (h'', e' ∙ e);
}

pub Ran-nil : {l : Limine} {s : Pmm} {pt flags : ℕ} → IsPaging l s pt → Ran l s pt flags [] s
Ran-nil inv = record {
  paging = inv;
  bitmap_size = refl;
  after = λ v e. ((λ h. h), (λ h. h));
  used = λ k lt h. h;
  tables = λ p x h at. at;
  kept = λ a h. (h, refl);
}

-- One call.
pub Updates-Ran :
    (l : Limine) (s : Pmm) (pt flags n : ℕ) (c : MapCall) (s' : Pmm)
    → has_present flags ≡ true
    → Updates l s pt (page_index c.virt_addr) n (map_entry c.phys_addr flags) s'
    → Ran l s pt flags (c ∷ []) s'
unfolding map_entry
Updates-Ran l s pt flags n c s' present (old, fits, changed) = record {
  paging = changed.paging;
  bitmap_size = changed.bitmap_size;
  after = λ v. elim (Bool-cases (same_page v c.virt_addr)) [
    | inl same ↦
        let e : page_index v ≡ page_index c.virt_addr =
          (page_index-same_page v c.virt_addr).4.1 ((==_iff _ _).0 same) in
        rw (same) (old, fits, record { leaf = rw (e) changed.leaf; present = present })
    | inr differ ↦
        let ne : page_index v ≢ page_index c.virt_addr = λ e.
          not_same (v / 2 ^ 12 % 2 ^ 36) (c.virt_addr / 2 ^ 12 % 2 ^ 36) differ
            ((page_index-same_page v c.virt_addr).4.0 e) in
        let is = page_index-IsIndexes v in
        rw (differ)
          (λ e. (changed.maps (page_index v) e is ne, changed.maps_back (page_index v) e is ne))
  ];
  used = changed.used;
  tables = changed.tables;
  kept = changed.kept;
}
  where
    not_same : (x y : ℕ) → (x == y) ≡ false → x ≢ y
    not_same x y h e = ground (arith, h, e)
