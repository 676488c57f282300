-- ===== src/Paging/Index.antt =====
-- `page_index` of symphony/arch/x86_64/mm.c.
use orchestr_os.Base.{ℕ, ◌+◌, ◌*◌, ◌/◌, ◌%◌, ◌^◌, ◌<◌, ◌≡◌, ◌↔◌, arith, ap, sym, ◌∙◌}

-- The indexes in the four levels of tables: Pi, PTi, PDi, PDPi.
pub record Indexes : Type 0 where
  pub page : ℕ
  pub table : ℕ
  pub directory : ℕ
  pub pointer : ℕ

unfoldable pub page_index : (virt_addr : ℕ) → Indexes
page_index virt_addr =
    let v1 = virt_addr / 2 ^ 12 in
    let v2 = v1 / 2 ^ 9 in
    let v3 = v2 / 2 ^ 9 in
    let v4 = v3 / 2 ^ 9 in
    record { page = v1 % 2 ^ 9; table = v2 % 2 ^ 9; directory = v3 % 2 ^ 9; pointer = v4 % 2 ^ 9 }

-- The number of the page, put together from the indexes.
abbrev pub page_number : Indexes → ℕ
page_number i = i.page + i.table * 2 ^ 9 + i.directory * 2 ^ 18 + i.pointer * 2 ^ 27

page_index-page_number : (v : ℕ) → page_number (page_index v) ≡ v / 2 ^ 12 % 2 ^ 36
unfolding page_index
page_index-page_number v = omega arith

-- Every index is one of a table's 512 entries, and two addresses have the same indexes exactly if
-- they lie in the same page, by the 48 bits of an address that the tables translate.
pub page_index-same_page :
    (v w : ℕ)
    → ((page_index v).page < 512)
      × ((page_index v).table < 512)
      × ((page_index v).directory < 512)
      × ((page_index v).pointer < 512)
      × ((page_index v ≡ page_index w) ↔ (v / 2 ^ 12 % 2 ^ 36 ≡ w / 2 ^ 12 % 2 ^ 36))
unfolding page_index
page_index-same_page v w = (
  omega arith,
  omega arith,
  omega arith,
  omega arith,
  (
    (λ e. sym (page_index-page_number v) ∙ ap page_number e ∙ page_index-page_number w),
    (λ e. ground arith),
  ),
)
