-- ===== src/ErrorCode/Laws.antt =====
-- The laws of error codes in pointers, of include/symphony/error.h.
use orchestr_os.Base.{ℕ, ◌^◌, ◌≤◌, ◌<◌, ◌≡◌, ◌↔◌, ◌⊎◌, true, arith}
use orchestr_os.Base.Int.{ℤ, pos, negsuc, neg_part, pos_part}
use orchestr_os.ErrorCode.{max_errno, err_ptr, ptr_err, is_err, is_err_or_null}

-- An `int64_t`
abbrev pub IsInt64 : ℤ → Type 0
IsInt64 e = (pos_part e < 2 ^ 63) × (neg_part e ≤ 2 ^ 63)

-- `PTR_ERR(ERR_PTR(e))` is `e`, for every `int64_t`.
pub ptr_err-err_ptr : (e : ℤ) → IsInt64 e → ptr_err (err_ptr e) ≡ e
unfolding ptr_err err_ptr
ptr_err-err_ptr (pos n) h = ground arith
ptr_err-err_ptr (negsuc n) h = ground arith

-- `ERR_PTR(PTR_ERR(p))` is `p`, for every pointer.
pub err_ptr-ptr_err : (p : ℕ) → p < 2 ^ 64 → err_ptr (ptr_err p) ≡ p
unfolding ptr_err err_ptr
err_ptr-ptr_err p h = ground arith

-- `IS_ERR` recognises exactly the pointers that stand for -1 to -4095.
pub is_err_iff :
    (e : ℤ)
    → IsInt64 e
    → (is_err (err_ptr e) ≡ true) ↔ ((1 ≤ neg_part e) × (neg_part e ≤ max_errno))
unfolding is_err err_ptr
is_err_iff (pos n) h = ground arith
is_err_iff (negsuc n) h = ground arith

-- `IS_ERR_OR_NULL` recognises these and 0.
pub is_err_or_null_iff :
    (e : ℤ)
    → IsInt64 e
    → (is_err_or_null (err_ptr e) ≡ true)
      ↔ ((e ≡ pos 0) ⊎ ((1 ≤ neg_part e) × (neg_part e ≤ max_errno)))
unfolding is_err_or_null err_ptr
is_err_or_null_iff (pos n) h = ground arith
is_err_or_null_iff (negsuc n) h = ground arith
