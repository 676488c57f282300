-- ===== src/ErrorCode/Tests.antt =====
-- Error codes in pointers, at ENOMEM.
use orchestr_os.Base.{◌^◌, ◌-◌, ◌≤◌, ◌≡◌, ◌↔◌, refl, true, false, arith}
use orchestr_os.Base.Int.{ℤ, negsuc, neg_part}
use orchestr_os.ErrorCode.{max_errno, err_ptr, ptr_err, is_err}
use orchestr_os.ErrorCode.Laws.{ptr_err-err_ptr, err_ptr-ptr_err, is_err_iff}

-- -12
abbrev enomem : ℤ
enomem = negsuc 11

a_plain_pointer : is_err 0xffff_8000_0000_0000 ≡ false
unfolding is_err
a_plain_pointer = refl

ptr_err-err_ptr_example : ptr_err (err_ptr enomem) ≡ enomem
ptr_err-err_ptr_example = ptr_err-err_ptr enomem (omega arith)

err_ptr-ptr_err_example : err_ptr (ptr_err (2 ^ 64 - 12)) ≡ 2 ^ 64 - 12
err_ptr-ptr_err_example = err_ptr-ptr_err (2 ^ 64 - 12) (omega arith)

is_err_iff_example :
    (is_err (err_ptr enomem) ≡ true) ↔ ((1 ≤ neg_part enomem) × (neg_part enomem ≤ max_errno))
is_err_iff_example = is_err_iff enomem (omega arith)
