-- ===== src/ErrorCode.antt =====
-- Error codes in pointers: IS_ERR_VALUE, ERR_PTR, PTR_ERR, IS_ERR and IS_ERR_OR_NULL of
-- include/symphony/error.h. A pointer is its 64-bit value.
mod Tests
pub mod Laws
use orchestr_os.Base.{ℕ, suc, ◌+◌, ◌-◌, ◌^◌, Bool, ◌||◌, ltb, leb, ◌==◌, if◌then◌else◌}
use orchestr_os.Base.Int.{ℤ, pos, negsuc}
use orchestr_os.Base.Word.{u64, sub64}

-- MAX_ERRNO
abbrev pub max_errno : ℕ
max_errno = 4095

-- `(uint64_t)-MAX_ERRNO` is the 64-bit negative of the `int`.
pub is_err_value : ℕ → Bool
is_err_value x = leb (sub64 0 max_errno) x

-- The bit pattern of an `int64_t`, and the `int64_t` of a bit pattern.
pub err_ptr : ℤ → ℕ
err_ptr (pos n) = u64 n
err_ptr (negsuc n) = sub64 0 (suc n)

pub ptr_err : ℕ → ℤ
ptr_err p = if ltb p (2 ^ 63) then pos p else negsuc (2 ^ 64 - p - 1)

pub is_err : ℕ → Bool
unfolding is_err_value
is_err p = is_err_value p

pub is_err_or_null : ℕ → Bool
unfolding is_err_value
is_err_or_null p = p == 0 || is_err_value p
