-- ===== src/Debug/Format/Plain.antt =====
-- `debug_vprintf` of symphony/debug.c on text without conversions, and on `%%`.
use orchestr_os.Base.{ℕ, zero, suc, ◌*◌, ◌<◌, ◌≡◌, refl, false, some, List, [], ◌∷◌, arith, ◌==◌}
use orchestr_os.Base.Lists.{length, replicate}
use orchestr_os.Debug.Format.{
  format, vprintf, conversion, parse_flags, new_flag, parse_width, parse_length, fetch, convert,
}

-- No character is a `%`.
abbrev pub IsPlain : List ℕ → Type 0
IsPlain [] = Unit {0}
IsPlain (c ∷ cs) = ((c == b'%') ≡ false) × IsPlain cs

format-plain :
    (string_at : ℕ → List ℕ) (args : ℕ → ℕ) (fuel pos : ℕ) (s : List ℕ)
    → IsPlain s
    → length s < fuel
    → format string_at args fuel pos s ≡ some (record { text = s; chars = length s })
unfolding format
format-plain string_at args zero pos s plain enough = absurd (omega arith)
format-plain string_at args (suc fuel) pos [] plain enough = refl
format-plain string_at args (suc fuel) pos (c ∷ cs) plain enough =
    rw (plain.0, format)
      (ground (arith, format-plain string_at args fuel pos cs plain.1 (omega arith)))

-- A format string without `%` is printed as it is, and its length is returned.
pub vprintf-plain :
    (string_at : ℕ → List ℕ) (fmt : List ℕ) (args : ℕ → ℕ)
    → IsPlain fmt
    → vprintf string_at fmt args ≡ some (record { text = fmt; chars = length fmt })
unfolding vprintf
vprintf-plain string_at fmt args plain =
    format-plain string_at args (suc (length fmt)) 0 fmt plain (omega arith)

-- `n` times `%%`.
pub percents : ℕ → List ℕ
percents zero = []
percents (suc n) = b'%' ∷ b'%' ∷ percents n

format-percents :
    (string_at : ℕ → List ℕ) (args : ℕ → ℕ) (fuel pos n : ℕ)
    → length (percents n) < fuel
    → format string_at args fuel pos (percents n)
      ≡ some (record { text = replicate n b'%'; chars = 37 * n })
unfolding format percents conversion parse_flags new_flag parse_width parse_length fetch convert
format-percents string_at args zero pos n enough = absurd (omega arith)
format-percents string_at args (suc fuel) pos zero enough = refl
format-percents string_at args (suc fuel) pos (suc n) enough =
    ground (arith, format-percents string_at args fuel pos n)

-- `%%` prints one `%`, but counts 37 characters: `n` of them return `37 * n`.
pub vprintf-percents :
    (string_at : ℕ → List ℕ) (args : ℕ → ℕ) (n : ℕ)
    → vprintf string_at (percents n) args
      ≡ some (record { text = replicate n b'%'; chars = 37 * n })
unfolding vprintf
vprintf-percents string_at args n =
    format-percents string_at args (suc (length (percents n))) 0 n (omega arith)
