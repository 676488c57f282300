-- ===== src/X86/Exception/Text.antt =====
-- The first line that arch_exception_handler of symphony/arch/x86_64/interrupt.c prints.
use orchestr_os.Base.{
  ℕ, suc, ◌+◌, ◌^◌, ◌<◌, ◌≡◌, ◌≢◌, refl, ap, ◌∙◌, some, List, [], ◌∷◌, ◌++◌, false, ◌==◌, arith,
}
use orchestr_os.Base.Lists.{length, get_or}
use orchestr_os.Base.Text.{codes}
use orchestr_os.Debug.Integer.{Printed}
use orchestr_os.Debug.Format.{
  format, vprintf, conversion, parse_flags, new_flag, parse_width, parse_length, fetch, convert,
  printed_then,
}
use orchestr_os.Base.{of_is_some}
use orchestr_os.Debug.Format.Total.{format-Ends}
use orchestr_os.X86.Exception.{
  Regs, ControlRegs, registers_format, exception_format, exception_args, exception_handler,
}
use orchestr_os.X86.Idt.{exception_messages}
use orchestr_os.Debug.Log.{log, level_prefix, panic_text}

-- `%s` prints the text at its argument, and the rest goes on with the next one.
format-string :
    (string_at : ℕ → List ℕ) (args : ℕ → ℕ) (fuel pos : ℕ) (cs : List ℕ)
    → (args pos == 0) ≡ false
    → format string_at args (suc fuel) pos (b'%' ∷ b's' ∷ cs)
      ≡ printed_then
          (some (record { text = string_at (args pos); chars = length (string_at (args pos)) }))
          (format string_at args fuel (pos + 1) cs)
unfolding format conversion parse_flags new_flag parse_width parse_length fetch convert
format-string string_at args fuel pos cs h = rw (h) refl

-- Any other character is printed.
format-char :
    (string_at : ℕ → List ℕ) (args : ℕ → ℕ) (fuel pos c : ℕ) (cs : List ℕ)
    → (c == b'%') ≡ false
    → format string_at args (suc fuel) pos (c ∷ cs)
      ≡ printed_then
          (some (record { text = c ∷ []; chars = 1 }))
          (format string_at args fuel pos cs)
unfolding format
format-char string_at args fuel pos c cs h = rw (format, h) refl

kernel_panic :
    (string_at : ℕ → List ℕ) (args : ℕ → ℕ)
    → log string_at 6 (codes "Kernel Panic! ") args
      ≡ some (record { text = codes "[ FATAL ] Kernel Panic! "; chars = 14 })
unfolding log vprintf format level_prefix
kernel_panic string_at args = refl

-- A panic prints its prefix and then its text.
panic_text-says :
    (string_at : ℕ → List ℕ) (args : ℕ → ℕ) (fmt : List ℕ) (q : Printed)
    → vprintf string_at fmt args ≡ some q
    → panic_text string_at fmt args ≡ some (codes "[ FATAL ] Kernel Panic! " ++ q.text)
unfolding panic_text
panic_text-says string_at args fmt q e = rw (panic_text, kernel_panic string_at args, e) refl

-- A format that begins with `%s!` and a line feed prints the text and these, and ends.
first_line :
    (string_at : ℕ → List ℕ) (args : ℕ → ℕ) (cs : List ℕ)
    → ((i : ℕ) → args i < 2 ^ 64)
    → (args 0 == 0) ≡ false
    → (q : Printed) × (n : ℕ) × (vprintf string_at (codes "%s!\n" ++ cs) args
        ≡ some (record { text = string_at (args 0) ++ (codes "!\n" ++ q.text); chars = n }))
unfolding vprintf
first_line string_at args cs slots h =
    let (q, e) =
      of_is_some _ (format-Ends string_at args (suc (suc (length cs))) 1 cs slots (omega arith)) in
    (
      q,
      length (string_at (args 0)) + (1 + (1 + q.chars)),
      rw
          (
            format-string string_at args (suc (suc (suc (suc (length cs))))) 0 (b'!' ∷ b'\n' ∷ cs)
                h,
            format-char string_at args (suc (suc (suc (length cs)))) 1 b'!' (b'\n' ∷ cs) refl,
            format-char string_at args (suc (suc (length cs))) 1 b'\n' cs refl,
            e,
          )
          refl,
    )

-- Where the messages lie at addresses that are not NULL and the registers are 64-bit words, the
-- handler of any of the 32 exceptions prints, before the registers, a line with the prefix of a
-- panic and the message of this very exception, and its formatting ends.
pub exception_handler-first_line :
    (string_at : ℕ → List ℕ) (message_at : ℕ → ℕ) (r : Regs) (c : ControlRegs)
    → ((n : ℕ) → n < 32 → string_at (message_at n) ≡ get_or exception_messages n [])
    → ((n : ℕ) → message_at n ≢ 0)
    → ((i : ℕ) → get_or (exception_args (message_at r.intn) r c) i 0 < 2 ^ 64)
    → r.intn < 32
    → (rest : List ℕ) × (exception_handler string_at message_at r c
        ≡ some (
            codes "[ FATAL ] Kernel Panic! "
            ++ (get_or exception_messages r.intn [] ++ (codes "!\n" ++ rest))))
unfolding exception_handler
exception_handler-first_line string_at message_at r c messages present words h =
    let none_null : (message_at r.intn == 0) ≡ false = ground (arith, present r.intn) in
    let args : ℕ → ℕ = λ i. get_or (exception_args (message_at r.intn) r c) i 0 in
    let (q, n, e) = first_line string_at args registers_format words none_null in
    (
      q.text,
      panic_text-says string_at args exception_format _ e
          ∙ ap (λ m. some (codes "[ FATAL ] Kernel Panic! " ++ (m ++ (codes "!\n" ++ q.text))))
              (messages r.intn h),
    )
