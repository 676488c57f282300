-- ===== src/Serial/Laws.antt =====
-- What symphony/serial.c sends, and how it sets up the device.
use orchestr_os.Base.{
  ℕ, zero, suc, ◌+◌, ◌/◌, ◌%◌, ◌≤◌, ◌<◌, Bool-cases, inl, inr, ◌≡◌, ◌≢◌, refl, sym, ap, ◌∙◌, some,
  List, [], ◌∷◌, ◌++◌, ◌==◌, if◌then◌else◌, ltb, arith,
}
use mathlib.Core.Path.{subst}
use orchestr_os.Base.Lists.{append_assoc, append-nil}
use orchestr_os.Serial.{
  Out, Ports, com_data, wait_ready, send, outb, serial_char, putchar, print_text, serial_init,
}

-- From every read on, the transmitter is empty at one of the next `fuel` reads.
abbrev pub EmptiesWithin : (fuel : ℕ) → (line_status : ℕ → ℕ) → Type 0
EmptiesWithin fuel line_status =
    (i : ℕ) → (k : ℕ) × (i ≤ k) × (k < i + fuel) × (line_status k / 0x20 % 2 ≢ 0)

-- Bytes were written, and the device still answers from the same sequence.
pub Wrote : List Out → Ports → Ports → Type 0
Wrote bytes p p' = (p'.line_status ≡ p.line_status) × (p'.written ≡ p.written ++ bytes)

wait_ready-ends :
    (fuel k : ℕ) (p : Ports)
    → p.reads ≤ k
    → k < p.reads + fuel
    → p.line_status k / 0x20 % 2 ≢ 0
    → (n : ℕ) × (wait_ready fuel p ≡ some (record p { reads = n }))
unfolding wait_ready
wait_ready-ends zero k p h h' ready = absurd (omega arith)
wait_ready-ends (suc fuel) k p h h' ready =
    elim (Bool-cases (p.line_status p.reads / 0x20 % 2 == 0)) [
      | inl busy ↦
          let other : p.reads ≢ k = λ e. ready (rw (← e) (ground arith)) in
          let later : suc p.reads ≤ k = omega (arith, other) in
          rw (busy) (
            wait_ready-ends fuel k (record p { reads = p.reads + 1 }) (omega arith) (omega arith)
              ready)
      | inr empty ↦ (p.reads + 1, rw (empty) refl)
    ]

-- The write of one byte.
abbrev pub byte_to : (port chr : ℕ) → List Out
byte_to port chr = record { port = port; data_byte = chr % 256 } ∷ []

module _ (fuel : ℕ) where
  send-Wrote :
      (chr : ℕ) (p : Ports)
      → EmptiesWithin fuel p.line_status
      → (p' : Ports) × (send fuel chr p ≡ some p') × Wrote (byte_to com_data chr) p p'
  unfolding send Wrote outb
  send-Wrote chr p empties =
      let (k, h, h', ready) = empties p.reads in
      let (n, e) = wait_ready-ends fuel k p h h' ready in
      (outb com_data chr (record p { reads = n }), rw (send, e) refl, (refl, refl))

Wrote-trans :
    (xs ys : List Out) (p q r : Ports) → Wrote xs p q → Wrote ys q r → Wrote (xs ++ ys) p r
unfolding Wrote
Wrote-trans xs ys p q r w w' =
    (w'.0 ∙ w.0, w'.1 ∙ ap (λ l. l ++ ys) w.1 ∙ append_assoc p.written xs ys)

-- What a character is sent as.
pub sent : (chr : ℕ) → List Out
sent chr =
    byte_to 0xe9 chr
    ++ (byte_to com_data chr ++ (if chr == b'\n' then byte_to com_data b'\r' else []))

pub sent_text : List ℕ → List Out
sent_text [] = []
sent_text (c ∷ cs) = sent c ++ sent_text cs

module _ (fuel : ℕ) where
  serial_char-Wrote :
      (chr : ℕ) (p : Ports)
      → EmptiesWithin fuel p.line_status
      → (p' : Ports) × (serial_char fuel chr p ≡ some p')
        × Wrote (byte_to com_data chr ++ (if chr == b'\n' then byte_to com_data b'\r' else [])) p p'
  unfolding serial_char Wrote
  serial_char-Wrote chr p empties =
      let (p1, e1, w1) = send-Wrote fuel chr p empties in
      let (p2, e2, w2) = send-Wrote fuel b'\r' p1 (rw (w1.0) empties) in
      elim (Bool-cases (chr == b'\n')) [
        | inl new_line ↦ (
          p2,
          rw (serial_char, e1, new_line) e2,
          rw (new_line) (Wrote-trans (byte_to com_data chr) (byte_to com_data b'\r') p p1 p2 w1 w2),
        )
        | inr other ↦ (p1, rw (serial_char, e1, other) refl, rw (other) w1)
      ]

  putchar-Wrote :
      (chr : ℕ) (p : Ports)
      → EmptiesWithin fuel p.line_status
      → (p' : Ports) × (putchar fuel chr p ≡ some p') × Wrote (sent chr) p p'
  unfolding putchar sent Wrote outb
  putchar-Wrote chr p empties =
      let (p1, e1, w1) = serial_char-Wrote chr (outb 0xe9 chr p) empties in
      (p1, e1, Wrote-trans (byte_to 0xe9 chr) _ p (outb 0xe9 chr p) p1 (refl, refl) w1)

  -- Where the transmitter empties within `fuel` reads, printing a text ends: its characters are
  -- written, each to the emulators' port and to the serial line, a line feed followed there by a
  -- carriage return, in this order and behind what was written before, and nothing else.
  pub print_text-Wrote :
      (text : List ℕ) (p : Ports)
      → EmptiesWithin fuel p.line_status
      → (p' : Ports) × (print_text fuel text p ≡ some p') × Wrote (sent_text text) p p'
  unfolding print_text sent_text Wrote
  print_text-Wrote [] p empties = (p, refl, (refl, sym (append-nil p.written)))
  print_text-Wrote (c ∷ cs) p empties =
      let (p1, e1, w1) = putchar-Wrote c p empties in
      let (p2, e2, w2) = print_text-Wrote cs p1 (rw (w1.0) empties) in
      (p2, rw (print_text, e1) e2, Wrote-trans (sent c) (sent_text cs) p p1 p2 w1 w2)

-- Some text was printed, and nothing else was written.
abbrev pub Spoke : Ports → Ports → Type 0
Spoke p q = (text : List ℕ) × Wrote (sent_text text) p q

pub Spoke-refl : (p : Ports) → Spoke p p
unfolding sent_text Wrote
Spoke-refl p = ([], (refl, sym (append-nil p.written)))

sent_text-append : (xs ys : List ℕ) → sent_text (xs ++ ys) ≡ sent_text xs ++ sent_text ys
unfolding sent_text
sent_text-append [] ys = refl
sent_text-append (x ∷ xs) ys =
    ap (λ l. sent x ++ l) (sent_text-append xs ys)
    ∙ sym (append_assoc (sent x) (sent_text xs) (sent_text ys))

pub Spoke-trans : (p q r : Ports) → Spoke p q → Spoke q r → Spoke p r
Spoke-trans p q r (xs, w) (ys, w') = (
  xs ++ ys,
  subst (λ l. Wrote l p r) (sym (sent_text-append xs ys))
      (Wrote-trans (sent_text xs) (sent_text ys) p q r w w'),
)

pub Spoke-line_status : (p q : Ports) → Spoke p q → q.line_status ≡ p.line_status
unfolding Wrote
Spoke-line_status p q (text, w) = w.0

-- The set-up does not change what the device answers.
pub serial_init-line_status : (p : Ports) → (serial_init p).line_status ≡ p.line_status
unfolding serial_init outb
serial_init-line_status p = refl

-- The registers of the serial device that a set-up writes, by the device's documentation: while bit 7
-- of the line control is set, the first two ports are the divisor of the baud rate.
pub record Uart : Type 0 where
  pub divisor_low : ℕ
  pub divisor_high : ℕ
  pub interrupt_enable : ℕ
  pub fifo_control : ℕ
  pub line_control : ℕ
  pub modem_control : ℕ

pub uart_write : Uart → Out → Uart
uart_write u o =
    let dlab = ltb 127 u.line_control in
    if o.port == 0x3f8
    then (if dlab then record u { divisor_low = o.data_byte } else u)
    else if o.port == 0x3f9
    then (if dlab
        then record u { divisor_high = o.data_byte }
        else record u { interrupt_enable = o.data_byte })
    else if o.port == 0x3fa
    then record u { fifo_control = o.data_byte }
    else if o.port == 0x3fb
    then record u { line_control = o.data_byte }
    else if o.port == 0x3fc
    then record u { modem_control = o.data_byte }
    else u

pub uart_writes : Uart → List Out → Uart
uart_writes u [] = u
uart_writes u (o ∷ os) = uart_writes (uart_write u o) os

-- `serial_init` sets up a device whose divisor is not selected at the start: divisor 12, which is
-- 9600 baud, eight bits with no parity and one stop bit, the first two ports back to data and
-- interrupts, no interrupts, the FIFOs on and cleared.
pub serial_init-uart :
    (u : Uart) (p : Ports)
    → u.line_control < 128
    → (bytes : List Out) × ((serial_init p).written ≡ p.written ++ bytes)
      × (uart_writes u bytes ≡ record {
        divisor_low = 12;
        divisor_high = 0;
        interrupt_enable = 0;
        fifo_control = 0xc7;
        line_control = 0x03;
        modem_control = 0x0f;
      })
unfolding serial_init outb uart_writes uart_write
serial_init-uart u p h = (
  byte_to 0x3f9 0
      ++ (byte_to 0x3fb 0x80
          ++ (byte_to 0x3f8 0x0c
              ++ (byte_to 0x3f9 0
                  ++ (byte_to 0x3fb 3 ++ (byte_to 0x3fa 0xc7 ++ byte_to 0x3fc 0x0f))))),
  simp (append_assoc),
  ground arith,
)
