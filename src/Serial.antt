-- ===== src/Serial.antt =====
-- The serial driver, symphony/serial.c, on x86_64. `arch_inb` of the line status gives what the
-- device answers to the reads, one after the other; `arch_outb` is recorded.
pub mod Laws
mod Tests
use orchestr_os.Base.{
  ℕ, zero, suc, ◌+◌, ◌/◌, ◌%◌, Option, none, some, List, [], ◌∷◌, ◌++◌, ◌==◌, if◌then◌else◌,
}

-- COM_PORT and the ports counted from it.
abbrev pub com_port : ℕ
com_port = 0x3f8

abbrev pub com_data : ℕ
com_data = com_port

abbrev pub com_int : ℕ
com_int = com_port + 1

abbrev pub com_divisor_lsb : ℕ
com_divisor_lsb = com_port

abbrev pub com_divisor_msb : ℕ
com_divisor_msb = com_port + 1

abbrev pub com_fifo_ctrl : ℕ
com_fifo_ctrl = com_port + 2

abbrev pub com_line_control : ℕ
com_line_control = com_port + 3

abbrev pub com_modem_ctrl : ℕ
com_modem_ctrl = com_port + 4

-- `arch_outb(port, data)`
pub record Out : Type 0 where
  pub port : ℕ
  pub data_byte : ℕ

-- The answers of the line status register, the number of reads so far, and the bytes written.
pub record Ports : Type 0 where
  pub line_status : ℕ → ℕ
  pub reads : ℕ
  pub written : List Out

unfoldable pub outb : (port data_byte : ℕ) → Ports → Ports
outb port data_byte p = record p {
  written = p.written ++ (record { port = port; data_byte = data_byte % 256 } ∷ []);
}

unfoldable pub serial_init : Ports → Ports
unfolding outb
serial_init p =
    let p1 = outb com_int 0x00 p in
    let p2 = outb com_line_control 0x80 p1 in
    let p3 = outb com_divisor_lsb 0x0c p2 in
    let p4 = outb com_divisor_msb 0x00 p3 in
    let p5 = outb com_line_control 0x03 p4 in
    let p6 = outb com_fifo_ctrl 0xc7 p5 in outb com_modem_ctrl 0x0f p6

-- `while ((arch_inb(COM_LINE_STATUS) & 0x20) == 0)`; `none` means that the fuel ran out.
unfoldable pub wait_ready : (fuel : ℕ) → Ports → Option Ports
wait_ready zero p = none
wait_ready (suc fuel) p =
    let p' = record p { reads = p.reads + 1 } in
    let rest = wait_ready fuel p' in if p.line_status p.reads / 0x20 % 2 == 0 then rest else some p'

-- The part that sends one byte.
unfoldable pub send : (fuel chr : ℕ) → Ports → Option Ports
unfolding wait_ready outb
send fuel chr p = elim (wait_ready fuel p) [ none ↦ none | some p' ↦ some (outb com_data chr p') ]

-- `serial_char`: the call for the line feed's carriage return sends one byte.
unfoldable pub serial_char : (fuel chr : ℕ) → Ports → Option Ports
unfolding send
serial_char fuel chr p = elim (send fuel chr p) [
  | none ↦ none
  | some p' ↦ if chr == b'\n' then send fuel b'\r' p' else some p'
]

-- `debug_putchar` of symphony/debug.c: the port 0xE9 is read by emulators.
unfoldable pub putchar : (fuel chr : ℕ) → Ports → Option Ports
unfolding serial_char outb
putchar fuel chr p = serial_char fuel chr (outb 0xe9 chr p)

-- The loop of `debug_print`.
unfoldable pub print_text : (fuel : ℕ) → List ℕ → Ports → Option Ports
unfolding putchar
print_text fuel [] p = some p
print_text fuel (c ∷ cs) p = elim (putchar fuel c p) [
  | none ↦ none
  | some p' ↦ print_text fuel cs p'
]
