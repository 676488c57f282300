-- ===== src/Serial/Tests.antt =====
-- A device that is busy at every other read.
use orchestr_os.Base.{
  ℕ, ◌+◌, ◌%◌, ◌≡◌, inl, inr, Bool-cases, some, List, [], ◌++◌, ◌==◌, if◌then◌else◌, arith,
}
use orchestr_os.Base.Text.{codes}
use orchestr_os.Serial.{Out, Ports, print_text, serial_init}
use orchestr_os.Serial.Laws.{
  EmptiesWithin, Wrote, sent_text, print_text-Wrote, Uart, uart_writes, serial_init-uart,
}

abbrev every_other : ℕ → ℕ
every_other k = if k % 2 == 0 then 0 else 0x60

every_other-EmptiesWithin : EmptiesWithin 2 every_other
every_other-EmptiesWithin i = elim (Bool-cases (i % 2 == 0)) [
  | inl even ↦ (i + 1, omega arith, omega arith, ground arith)
  | inr odd ↦ (i, omega arith, omega arith, ground arith)
]

abbrev ports : Ports
ports = record { line_status = every_other; reads = 0; written = [] }

print_text-Wrote_example :
    (p' : Ports) × (print_text 2 (codes "Hi\n") ports ≡ some p')
    × Wrote (sent_text (codes "Hi\n")) ports p'
print_text-Wrote_example = print_text-Wrote 2 (codes "Hi\n") ports every_other-EmptiesWithin

-- A device that answers to interrupts at another rate.
abbrev uart : Uart
uart = record {
  divisor_low = 1;
  divisor_high = 2;
  interrupt_enable = 15;
  fifo_control = 0;
  line_control = 7;
  modem_control = 0;
}

serial_init-uart_example :
    (bytes : List Out) × ((serial_init ports).written ≡ ports.written ++ bytes)
    × (uart_writes uart bytes ≡ record {
      divisor_low = 12;
      divisor_high = 0;
      interrupt_enable = 0;
      fifo_control = 0xc7;
      line_control = 0x03;
      modem_control = 0x0f;
    })
serial_init-uart_example = serial_init-uart uart ports (omega arith)
