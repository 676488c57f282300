-- ===== src/Debug/Log.antt =====
-- `debug_log`, `debug_printf`, `debug_print`, `debug_panic` and the assertions of symphony/debug.c.
use orchestr_os.Base.{ℕ, Option, none, some, List, ◌++◌, ◌==◌, if◌then◌else◌}
use orchestr_os.Base.Lists.{length}
use orchestr_os.Base.Text.{codes}
use orchestr_os.Debug.Integer.{Printed}
use orchestr_os.Debug.Format.{vprintf}

-- LOGLEVEL_TRACE … LOGLEVEL_FATAL are 1 to 6.
abbrev pub loglevel_fatal : ℕ
loglevel_fatal = 6

abbrev pub loglevel_warn : ℕ
loglevel_warn = 4

unfoldable pub level_prefix : ℕ → List ℕ
level_prefix level =
    if level == 1
    then codes "[ TRACE ] "
    else if level == 2
    then codes "[ DEBUG ] "
    else if level == 3
    then codes "[ INFO  ] "
    else if level == loglevel_warn
    then codes "[ WARN  ] "
    else if level == 5
    then codes "[ ERROR ] "
    else if level == loglevel_fatal
    then codes "[ FATAL ] "
    else codes "[ UNK ] "

-- The string is printed to its end, and its length is returned.
abbrev pub print : List ℕ → Printed
print text = record { text = text; chars = length text }

module _ (string_at : ℕ → List ℕ) where
  abbrev pub printf : List ℕ → (args : ℕ → ℕ) → Option Printed
  printf = vprintf string_at

  -- The prefix is printed, and is not part of the count.
  unfoldable pub log : (level : ℕ) → List ℕ → (args : ℕ → ℕ) → Option Printed
  log level fmt args = elim (vprintf string_at fmt args) [
    | none ↦ none
    | some p ↦ some (record p { text = level_prefix level ++ p.text })
  ]

  -- What a panic prints before it halts the processor.
  unfoldable pub panic_text : List ℕ → (args : ℕ → ℕ) → Option (List ℕ)
  panic_text fmt args = elim (log loglevel_fatal (codes "Kernel Panic! ") args) [
    | none ↦ none
    | some p ↦ elim (vprintf string_at fmt args) [ none ↦ none | some q ↦ some (p.text ++ q.text) ]
  ]
