-- ===== src/X86/Exception.antt =====
-- `arch_exception_handler` of symphony/arch/x86_64/interrupt.c: what it prints before the machine
-- halts. The control registers, which it reads by assembly, are arguments; `message_at` gives the
-- addresses of the exceptions' messages, and `string_at` the text that lies at an address.
pub mod Text
use orchestr_os.Base.{ℕ, Option, List, [], ◌∷◌, ◌++◌}
use orchestr_os.Base.Lists.{get_or}
use orchestr_os.Base.Text.{codes}
use orchestr_os.Debug.Log.{panic_text}

-- struct regs of include/symphony/arch/x86_64.h.
pub record Regs : Type 0 where
  pub ds : ℕ
  pub r15 : ℕ
  pub r14 : ℕ
  pub r13 : ℕ
  pub r12 : ℕ
  pub r11 : ℕ
  pub r10 : ℕ
  pub r9 : ℕ
  pub r8 : ℕ
  pub rdi : ℕ
  pub rsi : ℕ
  pub rbp : ℕ
  pub rbx : ℕ
  pub rdx : ℕ
  pub rcx : ℕ
  pub rax : ℕ
  pub intn : ℕ
  pub err_code : ℕ
  pub rip : ℕ
  pub cs : ℕ
  pub rflags : ℕ
  pub rsp : ℕ
  pub ss : ℕ

pub record ControlRegs : Type 0 where
  pub cr0 : ℕ
  pub cr2 : ℕ
  pub cr3 : ℕ
  pub cr4 : ℕ

-- The format behind its `%s!` and line feed.
abbrev pub registers_format : List ℕ
registers_format =
    codes "RAX = %#016llx RBX = %#016llx RCX = %#016llx\n"
    ++ (codes "RDX = %#016llx RSI = %#016llx RDI = %#016llx\n"
        ++ (codes "RBP = %#016llx RSP = %#016llx RIP = %#016llx\n"
            ++ (codes "R8  = %#016llx R9  = %#016llx R10 = %#016llx\n"
                ++ (codes "R11 = %#016llx R12 = %#016llx R13 = %#016llx\n"
                    ++ (codes "R14 = %#016llx R15 = %#016llx\n"
                        ++ (codes "RFLAGS = %#016llx\n"
                            ++ (codes "CS = %#llx DS = %#llx SS = %#llx\n"
                                ++ (codes "CR0 = %#016llx CR2 = %#016llx\n"
                                    ++ (codes "CR3 = %#016llx CR4 = %#016llx\n"
                                        ++ codes "V = %#016llx ERR = %#016llx")))))))))

abbrev pub exception_format : List ℕ
exception_format = codes "%s!\n" ++ registers_format

-- The arguments behind the format.
abbrev pub exception_args : (message : ℕ) → Regs → ControlRegs → List ℕ
exception_args message r c =
    message ∷ r.rax ∷ r.rbx ∷ r.rcx ∷ r.rdx ∷ r.rsi ∷ r.rdi ∷ r.rbp ∷ r.rsp ∷ r.rip ∷ r.r8 ∷ r.r9
    ∷ r.r10 ∷ r.r11 ∷ r.r12 ∷ r.r13 ∷ r.r14 ∷ r.r15 ∷ r.rflags ∷ r.cs ∷ r.ds ∷ r.ss ∷ c.cr0 ∷ c.cr2
    ∷ c.cr3 ∷ c.cr4 ∷ r.intn ∷ r.err_code ∷ []

unfoldable pub exception_handler :
    (string_at : ℕ → List ℕ) → (message_at : ℕ → ℕ) → Regs → ControlRegs → Option (List ℕ)
exception_handler string_at message_at r c =
    panic_text string_at exception_format (λ i. get_or (exception_args (message_at r.intn) r c) i 0)
