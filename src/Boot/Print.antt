-- ===== src/Boot/Print.antt =====
-- What the boot sequence of symphony/kernel.c prints: every call of `debug_log` ends where the serial
-- device does not stay busy, and changes the ports only.
use orchestr_os.Base.{ℕ, ◌^◌, ◌<◌, ◌≡◌, refl, sym, ap, ◌∙◌, some, List, [], ◌∷◌, ◌++◌, arith}
use orchestr_os.Base.Lists.{get_or}
use orchestr_os.Base.Run.{Run, Cmd, Returns, returns, Returns-bind, Returns-mono, followed_by}
use orchestr_os.Base.Word.{u64}
use orchestr_os.BootProto.{LimineMemmapEntry}
use orchestr_os.Debug.Integer.{Printed}
use orchestr_os.Debug.Log.{printf, log, level_prefix}
use orchestr_os.Debug.Format.Total.{vprintf-Ends}
use orchestr_os.Serial.{Ports}
use orchestr_os.Serial.Laws.{
  EmptiesWithin, Spoke, Spoke-refl, Spoke-trans, Spoke-line_status, print_text-Wrote,
}
use mathlib.Core.Path.{subst}
use orchestr_os.Boot.{
  Platform, Kernel, args_of, say, set_ports, log_at, log_bootloader, log_firmware, log_addresses,
  log_memmap, announce,
}

-- The transmitter of the serial line empties within the fuel, from every read on.
abbrev pub Empties : Platform → Kernel → Type 0
Empties p k = EmptiesWithin p.poll_fuel k.ports.line_status

-- Text was printed, and nothing but the ports has changed.
abbrev pub Says : Kernel → Kernel → Type 0
Says k k' = (q : Ports) × Spoke k.ports q × (k' ≡ record k { ports = q })

abbrev with_ports : Kernel → Ports → Kernel
with_ports k q = record k { ports = q }

Says-nil : (k : Kernel) → Says k k
Says-nil k = (k.ports, Spoke-refl k.ports, refl)

pub Says-trans : (k k1 k2 : Kernel) → Says k k1 → Says k1 k2 → Says k k2
Says-trans k k1 k2 (q, spoke, e) (q', spoke', e') = (
  q',
  Spoke-trans k.ports q q' spoke
      (subst (λ (x : Ports). Spoke x q') (ap (λ (x : Kernel). x.ports) e) spoke'),
  e' ∙ ap (λ x. with_ports x q') e,
)

pub Says-Empties : (p : Platform) (k k' : Kernel) → Says k k' → Empties p k → Empties p k'
Says-Empties p k k' (q, spoke, e) empties =
    subst (λ f. EmptiesWithin p.poll_fuel f)
      (sym (ap (λ (x : Kernel). x.ports.line_status) e ∙ Spoke-line_status k.ports q spoke)) empties

pub Spoke-Empties :
    (p : Platform) (k k' : Kernel) → Spoke k.ports k'.ports → Empties p k → Empties p k'
Spoke-Empties p k k' spoke empties =
    subst (λ f. EmptiesWithin p.poll_fuel f) (sym (Spoke-line_status k.ports k'.ports spoke))
      empties

word_slots : (xs : List ℕ) (i : ℕ) → args_of xs i < 2 ^ 64
word_slots xs i = below (get_or xs i 0)
  where
    below : (n : ℕ) → u64 n < 2 ^ 64
    below n = omega arith

say-Says :
    (p : Platform) (q : Printed) (k : Kernel)
    → Empties p k
    → Returns (λ _ k'. Says k k') (say p (some q) k)
unfolding say set_ports
say-Says p q k empties =
    let (r, e, wrote) = print_text-Wrote p.poll_fuel q.text k.ports empties in
    rw e (returns (r, (q.text, wrote), refl))

pub printf-Says :
    (p : Platform) (fmt xs : List ℕ) (k : Kernel)
    → Empties p k
    → Returns (λ _ k'. Says k k') (say p (printf p.string_at fmt (args_of xs)) k)
printf-Says p fmt xs k empties =
    let (q, e) = vprintf-Ends p.string_at fmt (args_of xs) (word_slots xs) in
    rw (e) (say-Says p q k empties)

log-some :
    (p : Platform) (level : ℕ) (fmt xs : List ℕ)
    → (q : Printed) × (log p.string_at level fmt (args_of xs) ≡ some q)
unfolding log
log-some p level fmt xs =
    let (q, e) = vprintf-Ends p.string_at fmt (args_of xs) (word_slots xs) in
    (record q { text = level_prefix level ++ q.text }, rw (e, log) refl)

pub log_at-Says :
    (p : Platform) (level : ℕ) (fmt xs : List ℕ) (k : Kernel)
    → Empties p k
    → Returns (λ _ k'. Says k k') (log_at p level fmt xs k)
unfolding log_at
log_at-Says p level fmt xs k empties =
    let (q, e) = log-some p level fmt xs in rw (e) (say-Says p q k empties)

-- One after the other.
Says-bind :
    (p : Platform) (k : Kernel) {r : Run Kernel (Unit {0})} {next : Cmd Kernel (Unit {0})}
    → Empties p k
    → (Empties p k → Returns (λ _ k'. Says k k') r)
    → ((k1 : Kernel) → Empties p k1 → Returns (λ _ k'. Says k1 k') (next k1))
    → Returns (λ _ k'. Says k k') (followed_by r (λ _. next))
Says-bind p k empties first rest = Returns-bind (first empties) λ _ k1 a.
    Returns-mono (rest k1 (Says-Empties p k k1 a empties)) λ _ k2 b. Says-trans k k1 k2 a b

log_bootloader-Says :
    (p : Platform) (k : Kernel) → Empties p k → Returns (λ _ k'. Says k k') (log_bootloader p k)
unfolding log_bootloader
log_bootloader-Says p k empties = Says-bind p k empties (log_at-Says p _ _ _ k) λ k1 empties1.
    Says-bind p k1 empties1 (log_at-Says p _ _ _ k1)
      λ k2 empties2. Says-bind p k2 empties2 (log_at-Says p _ _ _ k2) λ k3. log_at-Says p _ _ _ k3

log_firmware-Says :
    (p : Platform) (k : Kernel) → Empties p k → Returns (λ _ k'. Says k k') (log_firmware p k)
unfolding log_firmware
log_firmware-Says p k empties = Says-bind p k empties (log_at-Says p _ _ _ k) λ k1. say-Says p _ k1

log_addresses-Says :
    (p : Platform) (k : Kernel) → Empties p k → Returns (λ _ k'. Says k k') (log_addresses p k)
unfolding log_addresses
log_addresses-Says p k empties =
    Says-bind p k empties (log_at-Says p _ _ _ k)
      λ k1 empties1. Says-bind p k1 empties1 (log_at-Says p _ _ _ k1) λ k2. log_at-Says p _ _ _ k2

log_memmap-Says :
    (p : Platform) (es : List LimineMemmapEntry) (k : Kernel)
    → Empties p k
    → Returns (λ _ k'. Says k k') (log_memmap p es k)
unfolding log_memmap
log_memmap-Says p [] k empties = returns (Says-nil k)
log_memmap-Says p (e ∷ es) k empties =
    Says-bind p k empties (log_at-Says p _ _ _ k) λ k1. log_memmap-Says p es k1

pub announce-Says :
    (p : Platform) (k : Kernel) → Empties p k → Returns (λ _ k'. Says k k') (announce p k)
unfolding announce
announce-Says p k empties = Says-bind p k empties (log_bootloader-Says p k) λ k1 empties1.
    Says-bind p k1 empties1 (log_firmware-Says p k1) λ k2 empties2.
      Says-bind p k2 empties2 (log_addresses-Says p k2) λ k3. log_memmap-Says p p.limine.entries k3
