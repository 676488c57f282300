-- ===== src/Boot/Rest.antt =====
-- The steps of `_start` of symphony/kernel.c on parts of the state leave the rest of it.
use orchestr_os.Base.{ℕ, ◌≡◌, refl, sym, ◌∙◌, List, []}
use mathlib.Core.Path.{subst}
use orchestr_os.Base.Run.{ok, followed_by, Panic, Run}
use orchestr_os.Pmm.State.{Pmm}
use orchestr_os.Pmm.Room.{Ends, done, exhausted, Ends-bind, Returns-Ends}
use orchestr_os.Vmm.Init.{Vmm}
use orchestr_os.KHeap.{KHeap}
use orchestr_os.Serial.{Ports}
use orchestr_os.Serial.Laws.{Spoke, Spoke-refl, Spoke-trans}
use orchestr_os.Boot.Print.{Empties, Spoke-Empties, log_at-Says}
use orchestr_os.Boot.{log_at, Platform, Kernel, on_pmm, on_vmm, on_kheap, expect, vmm_of}

-- The parts of the state that have nothing to do with memory: text may have been printed.
pub record SameRest (k k' : Kernel) : Type 0 where
  pub tables : k'.tables ≡ k.tables
  pub interrupts : k'.interrupts ≡ k.interrupts
  pub spoke : Spoke k.ports k'.ports

pub SameRest-trans : (k k1 k2 : Kernel) → SameRest k k1 → SameRest k1 k2 → SameRest k k2
SameRest-trans k k1 k2 a b = record {
  tables = b.tables ∙ a.tables;
  interrupts = b.interrupts ∙ a.interrupts;
  spoke = Spoke-trans k.ports k1.ports k2.ports a.spoke b.spoke;
}

pub with_ports-SameRest :
    (k : Kernel) (q : Ports) → Spoke k.ports q → SameRest k (record k { ports = q })
with_ports-SameRest k q spoke = record { tables = refl; interrupts = refl; spoke = spoke }

pub on_pmm-Ends :
    {Few : Type 0} {P : ℕ → Pmm → Type 0} (k : Kernel) {r : Run Pmm ℕ}
    → Ends Few P r
    → Ends Few (λ a k'. P a k'.kheap.pmm × SameRest k k') (on_pmm k r)
unfolding on_pmm
on_pmm-Ends k (done h) =
    done (h, record { tables = refl; interrupts = refl; spoke = Spoke-refl k.ports })
on_pmm-Ends k (exhausted few) = exhausted few

pub on_vmm-Ends :
    {Few : Type 0} {P : ℕ → Vmm → Type 0} (k : Kernel) {r : Run Vmm ℕ}
    → Ends Few P r
    → Ends Few (λ a k'. P a (vmm_of k') × SameRest k k') (on_vmm k r)
unfolding on_vmm
on_vmm-Ends k (done h) =
    done (h, record { tables = refl; interrupts = refl; spoke = Spoke-refl k.ports })
on_vmm-Ends k (exhausted few) = exhausted few

pub on_kheap-Ends :
    {Few : Type 0} {P : ℕ → KHeap → Type 0} (k : Kernel) {r : Run KHeap ℕ}
    → Ends Few P r
    → Ends Few
        (λ a k'. P a k'.kheap × SameRest k k' × (k'.kernel_pt ≡ k.kernel_pt) × (k'.cr3 ≡ k.cr3))
        (on_kheap k r)
unfolding on_kheap
on_kheap-Ends k (done h) =
    done (h, record { tables = refl; interrupts = refl; spoke = Spoke-refl k.ports }, refl, refl)
on_kheap-Ends k (exhausted few) = exhausted few

pub expect-Ends :
    {Few : Type 0} {P : Kernel → Type 0} (e : Panic) {r : Run Kernel ℕ}
    → Ends Few (λ status k. (status ≡ 0) × P k) r
    → Ends Few (λ _ k. P k) (expect e r)
unfolding expect
expect-Ends e (done (zero_status, h)) = rw (zero_status) (done h)
expect-Ends e (exhausted few) = exhausted few

-- What is logged at the end of a set-up changes nothing of what it did.
pub logged :
    {Few : Type 0} (P : KHeap → (kernel_pt cr3 : ℕ) → Type 0) (p : Platform) (k k1 : Kernel)
    (level : ℕ) (fmt : List ℕ) (status : ℕ)
    → Empties p k
    → status ≡ 0
    → P k1.kheap k1.kernel_pt k1.cr3
    → SameRest k k1
    → Ends Few
        (λ r k'. (r ≡ 0) × P k'.kheap k'.kernel_pt k'.cr3 × SameRest k k')
        (followed_by (log_at p level fmt [] k1) λ _ k2. ok status k2)
logged {Few = Few} P p k k1 level fmt status empties zero_status h same =
    Ends-bind
      (Returns-Ends (log_at-Says p level fmt [] k1 (Spoke-Empties p k k1 same.spoke empties)))
      (λ few. few)
      λ _ k2 (q, spoke, e).
        subst
          (λ x.
            Ends Few (λ r k'. (r ≡ 0) × P k'.kheap k'.kernel_pt k'.cr3 × SameRest k k')
              (ok status x))
          (sym e)
          (done (
            zero_status,
            h,
            SameRest-trans k k1 (record k1 { ports = q }) same (with_ports-SameRest k1 q spoke),
          ))
