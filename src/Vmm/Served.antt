-- ===== src/Vmm/Served.antt =====
-- A sequence of calls of vmm_map in symphony/mm/vmm.c returns where there are pages enough for the tables
-- that are missing.
use orchestr_os.Base.{ℕ, ◌≡◌, sym, true, List, [], ◌∷◌, ◌++◌, arith}
use mathlib.Core.Path.{subst}
use orchestr_os.Base.Run.{Run, Cmd, followed_by}
use orchestr_os.BootProto.{Limine}
use orchestr_os.Pmm.State.{Pmm}
use orchestr_os.Pmm.Room.{
  HasFree, HasFree-fewer, Spent, Spent-none, Spent-more, Spent-trans, Spent-few, Ends, done,
  Ends-bind, Ends-mono,
}
use orchestr_os.Paging.Index.{page_index}
use orchestr_os.Paging.Entry.{has_present}
use orchestr_os.Paging.Tables.{IsPaging, path}
use orchestr_os.Paging.Walk.{vmm_map}
use orchestr_os.Paging.Tables.Map.{vmm_map-Updates}
use orchestr_os.Vmm.{MapCall}
use orchestr_os.Vmm.Init.{run_calls}
use orchestr_os.Vmm.Calls.{Ran, Ran-nil, Ran-append, Updates-Ran}
use orchestr_os.Vmm.Needs.{
  same_table, same_directory, same_pointer, needed, tables_for, tables_for-append, after,
  after-append, AllThere, calls-Costs,
}

-- The state after the calls, when others were seen before.
pub record Served (l : Limine) (s : Pmm) (pt flags : ℕ) (seen calls : List MapCall) (s' : Pmm)
    : Type 0 where
  pub ran : Ran l s pt flags calls s'
  pub spent : Spent s (tables_for seen calls) s'
  pub there : AllThere l s'.memory pt (after calls seen)

pub Served-nil :
    {l : Limine} {s : Pmm} {pt flags : ℕ} {seen : List MapCall}
    → IsPaging l s pt
    → AllThere l s.memory pt seen
    → Served l s pt flags seen [] s
Served-nil {l} {s} inv there = record { ran = Ran-nil inv; spent = Spent-none s 0; there = there }

Served-append :
    {l : Limine} {s t u : Pmm} {pt flags : ℕ} (seen xs ys : List MapCall)
    → Served l s pt flags seen xs t
    → Served l t pt flags (after xs seen) ys u
    → Served l s pt flags seen (xs ++ ys) u
Served-append {l} {s} {t} {u} {pt} seen xs ys a b = record {
  ran = Ran-append xs ys a.ran b.ran;
  spent =
      subst (λ n. Spent s n u) (sym (tables_for-append xs ys seen))
        (Spent-trans s t u (tables_for seen xs) (tables_for (after xs seen) ys) a.spent b.spent);
  there = subst (λ cs. AllThere l u.memory pt cs) (sym (after-append xs ys seen)) b.there;
}

-- Some calls, and others after them.
pub Served-bind :
    {A B : Type 0} (l : Limine) (s : Pmm) (pt flags run : ℕ) (seen xs ys : List MapCall)
    {r : Run Pmm A} {next : A → Cmd Pmm B}
    → Ends (¬ HasFree s run 0 (tables_for seen xs)) (λ _ t. Served l s pt flags seen xs t) r
    → ((a : A) (t : Pmm)
        → Served l s pt flags seen xs t
        → Ends
            (¬ HasFree t run 0 (tables_for (after xs seen) ys))
            (λ _ u. Served l t pt flags (after xs seen) ys u)
            (next a t))
    → Ends
        (¬ HasFree s run 0 (tables_for seen (xs ++ ys)))
        (λ _ u. Served l s pt flags seen (xs ++ ys) u)
        (followed_by r next)
Served-bind l s pt flags run seen xs ys first rest =
    let total = tables_for-append xs ys seen in
    Ends-bind first
      (λ few h. few (HasFree-fewer s run _ (tables_for seen xs) (omega (arith, total)) h))
      λ a t served.
        Ends-mono (rest a t served)
          (λ few h. Spent-few s t run _ _ served.spent few (subst (λ n. HasFree s run 0 n) total h))
          λ _ u more. Served-append seen xs ys served more

still-AllThere :
    {l : Limine} {s t : Pmm} {pt flags : ℕ} {calls : List MapCall} (seen : List MapCall)
    → Ran l s pt flags calls t
    → AllThere l s.memory pt seen
    → AllThere l t.memory pt seen
still-AllThere [] ran there = tt
still-AllThere (c ∷ cs) ran ((x, at), more) =
    ((x, ran.tables (path (page_index c.virt_addr)) x (omega arith) at), still-AllThere cs ran more)

-- A call.
vmm_map-Served :
    (l : Limine) (s : Pmm) (pt flags run : ℕ) (seen : List MapCall) (c : MapCall)
    → has_present flags ≡ true
    → IsPaging l s pt
    → AllThere l s.memory pt seen
    → Ends
        (¬ HasFree s run 0 (tables_for seen (c ∷ [])))
        (λ _ t. Served l s pt flags seen (c ∷ []) t)
        (vmm_map l pt c.phys_addr c.virt_addr flags s)
vmm_map-Served l s pt flags run seen c present inv there =
    let v = c.virt_addr in
    Ends-mono
      (vmm_map-Updates l s pt c.phys_addr v flags run (needed same_pointer v seen)
        (needed same_directory v seen) (needed same_table v seen) inv
        (calls-Costs l s.memory pt v seen there))
      (λ few h. few (HasFree-fewer s run _ _ (omega arith) h))
      λ _ t (old, fits, changed).
        let ran = Updates-Ran l s pt flags _ c t present (old, fits, changed) in
        record {
          ran = ran;
          spent = Spent-more s t _ _ (omega arith) changed.spent;
          there = ((changed.leaf.last, changed.leaf.at), still-AllThere seen ran there);
        }

-- A sequence of calls of `vmm_map` with VMM_PRESENT in the flags.
pub run_calls-Served :
    (l : Limine) (s : Pmm) (pt flags run : ℕ) (seen calls : List MapCall)
    → has_present flags ≡ true
    → IsPaging l s pt
    → AllThere l s.memory pt seen
    → Ends
        (¬ HasFree s run 0 (tables_for seen calls))
        (λ _ s'. Served l s pt flags seen calls s')
        (run_calls l pt flags calls s)
unfolding run_calls
run_calls-Served l s pt flags run seen [] present inv there = done (Served-nil inv there)
run_calls-Served l s pt flags run seen (c ∷ cs) present inv there =
    Served-bind l s pt flags run seen (c ∷ []) cs
      (vmm_map-Served l s pt flags run seen c present inv there)
      λ _ t served.
        run_calls-Served l t pt flags run (c ∷ seen) cs present served.ran.paging served.there
