-- ===== src/Vmm/Start/Boot.antt =====
-- When waiting for the launcher succeeds, and what the callback has seen by then.
use matrisea.Common.{
  Str, text, true, false, ◌≡◌, inl, inr, refl, ap, List, [], ◌∷◌, ◌++◌, map, ok, err, message,
  Bool-cases,
}
use matrisea.Go.Strings.{contains}
use matrisea.Vmm.Start.{
  BootEvent, line, deadline, boot_completed, BootOutcome, after_line, scan_on, await_boot,
}

-- Lines none of which says that the boot is complete.
abbrev pub AreQuiet : List Str → Type 0
AreQuiet [] = Unit
AreQuiet (l ∷ ls) = (contains l boot_completed ≡ false) × AreQuiet ls

abbrev lines : List Str → List BootEvent
lines = map line

-- The three ways in which waiting ends, after some quiet lines. All lines up to the return are handed
-- to the callback in their order, those before the end of the wait without exception.
pub data Ends (events : List BootEvent) (o : BootOutcome) : Type 0 where
  completed :
      (quiet : List Str) (l : Str) (rest : List BootEvent)
      → AreQuiet quiet
      → contains l boot_completed ≡ true
      → events ≡ lines quiet ++ (line l ∷ rest)
      → o.called_back ≡ quiet ++ (l ∷ (scan_on rest).handed)
      → o.result ≡ ok tt
      → Ends events o
  timed_out :
      (quiet : List Str) (rest : List BootEvent)
      → AreQuiet quiet
      → events ≡ lines quiet ++ (deadline ∷ rest)
      → o.called_back ≡ quiet ++ (scan_on rest).handed
      → o.result ≡ err (message (text "VMStart timeout"))
      → Ends events o
  terminated :
      (quiet : List Str)
      → AreQuiet quiet
      → events ≡ lines quiet
      → o.called_back ≡ quiet
      → o.result ≡ err (message (text "VMStart failed as launch_cvd terminated abnormally"))
      → Ends events o

Ends-line :
    (l : Str) (events : List BootEvent) (o : BootOutcome)
    → contains l boot_completed ≡ false
    → Ends events o
    → Ends (line l ∷ events) (after_line l o)
Ends-line l events o h (completed quiet m rest q c e called r) =
    completed (l ∷ quiet) m rest (h, q) c (ap (λ (es : List BootEvent). line l ∷ es) e)
      (ap (λ (ls : List Str). l ∷ ls) called) r
Ends-line l events o h (timed_out quiet rest q e called r) =
    timed_out (l ∷ quiet) rest (h, q) (ap (λ (es : List BootEvent). line l ∷ es) e)
      (ap (λ (ls : List Str). l ∷ ls) called) r
Ends-line l events o h (terminated quiet q e called r) =
    terminated (l ∷ quiet) (h, q) (ap (λ (es : List BootEvent). line l ∷ es) e)
      (ap (λ (ls : List Str). l ∷ ls) called) r

-- Waiting for the launcher always ends in one of three ways: success at the first line that says
-- the boot is complete unless the deadline comes before it, a timeout at the deadline, or an error
-- at the end of the stream; the callback has had each line up to there once, in order.
pub await_boot-Ends : (events : List BootEvent) → Ends events (await_boot events)
unfolding await_boot
await_boot-Ends [] = terminated [] tt refl refl refl
await_boot-Ends (deadline ∷ events) = timed_out [] events tt refl refl refl
await_boot-Ends (line l ∷ events) = elim (Bool-cases (contains l boot_completed)) [
  | inl c ↦ completed [] l events tt c refl (rw c refl) (rw c refl)
  | inr q ↦ rw q (Ends-line l events (await_boot events) q (await_boot-Ends events))
]
