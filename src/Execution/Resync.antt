-- ===== src/Execution/Resync.antt =====
-- The status that `resyncExecution` of internal/execution/engine.go computes.
use mathlib.Core.List.{foldl}
use haro.Prelude.{
  Bool, true, false, List, [], ◌∷◌, not, ◌&&◌, ◌||◌, ◌==◌, ◌≡◌, refl, if◌then◌else◌, string_eq, any,
  all, arith, String,
}
use haro.Store.Types.{ExecutionStep}
use haro.Execution.Steps.{Flags, scan, resync_status, is_completed_or_skipped, is_open, is_empty}

abbrev pub has_status : String → ExecutionStep → Bool
has_status word x = x.status == word

abbrev is_unfinished : ExecutionStep → Bool
is_unfinished x = x.status == "failed" || x.status == "pending" || x.status == "running"

scan_all_completed :
    (f : Flags) (xs : List ExecutionStep)
    → (foldl scan f xs).all_completed ≡ (f.all_completed && not (any is_unfinished xs))
unfolding scan
scan_all_completed f [] = ground arith
scan_all_completed f (x ∷ xs) = ground (arith, scan_all_completed (scan f x) xs)

scan_has_failed :
    (f : Flags) (xs : List ExecutionStep)
    → (foldl scan f xs).has_failed ≡ (f.has_failed || any (has_status "failed") xs)
unfolding scan
scan_has_failed f [] = ground arith
scan_has_failed f (x ∷ xs) = ground (arith, scan_has_failed (scan f x) xs)

scan_has_running :
    (f : Flags) (xs : List ExecutionStep)
    → (foldl scan f xs).has_running ≡ (f.has_running || any (has_status "running") xs)
unfolding scan
scan_has_running f [] = ground arith
scan_has_running f (x ∷ xs) = ground (arith, scan_has_running (scan f x) xs)

unfinished_split :
    (xs : List ExecutionStep)
    → any is_unfinished xs ≡ (any (has_status "failed") xs || any is_open xs)
unfinished_split [] = refl
unfinished_split (x ∷ xs) = ground (arith, unfinished_split xs)

running_is_open :
    (xs : List ExecutionStep)
    → any (has_status "running") xs ≡ (any (has_status "running") xs && any is_open xs)
running_is_open [] = refl
running_is_open (x ∷ xs) = ground (arith, running_is_open xs)

-- The computed status is "running" while a step is pending or running; otherwise "failed" if a step
-- has failed; otherwise "completed" if there is a step and all are completed or skipped; and
-- "running" in what is left, such as an execution without steps.
pub resync_status_lem :
    (xs : List ExecutionStep)
    → resync_status xs ≡ (
        if any is_open xs
        then "running"
        else if any (has_status "failed") xs
        then "failed"
        else if not (is_empty xs) && all is_completed_or_skipped xs
        then "completed"
        else "running")
unfolding resync_status
resync_status_lem xs =
    let start : Flags = record { all_completed = true; has_failed = false; has_running = false } in
    ground (
      arith,
      scan_all_completed start xs,
      scan_has_failed start xs,
      scan_has_running start xs,
      unfinished_split xs,
      running_is_open xs,
    )
