-- ===== src/Examples/LeaseRuns.antt =====
-- The theorems on leases and fenced stores: worker "x" takes a step, and worker "y" takes it over
-- after a minute.
use haro.Prelude.{none, ◌*◌, ◌≡◌, refl, some, List, [], ◌∷◌, arith, string_eq, nat_eq}
use haro.Prelude.Table
use haro.Store.Types.{Lease, ok}
use haro.Store.State.{
  new_fake_store, FakeStore, step_key, is_valid_execution_status, is_valid_workspace_mode,
  is_valid_step_type, is_valid_step_status,
}
use haro.Store.Projects
use haro.Store.Executions
use haro.Store.Steps
use haro.Store.Calls.{
  call, perform, perform_all, lease_acquire, lease_renew, step_update_status, Call,
}
use haro.Store.Leases
use haro.Store.Leases.{second, minute, format, is_live_or_malformed}
use haro.Store.Fencing.{acquire_answers, acquire_exclusive, Fenced}
use haro.Store.Fencing.Runs.{perform_all-Fenced}
use haro.Execution.Fenced.{FencedStore, fenced_call, fenced_with_tx, stale_lease}
use haro.Execution.Takeover.{takeover_fences, takeover_fences_tx}
use haro.Examples.Scenario.{start}

-- Worker "x" has the step from time 0, worker "y" from the end of the minute.
abbrev taken : FakeStore
taken = (Leases.acquire start 0 "e" "s" "x").1

abbrev taken_lease : Lease
taken_lease = record {
  execution_id = "e";
  step_id = "s";
  holder = "x";
  fencing_token = 1;
  acquired_at = some 0;
  expires_at = some 60;
}

taken_first : (Leases.acquire start 0 "e" "s" "x").0 ≡ ok 1
unfolding perform_all perform call Projects.create Executions.create Steps.create Table.get
    Table.put Table.has is_valid_execution_status is_valid_workspace_mode is_valid_step_type
    is_valid_step_status step_key Leases.acquire format is_live_or_malformed
taken_first = refl

taken_found : Table.get taken.leases (step_key "e" "s") ≡ some taken_lease
unfolding perform_all perform call Projects.create Executions.create Steps.create Table.get
    Table.put Table.has is_valid_execution_status is_valid_workspace_mode is_valid_step_type
    is_valid_step_status step_key Leases.acquire format is_live_or_malformed
taken_found = refl

acquire_answers_example : (Leases.acquire taken 0 "e" "s" "x").0 ≡ ok 2
acquire_answers_example = acquire_answers taken 0 60 "e" "s" "x" taken_lease taken_found refl

acquire_exclusive_example : (Leases.acquire taken minute "e" "s" "y").0 ≡ ok 2
acquire_exclusive_example = acquire_exclusive start 0 minute "e" "s" "x" "y" 1 taken_first refl

abbrev view : FencedStore
view = record { execution_id = "e"; step_id = "s"; holder = "x"; fencing_token = 1 }

abbrev between : List Call
between = lease_renew minute "e" "s" "x" 1 ∷ []

overtaken_at : (Leases.acquire taken minute "e" "s" "y").0 ≡ ok 2
unfolding perform_all perform call Projects.create Executions.create Steps.create Table.get
    Table.put Table.has is_valid_execution_status is_valid_workspace_mode is_valid_step_type
    is_valid_step_status step_key Leases.acquire format is_live_or_malformed
overtaken_at = refl

takeover_fences_example :
    fenced_call view
      (2 * minute)
      (perform_all (Leases.acquire taken minute "e" "s" "y").1 between)
      (λ t. t)
      (step_update_status "e" "s" "running")
    ≡ (some stale_lease, perform_all (Leases.acquire taken minute "e" "s" "y").1 between)
takeover_fences_example =
    takeover_fences view taken minute (2 * minute) 2 "y" between (λ t. t)
      (step_update_status "e" "s" "running") refl overtaken_at (omega arith) (omega arith)

takeover_fences_tx_example :
    fenced_with_tx view
      (2 * minute)
      (perform_all (Leases.acquire taken minute "e" "s" "y").1 between)
      (λ t. t)
      (λ t. t)
      (λ f t. (none, new_fake_store))
    ≡ (some stale_lease, perform_all (Leases.acquire taken minute "e" "s" "y").1 between)
takeover_fences_tx_example =
    takeover_fences_tx view taken minute (2 * minute) 2 "y" between (λ t. t) (λ t. t)
      (λ f t. (none, new_fake_store)) overtaken_at (omega arith) (omega arith)

abbrev held_by_x : Fenced (step_key "e" "s") 1 "x" 1 taken.leases
held_by_x = record {
  lease = taken_lease;
  found = taken_found;
  later = omega arith;
  same = λ e. refl;
  bounded = omega arith;
}

perform_all-Fenced_example :
    Fenced
      (step_key "e" "s")
      1
      "x"
      2
      (perform_all taken (lease_acquire minute "e" "s" "y" ∷ [])).leases
perform_all-Fenced_example =
    perform_all-Fenced (step_key "e" "s") 1 "x" 1 taken (lease_acquire minute "e" "s" "y" ∷ [])
      (omega arith) held_by_x
