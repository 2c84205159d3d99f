-- ===== src/Workflow/Cycles/Verdict.antt =====
-- What detectCycle of internal/workflow/validate.go decides.
use haro.Prelude.{
  All-mem, mem, ◌≢◌, suc, String, true, List, [], ◌≡◌, refl, string_eq, length, arith, Bool-cases,
  inl, inr,
}
use haro.Prelude.Table
use haro.Prelude.Table.{Table, put, get-put}
use haro.Workflow.Types.{Step}
use haro.Workflow.Cycles.{Colors, edges, found, finished, out_of_fuel, detect_cycle}
use haro.Workflow.Cycles.Order.{ids, search_from-After}
use haro.Workflow.Cycles.Depends.{Depends, Depends-first, Ordered-acyclic}
use haro.Workflow.Cycles.Loops.{search_from-Loop}
use haro.Workflow.Cycles.Fuel.{search_from_ends, inner_nodes_of, whites-le_length}

-- detectCycle never runs out of the fuel that the model gives it.
pub detect_cycle_ends : (steps : List Step) → detect_cycle steps ≢ out_of_fuel
unfolding detect_cycle Table.get
detect_cycle_ends steps =
    search_from_ends (edges steps) (ids steps) (inner_nodes_of steps) (suc (length steps)) steps []
      [] tt (λ z. refl) (omega (arith, whites-le_length [] steps))

-- Where detectCycle accepts, no id depends on itself, directly or through others, where an id depends
-- on what the last step of this id lists.
pub detect_cycle_accepts :
    (steps : List Step) (c : Colors) (x : String)
    → detect_cycle steps ≡ finished c
    → ¬ Depends (edges steps) x x
unfolding detect_cycle Table.get
detect_cycle_accepts steps c x done chain =
    let adj = edges steps in
    let after =
      search_from-After adj (suc (length steps)) steps [] [] c (λ z. refl) tt (λ z. refl) done in
    elim (Bool-cases (mem x (ids steps))) [
      | inl inside ↦
          let placed = All-mem (λ d. mem d after.order ≡ true) (ids steps) x after.reached inside in
          Ordered-acyclic adj after.order x after.ordered placed chain
      | inr outside ↦
          let (d, first, more) = Depends-first adj x x chain in
          let h = rw (inner_nodes_of steps x outside) at first in cc
    ]

-- Where detectCycle rejects, some id depends on itself, directly or through others, where an id
-- depends on what the last step of this id lists.
pub detect_cycle_rejects :
    (steps : List Step) (cycle : List String)
    → detect_cycle steps ≡ found cycle
    → (x : String) × Depends (edges steps) x x
unfolding detect_cycle Table.get
detect_cycle_rejects steps cycle done =
    search_from-Loop (edges steps) (suc (length steps)) steps [] [] cycle (λ z. refl) tt (λ z. refl)
      done
