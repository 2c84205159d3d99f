-- ===== src/Workflow/Sort.antt =====
-- topoSort of internal/workflow/compose.go: Kahn's algorithm with a sorted queue. sort.Strings is
-- the parameter `sort_strings`. The degrees are the integers without their bounds: a list has fewer
-- than 2^63 elements.
pub mod Counts
pub mod Index
pub mod Invariant
pub mod Result
pub mod Complete
use haro.Prelude.{
  drop, ℕ, zero, suc, ◌+◌, String, Bool, true, false, Option, none, some, List, [], ◌∷◌, ◌++◌, ◌==◌,
  string_eq, nat_eq, not, if◌then◌else◌, length, take,
}
use haro.Prelude.Table
use haro.Prelude.Table.{Table, put}
use haro.Workflow.Types.{ℤ, pos, negsuc, Step, FlatStep}
use haro.Workflow.Cycles.{Edges, or_nil, deps_of}

-- idToIdx, from the index `i`
unfoldable pub fill_index : ℕ → Table String ℕ → List FlatStep → Table String ℕ
fill_index i m [] = m
fill_index i m (s ∷ steps) = fill_index (suc i) (put m s.id i) steps

abbrev pub or_zero : Option ℕ → ℕ
or_zero none = 0
or_zero (some n) = n

-- steps[idx : idx+1]
unfoldable pub pick : List FlatStep → String → List FlatStep
unfolding fill_index
pick steps cur = take 1 (drop (or_zero (Table.get (fill_index 0 [] steps) cur)) steps)

abbrev pub Degrees : Type 0
Degrees = Table String ℤ

unfoldable pub fill_degrees : Degrees → List FlatStep → Degrees
fill_degrees m [] = m
fill_degrees m (s ∷ steps) = fill_degrees (put m s.id (pos (length s.depends_on))) steps

-- The loop over s.DependsOn: adj[dep] = append(adj[dep], s.ID)
unfoldable pub add_dependents : Edges → String → List String → Edges
add_dependents adj id [] = adj
add_dependents adj id (dep ∷ deps) =
    add_dependents (put adj dep (deps_of adj dep ++ id ∷ [])) id deps

unfoldable pub fill_dependents : Edges → List FlatStep → Edges
unfolding add_dependents
fill_dependents adj [] = adj
fill_dependents adj (s ∷ steps) = fill_dependents (add_dependents adj s.id s.depends_on) steps

abbrev pub or_nothing : Option ℤ → ℤ
or_nothing none = pos 0
or_nothing (some n) = n

abbrev pub degree_of : Degrees → String → ℤ
degree_of indeg id = or_nothing (Table.get indeg id)

abbrev pub decrement : ℤ → ℤ
decrement (pos zero) = negsuc 0
decrement (pos (suc n)) = pos n
decrement (negsuc n) = negsuc (suc n)

abbrev pub is_zero : ℤ → Bool
is_zero (pos n) = n == 0
is_zero (negsuc n) = false

unfoldable pub first_queue : Degrees → List FlatStep → List String
first_queue indeg [] = []
first_queue indeg (s ∷ steps) =
    let rest = first_queue indeg steps in
    if is_zero (degree_of indeg s.id) then s.id ∷ rest else rest

-- The loop over adj[cur].
unfoldable pub release : Degrees → List String → List String → Degrees × List String
release indeg queue [] = (indeg, queue)
release indeg queue (nxt ∷ nxts) =
    let n = decrement (degree_of indeg nxt) in
    release (put indeg nxt n) (if is_zero n then queue ++ nxt ∷ [] else queue) nxts

abbrev pub prepend : List FlatStep → Option (List FlatStep) → Option (List FlatStep)
prepend first none = none
prepend first (some rest) = some (first ++ rest)

pub data Sorted : Type 0 where
  sorted : List FlatStep → Sorted
  cycle_detected out_of_fuel : Sorted

-- `visited` is the length of `out`, which grows by one step in each round.
abbrev pub judge : List FlatStep → Option (List FlatStep) → Sorted
judge steps none = out_of_fuel
judge steps (some out) = if not (length out == length steps) then cycle_detected else sorted out

module _ (sort_strings : List String → List String) where
  -- What the loop over the queue appends to `out`; `none` where the fuel ran out.
  unfoldable pub drain : ℕ → List FlatStep → Edges → Degrees → List String → Option (List FlatStep)
  drain fuel steps adj indeg [] = some []
  drain zero steps adj indeg (cur ∷ queue) = none
  drain (suc fuel) steps adj indeg (cur ∷ queue) =
      let (indeg', queue') = release indeg queue (deps_of adj cur) in
      prepend (pick steps cur) (drain fuel steps adj indeg' (sort_strings queue'))

  -- A round takes an id off the queue, and no id comes twice: fuel for the steps is enough.
  unfoldable pub topo_sort : List FlatStep → Sorted
  unfolding fill_degrees fill_dependents first_queue drain
  topo_sort steps =
      let indeg = fill_degrees [] steps in
      judge steps (
        drain (length steps) steps (fill_dependents [] steps) indeg
          (sort_strings (first_queue indeg steps)))
