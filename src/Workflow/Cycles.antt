-- ===== src/Workflow/Cycles.antt =====
-- detectCycle of internal/workflow/validate.go: a depth-first search over the dependencies. The
-- stack of a call is its caller's with its own node at the end; a call that returns false has
-- popped what it pushed, so its caller goes on with its own stack.
pub mod Marks
pub mod Order
pub mod Depends
pub mod Loops
pub mod Fuel
pub mod Verdict
use haro.Prelude.{
  ℕ, zero, suc, String, Bool, true, false, Option, none, some, List, [], ◌∷◌, ◌++◌, ◌==◌, string_eq,
  if◌then◌else◌, length,
}
use haro.Prelude.Table
use haro.Prelude.Table.{Table, put}
use haro.Workflow.Types.{Step}

pub data Color : Type 0 where
  white gray black : Color

abbrev pub Colors : Type 0
Colors = Table String Color

abbrev pub Edges : Type 0
Edges = Table String (List String)

-- A missing key reads as the zero value: white, or no dependencies.
abbrev pub or_white : Option Color → Color
or_white none = white
or_white (some c) = c

abbrev pub or_nil : Option (List String) → List String
or_nil none = []
or_nil (some l) = l

abbrev pub color_of : Colors → String → Color
color_of colors node = or_white (Table.get colors node)

abbrev pub deps_of : Edges → String → List String
deps_of adj node = or_nil (Table.get adj node)

-- A later step of the same id overwrites the entry.
unfoldable pub fill_edges : Edges → List Step → Edges
fill_edges adj [] = adj
fill_edges adj (s ∷ steps) = fill_edges (put adj s.id s.depends_on) steps

abbrev pub edges : List Step → Edges
edges steps = fill_edges [] steps

-- stack[idx:], from the first place of the node, or `none` where idx stays -1.
unfoldable pub from_first : List String → String → Option (List String)
from_first [] nb = none
from_first (v ∷ stack) nb = if v == nb then some (v ∷ stack) else from_first stack nb

-- The cycle of the message.
unfoldable pub cycle_at : List String → String → String → List String
cycle_at stack node nb = elim (from_first stack nb) [
  | some tail ↦ tail ++ nb ∷ []
  | none ↦ nb ∷ node ∷ nb ∷ []
]

pub data Outcome : Type 0 where
  found : List String → Outcome
  finished : Colors → Outcome
  out_of_fuel : Outcome

-- The loop over the neighbours of a node, with the recursive call `dfs`.
unfoldable pub visit_all :
    (Colors → String → Outcome) → List String → String → Colors → List String → Outcome
visit_all dfs stack node colors [] = finished colors
visit_all dfs stack node colors (nb ∷ nbs) = elim (color_of colors nb) [
  | gray ↦ found (cycle_at stack node nb)
  | black ↦ visit_all dfs stack node colors nbs
  | white ↦ elim (dfs colors nb) [
    | found cycle ↦ found cycle
    | finished colors' ↦ visit_all dfs stack node colors' nbs
    | out_of_fuel ↦ out_of_fuel
  ]
]

-- color[node] = black
abbrev pub blacken : String → Outcome → Outcome
blacken node (found cycle) = found cycle
blacken node (finished colors) = finished (put colors node black)
blacken node out_of_fuel = out_of_fuel

unfoldable pub dfs : ℕ → Edges → List String → Colors → String → Outcome
dfs zero adj stack colors node = out_of_fuel
dfs (suc fuel) adj stack colors node = blacken node (
    visit_all (dfs fuel adj (stack ++ node ∷ [])) (stack ++ node ∷ []) node (put colors node gray)
      (deps_of adj node))

-- The loop over the steps.
unfoldable pub search_from : ℕ → Edges → Colors → List Step → Outcome
search_from fuel adj colors [] = finished colors
search_from fuel adj colors (s ∷ steps) = elim (color_of colors s.id) [
  | gray ↦ search_from fuel adj colors steps
  | black ↦ search_from fuel adj colors steps
  | white ↦ elim (dfs fuel adj [] colors s.id) [
    | found cycle ↦ found cycle
    | finished colors' ↦ search_from fuel adj colors' steps
    | out_of_fuel ↦ out_of_fuel
  ]
]

-- The nodes on the stack are steps, but for the last one: fuel for one call more than the steps.
unfoldable pub detect_cycle : List Step → Outcome
unfolding search_from
detect_cycle steps = search_from (suc (length steps)) (edges steps) [] steps
