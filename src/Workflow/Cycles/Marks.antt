-- ===== src/Workflow/Cycles/Marks.antt =====
-- The colours of detectCycle against the list of the nodes that it has finished.
use haro.Prelude.{
  mem, String, Bool, true, false, List, [], ◌∷◌, ◌==◌, ◌≡◌, refl, ◌∙◌, string_eq, if◌then◌else◌,
  All, arith, inl, inr, ◌⊎◌,
}
use haro.Prelude.Table.{put, get-put}
use haro.Workflow.Cycles.{
  Color, white, gray, black, Colors, Edges, color_of, deps_of, Outcome, found, finished,
  out_of_fuel,
}

abbrev pub is_black : Color → Bool
is_black black = true
is_black white = false
is_black gray = false

abbrev pub is_gray : Color → Bool
is_gray gray = true
is_gray white = false
is_gray black = false

pub Color-cases : (c : Color) → (c ≡ white) ⊎ ((c ≡ gray) ⊎ (c ≡ black))
Color-cases white = inl refl
Color-cases gray = inr (inl refl)
Color-cases black = inr (inr refl)

pub Outcome-cases :
    (o : Outcome)
    → ((cycle : List String) × (o ≡ found cycle))
      ⊎ (((c : Colors) × (o ≡ finished c)) ⊎ (o ≡ out_of_fuel))
Outcome-cases (found cycle) = inl (cycle, refl)
Outcome-cases (finished c) = inr (inl (c, refl))
Outcome-cases out_of_fuel = inr (inr refl)

-- Every node of the list depends only on nodes behind it, and stands once.
abbrev pub Ordered : Edges → List String → Type 0
Ordered adj [] = Unit
Ordered adj (x ∷ xs) =
    (mem x xs ≡ false) × All (λ d. mem d xs ≡ true) (deps_of adj x) × Ordered adj xs

-- The black nodes are those of the list.
abbrev pub Marks : List String → Colors → Type 0
Marks order c = (z : String) → is_black (color_of c z) ≡ mem z order

pub color_of-put :
    (c : Colors) (x z : String) (k : Color)
    → color_of (put c x k) z ≡ (if x == z then k else color_of c z)
color_of-put c x z k = rw (get-put c x z k) (ground arith)

-- What a part of the search has done that began with `c`, where `order` was finished: the nodes
-- `nodes` are finished with those of `before`, and no other node has become gray.
pub record After (adj : Edges) (c : Colors) (before nodes : List String) (c' : Colors)
    : Type 0 where
  pub order : List String
  pub ordered : Ordered adj order
  pub marks : Marks order c'
  pub grows : (z : String) → mem z before ≡ true → mem z order ≡ true
  pub grays : (z : String) → is_gray (color_of c' z) ≡ is_gray (color_of c z)
  pub reached : All (λ d. mem d order ≡ true) nodes

All-mem_grows :
    (xs before order : List String)
    → ((z : String) → mem z before ≡ true → mem z order ≡ true)
    → All (λ d. mem d before ≡ true) xs
    → All (λ d. mem d order ≡ true) xs
All-mem_grows [] before order grows h = tt
All-mem_grows (x ∷ xs) before order grows (first, rest) =
    (grows x first, All-mem_grows xs before order grows rest)

module _ (adj : Edges) where
  -- The search of one node, and then of others.
  pub After-then :
      (c c1 c' : Colors) (before ys : List String) (x : String)
      (first : After adj c before (x ∷ []) c1)
      → After adj c1 first.order ys c'
      → After adj c before (x ∷ ys) c'
  After-then c c1 c' before ys x first second = record {
    order = second.order;
    ordered = second.ordered;
    marks = second.marks;
    grows = λ z h. second.grows z (first.grows z h);
    grays = λ z. second.grays z ∙ first.grays z;
    reached = (second.grows x first.reached.0, second.reached);
  }

  pub After-cons :
      (c c' : Colors) (before ys : List String) (x : String) (rest : After adj c before ys c')
      → mem x rest.order ≡ true
      → After adj c before (x ∷ ys) c'
  After-cons c c' before ys x rest h = record {
    order = rest.order;
    ordered = rest.ordered;
    marks = rest.marks;
    grows = rest.grows;
    grays = rest.grays;
    reached = (h, rest.reached);
  }
