-- ===== src/Workflow/Cycles/Fuel.antt =====
-- The fuel of detectCycle: the steps that are still white bound the depth of the search.
use haro.Prelude.{
  mem, ℕ, zero, ◌+◌, ◌≤◌, ◌<◌, ◌≢◌, suc, String, Bool, true, false, List, [], ◌∷◌, ◌++◌, ◌==◌, ◌≡◌,
  refl, sym, string_eq, if◌then◌else◌, length, arith, eq_iff, Bool-cases, inl, inr, ==_sound,
}
use haro.Prelude.Table
use haro.Prelude.Table.{Table, put, get-put}
use haro.Workflow.Types.{Step}
use haro.Workflow.Cycles.{
  Color, white, gray, black, Colors, Edges, color_of, deps_of, edges, Outcome, out_of_fuel,
  visit_all, dfs, search_from,
}
use haro.Workflow.Cycles.Marks.{Color-cases, Outcome-cases, Ordered, Marks, color_of-put, After}
use haro.Workflow.Cycles.Order.{get-fill_edges, Searches, ids, put_gray-Marks, dfs-After}

abbrev pub is_white : Color → Bool
is_white white = true
is_white gray = false
is_white black = false

-- The white nodes of a list.
abbrev pub whites : Colors → List String → ℕ
whites c [] = 0
whites c (x ∷ xs) = (if is_white (color_of c x) then 1 else 0) + whites c xs

pub whites-le_length : (c : Colors) (steps : List Step) → whites c (ids steps) ≤ length steps
whites-le_length c [] = omega arith
whites-le_length c (s ∷ steps) = ground (arith, whites-le_length c steps)

-- Fewer nodes are white where no node has become white.
whites-le :
    (c c' : Colors) (xs : List String)
    → ((z : String) → is_white (color_of c' z) ≡ true → is_white (color_of c z) ≡ true)
    → whites c' xs ≤ whites c xs
whites-le c c' [] h = omega arith
whites-le c c' (x ∷ xs) h = let here = h x in ground (arith, whites-le c c' xs h, here)

stays_colored :
    (c : Colors) (x z : String)
    → is_white (color_of (put c x gray) z) ≡ true
    → is_white (color_of c z) ≡ true
stays_colored c x z h = ground (arith, color_of-put c x z gray, h)

whites-put_lt :
    (c : Colors) (xs : List String) (x : String)
    → mem x xs ≡ true
    → color_of c x ≡ white
    → whites (put c x gray) xs < whites c xs
whites-put_lt c [] x h w = absurd cc
whites-put_lt c (y ∷ ys) x h w = elim (Bool-cases (y == x)) [
  | inl same ↦
      let e : x ≡ y = sym (==_sound y x same) in
      let was : is_white (color_of c y) ≡ true = rw⁻¹ e (rw w refl) in
      let is : is_white (color_of (put c x gray) y) ≡ false =
        ground (arith, color_of-put c x y gray, eq_iff x y, e) in
      ground (arith, was, is, whites-le c (put c x gray) ys (λ z k. stays_colored c x z k))
  | inr other ↦
      let less = whites-put_lt c ys x (rw other at h) w in
      let here = stays_colored c x y in ground (arith, less, here)
]

After-whites :
    (adj : Edges) (c c' : Colors) (before nodes xs : List String)
    → Marks before c
    → After adj c before nodes c'
    → whites c' xs ≤ whites c xs
After-whites adj c c' before nodes xs marks after =
    whites-le c c' xs
      (λ z h. ground (arith, marks z, after.marks z, after.grows z, after.grays z, h))

module _ (adj : Edges) (nodes : List String)
    (inner_nodes : (z : String) → mem z nodes ≡ false → deps_of adj z ≡ []) where
  abbrev Ends : ℕ → (Colors → String → Outcome) → Type 0
  Ends fuel go =
      (c : Colors) (before : List String) (node : String)
      → Ordered adj before
      → Marks before c
      → color_of c node ≡ white
      → whites c nodes < fuel
      → go c node ≢ out_of_fuel

  visit_all-Ends :
      (fuel : ℕ) (go : Colors → String → Outcome)
      → Searches adj go
      → Ends fuel go
      → (stack : List String) (node : String) (nbs before : List String) (c : Colors)
      → Ordered adj before
      → Marks before c
      → whites c nodes < fuel
      → visit_all go stack node c nbs ≢ out_of_fuel
  unfolding visit_all
  visit_all-Ends fuel go searches ends stack node [] before c ordered marks enough done = cc
  visit_all-Ends fuel go searches ends stack node (nb ∷ nbs) before c ordered marks enough done =
      elim (Color-cases (color_of c nb)) [
        | inl w ↦ elim (Outcome-cases (go c nb)) [
          | inl (cycle, e) ↦ let h = rw (w, e, visit_all) at done in cc
          | inr (inl (c1, e)) ↦
              let first = searches c c1 before nb ordered marks w e in
              let fewer = After-whites adj c c1 before (nb ∷ []) nodes marks first in
              visit_all-Ends fuel go searches ends stack node nbs first.order c1 first.ordered
                first.marks (omega (arith, fewer)) (rw (w, e, visit_all) at done)
          | inr (inr e) ↦ ends c before nb ordered marks w enough e
        ]
        | inr (inl g) ↦ let h = rw (g, visit_all) at done in cc
        | inr (inr b) ↦
            visit_all-Ends fuel go searches ends stack node nbs before c ordered marks enough
              (rw (b, visit_all) at done)
      ]

  dfs-Ends : (fuel : ℕ) (stack : List String) → Ends fuel (dfs fuel adj stack)
  unfolding dfs visit_all
  dfs-Ends zero stack c before node ordered marks w enough done = omega arith
  dfs-Ends (suc fuel) stack c before node ordered marks w enough done =
      let stack' = stack ++ node ∷ [] in
      let go = dfs fuel adj stack' in
      let c1 = put c node gray in
      let loop = visit_all go stack' node c1 (deps_of adj node) in
      let stuck : loop ≡ out_of_fuel = elim (Outcome-cases loop) [
        | inl (cycle, e) ↦ let h = rw (e, dfs) at done in absurd cc
        | inr (inl (c2, e)) ↦ let h = rw (e, dfs) at done in absurd cc
        | inr (inr e) ↦ e
      ] in
      elim (Bool-cases (mem node nodes)) [
        | inl inside ↦
            let less = whites-put_lt c nodes node inside w in
            visit_all-Ends fuel go (dfs-After adj fuel stack') (dfs-Ends fuel stack') stack' node
              (deps_of adj node) before c1 ordered (put_gray-Marks adj c before node w marks)
              (omega (arith, less)) stuck
        | inr outside ↦ let h = rw (inner_nodes node outside, visit_all) at stuck in cc
      ]

  pub search_from_ends :
      (fuel : ℕ) (steps : List Step) (before : List String) (c : Colors)
      → Ordered adj before
      → Marks before c
      → whites c nodes < fuel
      → search_from fuel adj c steps ≢ out_of_fuel
  unfolding search_from
  search_from_ends fuel [] before c ordered marks enough done = cc
  search_from_ends fuel (s ∷ steps) before c ordered marks enough done =
      elim (Color-cases (color_of c s.id)) [
        | inl w ↦ elim (Outcome-cases (dfs fuel adj [] c s.id)) [
          | inl (cycle, e) ↦ let h = rw (w, e, search_from) at done in cc
          | inr (inl (c1, e)) ↦
              let first = dfs-After adj fuel [] c c1 before s.id ordered marks w e in
              let fewer = After-whites adj c c1 before (s.id ∷ []) nodes marks first in
              search_from_ends fuel steps first.order c1 first.ordered first.marks
                (omega (arith, fewer)) (rw (w, e, search_from) at done)
          | inr (inr e) ↦ dfs-Ends fuel [] c before s.id ordered marks w enough e
        ]
        | inr (inl g) ↦
            search_from_ends fuel steps before c ordered marks enough (rw (g, search_from) at done)
        | inr (inr b) ↦
            search_from_ends fuel steps before c ordered marks enough (rw (b, search_from) at done)
      ]

pub inner_nodes_of :
    (steps : List Step) (z : String) → mem z (ids steps) ≡ false → deps_of (edges steps) z ≡ []
unfolding Table.get
inner_nodes_of steps z h = rw (get-fill_edges [] steps z h) refl
