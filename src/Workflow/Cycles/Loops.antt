-- ===== src/Workflow/Cycles/Loops.antt =====
-- Where detectCycle reports a cycle, a step depends on itself.
use haro.Prelude.{
  mem, ℕ, zero, suc, String, true, false, List, [], ◌∷◌, ◌++◌, ◌==◌, ◌≡◌, refl, sym, ◌∙◌, string_eq,
  All, arith, eq_iff, Bool-cases, inl, inr, ◌⊎◌, ==_sound,
}
use haro.Prelude.Table.{put}
use haro.Workflow.Types.{Step}
use haro.Workflow.Cycles.{
  white, gray, Colors, Edges, color_of, deps_of, Outcome, found, visit_all, dfs, search_from,
}
use haro.Workflow.Cycles.Marks.{is_gray, Color-cases, Outcome-cases, Ordered, Marks, color_of-put}
use haro.Workflow.Cycles.Order.{Searches, put_gray-Marks, dfs-After}
use haro.Workflow.Cycles.Depends.{Depends, direct, through}

-- Every gray node, that is every node on the stack, leads to the node that is searched next.
abbrev Leads : Edges → Colors → String → Type 0
Leads adj c node = (z : String) → is_gray (color_of c z) ≡ true → Depends adj z node

abbrev pub Loop : Edges → Type 0
Loop adj = (x : String) × Depends adj x x

module _ (adj : Edges) where
  abbrev Traps : (Colors → String → Outcome) → Type 0
  Traps go =
      (c : Colors) (before : List String) (node : String) (cycle : List String)
      → Ordered adj before
      → Marks before c
      → color_of c node ≡ white
      → Leads adj c node
      → go c node ≡ found cycle
      → Loop adj

  visit_all-Loop :
      (go : Colors → String → Outcome)
      → Searches adj go
      → Traps go
      → (stack : List String) (node : String) (nbs before : List String) (c : Colors)
        (cycle : List String)
      → Ordered adj before
      → Marks before c
      → ((z : String) → is_gray (color_of c z) ≡ true → (z ≡ node) ⊎ Depends adj z node)
      → All (λ nb. mem nb (deps_of adj node) ≡ true) nbs
      → visit_all go stack node c nbs ≡ found cycle
      → Loop adj
  unfolding visit_all
  visit_all-Loop go searches traps stack node [] before c cycle ordered marks leads edges_ done =
      absurd cc
  visit_all-Loop go searches traps stack node (nb ∷ nbs) before c cycle ordered marks leads
        (edge, rest) done =
      let to_nb : Leads adj c nb = λ z h. elim (leads z h) [
        | inl same ↦ rw same (direct edge)
        | inr chain ↦ through chain edge
      ] in
      elim (Color-cases (color_of c nb)) [
        | inl is_white ↦ elim (Outcome-cases (go c nb)) [
          | inl (cycle', e) ↦ traps c before nb cycle' ordered marks is_white to_nb e
          | inr (inl (c1, e)) ↦
              let first = searches c c1 before nb ordered marks is_white e in
              visit_all-Loop go searches traps stack node nbs first.order c1 cycle first.ordered
                first.marks (λ z h. leads z (rw⁻¹ (first.grays z) h)) rest
                (rw (is_white, e, visit_all) at done)
          | inr (inr e) ↦ let h = rw (is_white, e, visit_all) at done in absurd cc
        ]
        | inr (inl is_gray_) ↦ (nb, to_nb nb (rw is_gray_ refl))
        | inr (inr is_black_) ↦
            visit_all-Loop go searches traps stack node nbs before c cycle ordered marks leads rest
              (rw (is_black_, visit_all) at done)
      ]

  All-mem_self :
      (xs ys : List String)
      → ((d : String) → mem d xs ≡ true → mem d ys ≡ true)
      → All (λ d. mem d ys ≡ true) xs
  All-mem_self [] ys h = tt
  All-mem_self (x ∷ xs) ys h =
      (h x (ground (arith, eq_iff x x)), All-mem_self xs ys (λ d k. h d (ground (arith, k))))

  dfs-Loop : (fuel : ℕ) (stack : List String) → Traps (dfs fuel adj stack)
  unfolding dfs
  dfs-Loop zero stack c before node cycle ordered marks is_white leads done = absurd cc
  dfs-Loop (suc fuel) stack c before node cycle ordered marks is_white leads done =
      let stack' = stack ++ node ∷ [] in
      let loop = visit_all (dfs fuel adj stack') stack' node (put c node gray) (deps_of adj node) in
      elim (Outcome-cases loop) [
        | inl (cycle', e) ↦
            visit_all-Loop (dfs fuel adj stack') (dfs-After adj fuel stack') (dfs-Loop fuel stack')
              stack' node (deps_of adj node) before (put c node gray) cycle' ordered
              (put_gray-Marks adj c before node is_white marks)
              (λ z h. elim (Bool-cases (node == z)) [
                | inl same ↦ inl (sym (==_sound node z same))
                | inr other ↦ inr (leads z (ground (arith, color_of-put c node z gray, h)))
              ])
              (All-mem_self (deps_of adj node) (deps_of adj node) (λ d h. h)) e
        | inr (inl (c1, e)) ↦ let h = rw (e, dfs) at done in absurd cc
        | inr (inr e) ↦ let h = rw (e, dfs) at done in absurd cc
      ]

  pub search_from-Loop :
      (fuel : ℕ) (steps : List Step) (before : List String) (c : Colors) (cycle : List String)
      → ((z : String) → is_gray (color_of c z) ≡ false)
      → Ordered adj before
      → Marks before c
      → search_from fuel adj c steps ≡ found cycle
      → Loop adj
  unfolding search_from
  search_from-Loop fuel [] before c cycle clear ordered marks done = absurd cc
  search_from-Loop fuel (s ∷ steps) before c cycle clear ordered marks done =
      elim (Color-cases (color_of c s.id)) [
        | inl is_white ↦ elim (Outcome-cases (dfs fuel adj [] c s.id)) [
          | inl (cycle', e) ↦
              dfs-Loop fuel [] c before s.id cycle' ordered marks is_white
                (λ z h. let never = clear z in absurd (ground (arith, never, h))) e
          | inr (inl (c1, e)) ↦
              let first = dfs-After adj fuel [] c c1 before s.id ordered marks is_white e in
              search_from-Loop fuel steps first.order c1 cycle (λ z. first.grays z ∙ clear z)
                first.ordered first.marks (rw (is_white, e, search_from) at done)
          | inr (inr e) ↦ let h = rw (is_white, e, search_from) at done in absurd cc
        ]
        | inr (inl is_gray_) ↦
            search_from-Loop fuel steps before c cycle clear ordered marks
              (rw (is_gray_, search_from) at done)
        | inr (inr is_black_) ↦
            search_from-Loop fuel steps before c cycle clear ordered marks
              (rw (is_black_, search_from) at done)
      ]
