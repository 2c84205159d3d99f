-- ===== src/Workflow/Cycles/Order.antt =====
-- The nodes that detectCycle has finished, in the order in which it finished them.
use haro.Prelude.{
  mem, ℕ, zero, suc, String, false, List, [], ◌∷◌, ◌++◌, ◌≡◌, refl, sym, ◌∙◌, string_eq, arith,
  eq_iff, inl, inr,
}
use haro.Prelude.Table
use haro.Prelude.Table.{Table, put, get-put}
use haro.Workflow.Types.{Step}
use haro.Workflow.Cycles.{
  white, gray, black, Colors, Edges, color_of, deps_of, Outcome, finished, visit_all, dfs,
  search_from, fill_edges,
}
use haro.Workflow.Cycles.Marks.{
  is_black, is_gray, Color-cases, Outcome-cases, Ordered, Marks, color_of-put, After, After-then,
  After-cons,
}

abbrev pub ids : List Step → List String
ids [] = []
ids (s ∷ steps) = s.id ∷ ids steps

pub get-fill_edges :
    (adj : Edges) (steps : List Step) (z : String)
    → mem z (ids steps) ≡ false
    → Table.get (fill_edges adj steps) z ≡ Table.get adj z
unfolding fill_edges
get-fill_edges adj [] z h = refl
get-fill_edges adj (s ∷ steps) z h =
    let later = get-fill_edges (put adj s.id s.depends_on) steps z (ground (arith, h)) in
    ground (arith, later, get-put adj s.id z s.depends_on, h)

module _ (adj : Edges) where
  abbrev pub Searches : (Colors → String → Outcome) → Type 0
  Searches search =
      (c c' : Colors) (before : List String) (node : String)
      → Ordered adj before
      → Marks before c
      → color_of c node ≡ white
      → search c node ≡ finished c'
      → After adj c before (node ∷ []) c'

  pub visit_all-After :
      (go : Colors → String → Outcome)
      → Searches go
      → (stack : List String) (node : String) (nbs before : List String) (c c' : Colors)
      → Ordered adj before
      → Marks before c
      → visit_all go stack node c nbs ≡ finished c'
      → After adj c before nbs c'
  unfolding visit_all
  visit_all-After go searches stack node [] before c c' ordered marks done =
      let same : c ≡ c' = cc in
      rw⁻¹ same (record {
        order = before;
        ordered = ordered;
        marks = marks;
        grows = λ z h. h;
        grays = λ z. refl;
        reached = tt;
      })
  visit_all-After go searches stack node (nb ∷ nbs) before c c' ordered marks done =
      elim (Color-cases (color_of c nb)) [
        | inl is_white ↦ elim (Outcome-cases (go c nb)) [
          | inl (cycle, e) ↦ let h = rw (is_white, e, visit_all) at done in absurd cc
          | inr (inl (c1, e)) ↦
              let first = searches c c1 before nb ordered marks is_white e in
              let second =
                visit_all-After go searches stack node nbs first.order c1 c' first.ordered
                  first.marks (rw (is_white, e, visit_all) at done) in
              After-then adj c c1 c' before nbs nb first second
          | inr (inr e) ↦ let h = rw (is_white, e, visit_all) at done in absurd cc
        ]
        | inr (inl is_gray_) ↦ let h = rw (is_gray_, visit_all) at done in absurd cc
        | inr (inr is_black_) ↦
            let rest =
              visit_all-After go searches stack node nbs before c c' ordered marks
                (rw (is_black_, visit_all) at done) in
            After-cons adj c c' before nbs nb rest
              (rest.grows nb (rw⁻¹ (marks nb) (rw is_black_ refl)))
      ]

  pub put_gray-Marks :
      (c : Colors) (before : List String) (node : String)
      → color_of c node ≡ white
      → Marks before c
      → Marks before (put c node gray)
  put_gray-Marks c before node is_white marks z =
      ground (arith, color_of-put c node z gray, marks z, eq_iff node z)

  -- The node of a call is finished after its dependencies.
  After-finish :
      (c c1 : Colors) (before : List String) (node : String)
      → color_of c node ≡ white
      → After adj (put c node gray) before (deps_of adj node) c1
      → After adj c before (node ∷ []) (put c1 node black)
  After-finish c c1 before node is_white inner =
      let self = color_of-put c node node gray in
      let open_node : is_black (color_of c1 node) ≡ false =
        ground (arith, self, inner.grays node, eq_iff node node) in
      record {
        order = node ∷ inner.order;
        ordered = (sym (inner.marks node) ∙ open_node, inner.reached, inner.ordered);
        marks = λ z. ground (arith, color_of-put c1 node z black, inner.marks z);
        grows = λ z h. ground (arith, inner.grows z h);
        grays = λ z. ground (
          arith,
          color_of-put c1 node z black,
          inner.grays z,
          color_of-put c node z gray,
          eq_iff node z,
        );
        reached = (ground (arith, eq_iff node node), tt);
      }

  pub dfs-After : (fuel : ℕ) (stack : List String) → Searches (dfs fuel adj stack)
  unfolding dfs
  dfs-After zero stack c c' before node ordered marks is_white done = absurd cc
  dfs-After (suc fuel) stack c c' before node ordered marks is_white done =
      let stack' = stack ++ node ∷ [] in
      let loop = visit_all (dfs fuel adj stack') stack' node (put c node gray) (deps_of adj node) in
      elim (Outcome-cases loop) [
        | inl (cycle, e) ↦ let h = rw (e, dfs) at done in absurd cc
        | inr (inl (c1, e)) ↦
            let inner =
              visit_all-After (dfs fuel adj stack') (dfs-After fuel stack') stack' node
                (deps_of adj node) before (put c node gray) c1 ordered
                (put_gray-Marks c before node is_white marks) e in
            let same : put c1 node black ≡ c' = let h = rw (e, dfs) at done in cc in
            rw⁻¹ same (After-finish c c1 before node is_white inner)
        | inr (inr e) ↦ let h = rw (e, dfs) at done in absurd cc
      ]

  pub search_from-After :
      (fuel : ℕ) (steps : List Step) (before : List String) (c c' : Colors)
      → ((z : String) → is_gray (color_of c z) ≡ false)
      → Ordered adj before
      → Marks before c
      → search_from fuel adj c steps ≡ finished c'
      → After adj c before (ids steps) c'
  unfolding search_from
  search_from-After fuel [] before c c' clear ordered marks done =
      let same : c ≡ c' = cc in
      rw⁻¹ same (record {
        order = before;
        ordered = ordered;
        marks = marks;
        grows = λ z h. h;
        grays = λ z. refl;
        reached = tt;
      })
  search_from-After fuel (s ∷ steps) before c c' clear ordered marks done =
      elim (Color-cases (color_of c s.id)) [
        | inl is_white ↦ elim (Outcome-cases (dfs fuel adj [] c s.id)) [
          | inl (cycle, e) ↦ let h = rw (is_white, e, search_from) at done in absurd cc
          | inr (inl (c1, e)) ↦
              let first = dfs-After fuel [] c c1 before s.id ordered marks is_white e in
              After-then adj c c1 c' before (ids steps) s.id first (
                search_from-After fuel steps first.order c1 c' (λ z. first.grays z ∙ clear z)
                  first.ordered first.marks (rw (is_white, e, search_from) at done))
          | inr (inr e) ↦ let h = rw (is_white, e, search_from) at done in absurd cc
        ]
        | inr (inl is_gray_) ↦ let never = clear s.id in absurd (ground (arith, never, is_gray_))
        | inr (inr is_black_) ↦
            let rest =
              search_from-After fuel steps before c c' clear ordered marks
                (rw (is_black_, search_from) at done) in
            After-cons adj c c' before (ids steps) s.id rest
              (rest.grows s.id (rw⁻¹ (marks s.id) (rw is_black_ refl)))
      ]
