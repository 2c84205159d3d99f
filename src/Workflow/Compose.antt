-- ===== src/Workflow/Compose.antt =====
-- Flatten of internal/workflow/compose.go, with Parse of parse.go. The reader of files, the YAML
-- decoder and filepath.EvalSymlinks are parameters, as is the root that findRoot finds. A call has
-- as its argument `left` how many levels it may still open: depth 0 has 17 of them, and depth 17,
-- the first that is refused, none.
pub mod Flows
pub mod Leaves
use Prim.Native.String.{String}
use haro.Prelude.{
  ℕ, zero, suc, ◌+◌, Bool, true, false, Option, none, some, List, [], ◌∷◌, ◌++◌, not, ◌&&◌, ◌||◌,
  ◌==◌, string_eq, bytes_eq, nat_beq, if◌then◌else◌, length, any, is_empty_list, ltb, Bytes, codes,
  has_prefix,
}
use haro.Prelude.Table
use haro.Prelude.Table.{Table, put}
use haro.Claim.Path.{slash, is_abs, clean}
use haro.Workflow.Types.{
  ◌+++◌, is_two, Input, Output, Step, FlatStep, Workflow, Field, field, item, entry,
  ValidationError,
}
use haro.Workflow.Sort.{Sorted, sorted, cycle_detected, out_of_fuel, topo_sort}
use haro.Workflow.Validate.{Check, refuse, ◌then_check◌, check_each, validate_file}
use haro.Workflow.Names.{
  Nodes, expand_deps, rewrite_steps, merge_inputs, producer_ids, flat_step, is_required,
  is_produced, has_input, has_output,
}

-- What yaml.Decoder makes of a file: the message of its error, or the workflow.
pub data Decoded : Type 0 where
  decoded : Workflow → Decoded
  yaml_error : (message : Bytes) → Decoded

pub record Files : Type 0 where
  pub read_file : Bytes → Option Bytes
  pub decode : Bytes → Decoded
  pub eval_symlinks : Bytes → Option Bytes
  -- The field that the pattern `field ([^\s]+) not found` finds in a message.
  pub find_field : Bytes → Option String

pub data Failure : Type 0 where
  invalid : ValidationError → Failure
  unmarshal_yaml : Failure

pub data Composed (A : Type 0) : Type 0 where
  made : A → Composed A
  refused : Failure → Composed A

-- The counters that all calls share.
pub record Counts : Type 0 where
  pub expansions : ℕ
  pub total_steps : ℕ

abbrev pub Flow : Type 0 → Type 0
Flow A = Counts → Composed (A × Counts)

abbrev pub pure : {A : Type 0} → A → Flow A
pure a n = made (a, n)

abbrev pub fail : {A : Type 0} → Failure → Flow A
fail e n = refused e

abbrev proceed : {A B : Type 0} → Composed (A × Counts) → (A → Flow B) → Composed (B × Counts)
proceed (made (a, n)) next = next a n
proceed (refused e) next = refused e

infixl 5 ◌>>=◌ ◌>>◌
abbrev pub ◌>>=◌ : {X Y : Type 0} → Flow X → (X → Flow Y) → Flow Y
◌>>=◌ first next n = proceed (first n) next

abbrev pub ◌>>◌ : {X Y : Type 0} → Flow X → Flow Y → Flow Y
first >> second = first >>= λ _. second

abbrev pub pass : Check → Flow Unit
pass none = pure tt
pass (some e) = fail (invalid e)

-- strings.Contains
unfoldable pub contains_text : Bytes → Bytes → Bool
contains_text [] part = is_empty_list part
contains_text (c ∷ s) part = has_prefix (c ∷ s) part || contains_text s part

-- filepath.Dir: what stands up to the last slash, cleaned.
abbrev pub up_to_slash : Bytes → Bytes
up_to_slash [] = []
up_to_slash (c ∷ s) =
    let rest = up_to_slash s in
    if nat_beq c slash then c ∷ rest else if is_empty_list rest then [] else c ∷ rest

abbrev pub dir : Bytes → Bytes
dir path = clean (up_to_slash path)

-- filepath.Join for a first element that is not empty.
abbrev pub join_path : Bytes → Bytes → Bytes
join_path base path = clean (base ++ slash ∷ path)

unfoldable pub is_escape : Bytes → Bytes → Bool
is_escape resolved base =
    let r = clean resolved in
    let b = clean base in if r == b then false else not (has_prefix r (b ++ slash ∷ []))

abbrev pub or_empty : Option String → String
or_empty none = ""
or_empty (some s) = s

abbrev pub known_field : Option String → String
known_field none = "unknown"
known_field (some name) = name

abbrev pub none_of : Bool → String → Field → Flow Unit
none_of test code where_ = pass (refuse test code where_)

module _ (files : Files) where
  unfoldable pub parse_failure : Bytes → Failure
  unfolding contains_text
  parse_failure message =
      if contains_text message (codes "not found in type")
      then invalid (record {
        code = "unknown_field";
        field = field (known_field (files.find_field message));
      })
      else if contains_text message (codes "line")
      then invalid (record { code = "invalid_yaml"; field = field "" })
      else unmarshal_yaml

  abbrev pub parse_decoded : Decoded → Flow Workflow
  parse_decoded (yaml_error message) = fail (parse_failure message)
  parse_decoded (decoded wf) =
      none_of (not (is_two wf.version)) "invalid_version" (field "version")
      >> none_of (is_empty_list wf.steps) "missing_field" (field "steps")
      >> pure wf

  unfoldable pub parse : Bytes → Flow Workflow
  unfolding parse_failure
  parse data_ = parse_decoded (files.decode data_)

  abbrev pub read_or : Field → Option Bytes → Flow Bytes
  read_or where_ none = fail (invalid (record { code = "invalid_field"; field = where_ }))
  read_or where_ (some data_) = pure data_

  abbrev clean_or : Bytes → Option Bytes → Bytes
  clean_or path none = path
  clean_or path (some resolved) = clean resolved

  unfoldable pub canonical_path : Bytes → Bytes
  canonical_path p = let path = clean p in clean_or path (files.eval_symlinks path)

-- The bindings of a workflow node against the inputs and outputs of its file.
abbrev pub check_known : ℕ → Workflow → (String × String) → Check
check_known i inc (k, v) =
    refuse (not (has_input k inc.inputs) && not (has_output k inc.outputs)) "unknown_input"
      (entry "steps" i "bindings" k)

unfoldable pub check_bindings : ℕ → Table String String → Workflow → Check
unfolding is_required is_produced
check_bindings i bindings inc =
    check_each (λ j b. check_known i inc b) 0 bindings
    then_check check_each
        (λ j (inp : Input).
          refuse (is_required inc inp && not (Table.has bindings inp.name)) "missing_binding"
            (entry "steps" i "bindings" inp.name))
        0 inc.inputs
    then_check check_each
        (λ j (out : Output).
          refuse (is_produced inc out && not (Table.has bindings out.name)) "missing_binding"
            (entry "steps" i "bindings" out.name))
        0 inc.outputs

-- *expansions++ and the guard behind it
abbrev pub count_expansion : Flow Unit
count_expansion n =
    none_of (ltb 256 (n.expansions + 1)) "guard_exceeded" (field "expansions")
      (record n { expansions = n.expansions + 1 })

-- *totalSteps += k and the guard behind it
abbrev pub count_steps : ℕ → Flow Unit
count_steps k n =
    none_of (ltb 256 (n.total_steps + k)) "guard_exceeded" (field "steps")
      (record n { total_steps = n.total_steps + k })

abbrev pub check_expansions : Flow Unit
check_expansions n = none_of (ltb 256 n.expansions) "guard_exceeded" (field "expansions") n

-- The steps that a workflow node stands for, out of those of its file.
unfoldable pub splice : String → Nodes → Step → Workflow → List FlatStep → List FlatStep
unfolding rewrite_steps expand_deps merge_inputs
splice prefix nodes s inc subs =
    let pds = expand_deps prefix nodes s.depends_on in
    let bound = rewrite_steps s.bindings subs in
    if is_empty_list pds then bound else merge_inputs (prefix +++ s.id +++ ".") pds inc.inputs bound

module _ (files : Files) (base : Bytes) where
  -- The guards on the source of a workflow node, with the path that it names.
  unfoldable pub resolve_source : Bytes → ℕ → Step → Flow Bytes
  unfolding is_escape canonical_path
  resolve_source current idx s =
      let src = codes (or_empty s.source) in
      let cleaned = clean (join_path (dir current) src) in
      let where_ = item "steps" idx "source" in
      none_of (is_abs src) "invalid_field" where_
      >> none_of (is_escape cleaned base) "invalid_field" where_
      >> none_of (is_escape (canonical_path files cleaned) (canonical_path files base))
          "invalid_field" where_
      >> pure cleaned

  -- The file that a workflow node includes: its path and its workflow.
  unfoldable pub locate : Bytes → ℕ → Step → Flow (Bytes × Workflow)
  unfolding resolve_source parse check_bindings
  locate current idx s = do
    count_expansion
    cleaned ← resolve_source current idx s
    data_ ← read_or files (item "steps" idx "source") (files.read_file cleaned)
    inc ← parse files data_
    pass (check_bindings idx s.bindings inc)
    pure (cleaned, inc)

  -- What is done with the steps of the included file.
  unfoldable pub splice_in :
      String → Nodes → Step → Workflow → List FlatStep → Flow (List FlatStep × Nodes)
  unfolding splice producer_ids
  splice_in prefix nodes s inc subs =
      let flat = splice prefix nodes s inc subs in
      let producers = producer_ids (prefix +++ s.id +++ ".") inc.outputs flat in
      count_steps (length subs) >> pure (flat, put nodes (prefix +++ s.id) producers)

  abbrev pub open_included :
      (Bytes → String → Flow (List FlatStep))
      → String
      → Nodes
      → Step
      → Bytes × Workflow
      → Flow (List FlatStep × Nodes)
  open_included open_file prefix nodes s (cleaned, inc) =
      open_file cleaned (prefix +++ s.id +++ ".") >>= splice_in prefix nodes s inc

  -- The branch of a workflow node, with the recursive call `open_file`.
  unfoldable pub include_step :
      (Bytes → String → Flow (List FlatStep))
      → Bytes
      → String
      → ℕ
      → Nodes
      → Step
      → Flow (List FlatStep × Nodes)
  unfolding locate splice_in
  include_step open_file current prefix idx nodes s =
      locate current idx s >>= open_included open_file prefix nodes s

  -- The branch of a command or an agent.
  unfoldable pub keep_step : String → Nodes → Step → Flow (List FlatStep × Nodes)
  unfolding flat_step
  keep_step prefix nodes s = count_steps 1 >> pure (flat_step prefix nodes s ∷ [], nodes)

  -- The loop over wf.Steps.
  unfoldable pub expand_steps :
      (Bytes → String → Flow (List FlatStep))
      → Bytes
      → String
      → ℕ
      → Nodes
      → List Step
      → Flow (List FlatStep)
  unfolding include_step keep_step
  expand_steps open_file current prefix idx nodes [] = pure []
  expand_steps open_file current prefix idx nodes (s ∷ steps) = do
    (flat, nodes') ←
        (if s.type == "workflow"
          then include_step open_file current prefix idx nodes s
          else keep_step prefix nodes s)
    rest ← expand_steps open_file current prefix (suc idx) nodes' steps
    pure (flat ++ rest)

  abbrev pub mem_path : Bytes → List Bytes → Bool
  mem_path path stack = any (λ p. p == path) stack

  abbrev pub validated : Bool → Workflow → Flow Workflow
  validated is_root wf = pass (validate_file (some wf) is_root) >> pure wf

  -- The guards of flattenRec behind that on the depth, and its file.
  unfoldable pub load_file : List Bytes → Bytes → Flow Workflow
  unfolding parse canonical_path
  load_file stack current = do
    check_expansions
    none_of (mem_path (canonical_path files current) stack) "cycle_detected" (field "")
    data_ ← read_or files (field "") (files.read_file current)
    parse files data_

  -- flattenRec. `stack` has the files that are open.
  unfoldable pub flatten_rec : ℕ → Bool → List Bytes → Bytes → String → Flow (List FlatStep)
  unfolding expand_steps load_file canonical_path
  flatten_rec zero is_root stack current prefix =
      fail (invalid (record { code = "guard_exceeded"; field = field "depth" }))
  flatten_rec (suc left) is_root stack current prefix =
      load_file stack current >>= validated is_root >>= λ wf.
      expand_steps (flatten_rec left false (canonical_path files current ∷ stack)) current prefix 0
        [] wf.steps

abbrev pub sort_flow : Sorted → Flow (List FlatStep)
sort_flow (sorted out) = pure out
sort_flow cycle_detected = fail (invalid (record { code = "cycle_detected"; field = field "" }))
sort_flow out_of_fuel = fail (invalid (record { code = "cycle_detected"; field = field "" }))

-- The steps of the FlatDAG. The hash, which follows, is left out.
unfoldable pub flatten : (List String → List String) → Files → Bytes → Bytes → Flow (List FlatStep)
unfolding flatten_rec
flatten sort_strings files root root_path = do
  steps ←
      flatten_rec files (clean (root ++ codes "/.haro/workflows")) 17 true [] (clean root_path) ""
  none_of (ltb 256 (length steps)) "guard_exceeded" (field "steps")
  sort_flow (topo_sort sort_strings steps)
