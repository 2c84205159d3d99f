-- ===== src/Workflow/Types.antt =====
-- The structs of internal/workflow/parse.go, errors.go and validate.go. A `*string` is an
-- `Option String`, and a nil slice or map is an empty one: no test tells them apart.
use Prim.Native.String.{◌++◌}
use haro.Prelude.{ℕ, String, Bool, false, true, Option, List, ltb, ◌==◌, nat_eq}
use haro.Prelude.Table.{Table}

-- The concatenation of two texts.
infixr 5 ◌+++◌
abbrev pub ◌+++◌ : String → String → String
s +++ t = s ++ t

-- An `int` of a YAML file.
pub data ℤ : Type 0 where
  pos negsuc : ℕ → ℤ

-- `n < 1`
abbrev pub is_below_one : ℤ → Bool
is_below_one (pos n) = ltb n 1
is_below_one (negsuc n) = true

-- `n == 2`
abbrev pub is_two : ℤ → Bool
is_two (pos n) = n == 2
is_two (negsuc n) = false

pub record WorkspaceConfig : Type 0 where
  pub mode : Option String
  pub on_logical_conflict : Option String

pub record Input : Type 0 where
  pub name : String
  pub satisfied_by : String

pub record Output : Type 0 where
  pub name : String
  pub produced_by : String

pub record Step : Type 0 where
  pub id : String
  pub type : String
  pub run : String
  pub env : Table String String
  pub timeout_seconds : Option ℤ
  pub depends_on : List String
  pub requires : List String
  pub produces : List String
  pub harness : List String
  pub instructions : String
  pub mode : String
  pub workspace : Option WorkspaceConfig
  pub source : Option String
  pub bindings : Table String String

pub record Workflow : Type 0 where
  pub version : ℤ
  pub name : String
  pub workspace : Option WorkspaceConfig
  pub inputs : List Input
  pub outputs : List Output
  pub steps : List Step

-- A flattened step has the fields of a step.
abbrev pub FlatStep : Type 0
FlatStep = Step

-- Where an error is: `name`, `list[i].name`, `list[i].name[j]` or `list[i].name.key`.
pub data Field : Type 0 where
  field : (name : String) → Field
  item : (list : String) → (i : ℕ) → (name : String) → Field
  part : (list : String) → (i : ℕ) → (name : String) → (j : ℕ) → Field
  entry : (list : String) → (i : ℕ) → (name key : String) → Field

-- The message, which is for people, is left out. The cycle of detectCycle's message is kept.
pub record ValidationError : Type 0 where
  pub code : String
  pub field : Field
