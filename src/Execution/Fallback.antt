-- ===== src/Execution/Fallback.antt =====
-- RunFallback of internal/execution/fallback.go: the harnesses in their order, until one succeeds
-- or fails for good. The runner is a parameter, with the state `S` of what it runs.
pub mod Bounds
use haro.Prelude.{
  Bool, true, false, Option, none, some, List, [], ◌∷◌, ◌&&◌, ◌||◌, if◌then◌else◌, Bytes, codes,
  has_prefix,
}
use haro.Execution.Evidence.{TextLibrary, visible_evidence, append_fallback_evidence}

-- strings.Contains(s, substr)
unfoldable pub contains : Bytes → Bytes → Bool
contains [] substr = has_prefix [] substr
contains (c ∷ s) substr = has_prefix (c ∷ s) substr || contains s substr

-- isTerminal, of the message of an error
unfoldable pub is_terminal : TextLibrary → Bytes → Bool
is_terminal library msg =
    contains msg (codes "unsupported_capability")
    || (contains msg (codes "permission") && contains msg (codes "unsupported"))
    || contains msg (codes "terminal")
    || contains msg (codes "protocol")
    || contains msg (codes "process_start")
    || contains (library.to_lower msg) (codes "unsupported")
    || contains msg (codes "timeout")
    || contains msg (codes "contract")

abbrev pub is_empty : List Bytes → Bool
is_empty [] = true
is_empty (c ∷ cs) = false

pub data FallbackError : Type 0 where
  no_candidates : FallbackError
  terminal exhausted : Bytes → FallbackError

-- The output of a harness and the message of its error, if it has one.
abbrev pub Runner : Type 0 → Type 0
Runner S = S → Bytes → Bytes → (Bytes × Option Bytes) × S

module _ {S : Type 0} (library : TextLibrary) (runner : Runner S) where
  -- The loop over the candidates, with its state: the index is at the last candidate where the
  -- rest is empty.
  unfoldable pub try_candidates : S → Bytes → List Bytes → (Bytes × Option FallbackError) × S
  try_candidates s accumulated [] = (([], some no_candidates), s)
  try_candidates s accumulated (harness ∷ rest) =
      let ((output, failure), s') = runner s harness accumulated in
      let accumulated' = append_fallback_evidence accumulated (visible_evidence library output) in
      let next = try_candidates s' accumulated' rest in
      elim failure [
        | none ↦ ((accumulated', none), s')
        | some msg ↦
            if is_terminal library msg
            then ((accumulated', some (terminal msg)), s')
            else if is_empty rest
            then ((accumulated', some (exhausted msg)), s')
            else next
      ]

  unfoldable pub run_fallback : S → List Bytes → (Bytes × Option FallbackError) × S
  run_fallback s candidates =
      if is_empty candidates then (([], some no_candidates), s) else try_candidates s [] candidates
