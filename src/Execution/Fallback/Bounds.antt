-- ===== src/Execution/Fallback/Bounds.antt =====
-- The bounds of internal/execution/evidence.go and what fallback.go keeps of them.
use Prim.Native.Nat.{min}
use haro.Prelude.{
  ℕ, ◌+◌, ◌-◌, ◌≤◌, ◌<◌, ◌≡◌, true, Bool-cases, inl, inr, List, [], ◌∷◌, ◌++◌, length,
  length-append, length-take, take, leb, Bytes, arith, nat_beq_iff, has_prefix,
}
use haro.Execution.Evidence.{
  TextLibrary, truncate_with_notice, append_fallback_evidence, visible_evidence, visible_limit,
  fallback_limit, fallback_truncation_notice, visible_truncation_notice, redact,
}
use haro.Execution.Fallback.{Runner, try_candidates, run_fallback}

-- A text beyond the limit is cut so that it fills the limit exactly with its notice.
pub length-truncate_with_notice :
    (s : Bytes) (limit : ℕ) (notice : Bytes)
    → length (truncate_with_notice s limit notice) ≡ min (length s) limit
unfolding truncate_with_notice
length-truncate_with_notice s limit notice =
    let kept = limit - length notice in
    ground (arith, length-take limit notice, length-take kept s, length-append (take kept s) notice)

-- The evidence that is shown has at most 16 KiB, whatever the redaction makes of the text.
pub visible_evidence_fits :
    (library : TextLibrary) (s : Bytes) → length (visible_evidence library s) ≤ visible_limit
unfolding visible_evidence
visible_evidence_fits library s =
    omega (
      arith,
      length-truncate_with_notice (redact library s) visible_limit visible_truncation_notice,
    )

-- Evidence within the 2 MiB limit stays within it when more is appended.
pub append_fallback_evidence_fits :
    (existing next : Bytes)
    → length existing ≤ fallback_limit
    → length (append_fallback_evidence existing next) ≤ fallback_limit
unfolding append_fallback_evidence
append_fallback_evidence_fits existing next within =
    let available = fallback_limit - length existing in
    let room = available - length fallback_truncation_notice in
    ground (
      arith,
      length-append existing next,
      length-take available existing,
      length-take room next,
      length-append (take room next) fallback_truncation_notice,
      length-append existing (take room next ++ fallback_truncation_notice),
    )

has_prefix-append : (s t : Bytes) → has_prefix (s ++ t) s ≡ true
unfolding has_prefix
has_prefix-append [] t = ground arith
has_prefix-append (c ∷ s) t = ground (arith, has_prefix-append s t, nat_beq_iff c c)

-- Evidence that leaves room for the truncation notice is a prefix of what it becomes: appending
-- then loses nothing that was collected before.
pub append_fallback_evidence_keeps :
    (existing next : Bytes)
    → length existing + length fallback_truncation_notice < fallback_limit
    → has_prefix (append_fallback_evidence existing next) existing ≡ true
unfolding append_fallback_evidence
append_fallback_evidence_keeps existing next room =
    let free = fallback_limit - length existing - length fallback_truncation_notice in
    let whole = has_prefix-append existing next in
    let cut = has_prefix-append existing (take free next ++ fallback_truncation_notice) in
    elim (Bool-cases (leb (length next) (fallback_limit - length existing))) [
      | inl fits ↦ rw (fits) (ground (arith, whole))
      | inr over ↦ rw (over) (ground (arith, cut))
    ]

module _ {S : Type 0} (library : TextLibrary) (runner : Runner S) where
  try_candidates_fits :
      (s : S) (accumulated : Bytes) (candidates : List Bytes)
      → length accumulated ≤ fallback_limit
      → length (try_candidates library runner s accumulated candidates).0.0 ≤ fallback_limit
  unfolding try_candidates
  try_candidates_fits s accumulated [] within = ground arith
  try_candidates_fits s accumulated (harness ∷ rest) within =
      let ((output, failure), s') = runner s harness accumulated in
      let accumulated' = append_fallback_evidence accumulated (visible_evidence library output) in
      let fits =
        append_fallback_evidence_fits accumulated (visible_evidence library output) within in
      let later = try_candidates_fits s' accumulated' rest fits in ground (arith, fits, later)

  -- Whatever the harnesses print and however they fail, the evidence that RunFallback returns and
  -- hands on has at most 2 MiB.
  pub run_fallback_fits :
      (s : S) (candidates : List Bytes)
      → length (run_fallback library runner s candidates).0.0 ≤ fallback_limit
  unfolding run_fallback
  run_fallback_fits s [] = ground arith
  run_fallback_fits s (harness ∷ rest) = try_candidates_fits s [] (harness ∷ rest) (omega arith)
