-- ===== src/Examples/TextRuns.antt =====
-- The theorems on claims, captured output and evidence, at small inputs.
use haro.Prelude.{
  ℕ, zero, suc, ◌+◌, ◌≤◌, ◌≡◌, refl, true, some, List, [], ◌∷◌, length, arith, Bytes, codes,
  has_prefix,
}
use haro.Claim.Path.{is_prefix, parts}
use haro.Claim.Pieces.{is_list_prefix}
use haro.Claim.Overlap.{is_prefix-parts}
use haro.Limits.{new_capture_writers, capture_all, output, Chunk, to_stdout, to_stderr}
use haro.Limits.Bounds.{capture_shares_limit, output-capture_all}
use haro.Execution.Evidence.{
  TextLibrary, visible_evidence, visible_limit, fallback_limit, append_fallback_evidence,
}
use haro.Execution.Fallback.{Runner, run_fallback}
use haro.Execution.Fallback.Bounds.{
  visible_evidence_fits, append_fallback_evidence_keeps, run_fallback_fits,
}

is_prefix-parts_example :
    is_prefix (codes "src") (codes "src/a")
    ≡ is_list_prefix (parts (codes "src")) (parts (codes "src/a"))
is_prefix-parts_example = is_prefix-parts (codes "src") (codes "src/a") refl refl

-- The first stream is written twice, with the second stream between.
abbrev chunks : List Chunk
chunks = to_stdout (codes "ab") ∷ to_stderr (codes "x") ∷ to_stdout (codes "c") ∷ []

capture_shares_limit_example :
    length (output (capture_all new_capture_writers chunks).stdout)
      + length (output (capture_all new_capture_writers chunks).stderr)
    ≡ 4
capture_shares_limit_example = capture_shares_limit chunks

output-capture_all_example : output (capture_all new_capture_writers chunks).stdout ≡ codes "abc"
output-capture_all_example = output-capture_all chunks (omega arith)

-- A library whose patterns match nothing.
abbrev plain : TextLibrary
plain = record {
  replace_all_string = λ pattern s by. s;
  replace_all_string_func = λ pattern s f. s;
  trim_space = λ s. s;
  to_lower = λ s. s;
  itoa = λ n. [];
}

visible_evidence_fits_example : length (visible_evidence plain (codes "out")) ≤ visible_limit
visible_evidence_fits_example = visible_evidence_fits plain (codes "out")

append_fallback_evidence_keeps_example :
    has_prefix (append_fallback_evidence (codes "one") (codes "two")) (codes "one") ≡ true
append_fallback_evidence_keeps_example =
    append_fallback_evidence_keeps (codes "one") (codes "two") (omega arith)

-- A text of `n` letters.
unfoldable letters : ℕ → Bytes
letters zero = []
letters (suc n) = 97 ∷ letters n

length-letters : (n : ℕ) → length (letters n) ≡ n
unfolding letters
length-letters zero = refl
length-letters (suc n) = omega (arith, length-letters n)

-- A runner that counts its calls and always fails.
abbrev failing : Runner ℕ
failing n harness context = ((codes "no", some (codes "exit 1")), n + 1)

run_fallback_fits_example :
    length (run_fallback plain failing 0 (codes "a" ∷ codes "b" ∷ [])).0.0 ≤ fallback_limit
run_fallback_fits_example = run_fallback_fits plain failing 0 (codes "a" ∷ codes "b" ∷ [])
