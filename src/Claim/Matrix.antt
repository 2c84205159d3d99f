-- ===== src/Claim/Matrix.antt =====
-- ShouldBlock of internal/claim/policy.go is symmetric.
use haro.Prelude.{Bool, String, ◌≡◌, string_eq, arith}
use haro.Claim.Policy.{should_block}

-- Which of the two claims came first does not matter.
pub should_block_comm :
    (existing incoming on_conflict : String) (external : Bool)
    → should_block existing incoming on_conflict external
      ≡ should_block incoming existing on_conflict external
unfolding should_block
should_block_comm existing incoming on_conflict external = ground arith
