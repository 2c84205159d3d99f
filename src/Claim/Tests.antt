-- ===== src/Claim/Tests.antt =====
-- Runs of the claims' path functions and policy.
use haro.Prelude.{◌≡◌, refl, true, false, codes, bytes_beq, has_prefix}
use haro.Claim.Path.{split, push, parts, join, clean, logical, is_prefix, overlaps}
use haro.Claim.Policy.{should_block}

clean_runs :
    (clean (codes "a//b/./c/../d") ≡ codes "a/b/d")
    × (clean (codes "") ≡ codes ".")
    × (clean (codes "a/../..") ≡ codes "..")
    × (clean (codes "/../x/") ≡ codes "/x")
unfolding clean parts split push join bytes_beq
clean_runs = (refl, refl, refl, refl)

overlaps_runs :
    (overlaps "src" "src/a" ≡ true) × (overlaps "src" "srcs" ≡ false) × (overlaps "./a/" "a" ≡ true)
unfolding overlaps is_prefix logical clean parts split push join bytes_beq has_prefix
overlaps_runs = (refl, refl, refl)

should_block_runs :
    (should_block "isolated:e1" "isolated:e2" "block" false ≡ false)
    × (should_block "isolated:e1" "shared" "block" false ≡ true)
unfolding should_block
should_block_runs = (refl, refl)
