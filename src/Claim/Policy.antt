-- ===== src/Claim/Policy.antt =====
-- internal/claim/policy.go
use text.Mathlib.Text.{starts_with}
use haro.Prelude.{
  Bool, true, false, String, List, [], ◌∷◌, ◌++◌, not, ◌&&◌, ◌||◌, ◌==◌, if◌then◌else◌, string_eq,
  Bytes, bytes_eq, bytes_beq, has_prefix, any,
}
use haro.Claim.Path.{logical, slash}

unfoldable pub is_shared : String → Bool
is_shared mode =
    if mode == "shared" then true else if starts_with mode "isolated" then false else true

unfoldable pub should_block : String → String → String → Bool → Bool
unfolding is_shared
should_block existing_mode incoming_mode on_conflict is_external =
    let ex_shared = is_shared existing_mode in
    let in_shared = is_shared incoming_mode in
    if is_external
    then true
    else if not ex_shared && not in_shared
    then false
    else if ex_shared && in_shared
    then true
    else if on_conflict == "allow"
    then false
    else true

-- One round of the loop of `IsExternal`; an empty prefix is skipped.
unfoldable pub is_under : Bytes → Bytes → Bool
unfolding logical bytes_beq has_prefix
is_under path prefix =
    let pp = logical prefix in
    if pp == [] then false else path == pp || has_prefix path (pp ++ slash ∷ [])

unfoldable pub is_external : Bytes → List Bytes → Bool
unfolding is_under
is_external logical_path external_prefixes = any (is_under (logical logical_path)) external_prefixes
