-- ===== src/Examples/AdapterRuns.antt =====
-- A negotiation: both sides let sessions be loaded, and only the core has a terminal.
use haro.Prelude.{Bool, true, false, some, [], ◌∷◌, ◌≡◌, refl, nat_eq, string_eq}
use haro.Prelude.Table
use haro.Adapter.{
  Capabilities, agreed, negotiate, check_capability, unsupported_capability, put_all,
}
use haro.Adapter.Agreement.{lookup, check_capability-negotiate, lookup-negotiate}

abbrev core : Capabilities Bool
core = record {
  protocol_version = 1;
  permission = true;
  terminal = true;
  load_session = true;
  extra = some (("_a", true) ∷ ("_b", true) ∷ []);
}

abbrev agent : Capabilities Bool
agent = record core { terminal = false; extra = some (("_b", false) ∷ []) }

abbrev both : Capabilities Bool
both = record core { terminal = false; extra = some (("_b", false) ∷ ("_a", true) ∷ []) }

both_agree : negotiate core agent ≡ agreed both
unfolding negotiate put_all Table.put
both_agree = refl

check_capability-negotiate_example : check_capability both "Terminal" ≡ some unsupported_capability
unfolding check_capability
check_capability-negotiate_example =
    check_capability-negotiate core agent both both_agree "Terminal"

lookup-negotiate_example : lookup both "_b" ≡ some false
unfolding Table.get
lookup-negotiate_example = lookup-negotiate core agent both both_agree "_b"
