-- ===== src/Execution/Evidence.antt =====
-- internal/execution/evidence.go: the bounds of what the program shows and keeps of the output of
-- a step. A Go string is the list of its bytes. Package regexp is a parameter, as is
-- strings.TrimSpace.
use haro.Prelude.{
  ℕ, ◌+◌, ◌-◌, ◌*◌, Option, none, some, List, [], ◌∷◌, ◌++◌, length, take, nat_beq, leb, ltb,
  if◌then◌else◌, Bytes, codes,
}

abbrev pub visible_limit : ℕ
visible_limit = 16 * 1024

abbrev pub snapshot_limit : ℕ
snapshot_limit = 1 * 1024 * 1024

abbrev pub fallback_limit : ℕ
fallback_limit = 2 * 1024 * 1024

abbrev pub agent_instructions_limit : ℕ
agent_instructions_limit = 4 * 1024

abbrev pub visible_truncation_notice : Bytes
visible_truncation_notice = codes "\n[visible evidence truncated]"

abbrev pub fallback_truncation_notice : Bytes
fallback_truncation_notice = codes "\n[fallback evidence truncated]"

-- The compiled patterns of the file.
pub data Pattern : Type 0 where
  bearer_re basic_re token_assign_re ghp_re sk_ant_re sk_re : Pattern

-- What the file uses of packages regexp, strings and strconv.
pub record TextLibrary : Type 0 where
  pub replace_all_string : Pattern → Bytes → Bytes → Bytes
  pub replace_all_string_func : Pattern → Bytes → (Bytes → Bytes) → Bytes
  pub trim_space : Bytes → Bytes
  pub to_lower : Bytes → Bytes
  pub itoa : ℕ → Bytes

-- strings.Index(s, sep) for a separator of one byte
unfoldable pub index : Bytes → ℕ → Option ℕ
index [] sep = none
index (c ∷ s) sep =
    if nat_beq c sep then some 0 else elim (index s sep) [ none ↦ none | some i ↦ some (i + 1) ]

abbrev join : List Bytes → Bytes → Bytes
join [] sep = []
join (s ∷ []) sep = s
join (s ∷ t ∷ rest) sep = s ++ (sep ++ join (t ∷ rest) sep)

unfoldable pub truncate_with_notice : Bytes → ℕ → Bytes → Bytes
truncate_with_notice s limit notice =
    if leb (length s) limit
    then s
    else if leb limit (length notice)
    then take limit notice
    else take (limit - length notice) s ++ notice

unfoldable pub bound_agent_instructions : Bytes → Bytes
bound_agent_instructions s =
    if ltb agent_instructions_limit (length s) then take agent_instructions_limit s else s

-- SnapshotEvidence and SnapshotBytes
unfoldable pub snapshot_evidence : Bytes → Bytes
snapshot_evidence s = if ltb snapshot_limit (length s) then take snapshot_limit s else s

unfoldable pub fallback_bytes : Bytes → Bytes
fallback_bytes b = if ltb fallback_limit (length b) then take fallback_limit b else b

unfoldable pub fallback_evidence : Bytes → Bytes
fallback_evidence s = truncate_with_notice s fallback_limit fallback_truncation_notice

unfoldable pub append_fallback_evidence : Bytes → Bytes → Bytes
append_fallback_evidence existing next =
    let available = fallback_limit - length existing in
    if leb fallback_limit (length existing)
    then existing
    else if leb (length next) available
    then existing ++ next
    else if leb available (length fallback_truncation_notice)
    then take available existing
    else existing
      ++ (take (available - length fallback_truncation_notice) next ++ fallback_truncation_notice)

module _ (library : TextLibrary) where
  -- The callback of the token assignments: 61 is '=' and 58 is ':'.
  unfoldable pub mask_assignment : Bytes → Bytes
  mask_assignment m =
      let cut : ℕ → Bytes = λ i. library.trim_space (take (i + 1) m) ++ codes " ***" in
      elim (index m 61) [ some i ↦ cut i | none ↦ elim (index m 58) [ some i ↦ cut i | none ↦ m ] ]

  unfoldable pub redact : Bytes → Bytes
  unfolding mask_assignment
  redact s =
      let s1 = library.replace_all_string bearer_re s (codes "Bearer ***") in
      let s2 = library.replace_all_string basic_re s1 (codes "Basic ***") in
      let s3 = library.replace_all_string_func token_assign_re s2 mask_assignment in
      let s4 = library.replace_all_string ghp_re s3 (codes "***") in
      let s5 = library.replace_all_string sk_ant_re s4 (codes "***") in
      library.replace_all_string sk_re s5 (codes "***")

  unfoldable pub visible_evidence : Bytes → Bytes
  visible_evidence s = truncate_with_notice (redact s) visible_limit visible_truncation_notice

  unfoldable pub command_evidence : List Bytes → Bytes → Bytes → Bytes
  command_evidence argv stdout stderr =
      visible_evidence (codes "$ " ++ (join argv (codes " ") ++ (codes "\n" ++ (stdout ++ stderr))))

  unfoldable pub agent_evidence : Bytes → ℕ → ℕ → Bytes → Bytes → Bytes → Bytes
  agent_evidence harness index total mode instructions output = visible_evidence (
      codes "harness: "
      ++ (harness
          ++ (codes " ("
              ++ (library.itoa index
                  ++ (codes "/"
                      ++ (library.itoa total
                          ++ (codes ")\nmode: "
                              ++ (mode
                                  ++ (codes "\ninstructions:\n"
                                      ++ (bound_agent_instructions instructions
                                          ++ (codes "\n--- output ---\n" ++ output)))))))))))
