-- ===== src/Adapter/Agreement.antt =====
-- What a negotiation of internal/adapter/negotiation.go grants.
use haro.Prelude.{
  String, Bool-cases, inl, inr, Option, none, some, [], ◌∷◌, ◌&&◌, ◌==◌, ◌≡◌, refl, ap, nat_eq,
  string_eq, arith,
}
use haro.Prelude.Table
use haro.Prelude.Table.{Table, put, get-put}
use haro.Adapter.{
  Capabilities, agreed, refused, protocol_mismatch, entries, put_all, nil_if_empty, negotiate,
  check_capability,
}

abbrev pub or_else {ℓ} : {A : Type ℓ} → Option A → Option A → Option A
or_else (some a) b = some a
or_else none b = b

module _ {X : Type 0} where
  or_else-none : (o : Option X) → or_else o none ≡ o
  or_else-none none = refl
  or_else-none (some x) = refl

  abbrev pub lookup : Capabilities X → String → Option X
  lookup caps k = Table.get (entries caps.extra) k

  get-put_all :
      (m l : Table String X) (k : String)
      → Table.get (put_all m l) k ≡ or_else (Table.get l k) (Table.get m k)
  unfolding put_all Table.get
  get-put_all m [] k = refl
  get-put_all m ((j, v) ∷ rest) k = elim (Bool-cases (j == k)) [
    | inl same ↦ rw (get-put (put_all m rest) j k v, same) refl
    | inr other ↦ rw (get-put (put_all m rest) j k v, other) (get-put_all m rest k)
  ]

  entries-nil_if_empty : (m : Table String X) → entries (nil_if_empty m) ≡ m
  entries-nil_if_empty [] = refl
  entries-nil_if_empty (e ∷ m) = refl

  abbrev common : Capabilities X → Capabilities X → Capabilities X
  common core agent = record {
    protocol_version = core.protocol_version;
    permission = core.permission && agent.permission;
    terminal = core.terminal && agent.terminal;
    load_session = core.load_session && agent.load_session;
    extra = nil_if_empty (put_all (put_all [] (entries core.extra)) (entries agent.extra));
  }

  agreed_common :
      (core agent neg : Capabilities X)
      → negotiate core agent ≡ agreed neg
      → common core agent ≡ neg
  unfolding negotiate
  agreed_common core agent neg agree =
      elim (Bool-cases (core.protocol_version == agent.protocol_version)) [
        | inl same ↦
            let granted : negotiate core agent ≡ agreed (common core agent) = rw same refl in cc
        | inr other ↦
            let mismatch = protocol_mismatch core.protocol_version agent.protocol_version in
            let denied : negotiate core agent ≡ refused mismatch = rw other refl in absurd cc
      ]

  check_capability-common :
      (core agent : Capabilities X) (method : String)
      → check_capability (common core agent) method
        ≡ or_else (check_capability core method) (check_capability agent method)
  unfolding check_capability
  check_capability-common core agent method = ground arith

  module _ (core agent neg : Capabilities X) (agree : negotiate core agent ≡ agreed neg) where
    -- Under the capabilities that a negotiation agreed on, CheckCapability lets a method through
    -- exactly if it does so under those of the core and under those of the agent.
    pub check_capability-negotiate :
        (method : String)
        → check_capability neg method
          ≡ or_else (check_capability core method) (check_capability agent method)
    check_capability-negotiate method =
        rw⁻¹ (agreed_common core agent neg agree) (check_capability-common core agent method)

    -- Of the extra capabilities, a negotiation agrees on those that either side announces, with the
    -- value of the agent where both do.
    pub lookup-negotiate : (k : String) → lookup neg k ≡ or_else (lookup agent k) (lookup core k)
    unfolding Table.get
    lookup-negotiate k =
        let both = put_all (put_all [] (entries core.extra)) (entries agent.extra) in
        rw⁻¹ (agreed_common core agent neg agree) (
          rw
            (
              entries-nil_if_empty both,
              get-put_all (put_all [] (entries core.extra)) (entries agent.extra) k,
              get-put_all [] (entries core.extra) k,
            )
            (ap (or_else (lookup agent k)) (or_else-none (lookup core k))))
