-- ===== src/Adapter.antt =====
-- internal/adapter/negotiation.go and capabilities.go: what the core and an adapter agree on.
-- `X` is the type of the JSON values in Extra.
pub mod Agreement
use haro.Prelude.{
  ℕ, String, Bool, true, false, Option, none, some, List, [], ◌∷◌, not, ◌&&◌, ◌||◌, ◌==◌, nat_eq,
  string_eq, if◌then◌else◌,
}
use haro.Prelude.Table.{Table, put}

-- A nil map is `none`.
pub record Capabilities (X : Type 0) : Type 0 where
  pub protocol_version : ℕ
  pub permission : Bool
  pub terminal : Bool
  pub load_session : Bool
  pub extra : Option (Table String X)

pub data NegotiationError : Type 0 where
  protocol_mismatch : (core agent : ℕ) → NegotiationError
  unsupported_capability : NegotiationError

pub data Negotiated (X : Type 0) : Type 0 where
  agreed : Capabilities X → Negotiated X
  refused : NegotiationError → Negotiated X

module _ {X : Type 0} where
  -- The entries of a map that may be nil.
  abbrev pub entries : Option (Table String X) → Table String X
  entries none = []
  entries (some m) = m

  -- `for k, v := range entries { m[k] = v }`, from the last entry.
  unfoldable pub put_all : Table String X → Table String X → Table String X
  put_all m [] = m
  put_all m ((k, v) ∷ rest) = put (put_all m rest) k v

  -- A map without entries becomes nil.
  abbrev pub nil_if_empty : Table String X → Option (Table String X)
  nil_if_empty [] = none
  nil_if_empty (e ∷ m) = some (e ∷ m)

  unfoldable pub negotiate : Capabilities X → Capabilities X → Negotiated X
  negotiate core agent =
      if not (core.protocol_version == agent.protocol_version)
      then refused (protocol_mismatch core.protocol_version agent.protocol_version)
      else agreed (record {
        protocol_version = core.protocol_version;
        permission = core.permission && agent.permission;
        terminal = core.terminal && agent.terminal;
        load_session = core.load_session && agent.load_session;
        extra = nil_if_empty (put_all (put_all [] (entries core.extra)) (entries agent.extra));
      })

  -- The default branch returns nil for every method, with or without a leading '_'.
  unfoldable pub check_capability : Capabilities X → String → Option NegotiationError
  check_capability caps method =
      if method == "Terminal"
      then (if not caps.terminal then some unsupported_capability else none)
      else if method == "LoadSession" || method == "LoadPrevious"
      then (if not caps.load_session then some unsupported_capability else none)
      else if method == "Permission" || method == "RequestPermission"
      then (if not caps.permission then some unsupported_capability else none)
      else none
