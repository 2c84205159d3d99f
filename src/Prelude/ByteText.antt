-- ===== src/Prelude/ByteText.antt =====
-- Go strings that the code walks byte by byte, as lists of numbers. Elsewhere a Go string is the
-- native `String`.
use Prim.Native.Char.{code}
use Prim.Native.Nat.{ℕ}
use Prim.Native.String.{String}
use mathlib.Core.Path.{◌≡◌}
use mathlib.Core.Logic.{◌↔◌}
use mathlib.Core.Bool.{Bool, true, false, ◌&&◌}
use mathlib.Core.List.{List, [], ◌∷◌}
use native.Mathlib.Omega.{arith}
use haro.Prelude.Tests.{Eq, nat_beq, nat_beq_iff}

abbrev pub Bytes : Type 0
Bytes = List ℕ

-- The code points of a text, which are its bytes where it is ASCII.
abbrev pub codes : String → Bytes
codes String.[] = []
codes (String.◌∷◌ c s) = code c ∷ codes s

unfoldable pub bytes_beq : Bytes → Bytes → Bool
bytes_beq [] [] = true
bytes_beq [] (d ∷ t) = false
bytes_beq (c ∷ s) [] = false
bytes_beq (c ∷ s) (d ∷ t) = nat_beq c d && bytes_beq s t

pub bytes_beq_iff : (s t : Bytes) → (bytes_beq s t ≡ true) ↔ (s ≡ t)
unfolding bytes_beq
bytes_beq_iff [] [] = ground arith
bytes_beq_iff [] (d ∷ t) = ground arith
bytes_beq_iff (c ∷ s) [] = ground arith
bytes_beq_iff (c ∷ s) (d ∷ t) = ground (arith, nat_beq_iff c d, bytes_beq_iff s t)

instance abbrev pub bytes_eq : Eq Bytes
bytes_eq = record { beq = bytes_beq; beq_iff = bytes_beq_iff }

-- strings.HasPrefix(s, prefix)
unfoldable pub has_prefix : Bytes → Bytes → Bool
has_prefix s [] = true
has_prefix [] (d ∷ t) = false
has_prefix (c ∷ s) (d ∷ t) = nat_beq c d && has_prefix s t
