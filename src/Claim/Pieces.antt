-- ===== src/Claim/Pieces.antt =====
-- The prefix test of internal/claim/canonical.go on cleaned texts is the prefix order of the lists
-- of their pieces.
use mathlib.Core.List.{append_assoc}
use haro.Prelude.{
  Bool, true, false, List, [], ◌∷◌, ◌++◌, not, ◌&&◌, ◌≡◌, refl, ◌==◌, if◌then◌else◌, Bytes,
  bytes_beq, bytes_eq, has_prefix, nat_beq, arith,
}
use haro.Claim.Path.{slash, dot, join}

abbrev pub no_slash : Bytes → Bool
no_slash [] = true
no_slash (c ∷ s) = not (nat_beq c slash) && no_slash s

-- What a cleaned path is made of.
pub record Piece (w : Bytes) : Type 0 where
  pub plain : no_slash w ≡ true
  pub filled : (w == []) ≡ false
  pub moves : (w == dot) ≡ false

abbrev pub Pieces : List Bytes → Type 0
Pieces [] = Unit
Pieces (w ∷ ws) = Piece w × Pieces ws

unfoldable pub is_list_prefix : List Bytes → List Bytes → Bool
is_list_prefix [] vs = true
is_list_prefix (w ∷ ws) [] = false
is_list_prefix (w ∷ ws) (v ∷ vs) = (w == v) && is_list_prefix ws vs

module _ (P C : Bytes) where
  beq-slash :
      (w v : Bytes)
      → no_slash w ≡ true
      → no_slash v ≡ true
      → ((w ++ slash ∷ P) == (v ++ slash ∷ C)) ≡ ((w == v) && (P == C))
  unfolding bytes_beq
  beq-slash [] [] hw hv = ground arith
  beq-slash [] (d ∷ v) hw hv = ground arith
  beq-slash (c ∷ w) [] hw hv = ground arith
  beq-slash (c ∷ w) (d ∷ v) hw hv = ground (arith, beq-slash w v)

  has_prefix-slash :
      (w v : Bytes)
      → no_slash w ≡ true
      → no_slash v ≡ true
      → has_prefix (v ++ slash ∷ C) (w ++ slash ∷ P) ≡ ((w == v) && has_prefix C P)
  unfolding bytes_beq has_prefix
  has_prefix-slash [] [] hw hv = ground arith
  has_prefix-slash [] (d ∷ v) hw hv = ground arith
  has_prefix-slash (c ∷ w) [] hw hv = ground arith
  has_prefix-slash (c ∷ w) (d ∷ v) hw hv = ground (arith, has_prefix-slash w v)

module _ (P : Bytes) where
  has_prefix_plain : (w v : Bytes) → no_slash v ≡ true → has_prefix v (w ++ slash ∷ P) ≡ false
  unfolding has_prefix
  has_prefix_plain [] [] hv = refl
  has_prefix_plain [] (d ∷ v) hv = ground arith
  has_prefix_plain (c ∷ w) [] hv = refl
  has_prefix_plain (c ∷ w) (d ∷ v) hv = ground (arith, has_prefix_plain w v)

  beq_plain : (w v : Bytes) → no_slash w ≡ true → (w == (v ++ slash ∷ P)) ≡ false
  unfolding bytes_beq
  beq_plain [] [] hw = refl
  beq_plain [] (d ∷ v) hw = refl
  beq_plain (c ∷ w) [] hw = ground arith
  beq_plain (c ∷ w) (d ∷ v) hw = ground (arith, beq_plain w v)

  pub plain_beq : (w v : Bytes) → no_slash v ≡ true → ((w ++ slash ∷ P) == v) ≡ false
  unfolding bytes_beq
  plain_beq [] [] hw = refl
  plain_beq [] (d ∷ v) hw = ground arith
  plain_beq (c ∷ w) [] hw = refl
  plain_beq (c ∷ w) (d ∷ v) hw = ground (arith, plain_beq w v)

has_prefix_nil : (C : Bytes) → has_prefix C [] ≡ true
unfolding has_prefix
has_prefix_nil [] = refl
has_prefix_nil (c ∷ C) = refl

-- The test of `IsPrefix` on two texts that are not empty.
abbrev pub covers : Bytes → Bytes → Bool
covers p c = if p == c then true else has_prefix c (p ++ slash ∷ [])

pub covers-join :
    (w : Bytes) (ws vs : List Bytes)
    → Pieces (w ∷ ws)
    → Pieces vs
    → covers (join (w ∷ ws)) (join vs) ≡ is_list_prefix (w ∷ ws) vs
unfolding join is_list_prefix
covers-join w [] [] hw hv = ground (arith, has_prefix_plain [] w [] refl, hw.0.filled)
covers-join w [] (v ∷ []) hw hv = ground (arith, has_prefix_plain [] w v hv.0.plain)
covers-join w [] (v ∷ v' ∷ vs) hw hv =
    let C = join (v' ∷ vs) in
    ground (
      arith,
      beq_plain C w v hw.0.plain,
      has_prefix-slash [] C w v hw.0.plain hv.0.plain,
      has_prefix_nil C,
    )
covers-join w (w' ∷ ws) [] hw hv =
    let P = join (w' ∷ ws) in
    rw (append_assoc w (slash ∷ P) (slash ∷ []))
      (ground (arith, plain_beq P w [] refl, has_prefix_plain (P ++ slash ∷ []) w [] refl))
covers-join w (w' ∷ ws) (v ∷ []) hw hv =
    let P = join (w' ∷ ws) in
    rw (append_assoc w (slash ∷ P) (slash ∷ [])) (
      ground (arith, plain_beq P w v hv.0.plain, has_prefix_plain (P ++ slash ∷ []) w v hv.0.plain))
covers-join w (w' ∷ ws) (v ∷ v' ∷ vs) hw hv =
    let P = join (w' ∷ ws) in
    let C = join (v' ∷ vs) in
    rw (append_assoc w (slash ∷ P) (slash ∷ [])) (
      ground (
        arith,
        beq-slash P C w v hw.0.plain hv.0.plain,
        has_prefix-slash (P ++ slash ∷ []) C w v hw.0.plain hv.0.plain,
        covers-join w' ws (v' ∷ vs) hw.1 hv.1,
      ))
