-- ===== src/Claim/Overlap.antt =====
-- `IsPrefix` and `Overlaps` of internal/claim/canonical.go on relative paths, against the pieces of
-- the cleaned paths.
use mathlib.Core.List.{reverse_aux}
use haro.Prelude.{
  ℕ, Bool, true, false, String, List, [], ◌∷◌, ◌≡◌, refl, inl, inr, ◌==◌, if◌then◌else◌, Bytes,
  bytes_beq, bytes_eq, nat_beq, Bool-cases, arith, All,
}
use haro.Claim.Path.{
  slash, dot, dot_dot, cons_head, split, back_up, push, push_all, is_abs, parts, join, clean,
  logical, is_prefix, overlaps,
}
use haro.Claim.Pieces.{no_slash, Piece, Pieces, is_list_prefix, plain_beq, covers, covers-join}

abbrev Plain : List Bytes → Type 0
Plain ws = All (λ w. no_slash w ≡ true) ws

cons_head-Plain :
    (c : ℕ) (ws : List Bytes) → nat_beq c slash ≡ false → Plain ws → Plain (cons_head c ws)
cons_head-Plain c [] e h = (ground arith, tt)
cons_head-Plain c (w ∷ ws) e h = (ground (arith, h.0), h.1)

split-Plain : (s : Bytes) → Plain (split s)
unfolding split
split-Plain [] = (refl, tt)
split-Plain (c ∷ s) = elim (Bool-cases (nat_beq c slash)) [
  | inl e ↦ rw e (refl, split-Plain s)
  | inr e ↦ rw e (cons_head-Plain c (split s) e (split-Plain s))
]

dot_dot-Piece : Piece dot_dot
unfolding bytes_beq
dot_dot-Piece = record { plain = refl; filled = refl; moves = refl }

back_up-Pieces : (kept : List Bytes) → Pieces kept → Pieces (back_up false kept)
unfolding back_up
back_up-Pieces [] h = (dot_dot-Piece, tt)
back_up-Pieces (w ∷ ws) h = elim (Bool-cases (w == dot_dot)) [
  | inl e ↦ rw e (dot_dot-Piece, h)
  | inr e ↦ rw e h.1
]

push-Pieces :
    (kept : List Bytes) (w : Bytes) → no_slash w ≡ true → Pieces kept → Pieces (push false kept w)
unfolding push
push-Pieces kept w plain h = elim (Bool-cases (w == [])) [
  | inl e ↦ rw e h
  | inr filled ↦ elim (Bool-cases (w == dot)) [
    | inl e ↦ rw (filled, e) h
    | inr moves ↦ elim (Bool-cases (w == dot_dot)) [
      | inl e ↦ rw (filled, moves, e) (back_up-Pieces kept h)
      | inr e ↦ rw (filled, moves, e) (record { plain = plain; filled = filled; moves = moves }, h)
    ]
  ]
]

push_all-Pieces : (kept ws : List Bytes) → Plain ws → Pieces kept → Pieces (push_all false kept ws)
push_all-Pieces kept [] plain h = h
push_all-Pieces kept (w ∷ ws) plain h =
    push_all-Pieces (push false kept w) ws plain.1 (push-Pieces kept w plain.0 h)

reverse_aux-Pieces : (ws acc : List Bytes) → Pieces ws → Pieces acc → Pieces (reverse_aux ws acc)
reverse_aux-Pieces [] acc h k = k
reverse_aux-Pieces (w ∷ ws) acc h k = reverse_aux-Pieces ws (w ∷ acc) h.1 (h.0, k)

pub parts-Pieces : (s : Bytes) → is_abs s ≡ false → Pieces (parts s)
unfolding parts
parts-Pieces s relative =
    rw relative (reverse_aux-Pieces _ [] (push_all-Pieces [] (split s) (split-Plain s) tt) tt)

abbrev is_nil : List Bytes → Bool
is_nil [] = true
is_nil (w ∷ ws) = false

join-beq_nil : (ws : List Bytes) → Pieces ws → (join ws == []) ≡ is_nil ws
unfolding join bytes_beq
join-beq_nil [] h = refl
join-beq_nil (w ∷ []) h = h.0.filled
join-beq_nil (w ∷ v ∷ ws) h = plain_beq (join (v ∷ ws)) w [] refl

join-beq_dot : (ws : List Bytes) → Pieces ws → (join ws == dot) ≡ false
unfolding join bytes_beq
join-beq_dot [] h = refl
join-beq_dot (w ∷ []) h = h.0.moves
join-beq_dot (w ∷ v ∷ ws) h = plain_beq (join (v ∷ ws)) w dot refl

logical_body :
    (b : Bytes)
    → (b == dot) ≡ false
    → (let c = if b == [] then dot else b in if c == dot then [] else c) ≡ b
unfolding bytes_beq
logical_body [] h = refl
logical_body (c ∷ b) h = rw h

pub logical-join : (s : Bytes) → is_abs s ≡ false → logical s ≡ join (parts s)
unfolding logical clean
logical-join s relative =
    rw relative (logical_body (join (parts s)) (join-beq_dot (parts s) (parts-Pieces s relative)))

prefix_of_Pieces :
    (ws vs : List Bytes)
    → Pieces ws
    → Pieces vs
    → (if join ws == [] then true else covers (join ws) (join vs)) ≡ is_list_prefix ws vs
unfolding is_list_prefix
prefix_of_Pieces [] vs hw hv = ground (arith, join-beq_nil [] tt)
prefix_of_Pieces (w ∷ ws) vs hw hv =
    ground (arith, join-beq_nil (w ∷ ws) hw, covers-join w ws vs hw hv)

-- On relative paths, `IsPrefix` holds exactly where the pieces of the cleaned parent are the first
-- pieces of the cleaned child: it respects the boundaries of the pieces.
pub is_prefix-parts :
    (parent child : Bytes)
    → is_abs parent ≡ false
    → is_abs child ≡ false
    → is_prefix parent child ≡ is_list_prefix (parts parent) (parts child)
unfolding is_prefix
is_prefix-parts parent child hp hc =
    rw (logical-join parent hp, logical-join child hc)
      (prefix_of_Pieces (parts parent) (parts child) (parts-Pieces parent hp)
        (parts-Pieces child hc))

-- Overlapping does not depend on the order of the two paths.
pub overlaps_comm : (a b : String) → overlaps a b ≡ overlaps b a
unfolding overlaps
overlaps_comm a b = ground arith
