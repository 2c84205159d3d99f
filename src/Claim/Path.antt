-- ===== src/Claim/Path.antt =====
-- Go's `filepath.Clean` on a Unix path, as the claims use it, and `IsPrefix` and `Overlaps` of
-- internal/claim/canonical.go. `filepath.ToSlash` changes nothing on Unix.
use mathlib.Core.List.{reverse}
use haro.Prelude.{
  ℕ, Bool, true, false, List, [], ◌∷◌, ◌++◌, ◌||◌, ◌==◌, if◌then◌else◌, String, Bytes, codes,
  bytes_eq, has_prefix, nat_beq,
}

abbrev pub slash : ℕ
slash = b'/'

abbrev pub dot : Bytes
dot = b'.' ∷ []

abbrev pub dot_dot : Bytes
dot_dot = b'.' ∷ b'.' ∷ []

abbrev pub cons_head : ℕ → List Bytes → List Bytes
cons_head c [] = (c ∷ []) ∷ []
cons_head c (w ∷ ws) = (c ∷ w) ∷ ws

-- The pieces between slashes.
unfoldable pub split : Bytes → List Bytes
split [] = [] ∷ []
split (c ∷ s) = let rest = split s in if nat_beq c slash then [] ∷ rest else cons_head c rest

-- ".." takes the last piece off, unless there is none or it is ".." itself; at a root it vanishes.
unfoldable pub back_up : Bool → List Bytes → List Bytes
back_up rooted [] = if rooted then [] else dot_dot ∷ []
back_up rooted (w ∷ ws) = if w == dot_dot then dot_dot ∷ w ∷ ws else ws

-- One piece of the path, onto the pieces kept so far, the last first.
unfoldable pub push : Bool → List Bytes → Bytes → List Bytes
unfolding back_up
push rooted kept w =
    if w == [] || w == dot then kept else if w == dot_dot then back_up rooted kept else w ∷ kept

abbrev pub push_all : Bool → List Bytes → List Bytes → List Bytes
push_all rooted kept [] = kept
push_all rooted kept (w ∷ ws) = push_all rooted (push rooted kept w) ws

abbrev pub is_abs : Bytes → Bool
is_abs [] = false
is_abs (c ∷ s) = nat_beq c slash

-- The pieces of the cleaned path, in order.
unfoldable pub parts : Bytes → List Bytes
parts s = reverse (push_all (is_abs s) [] (split s))

unfoldable pub join : List Bytes → Bytes
join [] = []
join (w ∷ []) = w
join (w ∷ v ∷ ws) = w ++ (slash ∷ join (v ∷ ws))

-- filepath.Clean
unfoldable pub clean : Bytes → Bytes
clean s =
    if is_abs s
    then slash ∷ join (parts s)
    else let body = join (parts s) in if body == [] then dot else body

-- `x := filepath.ToSlash(filepath.Clean(raw)); if x == "." { x = "" }`
unfoldable pub logical : Bytes → Bytes
logical s = let c = clean s in if c == dot then [] else c

unfoldable pub is_prefix : Bytes → Bytes → Bool
is_prefix parent child =
    let p = logical parent in
    let c = logical child in
    if p == [] then true else if p == c then true else has_prefix c (p ++ slash ∷ [])

unfoldable pub overlaps : String → String → Bool
overlaps a b = is_prefix (codes a) (codes b) || is_prefix (codes b) (codes a)
