-- ===== src/Workflow/Compose/Flows.antt =====
-- The runs of the monad of Flatten in internal/workflow/compose.go.
use haro.Prelude.{none, ◌≡◌, refl, inl, inr, ◌⊎◌, Option-cases}
use haro.Workflow.Validate.{Check}
use haro.Workflow.Compose.{Failure, Composed, made, refused, Counts, Flow, ◌>>=◌, pass, pure}

pub Composed-cases :
    {X : Type 0}
    → (r : Composed (X × Counts))
    → ((x : X) × (n : Counts) × (r ≡ made (x, n))) ⊎ ((e : Failure) × (r ≡ refused e))
Composed-cases (made (x, n)) = inl (x, n, refl)
Composed-cases (refused e) = inr (e, refl)

-- A sequence that succeeds has a first part that succeeds, and a rest that does.
pub bind-made :
    {X Y : Type 0}
    → (first : Flow X) (next : X → Flow Y) (n : Counts) (r : Y × Counts)
    → (first >>= next) n ≡ made r
    → (x : X) × (m : Counts) × (first n ≡ made (x, m)) × (next x m ≡ made r)
bind-made first next n r done = elim (Composed-cases (first n)) [
  | inl (x, m, e) ↦ (x, m, e, rw e at done)
  | inr (e, stuck) ↦ let k = rw stuck at done in absurd cc
]

-- What a run gives where it succeeds.
abbrev pub Gives : {X : Type 0} → (X → Type 0) → Flow X → Type 0
Gives {X} P run = (n m : Counts) (x : X) → run n ≡ made (x, m) → P x

pub Gives-pure : {X : Type 0} → (P : X → Type 0) (x : X) → P x → Gives P (pure x)
Gives-pure P x holds n m y done = let same : x ≡ y = cc in rw⁻¹ same holds

pub Gives-bind :
    {X Y : Type 0}
    → (Q : X → Type 0) (P : Y → Type 0) (first : Flow X) (next : X → Flow Y) → Gives Q first
    → ((x : X) → Q x → Gives P (next x))
    → Gives P (first >>= next)
Gives-bind Q P first next before after n m y done =
    let (x, k, e, rest) = bind-made first next n (y, m) done in after x (before n k x e) k m y rest

pub Gives-then :
    {X Y : Type 0}
    → (P : Y → Type 0) (first : Flow X) (next : X → Flow Y) → ((x : X) → Gives P (next x))
    → Gives P (first >>= next)
Gives-then P first next after =
    Gives-bind (λ x. Unit) P first next (λ n m x done. tt) (λ x u. after x)

-- What a check that passes has not found.
pub Gives-pass : (check : Check) → Gives (λ u. check ≡ none) (pass check)
Gives-pass check n m u done = elim (Option-cases check) [
  | inl passes ↦ passes
  | inr (e, found) ↦ let k = rw (found, pass) at done in absurd cc
]
