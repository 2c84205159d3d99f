-- ===== src/Store/Tx/Laws.antt =====
-- What WithTx of internal/store/fake.go promises.
use haro.Prelude.{Option, none, some, Bool, false, ◌≡◌, refl, sym, ◌∙◌, if◌then◌else◌}
use haro.Store.State.{FakeStore}
use haro.Store.Tx.{clone, commit, conclude, with_tx}

conclude_ok :
    {E : Type 0} (t u : FakeStore) (r : Option E × FakeStore)
    → t.in_tx ≡ u.in_tx
    → (conclude t r).0 ≡ none
    → conclude t r ≡ conclude u r
unfolding commit
conclude_ok t u (none, copy) marks done = rw marks refl
conclude_ok t u (some e, copy) marks done = absurd cc

if_false : {A : Type 0} (b : Bool) (x y : A) → b ≡ false → (if b then x else y) ≡ y
if_false b x y h = rw h refl

module _ {E : Type 0} (s : FakeStore) (others : FakeStore → FakeStore)
    (body : FakeStore → Option E × FakeStore) (outside : s.in_tx ≡ false) where
  outermost : with_tx s others body ≡ conclude (others s) (body (clone s))
  unfolding with_tx
  outermost = if_false s.in_tx (body s) (conclude (others s) (body (clone s))) outside

  alone : with_tx s (λ t. t) body ≡ conclude s (body (clone s))
  unfolding with_tx
  alone = if_false s.in_tx (body s) (conclude s (body (clone s))) outside

  -- An outermost transaction that succeeds ends in the same store as if the rest of the program had
  -- done nothing in the meantime: what it wrote while the body ran is lost.
  pub with_tx_loses_updates :
      (others s).in_tx ≡ false
      → (with_tx s others body).0 ≡ none
      → with_tx s others body ≡ with_tx s (λ t. t) body
  with_tx_loses_updates outside' =
      rw (outermost, alone) (conclude_ok (others s) s (body (clone s)) (outside' ∙ sym outside))
