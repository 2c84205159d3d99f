-- ===== src/Store/Tx.antt =====
-- WithTx of internal/store/fake.go: the body runs on a copy, which replaces the store's maps if
-- the body succeeds. The lock is free while the body runs: `others` is what the rest of the
-- program does to the store in that time.
pub mod Laws
use haro.Prelude.{Option, none, some, true, if◌then◌else◌}
use haro.Store.State.{FakeStore}

unfoldable pub clone : FakeStore → FakeStore
clone s = record s { in_tx = true }

-- The assignments of the maps of the copy; `inTx` stays.
unfoldable pub commit : FakeStore → FakeStore → FakeStore
commit s copy = record copy { in_tx = s.in_tx }

abbrev pub conclude : {E : Type 0} → FakeStore → Option E × FakeStore → Option E × FakeStore
conclude s (none, copy) = (none, commit s copy)
conclude s (some e, copy) = (some e, s)

-- The body answers its error, if it has one.
unfoldable pub with_tx :
    {E : Type 0}
    → FakeStore
    → (FakeStore → FakeStore)
    → (FakeStore → Option E × FakeStore)
    → Option E × FakeStore
unfolding clone commit
with_tx s others body = if s.in_tx then body s else conclude (others s) (body (clone s))
