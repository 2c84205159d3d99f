-- ===== src/Execution/Takeover.antt =====
-- What the fenced store of internal/execution/fenced_store.go lets through.
use haro.Prelude.{
  Option, ℕ, ◌+◌, ◌^◌, ◌<◌, String, Bool, true, false, some, List, ◌≡◌, refl, string_eq, nat_eq,
  arith, length,
}
use haro.Prelude.Table
use haro.Store.Types.{Lease, ok}
use haro.Store.State.{FakeStore, step_key}
use haro.Store.Leases
use haro.Store.Leases.{second, is_live_or_malformed}
use haro.Store.Calls.{Call, perform_all, lease_acquire}
use haro.Store.Fencing.{Fenced, granted}
use haro.Store.Fencing.Runs.{perform_all-Fenced}
use haro.Execution.Fenced.{
  FencedError, fenced_with_tx, FencedStore, stale_lease, validate, guard, fenced_call,
}

abbrev pub is_guarded : Call → Bool
is_guarded (lease_acquire t execution_id step_id holder) = false
is_guarded _ = true

fenced_call-guard :
    (f : FencedStore) (now : ℕ) (base : FakeStore) (between : FakeStore → FakeStore) (c : Call)
    → is_guarded c ≡ true
    → fenced_call f now base between c ≡ guard f now base between c
unfolding fenced_call
fenced_call-guard f now base between (lease_acquire t execution_id step_id holder) h = cc
fenced_call-guard f now base between _ h = refl

overtaken :
    (f : FencedStore) (now : ℕ) (base : FakeStore) (l : Lease)
    → Table.get base.leases (step_key f.execution_id f.step_id) ≡ some l
    → f.fencing_token < l.fencing_token
    → validate f now base ≡ false
unfolding validate Leases.get is_live_or_malformed
overtaken f now base l found older = rw (found, validate, Leases.get) (ground arith)

-- A view with a smaller token than one that was granted since.
overtaken_later :
    (f : FencedStore) (s : FakeStore) (now later token : ℕ) (other : String) (cs : List Call)
    → (Leases.acquire s now f.execution_id f.step_id other).0 ≡ ok token
    → f.fencing_token < token
    → token + length cs < 2 ^ 64
    → validate f later (perform_all (Leases.acquire s now f.execution_id f.step_id other).1 cs)
      ≡ false
overtaken_later f s now later token other cs given newer small =
    let s' = (Leases.acquire s now f.execution_id f.step_id other).1 in
    let k = step_key f.execution_id f.step_id in
    let g = granted s now f.execution_id f.step_id other token given in
    let first : Fenced k token other token s'.leases = record {
      lease = g.lease;
      found = g.found;
      later = omega (arith, g.numbered);
      same = λ e. g.holds;
      bounded = omega (arith, g.numbered);
    } in
    let last = perform_all-Fenced k token other token s' cs small first in
    overtaken f later (perform_all s' cs) last.lease last.found (omega (arith, last.later))

-- Once another `Acquire` has been granted a greater token for the step, the older view writes
-- nothing any more: whatever calls come between, as long as the tokens stay below 2^64, each of its
-- guarded calls answers that the lease is stale and leaves the store alone.
pub takeover_fences :
    (f : FencedStore) (s : FakeStore) (now later token : ℕ) (other : String) (cs : List Call)
    (between : FakeStore → FakeStore) (c : Call)
    → is_guarded c ≡ true
    → (Leases.acquire s now f.execution_id f.step_id other).0 ≡ ok token
    → f.fencing_token < token
    → token + length cs < 2 ^ 64
    → fenced_call f later
        (perform_all (Leases.acquire s now f.execution_id f.step_id other).1 cs)
        between
        c
      ≡ (some stale_lease, perform_all (Leases.acquire s now f.execution_id f.step_id other).1 cs)
unfolding guard
takeover_fences f s now later token other cs between c guarded given newer small =
    let s' = perform_all (Leases.acquire s now f.execution_id f.step_id other).1 cs in
    let stale = overtaken_later f s now later token other cs given newer small in
    rw (fenced_call-guard f later s' between c guarded) (rw (stale, guard) refl)

-- Once another `Acquire` has been granted a greater token for the step, the older view starts no
-- transaction any more: whatever calls come between, as long as the tokens stay below 2^64, its
-- WithTx answers that the lease is stale, whatever the body, and leaves the store alone.
pub takeover_fences_tx :
    (f : FencedStore) (s : FakeStore) (now later token : ℕ) (other : String) (cs : List Call)
    (between others : FakeStore → FakeStore)
    (body : FencedStore → FakeStore → Option FencedError × FakeStore)
    → (Leases.acquire s now f.execution_id f.step_id other).0 ≡ ok token
    → f.fencing_token < token
    → token + length cs < 2 ^ 64
    → fenced_with_tx f later
        (perform_all (Leases.acquire s now f.execution_id f.step_id other).1 cs)
        between
        others
        body
      ≡ (some stale_lease, perform_all (Leases.acquire s now f.execution_id f.step_id other).1 cs)
unfolding fenced_with_tx
takeover_fences_tx f s now later token other cs between others body given newer small =
    rw (overtaken_later f s now later token other cs given newer small, fenced_with_tx) refl
