-- ===== src/Execution/Fenced.antt =====
-- internal/execution/fenced_store.go: a view of the store that writes only while its lease is
-- current. Reads pass through, and `Acquire` of a lease is not guarded. In `Result`, the error
-- `ErrStaleLease` of the package stands beside the errors of the store. The validation and the write
-- lock the store one after the other: `between` is what the rest of the program does to it in the
-- meantime.
use haro.Prelude.{
  ℕ, String, Bool, true, false, Option, none, some, not, ◌||◌, ◌==◌, if◌then◌else◌, string_eq,
  nat_eq,
}
use haro.Store.Types.{Error, ok, err}
use haro.Store.State.{FakeStore}
use haro.Store.Leases
use haro.Store.Tx.{with_tx}
use haro.Store.Leases.{is_live_or_malformed}
use haro.Store.Calls.{Call, call, lease_acquire}

pub record FencedStore : Type 0 where
  pub execution_id : String
  pub step_id : String
  pub holder : String
  pub fencing_token : ℕ

pub data FencedError : Type 0 where
  stale_lease : FencedError
  store_error : Error → FencedError

-- expiresAt, err := time.Parse(…); err != nil || !expiresAt.After(now)
unfoldable pub has_ended : ℕ → Option ℕ → Bool
has_ended now none = true
has_ended now (some t) = not (is_live_or_malformed now (some t))

-- `validate`: whether it returns nil.
unfoldable pub validate : FencedStore → ℕ → FakeStore → Bool
unfolding has_ended
validate f now base = elim (Leases.get base f.execution_id f.step_id) [
  | err e ↦ false
  | ok lease ↦
      if has_ended now lease.expires_at
      then false
      else if not (lease.holder == f.holder) || not (lease.fencing_token == f.fencing_token)
      then false
      else true
]

abbrev pub lift_error : Option Error → Option FencedError
lift_error none = none
lift_error (some e) = some (store_error e)

abbrev pub pass : Option Error × FakeStore → Option FencedError × FakeStore
pass (e, s) = (lift_error e, s)

-- `guard`, for a body that is one method of the store.
unfoldable pub guard :
    FencedStore → ℕ → FakeStore → (FakeStore → FakeStore) → Call → Option FencedError × FakeStore
guard f now base between c =
    if not (validate f now base) then (some stale_lease, base) else pass (call (between base) c)

-- Every method that writes, by the repository that it belongs to.
unfoldable pub fenced_call :
    FencedStore → ℕ → FakeStore → (FakeStore → FakeStore) → Call → Option FencedError × FakeStore
fenced_call f now base between (lease_acquire t execution_id step_id holder) =
    pass (call base (lease_acquire t execution_id step_id holder))
fenced_call f now base between c = guard f now base between c

-- `WithTx`, whose `others` act while the body runs: the body gets a view with the same fields of the
-- store in the transaction.
unfoldable pub fenced_with_tx :
    FencedStore
    → ℕ
    → FakeStore
    → (FakeStore → FakeStore)
    → (FakeStore → FakeStore)
    → (FencedStore → FakeStore → Option FencedError × FakeStore)
    → Option FencedError × FakeStore
fenced_with_tx f now base between others body =
    if not (validate f now base)
    then (some stale_lease, base)
    else with_tx (between base) others (body f)
