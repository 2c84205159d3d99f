-- ===== src/Store/Leases.antt =====
-- fakeLeasesRepo of internal/store/fake.go. The readings of the clock in one call are one
-- instant, in nanoseconds since the epoch. `Format` with RFC 3339 drops what is below the second.
use haro.Prelude.{
  ℕ, ◌+◌, ◌*◌, ◌/◌, String, Bool, true, none, some, not, ◌&&◌, ◌||◌, ◌==◌, if◌then◌else◌, string_eq,
  nat_eq, ltb,
}
use haro.Prelude.Table
use haro.Store.Types.{Stamp, Lease, Result, ok, err, not_found, lease_conflict, i64}
use haro.Store.State.{FakeStore, step_key}

abbrev pub second : ℕ
second = 1_000_000_000

abbrev pub minute : ℕ
minute = 60 * second

-- t.Format(time.RFC3339)
unfoldable pub format : ℕ → Stamp
format t = some (t / second)

-- expiresAt, parseErr := time.Parse(time.RFC3339, x); parseErr != nil || expiresAt.After(now)
unfoldable pub is_live_or_malformed : ℕ → Stamp → Bool
is_live_or_malformed now none = true
is_live_or_malformed now (some t) = ltb now (t * second)

unfoldable pub acquire : FakeStore → ℕ → String → String → String → Result ℕ × FakeStore
acquire s now execution_id step_id holder =
    let k = step_key execution_id step_id in
    elim (Table.get s.leases k) [
      | none ↦ (
        ok 1,
        record s {
          leases = Table.put s.leases k (record {
            execution_id = execution_id;
            step_id = step_id;
            holder = holder;
            fencing_token = 1;
            acquired_at = format now;
            expires_at = format (now + minute);
          });
        },
      )
      | some l ↦
          if not (l.holder == holder) && is_live_or_malformed now l.expires_at
          then (err lease_conflict, s)
          else let next = i64 (l.fencing_token + 1) in
            (
              ok next,
              record s {
                leases = Table.put s.leases k (record l {
                  holder = holder;
                  fencing_token = next;
                  acquired_at = format now;
                  expires_at = format (now + minute);
                });
              },
            )
    ]

-- Renew and Release: the caller must hold the lease with its current token.
unfoldable pub set_expiry :
    FakeStore → String → String → String → ℕ → Stamp → Result Unit × FakeStore
set_expiry s execution_id step_id holder fencing_token expires =
    let k = step_key execution_id step_id in
    elim (Table.get s.leases k) [
      | none ↦ (err not_found, s)
      | some l ↦
          if not (l.holder == holder) || not (l.fencing_token == fencing_token)
          then (err not_found, s)
          else (
            ok tt,
            record s { leases = Table.put s.leases k (record l { expires_at = expires }) },
          )
    ]

unfoldable pub renew : FakeStore → ℕ → String → String → String → ℕ → Result Unit × FakeStore
unfolding set_expiry
renew s now execution_id step_id holder fencing_token =
    set_expiry s execution_id step_id holder fencing_token (format (now + minute))

unfoldable pub release : FakeStore → ℕ → String → String → String → ℕ → Result Unit × FakeStore
unfolding set_expiry
release s now execution_id step_id holder fencing_token =
    set_expiry s execution_id step_id holder fencing_token (format now)

unfoldable pub get : FakeStore → String → String → Result Lease
get s execution_id step_id = elim (Table.get s.leases (step_key execution_id step_id)) [
  | none ↦ err not_found
  | some l ↦ ok l
]
