-- ===== src/Store/Fencing.antt =====
-- Fencing tokens of the step leases (fakeLeasesRepo of internal/store/fake.go): who holds a step.
mod Frame
pub mod Runs
use haro.Prelude.{
  ℕ, ◌+◌, ◌*◌, ◌/◌, ◌^◌, ◌≤◌, ◌<◌, String, Bool, true, false, none, some, ◌≡◌, ◌≢◌, refl, ◌==◌, not,
  ◌&&◌, ◌||◌, if◌then◌else◌, Bool-cases, Option-cases, string_eq, nat_eq, nat_beq_iff, eq_iff, inl,
  inr, arith, leb,
}
use haro.Prelude.Table
use haro.Prelude.Table.{Table, put, get-put}
use haro.Store.Types.{Lease, Stamp, ok, err, lease_conflict, i64}
use haro.Store.State.{FakeStore, step_key}
use haro.Store.Leases
use haro.Store.Leases.{second, minute, format, is_live_or_malformed}
use haro.Store.Integrity.Rules.{keeps_guard, keeps_found, keeps_option}

-- On a step whose lease ends at second `t`, `Acquire` answers the next token to the holder at any
-- time and to others from that second on; before it, others get a conflict.
pub acquire_answers :
    (s : FakeStore) (now t : ℕ) (execution_id step_id holder : String) (l : Lease)
    → Table.get s.leases (step_key execution_id step_id) ≡ some l
    → l.expires_at ≡ some t
    → (Leases.acquire s now execution_id step_id holder).0 ≡ (
        if l.holder == holder || leb (t * second) now
        then ok (i64 (l.fencing_token + 1))
        else err lease_conflict)
unfolding Leases.acquire is_live_or_malformed
acquire_answers s now t execution_id step_id holder l found ends =
    rw (found, Leases.acquire) (ground arith)

-- What a granted `Acquire` has written.
pub record Granted (s' : FakeStore) (now : ℕ) (k holder : String) (token : ℕ) : Type 0 where
  pub lease : Lease
  pub found : Table.get s'.leases k ≡ some lease
  pub holds : lease.holder ≡ holder
  pub numbered : lease.fencing_token ≡ token
  pub ends : lease.expires_at ≡ some ((now + minute) / second)

written : (m : Table String Lease) (k : String) (l : Lease) → Table.get (put m k l) k ≡ some l
written m k l = ground (arith, get-put m k k l, eq_iff k k)

pub granted :
    (s : FakeStore) (now : ℕ) (execution_id step_id holder : String) (token : ℕ)
    → (Leases.acquire s now execution_id step_id holder).0 ≡ ok token
    → Granted
        (Leases.acquire s now execution_id step_id holder).1
        now
        (step_key execution_id step_id)
        holder
        token
unfolding Leases.acquire format
granted s now execution_id step_id holder token h =
    let k = step_key execution_id step_id in
    elim (Option-cases (Table.get s.leases k)) [
      | inl free ↦
          let one : 1 ≡ token = ground arith in
          rw (free, Leases.acquire)
            (record {
              lease = _;
              found = written s.leases k _;
              holds = refl;
              numbered = one;
              ends = refl;
            })
      | inr (l, found) ↦
          elim (Bool-cases (not (l.holder == holder) && is_live_or_malformed now l.expires_at)) [
            | inl held ↦ absurd (ground arith)
            | inr open_now ↦
                let next : i64 (l.fencing_token + 1) ≡ token = ground arith in
                rw (found, Leases.acquire, open_now)
                  (record {
                    lease = _;
                    found = written s.leases k _;
                    holds = refl;
                    numbered = next;
                    ends = refl;
                  })
          ]
    ]

-- After a granted `Acquire`, an `Acquire` of the same step by another holder gets a conflict before
-- the second that the stored text names, and the next token from that second on.
pub acquire_exclusive :
    (s : FakeStore) (now later : ℕ) (execution_id step_id holder other : String) (token : ℕ)
    → (Leases.acquire s now execution_id step_id holder).0 ≡ ok token
    → (holder == other) ≡ false
    → (Leases.acquire
        (Leases.acquire s now execution_id step_id holder).1
        later
        execution_id
        step_id
        other).0
      ≡ (if leb ((now + minute) / second * second) later
          then ok (i64 (token + 1))
          else err lease_conflict)
acquire_exclusive s now later execution_id step_id holder other token ok_token foreign =
    let g = granted s now execution_id step_id holder token ok_token in
    let again =
      acquire_answers (Leases.acquire s now execution_id step_id holder).1 later
        ((now + minute) / second) execution_id step_id other g.lease g.found g.ends in
    ground (arith, again, g.holds, g.numbered)

-- The lease under a key has at least this token, and if it has this very token, this holder.
pub record Fenced (k : String) (token : ℕ) (holder : String) (bound : ℕ) (m : Table String Lease)
    : Type 0 where
  pub lease : Lease
  pub found : Table.get m k ≡ some lease
  pub later : token ≤ lease.fencing_token
  pub same : lease.fencing_token ≡ token → lease.holder ≡ holder
  pub bounded : lease.fencing_token ≤ bound
