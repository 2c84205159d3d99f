-- ===== src/Store/Fencing/Runs.antt =====
-- Fencing over any sequence of calls of the store.
use native.Mathlib.Nat.{add-zero}
use haro.Prelude.{
  ℕ, suc, ◌+◌, ◌^◌, ◌<◌, String, List, [], ◌∷◌, ◌≡◌, refl, ap, ◌∙◌, false, some, none, not, ◌&&◌,
  ◌||◌, ◌==◌, ◌⊎◌, inl, inr, Bool-cases, arith, length, string_eq, nat_eq, eq_iff,
}
use haro.Prelude.Table
use haro.Prelude.Table.{Table, put, get-put}
use haro.Store.Types.{Lease, Stamp, i64}
use haro.Store.State.{FakeStore, step_key}
use haro.Store.Leases
use haro.Store.Leases.{is_live_or_malformed}
use haro.Store.Calls.{
  Call, perform, perform_all, project_create, execution_create, execution_update_status,
  step_create, step_update_status, step_update_generation, step_set_pending_feedback,
  attempt_create, attempt_update_status, generation_create, generation_invalidate_by_step,
  event_create, transition_create, transport_put, claim_acquire, claim_release, lease_acquire,
  lease_renew, lease_release, interaction_create, interaction_resolve,
}
use haro.Store.Integrity.Rules.{keeps_guard, keeps_found, keeps_option}
use haro.Store.Fencing.{Fenced}
use haro.Store.Fencing.Frame.{
  project_create-leases, execution_create-leases, execution_update_status-leases,
  step_create-leases, step_update_status-leases, step_update_generation-leases,
  step_set_pending_feedback-leases, attempt_create-leases, attempt_update_status-leases,
  generation_create-leases, generation_invalidate_by_step-leases, event_create-leases,
  transition_create-leases, transport_put-leases, claim_acquire-leases, claim_release-leases,
  interaction_create-leases, interaction_resolve-leases,
}

Fenced_weaken :
    {k : String} {token : ℕ} {holder : String} {bound : ℕ} {m : Table String Lease}
    → Fenced k token holder bound m
    → Fenced k token holder (bound + 1) m
Fenced_weaken h = record {
  lease = h.lease;
  found = h.found;
  later = h.later;
  same = h.same;
  bounded = omega (arith, h.bounded);
}

module _ (k : String) (token : ℕ) (holder : String) (bound : ℕ) (m : Table String Lease)
    (h : Fenced k token holder bound m) where
  -- A write to the lease of another step.
  Fenced-put_ne :
      (j : String) (l : Lease) → (j == k) ≡ false → Fenced k token holder (bound + 1) (put m j l)
  Fenced-put_ne j l other = record {
    lease = h.lease;
    found = ground (arith, get-put m j k l, h.found);
    later = h.later;
    same = h.same;
    bounded = omega (arith, h.bounded);
  }

  -- A write to the lease itself that keeps its token and its holder, or takes a greater token.
  Fenced-put :
      (j : String) (old new : Lease)
      → Table.get m j ≡ some old
      → ((new.fencing_token ≡ old.fencing_token) × (new.holder ≡ old.holder))
        ⊎ (new.fencing_token ≡ i64 (old.fencing_token + 1))
      → bound + 1 < 2 ^ 64
      → Fenced k token holder (bound + 1) (put m j new)
  Fenced-put j old new found change small = elim (Bool-cases (j == k)) [
    | inr other ↦ Fenced-put_ne j new other
    | inl same ↦
        let j≡k : j ≡ k = (eq_iff j k).0 same in
        let old≡ : old ≡ h.lease = cc (ap (λ i. Table.get m i) j≡k, found, h.found) in
        let number : old.fencing_token ≡ h.lease.fencing_token =
          ap (λ (l : Lease). l.fencing_token) old≡ in
        let held : old.holder ≡ h.lease.holder = ap (λ (l : Lease). l.holder) old≡ in
        let written : Table.get (put m j new) k ≡ some new = ground (arith, get-put m j k new) in
        elim change [
          | inl (kept, holds) ↦ record {
            lease = new;
            found = written;
            later = omega (arith, kept, number, h.later);
            same = λ e. holds ∙ held ∙ h.same (omega (arith, kept, number, e));
            bounded = omega (arith, kept, number, h.bounded);
          }
          | inr next ↦ record {
            lease = new;
            found = written;
            later = omega (arith, next, number, h.later, h.bounded, small);
            same = λ e. absurd (omega (arith, next, number, h.later, h.bounded, small, e));
            bounded = omega (arith, next, number, h.bounded);
          }
        ]
  ]

-- The fact about the leases of a store, after one call.
abbrev FencedIn : String → ℕ → String → ℕ → FakeStore → Type 0
FencedIn k token holder bound t = Fenced k token holder (bound + 1) t.leases

module _ (k : String) (token : ℕ) (holder : String) (bound : ℕ) (s : FakeStore)
    (h : Fenced k token holder bound s.leases) where
  acquire-Fenced :
      (now : ℕ) (execution_id step_id by : String)
      → bound + 1 < 2 ^ 64
      → FencedIn k token holder bound (Leases.acquire s now execution_id step_id by).1
  unfolding Leases.acquire
  acquire-Fenced now execution_id step_id by small =
      let j = step_key execution_id step_id in
      keeps_option (FencedIn k token holder bound) (Table.get s.leases j) _ _
        (λ free. Fenced-put_ne k token holder bound s.leases h j _ (other_key j free))
        λ l found.
          keeps_guard (FencedIn k token holder bound)
            (not (l.holder == by) && is_live_or_malformed now l.expires_at) _ s _ (Fenced_weaken h)
            λ open_now. Fenced-put k token holder bound s.leases h j l _ found (inr refl) small
    where
      other_key : (j : String) → Table.get s.leases j ≡ none → (j == k) ≡ false
      other_key j free = ground (arith, h.found, eq_iff j k)

  set_expiry-Fenced :
      (execution_id step_id by : String) (number : ℕ) (expires : Stamp)
      → bound + 1 < 2 ^ 64
      → FencedIn k token holder bound (Leases.set_expiry s execution_id step_id by number expires).1
  unfolding Leases.set_expiry
  set_expiry-Fenced execution_id step_id by number expires small =
      let j = step_key execution_id step_id in
      keeps_found (FencedIn k token holder bound) (Table.get s.leases j) _ s _ (Fenced_weaken h)
        λ l found.
          keeps_guard (FencedIn k token holder bound)
            (not (l.holder == by) || not (l.fencing_token == number)) _ s _ (Fenced_weaken h)
            λ held. Fenced-put k token holder bound s.leases h j l _ found (inl (refl, refl)) small

  Fenced_unchanged : (m : Table String Lease) → m ≡ s.leases → Fenced k token holder (bound + 1) m
  Fenced_unchanged m e = rw e (Fenced_weaken h)

  perform-Fenced : (c : Call) → bound + 1 < 2 ^ 64 → FencedIn k token holder bound (perform s c)
  unfolding perform Leases.renew Leases.release
  perform-Fenced (project_create now id root_path) small =
      Fenced_unchanged _ (project_create-leases s now id root_path)
  perform-Fenced (execution_create now e) small =
      Fenced_unchanged _ (execution_create-leases s now e)
  perform-Fenced (execution_update_status now id status) small =
      Fenced_unchanged _ (execution_update_status-leases s now id status)
  perform-Fenced (step_create x) small = Fenced_unchanged _ (step_create-leases s x)
  perform-Fenced (step_update_status exec_id step_id status) small =
      Fenced_unchanged _ (step_update_status-leases s exec_id step_id status)
  perform-Fenced (step_update_generation exec_id step_id gen) small =
      Fenced_unchanged _ (step_update_generation-leases s exec_id step_id gen)
  perform-Fenced (step_set_pending_feedback exec_id step_id feedback) small =
      Fenced_unchanged _ (step_set_pending_feedback-leases s exec_id step_id feedback)
  perform-Fenced (attempt_create now a) small = Fenced_unchanged _ (attempt_create-leases s now a)
  perform-Fenced (attempt_update_status now id status ended_at term digest) small =
      Fenced_unchanged _ (attempt_update_status-leases s now id status ended_at term digest)
  perform-Fenced (generation_create now g) small =
      Fenced_unchanged _ (generation_create-leases s now g)
  perform-Fenced (generation_invalidate_by_step now exec_id step_id by) small =
      Fenced_unchanged _ (generation_invalidate_by_step-leases s now exec_id step_id by)
  perform-Fenced (event_create now e) small = Fenced_unchanged _ (event_create-leases s now e)
  perform-Fenced (transition_create now e) small =
      Fenced_unchanged _ (transition_create-leases s now e)
  perform-Fenced (transport_put t) small = Fenced_unchanged _ (transport_put-leases s t)
  perform-Fenced (claim_acquire now c) small = Fenced_unchanged _ (claim_acquire-leases s now c)
  perform-Fenced (claim_release now project_id path execution_id step_id) small =
      Fenced_unchanged _ (claim_release-leases s now project_id path execution_id step_id)
  perform-Fenced (lease_acquire now execution_id step_id holder) small =
      acquire-Fenced now execution_id step_id holder small
  perform-Fenced (lease_renew now execution_id step_id by number) small =
      set_expiry-Fenced execution_id step_id by number _ small
  perform-Fenced (lease_release now execution_id step_id by number) small =
      set_expiry-Fenced execution_id step_id by number _ small
  perform-Fenced (interaction_create i) small = Fenced_unchanged _ (interaction_create-leases s i)
  perform-Fenced (interaction_resolve now id key decision) small =
      Fenced_unchanged _ (interaction_resolve-leases s now id key decision)

step_count : (a n : ℕ) → a + suc n ≡ (a + 1) + n
step_count a n = omega arith

-- Whatever calls follow, as long as the tokens stay below 2^64: the lease of the step stays there,
-- its token never falls, and while it is the same token it has the same holder. So a token that was
-- overtaken stays overtaken, and one token never serves two holders.
pub perform_all-Fenced :
    (k : String) (token : ℕ) (holder : String) (bound : ℕ) (s : FakeStore) (cs : List Call)
    → bound + length cs < 2 ^ 64
    → Fenced k token holder bound s.leases
    → Fenced k token holder (bound + length cs) (perform_all s cs).leases
unfolding perform_all
perform_all-Fenced k token holder bound s [] small h = rw add-zero h
perform_all-Fenced k token holder bound s (c ∷ cs) small h = rw (step_count bound (length cs)) (
    perform_all-Fenced k token holder (bound + 1) (perform s c) cs (omega arith)
      (perform-Fenced k token holder bound s h c (omega arith)))
