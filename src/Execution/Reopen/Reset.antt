-- ===== src/Execution/Reopen/Reset.antt =====
-- The loop of ReopenStep that resets the steps.
use haro.Prelude.{
  String, Bool, true, false, Option, none, some, List, [], ◌∷◌, ◌==◌, ◌≡◌, refl, sym, ◌∙◌, ap,
  string_eq, nat_eq, if◌then◌else◌, mem, Bytes, length, ltb, is_empty_list, occurrences_present,
  occurrences_absent, arith, Bool-cases, Option-cases, inl, inr, ◌⊎◌, ==_sound, ==_refl,
}
use haro.Prelude.Table
use haro.Prelude.Table.{put, get-put}
use haro.Store.Types.{ExecutionStep, ok, not_found}
use haro.Store.State.{FakeStore, step_key, is_valid_step_status}
use haro.Store.Steps
use haro.Store.Events
use haro.Store.Generations
use haro.Execution.Action.{
  Action, Answer, done, failed, EngineError, feedback_too_large, read, write, refuse_if,
  store_error, ◌>>=◌,
}
use haro.Execution.Steps.{audited_update, transition_step_with_force, resync_execution}
use haro.Execution.Transitions.{update_status_valid, get_found}
use haro.Execution.Evidence.{TextLibrary, fallback_limit, fallback_evidence, redact}
use haro.Workflow.Sort.Invariant.{IsPermutation}
use haro.Store.Executions
use haro.Execution.Reopen.{reset_step, reset_all, to_reset, deliver, cascade_set, reopen_step}

-- The step under the key is pending.
abbrev pub IsPending : String → FakeStore → Type 0
IsPending k s = (x : ExecutionStep) × (Table.get s.steps k ≡ some x) × (x.status ≡ "pending")

Pair-cases :
    {X : Type 0}
    → (p : Answer X × FakeStore)
    → ((x : X) × (t : FakeStore) × (p ≡ (done x, t)))
      ⊎ ((e : EngineError) × (t : FakeStore) × (p ≡ (failed e, t)))
Pair-cases (done x, t) = inl (x, t, refl)
Pair-cases (failed e, t) = inr (e, t, refl)

module _ (s : FakeStore) (now execution_id sid : String) (x : ExecutionStep)
    (found : Table.get s.steps (step_key execution_id sid) ≡ some x) where
  audited_update-steps :
      (from : Option String)
      → (audited_update now execution_id sid from "pending" s).1.steps
        ≡ put s.steps (step_key execution_id sid) (record x { status = "pending" })
  unfolding audited_update Events.create_transition is_valid_step_status
  audited_update-steps from =
      rw (update_status_valid s now execution_id sid "" "pending" x found refl, audited_update)
        (ground arith)

  transition_step_with_force-steps :
      (from : String)
      → (x.status == "pending") ≡ false
      → (transition_step_with_force now execution_id sid from "pending" s).1.steps
        ≡ put s.steps (step_key execution_id sid) (record x { status = "pending" })
  unfolding transition_step_with_force
  transition_step_with_force-steps from other =
      rw (get_found s now execution_id sid "" "" x found, transition_step_with_force)
        (rw other (audited_update-steps (some from)))

module _ (s : FakeStore) (now execution_id step_id sid : String) where
  abbrev invalidated : FakeStore
  unfolding Generations.invalidate_by_step
  invalidated = (Generations.invalidate_by_step s now execution_id sid step_id).1

  -- A reset writes at most the status of its step.
  reset_step-steps :
      (x : ExecutionStep)
      → Table.get s.steps (step_key execution_id sid) ≡ some x
      → ((x.status ≡ "pending") × ((reset_step now execution_id step_id sid s).1.steps ≡ s.steps))
        ⊎ ((reset_step now execution_id step_id sid s).1.steps
            ≡ put s.steps (step_key execution_id sid) (record x { status = "pending" }))
  unfolding reset_step Generations.invalidate_by_step
  reset_step-steps x found =
      let s' = (Generations.invalidate_by_step s now execution_id sid step_id).1 in
      let here = get_found s' now execution_id sid "" "" x found in
      elim (Bool-cases (x.status == "pending")) [
        | inl pending ↦
            inl (==_sound x.status "pending" pending, rw (here, reset_step) (rw pending refl))
        | inr other ↦ inr (
            rw (here, reset_step)
              (rw other
                (transition_step_with_force-steps s' now execution_id sid x found x.status other)))
      ]

  reset_step_missing :
      Table.get s.steps (step_key execution_id sid) ≡ none
      → (reset_step now execution_id step_id sid s).0 ≡ failed (store_error not_found)
  unfolding reset_step Generations.invalidate_by_step Steps.get
  reset_step_missing free = rw (free, Steps.get, reset_step) refl

  -- A step that is pending stays so, and after a reset without an error the step of the reset is.
  reset_step-IsPending :
      (s' : FakeStore)
      → reset_step now execution_id step_id sid s ≡ (done tt, s')
      → IsPending (step_key execution_id sid) s' × ((k : String) → IsPending k s → IsPending k s')
  reset_step-IsPending s' end_ =
      let key = step_key execution_id sid in
      elim (Option-cases (Table.get s.steps key)) [
        | inl free ↦
            let k = reset_step_missing free in
            let wrong : done tt ≡ failed (store_error not_found) =
              sym (ap (λ (p : Answer Unit × FakeStore). p.0) end_) ∙ k in
            absurd cc
        | inr (x, found) ↦
            let after = ap (λ (p : Answer Unit × FakeStore). p.1.steps) end_ in
            elim (reset_step-steps x found) [
              | inl (pending, same) ↦
                  let e : s'.steps ≡ s.steps = sym after ∙ same in
                  (
                    (x, ap (λ m. Table.get m key) e ∙ found, pending),
                    λ k (y, there, was). (y, ap (λ m. Table.get m k) e ∙ there, was),
                  )
              | inr written ↦
                  let new = record x { status = "pending" } in
                  let e : s'.steps ≡ put s.steps key new = sym after ∙ written in
                  let lookup : (k : String)
                      → Table.get s'.steps k
                        ≡ (if key == k then some new else Table.get s.steps k) =
                    λ k. ap (λ m. Table.get m k) e ∙ get-put s.steps key k new in
                  (
                    (new, lookup key ∙ rw (==_refl key) refl, refl),
                    λ k (y, there, was). elim (Bool-cases (key == k)) [
                      | inl hit ↦ (new, lookup k ∙ rw hit refl, refl)
                      | inr miss ↦ (y, lookup k ∙ rw miss there, was)
                    ],
                  )
            ]
      ]

-- A run that succeeds in two parts.
pub bind-done :
    {X Y : Type 0}
    → (first : Action X) (next : X → Action Y) (s s' : FakeStore) (y : Y)
    → (first >>= next) s ≡ (done y, s')
    → (x : X) × (t : FakeStore) × (first s ≡ (done x, t)) × (next x t ≡ (done y, s'))
bind-done first next s s' y end_ = elim (Pair-cases (first s)) [
  | inl (x, t, e) ↦ (x, t, e, rw e at end_)
  | inr (err_, t, e) ↦ let k = rw e at end_ in absurd cc
]

-- All steps that were to be reset are pending after the loop, and those that were stay so.
pub reset_all-IsPending :
    (now execution_id step_id : String) (sids : List String) (s s' : FakeStore)
    → reset_all now execution_id step_id sids s ≡ (done tt, s')
    → ((sid : String) → mem sid sids ≡ true → IsPending (step_key execution_id sid) s')
      × ((k : String) → IsPending k s → IsPending k s')
unfolding reset_all
reset_all-IsPending now execution_id step_id [] s s' end_ =
    let same : s ≡ s' = cc in (λ sid h. absurd cc, λ k pending. rw⁻¹ same pending)
reset_all-IsPending now execution_id step_id (x ∷ sids) s s' end_ =
    let (u, t, first, rest) =
      bind-done (reset_step now execution_id step_id x)
        (λ v. reset_all now execution_id step_id sids) s s' tt end_ in
    let (here, keeps) = reset_step-IsPending s now execution_id step_id x t first in
    let (all, keeps') = reset_all-IsPending now execution_id step_id sids t s' rest in
    (
      λ sid h. elim (Bool-cases (x == sid)) [
        | inl same ↦ keeps' (step_key execution_id sid) (rw⁻¹ (==_sound x sid same) here)
        | inr other ↦ all sid (rw other at h)
      ],
      λ k pending. keeps' k (keeps k pending),
    )

resync_execution-steps :
    (managed : Bool) (root now execution_id : String) (s : FakeStore)
    → (resync_execution managed root now execution_id s).1.steps ≡ s.steps
unfolding resync_execution Executions.update_status
resync_execution-steps managed root now execution_id s = ground arith

deliver-keeps :
    (text : Bytes → String) (library : TextLibrary) (decode : String → List String)
    (sort_strings : List String → List String) (execution_id step_id : String) (feedback : Bytes)
    (s : FakeStore) (k : String)
    → IsPending k s
    → IsPending k (deliver library decode sort_strings text execution_id step_id feedback s).1
unfolding deliver Steps.set_pending_feedback
deliver-keeps text library decode sort_strings execution_id step_id [] s k pending = pending
deliver-keeps text library decode sort_strings execution_id step_id (c ∷ feedback) s k
      (x, there, was) =
    let key = step_key execution_id step_id in
    elim (Option-cases (Table.get s.steps key)) [
      | inl free ↦ rw (free, deliver, Steps.set_pending_feedback, Steps.modify) (x, there, was)
      | inr (y, found) ↦
          let new = record y { pending_feedback = some (text (c ∷ feedback)) } in
          rw (found, deliver, Steps.set_pending_feedback, Steps.modify)
            (elim (Bool-cases (key == k)) [
              | inl hit ↦
                  let same : y ≡ x = let e = ==_sound key k hit in let f = rw e at found in cc in
                  (
                    new,
                    get-put s.steps key k new ∙ rw hit refl,
                    ap (λ (z : ExecutionStep). z.status) same ∙ was,
                  )
              | inr miss ↦ (x, get-put s.steps key k new ∙ rw miss there, was)
            ])
    ]

refuse_if-state : (test : Bool) (e : EngineError) (s : FakeStore) → (refuse_if test e s).1 ≡ s
refuse_if-state true e s = refl
refuse_if-state false e s = refl

to_reset-state :
    (decode : String → List String) (cascade : Bool) (execution_id step_id : String) (s : FakeStore)
    → (to_reset decode cascade execution_id step_id s).1 ≡ s
unfolding to_reset
to_reset-state decode false execution_id step_id s = refl
to_reset-state decode true execution_id step_id s =
    elim (Option-cases (cascade_set decode step_id (Steps.list s execution_id))) [
      | inl none_ ↦ rw (none_, to_reset) refl
      | inr (reset, e) ↦ rw (e, to_reset) refl
    ]

mem-sort :
    (sort_strings : List String → List String) (l : List String) (z : String)
    → IsPermutation sort_strings
    → mem z l ≡ true
    → mem z (sort_strings l) ≡ true
mem-sort sort_strings l z permutes inside = elim (Bool-cases (mem z (sort_strings l))) [
  | inl there ↦ there
  | inr gone ↦
      let here = occurrences_present z l inside in
      absurd (omega (arith, here, permutes l z, occurrences_absent z (sort_strings l) gone))
]

module _ (library : TextLibrary) (decode : String → List String)
    (sort_strings : List String → List String) (text : Bytes → String)
    (permutes : IsPermutation sort_strings) where
  -- Where ReopenStep, with a sort.Strings that permutes, answers without an error, each step that it
  -- was to reset, in the store that it was called on, is pending.
  pub reopen_step-IsPending :
      (managed : Bool) (root now execution_id step_id : String) (cascade : Bool) (feedback : Bytes)
      (s s' : FakeStore) (removed : Option String)
      → reopen_step library decode sort_strings text managed root now execution_id step_id cascade
          feedback s
        ≡ (done removed, s')
      → (reset : List String) × (to_reset decode cascade execution_id step_id s ≡ (done reset, s))
        × ((z : String) → mem z reset ≡ true → IsPending (step_key execution_id z) s')
  unfolding reopen_step
  reopen_step-IsPending managed root now execution_id step_id cascade feedback s s' removed end_ =
      let given =
        if is_empty_list feedback then feedback else fallback_evidence (redact library feedback) in
      let resync : Unit → Action (Option String) = λ u. write (λ t.
        let (removed_, t') = resync_execution managed root now execution_id t in
        (ok removed_, t')) in
      let delivered : Unit → Action (Option String) =
        λ u. deliver library decode sort_strings text execution_id step_id given >>= resync in
      let looped : List String → Action (Option String) =
        λ reset. reset_all now execution_id step_id (sort_strings reset) >>= delivered in
      let looked : ExecutionStep → Action (Option String) =
        λ x. to_reset decode cascade execution_id step_id >>= looped in
      let (u1, s1, e1, r1) =
        bind-done (refuse_if (ltb fallback_limit (length feedback)) feedback_too_large)
          (λ u. read (λ t. Steps.get t execution_id step_id) >>= looked) s s' removed end_ in
      let (x2, s2, e2, r2) =
        bind-done (read (λ t. Steps.get t execution_id step_id)) looked s1 s' removed r1 in
      let (reset, s3, e3, r3) =
        bind-done (to_reset decode cascade execution_id step_id) looped s2 s' removed r2 in
      let (u4, s4, e4, r4) =
        bind-done (reset_all now execution_id step_id (sort_strings reset)) delivered s3 s' removed
          r3 in
      let (u5, s5, e5, r5) =
        bind-done (deliver library decode sort_strings text execution_id step_id given) resync s4 s'
          removed r4 in
      let first : s ≡ s1 =
        sym (refuse_if-state (ltb fallback_limit (length feedback)) feedback_too_large s)
        ∙ ap (λ (p : Answer Unit × FakeStore). p.1) e1 in
      let second : s1 ≡ s2 = ap (λ (p : Answer ExecutionStep × FakeStore). p.1) e2 in
      let third : s2 ≡ s3 =
        sym (to_reset-state decode cascade execution_id step_id s2)
        ∙ ap (λ (p : Answer (List String) × FakeStore). p.1) e3 in
      let asked : to_reset decode cascade execution_id step_id s ≡ (done reset, s) =
        ap (λ t. to_reset decode cascade execution_id step_id t) (first ∙ second)
        ∙ (e3 ∙ ap (λ (t : FakeStore). (done reset, t)) (sym (first ∙ (second ∙ third)))) in
      let (all, keeps) =
        reset_all-IsPending now execution_id step_id (sort_strings reset) s3 s4 e4 in
      let last : s'.steps ≡ s5.steps =
        sym (ap (λ (p : Answer (Option String) × FakeStore). p.1.steps) r5)
        ∙ resync_execution-steps managed root now execution_id s5 in
      (
        reset,
        asked,
        λ z inside.
            let key = step_key execution_id z in
            let before =
              deliver-keeps text library decode sort_strings execution_id step_id given s4 key
                (all z (mem-sort sort_strings reset z permutes inside)) in
            let (y, there, was) = before in
            let moved : (deliver library decode sort_strings text execution_id step_id given
                  s4).1.steps
                ≡ s5.steps =
              ap (λ (p : Answer Unit × FakeStore). p.1.steps) e5 in
            (y, ap (λ m. Table.get m key) (last ∙ sym moved) ∙ there, was),
      )
