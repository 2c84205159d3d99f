-- ===== src/Execution/Reopen.antt =====
-- ReopenStep of internal/execution/state.go. encoding/json is the parameter `decode`: what
-- Unmarshal makes of the text of a list, its error dropped as in the code. sort.Strings is the
-- parameter `sort_strings`, and `text` makes the text of the bytes of the feedback.
pub mod Closure
pub mod Enlist
pub mod Feeders
pub mod Links
pub mod Queue
pub mod Reset
use haro.Prelude.{
  ℕ, zero, suc, ◌+◌, String, Bool, true, false, Option, none, some, List, [], ◌∷◌, ◌++◌, not, ◌&&◌,
  ◌||◌, ◌==◌, string_eq, if◌then◌else◌, length, any, select, is_empty_list, mem, ltb, Bytes,
}
use haro.Prelude.Table
use haro.Prelude.Table.{Table, put}
use haro.Store.Types.{ExecutionStep, ok}
use haro.Store.State.{FakeStore}
use haro.Store.Steps
use haro.Store.Generations
use haro.Workflow.Cycles.{Edges, deps_of}
use haro.Workflow.Sort.{add_dependents}
use haro.Execution.Action.{
  Action, feedback_too_large, cascade_unfinished, pure, raise, read, write, refuse_if, ◌>>=◌, ◌>>◌,
}
use haro.Execution.Evidence.{TextLibrary, fallback_limit, fallback_evidence, redact}
use haro.Execution.Steps.{transition_step_with_force, resync_execution}

module _ (decode : String → List String) where
  -- The loop over the steps inside `for changed`, with `toReset` and `changed`.
  unfoldable pub sweep : List String → Bool → List ExecutionStep → List String × Bool
  sweep reset changed [] = (reset, changed)
  sweep reset changed (s ∷ steps) =
      let hit = not (mem s.step_id reset) && any (λ d. mem d reset) (decode s.depends_on) in
      sweep (if hit then s.step_id ∷ reset else reset) (changed || hit) steps

  -- `for changed { … }`; `none` where the fuel ran out.
  unfoldable pub spread : ℕ → List String → List ExecutionStep → Option (List String)
  unfolding sweep
  spread zero reset steps = none
  spread (suc fuel) reset steps =
      let (reset', changed) = sweep reset false steps in
      elim changed [ true ↦ spread fuel reset' steps | false ↦ some reset' ]

  -- producesMap
  unfoldable pub fill_produces : Edges → List ExecutionStep → Edges
  fill_produces m [] = m
  fill_produces m (s ∷ steps) = fill_produces (add_dependents m s.step_id (decode s.produces)) steps

  -- requiresMap
  unfoldable pub fill_requires : Edges → List ExecutionStep → Edges
  fill_requires m [] = m
  fill_requires m (s ∷ steps) = fill_requires (put m s.step_id (decode s.requires)) steps

  -- reopenedRequires
  unfoldable pub reopened_requires : String → List ExecutionStep → List String
  reopened_requires step_id [] = []
  reopened_requires step_id (s ∷ steps) =
      let rest = reopened_requires step_id steps in
      if s.step_id == step_id then decode s.requires else rest

-- The loop over the producers of an artifact, with the queue and `feederSet`.
unfoldable pub enlist :
    List String
    → List String
    → Edges
    → List String
    → List String
    → List String
    → List String × List String
enlist reset visited requires queue feeders [] = (queue, feeders)
enlist reset visited requires queue feeders (p ∷ producers) =
    let skip = mem p reset || mem p feeders in
    enlist reset visited requires
      (if skip then queue else queue ++ select (λ art. not (mem art visited)) (deps_of requires p))
      (if skip then feeders else p ∷ feeders) producers

-- `for len(queue) > 0 { … }`; `none` where the fuel ran out.
unfoldable pub feed :
    ℕ → List String → Edges → Edges → List String → List String → List String → Option (List String)
unfolding enlist
feed fuel reset produces requires visited [] feeders = some feeders
feed zero reset produces requires visited (art ∷ queue) feeders = none
feed (suc fuel) reset produces requires visited (art ∷ queue) feeders = elim (mem art visited) [
  | true ↦ feed fuel reset produces requires visited queue feeders
  | false ↦
      let (queue', feeders') =
        enlist reset (art ∷ visited) requires queue feeders (deps_of produces art) in
      feed fuel reset produces requires (art ∷ visited) queue' feeders'
]

-- The artifacts that the steps outside `feeders` require.
unfoldable pub load : Edges → List String → List ExecutionStep → ℕ
load requires feeders [] = 0
load requires feeders (s ∷ steps) =
    (if mem s.step_id feeders then 0 else length (deps_of requires s.step_id))
    + load requires feeders steps

-- toReset[fid] = true
abbrev pub mark_all : List String → List String → List String
mark_all reset [] = reset
mark_all reset (f ∷ feeders) = mark_all (if mem f reset then reset else f ∷ reset) feeders

abbrev pub with_feeders : List String → Option (List String) → Option (List String)
with_feeders reset none = none
with_feeders reset (some feeders) = some (mark_all reset feeders)

module _ (decode : String → List String) where
  -- The second part of the cascade. Each required artifact enters the queue at most once.
  unfoldable pub feed_reset : String → List ExecutionStep → List String → Option (List String)
  unfolding feed load fill_produces fill_requires reopened_requires
  feed_reset step_id steps reset =
      let requires = fill_requires decode [] steps in
      let queue = reopened_requires decode step_id steps in
      with_feeders reset (
        feed (length queue + load requires [] steps) reset (fill_produces decode [] steps) requires
          [] queue [])

  abbrev pub then_feed : String → List ExecutionStep → Option (List String) → Option (List String)
  then_feed step_id steps none = none
  then_feed step_id steps (some reset) = feed_reset step_id steps reset

  -- `toReset`. Each round of the first part but the last adds a step.
  unfoldable pub cascade_set : String → List ExecutionStep → Option (List String)
  unfolding spread feed_reset
  cascade_set step_id steps =
      then_feed step_id steps (spread decode (suc (length steps)) (step_id ∷ []) steps)

  unfoldable pub to_reset : Bool → String → String → Action (List String)
  unfolding cascade_set
  to_reset cascade execution_id step_id s =
      if cascade
      then (elim (cascade_set step_id (Steps.list s execution_id)) [
        | none ↦ raise cascade_unfinished s
        | some reset ↦ pure reset s
      ])
      else pure (step_id ∷ []) s

-- The body of the loop over `stepIDs`.
unfoldable pub reset_step : String → String → String → String → Action Unit
reset_step now execution_id step_id sid = do
  write (λ s. Generations.invalidate_by_step s now execution_id sid step_id)
  cur ← read (λ s. Steps.get s execution_id sid)
  if cur.status == "pending"
      then pure tt
      else transition_step_with_force now execution_id sid cur.status "pending"

unfoldable pub reset_all : String → String → String → List String → Action Unit
reset_all now execution_id step_id [] = pure tt
reset_all now execution_id step_id (sid ∷ sids) =
    reset_step now execution_id step_id sid >> reset_all now execution_id step_id sids

module _ (library : TextLibrary) (decode : String → List String)
    (sort_strings : List String → List String) (text : Bytes → String) where
  -- The last `if feedback != ""`
  unfoldable pub deliver : String → String → Bytes → Action Unit
  deliver execution_id step_id [] = pure tt
  deliver execution_id step_id (c ∷ feedback) =
      write (λ s. Steps.set_pending_feedback s execution_id step_id (some (text (c ∷ feedback))))

  -- The result is the worktree that resyncExecution removes.
  unfoldable pub reopen_step :
      Bool → String → String → String → String → Bool → Bytes → Action (Option String)
  unfolding reset_all to_reset deliver
  reopen_step managed root now execution_id step_id cascade feedback = do
    refuse_if (ltb fallback_limit (length feedback)) feedback_too_large
    read (λ s. Steps.get s execution_id step_id)
    reset ← to_reset decode cascade execution_id step_id
    reset_all now execution_id step_id (sort_strings reset)
    deliver execution_id step_id
        (if is_empty_list feedback then feedback else fallback_evidence (redact library feedback))
    write (λ s.
        let (removed, s') = resync_execution managed root now execution_id s in (ok removed, s'))
