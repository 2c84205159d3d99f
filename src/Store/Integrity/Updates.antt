-- ===== src/Store/Integrity/Updates.antt =====
-- Every method that changes a row of an execution, a step, an attempt or a generation keeps the
-- integrity of the store.
use haro.Prelude.{ℕ, String, Option, string_eq, arith}
use haro.Prelude.Table
use haro.Prelude.Table.{Each-put, Each-update_all}
use haro.Store.Types.{ExecutionStep, Generation}
use haro.Store.State.{
  FakeStore, step_key, is_valid_execution_status, is_valid_step_status, is_valid_attempt_status,
}
use haro.Store.Executions
use haro.Store.Steps
use haro.Store.Attempts
use haro.Store.Generations
use haro.Store.Generations.{invalidate}
use haro.Store.Integrity.{Integrity, StepRow, GenerationRow}
use haro.Store.Integrity.Rules.{keeps_require, keeps_found, Grows-put, Grows-update_all}
use haro.Store.Integrity.Tables.{
  with_executions-Integrity, with_steps-Integrity, with_attempts-Integrity,
  with_generations-Integrity,
}

module _ (s : FakeStore) (h : Integrity s) where
  pub executions_update_status-Integrity :
      (now id status : String) → Integrity (Executions.update_status s now id status).1
  unfolding Executions.update_status
  executions_update_status-Integrity now id status =
      keeps_found Integrity (Table.get s.executions id) _ s _ h λ e found.
        keeps_require Integrity (is_valid_execution_status status) _ s _ h λ valid.
          let r = h.executions.at id e found in
          with_executions-Integrity s h _
            (Each-put s.executions id _ h.executions
              (record { key = r.key; project = r.project; status = valid; mode = r.mode }))
            (Grows-put s.executions id _)

  pub attempts_update_status-Integrity :
      (now id status : String) (ended_at term digest : Option String)
      → Integrity (Attempts.update_status s now id status ended_at term digest).1
  unfolding Attempts.update_status
  attempts_update_status-Integrity now id status ended_at term digest =
      keeps_require Integrity (is_valid_attempt_status status) _ s _ h λ valid.
        keeps_found Integrity (Table.get s.attempts id) _ s _ h λ a found.
          let r = h.attempts.at id a found in
          with_attempts-Integrity s h _
            (Each-put s.attempts id _ h.attempts
              (record { key = r.key; step = r.step; generation = r.generation; status = valid }))
            (Grows-put s.attempts id _)

  modify-Integrity :
      (k : String) (f : ExecutionStep → ExecutionStep)
      → ((x : ExecutionStep) → StepRow s.executions k x → StepRow s.executions k (f x))
      → Integrity (Steps.modify s k f).1
  modify-Integrity k f keep = keeps_found Integrity (Table.get s.steps k) _ s _ h λ x found.
      with_steps-Integrity s h _ (Each-put s.steps k _ h.steps (keep x (h.steps.at k x found)))
        (Grows-put s.steps k _)

  pub steps_update_status-Integrity :
      (exec_id step_id status : String) → Integrity (Steps.update_status s exec_id step_id status).1
  unfolding Steps.update_status
  steps_update_status-Integrity exec_id step_id status =
      keeps_require Integrity (is_valid_step_status status) _ s _ h λ valid.
        modify-Integrity (step_key exec_id step_id) _ λ x r. record {
          key = r.key;
          execution = r.execution;
          type = r.type;
          status = valid;
          mode = r.mode;
        }

  pub steps_update_generation-Integrity :
      (exec_id step_id : String) (gen : ℕ)
      → Integrity (Steps.update_generation s exec_id step_id gen).1
  unfolding Steps.update_generation
  steps_update_generation-Integrity exec_id step_id gen =
      modify-Integrity (step_key exec_id step_id) _ λ x r. record {
        key = r.key;
        execution = r.execution;
        type = r.type;
        status = r.status;
        mode = r.mode;
      }

  pub steps_set_pending_feedback-Integrity :
      (exec_id step_id : String) (feedback : Option String)
      → Integrity (Steps.set_pending_feedback s exec_id step_id feedback).1
  unfolding Steps.set_pending_feedback
  steps_set_pending_feedback-Integrity exec_id step_id feedback =
      modify-Integrity (step_key exec_id step_id) _ λ x r. record {
        key = r.key;
        execution = r.execution;
        type = r.type;
        status = r.status;
        mode = r.mode;
      }

-- `invalidate` changes neither the key nor the step.
pub invalidate-GenerationRow :
    (now exec_id step_id by : String) (steps : Table.Table String ExecutionStep) (k : String)
    (g : Generation)
    → GenerationRow steps k g
    → GenerationRow steps k (invalidate now exec_id step_id by g)
unfolding invalidate
invalidate-GenerationRow now exec_id step_id by steps k g r = record {
  key = ground (arith, r.key);
  step = ground (arith, r.step);
}

pub generations_invalidate_by_step-Integrity :
    (s : FakeStore) (h : Integrity s) (now exec_id step_id by : String)
    → Integrity (Generations.invalidate_by_step s now exec_id step_id by).1
unfolding Generations.invalidate_by_step
generations_invalidate_by_step-Integrity s h now exec_id step_id by =
    with_generations-Integrity s h _
      (Each-update_all _ s.generations h.generations
        (invalidate-GenerationRow now exec_id step_id by s.steps))
      (Grows-update_all _ s.generations)
