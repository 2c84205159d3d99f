-- ===== src/Store/Integrity/Creation.antt =====
-- Every method that creates a row keeps the integrity of the store.
use haro.Prelude.{String, refl, string_eq, any}
use haro.Prelude.Table
use haro.Prelude.Table.{Each-put, values}
use haro.Store.Types.{Execution, ExecutionStep, Generation, Attempt}
use haro.Store.State.{
  FakeStore, step_key, is_valid_execution_status, is_valid_workspace_mode, is_valid_step_type,
  is_valid_step_status, is_valid_attempt_status,
}
use haro.Store.Projects
use haro.Store.Executions
use haro.Store.Steps
use haro.Store.Generations
use haro.Store.Generations.{has_number}
use haro.Store.Attempts
use haro.Store.Integrity.{Integrity}
use haro.Store.Integrity.Rules.{keeps_guard, keeps_require, Grows-put}
use haro.Store.Integrity.Tables.{
  with_projects-Integrity, with_executions-Integrity, with_steps-Integrity,
  with_generations-Integrity, with_attempts-Integrity,
}

module _ (s : FakeStore) (h : Integrity s) where
  pub projects_create-Integrity :
      (now id root_path : String) → Integrity (Projects.create s now id root_path).1
  unfolding Projects.create
  projects_create-Integrity now id root_path =
      keeps_guard Integrity (Table.has s.projects id) _ s _ h λ fresh.
        with_projects-Integrity s h _ (Each-put s.projects id _ h.projects (record { key = refl }))
          (Grows-put s.projects id _)

  pub executions_create-Integrity :
      (now : String) (e : Execution) → Integrity (Executions.create s now e).1
  unfolding Executions.create
  executions_create-Integrity now e =
      keeps_guard Integrity (Table.has s.executions e.id) _ s _ h λ fresh.
        keeps_require Integrity (Table.has s.projects e.project_id) _ s _ h λ project.
          keeps_require Integrity (is_valid_execution_status e.status) _ s _ h λ status.
            keeps_require Integrity (is_valid_workspace_mode e.workspace_mode) _ s _ h λ mode.
              with_executions-Integrity s h _
                (Each-put s.executions e.id _ h.executions
                  (record { key = refl; project = project; status = status; mode = mode }))
                (Grows-put s.executions e.id _)

  pub steps_create-Integrity : (x : ExecutionStep) → Integrity (Steps.create s x).1
  unfolding Steps.create
  steps_create-Integrity x =
      keeps_guard Integrity (Table.has s.steps (step_key x.execution_id x.step_id)) _ s _ h λ fresh.
        keeps_require Integrity (Table.has s.executions x.execution_id) _ s _ h λ execution.
          keeps_require Integrity (is_valid_step_type x.type) _ s _ h λ type.
            keeps_require Integrity (is_valid_step_status x.status) _ s _ h λ status.
              keeps_require Integrity (is_valid_workspace_mode x.workspace_mode) _ s _ h λ mode.
                with_steps-Integrity s h _
                  (Each-put s.steps _ _ h.steps (record {
                    key = refl;
                    execution = execution;
                    type = type;
                    status = status;
                    mode = mode;
                  }))
                  (Grows-put s.steps _ _)

  pub generations_create-Integrity :
      (now : String) (g : Generation) → Integrity (Generations.create s now g).1
  unfolding Generations.create
  generations_create-Integrity now g =
      keeps_guard Integrity (Table.has s.generations g.id) _ s _ h λ fresh.
        keeps_guard Integrity
          (any (has_number g.execution_id g.step_id g.number) (values s.generations)) _ s _ h
          λ number.
            keeps_require Integrity (Table.has s.steps (step_key g.execution_id g.step_id)) _ s _ h
              λ step.
                with_generations-Integrity s h _
                  (Each-put s.generations g.id _ h.generations (record { key = refl; step = step }))
                  (Grows-put s.generations g.id _)

  pub attempts_create-Integrity :
      (now : String) (a : Attempt) → Integrity (Attempts.create s now a).1
  unfolding Attempts.create
  attempts_create-Integrity now a =
      keeps_guard Integrity (Table.has s.attempts a.id) _ s _ h λ fresh.
        keeps_require Integrity (is_valid_attempt_status a.status) _ s _ h λ status.
          keeps_require Integrity (Table.has s.steps (step_key a.execution_id a.step_id)) _ s _ h
            λ step.
              keeps_require Integrity (Table.has s.generations a.generation_id) _ s _ h
                λ generation.
                  with_attempts-Integrity s h _
                    (Each-put s.attempts a.id _ h.attempts (record {
                      key = refl;
                      step = step;
                      generation = generation;
                      status = status;
                    }))
                    (Grows-put s.attempts a.id _)
