-- ===== src/Workflow/TypeConfigs/Effect.antt =====
-- What the configuration of a task type does (backend/app/services/workflow_service.py).
use tasktrack.Prelude.{
  ℕ, ◌≡◌, refl, sym, ap, ◌∙◌, subst, inl, inr, Bool, true, Option-cases, none, some, List, [], ◌∷◌,
  ◌++◌, ◌==◌, ◌&&◌, arith, first, modify, first_sound, first-append_none, ==_refl,
}
use tasktrack.Model.{Workflow, ProjectTaskTypeConfig, Tables}
use tasktrack.Query.{Context, Error, ok, err, Result-cases, ◌>>=◌}
use tasktrack.Exec.{Session}
use tasktrack.Workflow.{
  find_workflow, get_workflow_or_404, find_type_config, configured_workflow,
  get_workflow_for_task_type,
}
use tasktrack.Workflow.TypeConfigs.{
  checked_config, check_task_type, new_config, replace_config, write_config, set_task_type_workflow,
}

checked_config-ok :
    (ctx : Context) (project_id workflow_id : ℕ) (t : Tables) (wf : Workflow)
    → checked_config ctx project_id workflow_id t ≡ ok wf
    → find_workflow workflow_id t ≡ some wf
unfolding checked_config ◌>>=◌
checked_config-ok ctx project_id workflow_id t wf h = ground arith

set_refused :
    (ctx : Context) (new_id project_id task_type_id workflow_id : ℕ) (s : Session) {e : Error}
    → checked_config ctx project_id workflow_id s.tables ≡ err e
    → set_task_type_workflow ctx new_id project_id task_type_id workflow_id s ≡ (err e, s)
unfolding set_task_type_workflow
set_refused ctx new_id project_id task_type_id workflow_id s h = ground arith

-- A configured type runs on the workflow of its configuration.
configured :
    (project_id task_type_id : ℕ) (u : Tables) (config : ProjectTaskTypeConfig) (wf : Workflow)
    → find_type_config project_id task_type_id u ≡ some config
    → find_workflow config.workflow_id u ≡ some wf
    → get_workflow_for_task_type project_id task_type_id u ≡ ok wf
unfolding get_workflow_for_task_type configured_workflow get_workflow_or_404 ◌>>=◌
configured project_id task_type_id u config wf found stored = ground (arith, found, stored)

changed_effect :
    (ctx : Context) (new_id project_id task_type_id workflow_id : ℕ) (s : Session) (wf : Workflow)
    (old : ProjectTaskTypeConfig)
    → checked_config ctx project_id workflow_id s.tables ≡ ok wf
    → find_type_config project_id task_type_id s.tables ≡ some old
    → let r = set_task_type_workflow ctx new_id project_id task_type_id workflow_id s in
      let config = record old { workflow_id = workflow_id } in
      (r.1.committed.type_configs
        ≡ modify (λ c. c.id == config.id) (λ _. config) s.tables.type_configs)
      × (r.1.committed.workflows ≡ s.tables.workflows)
unfolding set_task_type_workflow write_config replace_config
changed_effect ctx new_id project_id task_type_id workflow_id s wf old h found =
    ground (arith, h, found)

added_effect :
    (ctx : Context) (new_id project_id task_type_id workflow_id : ℕ) (s : Session) (wf : Workflow)
    → checked_config ctx project_id workflow_id s.tables ≡ ok wf
    → find_type_config project_id task_type_id s.tables ≡ none
    → check_task_type task_type_id s.tables ≡ ok tt
    → let r = set_task_type_workflow ctx new_id project_id task_type_id workflow_id s in
      (r.1.committed.type_configs
        ≡ s.tables.type_configs ++ new_config new_id project_id task_type_id workflow_id ∷ [])
      × (r.1.committed.workflows ≡ s.tables.workflows)
unfolding set_task_type_workflow write_config
added_effect ctx new_id project_id task_type_id workflow_id s wf h found known =
    ground (arith, h, found, known)

-- A new configuration is of a task type that is there.
type_known :
    (ctx : Context) (new_id project_id task_type_id workflow_id : ℕ) (s s' : Session)
    (wf : Workflow) (config : ProjectTaskTypeConfig)
    → checked_config ctx project_id workflow_id s.tables ≡ ok wf
    → find_type_config project_id task_type_id s.tables ≡ none
    → set_task_type_workflow ctx new_id project_id task_type_id workflow_id s ≡ (ok config, s')
    → check_task_type task_type_id s.tables ≡ ok tt
unfolding set_task_type_workflow write_config
type_known ctx new_id project_id task_type_id workflow_id s s' wf config passed nothing h =
    ground (arith, passed, nothing)

-- Replacing rows where the query holds on the new one, the first that it reads is the new one or
-- stands before it.
first-modify_matching :
    (p q : ProjectTaskTypeConfig → Bool) (b : ProjectTaskTypeConfig)
    (l : List ProjectTaskTypeConfig) {a : ProjectTaskTypeConfig}
    → first p l ≡ some a
    → q a ≡ true
    → p b ≡ true
    → first p (modify q (λ _. b) l) ≡ some b
unfolding first modify
first-modify_matching p q b [] found at here = absurd (ground (arith, found))
first-modify_matching p q b (x ∷ xs) {a} found at here =
    ground (arith, found, at, here, first-modify_matching p q b xs {a = a})

abbrev is_for : ℕ → ℕ → ProjectTaskTypeConfig → Bool
is_for project_id task_type_id c = c.project_id == project_id && c.task_type_id == task_type_id

first_sole :
    (new_id project_id task_type_id workflow_id : ℕ)
    → let c = new_config new_id project_id task_type_id workflow_id in
      first (is_for project_id task_type_id) (c ∷ []) ≡ some c
unfolding first
first_sole new_id project_id task_type_id workflow_id =
    ground (arith, ==_refl project_id, ==_refl task_type_id)

-- After a setting that passed its checks, the project's configuration for the type is the new one.
config_stored :
    (ctx : Context) (new_id project_id task_type_id workflow_id : ℕ) (s s' : Session)
    (wf : Workflow) (answer : ProjectTaskTypeConfig)
    → checked_config ctx project_id workflow_id s.tables ≡ ok wf
    → set_task_type_workflow ctx new_id project_id task_type_id workflow_id s ≡ (ok answer, s')
    → let r = set_task_type_workflow ctx new_id project_id task_type_id workflow_id s in
      (config : ProjectTaskTypeConfig) × (config.workflow_id ≡ workflow_id)
      × (find_type_config project_id task_type_id r.1.committed ≡ some config)
      × (r.1.committed.workflows ≡ s.tables.workflows)
unfolding find_type_config
config_stored ctx new_id project_id task_type_id workflow_id s s' wf answer passed h =
    let l = s.tables.type_configs in
    let at = is_for project_id task_type_id in
    elim (Option-cases (first at l)) [
      | inl nothing ↦
          let (configs, workflows) =
            added_effect ctx new_id project_id task_type_id workflow_id s wf passed nothing (
              type_known ctx new_id project_id task_type_id workflow_id s s' wf answer passed
                nothing h) in
          let new = new_config new_id project_id task_type_id workflow_id in
          (
            new,
            refl,
            ap (first at) configs
                ∙ first-append_none at l (new ∷ []) nothing
                ∙ first_sole new_id project_id task_type_id workflow_id,
            workflows,
          )
      | inr (old, found) ↦
          let (configs, workflows) =
            changed_effect ctx new_id project_id task_type_id workflow_id s wf old passed found in
          let new = record old { workflow_id = workflow_id } in
          (
            new,
            refl,
            ap (first at) configs
                ∙ first-modify_matching at (λ c. c.id == new.id) new l found (==_refl old.id)
                    (first_sound at l found),
            workflows,
          )
    ]

-- A project that sets the workflow of a task type gets it for its next tasks of this type: from then
-- on the chain of `get_workflow_for_task_type` gives that workflow.
pub set_task_type_workflow-takes_effect :
    (ctx : Context) (new_id project_id task_type_id workflow_id : ℕ) (s s' : Session)
    (config : ProjectTaskTypeConfig)
    → set_task_type_workflow ctx new_id project_id task_type_id workflow_id s ≡ (ok config, s')
    → (wf : Workflow) × (find_workflow workflow_id s.tables ≡ some wf)
      × (get_workflow_for_task_type project_id task_type_id s'.committed ≡ ok wf)
unfolding find_workflow
set_task_type_workflow-takes_effect ctx new_id project_id task_type_id workflow_id s s' config h =
    elim (Result-cases (checked_config ctx project_id workflow_id s.tables)) [
      | inr (e, failed) ↦
          let refused = set_refused ctx new_id project_id task_type_id workflow_id s failed in
          absurd (ground (arith, refused))
      | inl (wf, passed) ↦
          let r = set_task_type_workflow ctx new_id project_id task_type_id workflow_id s in
          let stored = checked_config-ok ctx project_id workflow_id s.tables wf passed in
          let (new, chosen, found, workflows) =
            config_stored ctx new_id project_id task_type_id workflow_id s s' wf config passed h in
          let there =
            subst (λ n. find_workflow n r.1.committed ≡ some wf) (sym chosen)
              (ap (first λ w. w.id == workflow_id) workflows ∙ stored) in
          (
            wf,
            stored,
            subst (λ v. get_workflow_for_task_type project_id task_type_id v.1.committed ≡ ok wf) h
                (configured project_id task_type_id r.1.committed new wf found there),
          )
    ]
