-- ===== src/Tasks/Execution/Final.antt =====
-- How src/task/task_runtime.cpp ends a claimed task.
use kabot.Base.{
  suc, Bool, true, false, not, ◌&&◌, String, Option, none, some, List, ◌≡◌, refl, ◌∙◌, ap, arith,
  inl, inr, Bool-cases, empty, if◌then◌else◌,
}
use kabot.Base.Dict.{lookup}
use kabot.Bus.{OutboundMessage, ◌<+>◌}
use kabot.Tasks.State.{clear_active_task}
use kabot.Tasks.Verification.{RelayTask, verify_task_completion}
use kabot.Tasks.Execution.{
  Observed, Ended, answered, threw, Machine, Execution, report, write_memory, clear, announce,
  project_of, execution_key,
}
use kabot.Tasks.Execution.Repository.{
  project_url, project_dir, after_clone, prepare_repository, observe,
}
use kabot.Tasks.Execution.Course.{
  publish, verify, complete, fail, conclude, wait_for_user, handle_exception, target, settle,
  follow, work_on, work, execute_claimed_task,
}
use kabot.Tasks.Execution.Finals.{
  finals, finals-last, erased, finals-announce, update_gitignore-reports, create_branch-reports,
  finals-observe,
}

module _ {S : Type 0} (local_agent : String) (task : RelayTask) where
  module _ (m : Machine S) (workspace : String) where
    -- How the state `e` is closed by `e'`: one report more that ends a task, and no active task.
    pub record Closes (e e' : Execution S) : Type 0 where
      pub one : finals e'.reports ≡ suc (finals e.reports)
      pub cleared : lookup local_agent e'.runtime.active_tasks ≡ none

    publish-reports :
        (e : Execution S) → (publish local_agent task m workspace e).0.reports ≡ e.reports
    unfolding publish write_memory
    publish-reports e = ground arith

    verify-reports :
        (result : String) (e : Execution S)
        → (verify local_agent task m workspace result e).0.reports ≡ e.reports
    unfolding verify verify_task_completion
    verify-reports result e = ground arith

    clear-lookup :
        (e : Execution S)
        → lookup local_agent (clear local_agent task e).runtime.active_tasks ≡ none
    unfolding clear clear_active_task
    clear-lookup e = erased local_agent e.runtime.active_tasks

    wait_for_user-Closes :
        (out : OutboundMessage) (e : Execution S)
        → Closes e (wait_for_user local_agent task m workspace out e)
    unfolding wait_for_user report
    wait_for_user-Closes out e = record {
      one = finals-last _ _ refl;
      cleared = erased local_agent e.runtime.active_tasks;
    }

    handle_exception-Closes :
        (text : Option String) (e : Execution S)
        → Closes e (handle_exception local_agent task m workspace text e)
    unfolding handle_exception report write_memory clear clear_active_task
    handle_exception-Closes text e = record {
      one = finals-last _ _ refl;
      cleared = erased local_agent e.runtime.active_tasks;
    }

    conclude-Closes :
        (result : String) (request : Option (String × String)) (e : Execution S)
        → Closes e (conclude local_agent task m workspace result request e)
    unfolding conclude complete fail write_memory report
    conclude-Closes result request e =
        elim (Bool-cases (verify local_agent task m workspace result e).1) [
          | inl p ↦
              rw (conclude, p)
                (record {
                  one = finals-last _ _ refl ∙ ap (λ rs. suc (finals rs)) (verify-reports result e);
                  cleared = clear-lookup (verify local_agent task m workspace result e).0;
                })
          | inr p ↦
              rw (conclude, p)
                (record {
                  one = finals-last _ _ refl ∙ ap (λ rs. suc (finals rs)) (verify-reports result e);
                  cleared = clear-lookup (verify local_agent task m workspace result e).0;
                })
        ]

    Closes-from :
        (e f g : Execution S) → finals f.reports ≡ finals e.reports → Closes f g → Closes e g
    Closes-from e f g h c = record { one = c.one ∙ ap suc h; cleared = c.cleared }

    done-Closes :
        (has_git_workflow : Bool) (result : String) (e : Execution S)
        → Closes e (
            if has_git_workflow
            then (let (published, request) = publish local_agent task m workspace e in
                conclude local_agent task m workspace result request published)
            else conclude local_agent task m workspace result none e)
    done-Closes true result e =
        Closes-from e (publish local_agent task m workspace e).0 _ (ap finals (publish-reports e)) (
          conclude-Closes result (publish local_agent task m workspace e).1
            (publish local_agent task m workspace e).0)
    done-Closes false result e = conclude-Closes result none e

    pub settle-Closes :
        (has_git_workflow : Bool) (waiting : Option OutboundMessage) (ended : Ended)
        (e : Execution S)
        → Closes e (settle local_agent task m workspace has_git_workflow waiting ended e)
    unfolding settle
    settle-Closes has_git_workflow waiting (threw text) e = handle_exception-Closes text e
    settle-Closes has_git_workflow none (answered result) e = done-Closes has_git_workflow result e
    settle-Closes has_git_workflow (some out) (answered result) e =
        elim (Bool-cases (empty out.chat_id)) [
          | inl c ↦ rw (settle, c) (done-Closes has_git_workflow result e)
          | inr c ↦ rw (settle, c) (wait_for_user-Closes out e)
        ]

    follow-Closes :
        (has_git_workflow : Bool) (done : S × List Observed × Ended) (e : Execution S)
        → Closes e (follow local_agent task m workspace has_git_workflow done e)
    unfolding follow
    follow-Closes has_git_workflow (s, seen, ended) e =
        let watched = observe local_agent task m workspace seen (record e { rest = s }) none in
        Closes-from e watched.0 _
          (finals-observe local_agent task m workspace seen (record e { rest = s }) none)
          (settle-Closes has_git_workflow watched.1 ended watched.0)

    work-Closes :
        (has_git_workflow : Bool) (e : Execution S)
        → Closes e (work local_agent task m workspace has_git_workflow e)
    unfolding work
    work-Closes has_git_workflow e =
        follow-Closes has_git_workflow
          (m.process_direct task.instruction (execution_key local_agent task)
            (target local_agent task m workspace has_git_workflow) e.rest)
          e

    after_clone-Closes :
        (url : String) (r : S × String) (e : Execution S)
        → Closes e (
            work_on local_agent task m workspace (after_clone local_agent task m workspace url r e))
    unfolding after_clone work_on clear report write_memory clear_active_task
    after_clone-Closes url (s, output) e =
        elim (Bool-cases (m.has_git (project_dir local_agent task m workspace) s)) [
          | inl g ↦
              rw (after_clone, g)
                (Closes-from e _ _
                  (ap finals (
                    create_branch-reports local_agent task m workspace _
                    ∙ update_gitignore-reports local_agent task m workspace _))
                  (work-Closes true _))
          | inr g ↦
              rw (after_clone, g)
                (record {
                  one = finals-last _ _ refl;
                  cleared = erased local_agent e.runtime.active_tasks;
                })
        ]

    made_directories :
        (url : String) (e : Execution S)
        → ((s : S) → (m.create_directories (workspace <+> "/projects") s).1 ≡ true)
        → Closes e (
            work_on local_agent task m workspace
              (prepare_repository local_agent task m workspace url e))
    unfolding prepare_repository
    made_directories url e makes =
        rw (prepare_repository, makes e.rest) (after_clone-Closes url _ e)

    -- Where the directory of the projects can be created and the thread that watches the time does not abandon the
    -- task, a claimed task gets exactly one report that ends it, completed, failed or waiting for the user, however
    -- the repository is prepared and the agent's work ends, and the agent has no active task afterwards.
    pub execute_claimed_task-Closes :
        (e : Execution S)
        → ((s : S) → (m.create_directories (workspace <+> "/projects") s).1 ≡ true)
        → Closes e (execute_claimed_task local_agent task m workspace e)
    unfolding execute_claimed_task
    execute_claimed_task-Closes e makes =
        let asked = project_url local_agent task m workspace e.rest in
        let announced = announce local_agent task asked.1 (record e { rest = asked.0 }) in
        Closes-from e announced _
          (finals-announce local_agent task m workspace asked.1 (record e { rest = asked.0 }))
          (elim (Bool-cases (not (empty asked.1) && not (empty (project_of task)))) [
            | inl g ↦ rw (execute_claimed_task, g) (made_directories asked.1 announced makes)
            | inr g ↦ rw (execute_claimed_task, g) (work-Closes false announced)
          ])
