-- ===== src/Tasks/Execution/Course.antt =====
-- The course of ExecuteClaimedTask of src/task/task_runtime.cpp behind the agent's work: the merge
-- request, the verdict and the last report.
use Prim.Native.String.{len}
use kabot.Base.{
  Bool, true, false, not, ◌&&◌, String, Option, none, some, List, [], ◌∷◌, ◌++◌, ltb, empty,
  if◌then◌else◌,
}
use kabot.Base.Int.{pos}
use kabot.Base.Dict.{insert, erase}
use kabot.Bus.{OutboundMessage, ◌<+>◌, or_else}
use kabot.Agents.Memory.{trim}
use kabot.Agents.Loop.Process.{DirectExecutionTarget}
use kabot.Tasks.State.{WaitingTask, build_waiting_key}
use kabot.Tasks.Verification.{RelayTask, execution_log, verify_task_completion, leading}
use kabot.Tasks.Execution.{
  Observed, Ended, answered, threw, Machine, Execution, minus_one, execution_key, project_of,
  branch_of, in_dir, report, write_memory, clear, announce,
}
use kabot.Tasks.Execution.Repository.{
  merge_request_url, project_url, project_dir, run, running, prepare_repository, observe,
}

module _ {S : Type 0} (local_agent : String) (task : RelayTask) (m : Machine S)
    (workspace : String) where
  abbrev pub commit_message : String
  commit_message = "kabot: " <+> task.title <+> " [task-" <+> task.task_id <+> "]"

  abbrev pub merge_command : String
  merge_command =
      "(glab mr create --source-branch "
      <+> branch_of task
      <+> " --target-branch main --title \""
      <+> task.title
      <+> "\" --description \"Automated MR from kabot task "
      <+> task.task_id
      <+> "\" 2>&1 || gh pr create --head "
      <+> branch_of task
      <+> " --base main --title \""
      <+> task.title
      <+> "\" --body \"Automated PR from kabot task "
      <+> task.task_id
      <+> "\" 2>&1)"

  abbrev pub noted : String → Execution S → Execution S
  noted goal e = running local_agent task m workspace goal e

  abbrev pub shell : String → Execution S → Execution S
  shell command e =
      run local_agent task m workspace (in_dir (project_dir local_agent task m workspace) command) e

  -- 3.1 to 3.5, with the merge request that was opened.
  unfoldable pub publish : Execution S → Execution S × Option (String × String)
  unfolding merge_request_url write_memory
  publish e =
      let dir = project_dir local_agent task m workspace in
      let (s, status) = m.run_command (in_dir dir "git status --porcelain") e.rest in
      if empty (trim status)
      then (noted "[git] No changes to commit" (record e { rest = s }), none)
      else let committed = noted ("[git] Committed changes with message: " <+> commit_message) (
          shell ("git add -A && git commit -m \"" <+> commit_message <+> "\"")
            (record e { rest = s })) in
        let pushed =
          noted ("[git] Pushed branch " <+> branch_of task)
            (shell ("git push origin " <+> branch_of task) committed) in
        let (s', output) = m.run_command (in_dir dir merge_command) pushed.rest in
        let asked : Execution S = record pushed { rest = s' } in
        elim (merge_request_url output) [
          | none ↦ (noted ("[git] MR creation failed: " <+> output) asked, none)
          | some url ↦ (noted ("[git] Created MR: " <+> url) asked, some (url, m.now))
        ]

  -- Step 3: an exception of the verifier lets the task complete.
  unfoldable pub verify : String → Execution S → Execution S × Bool × String
  unfolding verify_task_completion execution_log
  verify result e = elim (m.session_messages (execution_key local_agent task) e.rest) [
    | none ↦ (e, true, "Verification error: " <+> m.what e.rest)
    | some messages ↦
        let (s, verdict) =
          verify_task_completion m.verifier (execution_key local_agent task) task.instruction result
            (execution_log m.to_string 1 messages) e.rest in
        let checked : Execution S = record e { rest = s } in
        elim verdict [
          | none ↦ (checked, true, "Verification error: " <+> m.what s)
          | some (passed, reason) ↦ (checked, passed, reason)
        ]
  ]

  -- The report of a completed task, with its merge request.
  unfoldable pub complete : String → Option (String × String) → Execution S → Execution S
  unfolding write_memory
  complete result request e =
      write_memory local_agent task "completed" "Task finished successfully"
        (if ltb 200 (len result) then leading 197 result <+> "..." else result)
        (record e {
          reports =
              e.reports
              ++ record {
                task_id = task.task_id;
                status = "completed";
                message =
                    "Task "
                    <+> task.task_id
                    <+> " finished successfully"
                    <+> (if empty (project_of task)
                        then ""
                        else " for project " <+> project_of task)
                    <+> elim request [ none ↦ "" | some (url, created) ↦ ". MR: " <+> url ];
                progress = pos 100;
                session_key = execution_key local_agent task;
                result = result;
                error = "";
                merge_request = request;
              }
                ∷ [];
        })

  unfoldable pub fail : String → String → String → Execution S → Execution S
  unfolding report write_memory
  fail message goal error e =
      write_memory local_agent task "failed" goal error
        (report local_agent task "failed" message minus_one "" error e)

  -- The verdict and the last report.
  unfoldable pub conclude : String → Option (String × String) → Execution S → Execution S
  unfolding verify complete fail clear
  conclude result request e =
      let (checked, passed, reason) = verify result e in
      if passed
      then complete result request (clear local_agent task checked)
      else fail ("Task " <+> task.task_id <+> " failed verification: " <+> reason)
          "Task failed verification" reason (clear local_agent task checked)

  -- The task waits for the user of the message that asked.
  unfoldable pub wait_for_user : OutboundMessage → Execution S → Execution S
  unfolding report
  wait_for_user out e =
      let waiting_task : WaitingTask = record {
        task_id = task.task_id;
        local_agent = local_agent;
        session_key = execution_key local_agent task;
        question = out.content;
        channel = out.channel;
        channel_instance = or_else out.channel_instance out.channel;
        chat_id = out.chat_id;
        reply_to = task.reply_to;
        agent_name = local_agent;
        updated_at = m.now;
      } in
      report local_agent task "waiting_user"
        (or_else out.content ("Waiting for user input on task " <+> task.task_id)) (pos 50) "" ""
        (record e {
          runtime = record e.runtime {
            waiting_tasks =
                insert
                  (build_waiting_key waiting_task.channel_instance local_agent waiting_task.chat_id)
                  waiting_task e.runtime.waiting_tasks;
            active_tasks = erase local_agent e.runtime.active_tasks;
          };
        })

  -- The two handlers of exceptions.
  unfoldable pub handle_exception : Option String → Execution S → Execution S
  unfolding fail clear report write_memory
  handle_exception text e =
      let cleared = clear local_agent task e in
      let cancelled = m.is_cancelled e.rest in
      let because : String = elim text [ none ↦ "unknown task runtime error" | some w ↦ w ] in
      let error : String = if cancelled then "task cancelled by timeout" else because in
      write_memory local_agent task "failed"
        (if cancelled
          then "Task cancelled by timeout"
          else elim text [ none ↦ "Task failed with unknown error" | some w ↦ "Task failed" ])
        (elim text [ none ↦ "" | some w ↦ error ])
        (report local_agent task "failed"
          ("Task "
            <+> task.task_id
            <+> (if cancelled then " cancelled after timeout" else " failed because " <+> because))
          minus_one "" error cleared)

  -- Behind the agent's work.
  unfoldable pub settle : Bool → Option OutboundMessage → Ended → Execution S → Execution S
  unfolding publish conclude wait_for_user handle_exception
  settle has_git_workflow waiting (threw text) e = handle_exception text e
  settle has_git_workflow waiting (answered result) e =
      let done : Execution S =
        if has_git_workflow
        then (let (published, request) = publish e in conclude result request published)
        else conclude result none e in
      elim waiting [
        | none ↦ done
        | some out ↦ if empty out.chat_id then done else wait_for_user out e
      ]

  -- What the observers saw, then how the work ended.
  unfoldable pub follow : Bool → S × List Observed × Ended → Execution S → Execution S
  unfolding settle observe
  follow has_git_workflow (s, seen, ended) e =
      let (watched, waiting) =
        observe local_agent task m workspace seen (record e { rest = s }) none in
      settle has_git_workflow waiting ended watched

  abbrev pub target : Bool → DirectExecutionTarget
  target has_git_workflow = record {
    channel = task.channel;
    channel_instance = task.channel_instance;
    chat_id = task.chat_id;
    working_directory = if has_git_workflow then project_dir local_agent task m workspace else "";
    upstream_merge_request = task.merge_request;
  }

  unfoldable pub work : Bool → Execution S → Execution S
  unfolding follow
  work has_git_workflow e =
      follow has_git_workflow
        (m.process_direct task.instruction (execution_key local_agent task)
          (target has_git_workflow) e.rest)
        e

  -- The work, unless the clone failed.
  unfoldable pub work_on : Execution S × Bool → Execution S
  unfolding work
  work_on (prepared, true) = work true prepared
  work_on (prepared, false) = prepared

  unfoldable pub execute_claimed_task : Execution S → Execution S
  unfolding work_on prepare_repository announce project_url
  execute_claimed_task e =
      let (s, url) = project_url local_agent task m workspace e.rest in
      let announced = announce local_agent task url (record e { rest = s }) in
      if not (empty url) && not (empty (project_of task))
      then work_on (prepare_repository local_agent task m workspace url announced)
      else work false announced
