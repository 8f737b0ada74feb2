-- ===== src/Tasks/Execution/Repository.antt =====
-- The repository of a task in ExecuteClaimedTask of src/task/task_runtime.cpp: its clone, its .gitignore and its
-- branch; and the two observers of the agent's work.
use Prim.Native.String.{len, slice}
use kabot.Base.{
  Bool, true, false, not, ◌&&◌, String, Option, none, some, List, [], ◌∷◌, empty, find?, is_some,
  if◌then◌else◌,
}
use kabot.Bus.{OutboundMessage, ◌<+>◌}
use kabot.Agents.Loop.{phase_summary, calling_tools, received, processing, replying}
use kabot.Agents.Loop.Process.{is_blank}
use kabot.Tasks.Questions.{should_wait_for_user}
use kabot.Tasks.Verification.{RelayTask}
use kabot.Tasks.Execution.{
  Observed, phase_changed, sent, Machine, Execution, minus_one, project_of, branch_of, in_dir,
  report, write_memory, clear,
}

abbrev pub required_patterns : List String
required_patterns =
    "build/" ∷ "*.exe" ∷ "*.tmp" ∷ ".env" ∷ ".vscode/" ∷ ".idea/" ∷ "*.log" ∷ "node_modules/"
    ∷ "__pycache__/" ∷ ".DS_Store" ∷ "Thumbs.db" ∷ []

-- patterns_to_add
unfoldable pub missing_patterns : String → List String → String
missing_patterns content [] = ""
missing_patterns content (pattern ∷ patterns) =
    (if is_some (find? content pattern) then "" else pattern <+> "\n")
    <+> missing_patterns content patterns

-- The text in front of the first of the four blanks.
unfoldable pub up_to_blank : String → String
up_to_blank String.[] = ""
up_to_blank (String.◌∷◌ c s) =
    let rest = up_to_blank s in if is_blank c then "" else String.◌∷◌ c rest

-- The URL in the answer of the command that opens the merge request.
unfoldable pub merge_request_url : String → Option String
unfolding up_to_blank
merge_request_url output = elim (find? output "http") [
  | none ↦ none
  | some i ↦ some (up_to_blank (slice output i (len output)))
]

module _ {S : Type 0} (local_agent : String) (task : RelayTask) where
  module _ (m : Machine S) (workspace : String) where
    -- The URL of the project, asked for where the task has none.
    unfoldable pub project_url : S → S × String
    project_url s =
        if not (empty task.project_id) && empty task.project_git_url
        then (let (s', url) = m.query_git_url task.project_id s in
            (s', elim url [ none ↦ "" | some text ↦ text ]))
        else (s, task.project_git_url)

    abbrev pub project_dir : String
    project_dir = workspace <+> "/projects/" <+> project_of task

    -- A command whose output nobody reads.
    abbrev pub run : String → Execution S → Execution S
    run command e = record e { rest = (m.run_command command e.rest).0 }

    abbrev pub running : String → Execution S → Execution S
    running goal e = write_memory local_agent task "running" goal "" e

    -- 2.4 and 2.5
    unfoldable pub update_gitignore : Execution S → Execution S
    unfolding missing_patterns
    update_gitignore e =
        let path = project_dir <+> "/.gitignore" in
        let patterns = missing_patterns (m.read_file path e.rest) required_patterns in
        if empty patterns
        then e
        else let (s, opened) =
            m.append_file path ("\n# Added by kabot agent\n" <+> patterns) e.rest in
          if opened
          then run
              (in_dir project_dir
                "git add .gitignore && git commit -m \"chore: update .gitignore\"")
              (record e { rest = s })
          else record e { rest = s }

    -- 2.6 and 2.7
    unfoldable pub create_branch : Execution S → Execution S
    unfolding write_memory
    create_branch e =
        let (s, output) =
          m.run_command (in_dir project_dir ("git checkout -b " <+> branch_of task <+> " 2>&1"))
            e.rest in
        let created =
          running ("[git] Created branch " <+> branch_of task) (record e { rest = s }) in
        if is_some (find? output "already exists")
        then running ("[git] Reset existing branch " <+> branch_of task) (
            run
              (in_dir project_dir
                ("git checkout " <+> branch_of task <+> " && git reset --hard HEAD"))
              created)
        else created

    -- Behind the clone, given the shell's answer; false where it failed, which ends the task.
    unfoldable pub after_clone : String → S × String → Execution S → Execution S × Bool
    unfolding update_gitignore create_branch write_memory report clear
    after_clone url (s, output) e =
        if m.has_git project_dir s
        then (
          create_branch (
              update_gitignore (
                running ("[git] Cloned " <+> url <+> " to " <+> project_dir)
                  (record e { rest = s }))),
          true,
        )
        else (
          clear local_agent task (
              report local_agent task "failed" ("Failed to clone repository: " <+> output) minus_one
                "" ""
                (write_memory local_agent task "failed" ("[git] Clone failed: " <+> output) ""
                  (record e { rest = s }))),
          false,
        )

    -- False also where an exception of create_directories leaves ExecuteClaimedTask.
    unfoldable pub prepare_repository : String → Execution S → Execution S × Bool
    unfolding after_clone
    prepare_repository url e =
        let (s, made) = m.create_directories (workspace <+> "/projects") e.rest in
        if made
        then after_clone url
            (m.run_command
              ("git clone --depth 1 \"" <+> url <+> "\" \"" <+> project_dir <+> "\" 2>&1") s)
            e
        else (record e { rest = s }, false)

    -- The two observers, with the question that waits for the user.
    unfoldable pub observe :
        List Observed → Execution S → Option OutboundMessage → Execution S × Option OutboundMessage
    unfolding report write_memory should_wait_for_user
    observe [] e waiting = (e, waiting)
    observe (phase_changed phase ∷ seen) e waiting =
        let told = report local_agent task "running" (phase_summary phase) minus_one "" "" e in
        observe seen
          (elim phase [
            | calling_tools ↦ running "Calling tools to process task" told
            | received ↦ told
            | processing ↦ told
            | replying ↦ told
          ])
          waiting
    observe (sent out ∷ seen) e waiting =
        elim (should_wait_for_user out.channel out.chat_id out.content) [
          | false ↦ observe seen e waiting
          | true ↦
              observe seen
                (write_memory local_agent task "waiting_user"
                  ("Waiting for user input: " <+> out.content) "" e)
                (some out)
        ]
