-- ===== src/Tasks/Execution/Finals.antt =====
-- The reports of src/task/task_runtime.cpp that end a task, and the steps that report no end.
use text.Mathlib.TextPositions.{eq_refl}
use kabot.Base.{
  ℕ, suc, ◌+◌, true, false, String, Option, none, some, List, [], ◌∷◌, ◌++◌, ◌≡◌, refl, ◌∙◌, arith,
  inl, inr, Bool-cases, member, if◌then◌else◌,
}
use kabot.Base.Dict.{Dict, lookup, erase, lookup-erase}
use kabot.Bus.{OutboundMessage}
use kabot.Agents.Loop.{received, processing, calling_tools, replying}
use kabot.Tasks.Questions.{should_wait_for_user}
use kabot.Tasks.Verification.{RelayTask}
use kabot.Tasks.Execution.{
  Report, Observed, phase_changed, sent, Machine, Execution, final_statuses, report, write_memory,
  announce,
}
use kabot.Tasks.Execution.Repository.{update_gitignore, create_branch, observe}

-- The reports whose status ends a task.
unfoldable pub finals : List Report → ℕ
finals [] = 0
finals (r ∷ reports) = (if member r.status final_statuses then 1 else 0) + finals reports

finals-append : (xs ys : List Report) → finals (xs ++ ys) ≡ finals xs + finals ys
unfolding finals
finals-append [] ys = omega arith
finals-append (x ∷ xs) ys = ground (arith, finals-append xs ys)

pub erased : {V : Type 0} (k : String) (m : Dict V) → lookup k (erase k m) ≡ none
erased k m = ground (arith, lookup-erase k k m, eq_refl k)

-- A report that ends nothing, behind others.
finals-other :
    (reports : List Report) (r : Report)
    → member r.status final_statuses ≡ false
    → finals (reports ++ r ∷ []) ≡ finals reports
unfolding finals
finals-other reports r h = ground (arith, finals-append reports (r ∷ []))

-- A report that ends the task, behind others.
pub finals-last :
    (reports : List Report) (r : Report)
    → member r.status final_statuses ≡ true
    → finals (reports ++ r ∷ []) ≡ suc (finals reports)
unfolding finals
finals-last reports r h = ground (arith, finals-append reports (r ∷ []))

module _ {S : Type 0} (local_agent : String) (task : RelayTask) where
  module _ (m : Machine S) (workspace : String) where
    pub finals-announce :
        (url : String) (e : Execution S)
        → finals (announce local_agent task url e).reports ≡ finals e.reports
    unfolding announce write_memory report
    finals-announce url e = finals-other _ _ refl ∙ finals-other _ _ refl

    pub update_gitignore-reports :
        (e : Execution S) → (update_gitignore local_agent task m workspace e).reports ≡ e.reports
    unfolding update_gitignore
    update_gitignore-reports e = ground arith

    pub create_branch-reports :
        (e : Execution S) → (create_branch local_agent task m workspace e).reports ≡ e.reports
    unfolding create_branch write_memory
    create_branch-reports e = ground arith

    pub finals-observe :
        (seen : List Observed) (e : Execution S) (waiting : Option OutboundMessage)
        → finals (observe local_agent task m workspace seen e waiting).0.reports ≡ finals e.reports
    unfolding observe write_memory report
    finals-observe [] e waiting = refl
    finals-observe (phase_changed calling_tools ∷ seen) e waiting =
        finals-observe seen _ waiting ∙ finals-other _ _ refl
    finals-observe (phase_changed received ∷ seen) e waiting =
        finals-observe seen _ waiting ∙ finals-other _ _ refl
    finals-observe (phase_changed processing ∷ seen) e waiting =
        finals-observe seen _ waiting ∙ finals-other _ _ refl
    finals-observe (phase_changed replying ∷ seen) e waiting =
        finals-observe seen _ waiting ∙ finals-other _ _ refl
    finals-observe (sent out ∷ seen) e waiting =
        elim (Bool-cases (should_wait_for_user out.channel out.chat_id out.content)) [
          | inl w ↦ rw (observe, w) (finals-observe seen _ (some out))
          | inr w ↦ rw (observe, w) (finals-observe seen e waiting)
        ]
