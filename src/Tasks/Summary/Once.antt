-- ===== src/Tasks/Summary/Once.antt =====
-- How often the summary of a day is uploaded: HandleDailySummaryCron of src/task/task_runtime.cpp.
use kabot.Base.{
  ℕ, ◌+◌, ◌≤◌, Bool, true, false, not, ◌&&◌, String, Option, none, some, List, [], ◌∷◌, ◌≡◌, refl,
  str_eq, empty, if◌then◌else◌, arith, inl, inr, eq_iff, subst, ◌⊎◌, ◌∙◌,
}
use kabot.Base.Dict.{lookup, lookup-insert}
use kabot.Tasks.State.{TaskRuntime}
use kabot.Tasks.Summary.{
  UploadResult, Day, set_record, upload_record, is_uploaded, skipped, handle_daily_summary_cron,
  Handled, check_summary, record_summary,
}

-- A call that no other thread interrupts.
abbrev pub alone : TaskRuntime → String → Day → Handled
alone r a d = handle_daily_summary_cron (λ r'. r') r a d

-- Whether the handler uploaded the summary with success.
abbrev pub succeeded : Option UploadResult → ℕ
succeeded none = 0
succeeded (some result) = if result.success then 1 else 0

-- The successful uploads of an agent's calls, one after the other.
abbrev pub uploads : TaskRuntime → String → List Day → ℕ
uploads r a [] = 0
uploads r a (d ∷ days) = succeeded (alone r a d).uploaded + uploads (alone r a d).runtime a days

-- Every call is on the same day and finds something in the memory.
abbrev pub all_on : String → List Day → Bool
all_on today [] = true
all_on today (d ∷ days) = str_eq d.today today && not (empty d.memory) && all_on today days

upload-is_uploaded :
    (r : TaskRuntime) (a : String) (d : Day)
    → d.upload.success ≡ true
    → is_uploaded (set_record r a (upload_record d)) a d.today ≡ true
unfolding is_uploaded set_record upload_record
upload-is_uploaded r a d ok =
    let stands : lookup a (set_record r a (upload_record d)).daily_summary_records
        ≡ some (upload_record d) =
      lookup-insert a a (upload_record d) r.daily_summary_records ∙ rw ((eq_iff a a).1 refl) refl in
    rw (stands, is_uploaded, upload_record, ok, (eq_iff d.today d.today).1 refl) refl

first_handle :
    (r : TaskRuntime) (a : String) (d : Day)
    → (succeeded (alone r a d).uploaded ≡ 0)
      ⊎ (succeeded (alone r a d).uploaded ≡ 1)
        × (is_uploaded (alone r a d).runtime a d.today ≡ true)
unfolding handle_daily_summary_cron check_summary record_summary skipped
first_handle r a d = ground (arith, upload-is_uploaded r a d)

-- Once the summary of the day is uploaded, no call on that day uploads or changes it.
uploaded-handle :
    (r : TaskRuntime) (a : String) (d : Day)
    → is_uploaded r a d.today ≡ true
    → empty d.memory ≡ false
    → (succeeded (alone r a d).uploaded ≡ 0) × ((alone r a d).runtime ≡ r)
unfolding handle_daily_summary_cron check_summary record_summary skipped
uploaded-handle r a d done full = ground (arith, done, full)

done-uploads :
    (r : TaskRuntime) (a today : String) (days : List Day)
    → is_uploaded r a today ≡ true
    → all_on today days ≡ true
    → uploads r a days ≡ 0
done-uploads r a today [] done h = refl
done-uploads r a today (d ∷ days) done h =
    let same : d.today ≡ today = (eq_iff d.today today).0 (ground (arith, h)) in
    let kept = uploaded-handle r a d (rw same done) (ground (arith, h)) in
    rw (kept.0, kept.1) (ground (arith, done-uploads r a today days done (ground (arith, h))))

-- Over calls on one day that find something in the memory and follow each other, with no other thread changing the state
-- while a call uploads, at most one upload succeeds.
pub uploads-le :
    (r : TaskRuntime) (a today : String) (days : List Day)
    → all_on today days ≡ true
    → uploads r a days ≤ 1
uploads-le r a today [] h = omega arith
uploads-le r a today (d ∷ days) h =
    let same : d.today ≡ today = (eq_iff d.today today).0 (ground (arith, h)) in
    let rest : all_on today days ≡ true = ground (arith, h) in
    let after : TaskRuntime = (alone r a d).runtime in
    elim (first_handle r a d) [
      | inl e ↦ rw e (ground (arith, uploads-le after a today days rest))
      | inr (e, done) ↦ ground (
        arith,
        e,
        done-uploads after a today days (subst (λ t. is_uploaded after a t ≡ true) same done) rest,
      )
    ]
