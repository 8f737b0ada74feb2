-- ===== src/Agents/Loop/Edits/Rounds.antt =====
-- The rounds of the loop of src/agent/agent_loop.cpp keep edits behind reads.
use kabot.Base.{
  ℕ, zero, suc, Bool, true, false, not, ◌&&◌, String, Option, none, some, List, ◌∷◌, ◌≡◌, refl,
  empty, arith, inl, inr, Bool-cases, sym, ap, [],
}
use kabot.Session.Types.{Session, add_message}
use kabot.Agents.Context.{Message, ToolCallRequest, project_messages}
use kabot.Agents.Memory.{trim}
use kabot.Agents.Loop.{
  World, Turn, LlmResponse, Next, again, finished, thrown, run_calls, has_tool_calls, respond,
  round, loop, answer, after_calls, enter_request, notify_phase, processing, replying, Phase,
}
use kabot.Agents.Loop.Calls.{Event, chatted, logged, HoldsCalls, run_calls-HoldsCalls}
use kabot.Agents.Loop.Edits.{
  is_read, edits_follow_reads, Sound, Edits, Sound-weaken, Sound-entered, Sound-runs,
}

pub notify_phase-session : (phase : Phase) (t : Turn) → (notify_phase phase t).session ≡ t.session
unfolding notify_phase
notify_phase-session phase t = ground arith

module _ {S : Type 0} (w : World S) (paths : List String) where
  pub HoldsNext : (S × List Event) × Next → Type 0
  HoldsNext (st, again t) = Sound w paths t.session st
  HoldsNext (st, finished t) = Sound w paths t.session st
  HoldsNext (st, thrown) = Edits w paths st

  Sound-same :
      (x y : Session ToolCallRequest) (st : S × List Event)
      → x.read_file_paths ≡ y.read_file_paths
      → Sound w paths x st
      → Sound w paths y st
  Sound-same x y st e h = record { reads = λ path. rw (sym e) (h.reads path); edits = h.edits }

  Sound-request :
      (t : Turn) (response : LlmResponse) (st : S × List Event)
      → Sound w paths t.session st
      → Sound w paths (enter_request (logged w) t response).session st
  unfolding enter_request add_message
  Sound-request t response st =
      Sound-same t.session (enter_request (logged w) t response).session st refl

  Sound-notified :
      (phase : Phase) (t : Turn) (st : S × List Event)
      → Sound w paths t.session st
      → Sound w paths (notify_phase phase t).session st
  Sound-notified phase t st =
      Sound-same t.session (notify_phase phase t).session st (
        ap (λ (x : Session ToolCallRequest). x.read_file_paths)
          (sym (notify_phase-session phase t)))

  answer-HoldsNext :
      (guarded : Bool) (request : String) (t : Turn) (response : LlmResponse) (st : S × List Event)
      → Sound w paths t.session st
      → HoldsNext (st, answer guarded request t response)
  unfolding HoldsNext answer
  answer-HoldsNext guarded request t response st h =
      elim (Bool-cases (guarded && not t.tool_called && not t.guardrail_retry_used)) [
        | inl e ↦ rw (HoldsNext, answer, e) h
        | inr e ↦
            elim (Bool-cases
              (t.tool_called && empty (trim response.content) && not t.post_tool_reminder_used)) [
                | inl f ↦ rw (HoldsNext, answer, e, f) h
                | inr f ↦ rw (HoldsNext, answer, e, f) (Sound-notified replying t st h)
              ]
      ]

  after-HoldsNext :
      (r : (S × List Event) × Option (Turn × Bool))
      → HoldsCalls (logged w) (Sound w paths) (Edits w paths) r
      → HoldsNext (r.0, after_calls r.1)
  unfolding HoldsNext HoldsCalls after_calls
  after-HoldsNext (st, none) h = h
  after-HoldsNext (st, some (t, true)) h = Sound-notified processing t st h
  after-HoldsNext (st, some (t, false)) h = Sound-notified processing t st h

  respond-HoldsNext :
      (guarded : Bool) (request : String) (t : Turn) (response : LlmResponse) (st : S × List Event)
      → Sound w paths t.session st
      → HoldsNext (respond (logged w) guarded request t response st)
  unfolding respond logged
  respond-HoldsNext guarded request t response st h = elim (Bool-cases (has_tool_calls response)) [
    | inl e ↦
        rw (respond, e)
          (after-HoldsNext
            (run_calls (logged w) response.tool_calls (enter_request (logged w) t response) false
              st)
            (run_calls-HoldsCalls (logged w) (Sound w paths) (Edits w paths) (Sound-weaken w paths)
              (Sound-entered w paths) (Sound-runs w paths) response.tool_calls
              (enter_request (logged w) t response) false st (Sound-request t response st h)))
    | inr e ↦ rw (respond, e) (answer-HoldsNext guarded request t response st h)
  ]

  after_chat :
      (guarded : Bool) (request : String) (t : Turn) (messages : List Message) (s : S)
      (log : List Event) (r : S × Option LlmResponse)
      → Sound w paths t.session (s, log)
      → HoldsNext (elim r.1 [
        | none ↦ ((r.0, chatted messages ∷ log), thrown)
        | some response ↦
            respond (logged w) guarded request t response (r.0, chatted messages ∷ log)
      ])
  unfolding HoldsNext Edits edits_follow_reads is_read
  after_chat guarded request t messages s log (s', none) h = h.edits
  after_chat guarded request t messages s log (s', some response) h =
      respond-HoldsNext guarded request t response (s', chatted messages ∷ log)
        (record { reads = λ path m. ground (arith, h.reads path); edits = h.edits })

  round-HoldsNext :
      (guarded : Bool) (request : String) (t : Turn) (st : S × List Event)
      → Sound w paths t.session st
      → HoldsNext (round (logged w) guarded request t st)
  unfolding round logged HoldsNext Edits
  round-HoldsNext guarded request t (s, log) h = elim (Bool-cases (w.is_cancelled s)) [
    | inl e ↦ rw (round, e) h.edits
    | inr e ↦
        rw (round, e)
          (after_chat guarded request t (project_messages w.to_string t.messages) s log
            (w.chat (project_messages w.to_string t.messages) s) h)
  ]

  pub EndsSound : (S × List Event) × Option Turn → Type 0
  EndsSound r = edits_follow_reads paths r.0.1 ≡ true

  after_round :
      (left : ℕ) (guarded : Bool) (request : String) (r : (S × List Event) × Next)
      → ((t : Turn) (st : S × List Event)
          → Sound w paths t.session st
          → EndsSound (loop (logged w) left guarded request t st))
      → HoldsNext r
      → EndsSound (
          let (s', next) = r in
          elim next [
            | again t' ↦ loop (logged w) left guarded request t' s'
            | finished t' ↦ (s', some t')
            | thrown ↦ (s', none)
          ])
  unfolding HoldsNext EndsSound Edits
  after_round left guarded request (st, again t) rest h = rest t st h
  after_round left guarded request (st, finished t) rest h = h.edits
  after_round left guarded request (st, thrown) rest h = h

  loop-Sound :
      (left : ℕ) (guarded : Bool) (request : String) (t : Turn) (st : S × List Event)
      → Sound w paths t.session st
      → EndsSound (loop (logged w) left guarded request t st)
  unfolding loop EndsSound
  loop-Sound zero guarded request t st h = h.edits
  loop-Sound (suc left) guarded request t st h =
      after_round left guarded request (round (logged w) guarded request t st)
        (loop-Sound left guarded request) (round-HoldsNext guarded request t st h)

module _ {S : Type 0} (w : World S) where
  -- From a turn on, edit_file only ever runs on a path that is in the session's set of files read, or
  -- that an earlier read_file call of the turn has read with success, whatever the provider and the
  -- tools answer; `log` holds the calls.
  pub loop-edits_follow_reads :
      (left : ℕ) (guarded : Bool) (request : String) (t : Turn) (s : S)
      → edits_follow_reads t.session.read_file_paths
          (loop (logged w) left guarded request t (s, [])).0.1
        ≡ true
  unfolding EndsSound edits_follow_reads is_read
  loop-edits_follow_reads left guarded request t s =
      loop-Sound w t.session.read_file_paths left guarded request t (s, [])
        (record { reads = λ path m. m; edits = refl })
