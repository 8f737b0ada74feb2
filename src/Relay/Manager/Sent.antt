-- ===== src/Relay/Manager/Sent.antt =====
-- When the calls of src/relay/relay_manager.cpp ask the server, and which worker asks.
use Prim.Native.String.{len}
use kabot.Base.{
  sym, ℕ, true, false, not, String, some, List, [], ◌∷◌, ◌++◌, ◌≡◌, refl, ap, ◌∙◌, inl, inr, any,
  str_eq, eq_iff, empty, arith, if◌then◌else◌, Bool-cases, ltb, leb, ◌&&◌, Bool,
}
use kabot.Base.Dict.{Dict, insert, lookup, lookup-insert}
use kabot.Bus.{or_else}
use kabot.Agents.Memory.{trim}
use kabot.Config.Types.{RelayManagedAgentConfig}
use kabot.Relay.Requests.{build_daily_summary_request}
use kabot.Relay.Dates.{codes, is_valid_summary_date}
use kabot.Relay.Dates.Calendar.{names_day, is_valid_summary_date-names_day}
use kabot.Relay.Http.{refused, result_of, RelayResult}
use kabot.Relay.Manager.{World, worker_upload_daily_summary, bind_workers, worker_of}

-- What the server asks of an upload, with the blanks around the texts taken off.
abbrev pub can_upload : RelayManagedAgentConfig → String → String → Bool
can_upload config summary_date content =
    config.enabled
    && names_day (codes summary_date)
    && not (empty content)
    && leb (len content) 4000

-- One request with these texts, at `now` where no time is given, and what its answer says.
abbrev pub upload_once :
    {S : Type 0}
    → World S
    → RelayManagedAgentConfig
    → String
    → String
    → String
    → S
    → S × RelayResult
upload_once world config summary_date content reported_at s =
    let (s', outcome) =
      world.call config
        (build_daily_summary_request config summary_date content (or_else reported_at world.now))
        s in
    (s', result_of "unknown daily summary upload error" outcome)

empty-names_day : (date : String) → empty date ≡ true → names_day (codes date) ≡ false
empty-names_day date h = let e : date ≡ "" = ground (arith, eq_iff date "") in rw e none_named
  where
    none_named : names_day (codes "") ≡ false
    none_named = unfold codes in refl

valid_day : (date : String) (b : Bool) → is_valid_summary_date date ≡ b → names_day (codes date) ≡ b
valid_day date b h = sym (is_valid_summary_date-names_day date) ∙ h

not_longer : (n : ℕ) (b : Bool) → ltb 4000 n ≡ b → leb n 4000 ≡ not b
not_longer n b h = ground (arith, h)

-- An upload sends one request exactly when the worker is enabled, the date names a day of the Gregorian calendar, and the
-- content has 1 to 4000 bytes without the blanks around it; then its result is what the answer says. Otherwise nothing is
-- sent and the result is an error.
pub worker_upload_daily_summary_lem :
    {S : Type 0} (world : World S) (config : RelayManagedAgentConfig)
    (summary_date content reported_at : String) (s : S)
    → (message : String) × (worker_upload_daily_summary world config summary_date content
          reported_at s
        ≡ (if can_upload config (trim summary_date) (trim content)
            then upload_once world config (trim summary_date) (trim content) (trim reported_at) s
            else (s, refused message)))
unfolding worker_upload_daily_summary
worker_upload_daily_summary_lem world config summary_date content reported_at s =
    elim (Bool-cases config.enabled) [
      | inr e ↦ ("relay managed agent is disabled", rw e refl)
      | inl e ↦ elim (Bool-cases (empty (trim summary_date))) [
        | inl m ↦ (
          "summaryDate must be in YYYY-MM-DD format",
          rw (e, m, empty-names_day (trim summary_date) m) refl,
        )
        | inr m ↦ elim (Bool-cases (is_valid_summary_date (trim summary_date))) [
          | inr d ↦ (
            "summaryDate must be in YYYY-MM-DD format",
            rw (e, m, d, valid_day (trim summary_date) false d) refl,
          )
          | inl d ↦ elim (Bool-cases (empty (trim content))) [
            | inl c ↦
                ("content is required", rw (e, m, d, valid_day (trim summary_date) true d, c) refl)
            | inr c ↦ elim (Bool-cases (ltb 4000 (len (trim content)))) [
              | inl l ↦ (
                "content must be at most 4000 characters",
                rw
                    (
                      e,
                      m,
                      d,
                      valid_day (trim summary_date) true d,
                      c,
                      l,
                      not_longer (len (trim content)) true l,
                    )
                    refl,
              )
              | inr l ↦ (
                "",
                rw
                    (
                      e,
                      m,
                      d,
                      valid_day (trim summary_date) true d,
                      c,
                      l,
                      not_longer (len (trim content)) false l,
                    )
                    refl,
              )
            ]
          ]
        ]
      ]
    ]

bind_workers-later :
    (name : String) (configs : List RelayManagedAgentConfig) (bound : Dict RelayManagedAgentConfig)
    → any (λ (a : RelayManagedAgentConfig). str_eq a.local_agent name) configs ≡ false
    → lookup name (bind_workers configs bound) ≡ lookup name bound
unfolding bind_workers
bind_workers-later name [] bound h = refl
bind_workers-later name (a ∷ configs) bound h = elim (Bool-cases (empty a.local_agent)) [
  | inl e ↦ rw e (bind_workers-later name configs bound (ground (arith, h)))
  | inr e ↦ rw e (
      bind_workers-later name configs (insert a.local_agent a bound) (ground (arith, h))
      ∙ lookup-insert a.local_agent name a bound
      ∙ ground (arith, h))
]

bind_workers-last :
    (before after : List RelayManagedAgentConfig) (a : RelayManagedAgentConfig)
    (bound : Dict RelayManagedAgentConfig)
    → empty a.local_agent ≡ false
    → any (λ (b : RelayManagedAgentConfig). str_eq b.local_agent a.local_agent) after ≡ false
    → lookup a.local_agent (bind_workers (before ++ a ∷ after) bound) ≡ some a
unfolding bind_workers
bind_workers-last [] after a bound named h =
    ap (λ m. lookup a.local_agent (bind_workers after m)) (own_entry named)
    ∙ bind_workers-later a.local_agent after (insert a.local_agent a bound) h
    ∙ lookup-insert a.local_agent a.local_agent a bound
    ∙ ground (arith, eq_iff a.local_agent a.local_agent)
  where
    own_entry :
        empty a.local_agent ≡ false
        → (if empty a.local_agent then bound else insert a.local_agent a bound)
          ≡ insert a.local_agent a bound
    own_entry e = rw e refl
bind_workers-last (b ∷ before) after a bound named h =
    bind_workers-last before after a
      (if empty b.local_agent then bound else insert b.local_agent b bound) named h

-- A local agent is served by the last managed agent that is bound to it.
pub worker_of-last :
    (before after : List RelayManagedAgentConfig) (a : RelayManagedAgentConfig)
    → empty a.local_agent ≡ false
    → any (λ (b : RelayManagedAgentConfig). str_eq b.local_agent a.local_agent) after ≡ false
    → worker_of (before ++ a ∷ after) a.local_agent ≡ some a
unfolding worker_of
worker_of-last before after a named h = bind_workers-last before after a [] named h
