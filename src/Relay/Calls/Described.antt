-- ===== src/Relay/Calls/Described.antt =====
-- What ParseRelayTask of src/relay/relay_manager.cpp reads, member by member.
use kabot.Base.{
  Bool, true, false, String, Option, none, some, ◌≡◌, refl, ◌⊎◌, inl, inr, Option-cases, sym, subst,
}
use kabot.Base.Json.{Json, null, boolean, number, text, array, object, is_object, field, object_at}
use kabot.Agents.Memory.{◌>>=◌}
use kabot.Relay.Requests.{RelayTaskInteraction, RelayTaskProject}
use kabot.Relay.Calls.{
  RelayTask, text_value, boolean_value, parse_string_array, parse_string_map, parse_interaction,
  parse_project, parse_relay_task, no_interaction, no_project,
}

-- The member is the text, or it is left out and the text is empty.
abbrev pub Says : String → Json → String → Type 0
Says key j s = (field key j ≡ some (text s)) ⊎ (field key j ≡ none) × (s ≡ "")

abbrev pub SaysFlag : String → Json → Bool → Type 0
SaysFlag key j b = (field key j ≡ some (boolean b)) ⊎ (field key j ≡ none) × (b ≡ false)

text_value-Says : (key : String) (j : Json) (s : String) → text_value key j ≡ some s → Says key j s
unfolding text_value
text_value-Says key j s h = by_member (field key j) h
  where
    by_member :
        (v : Option Json)
        → (elim v as (λ x. Option String) [
          | none ↦ some ""
          | some v ↦ elim v [ text s ↦ some s | _ ↦ none ]
        ])
          ≡ some s
        → (v ≡ some (text s)) ⊎ (v ≡ none) × (s ≡ "")
    by_member none h = inr (refl, cc h)
    by_member (some (text t)) h = inl (cc h)
    by_member (some null) h = absurd (cc h)
    by_member (some (boolean b)) h = absurd (cc h)
    by_member (some (number n)) h = absurd (cc h)
    by_member (some (array js)) h = absurd (cc h)
    by_member (some (object ms)) h = absurd (cc h)

boolean_value-SaysFlag :
    (key : String) (j : Json) (b : Bool) → boolean_value key j ≡ some b → SaysFlag key j b
unfolding boolean_value
boolean_value-SaysFlag key j b h = by_member (field key j) h
  where
    by_member :
        (v : Option Json)
        → (elim v as (λ x. Option Bool) [
          | none ↦ some false
          | some v ↦ elim v [ boolean b ↦ some b | _ ↦ none ]
        ])
          ≡ some b
        → (v ≡ some (boolean b)) ⊎ (v ≡ none) × (b ≡ false)
    by_member none h = inr (refl, cc h)
    by_member (some (boolean c)) h = inl (cc h)
    by_member (some (text t)) h = absurd (cc h)
    by_member (some null) h = absurd (cc h)
    by_member (some (number n)) h = absurd (cc h)
    by_member (some (array js)) h = absurd (cc h)
    by_member (some (object ms)) h = absurd (cc h)

bind_some :
    {A B : Type 0} (m : Option A) (f : A → Option B) (b : B)
    → (m >>= f) ≡ some b
    → (a : A) × (m ≡ some a) × (f a ≡ some b)
bind_some none f b h = absurd (cc h)
bind_some (some a) f b h = (a, refl, h)

-- What is under "interaction".
pub data InteractionAt (j : Json) (i : RelayTaskInteraction) : Type 0 where
  left_out : object_at "interaction" j ≡ none → i ≡ no_interaction → InteractionAt j i
  given :
      (m : Json)
      → object_at "interaction" j ≡ some m
      → Says "channel" m i.channel
      → Says "channelInstance" m i.channel_instance
      → Says "chatId" m i.chat_id
      → Says "replyTo" m i.reply_to
      → InteractionAt j i

some_injective : {A : Type 0} (a b : A) → some a ≡ some b → a ≡ b
some_injective a b h = cc h

parse_interaction-At :
    (j : Json) (i : RelayTaskInteraction) → parse_interaction j ≡ some i → InteractionAt j i
unfolding parse_interaction
parse_interaction-At j i h = elim (Option-cases (object_at "interaction" j)) [
  | inl e ↦ left_out e (sym (some_injective no_interaction i (rw (e, parse_interaction) at h)))
  | inr (m, e) ↦
      let (a, ha, h1) = bind_some (text_value "channel" m) _ i (rw (e, parse_interaction) at h) in
      let (b, hb, h2) = bind_some (text_value "channelInstance" m) _ i h1 in
      let (c, hc, h3) = bind_some (text_value "chatId" m) _ i h2 in
      let (d, hd, h4) = bind_some (text_value "replyTo" m) _ i h3 in
      subst (InteractionAt j) (some_injective _ i h4) (
        given m e (text_value-Says "channel" m a ha) (text_value-Says "channelInstance" m b hb)
          (text_value-Says "chatId" m c hc) (text_value-Says "replyTo" m d hd))
]

-- What is under "project".
pub data ProjectAt (dump : Json → String) (j : Json) (p : RelayTaskProject) : Type 0 where
  no_member : object_at "project" j ≡ none → p ≡ no_project → ProjectAt dump j p
  stored :
      (m : Json)
      → object_at "project" j ≡ some m
      → Says "projectId" m p.project_id
      → Says "name" m p.name
      → Says "description" m p.description
      → Says "gitUrl" m p.git_url
      → p.metadata ≡ parse_string_map dump "metadata" m
      → ProjectAt dump j p

parse_project-At :
    (dump : Json → String) (j : Json) (p : RelayTaskProject)
    → parse_project dump j ≡ some p
    → ProjectAt dump j p
unfolding parse_project
parse_project-At dump j p h = elim (Option-cases (object_at "project" j)) [
  | inl e ↦ no_member e (sym (some_injective no_project p (rw (e, parse_project) at h)))
  | inr (m, e) ↦
      let (a, ha, h1) = bind_some (text_value "projectId" m) _ p (rw (e, parse_project) at h) in
      let (b, hb, h2) = bind_some (text_value "name" m) _ p h1 in
      let (c, hc, h3) = bind_some (text_value "description" m) _ p h2 in
      let (d, hd, h4) = bind_some (text_value "gitUrl" m) _ p h3 in
      subst (ProjectAt dump j) (some_injective _ p h4) (
        stored m e (text_value-Says "projectId" m a ha) (text_value-Says "name" m b hb)
          (text_value-Says "description" m c hc) (text_value-Says "gitUrl" m d hd) refl)
]

-- A task as the members of an object describe it.
pub record Describes (dump : Json → String) (j : Json) (task : RelayTask) : Type 0 where
  pub task_id : Says "taskId" j task.task_id
  pub title : Says "title" j task.title
  pub instruction : Says "instruction" j task.instruction
  pub session_key : Says "sessionKey" j task.session_key
  pub created_at : Says "createdAt" j task.created_at
  pub priority : Says "priority" j task.priority
  pub waiting_user : SaysFlag "waitingUser" j task.waiting_user
  pub merge_request : Says "mergeRequest" j task.merge_request
  pub interaction : InteractionAt j task.interaction
  pub project : ProjectAt dump j task.project
  pub metadata : task.metadata ≡ parse_string_map dump "metadata" j
  pub depends_on : task.depends_on_task_ids ≡ parse_string_array "dependsOnTaskIds" j
  pub dependency_state : task.dependency_state ≡ parse_string_map dump "dependencyState" j
  pub blocked_by : task.blocked_by_task_ids ≡ parse_string_array "blockedByTaskIds" j

pub parse_relay_task-Describes :
    (dump : Json → String) (j : Json) (task : RelayTask)
    → is_object j ≡ true
    → parse_relay_task dump j ≡ some task
    → Describes dump j task
unfolding parse_relay_task
parse_relay_task-Describes dump j task obj h =
    let (a, ha, h1) = bind_some (text_value "taskId" j) _ task (rw (obj, parse_relay_task) at h) in
    let (b, hb, h2) = bind_some (text_value "title" j) _ task h1 in
    let (c, hc, h3) = bind_some (text_value "instruction" j) _ task h2 in
    let (d, hd, h4) = bind_some (text_value "sessionKey" j) _ task h3 in
    let (e, he, h5) = bind_some (text_value "createdAt" j) _ task h4 in
    let (f, hf, h6) = bind_some (text_value "priority" j) _ task h5 in
    let (g, hg, h7) = bind_some (boolean_value "waitingUser" j) _ task h6 in
    let (m, hm, h8) = bind_some (text_value "mergeRequest" j) _ task h7 in
    let (i, hi, h9) = bind_some (parse_interaction j) _ task h8 in
    let (p, hp, h10) = bind_some (parse_project dump j) _ task h9 in
    subst (Describes dump j) (some_injective _ task h10) (record {
      task_id = text_value-Says "taskId" j a ha;
      title = text_value-Says "title" j b hb;
      instruction = text_value-Says "instruction" j c hc;
      session_key = text_value-Says "sessionKey" j d hd;
      created_at = text_value-Says "createdAt" j e he;
      priority = text_value-Says "priority" j f hf;
      waiting_user = boolean_value-SaysFlag "waitingUser" j g hg;
      merge_request = text_value-Says "mergeRequest" j m hm;
      interaction = parse_interaction-At j i hi;
      project = parse_project-At dump j p hp;
      metadata = refl;
      depends_on = refl;
      dependency_state = refl;
      blocked_by = refl;
    })

pub object_at-is_object :
    (key : String) (j m : Json) → object_at key j ≡ some m → is_object m ≡ true
unfolding object_at
object_at-is_object key j m h = by_member (field key j) h
  where
    by_member :
        (v : Option Json)
        → (elim v as (λ x. Option Json) [
          | some v ↦ elim v [ object ms ↦ some (object ms) | _ ↦ none ]
          | none ↦ none
        ])
          ≡ some m
        → is_object m ≡ true
    by_member none h = absurd (cc h)
    by_member (some (object ms)) h = rw (sym (some_injective (object ms) m h)) refl
    by_member (some (text t)) h = absurd (cc h)
    by_member (some (boolean c)) h = absurd (cc h)
    by_member (some null) h = absurd (cc h)
    by_member (some (number n)) h = absurd (cc h)
    by_member (some (array js)) h = absurd (cc h)
