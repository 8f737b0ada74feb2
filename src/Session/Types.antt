-- ===== src/Session/Types.antt =====
-- SessionMessage and Session of src/session/session_manager.{hpp,cpp}, and the message type of
-- src/providers/llm_provider.hpp. A tool call stays opaque (`ToolCall`), and so does the JSON value
-- of the metadata, of which only the pending notifications are written: they are the list
-- `notifications`, `none` where the key is absent. The time of NowIso is an argument.
use kabot.Base.{Bool, String, Option, none, some, List, [], ◌∷◌, ◌++◌, member, if◌then◌else◌}

module _ (ToolCall : Type 0) where
  pub record SessionMessage : Type 0 where
    pub role : String
    pub content : String
    pub timestamp : String
    pub name : String
    pub tool_call_id : String
    pub tool_calls : List ToolCall
    pub usage_json : String

  pub record Session : Type 0 where
    pub key : String
    pub messages : List SessionMessage
    pub created_at : String
    pub updated_at : String
    pub notifications : Option (List String)
    pub read_file_paths : List String

  -- Session::Session(key); both times are the one reading.
  unfoldable pub new_session : String → String → Session
  new_session key now = record {
    key = key;
    messages = [];
    created_at = now;
    updated_at = now;
    notifications = none;
    read_file_paths = [];
  }

  push_message : Session → SessionMessage → String → Session
  push_message s m now = record s { messages = s.messages ++ m ∷ []; updated_at = now }

  -- AddMessage with tool calls and usage; `usage_json` is the dump of a non-empty usage map, and
  -- empty otherwise. The shorter overloads pass none.
  unfoldable pub add_message :
      Session → String → String → List ToolCall → String → String → String → Session
  unfolding push_message
  add_message s role content tool_calls usage_json stamp now =
      push_message s
        (record {
          role = role;
          content = content;
          timestamp = stamp;
          name = "";
          tool_call_id = "";
          tool_calls = tool_calls;
          usage_json = usage_json;
        })
        now

  unfoldable pub add_tool_message : Session → String → String → String → String → String → Session
  unfolding push_message
  add_tool_message s tool_call_id tool_name content stamp now =
      push_message s
        (record {
          role = "tool";
          content = content;
          timestamp = stamp;
          name = tool_name;
          tool_call_id = tool_call_id;
          tool_calls = [];
          usage_json = "";
        })
        now

  unfoldable pub record_file_read : Session → String → Session
  record_file_read s path =
      if member path s.read_file_paths
      then s
      else record s { read_file_paths = path ∷ s.read_file_paths }

  unfoldable pub has_read_file : Session → String → Bool
  has_read_file s path = member path s.read_file_paths

  unfoldable pub add_pending_notification : Session → String → Session
  add_pending_notification s notification = elim s.notifications [
    | none ↦ record s { notifications = some (notification ∷ []) }
    | some pending ↦ record s { notifications = some (pending ++ notification ∷ []) }
  ]

  unfoldable pub take_pending_notifications : Session → Session × List String
  take_pending_notifications s = elim s.notifications [
    | none ↦ (s, [])
    | some pending ↦ (record s { notifications = none }, pending)
  ]
