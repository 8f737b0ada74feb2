-- ===== src/Session/Manager.antt =====
-- SessionManager of src/session/session_manager.cpp: a cache in front of the database. The SQL
-- statements of Save, Load and Delete run in SQLite, so they are the parameter `Database`: what a
-- row set holds after the transaction of Save and after the two DELETEs, read back by Load. A load
-- gives back the persisted part of a session (`persisted`; the paths of files read are not stored).
pub mod Cache
mod Examples
use kabot.Base.{
  Bool, true, false, String, Option, none, some, List, [], ◌∷◌, ◌≡◌, str_eq, if◌then◌else◌,
}
use kabot.Base.Dict.{Dict, lookup, erase, insert, emplace}
use kabot.Session.Types.{Session, new_session}

pub record Database (ToolCall : Type 0) : Type 1 where
  pub Db : Type 0
  pub save_rows : Db → Session ToolCall → Db
  pub delete_rows : Db → String → Db
  pub load_rows : Db → String → Option (Session ToolCall)
  pub persisted : Session ToolCall → Session ToolCall
  pub load-save :
      (db : Db) (s : Session ToolCall) (k : String)
      → load_rows (save_rows db s) k
        ≡ (if str_eq s.key k then some (persisted s) else load_rows db k)
  pub load-delete :
      (db : Db) (k j : String)
      → load_rows (delete_rows db k) j ≡ (if str_eq k j then none else load_rows db j)

module _ {ToolCall : Type 0} (database : Database ToolCall) where
  open database use {Db, save_rows, delete_rows, load_rows}

  -- `db` is `none` where the database could not be opened.
  pub record SessionManager : Type 0 where
    pub cache : Dict (Session ToolCall)
    pub db : Option Db

  -- Load: nothing without a database.
  abbrev pub load : Option Db → String → Option (Session ToolCall)
  load none key = none
  load (some db) key = load_rows db key

  cache_loaded : SessionManager → String → Option (Session ToolCall) → SessionManager
  cache_loaded m key none = m
  cache_loaded m key (some s) = record m { cache = emplace key s m.cache }

  or_new :
      SessionManager
      → String
      → String
      → Option (Session ToolCall)
      → SessionManager × Session ToolCall
  or_new m key now (some s) = (record m { cache = emplace key s m.cache }, s)
  or_new m key now none = (
    record m { cache = emplace key (new_session ToolCall key now) m.cache },
    new_session ToolCall key now,
  )

  unfoldable pub get_or_create :
      SessionManager → String → String → SessionManager × Session ToolCall
  unfolding or_new
  get_or_create m key now = elim (lookup key m.cache) [
    | some s ↦ (m, s)
    | none ↦ or_new m key now (load m.db key)
  ]

  unfoldable pub get : SessionManager → String → SessionManager × Option (Session ToolCall)
  unfolding cache_loaded
  get m key = elim (lookup key m.cache) [
    | some s ↦ (m, some s)
    | none ↦ (cache_loaded m key (load m.db key), load m.db key)
  ]

  unfoldable pub save : SessionManager → Session ToolCall → SessionManager
  save m s = elim m.db [
    | none ↦ m
    | some db ↦ record m { cache = insert s.key s m.cache; db = some (save_rows db s) }
  ]

  unfoldable pub delete : SessionManager → String → SessionManager × Bool
  delete m key = elim m.db [
    | none ↦ (record m { cache = erase key m.cache }, false)
    | some db ↦ (record m { cache = erase key m.cache; db = some (delete_rows db key) }, true)
  ]
