-- ===== src/Session/Manager/Cache.antt =====
-- What the session manager answers after it has saved, deleted or created a session.
use kabot.Base.{
  [], ◌&&◌, true, String, none, some, ◌≡◌, str_eq, if◌then◌else◌, arith, eq_refl, Option-cases, inl,
  inr, is_some,
}
use kabot.Base.Dict.{lookup, lookup-insert, lookup-erase, lookup-emplace}
use kabot.Session.Types.{Session, new_session}
use kabot.Session.Manager.{Database, SessionManager, load, get, get_or_create, save, delete}

module _ {ToolCall : Type 0} (database : Database ToolCall) where
  -- With an open database a saved session is what the manager answers for its key, and what it
  -- answers for other keys stays; without one a save changes nothing.
  pub get-save :
      (m : SessionManager database) (s : Session ToolCall) (k : String)
      → (get database (save database m s) k).1
        ≡ (if is_some m.db && str_eq s.key k then some s else (get database m k).1)
  unfolding get save
  get-save m s k = elim (Option-cases m.db) [
    | inl e ↦ ground arith
    | inr (db, e) ↦ ground (arith, lookup-insert s.key k s m.cache, database.load-save db s k)
  ]

  -- After a save on an open database, a manager with an empty cache on that database answers with
  -- the persisted part of the session for its key, and for other keys with what the database held.
  pub get_restarted :
      (m fresh : SessionManager database) (s : Session ToolCall) (k : String)
      → is_some m.db ≡ true
      → fresh.cache ≡ []
      → fresh.db ≡ (save database m s).db
      → (get database fresh k).1
        ≡ (if str_eq s.key k then some (database.persisted s) else load database m.db k)
  unfolding get save lookup
  get_restarted m fresh s k o c d = elim (Option-cases m.db) [
    | inl e ↦ ground arith
    | inr (db, e) ↦ ground (arith, database.load-save db s k)
  ]

  -- A deleted session is gone from the cache and, if it is open, from the database; the result says
  -- whether the database was open. What is answered for other keys stays.
  pub get-delete :
      (m : SessionManager database) (k j : String)
      → ((delete database m k).1 ≡ is_some m.db)
        × ((get database (delete database m k).0 j).1
            ≡ (if str_eq k j then none else (get database m j).1))
  unfolding get delete
  get-delete m k j = elim (Option-cases m.db) [
    | inl e ↦ ground (arith, lookup-erase k j m.cache)
    | inr (db, e) ↦ ground (arith, lookup-erase k j m.cache, database.load-delete db k j)
  ]

  -- GetOrCreate answers the same session when it is asked again at any later time, and Get then
  -- answers it too.
  pub get_or_create_again :
      (m : SessionManager database) (k now later : String)
      → ((get_or_create database (get_or_create database m k now).0 k later).1
          ≡ (get_or_create database m k now).1)
        × ((get database (get_or_create database m k now).0 k).1
            ≡ some (get_or_create database m k now).1)
  unfolding get_or_create get
  get_or_create_again m k now later = elim (Option-cases (load database m.db k)) [
    | inl f ↦ ground (arith, eq_refl k, lookup-emplace k k (new_session ToolCall k now) m.cache)
    | inr (s, f) ↦ ground (arith, eq_refl k, lookup-emplace k k s m.cache)
  ]
