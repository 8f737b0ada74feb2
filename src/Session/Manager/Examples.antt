-- ===== src/Session/Manager/Examples.antt =====
-- A database that keeps whole sessions by their key, and managers on it.
use kabot.Base.{String, some, [], ◌≡◌, refl}
use kabot.Base.Dict.{Dict, lookup, insert, erase, lookup-insert, lookup-erase}
use kabot.Session.Types.{Session, new_session}
use kabot.Session.Manager.{Database, SessionManager, save, load}

abbrev table : Database String
table = record {
  Db = Dict (Session String);
  save_rows = λ db s. insert s.key s db;
  delete_rows = λ db key. erase key db;
  load_rows = λ db key. lookup key db;
  persisted = λ s. s;
  load-save = λ db s k. lookup-insert s.key k s db;
  load-delete = λ db k j. lookup-erase k j db;
}

abbrev empty_manager : SessionManager table
empty_manager = record { cache = []; db = some [] }

abbrev chat : Session String
chat = new_session String "lark:default:42" "2026-01-01T00:00:00Z"

saved_chat : load table (save table empty_manager chat).db "lark:default:42" ≡ some chat
unfolding save lookup insert new_session
saved_chat = refl
