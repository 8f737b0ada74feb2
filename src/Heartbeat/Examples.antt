-- ===== src/Heartbeat/Examples.antt =====
-- A heartbeat service of src/heartbeat/heartbeat_service.cpp and its file.
use kabot.Base.{true, false, ◌≡◌, refl}
use kabot.Heartbeat.{is_heartbeat_empty}

only_headings : is_heartbeat_empty "# Tasks\n- [ ]\n" ≡ true
unfolding is_heartbeat_empty
only_headings = refl

one_task : is_heartbeat_empty "# Tasks\n- [ ] water the plants\n" ≡ false
unfolding is_heartbeat_empty
one_task = refl
