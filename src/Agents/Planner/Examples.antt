-- ===== src/Agents/Planner/Examples.antt =====
-- Plans of three tasks, for the planner's theorems.
use kabot.Base.{
  ℕ, zero, suc, ◌<◌, ◌≡◌, refl, Bool, true, false, String, Option, none, some, List, [], ◌∷◌,
  length, arith,
}
use kabot.Agents.Planner.{PlannedTask, build_graph, detect_cycle, topo_sort, visit_order, pick}
use kabot.Agents.Planner.Count.{count}
use kabot.Agents.Planner.Edges.{edges, open_in}
use kabot.Agents.Planner.Invariant.{Ordered}
use kabot.Agents.Planner.Order.{
  topo_sort-detect_cycle, detect_cycle_stuck, detect_cycle-Increasing, Increasing,
}

abbrev planned : String → List String → PlannedTask
planned title depends_on = record {
  title = title;
  instruction = "";
  priority = "normal";
  depends_on = depends_on;
  estimated_effort = "";
  metadata = [];
}

-- The deployment needs the tests, and the tests need the build.
abbrev release : List PlannedTask
release = planned "deploy" ("test" ∷ []) ∷ planned "test" ("build" ∷ []) ∷ planned "build" [] ∷ []

abbrev circular : List PlannedTask
circular = planned "deploy" ("test" ∷ []) ∷ planned "test" ("deploy" ∷ []) ∷ planned "build" [] ∷ []

abbrev release_rank : ℕ → ℕ
release_rank zero = 2
release_rank (suc zero) = 1
release_rank (suc (suc n)) = 0

release-detect_cycle : detect_cycle release ≡ some false
unfolding detect_cycle visit_order kabot.Agents.Planner.visit_loop kabot.Agents.Planner.sources
    build_graph kabot.Agents.Planner.add_tasks kabot.Agents.Planner.add_dependencies
    kabot.Agents.Planner.add_dependency kabot.Base.Dict.lookup kabot.Agents.Planner.index_titles
    kabot.Base.Dict.insert kabot.Agents.Planner.add_edge kabot.Base.Dict.erase
    kabot.Agents.Planner.no_edges kabot.Agents.Planner.relax
release-detect_cycle = refl

circular-detect_cycle : detect_cycle circular ≡ some true
unfolding detect_cycle visit_order kabot.Agents.Planner.visit_loop kabot.Agents.Planner.sources
    build_graph kabot.Agents.Planner.add_tasks kabot.Agents.Planner.add_dependencies
    kabot.Agents.Planner.add_dependency kabot.Base.Dict.lookup kabot.Agents.Planner.index_titles
    kabot.Base.Dict.insert kabot.Base.Dict.erase kabot.Agents.Planner.add_edge
    kabot.Agents.Planner.no_edges kabot.Agents.Planner.relax
circular-detect_cycle = refl

topo_sort-detect_cycle_example :
    (out : List ℕ) × (topo_sort release ≡ some (pick release out))
    × (length out ≡ length release)
    × ((v : ℕ) → v < length release → count v out ≡ 1)
    × Ordered (edges release) [] out
topo_sort-detect_cycle_example = topo_sort-detect_cycle release release-detect_cycle

detect_cycle_stuck_example :
    (out : List ℕ) × (visit_order circular ≡ some out)
    × (length out < length circular)
    × ((v : ℕ) → v < length circular → count v out ≡ 0 → 0 < open_in out v (edges circular))
detect_cycle_stuck_example = detect_cycle_stuck circular circular-detect_cycle

release-Increasing : Increasing release_rank (edges release)
unfolding edges kabot.Agents.Planner.index_titles kabot.Base.Dict.lookup kabot.Base.Dict.insert
    kabot.Base.Dict.erase
release-Increasing = (omega arith, (omega arith, tt))

detect_cycle-Increasing_example : detect_cycle release ≡ some false
detect_cycle-Increasing_example = detect_cycle-Increasing release release_rank release-Increasing
