-- ===== src/Agents/Planner.antt =====
-- src/agent/planning/task_plan.hpp and task_decomposer.cpp: the order of planned tasks (DetectCycle,
-- TopoSort) and the priority names. A vector that is only read and written at indices in range is a
-- function of the index. The loop over the queue has as much fuel as there are tasks;
-- a task enters the queue at most once, so that is enough.
mod Edges
mod Count
mod Invariant
pub mod Order
mod Examples
use kabot.Base.{
  ℕ, zero, suc, ◌+◌, ◌-◌, Bool, true, false, not, String, Option, none, some, List, [], ◌∷◌, ◌++◌,
  ◌==◌, length, get_elem?, if◌then◌else◌, str_eq,
}
use kabot.Base.Dict.{Dict, lookup, insert}

pub record PlannedTask : Type 0 where
  pub title : String
  pub instruction : String
  pub priority : String
  pub depends_on : List String
  pub estimated_effort : String
  pub metadata : Dict String

-- title_to_index: a title that occurs twice stands for its last index.
unfoldable pub index_titles : ℕ → List PlannedTask → Dict ℕ → Dict ℕ
index_titles i [] m = m
index_titles i (t ∷ tasks) m = index_titles (suc i) tasks (insert t.title i m)

pub record Graph : Type 0 where
  pub graph : ℕ → List ℕ
  pub in_degree : ℕ → ℕ

unfoldable pub no_edges : Graph
no_edges = record { graph = λ u. []; in_degree = λ v. 0 }

-- graph[u].push_back(i); ++in_degree[i].
unfoldable pub add_edge : Graph → ℕ → ℕ → Graph
add_edge g u i = record {
  graph = λ w. if w == u then g.graph w ++ i ∷ [] else g.graph w;
  in_degree = λ w. if w == i then g.in_degree w + 1 else g.in_degree w;
}

-- One dependency of the task `i`; a title that no task has is passed over.
unfoldable pub add_dependency : Dict ℕ → ℕ → String → Graph → Graph
add_dependency titles i dep_title g = elim (lookup dep_title titles) [
  | none ↦ g
  | some u ↦ add_edge g u i
]

unfoldable pub add_dependencies : Dict ℕ → ℕ → List String → Graph → Graph
add_dependencies titles i [] g = g
add_dependencies titles i (d ∷ deps) g =
    add_dependencies titles i deps (add_dependency titles i d g)

unfoldable pub add_tasks : Dict ℕ → ℕ → List PlannedTask → Graph → Graph
add_tasks titles i [] g = g
add_tasks titles i (t ∷ tasks) g =
    add_tasks titles (suc i) tasks (add_dependencies titles i t.depends_on g)

unfoldable pub build_graph : List PlannedTask → Graph
build_graph tasks = add_tasks (index_titles 0 tasks []) 0 tasks no_edges

-- The first contents of the queue: the indices below `n` with no dependency, in order.
unfoldable pub sources : (ℕ → ℕ) → ℕ → List ℕ
sources in_degree zero = []
sources in_degree (suc n) =
    let before = sources in_degree n in if in_degree n == 0 then before ++ n ∷ [] else before

-- `for (auto v : graph[u]) if (--in_degree[v] == 0) q.push(v);`. A degree is never 0 before it is
-- decremented, as the invariant shows, so the new value is 0 exactly if the old one is 1.
unfoldable pub relax : List ℕ → (ℕ → ℕ) → List ℕ → (ℕ → ℕ) × List ℕ
relax [] in_degree q = (in_degree, q)
relax (v ∷ vs) in_degree q =
    relax vs (λ w. if w == v then in_degree w - 1 else in_degree w)
      (if in_degree v == 1 then q ++ v ∷ [] else q)

-- `while (!q.empty())`, with the indices visited so far; `none` if the fuel runs out.
unfoldable pub visit_loop : ℕ → (ℕ → List ℕ) → (ℕ → ℕ) → List ℕ → List ℕ → Option (List ℕ)
visit_loop fuel graph in_degree [] visited = some visited
visit_loop zero graph in_degree (u ∷ q) visited = none
visit_loop (suc fuel) graph in_degree (u ∷ q) visited =
    let (in_degree', q') = relax (graph u) in_degree q in
    visit_loop fuel graph in_degree' q' (visited ++ u ∷ [])

unfoldable pub visit_order : List PlannedTask → Option (List ℕ)
visit_order tasks =
    let g = build_graph tasks in
    visit_loop (length tasks) g.graph g.in_degree (sources g.in_degree (length tasks)) []

unfoldable pub detect_cycle : List PlannedTask → Option Bool
detect_cycle tasks = elim (visit_order tasks) [
  | none ↦ none
  | some visited ↦ some (not (length visited == length tasks))
]

-- result.push_back(std::move(tasks[u])), for the indices in the order of their visit.
unfoldable pub pick : List PlannedTask → List ℕ → List PlannedTask
pick tasks [] = []
pick tasks (u ∷ us) = elim (get_elem? tasks u) [ none ↦ pick tasks us | some t ↦ t ∷ pick tasks us ]

unfoldable pub topo_sort : List PlannedTask → Option (List PlannedTask)
topo_sort tasks = elim (visit_order tasks) [
  | none ↦ none
  | some visited ↦ some (pick tasks visited)
]
