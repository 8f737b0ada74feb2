-- ===== src/Agents/Planner/Order.antt =====
-- What DetectCycle and TopoSort compute of a plan.
use kabot.Base.{
  ℕ, zero, suc, ◌≤◌, ◌<◌, ◌≡◌, inl, inr, refl, true, false, some, List, [], ◌∷◌, ◌==◌, length,
  if◌then◌else◌, arith, fun_ext, Bool-cases,
}
use kabot.Agents.Planner.{
  PlannedTask, build_graph, sources, visit_order, detect_cycle, topo_sort, pick,
}
use kabot.Agents.Planner.Count.{count, below, length_le, le_length, all_counted}
use kabot.Agents.Planner.Edges.{Edges, edges, open_in, Within, build_graph-Represents, edges-Within}
use kabot.Agents.Planner.Invariant.{Ordered, visit_loop-Inv, sources-Inv}

-- Visited once each are exactly the tasks below `n` that wait for nothing that is not visited.
abbrev pub IsVisit : ℕ → Edges → List ℕ → Type 0
IsVisit n es out =
    Ordered es [] out × ((v : ℕ) → count v out ≡ (if open_in out v es == 0 then below n v else 0))

visit_order_lem :
    (tasks : List PlannedTask)
    → (out : List ℕ) × (visit_order tasks ≡ some out) × IsVisit (length tasks) (edges tasks) out
unfolding visit_order
visit_order_lem tasks =
    let g = build_graph tasks in
    let r = build_graph-Represents tasks in
    let (out, found, v) =
      visit_loop-Inv (length tasks) (edges tasks) (length tasks) g.in_degree
        (sources g.in_degree (length tasks)) [] (edges-Within tasks)
        (sources-Inv (length tasks) (edges tasks) g.in_degree r.in_edges) (omega arith) in
    (out, rw (fun_ext r.out_edges) found, (v.ordered, λ x. omega (arith, v.once x)))

visit_counts :
    (n : ℕ) (es : Edges) (out : List ℕ) → IsVisit n es out → (v : ℕ) → count v out ≤ below n v
visit_counts n es out h v = ground (arith, h.1 v)

-- Where DetectCycle reports no cycle, TopoSort gives the tasks at the indices of a list that names
-- each index of the plan exactly once, each after everything that it depends on.
pub topo_sort-detect_cycle :
    (tasks : List PlannedTask)
    → detect_cycle tasks ≡ some false
    → (out : List ℕ) × (topo_sort tasks ≡ some (pick tasks out))
      × (length out ≡ length tasks)
      × ((v : ℕ) → v < length tasks → count v out ≡ 1)
      × Ordered (edges tasks) [] out
unfolding detect_cycle topo_sort
topo_sort-detect_cycle tasks h =
    let (out, found, visit) = visit_order_lem tasks in
    let whole : length out ≡ length tasks = ground (arith, found, h) in
    (
      out,
      ground (arith, found),
      whole,
      all_counted (length tasks) out (visit_counts (length tasks) (edges tasks) out visit) whole,
      visit.0,
    )

-- A cycle that DetectCycle reports is one: the loop misses some task, and each task that it misses
-- waits for a task that it misses.
pub detect_cycle_stuck :
    (tasks : List PlannedTask)
    → detect_cycle tasks ≡ some true
    → (out : List ℕ) × (visit_order tasks ≡ some out)
      × (length out < length tasks)
      × ((v : ℕ) → v < length tasks → count v out ≡ 0 → 0 < open_in out v (edges tasks))
unfolding detect_cycle
detect_cycle_stuck tasks h =
    let (out, found, visit) = visit_order_lem tasks in
    let le : length out ≤ length tasks =
      length_le (length tasks) out (visit_counts (length tasks) (edges tasks) out visit) in
    (out, found, ground (arith, found, h, le), λ v lt none_of. ground (arith, visit.1 v))

-- A numbering of the tasks that grows along every dependency, such as an order in which they can be
-- carried out.
abbrev pub Increasing : (ℕ → ℕ) → Edges → Type 0
Increasing rank [] = Unit {0}
Increasing rank ((a, b) ∷ es) = (rank a < rank b) × Increasing rank es

closed :
    (rank : ℕ → ℕ) (n v : ℕ) (out : List ℕ) (es : Edges)
    → Increasing rank es
    → Within n es
    → ((a : ℕ) → a < n → rank a < rank v → count a out ≡ 1)
    → open_in out v es ≡ 0
closed rank n v out [] i w h = refl
closed rank n v out ((a, b) ∷ es) i w h = elim (Bool-cases (v == b)) [
  | inl e ↦
      let same : v ≡ b = ground arith in
      ground (arith, closed rank n v out es i.1 w.2 h, h a w.0 (rw same i.0))
  | inr e ↦ ground (arith, closed rank n v out es i.1 w.2 h)
]

visited_below :
    (rank : ℕ → ℕ) (n : ℕ) (out : List ℕ) (es : Edges)
    → Increasing rank es
    → Within n es
    → IsVisit n es out
    → (k v : ℕ) → rank v < k
    → v < n
    → count v out ≡ 1
visited_below rank n out es i w h zero v r lt = absurd (omega arith)
visited_below rank n out es i w h (suc k) v r lt = ground (
  arith,
  h.1 v,
  closed rank n v out es i w
      (λ a a_in less. visited_below rank n out es i w h k a (omega arith) a_in),
)

-- A plan whose tasks can be numbered along their dependencies is never refused.
pub detect_cycle-Increasing :
    (tasks : List PlannedTask) (rank : ℕ → ℕ)
    → Increasing rank (edges tasks)
    → detect_cycle tasks ≡ some false
unfolding detect_cycle
detect_cycle-Increasing tasks rank i =
    let (out, found, visit) = visit_order_lem tasks in
    let n = length tasks in
    let enough : n ≤ length out = le_length n out λ v lt. omega (
      arith,
      visited_below rank n out (edges tasks) i (edges-Within tasks) visit (suc (rank v)) v
          (omega arith) lt,
    ) in
    let most : length out ≤ n = length_le n out (visit_counts n (edges tasks) out visit) in
    ground (arith, found)
