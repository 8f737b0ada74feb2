-- ===== src/Agents/Planner/Edges.antt =====
-- The dependencies of a plan as a list of edges, and the graph that the two loops build from them.
use kabot.Base.{
  ℕ, suc, ◌+◌, ◌≤◌, ◌<◌, ◌≡◌, refl, ◌&&◌, String, Option, none, some, List, [], ◌∷◌, ◌++◌, ◌==◌,
  length, if◌then◌else◌, arith, append_assoc, append-nil,
}
use kabot.Base.Dict.{Dict, lookup, insert, lookup-insert}
use kabot.Agents.Planner.{
  PlannedTask, Graph, no_edges, add_edge, add_dependency, add_dependencies, add_tasks, build_graph,
  index_titles,
}
use kabot.Agents.Planner.Count.{count}

-- An edge leads from a task to one that depends on it.
abbrev pub Edges : Type 0
Edges = List (ℕ × ℕ)

abbrev pub resolved : Option ℕ → ℕ → Edges
resolved none i = []
resolved (some u) i = (u, i) ∷ []

abbrev pub dependency_edges : Dict ℕ → ℕ → List String → Edges
dependency_edges titles i [] = []
dependency_edges titles i (d ∷ deps) =
    resolved (lookup d titles) i ++ dependency_edges titles i deps

abbrev pub task_edges : Dict ℕ → ℕ → List PlannedTask → Edges
task_edges titles i [] = []
task_edges titles i (t ∷ tasks) =
    dependency_edges titles i t.depends_on ++ task_edges titles (suc i) tasks

-- The edges of a plan: one for each dependency whose title some task has.
unfoldable pub edges : List PlannedTask → Edges
edges tasks = task_edges (index_titles 0 tasks []) 0 tasks

-- The targets of the edges that leave `u`, in order.
abbrev pub targets : ℕ → Edges → List ℕ
targets u [] = []
targets u ((a, b) ∷ es) = let rest = targets u es in if u == a then b ∷ rest else rest

-- How many edges lead to `v` from outside `done`.
abbrev pub open_in : List ℕ → ℕ → Edges → ℕ
open_in done v [] = 0
open_in done v ((a, b) ∷ es) = (if v == b && count a done == 0 then 1 else 0) + open_in done v es

targets-append : (u : ℕ) (xs ys : Edges) → targets u (xs ++ ys) ≡ targets u xs ++ targets u ys
targets-append u [] ys = refl
targets-append u ((a, b) ∷ xs) ys = ground (arith, targets-append u xs ys)

open_in-append :
    (done : List ℕ) (v : ℕ) (xs ys : Edges)
    → open_in done v (xs ++ ys) ≡ open_in done v xs + open_in done v ys
open_in-append done v [] ys = omega arith
open_in-append done v ((a, b) ∷ xs) ys = omega (arith, open_in-append done v xs ys)

-- A graph with these edges.
pub record Represents (g : Graph) (es : Edges) : Type 0 where
  pub out_edges : (u : ℕ) → g.graph u ≡ targets u es
  pub in_edges : (v : ℕ) → g.in_degree v ≡ open_in [] v es

add_edge-Represents :
    (g : Graph) (es : Edges) (u i : ℕ)
    → Represents g es
    → Represents (add_edge g u i) (es ++ (u, i) ∷ [])
unfolding add_edge
add_edge-Represents g es u i r = record {
  out_edges = λ w.
      ground (arith, r.out_edges w, targets-append w es ((u, i) ∷ []), append-nil (targets w es));
  in_edges = λ w. ground (arith, r.in_edges w, open_in-append [] w es ((u, i) ∷ []));
}

resolve-Represents :
    (o : Option ℕ) (i : ℕ) (g : Graph) (es : Edges)
    → Represents g es
    → Represents (elim o [ none ↦ g | some u ↦ add_edge g u i ]) (es ++ resolved o i)
resolve-Represents none i g es r = rw (append-nil es) r
resolve-Represents (some u) i g es r = add_edge-Represents g es u i r

add_dependency-Represents :
    (titles : Dict ℕ) (i : ℕ) (d : String) (g : Graph) (es : Edges)
    → Represents g es
    → Represents (add_dependency titles i d g) (es ++ resolved (lookup d titles) i)
unfolding add_dependency
add_dependency-Represents titles i d g es r = resolve-Represents (lookup d titles) i g es r

add_dependencies-Represents :
    (titles : Dict ℕ) (i : ℕ) (deps : List String) (g : Graph) (es : Edges)
    → Represents g es
    → Represents (add_dependencies titles i deps g) (es ++ dependency_edges titles i deps)
unfolding add_dependencies
add_dependencies-Represents titles i [] g es r = rw (append-nil es) r
add_dependencies-Represents titles i (d ∷ deps) g es r =
    rw (← append_assoc es (resolved (lookup d titles) i) (dependency_edges titles i deps)) (
      add_dependencies-Represents titles i deps (add_dependency titles i d g)
        (es ++ resolved (lookup d titles) i) (add_dependency-Represents titles i d g es r))

add_tasks-Represents :
    (titles : Dict ℕ) (i : ℕ) (tasks : List PlannedTask) (g : Graph) (es : Edges)
    → Represents g es
    → Represents (add_tasks titles i tasks g) (es ++ task_edges titles i tasks)
unfolding add_tasks
add_tasks-Represents titles i [] g es r = rw (append-nil es) r
add_tasks-Represents titles i (t ∷ tasks) g es r =
    rw
      (← append_assoc es (dependency_edges titles i t.depends_on) (task_edges titles (suc i) tasks))
      (add_tasks-Represents titles (suc i) tasks (add_dependencies titles i t.depends_on g)
        (es ++ dependency_edges titles i t.depends_on)
        (add_dependencies-Represents titles i t.depends_on g es r))

pub build_graph-Represents :
    (tasks : List PlannedTask) → Represents (build_graph tasks) (edges tasks)
unfolding build_graph edges no_edges
build_graph-Represents tasks =
    add_tasks-Represents (index_titles 0 tasks []) 0 tasks no_edges []
      (record { out_edges = λ u. refl; in_edges = λ v. refl })

-- Both ends of every edge are indices of tasks.
abbrev pub Within : ℕ → Edges → Type 0
Within n [] = Unit {0}
Within n ((a, b) ∷ es) = (a < n) × (b < n) × Within n es

Within-append : (n : ℕ) (xs ys : Edges) → Within n xs → Within n ys → Within n (xs ++ ys)
Within-append n [] ys h k = k
Within-append n ((a, b) ∷ xs) ys h k = (h.0, h.1, Within-append n xs ys h.2 k)

-- Every title stands for an index below `n`.
abbrev IndexBelow : ℕ → Dict ℕ → Type 0
IndexBelow n m = (k : String) (u : ℕ) → lookup k m ≡ some u → u < n

index_titles-Below :
    (i : ℕ) (tasks : List PlannedTask) (m : Dict ℕ)
    → IndexBelow i m
    → IndexBelow (i + length tasks) (index_titles i tasks m)
unfolding index_titles
index_titles-Below i [] m h k u e = omega (arith, h k u e)
index_titles-Below i (t ∷ tasks) m h k u e = omega (
  arith,
  index_titles-Below (suc i) tasks (insert t.title i m)
      (λ j w f. ground (arith, lookup-insert t.title j i m, h j w)) k u e,
)

resolved-Within :
    (n i : ℕ) (o : Option ℕ) → i < n → ((u : ℕ) → o ≡ some u → u < n) → Within n (resolved o i)
resolved-Within n i none lt h = tt
resolved-Within n i (some u) lt h = (h u refl, lt, tt)

dependency_edges-Within :
    (n i : ℕ) (titles : Dict ℕ) (deps : List String)
    → i < n
    → IndexBelow n titles
    → Within n (dependency_edges titles i deps)
dependency_edges-Within n i titles [] lt h = tt
dependency_edges-Within n i titles (d ∷ deps) lt h =
    Within-append n (resolved (lookup d titles) i) (dependency_edges titles i deps)
      (resolved-Within n i (lookup d titles) lt (h d))
      (dependency_edges-Within n i titles deps lt h)

task_edges-Within :
    (n i : ℕ) (titles : Dict ℕ) (tasks : List PlannedTask)
    → i + length tasks ≤ n
    → IndexBelow n titles
    → Within n (task_edges titles i tasks)
task_edges-Within n i titles [] le h = tt
task_edges-Within n i titles (t ∷ tasks) le h =
    Within-append n (dependency_edges titles i t.depends_on) (task_edges titles (suc i) tasks)
      (dependency_edges-Within n i titles t.depends_on (omega arith) h)
      (task_edges-Within n (suc i) titles tasks (omega arith) h)

no_titles : IndexBelow 0 []
unfolding lookup
no_titles k u e = cc

pub edges-Within : (tasks : List PlannedTask) → Within (length tasks) (edges tasks)
unfolding edges
edges-Within tasks =
    task_edges-Within (length tasks) 0 (index_titles 0 tasks []) tasks (omega arith)
      (λ k u e. omega (arith, index_titles-Below 0 tasks [] no_titles k u e))
