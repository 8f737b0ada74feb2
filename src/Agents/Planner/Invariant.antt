-- ===== src/Agents/Planner/Invariant.antt =====
-- The invariant of the loop over the queue, for any edges between indices below `n`.
use kabot.Base.{
  ℕ, zero, suc, ◌+◌, ◌-◌, ◌≤◌, ◌≡◌, refl, some, List, [], ◌∷◌, ◌++◌, ◌==◌, append_assoc, append-nil,
  length, if◌then◌else◌, arith, length-append,
}
use kabot.Agents.Planner.{relax, visit_loop, sources}
use kabot.Agents.Planner.Count.{count, count-append, below, length_le}
use kabot.Agents.Planner.Edges.{Edges, targets, open_in, Within}

-- 1 if the decrements of a round bring the degree to 0.
abbrev falls : ℕ → ℕ → ℕ
falls degree decrements = if degree == decrements then (if decrements == 0 then 0 else 1) else 0

relax_lem :
    (vs : List ℕ) (in_degree : ℕ → ℕ) (q : List ℕ)
    → ((v : ℕ) → count v vs ≤ in_degree v)
    → (v : ℕ)
    → ((relax vs in_degree q).0 v + count v vs ≡ in_degree v)
      × (count v (relax vs in_degree q).1 ≡ count v q + falls (in_degree v) (count v vs))
unfolding relax
relax_lem [] in_degree q h v = ground arith
relax_lem (w ∷ vs) in_degree q h v = ground (
  arith,
  h v,
  h w,
  count-append v q (w ∷ []),
  relax_lem vs (λ x. if x == w then in_degree x - 1 else in_degree x)
      (if in_degree w == 1 then q ++ w ∷ [] else q) (λ x. ground (arith, h x, h w)) v,
)

-- Visiting `u` closes the edges that leave it.
open_in-visit :
    (done : List ℕ) (u v : ℕ) (es : Edges)
    → count u done ≡ 0
    → open_in (done ++ u ∷ []) v es + count v (targets u es) ≡ open_in done v es
open_in-visit done u v [] h = omega arith
open_in-visit done u v ((a, b) ∷ es) h =
    ground (arith, open_in-visit done u v es h, count-append a done (u ∷ []))

count-targets_out : (n u v : ℕ) (es : Edges) → Within n es → n ≤ v → count v (targets u es) ≡ 0
count-targets_out n u v [] w h = refl
count-targets_out n u v ((a, b) ∷ es) w h = ground (arith, count-targets_out n u v es w.2 h)

-- The indices visited, in order, each after everything that it depends on.
abbrev pub Ordered : Edges → List ℕ → List ℕ → Type 0
Ordered es done [] = Unit {0}
Ordered es done (v ∷ rest) = (open_in done v es ≡ 0) × Ordered es (done ++ v ∷ []) rest

-- What stands in the queue or has been visited is what has no open dependency, once each.
pub record Inv (n : ℕ) (es : Edges) (in_degree : ℕ → ℕ) (q visited : List ℕ) : Type 0 where
  pub degrees : (v : ℕ) → in_degree v ≡ open_in visited v es
  pub once : (v : ℕ) → count v visited + count v q ≡ (if in_degree v == 0 then below n v else 0)
  pub ordered : Ordered es [] visited

Ordered-snoc :
    (es : Edges) (done xs : List ℕ) (v : ℕ)
    → Ordered es done xs
    → open_in (done ++ xs) v es ≡ 0
    → Ordered es done (xs ++ v ∷ [])
Ordered-snoc es done [] v o e = (rw (append-nil done) at e, tt)
Ordered-snoc es done (x ∷ xs) v o e =
    (o.0, Ordered-snoc es (done ++ x ∷ []) xs v o.1 (rw (append_assoc done (x ∷ []) xs) e))

module _ (n : ℕ) (es : Edges) (within : Within n es) (in_degree : ℕ → ℕ) (u : ℕ)
    (q visited : List ℕ) (v₀ : Inv n es in_degree (u ∷ q) visited) where
  not_visited : count u visited ≡ 0
  not_visited = ground (arith, v₀.once u)

  falls_enough : (v : ℕ) → count v (targets u es) ≤ in_degree v
  falls_enough v = omega (arith, open_in-visit visited u v es not_visited, v₀.degrees v)

  visit-Inv :
      Inv n es
        (relax (targets u es) in_degree q).0
        (relax (targets u es) in_degree q).1
        (visited ++ u ∷ [])
  visit-Inv = record {
    degrees = λ v. omega (
      arith,
      open_in-visit visited u v es not_visited,
      v₀.degrees v,
      (relax_lem (targets u es) in_degree q falls_enough v).0,
    );
    once = λ v. ground (
      arith,
      relax_lem (targets u es) in_degree q falls_enough v,
      v₀.once v,
      falls_enough v,
      count-append v visited (u ∷ []),
      count-targets_out n u v es within,
    );
    ordered = Ordered-snoc es [] visited u v₀.ordered (ground (arith, v₀.once u, v₀.degrees u));
  }

-- The loop ends with an empty queue before the fuel is gone.
pub visit_loop-Inv :
    (n : ℕ) (es : Edges) (fuel : ℕ) (in_degree : ℕ → ℕ) (q visited : List ℕ)
    → Within n es
    → Inv n es in_degree q visited
    → n ≤ fuel + length visited
    → (out : List ℕ) × (visit_loop fuel (λ u. targets u es) in_degree q visited ≡ some out)
      × Inv n es (λ v. open_in out v es) [] out
unfolding visit_loop
visit_loop-Inv n es fuel in_degree [] visited w v h = (
  visited,
  refl,
  record {
    degrees = λ x. refl;
    once = λ x. ground (arith, v.once x, v.degrees x);
    ordered = v.ordered;
  },
)
visit_loop-Inv n es zero in_degree (u ∷ q) visited w v h = absurd (
    omega (
      arith,
      h,
      length-append visited (u ∷ q),
      length_le n (visited ++ u ∷ q)
          (λ x. ground (arith, v.once x, count-append x visited (u ∷ q))),
    ))
visit_loop-Inv n es (suc fuel) in_degree (u ∷ q) visited w v h =
    visit_loop-Inv n es fuel (relax (targets u es) in_degree q).0
      (relax (targets u es) in_degree q).1 (visited ++ u ∷ []) w
      (visit-Inv n es w in_degree u q visited v) (omega (arith, h, length-append visited (u ∷ [])))

count-sources :
    (in_degree : ℕ → ℕ) (n v : ℕ)
    → count v (sources in_degree n) ≡ (if in_degree v == 0 then below n v else 0)
unfolding sources
count-sources in_degree zero v = ground arith
count-sources in_degree (suc n) v =
    ground (arith, count-sources in_degree n v, count-append v (sources in_degree n) (n ∷ []))

pub sources-Inv :
    (n : ℕ) (es : Edges) (in_degree : ℕ → ℕ)
    → ((v : ℕ) → in_degree v ≡ open_in [] v es)
    → Inv n es in_degree (sources in_degree n) []
sources-Inv n es in_degree h = record {
  degrees = h;
  once = λ v. omega (arith, count-sources in_degree n v);
  ordered = tt;
}
