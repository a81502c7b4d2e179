-- ===== src/Curriculum/Descend/Fuel.antt =====
-- The rounds that the search in `descendants` of packages/curriculum/graph.py can take.
use autonomus_academic_assis.Base.{
  put, ℕ, suc, ◌+◌, ◌≤◌, ◌≡◌, refl, ap, inl, inr, false, not, ◌||◌, List, [], ◌∷◌, ◌++◌, length,
  contains, count_if, ◌==◌, ==_iff, arith, Bool-cases, ok,
}
use autonomus_academic_assis.Base.Floats.{Floats}
use autonomus_academic_assis.Planner.State.{GraphEdge}
use autonomus_academic_assis.Curriculum.Adjacency.{collect_children}
use autonomus_academic_assis.Curriculum.Descend.{extend}

pub contains-extend :
    (v : ℕ) (children pending : List ℕ)
    → contains v (extend children pending) ≡ contains v children || contains v pending
contains-extend v [] pending = refl
contains-extend v (c ∷ children) pending =
    let again = contains-extend v children (c ∷ pending) in ground (arith, again)

pub length-extend :
    (children pending : List ℕ)
    → length (extend children pending) ≡ length children + length pending
length-extend [] pending = omega arith
length-extend (c ∷ children) pending =
    let again = length-extend children (c ∷ pending) in omega (arith, again)

length-append : (xs : List ℕ) (a : ℕ) → length (xs ++ a ∷ []) ≡ suc (length xs)
length-append [] a = refl
length-append (x ∷ xs) a = ap suc (length-append xs a)

module _ {F : Floats} where
  -- The edges whose source is not found.
  abbrev pub open_edges : List (GraphEdge F) → List ℕ → ℕ
  open_edges edges found = count_if (λ e. not (contains e.source_node_id found)) edges

  abbrev pub out_degree : List (GraphEdge F) → ℕ → ℕ
  out_degree edges u = count_if (λ e. u == e.source_node_id) edges

  pub out_degree_max : (edges : List (GraphEdge F)) (u : ℕ) → out_degree edges u ≤ length edges
  out_degree_max [] u = omega arith
  out_degree_max (e ∷ edges) u = let again = out_degree_max edges u in ground (arith, again)

  pub open_edges_max : (edges : List (GraphEdge F)) → open_edges edges [] ≡ length edges
  open_edges_max [] = refl
  open_edges_max (e ∷ edges) = ap suc (open_edges_max edges)

  pub open_edges-cons :
      (edges : List (GraphEdge F)) (found : List ℕ) (u : ℕ)
      → contains u found ≡ false
      → open_edges edges (u ∷ found) + out_degree edges u ≡ open_edges edges found
  open_edges-cons [] found u h = refl
  open_edges-cons (e ∷ edges) found u h =
      let again = open_edges-cons edges found u h in
      elim (Bool-cases (u == e.source_node_id)) [
        | inl q ↦
            let same = ap (λ x. contains x found) ((==_iff u e.source_node_id).0 q) in
            ground (arith, again, q, same, h)
        | inr n ↦ ground (arith, again, n)
      ]

  pub length-collect_children :
      (ids : List ℕ) (edges : List (GraphEdge F)) (f g : ℕ → List ℕ)
      → collect_children ids edges f ≡ ok g
      → (u : ℕ) → length (g u) ≡ length (f u) + out_degree edges u
  unfolding collect_children
  length-collect_children ids [] f g h u =
      let same : f ≡ g = cc h in ground (arith, ap (λ k. length (k u)) same)
  length-collect_children ids (e ∷ edges) f g h u =
      let more = put f e.source_node_id (f e.source_node_id ++ e.target_node_id ∷ []) in
      elim (Bool-cases (contains e.source_node_id ids)) [
        | inl q ↦
            let again = length-collect_children ids edges more g (ground (arith, h, q)) u in
            let one = length-append (f e.source_node_id) e.target_node_id in
            elim (Bool-cases (u == e.source_node_id)) [
              | inl k ↦
                  let same = ap (λ x. length (f x)) ((==_iff u e.source_node_id).0 k) in
                  ground (arith, again, one, same, k)
              | inr n ↦ ground (arith, again, n)
            ]
        | inr n ↦ absurd (ground (arith, h, n))
      ]
