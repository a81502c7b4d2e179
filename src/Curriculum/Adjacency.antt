-- ===== src/Curriculum/Adjacency.antt =====
-- The children of every node, as `topological_depth`, `unique_descendant_counts` and `descendants` of
-- packages/curriculum/graph.py collect them.
use autonomus_academic_assis.Base.{
  put, ℕ, ◌≡◌, refl, ap, sym, ◌∙◌, true, false, ◌&&◌, ◌||◌, List, [], ◌∷◌, ◌++◌, contains,
  contains-apart, Unique, ◌==◌, ==_iff, if◌then◌else◌, arith, All, Bool-cases, inl, inr, Result, ok,
  raise, key_error,
}
use autonomus_academic_assis.Base.Floats.{Floats}
use autonomus_academic_assis.Planner.State.{GraphEdge}
use autonomus_academic_assis.Curriculum.Kahn.Loop.{HasEnds}
use autonomus_academic_assis.Curriculum.Kahn.Order.{precedes, IsOrder}
use autonomus_academic_assis.Curriculum.Kahn.Decides.{has_edge, precedes-contains}

contains-append : (v a : ℕ) (xs : List ℕ) → contains v (xs ++ a ∷ []) ≡ contains v xs || (v == a)
contains-append v a [] = ground arith
contains-append v a (x ∷ xs) = let again = contains-append v a xs in ground (arith, again)

-- Every edge leads forward in the order.
abbrev pub IsForward : List ℕ → (ℕ → List ℕ) → Type 0
IsForward order adjacency =
    (a b : ℕ)
    → contains b (adjacency a) ≡ true
    → contains a order ≡ true
    → precedes order a b ≡ true

module _ {F : Floats} where
  unfoldable pub collect_children :
      (node_ids : List ℕ) → List (GraphEdge F) → (ℕ → List ℕ) → Result (ℕ → List ℕ)
  collect_children node_ids [] adjacency = ok adjacency
  collect_children node_ids (edge ∷ edges) adjacency =
      if contains edge.source_node_id node_ids
      then collect_children node_ids edges (
          put adjacency edge.source_node_id
            (adjacency edge.source_node_id ++ edge.target_node_id ∷ []))
      else raise key_error

  child_of :
      (edges : List (GraphEdge F)) (e : GraphEdge F) (f : ℕ → List ℕ) (u v : ℕ)
      → contains v (put f e.source_node_id (f e.source_node_id ++ e.target_node_id ∷ []) u)
          || has_edge edges u v
        ≡ contains v (f u) || has_edge (e ∷ edges) u v
  child_of edges e f u v =
      let more = contains-append v e.target_node_id (f e.source_node_id) in
      elim (Bool-cases (u == e.source_node_id)) [
        | inl q ↦
            let same = ap (λ x. contains v (f x)) ((==_iff u e.source_node_id).0 q) in
            ground (arith, more, same, q)
        | inr n ↦ ground (arith, n)
      ]

  pub contains-collect_children :
      (ids : List ℕ) (edges : List (GraphEdge F)) (f g : ℕ → List ℕ)
      → collect_children ids edges f ≡ ok g
      → (u v : ℕ) → contains v (g u) ≡ contains v (f u) || has_edge edges u v
  unfolding collect_children
  contains-collect_children ids [] f g h u v =
      let same : f ≡ g = cc h in ground (arith, ap (λ k. contains v (k u)) same)
  contains-collect_children ids (e ∷ edges) f g h u v =
      let more = put f e.source_node_id (f e.source_node_id ++ e.target_node_id ∷ []) in
      elim (Bool-cases (contains e.source_node_id ids)) [
        | inl q ↦
            contains-collect_children ids edges more g (ground (arith, h, q)) u v
            ∙ child_of edges e f u v
        | inr n ↦ absurd (ground (arith, h, n))
      ]

  pub collect_children-ok :
      (ids : List ℕ) (edges : List (GraphEdge F)) (f : ℕ → List ℕ)
      → All (HasEnds ids) edges
      → (g : ℕ → List ℕ) × (collect_children ids edges f ≡ ok g)
  unfolding collect_children
  collect_children-ok ids [] f h = (f, refl)
  collect_children-ok ids (e ∷ edges) f h =
      let (g, made) =
        collect_children-ok ids edges
          (put f e.source_node_id (f e.source_node_id ++ e.target_node_id ∷ [])) h.1 in
      (g, ground (arith, made, h.0))

  pub forward_edge :
      (edges : List (GraphEdge F)) (order : List ℕ) (a b : ℕ)
      → All (λ e. precedes order e.source_node_id e.target_node_id ≡ true) edges
      → has_edge edges a b ≡ true
      → precedes order a b ≡ true
  forward_edge [] order a b h q = absurd (cc q)
  forward_edge (e ∷ edges) order a b h q =
      elim (Bool-cases ((a == e.source_node_id) && (b == e.target_node_id))) [
        | inl k ↦
            ap (λ x. precedes order x b) ((==_iff a e.source_node_id).0 (ground (arith, k)))
            ∙ ap (precedes order e.source_node_id)
                ((==_iff b e.target_node_id).0 (ground (arith, k)))
            ∙ h.0
        | inr n ↦ forward_edge edges order a b h.1 (ground (arith, q, n))
      ]

  pub IsOrder-IsForward :
      (ids : List ℕ) (edges : List (GraphEdge F)) (order : List ℕ) (adjacency : ℕ → List ℕ)
      → IsOrder ids edges order
      → ((u v : ℕ) → contains v (adjacency u) ≡ has_edge edges u v)
      → IsForward order adjacency
  IsOrder-IsForward ids edges order adjacency sorted same a b child known =
      forward_edge edges order a b sorted.forward (sym (same a b) ∙ child)

-- Behind the first node the order still leads forward.
pub IsForward-tail :
    (u : ℕ) (order : List ℕ) (adjacency : ℕ → List ℕ)
    → Unique (u ∷ order)
    → IsForward (u ∷ order) adjacency
    → IsForward order adjacency
IsForward-tail u order adjacency unique forward a b child known =
    let moved = forward a b child (ground (arith, known)) in
    let apart = contains-apart u a order unique.0 known in ground (arith, moved, apart)

-- No edge leads back to the first node.
pub IsForward-head :
    (u : ℕ) (order : List ℕ) (adjacency : ℕ → List ℕ) (w : ℕ)
    → Unique (u ∷ order)
    → IsForward (u ∷ order) adjacency
    → contains w (u ∷ order) ≡ true
    → contains u (adjacency w) ≡ false
IsForward-head u order adjacency w unique forward known =
    elim (Bool-cases (contains u (adjacency w))) [
      | inl q ↦
          let moved = forward w u q known in
          let later = precedes-contains order w u in ground (arith, moved, later, unique.0)
      | inr n ↦ n
    ]
