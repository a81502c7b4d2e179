-- ===== src/Curriculum/Kahn/Decides.antt =====
-- `_topological_order` of packages/curriculum/graph.py succeeds on exactly the graphs without a cycle.
use autonomus_academic_assis.Base.{
  ℕ, suc, ◌<◌, ◌≡◌, ◌↔◌, Bool, true, ◌&&◌, List, [], ◌∷◌, any, Bool-cases, inl, inr, contains,
  contains-apart, ◌==◌, ==_iff, ltb, if◌then◌else◌, arith, All, All-imp, Unique, Unique-sort_by,
  contains-sort_by, sort_ids, ok, ap, ◌∙◌,
}
use autonomus_academic_assis.Base.Floats.{Floats}
use autonomus_academic_assis.Planner.State.{GraphEdge}
use autonomus_academic_assis.Curriculum.Kahn.{no_links, order_nodes}
use autonomus_academic_assis.Curriculum.Kahn.Loop.{HasEnds}
use autonomus_academic_assis.Curriculum.Kahn.Linking.{link-Linked, link-ok}
use autonomus_academic_assis.Curriculum.Kahn.Order.{precedes, IsRanked, IsOrder}
use autonomus_academic_assis.Curriculum.Kahn.Correct.{drained-ok, order_nodes-IsOrder}

-- The place of a node in an order.
abbrev pub place : List ℕ → ℕ → ℕ
place [] a = 0
place (x ∷ xs) a = let later = place xs a in if x == a then 0 else suc later

pub precedes-contains : (xs : List ℕ) (a b : ℕ) → precedes xs a b ≡ true → contains b xs ≡ true
precedes-contains [] a b h = absurd (cc h)
precedes-contains (x ∷ xs) a b h = let later = precedes-contains xs a b in ground (arith, later, h)

pub precedes-source : (xs : List ℕ) (a b : ℕ) → precedes xs a b ≡ true → contains a xs ≡ true
precedes-source [] a b h = absurd (cc h)
precedes-source (x ∷ xs) a b h = let later = precedes-source xs a b in ground (arith, later, h)

place-precedes :
    (xs : List ℕ) (a b : ℕ) → Unique xs → precedes xs a b ≡ true → place xs a < place xs b
place-precedes [] a b u h = absurd (cc h)
place-precedes (x ∷ xs) a b u h =
    let later = place-precedes xs a b u.1 in
    let inside = precedes-contains xs a b in
    let apart = contains-apart x b xs u.0 in ground (arith, later, inside, apart, h)

module _ {F : Floats} where
  abbrev pub has_edge : List (GraphEdge F) → ℕ → ℕ → Bool
  has_edge edges a b = any (λ e. (a == e.source_node_id) && (b == e.target_node_id)) edges

  -- A walk along one edge or more.
  pub data Walk (edges : List (GraphEdge F)) (a : ℕ) : ℕ → Type 0 where
    along : {b : ℕ} → has_edge edges a b ≡ true → Walk edges a b
    further : {b c : ℕ} → Walk edges a b → has_edge edges b c ≡ true → Walk edges a c

  rises :
      (edges : List (GraphEdge F)) (rank : ℕ → ℕ) (a b : ℕ)
      → IsRanked edges rank
      → has_edge edges a b ≡ true
      → rank a < rank b
  rises [] rank a b r h = absurd (cc h)
  rises (e ∷ edges) rank a b r h =
      elim (Bool-cases ((a == e.source_node_id) && (b == e.target_node_id))) [
        | inl q ↦
            let from = ap rank ((==_iff a e.source_node_id).0 (ground (arith, q))) in
            let to = ap rank ((==_iff b e.target_node_id).0 (ground (arith, q))) in
            omega (arith, from, to, r.0)
        | inr n ↦ rises edges rank a b r.1 (ground (arith, h, n))
      ]

  walk_rises :
      (edges : List (GraphEdge F)) (rank : ℕ → ℕ) (a : ℕ) {b : ℕ}
      → IsRanked edges rank
      → Walk edges a b
      → rank a < rank b
  walk_rises edges rank a r (along h) = rises edges rank a _ r h
  walk_rises edges rank a r (further w h) =
      omega (arith, walk_rises edges rank a r w, rises edges rank _ _ r h)

  IsOrder-IsRanked :
      (ids : List ℕ) (edges : List (GraphEdge F)) (order : List ℕ)
      → IsOrder ids edges order
      → IsRanked edges (place order)
  IsOrder-IsRanked ids edges order h =
      All-imp edges (λ e q. place-precedes order e.source_node_id e.target_node_id h.once q)
        h.forward

  -- For nodes with distinct identifiers, an order is returned if and only if both ends of every edge are
  -- nodes and some rank rises along every edge.
  pub order_nodes-decides :
      (ids : List ℕ) (edges : List (GraphEdge F))
      → Unique ids
      → ((order : List ℕ) × (order_nodes ids edges ≡ ok order))
        ↔ (All (HasEnds ids) edges × ((rank : ℕ → ℕ) × IsRanked edges rank))
  unfolding order_nodes
  order_nodes-decides ids edges unique = (
    λ (order, h).
        let (sorted, ends) = order_nodes-IsOrder ids edges order unique h in
        (ends, (place order, IsOrder-IsRanked ids edges order sorted)),
    λ (ends, (rank, ranked)).
        let (links, made) = link-ok (sort_ids ids) edges no_links (
          All-imp edges
            (λ e k. (
              contains-sort_by ltb e.source_node_id ids ∙ k.0,
              contains-sort_by ltb e.target_node_id ids ∙ k.1,
            ))
            ends) in
        let linked = link-Linked (sort_ids ids) edges no_links links made in
        let (order, h) =
          drained-ok (sort_ids ids) edges links rank (Unique-sort_by ltb ids unique) linked
            ranked in
        (order, rw made h),
  )

  -- For nodes with distinct identifiers, if an order is returned, no walk along the edges comes back to
  -- its start.
  pub order_nodes-acyclic :
      (ids : List ℕ) (edges : List (GraphEdge F)) (order : List ℕ)
      → Unique ids
      → order_nodes ids edges ≡ ok order
      → (v : ℕ) → ¬ Walk edges v v
  order_nodes-acyclic ids edges order unique h v w =
      let (sorted, _) = order_nodes-IsOrder ids edges order unique h in
      omega (arith, walk_rises edges (place order) v (IsOrder-IsRanked ids edges order sorted) w)
