-- ===== src/Curriculum/Descend/Complete.antt =====
-- `descendants` of packages/curriculum/graph.py ends, and finds what the walks along the edges reach.
use autonomus_academic_assis.Base.{
  ℕ, zero, suc, ◌+◌, ◌<◌, ◌≡◌, refl, ap, sym, ◌∙◌, ◌↔◌, inl, inr, true, ◌||◌, List, [], ◌∷◌, keep,
  length, contains, contains-keep, Unique, ◌==◌, ==_iff, arith, All, Bool-cases, ok,
}
use autonomus_academic_assis.Base.Floats.{Floats}
use autonomus_academic_assis.Planner.State.{GraphEdge}
use autonomus_academic_assis.Curriculum.Kahn.{order_nodes}
use autonomus_academic_assis.Curriculum.Kahn.Order.{precedes}
use autonomus_academic_assis.Curriculum.Kahn.Correct.{order_nodes-IsOrder}
use autonomus_academic_assis.Curriculum.Kahn.Decides.{
  has_edge, Walk, along, further, precedes-contains,
}
use autonomus_academic_assis.Curriculum.Adjacency.{
  contains-collect_children, collect_children-ok, forward_edge,
}
use autonomus_academic_assis.Curriculum.Descend.{extend, explore, descend}
use autonomus_academic_assis.Curriculum.Descend.Fuel.{
  contains-extend, length-extend, open_edges, out_degree, out_degree_max, open_edges_max,
  open_edges-cons, length-collect_children,
}

module _ {F : Floats} where
  -- From `start`, what the search has found and what waits.
  record Searching (edges : List (GraphEdge F)) (start : ℕ) (pending found : List ℕ) : Type 0 where
    pub reached : (x : ℕ) → (contains x found || contains x pending) ≡ true → Walk edges start x
    pub first :
        (x : ℕ) → has_edge edges start x ≡ true → (contains x found || contains x pending) ≡ true
    pub closed :
        (a x : ℕ)
        → contains a found ≡ true
        → has_edge edges a x ≡ true
        → (contains x found || contains x pending) ≡ true

  Searching-skip :
      (edges : List (GraphEdge F)) (start child : ℕ) (pending found : List ℕ)
      → contains child found ≡ true
      → Searching edges start (child ∷ pending) found
      → Searching edges start pending found
  Searching-skip edges start child pending found known s = record {
    reached = λ x m. s.reached x (ground (arith, m));
    first = λ x e. without x (s.first x e);
    closed = λ a x m e. without x (s.closed a x m e);
  }
    where
      without :
          (x : ℕ)
          → (contains x found || contains x (child ∷ pending)) ≡ true
          → (contains x found || contains x pending) ≡ true
      without x m =
          let same : (x == child) ≡ true → contains x found ≡ contains child found =
            λ q. ap (λ y. contains y found) ((==_iff x child).0 q) in
          ground (arith, same, m, known)

  Searching-visit :
      (edges : List (GraphEdge F)) (adjacency : ℕ → List ℕ) (start child : ℕ)
      (pending found : List ℕ)
      → ((u v : ℕ) → contains v (adjacency u) ≡ has_edge edges u v)
      → Searching edges start (child ∷ pending) found
      → Searching edges start (extend (adjacency child) pending) (child ∷ found)
  Searching-visit edges adjacency start child pending found children s =
      let more = λ (x : ℕ). contains-extend x (adjacency child) pending in
      record {
        reached = λ x m. elim (Bool-cases (contains x (adjacency child))) [
          | inl q ↦ further (s.reached child (ground arith)) (sym (children child x) ∙ q)
          | inr n ↦ s.reached x (ground (arith, m, more x, n))
        ];
        first = λ x e. ground (arith, s.first x e, more x);
        closed = λ a x m e. elim (Bool-cases (a == child)) [
          | inl q ↦
              let own =
                children child x ∙ sym (ap (λ y. has_edge edges y x) ((==_iff a child).0 q)) ∙ e in
              ground (arith, own, more x)
          | inr n ↦ let old = s.closed a x (ground (arith, m, n)) e in ground (arith, old, more x)
        ];
      }

  -- Every round takes one pushed child away.
  explore-ok :
      (rounds : ℕ) (edges : List (GraphEdge F)) (adjacency : ℕ → List ℕ) (start : ℕ)
      (pending found : List ℕ)
      → ((u v : ℕ) → contains v (adjacency u) ≡ has_edge edges u v)
      → ((u : ℕ) → length (adjacency u) ≡ out_degree edges u)
      → length pending + open_edges edges found < rounds
      → Searching edges start pending found
      → (done : List ℕ) × (explore rounds adjacency pending found ≡ ok done)
        × Searching edges start [] done
  unfolding explore
  explore-ok zero edges adjacency start pending found children sizes enough s = absurd (omega arith)
  explore-ok (suc rounds) edges adjacency start [] found children sizes enough s = (found, refl, s)
  explore-ok (suc rounds) edges adjacency start (c ∷ pending) found children sizes enough s =
      elim (Bool-cases (contains c found)) [
        | inl q ↦
            let (done, ends, t) =
              explore-ok rounds edges adjacency start pending found children sizes (omega arith)
                (Searching-skip edges start c pending found q s) in
            (done, ground (arith, q, ends), t)
        | inr n ↦
            let fewer = open_edges-cons edges found c n in
            let longer = length-extend (adjacency c) pending in
            let (done, ends, t) =
              explore-ok rounds edges adjacency start (extend (adjacency c) pending) (c ∷ found)
                children sizes (omega (arith, enough, fewer, longer, sizes c))
                (Searching-visit edges adjacency start c pending found children s) in
            (done, ground (arith, n, ends), t)
      ]

  found_all :
      (edges : List (GraphEdge F)) (start : ℕ) (done : List ℕ)
      → Searching edges start [] done
      → {x : ℕ} → Walk edges start x
      → contains x done ≡ true
  found_all edges start done s (along h) = ground (arith, s.first _ h)
  found_all edges start done s (further w h) =
      ground (arith, s.closed _ _ (found_all edges start done s w) h)

  walk_end :
      (edges : List (GraphEdge F)) (order : List ℕ)
      → All (λ e. precedes order e.source_node_id e.target_node_id ≡ true) edges
      → {a b : ℕ} → Walk edges a b
      → contains b order ≡ true
  walk_end edges order forward (along h) =
      precedes-contains order _ _ (forward_edge edges order _ _ forward h)
  walk_end edges order forward (further w h) =
      precedes-contains order _ _ (forward_edge edges order _ _ forward h)

  -- For nodes with distinct identifiers that have an order, the search ends with exactly the nodes that
  -- a walk from the given node reaches, and they are the order without the others.
  pub descend-exact :
      (ids : List ℕ) (edges : List (GraphEdge F)) (order : List ℕ) (node_id : ℕ)
      → Unique ids
      → order_nodes ids edges ≡ ok order
      → (found : List ℕ) × (descend ids edges node_id
          ≡ ok (keep (λ candidate. contains candidate found) order))
        × ((x : ℕ)
            → (contains x (keep (λ candidate. contains candidate found) order) ≡ true)
              ↔ Walk edges node_id x)
  unfolding descend
  descend-exact ids edges order node_id unique ordered =
      let (sorted, ends) = order_nodes-IsOrder ids edges order unique ordered in
      let (adjacency, collected) = collect_children-ok ids edges (λ u. []) ends in
      let children = contains-collect_children ids edges (λ u. []) adjacency collected in
      let sizes : (u : ℕ) → length (adjacency u) ≡ out_degree edges u =
        λ u. omega (arith, length-collect_children ids edges (λ u. []) adjacency collected u) in
      let longer = length-extend (adjacency node_id) [] in
      let more = λ (x : ℕ). contains-extend x (adjacency node_id) [] in
      let (done, found, s) =
        explore-ok (suc (length edges + length edges)) edges adjacency node_id
          (extend (adjacency node_id) []) [] children sizes
          (omega (arith, longer, sizes node_id, out_degree_max edges node_id, open_edges_max edges))
          (record {
            reached = λ x m. along (sym (children node_id x) ∙ ground (arith, m, more x));
            first = λ x e. ground (arith, children node_id x, e, more x);
            closed = λ a x m e. absurd (cc m);
          }) in
      let kept = λ (x : ℕ). contains-keep (λ candidate. contains candidate done) x order in
      (
        done,
        simp (ordered, collected, found),
        λ x. (
          λ m. s.reached x (ground (arith, kept x, m)),
          λ w.
              let inside = found_all edges node_id done s w in
              let known = walk_end edges order sorted.forward w in
              ground (arith, kept x, inside, known),
        ),
      )
