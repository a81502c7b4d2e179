-- ===== src/Curriculum/Kahn/Correct.antt =====
-- `_topological_order` of packages/curriculum/graph.py: the order that it returns, and when it returns one.
use autonomus_academic_assis.Base.{
  ℕ, suc, ◌≡◌, refl, sym, ◌∙◌, subst, List, [], contains, ◌==◌, if◌then◌else◌, arith, All, All-imp,
  All-zip, All-contains, Unique, Unique-keep, Unique-sort_by, contains-keep, contains-sort_by,
  count_if-sort_by, sort_ids, length, ltb, ok, raise, bind_ok, Exception,
}
use autonomus_academic_assis.Base.Floats.{Floats}
use autonomus_academic_assis.Planner.State.{GraphEdge}
use autonomus_academic_assis.Curriculum.Kahn.{
  Links, no_links, link, drain, starting, drained, order_nodes,
}
use autonomus_academic_assis.Curriculum.Kahn.Counting.{left, left-zero}
use autonomus_academic_assis.Curriculum.Kahn.Loop.{
  HasEnds, after, Inv, length-left, Drained, drain-Drained,
}
use autonomus_academic_assis.Curriculum.Kahn.Linking.{Linked, link-Linked}
use autonomus_academic_assis.Curriculum.Kahn.Order.{
  IsRanked, IsOrder, left-fresh, left_none, contains-after, forward_each, once_all, each_gone,
}

kept :
    (ordered order : List ℕ) (n : ℕ) (e : Exception)
    → (if length ordered == n then ok ordered else raise e) ≡ ok order
    → (length ordered ≡ n) × (ordered ≡ order)
kept ordered order n e h = ground arith

module _ {F : Floats} where
  Inv-starting :
      (ids : List ℕ) (edges : List (GraphEdge F)) (links : Links)
      → Unique ids
      → Linked ids edges no_links links
      → Inv ids edges (λ u. sort_ids (links.adjacency u)) [] (starting ids links)
  Inv-starting ids edges links unique linked = record {
    settled = record {
      free = λ v m. ground (arith, contains-keep (λ v. links.indegree v == 0) v ids, m);
      once = Unique-keep (λ v. links.indegree v == 0) ids unique;
    };
    degrees = λ v. ground (arith, linked.into v);
    members = λ v. ground (arith, contains-keep (λ v. links.indegree v == 0) v ids, linked.into v);
    past = λ v m. absurd (cc m);
  }

  -- The links of sorted nodes, and the state in which the loop ends.
  loop_ends :
      (ids : List ℕ) (edges : List (GraphEdge F)) (links : Links)
      → Unique ids
      → Linked ids edges no_links links
      → Drained ids edges
          (λ u. sort_ids (links.adjacency u))
          []
          (drain (length ids) (λ u. sort_ids (links.adjacency u)) (starting ids links))
  loop_ends ids edges links unique linked =
      drain-Drained ids edges (λ u. sort_ids (links.adjacency u)) linked.ends
        (λ u v.
          count_if-sort_by (λ x. v == x) ltb (links.adjacency u) ∙ ground (arith, linked.out u v))
        unique (length ids) [] (starting ids links) (ground (arith, left-fresh ids))
        (Inv-starting ids edges links unique linked)

  drained-IsOrder :
      (ids : List ℕ) (edges : List (GraphEdge F)) (links : Links) (order : List ℕ)
      → Unique ids
      → Linked ids edges no_links links
      → drained ids links ≡ ok order
      → IsOrder ids edges order
  unfolding drained
  drained-IsOrder ids edges links order unique linked h =
      let adjacency = λ (u : ℕ). sort_ids (links.adjacency u) in
      let r = drain (length ids) adjacency (starting ids links) in
      let done = loop_ends ids edges links unique linked in
      let size = length-left ids edges adjacency [] r.0 unique done.topological in
      let (full, same) = kept r.0 order (length ids) _ h in
      let (once, apart, known) = once_all ids edges adjacency [] r.0 done.topological in
      let none_left : left ids (after [] r.0) ≡ 0 = omega (arith, size, full, left-fresh ids) in
      let same_nodes : (v : ℕ) → contains v r.0 ≡ contains v ids = λ v.
        ground
          (arith, known v, left-zero ids (after [] r.0) v none_left, contains-after v [] r.0) in
      subst (IsOrder ids edges) same (record {
        same_nodes = same_nodes;
        once = once;
        forward =
            All-zip edges (λ e known move. move refl (same_nodes e.target_node_id ∙ known.1))
              linked.ends (forward_each ids edges adjacency [] r.0 done.topological);
      })

  pub drained-ok :
      (ids : List ℕ) (edges : List (GraphEdge F)) (links : Links) (rank : ℕ → ℕ)
      → Unique ids
      → Linked ids edges no_links links
      → IsRanked edges rank
      → (order : List ℕ) × (drained ids links ≡ ok order)
  unfolding drained
  drained-ok ids edges links rank unique linked ranked =
      let adjacency = λ (u : ℕ). sort_ids (links.adjacency u) in
      let r = drain (length ids) adjacency (starting ids links) in
      let done = loop_ends ids edges links unique linked in
      let size = length-left ids edges adjacency [] r.0 unique done.topological in
      let none_left = left_none ids (after [] r.0) (
        All-contains ids λ v m.
          each_gone ids edges adjacency rank (after [] r.0) r.1 linked.ends ranked done.inv
            done.empty (suc (rank v)) v (omega arith) m) in
      (r.0, ground (arith, size, none_left, left-fresh ids))

  -- For nodes with distinct identifiers, if the order is returned, both ends of every edge are nodes, and the
  -- order has every node once and every edge forward.
  pub order_nodes-IsOrder :
      (ids : List ℕ) (edges : List (GraphEdge F)) (order : List ℕ)
      → Unique ids
      → order_nodes ids edges ≡ ok order
      → IsOrder ids edges order × All (HasEnds ids) edges
  unfolding order_nodes
  order_nodes-IsOrder ids edges order unique h =
      let (links, made, rest) =
        bind_ok (link (sort_ids ids) edges no_links) (drained (sort_ids ids)) h in
      let linked = link-Linked (sort_ids ids) edges no_links links made in
      let sorted =
        drained-IsOrder (sort_ids ids) edges links order (Unique-sort_by ltb ids unique) linked
          rest in
      (
        record {
          same_nodes = λ v. sorted.same_nodes v ∙ contains-sort_by ltb v ids;
          once = sorted.once;
          forward = sorted.forward;
        },
        All-imp edges
            (λ e k. (
              sym (contains-sort_by ltb e.source_node_id ids) ∙ k.0,
              sym (contains-sort_by ltb e.target_node_id ids) ∙ k.1,
            ))
            linked.ends,
      )
