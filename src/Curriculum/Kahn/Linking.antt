-- ===== src/Curriculum/Kahn/Linking.antt =====
-- What the dictionaries of `_topological_order` hold when the loop over the edges is done.
use autonomus_academic_assis.Base.{
  put, ℕ, ◌+◌, ◌≡◌, refl, Bool, true, false, ◌&&◌, List, [], ◌∷◌, ◌++◌, contains, ◌==◌,
  if◌then◌else◌, arith, All, ap, ==_iff, Bool-cases, inl, inr, Result, ok, raise, key_error,
}
use autonomus_academic_assis.Base.Floats.{Floats}
use autonomus_academic_assis.Planner.State.{GraphEdge}
use autonomus_academic_assis.Curriculum.Kahn.{Links, link}
use autonomus_academic_assis.Curriculum.Kahn.Counting.{count, pending, children}
use autonomus_academic_assis.Curriculum.Kahn.Loop.{HasEnds}

count-++ : (v c : ℕ) (xs : List ℕ) → count v (xs ++ c ∷ []) ≡ count v xs + (if v == c then 1 else 0)
count-++ v c [] = ground arith
count-++ v c (x ∷ xs) = let again = count-++ v c xs in ground (arith, again)

guarded :
    (b : Bool) (r : Result Links) (links : Links)
    → (if b then r else raise key_error) ≡ ok links
    → (b ≡ true) × (r ≡ ok links)
guarded true r links h = (refl, h)
guarded false r links h = absurd (cc h)

module _ {F : Floats} (ids : List ℕ) where
  pub record Linked (edges : List (GraphEdge F)) (before links : Links) : Type 0 where
    pub ends : All (HasEnds ids) edges
    pub out :
        (u v : ℕ)
        → count v (links.adjacency u) ≡ count v (before.adjacency u) + count v (children edges u)
    pub into : (v : ℕ) → links.indegree v ≡ before.indegree v + pending edges [] v

  abbrev linked_one : GraphEdge F → Links → Links
  linked_one e before = record {
    adjacency =
        put before.adjacency e.source_node_id
          (before.adjacency e.source_node_id ++ e.target_node_id ∷ []);
    indegree = put before.indegree e.target_node_id (before.indegree e.target_node_id + 1);
  }

  pub link-Linked :
      (edges : List (GraphEdge F)) (before links : Links)
      → link ids edges before ≡ ok links
      → Linked edges before links
  unfolding link
  link-Linked [] before links h = record {
    ends = tt;
    out = λ u v. ground (arith, h);
    into = λ v. ground (arith, h);
  }
  link-Linked (e ∷ edges) before links h =
      let (known, rest) =
        guarded (contains e.source_node_id ids && contains e.target_node_id ids) _ links h in
      let done = link-Linked edges (linked_one e before) links rest in
      record {
        ends = (ground (arith, known), done.ends);
        out = λ u v.
            let more = done.out u v in
            let appended = count-++ v e.target_node_id (before.adjacency e.source_node_id) in
            elim (Bool-cases (u == e.source_node_id)) [
              | inl q ↦
                  let same =
                    ap (λ x. count v (before.adjacency x)) ((==_iff u e.source_node_id).0 q) in
                  ground (arith, more, appended, same, q)
              | inr n ↦ ground (arith, more, n)
            ];
        into = λ v.
            let more = done.into v in
            elim (Bool-cases (v == e.target_node_id)) [
              | inl q ↦
                  let same = ap before.indegree ((==_iff v e.target_node_id).0 q) in
                  ground (arith, more, same, q)
              | inr n ↦ ground (arith, more, n)
            ];
      }

  pub link-ok :
      (edges : List (GraphEdge F)) (before : Links)
      → All (HasEnds ids) edges
      → (links : Links) × (link ids edges before ≡ ok links)
  unfolding link
  link-ok [] before h = (before, refl)
  link-ok (e ∷ edges) before h = rw (h.0.0, h.0.1) (link-ok edges _ h.1)
