-- ===== src/Curriculum/Kahn/Release.antt =====
-- What the inner loop of `_topological_order` does to the degrees and to the heap.
use autonomus_academic_assis.Base.{
  put, ℕ, ◌-◌, ◌≡◌, true, ◌&&◌, ◌||◌, List, [], ◌∷◌, contains, ◌==◌, ltb, leb, if◌then◌else◌, arith,
  Unique, insert_by, contains-insert_by, Unique-insert_by,
}
use autonomus_academic_assis.Curriculum.Kahn.{Frontier, release}
use autonomus_academic_assis.Curriculum.Kahn.Counting.{count}

-- Ready nodes have no open edges, and stand in the heap once.
pub record Settled (s : Frontier) : Type 0 where
  pub free : (v : ℕ) → contains v s.ready ≡ true → s.indegree v ≡ 0
  pub once : Unique s.ready

abbrev first : ℕ → Frontier → Frontier
first child s = record {
  indegree = put s.indegree child (s.indegree child - 1);
  ready = if s.indegree child == 1 then insert_by ltb child s.ready else s.ready;
}

first-ready :
    (child : ℕ) (s : Frontier) (v : ℕ)
    → contains v (first child s).ready
      ≡ ((v == child) && (s.indegree child == 1)) || contains v s.ready
first-ready child s v = let put = contains-insert_by ltb v child s.ready in ground (arith, put)

first-Settled : (child : ℕ) (s : Frontier) → Settled s → Settled (first child s)
first-Settled child s h = record {
  free = λ v m. let r = first-ready child s v in ground (arith, r, m, h.free v);
  once = let u = Unique-insert_by ltb child s.ready in ground (arith, u, h.once, h.free child);
}

-- After the children, a degree has lost as many as there are; a node is ready if it was, or if its degree
-- was above 0 and is 0 now.
pub record Released (children : List ℕ) (s t : Frontier) : Type 0 where
  pub settled : Settled t
  pub degrees : (v : ℕ) → t.indegree v ≡ s.indegree v - count v children
  pub members :
      (v : ℕ)
      → contains v t.ready
        ≡ contains v s.ready || (ltb 0 (s.indegree v) && leb (s.indegree v) (count v children))

pub release-Released :
    (children : List ℕ) (s : Frontier) → Settled s → Released children s (release children s)
unfolding release
release-Released [] s h = record {
  settled = h;
  degrees = λ v. ground arith;
  members = λ v. ground arith;
}
release-Released (child ∷ children) s h =
    let rest = release-Released children (first child s) (first-Settled child s h) in
    record {
      settled = rest.settled;
      degrees = λ v. let d = rest.degrees v in ground (arith, d);
      members = λ v.
          let m = rest.members v in let r = first-ready child s v in ground (arith, m, r, h.free v);
    }
