-- ===== src/Curriculum/Kahn/Order.antt =====
-- What a topological order is, and what the invariant of the loop tells of the order that it makes:
-- packages/curriculum/graph.py.
use autonomus_academic_assis.Base.{
  ℕ, zero, suc, ◌<◌, ◌≡◌, refl, ap, Bool, true, false, ◌||◌, List, [], ◌∷◌, contains, ◌==◌, ==_iff,
  if◌then◌else◌, arith, All, All-zip, All-each, Unique, length, Bool-cases, inl, inr,
}
use autonomus_academic_assis.Base.Floats.{Floats}
use autonomus_academic_assis.Planner.State.{GraphEdge}
use autonomus_academic_assis.Curriculum.Kahn.{Frontier}
use autonomus_academic_assis.Curriculum.Kahn.Counting.{left, pending}
use autonomus_academic_assis.Curriculum.Kahn.Loop.{HasEnds, after, Inv, Topological}

-- `a` comes before `b` in the list.
abbrev pub precedes : List ℕ → ℕ → ℕ → Bool
precedes [] a b = false
precedes (x ∷ xs) a b = if x == a then contains b xs else precedes xs a b

pub left-fresh : (ids : List ℕ) → left ids [] ≡ length ids
left-fresh [] = refl
left-fresh (v ∷ ids) = ap suc (left-fresh ids)

pub left_none : (ids gone : List ℕ) → All (λ v. contains v gone ≡ true) ids → left ids gone ≡ 0
left_none [] gone h = refl
left_none (v ∷ ids) gone h = let again = left_none ids gone h.1 in ground (arith, again, h.0)

pub contains-after :
    (v : ℕ) (gone ordered : List ℕ)
    → contains v (after gone ordered) ≡ contains v ordered || contains v gone
contains-after v gone [] = refl
contains-after v gone (u ∷ ordered) =
    let again = contains-after v (u ∷ gone) ordered in ground (arith, again)

module _ {F : Floats} where
  -- A rank that rises along every edge: there is no cycle.
  abbrev pub IsRanked : List (GraphEdge F) → (ℕ → ℕ) → Type 0
  IsRanked edges rank = All (λ e. rank e.source_node_id < rank e.target_node_id) edges

  -- Every node once, and every edge forward.
  pub record IsOrder (ids : List ℕ) (edges : List (GraphEdge F)) (order : List ℕ) : Type 0 where
    pub same_nodes : (v : ℕ) → contains v order ≡ contains v ids
    pub once : Unique order
    pub forward : All (λ e. precedes order e.source_node_id e.target_node_id ≡ true) edges

  -- Where no edge into `v` is pending, the sources of all edges into it have gone.
  settled_sources :
      (edges : List (GraphEdge F)) (gone : List ℕ) (v : ℕ)
      → pending edges gone v ≡ 0
      → All (λ e. (v == e.target_node_id) ≡ true → contains e.source_node_id gone ≡ true) edges
  settled_sources [] gone v h = tt
  settled_sources (e ∷ edges) gone v h =
      (λ q. ground (arith, h, q), settled_sources edges gone v (ground (arith, h)))

  none_pending :
      (edges : List (GraphEdge F)) (gone : List ℕ) (v : ℕ)
      → All (λ e. (v == e.target_node_id) ≡ true → contains e.source_node_id gone ≡ true) edges
      → pending edges gone v ≡ 0
  none_pending [] gone v h = refl
  none_pending (e ∷ edges) gone v h =
      let again = none_pending edges gone v h.1 in ground (arith, again, h.0)

  module _ (ids : List ℕ) (edges : List (GraphEdge F)) (adjacency : ℕ → List ℕ) where
    pub forward_each :
        (gone ordered : List ℕ)
        → Topological ids edges adjacency gone ordered
        → All
            (λ e.
              contains e.source_node_id gone ≡ false
              → contains e.target_node_id ordered ≡ true
              → precedes ordered e.source_node_id e.target_node_id ≡ true)
            edges
    forward_each gone [] t = All-each edges λ e new m. absurd (cc m)
    forward_each gone (u ∷ ordered) t =
        All-zip edges (λ e before later new m. ground (arith, before, later, new, m))
          (settled_sources edges gone u t.2) (forward_each (u ∷ gone) ordered t.3)

    pub once_all :
        (gone ordered : List ℕ)
        → Topological ids edges adjacency gone ordered
        → Unique ordered
          × ((v : ℕ) → contains v ordered ≡ true → contains v gone ≡ false)
          × ((v : ℕ) → contains v ordered ≡ true → contains v ids ≡ true)
    once_all gone [] t = (tt, λ v m. absurd (cc m), λ v m. absurd (cc m))
    once_all gone (u ∷ ordered) t =
        let (unique, apart, known) = once_all (u ∷ gone) ordered t.3 in
        (
          (ground (arith, apart u), unique),
          λ v m. elim (Bool-cases (v == u)) [
            | inl q ↦ rw ((==_iff v u).0 q) t.1
            | inr n ↦ ground (arith, apart v, m, n)
          ],
          λ v m. elim (Bool-cases (v == u)) [
            | inl q ↦ rw ((==_iff v u).0 q) t.0
            | inr n ↦ ground (arith, known v, m, n)
          ],
        )

    -- Along a rank no node is left: each one's predecessors have gone before it.
    pub each_gone :
        (rank : ℕ → ℕ) (gone : List ℕ) (s : Frontier)
        → All (HasEnds ids) edges
        → IsRanked edges rank
        → Inv ids edges adjacency gone s
        → s.ready ≡ []
        → (bound v : ℕ) → rank v < bound
        → contains v ids ≡ true
        → contains v gone ≡ true
    each_gone rank gone s ends ranked inv empty zero v h m = absurd (omega arith)
    each_gone rank gone s ends ranked inv empty (suc bound) v h m =
        elim (Bool-cases (contains v gone)) [
          | inl q ↦ q
          | inr n ↦
              let settled = none_pending edges gone v (
                All-zip edges
                  (λ e known risen q.
                    each_gone rank gone s ends ranked inv empty bound e.source_node_id
                      (omega (arith, ap rank ((==_iff v e.target_node_id).0 q))) known.0)
                  ends ranked) in
              let idle = ap (contains v) empty in
              absurd (ground (arith, inv.members v, m, n, settled, idle))
        ]
