-- ===== src/Curriculum/Kahn/Counting.antt =====
-- Counts over the nodes and the edges that the proofs about the topological order share.
use autonomus_academic_assis.Base.{
  ℕ, suc, ◌+◌, ◌≡◌, refl, true, false, not, ◌&&◌, List, [], ◌∷◌, map, keep, contains, ◌==◌, arith,
  count_if, Unique,
}
use autonomus_academic_assis.Base.Floats.{Floats}
use autonomus_academic_assis.Planner.State.{GraphEdge}

-- How often `v` occurs.
abbrev pub count : ℕ → List ℕ → ℕ
count v = count_if (λ x. v == x)

-- The nodes of `ids` that are not in `gone`.
abbrev pub left : List ℕ → List ℕ → ℕ
left ids gone = count_if (λ v. not (contains v gone)) ids

pub left-absent :
    (ids gone : List ℕ) (u : ℕ) → contains u ids ≡ false → left ids (u ∷ gone) ≡ left ids gone
left-absent [] gone u h = refl
left-absent (v ∷ ids) gone u h = let again = left-absent ids gone u in ground (arith, again)

-- One more node is gone.
pub left-cons :
    (ids gone : List ℕ) (u : ℕ)
    → Unique ids
    → contains u ids ≡ true
    → contains u gone ≡ false
    → suc (left ids (u ∷ gone)) ≡ left ids gone
left-cons [] gone u d h k = absurd (cc h)
left-cons (v ∷ ids) gone u d h k =
    let again = left-cons ids gone u d.1 in
    let same = left-absent ids gone u in ground (arith, again, same)

pub left-zero :
    (ids gone : List ℕ) (v : ℕ) → left ids gone ≡ 0 → contains v ids ≡ true → contains v gone ≡ true
left-zero [] gone v h k = absurd (cc k)
left-zero (u ∷ ids) gone v h k = let again = left-zero ids gone v in ground (arith, again)

module _ {F : Floats} where
  -- The edges into `v` from a node that is not gone.
  abbrev pub pending : List (GraphEdge F) → (gone : List ℕ) → ℕ → ℕ
  pending edges gone v =
      count_if (λ e. (v == e.target_node_id) && not (contains e.source_node_id gone)) edges

  -- The children of `u`.
  abbrev pub children : List (GraphEdge F) → ℕ → List ℕ
  children edges u =
      map (λ e. e.target_node_id) (keep (λ (e : GraphEdge F). e.source_node_id == u) edges)

  -- Taking `u` away settles exactly its edges.
  pub pending-cons :
      (edges : List (GraphEdge F)) (gone : List ℕ) (u v : ℕ)
      → contains u gone ≡ false
      → pending edges (u ∷ gone) v + count v (children edges u) ≡ pending edges gone v
  pending-cons [] gone u v h = refl
  pending-cons (e ∷ edges) gone u v h =
      let again = pending-cons edges gone u v h in ground (arith, again, h)
