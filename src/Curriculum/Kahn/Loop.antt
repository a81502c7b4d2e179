-- ===== src/Curriculum/Kahn/Loop.antt =====
-- The `while` loop of `_topological_order`: its invariant, and that enough rounds empty the heap.
use autonomus_academic_assis.Base.{
  ℕ, zero, suc, ◌+◌, ◌≤◌, ◌≡◌, refl, subst, ap, sym, inl, inr, true, false, not, ◌&&◌, List, [],
  ◌∷◌, contains, contains-apart, ◌==◌, length, arith, Unique, ==_iff, List-cases, Bool-cases, All,
}
use autonomus_academic_assis.Base.Floats.{Floats}
use autonomus_academic_assis.Planner.State.{GraphEdge}
use autonomus_academic_assis.Curriculum.Kahn.{Frontier, release, drain}
use autonomus_academic_assis.Curriculum.Kahn.Counting.{
  count, left, left-cons, left-zero, pending, children, pending-cons,
}
use autonomus_academic_assis.Curriculum.Kahn.Release.{Settled, release-Released}

-- The nodes of `ordered` have gone, too.
abbrev pub after : List ℕ → List ℕ → List ℕ
after gone [] = gone
after gone (u ∷ ordered) = after (u ∷ gone) ordered

drain-nil :
    (rounds : ℕ) (adjacency : ℕ → List ℕ) (s : Frontier)
    → s.ready ≡ []
    → drain (suc rounds) adjacency s ≡ ([], s)
unfolding drain
drain-nil rounds adjacency s e = simp (e, drain)

drain-cons :
    (rounds : ℕ) (adjacency : ℕ → List ℕ) (s : Frontier) (u : ℕ) (rest : List ℕ)
    → s.ready ≡ u ∷ rest
    → let r = drain rounds adjacency (release (adjacency u) (record s { ready = rest })) in
      drain (suc rounds) adjacency s ≡ (u ∷ r.0, r.1)
unfolding drain
drain-cons rounds adjacency s u rest e = simp (e, drain)

module _ {F : Floats} where
  -- Both ends are nodes.
  abbrev pub HasEnds : List ℕ → GraphEdge F → Type 0
  HasEnds ids e = (contains e.source_node_id ids ≡ true) × (contains e.target_node_id ids ≡ true)

  pending-known :
      (ids : List ℕ) (edges : List (GraphEdge F)) (gone : List ℕ) (v : ℕ)
      → All (HasEnds ids) edges
      → contains v ids ≡ false
      → pending edges gone v ≡ 0
  pending-known ids [] gone v h k = refl
  pending-known ids (e ∷ edges) gone v h k =
      let again = pending-known ids edges gone v h.1 k in
      let apart = contains-apart v e.target_node_id ids in ground (arith, again, apart, k, h.0)

  module _ (ids : List ℕ) (edges : List (GraphEdge F)) (adjacency : ℕ → List ℕ) where
    -- The nodes of `gone` left the heap, in reverse.
    pub record Inv (gone : List ℕ) (s : Frontier) : Type 0 where
      pub settled : Settled s
      pub degrees : (v : ℕ) → s.indegree v ≡ pending edges gone v
      pub members :
          (v : ℕ)
          → contains v s.ready
            ≡ (contains v ids && not (contains v gone)) && (pending edges gone v == 0)
      pub past : (v : ℕ) → contains v gone ≡ true → pending edges gone v ≡ 0

    -- Each node comes once, and when no edge from a node that is still to come leads to it.
    abbrev pub Topological : List ℕ → List ℕ → Type 0
    Topological gone [] = Unit
    Topological gone (u ∷ ordered) =
        (contains u ids ≡ true)
        × (contains u gone ≡ false)
        × (pending edges gone u ≡ 0)
        × Topological (u ∷ gone) ordered

    -- What the loop makes of a state that meets the invariant, with enough rounds.
    pub record Drained (gone : List ℕ) (r : List ℕ × Frontier) : Type 0 where
      pub topological : Topological gone r.0
      pub inv : Inv (after gone r.0) r.1
      pub empty : r.1.ready ≡ []

    pub length-left :
        (gone ordered : List ℕ)
        → Unique ids
        → Topological gone ordered
        → length ordered + left ids (after gone ordered) ≡ left ids gone
    length-left gone [] d h = omega arith
    length-left gone (u ∷ ordered) d h =
        let again = length-left (u ∷ gone) ordered d h.3 in
        let less = left-cons ids gone u d h.0 h.1 in omega (arith, again, less)

    module _ (ends : All (HasEnds ids) edges)
        (linked : (u v : ℕ) → count v (adjacency u) ≡ count v (children edges u)) where
      popped :
          (gone : List ℕ) (s : Frontier) (u : ℕ) (rest : List ℕ)
          → s.ready ≡ u ∷ rest
          → Inv gone s
          → (contains u ids ≡ true)
            × (contains u gone ≡ false)
            × (pending edges gone u ≡ 0)
            × Settled (record s { ready = rest })
            × (contains u rest ≡ false)
      popped gone s u rest e h =
          let at = ap (contains u) e in
          let unique = subst Unique e h.settled.once in
          let ready = h.members u in
          (
            ground (arith, at, ready),
            ground (arith, at, ready),
            ground (arith, at, ready),
            record {
              free = λ v m. ground (arith, ap (contains v) e, h.settled.free v, m);
              once = unique.1;
            },
            unique.0,
          )

      Inv-release :
          (gone : List ℕ) (s : Frontier) (u : ℕ) (rest : List ℕ)
          → s.ready ≡ u ∷ rest
          → Inv gone s
          → Inv (u ∷ gone) (release (adjacency u) (record s { ready = rest }))
      Inv-release gone s u rest e h =
          let (known, new, free, set, once) = popped gone s u rest e h in
          let done = release-Released (adjacency u) (record s { ready = rest }) set in
          record {
            settled = done.settled;
            degrees = λ v.
                ground
                  (arith, done.degrees v, h.degrees v, linked u v, pending-cons edges gone u v new);
            members = λ v. elim (Bool-cases (v == u)) [
              | inl e ↦
                  let q = (==_iff v u).0 e in
                  let same = ap (pending edges gone) q in
                  let gone_now = ap (λ x. contains x rest) q in
                  ground (arith, done.members v, same, free, gone_now, once, h.degrees v, e)
              | inr n ↦
                  let at = ap (contains v) e in
                  ground (
                    arith,
                    done.members v,
                    at,
                    n,
                    h.members v,
                    h.past v,
                    h.degrees v,
                    linked u v,
                    pending-cons edges gone u v new,
                    pending-known ids edges gone v ends,
                  )
            ];
            past = λ v m. elim (Bool-cases (v == u)) [
              | inl e ↦
                  let same = ap (pending edges gone) ((==_iff v u).0 e) in
                  ground (arith, pending-cons edges gone u v new, same, free)
              | inr n ↦ ground (arith, pending-cons edges gone u v new, h.past v, m, n)
            ];
          }

      pub drain-Drained :
          Unique ids
          → (rounds : ℕ) (gone : List ℕ) (s : Frontier) → left ids gone ≤ rounds
          → Inv gone s
          → Drained gone (drain rounds adjacency s)
      unfolding drain
      drain-Drained d zero gone s m h = elim (List-cases s.ready) [
        | inl empty ↦ record { topological = tt; inv = h; empty = empty }
        | inr (u, rest, e) ↦
            let (known, new, _, _, _) = popped gone s u rest e h in
            absurd (cc (left-zero ids gone u (omega arith) known, new))
      ]
      drain-Drained d (suc rounds) gone s m h = elim (List-cases s.ready) [
        | inl empty ↦
            subst (Drained gone) (sym (drain-nil rounds adjacency s empty))
              (record { topological = tt; inv = h; empty = empty })
        | inr (u, rest, e) ↦
            let (known, new, free, _, _) = popped gone s u rest e h in
            let less = left-cons ids gone u d known new in
            let done =
              drain-Drained d rounds (u ∷ gone) (release (adjacency u) (record s { ready = rest }))
                (omega (arith, less)) (Inv-release gone s u rest e h) in
            subst (Drained gone) (sym (drain-cons rounds adjacency s u rest e)) (record {
              topological = (known, new, free, done.topological);
              inv = done.inv;
              empty = done.empty;
            })
      ]
