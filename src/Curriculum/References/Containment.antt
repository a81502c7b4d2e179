-- ===== src/Curriculum/References/Containment.antt =====
-- The containment check of `validate_references`, packages/domain/graph.py, accepts exactly the forests.
use autonomus_academic_assis.Base.{
  ℕ, zero, suc, ◌+◌, ◌≡◌, refl, ap, sym, ◌∙◌, subst, ◌⊎◌, inl, inr, true, Option, none, some,
  Option-cases, some_same, ok_same, List, ◌∷◌, contains, ◌==◌, ==_iff, arith, Bool-cases, ok,
}
use autonomus_academic_assis.Base.Floats.{Floats}
use autonomus_academic_assis.Curriculum.Definition.{GraphNode}
use autonomus_academic_assis.Curriculum.References.{find_node, climb}

module _ {F : Floats} where
  -- `n` steps up the parents lead from the node to a root.
  pub data Height (nodes : List (GraphNode F)) : ℕ → ℕ → Type 0 where
    root :
        {v : ℕ} (node : GraphNode F)
        → find_node nodes v ≡ some node
        → node.parent_id ≡ none
        → Height nodes 0 v
    below :
        {n v parent : ℕ} (node : GraphNode F)
        → find_node nodes v ≡ some node
        → node.parent_id ≡ some parent
        → Height nodes n parent
        → Height nodes (n + 1) v

  abbrev pub Rooted : List (GraphNode F) → ℕ → Type 0
  Rooted nodes v = (n : ℕ) × Height nodes n v

  same_parent :
      (nodes : List (GraphNode F)) (v : ℕ) (a b : GraphNode F) {p q : Option ℕ}
      → find_node nodes v ≡ some a
      → find_node nodes v ≡ some b
      → a.parent_id ≡ p
      → b.parent_id ≡ q
      → p ≡ q
  same_parent nodes v a b f g h k =
      let same : a ≡ b = some_same (sym f ∙ g) in sym h ∙ ap (λ node. node.parent_id) same ∙ k

  pub Height-unique :
      (nodes : List (GraphNode F)) {m n v : ℕ} → Height nodes m v → Height nodes n v → m ≡ n
  Height-unique nodes (root a f h) (root b g k) = refl
  Height-unique nodes (root a f h) (below b g k up) = absurd (cc (same_parent nodes _ a b f g h k))
  Height-unique nodes (below a f h up) (root b g k) = absurd (cc (same_parent nodes _ a b f g h k))
  Height-unique nodes (below a f h up) (below b g k down) =
      let same = some_same (same_parent nodes _ a b f g h k) in
      ap (λ n. n + 1) (Height-unique nodes up (subst (Height nodes _) (sym same) down))

  abbrev TopRooted : List (GraphNode F) → Option ℕ → Type 0
  TopRooted nodes none = Unit
  TopRooted nodes (some v) = Rooted nodes v

  Rooted-below :
      (nodes : List (GraphNode F)) (v : ℕ) (node : GraphNode F) (parent : Option ℕ)
      → find_node nodes v ≡ some node
      → node.parent_id ≡ parent
      → TopRooted nodes parent
      → Rooted nodes v
  Rooted-below nodes v node none f h r = (0, root node f h)
  Rooted-below nodes v node (some p) f h (n, up) = (n + 1, below node f h up)

  -- Where the climb returns, the cursor is rooted, and what it adds to the path is.
  pub climb-Rooted :
      (rounds : ℕ) (nodes : List (GraphNode F)) (visited path : List ℕ) (cursor : Option ℕ)
      (done : List ℕ)
      → ((v : ℕ) → contains v visited ≡ true → Rooted nodes v)
      → climb rounds nodes visited path cursor ≡ ok done
      → TopRooted nodes cursor
        × ((v : ℕ) → contains v done ≡ true → (contains v path ≡ true) ⊎ Rooted nodes v)
  unfolding climb
  climb-Rooted zero nodes visited path cursor done known h = absurd (cc h)
  climb-Rooted (suc rounds) nodes visited path none done known h =
      (tt, λ v m. inl (ap (contains v) (ok_same h) ∙ m))
  climb-Rooted (suc rounds) nodes visited path (some c) done known h =
      elim (Bool-cases (contains c visited)) [
        | inl q ↦
            let same : ok path ≡ ok done = ground (arith, h, q) in
            (known c q, λ v m. inl (ap (contains v) (ok_same same) ∙ m))
        | inr n ↦ elim (Bool-cases (contains c path)) [
          | inl q ↦ absurd (ground (arith, h, n, q))
          | inr k ↦ elim (Option-cases (find_node nodes c)) [
            | inl e ↦ absurd (ground (arith, h, n, k, e))
            | inr (node, e) ↦
                let (up, new) =
                  climb-Rooted rounds nodes visited (c ∷ path) node.parent_id done known
                    (ground (arith, h, n, k, e)) in
                let here = Rooted-below nodes c node node.parent_id e refl up in
                (here, λ v m. added v c path here (new v m))
          ]
        ]
      ]
    where
      added :
          (v c : ℕ) (path : List ℕ)
          → Rooted nodes c
          → (contains v (c ∷ path) ≡ true) ⊎ Rooted nodes v
          → (contains v path ≡ true) ⊎ Rooted nodes v
      added v c path here (inr r) = inr r
      added v c path here (inl m) = elim (Bool-cases (v == c)) [
        | inl q ↦ inr (subst (Rooted nodes) (sym ((==_iff v c).0 q)) here)
        | inr n ↦ inl (ground (arith, m, n))
      ]
