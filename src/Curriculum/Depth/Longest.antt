-- ===== src/Curriculum/Depth/Longest.antt =====
-- The depth of packages/curriculum/graph.py is the length of the longest chain of edges into a node.
use autonomus_academic_assis.Base.{
  put_holds, put, ℕ, suc, ◌+◌, ◌≤◌, ◌<◌, ◌≡◌, refl, ap, sym, ◌∙◌, subst, Bool, true, false, List,
  [], ◌∷◌, contains, ◌==◌, ==_iff, max, arith, All, All-contains, Unique, Bool-cases, inl, inr, ok,
  bind_ok,
}
use native.Mathlib.Omega.{max_cases}
use autonomus_academic_assis.Base.Floats.{Floats}
use autonomus_academic_assis.Planner.State.{GraphEdge}
use autonomus_academic_assis.Curriculum.Kahn.{order_nodes}
use autonomus_academic_assis.Curriculum.Kahn.Correct.{order_nodes-IsOrder}
use autonomus_academic_assis.Curriculum.Kahn.Decides.{has_edge, precedes-source}
use autonomus_academic_assis.Curriculum.Adjacency.{
  collect_children, contains-collect_children, IsForward, IsOrder-IsForward, IsForward-tail,
  IsForward-head, forward_edge,
}
use autonomus_academic_assis.Curriculum.Depth.{deepen, deepen_all, depth_nodes}

-- A chain of `n` steps that ends at a node.
pub data Chain (step : ℕ → ℕ → Bool) : ℕ → ℕ → Type 0 where
  start : {v : ℕ} → Chain step 0 v
  onward : {n a b : ℕ} → Chain step n a → step a b ≡ true → Chain step (n + 1) b

abbrev Attained : (ℕ → ℕ → Bool) → (ℕ → ℕ) → Type 0
Attained step depth = (v : ℕ) → Chain step (depth v) v

max_attained : (m n : ℕ) (P : ℕ → Type 0) → P m → P n → P (max m n)
max_attained m n P p q =
    max_cases m n (P (max m n)) (λ _ e. subst P (sym e) q) (λ _ e. subst P (sym e) p)

module _ (step : ℕ → ℕ → Bool) where
  Attained-deepen :
      (u : ℕ) (children : List ℕ) (depth : ℕ → ℕ)
      → All (λ v. step u v ≡ true) children
      → Attained step depth
      → Attained step (deepen u children depth)
  unfolding deepen
  Attained-deepen u [] depth h k = k
  Attained-deepen u (child ∷ children) depth h k =
      Attained-deepen u children (put depth child (max (depth child) (depth u + 1))) h.1 λ v.
        put_holds (λ x n. Chain step n x) depth child (max (depth child) (depth u + 1)) v
          (max_attained (depth child) (depth u + 1) (λ n. Chain step n child) (k child)
            (onward (k u) h.0))
          (k v)

  Attained-deepen_all :
      (order : List ℕ) (adjacency : ℕ → List ℕ) (depth : ℕ → ℕ)
      → ((u v : ℕ) → contains v (adjacency u) ≡ true → step u v ≡ true)
      → Attained step depth
      → Attained step (deepen_all order adjacency depth)
  unfolding deepen_all
  Attained-deepen_all [] adjacency depth h k = k
  Attained-deepen_all (u ∷ order) adjacency depth h k =
      Attained-deepen_all order adjacency (deepen u (adjacency u) depth) h
        (Attained-deepen u (adjacency u) depth (All-contains (adjacency u) (h u)) k)

deepen_grows :
    (u : ℕ) (children : List ℕ) (depth : ℕ → ℕ) (v : ℕ) → depth v ≤ deepen u children depth v
unfolding deepen
deepen_grows u [] depth v = omega arith
deepen_grows u (child ∷ children) depth v =
    let again = deepen_grows u children (put depth child (max (depth child) (depth u + 1))) v in
    let here : depth v ≤ put depth child (max (depth child) (depth u + 1)) v =
      put_holds (λ x n. depth x ≤ n) depth child (max (depth child) (depth u + 1)) v (omega arith)
        (omega arith) in
    omega (arith, again, here)

deepen_same :
    (u : ℕ) (children : List ℕ) (depth : ℕ → ℕ) (v : ℕ)
    → contains v children ≡ false
    → deepen u children depth v ≡ depth v
unfolding deepen
deepen_same u [] depth v h = refl
deepen_same u (child ∷ children) depth v h =
    let again = deepen_same u children (put depth child (max (depth child) (depth u + 1))) v in
    ground (arith, again, h)

deepen_passes :
    (u : ℕ) (children : List ℕ) (depth : ℕ → ℕ) (v : ℕ)
    → contains u children ≡ false
    → contains v children ≡ true
    → suc (depth u) ≤ deepen u children depth v
unfolding deepen
deepen_passes u [] depth v n h = absurd (cc h)
deepen_passes u (child ∷ children) depth v n h =
    let next = put depth child (max (depth child) (depth u + 1)) in
    let again = deepen_passes u children next v in
    let grows = deepen_grows u children next v in
    let same : next u ≡ depth u = ground (arith, n) in
    elim (Bool-cases (v == child)) [
      | inl q ↦
          let here : next v ≡ max (depth child) (depth u + 1) = ground (arith, q) in
          omega (arith, here, grows)
      | inr k ↦ omega (arith, again (ground (arith, n)) (ground (arith, h, k)), same)
    ]

deepen_all_grows :
    (order : List ℕ) (adjacency : ℕ → List ℕ) (depth : ℕ → ℕ) (v : ℕ)
    → depth v ≤ deepen_all order adjacency depth v
unfolding deepen_all
deepen_all_grows [] adjacency depth v = omega arith
deepen_all_grows (u ∷ order) adjacency depth v = omega (
  arith,
  deepen_grows u (adjacency u) depth v,
  deepen_all_grows order adjacency (deepen u (adjacency u) depth) v,
)

deepen_all_same :
    (order : List ℕ) (adjacency : ℕ → List ℕ) (depth : ℕ → ℕ) (v : ℕ)
    → ((u : ℕ) → contains u order ≡ true → contains v (adjacency u) ≡ false)
    → deepen_all order adjacency depth v ≡ depth v
unfolding deepen_all
deepen_all_same [] adjacency depth v h = refl
deepen_all_same (u ∷ order) adjacency depth v h =
    deepen_all_same order adjacency (deepen u (adjacency u) depth) v
      (λ w m. h w (ground (arith, m)))
    ∙ deepen_same u (adjacency u) depth v (h u (ground arith))

deepen_all_passes :
    (order : List ℕ) (adjacency : ℕ → List ℕ) (depth : ℕ → ℕ) (a b : ℕ)
    → Unique order
    → IsForward order adjacency
    → contains a order ≡ true
    → contains b (adjacency a) ≡ true
    → deepen_all order adjacency depth a < deepen_all order adjacency depth b
unfolding deepen_all
deepen_all_passes [] adjacency depth a b unique forward known child = absurd (cc known)
deepen_all_passes (u ∷ order) adjacency depth a b unique forward known child =
    let next = deepen u (adjacency u) depth in
    elim (Bool-cases (a == u)) [
      | inl q ↦
          let final = deepen_all order adjacency next in
          let same = (==_iff a u).0 q in
          let child_u = subst (λ x. contains b (adjacency x) ≡ true) same child in
          let passes =
            deepen_passes u (adjacency u) depth b
              (IsForward-head u order adjacency u unique forward (ground arith)) child_u in
          let grows = deepen_all_grows order adjacency next b in
          let kept =
            deepen_all_same order adjacency next u
              (λ w m. IsForward-head u order adjacency w unique forward (ground (arith, m))) in
          let first =
            deepen_same u (adjacency u) depth u
              (IsForward-head u order adjacency u unique forward (ground arith)) in
          omega (arith, passes, grows, kept, first, ap final same)
      | inr n ↦
          deepen_all_passes order adjacency next a b unique.1
            (IsForward-tail u order adjacency unique forward) (ground (arith, known, n)) child
    ]

Chain-bound :
    (step : ℕ → ℕ → Bool) (depth : ℕ → ℕ) (n v : ℕ)
    → ((a b : ℕ) → step a b ≡ true → depth a < depth b)
    → Chain step n v
    → n ≤ depth v
Chain-bound step depth _ v h start = omega arith
Chain-bound step depth _ v h (onward c e) = omega (arith, Chain-bound step depth _ _ h c, h _ v e)

module _ {F : Floats} where
  -- `n` is the length of a longest chain of edges into `v`.
  pub record IsLongest (edges : List (GraphEdge F)) (n v : ℕ) : Type 0 where
    pub attained : Chain (has_edge edges) n v
    pub bound : (m : ℕ) → Chain (has_edge edges) m v → m ≤ n

  -- For nodes with distinct identifiers, if the depths are returned, the depth of a node is the length of
  -- a longest chain of edges into the node.
  pub depth_nodes-IsLongest :
      (ids : List ℕ) (edges : List (GraphEdge F)) (depth : ℕ → ℕ)
      → Unique ids
      → depth_nodes ids edges ≡ ok depth
      → (v : ℕ) → IsLongest edges (depth v) v
  unfolding depth_nodes
  depth_nodes-IsLongest ids edges depth unique h v =
      let (order, ordered, rest) = bind_ok (order_nodes ids edges) _ h in
      let (adjacency, collected, same) = bind_ok (collect_children ids edges (λ u. [])) _ rest in
      let (sorted, _) = order_nodes-IsOrder ids edges order unique ordered in
      let children = contains-collect_children ids edges (λ u. []) adjacency collected in
      let final = deepen_all order adjacency (λ v. 0) in
      let value : final ≡ depth = cc same in
      let forward = IsOrder-IsForward ids edges order adjacency sorted children in
      subst (λ d. IsLongest edges (d v) v) value
        (record {
          attained =
              Attained-deepen_all (has_edge edges) order adjacency (λ v. 0)
                (λ a b m. sym (children a b) ∙ m) (λ v. start) v;
          bound = λ n c.
              Chain-bound (has_edge edges) final n v
                (λ a b e.
                  deepen_all_passes order adjacency (λ v. 0) a b sorted.once forward
                    (precedes-source order a b (forward_edge edges order a b sorted.forward e))
                    (children a b ∙ e))
                c;
        })
