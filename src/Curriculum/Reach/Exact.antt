-- ===== src/Curriculum/Reach/Exact.antt =====
-- The descendants of packages/curriculum/graph.py are the nodes that a walk along the edges reaches.
use autonomus_academic_assis.Base.{
  put_holds, put, ℕ, ◌≡◌, refl, ap, sym, ◌∙◌, subst, true, false, ◌||◌, List, [], ◌∷◌, contains,
  contains-apart, ◌==◌, ==_iff, arith, All, All-contains, Unique, Bool-cases, ◌↔◌, inl, inr, ok,
  bind_ok,
}
use autonomus_academic_assis.Base.Floats.{Floats}
use autonomus_academic_assis.Planner.State.{GraphEdge}
use autonomus_academic_assis.Curriculum.Kahn.{order_nodes}
use autonomus_academic_assis.Curriculum.Kahn.Correct.{order_nodes-IsOrder}
use autonomus_academic_assis.Curriculum.Kahn.Decides.{
  has_edge, Walk, along, further, precedes-source,
}
use autonomus_academic_assis.Curriculum.Adjacency.{
  collect_children, contains-collect_children, IsForward, IsOrder-IsForward, IsForward-tail,
  IsForward-head, forward_edge,
}
use autonomus_academic_assis.Curriculum.Reach.{add, update, absorb, absorb_all, descendants_by_node}

contains-add : (v a : ℕ) (xs : List ℕ) → contains v (add a xs) ≡ (v == a) || contains v xs
contains-add v a xs =
    let same : (v == a) ≡ true → contains v xs ≡ contains a xs =
      λ q. ap (λ x. contains x xs) ((==_iff v a).0 q) in
    ground (arith, same)

pub contains-update :
    (v : ℕ) (more xs : List ℕ) → contains v (update more xs) ≡ contains v more || contains v xs
contains-update v [] xs = refl
contains-update v (a ∷ more) xs =
    let again = contains-update v more (add a xs) in
    let here = contains-add v a xs in ground (arith, again, here)

Unique-update : (more xs : List ℕ) → Unique xs → Unique (update more xs)
Unique-update [] xs u = u
Unique-update (a ∷ more) xs u = Unique-update more (add a xs) (ground (arith, u))

-- What one round of the inner loop leaves at each node.
abbrev absorbed : ℕ → ℕ → (ℕ → List ℕ) → ℕ → List ℕ
absorbed u child sets =
    let added = put sets u (add child (sets u)) in put added u (update (added child) (added u))

absorbed_other :
    (u child : ℕ) (sets : ℕ → List ℕ) (v : ℕ) → (v == u) ≡ false → absorbed u child sets v ≡ sets v
absorbed_other u child sets v n = ground (arith, n)

absorbed_node :
    (u child : ℕ) (sets : ℕ → List ℕ)
    → (child == u) ≡ false
    → absorbed u child sets u ≡ update (sets child) (add child (sets u))
absorbed_node u child sets n = ground (arith, n)

contains-absorbed :
    (u child : ℕ) (sets : ℕ → List ℕ) (x : ℕ)
    → (child == u) ≡ false
    → contains x (absorbed u child sets u)
      ≡ contains x (sets child) || ((x == child) || contains x (sets u))
contains-absorbed u child sets x n =
    ap (contains x) (absorbed_node u child sets n)
    ∙ contains-update x (sets child) (add child (sets u))
    ∙ ap (λ b. contains x (sets child) || b) (contains-add x child (sets u))

absorb_other :
    (u : ℕ) (children : List ℕ) (sets : ℕ → List ℕ) (v : ℕ)
    → (v == u) ≡ false
    → absorb u children sets v ≡ sets v
unfolding absorb
absorb_other u [] sets v n = refl
absorb_other u (child ∷ children) sets v n =
    absorb_other u children (absorbed u child sets) v n ∙ absorbed_other u child sets v n

Unique-absorb :
    (u : ℕ) (children : List ℕ) (sets : ℕ → List ℕ)
    → ((v : ℕ) → Unique (sets v))
    → (v : ℕ) → Unique (absorb u children sets v)
unfolding absorb
Unique-absorb u [] sets h v = h v
Unique-absorb u (child ∷ children) sets h v =
    Unique-absorb u children (absorbed u child sets)
      (λ w.
        put_holds (λ x. Unique) added u (update (added child) (added u)) w
          (Unique-update (added child) (added u) (Unique-added u)) (Unique-added w))
      v
  where
    added : ℕ → List ℕ
    added = put sets u (add child (sets u))

    Unique-added : (w : ℕ) → Unique (added w)
    Unique-added w =
        put_holds (λ x. Unique) sets u (add child (sets u)) w (ground (arith, h u)) (h w)

absorb_keeps :
    (u : ℕ) (children : List ℕ) (sets : ℕ → List ℕ) (x : ℕ)
    → contains u children ≡ false
    → contains x (sets u) ≡ true
    → contains x (absorb u children sets u) ≡ true
unfolding absorb
absorb_keeps u [] sets x n h = h
absorb_keeps u (child ∷ children) sets x n h =
    let here = contains-absorbed u child sets x (ground (arith, n)) in
    absorb_keeps u children (absorbed u child sets) x (ground (arith, n)) (ground (arith, here, h))

-- A child comes in with its own set.
absorb_gains :
    (u : ℕ) (children : List ℕ) (sets : ℕ → List ℕ) (c x : ℕ)
    → contains u children ≡ false
    → contains c children ≡ true
    → ((x == c) || contains x (sets c)) ≡ true
    → contains x (absorb u children sets u) ≡ true
unfolding absorb
absorb_gains u [] sets c x n m h = absurd (cc m)
absorb_gains u (child ∷ children) sets c x n m h = elim (Bool-cases (c == child)) [
  | inl q ↦
      let here = contains-absorbed u child sets x (ground (arith, n)) in
      let same = ap (λ b. (x == b) || contains x (sets b)) ((==_iff c child).0 q) in
      absorb_keeps u children (absorbed u child sets) x (ground (arith, n))
        (ground (arith, here, same, h))
  | inr k ↦
      let other = ap (contains x) (
        absorbed_other u child sets c
          (ground (arith, contains-apart u c (child ∷ children) n m))) in
      absorb_gains u children (absorbed u child sets) c x (ground (arith, n)) (ground (arith, m, k))
        (ground (arith, h, other))
]

module _ {F : Floats} where
  before :
      (edges : List (GraphEdge F)) {a b c : ℕ}
      → has_edge edges a b ≡ true
      → Walk edges b c
      → Walk edges a c
  before edges h (along k) = further (along h) k
  before edges h (further w k) = further (before edges h w) k

  abbrev Walked : List (GraphEdge F) → (ℕ → List ℕ) → Type 0
  Walked edges sets = (v x : ℕ) → contains x (sets v) ≡ true → Walk edges v x

  Walked-absorbed :
      (edges : List (GraphEdge F)) (u child : ℕ) (sets : ℕ → List ℕ) (x : ℕ)
      → has_edge edges u child ≡ true
      → Walked edges sets
      → (contains x (sets child) || ((x == child) || contains x (sets u))) ≡ true
      → Walk edges u x
  Walked-absorbed edges u child sets x h k m = elim (Bool-cases (contains x (sets child))) [
    | inl inside ↦ before edges h (k child x inside)
    | inr outside ↦ elim (Bool-cases (x == child)) [
      | inl q ↦ along (ap (has_edge edges u) ((==_iff x child).0 q) ∙ h)
      | inr n ↦ k u x (ground (arith, m, outside, n))
    ]
  ]

  Walked-absorb :
      (edges : List (GraphEdge F)) (u : ℕ) (children : List ℕ) (sets : ℕ → List ℕ)
      → contains u children ≡ false
      → All (λ c. has_edge edges u c ≡ true) children
      → Walked edges sets
      → Walked edges (absorb u children sets)
  unfolding absorb
  Walked-absorb edges u [] sets n h k = k
  Walked-absorb edges u (child ∷ children) sets n h k =
      Walked-absorb edges u children (absorbed u child sets) (ground (arith, n)) h.1 λ v x m.
        elim (Bool-cases (v == u)) [
          | inl q ↦
              let same = (==_iff v u).0 q in
              let here = contains-absorbed u child sets x (ground (arith, n)) in
              subst (λ y. Walk edges y x) (sym same)
                (Walked-absorbed edges u child sets x h.0 k
                  (sym here ∙ sym (ap (λ y. contains x (absorbed u child sets y)) same) ∙ m))
          | inr r ↦ k v x (sym (ap (contains x) (absorbed_other u child sets v r)) ∙ m)
        ]

  Walked-absorb_all :
      (edges : List (GraphEdge F)) (order : List ℕ) (adjacency : ℕ → List ℕ)
      → Unique order
      → IsForward order adjacency
      → ((u v : ℕ) → contains v (adjacency u) ≡ true → has_edge edges u v ≡ true)
      → Walked edges (absorb_all order adjacency)
  unfolding absorb_all
  Walked-absorb_all edges [] adjacency unique forward h v x m = absurd (cc m)
  Walked-absorb_all edges (u ∷ order) adjacency unique forward h v x m =
      Walked-absorb edges u (adjacency u) (absorb_all order adjacency)
        (IsForward-head u order adjacency u unique forward (ground arith))
        (All-contains (adjacency u) (h u))
        (Walked-absorb_all edges order adjacency unique.1
          (IsForward-tail u order adjacency unique forward) h)
        v x m

Unique-absorb_all :
    (order : List ℕ) (adjacency : ℕ → List ℕ) (v : ℕ) → Unique (absorb_all order adjacency v)
unfolding absorb_all
Unique-absorb_all [] adjacency v = tt
Unique-absorb_all (u ∷ order) adjacency v =
    Unique-absorb u (adjacency u) (absorb_all order adjacency) (Unique-absorb_all order adjacency) v

absorb_all_gains :
    (order : List ℕ) (adjacency : ℕ → List ℕ) (a b x : ℕ)
    → Unique order
    → IsForward order adjacency
    → contains a order ≡ true
    → contains b (adjacency a) ≡ true
    → ((x == b) || contains x (absorb_all order adjacency b)) ≡ true
    → contains x (absorb_all order adjacency a) ≡ true
unfolding absorb_all
absorb_all_gains [] adjacency a b x unique forward known child h = absurd (cc known)
absorb_all_gains (u ∷ order) adjacency a b x unique forward known child h =
    let sets = absorb_all order adjacency in
    let head = IsForward-head u order adjacency a unique forward known in
    let same_b = ap (contains x) (
      absorb_other u (adjacency u) sets b
        (ground (arith, contains-apart u b (adjacency a) head child))) in
    elim (Bool-cases (a == u)) [
      | inl q ↦
          let same = (==_iff a u).0 q in
          ap (λ y. contains x (absorb u (adjacency u) sets y)) same
          ∙ absorb_gains u (adjacency u) sets b x
              (IsForward-head u order adjacency u unique forward (ground arith))
              (subst (λ y. contains b (adjacency y) ≡ true) same child) (ground (arith, h, same_b))
      | inr n ↦
          ap (contains x) (absorb_other u (adjacency u) sets a n)
          ∙ absorb_all_gains order adjacency a b x unique.1
              (IsForward-tail u order adjacency unique forward) (ground (arith, known, n)) child
              (ground (arith, h, same_b))
    ]

module _ {F : Floats} where
  -- A walk gathers its end, and what its end has gathered.
  walk_gathers :
      (edges : List (GraphEdge F)) (sets : ℕ → List ℕ)
      → ((a b x : ℕ)
          → has_edge edges a b ≡ true
          → ((x == b) || contains x (sets b)) ≡ true
          → contains x (sets a) ≡ true)
      → {a b : ℕ} → Walk edges a b
      → (x : ℕ) → ((x == b) || contains x (sets b)) ≡ true
      → contains x (sets a) ≡ true
  walk_gathers edges sets gains (along h) x m = gains _ _ x h m
  walk_gathers edges sets gains (further w h) x m =
      let inside = gains _ _ x h m in walk_gathers edges sets gains w x (ground (arith, inside))

  -- For nodes with distinct identifiers, if the descendants are returned, they are for each node
  -- exactly the ends of the walks that start there, each listed once.
  pub descendants_by_node-exact :
      (ids : List ℕ) (edges : List (GraphEdge F)) (descendants : ℕ → List ℕ)
      → Unique ids
      → descendants_by_node ids edges ≡ ok descendants
      → (v : ℕ)
      → Unique (descendants v) × ((x : ℕ) → (contains x (descendants v) ≡ true) ↔ Walk edges v x)
  unfolding descendants_by_node
  descendants_by_node-exact ids edges descendants unique h v =
      let (order, ordered, rest) = bind_ok (order_nodes ids edges) _ h in
      let (adjacency, collected, same) = bind_ok (collect_children ids edges (λ u. [])) _ rest in
      let (sorted, _) = order_nodes-IsOrder ids edges order unique ordered in
      let children = contains-collect_children ids edges (λ u. []) adjacency collected in
      let sets = absorb_all order adjacency in
      let value : sets ≡ descendants = cc same in
      let forward = IsOrder-IsForward ids edges order adjacency sorted children in
      subst (λ d. Unique (d v) × ((x : ℕ) → (contains x (d v) ≡ true) ↔ Walk edges v x)) value
        (
          Unique-absorb_all order adjacency v,
          λ x. (
            λ m.
                Walked-absorb_all edges order adjacency sorted.once forward
                  (λ a b m. sym (children a b) ∙ m) v x m,
            λ w.
                walk_gathers edges sets
                  (λ a b x e m.
                    absorb_all_gains order adjacency a b x sorted.once forward
                      (precedes-source order a b (forward_edge edges order a b sorted.forward e))
                      (children a b ∙ e) m)
                  w x (ground arith),
          ),
        )
