-- ===== src/Curriculum/References/Forest.antt =====
-- The containment check of `validate_references`, packages/domain/graph.py, has enough rounds and accepts
-- every forest.
use autonomus_academic_assis.Base.{
  ℕ, zero, suc, ◌<◌, ◌≡◌, refl, ap, ◌∙◌, subst, ◌↔◌, inl, inr, true, false, ◌||◌, none, some, List,
  [], ◌∷◌, ◌++◌, map, length, contains, ◌==◌, ==_iff, arith, All, Unique, Bool-cases, ok, bind_ok,
  ◌>>=◌,
}
use autonomus_academic_assis.Base.Floats.{Floats}
use autonomus_academic_assis.Curriculum.Definition.{GraphNode}
use autonomus_academic_assis.Curriculum.Kahn.Counting.{left, left-cons}
use autonomus_academic_assis.Curriculum.Kahn.Order.{left-fresh}
use autonomus_academic_assis.Curriculum.References.{find_node, climb, validate_containment}
use autonomus_academic_assis.Curriculum.References.Containment.{
  Height, root, below, Rooted, Height-unique, climb-Rooted,
}

contains-append_all :
    (v : ℕ) (xs ys : List ℕ) → contains v (xs ++ ys) ≡ contains v xs || contains v ys
contains-append_all v [] ys = refl
contains-append_all v (x ∷ xs) ys = let again = contains-append_all v xs ys in ground (arith, again)

module _ {F : Floats} where
  abbrev pub ids_of : List (GraphNode F) → List ℕ
  ids_of = map (λ node. node.id)

  length-ids_of : (nodes : List (GraphNode F)) → length (ids_of nodes) ≡ length nodes
  length-ids_of [] = refl
  length-ids_of (node ∷ nodes) = ap suc (length-ids_of nodes)

  pub find_node-contains :
      (nodes : List (GraphNode F)) (v : ℕ) (node : GraphNode F)
      → find_node nodes v ≡ some node
      → contains v (ids_of nodes) ≡ true
  find_node-contains [] v node h = absurd (cc h)
  find_node-contains (first ∷ nodes) v node h =
      let again = find_node-contains nodes v node in ground (arith, again, h)

  climb-next :
      (rounds : ℕ) (nodes : List (GraphNode F)) (visited path : List ℕ) (c : ℕ) (node : GraphNode F)
      → contains c visited ≡ false
      → contains c path ≡ false
      → find_node nodes c ≡ some node
      → climb (suc rounds) nodes visited path (some c)
        ≡ climb rounds nodes visited (c ∷ path) node.parent_id
  unfolding climb
  climb-next rounds nodes visited path c node n k e = ground (arith, n, k, e)

  climb-top :
      (rounds : ℕ) (nodes : List (GraphNode F)) (visited path : List ℕ)
      → 0 < rounds
      → climb rounds nodes visited path none ≡ ok path
  unfolding climb
  climb-top zero nodes visited path h = absurd (omega arith)
  climb-top (suc rounds) nodes visited path h = refl

  -- Every node on the path is higher than the cursor.
  abbrev IsBelow : List (GraphNode F) → List ℕ → ℕ → Type 0
  IsBelow nodes path n = (u m : ℕ) → contains u path ≡ true → Height nodes m u → n < m

  IsBelow-up :
      (nodes : List (GraphNode F)) (path : List ℕ) (n k c : ℕ)
      → Height nodes n c
      → k < n
      → IsBelow nodes path n
      → IsBelow nodes (c ∷ path) k
  IsBelow-up nodes path n k c h less higher u m inside hm = elim (Bool-cases (u == c)) [
    | inl q ↦
        let same = Height-unique nodes h (subst (Height nodes m) ((==_iff u c).0 q) hm) in
        omega (arith, same)
    | inr r ↦ omega (arith, higher u m (ground (arith, inside, r)) hm)
  ]

  climb-split :
      (rounds : ℕ) (nodes : List (GraphNode F)) (visited path : List ℕ) (n c : ℕ)
      → Height nodes n c
      → IsBelow nodes path n
      → (contains c visited ≡ false
          → contains c path ≡ false
          → (done : List ℕ) × (climb (suc rounds) nodes visited path (some c) ≡ ok done))
      → (done : List ℕ) × (climb (suc rounds) nodes visited path (some c) ≡ ok done)
  unfolding climb
  climb-split rounds nodes visited path n c h higher rest = elim (Bool-cases (contains c visited)) [
    | inl q ↦ (path, ground (arith, q))
    | inr new ↦ elim (Bool-cases (contains c path)) [
      | inl q ↦ absurd (omega (arith, higher c n q h))
      | inr fresh ↦ rest new fresh
    ]
  ]

  climb-ok :
      (rounds : ℕ) (nodes : List (GraphNode F)) (visited path : List ℕ) (n c : ℕ)
      → Unique (ids_of nodes)
      → left (ids_of nodes) path < rounds
      → Height nodes n c
      → IsBelow nodes path n
      → (done : List ℕ) × (climb rounds nodes visited path (some c) ≡ ok done)
  climb-ok zero nodes visited path n c unique enough h higher = absurd (omega arith)
  climb-ok (suc rounds) nodes visited path _ c unique enough (root node e above) higher =
      climb-split rounds nodes visited path 0 c (root node e above) higher λ new fresh.
        let known = find_node-contains nodes c node e in
        let fewer = left-cons (ids_of nodes) path c unique known fresh in
        (
          c ∷ path,
          climb-next rounds nodes visited path c node new fresh e
              ∙ ap (climb rounds nodes visited (c ∷ path)) above
              ∙ climb-top rounds nodes visited (c ∷ path) (omega (arith, enough, fewer)),
        )
  climb-ok (suc rounds) nodes visited path _ c unique enough (below node e above h) higher =
      climb-split rounds nodes visited path _ c (below node e above h) higher λ new fresh.
        let known = find_node-contains nodes c node e in
        let fewer = left-cons (ids_of nodes) path c unique known fresh in
        let (done, rest) =
          climb-ok rounds nodes visited (c ∷ path) _ _ unique (omega (arith, enough, fewer)) h
            (IsBelow-up nodes path _ _ c (below node e above h) (omega arith) higher) in
        (
          done,
          climb-next rounds nodes visited path c node new fresh e
              ∙ ap (climb rounds nodes visited (c ∷ path)) above
              ∙ rest,
        )

  containment-accepts :
      (nodes : List (GraphNode F)) (visited : List ℕ) (more : List (GraphNode F))
      → Unique (ids_of nodes)
      → All (λ node. Rooted nodes node.id) more
      → validate_containment nodes visited more ≡ ok tt
  unfolding validate_containment
  containment-accepts nodes visited [] unique h = refl
  containment-accepts nodes visited (node ∷ more) unique h =
      let (done, climbed) =
        climb-ok (suc (length nodes)) nodes visited [] h.0.0 node.id unique
          (omega (arith, left-fresh (ids_of nodes), length-ids_of nodes)) h.0.1
          (λ u m inside _. absurd (cc inside)) in
      let again = containment-accepts nodes (done ++ visited) more unique h.1 in
      ap (λ r. r >>= (λ path. validate_containment nodes (path ++ visited) more)) climbed ∙ again

  containment-Rooted :
      (nodes : List (GraphNode F)) (visited : List ℕ) (more : List (GraphNode F))
      → ((v : ℕ) → contains v visited ≡ true → Rooted nodes v)
      → validate_containment nodes visited more ≡ ok tt
      → All (λ node. Rooted nodes node.id) more
  unfolding validate_containment
  containment-Rooted nodes visited [] known h = tt
  containment-Rooted nodes visited (node ∷ more) known h =
      let (done, climbed, rest) =
        bind_ok (climb (suc (length nodes)) nodes visited [] (some node.id))
          (λ path. validate_containment nodes (path ++ visited) more) h in
      let (here, new) =
        climb-Rooted (suc (length nodes)) nodes visited [] (some node.id) done known climbed in
      (
        here,
        containment-Rooted nodes (done ++ visited) more
            (λ v m. elim (Bool-cases (contains v done)) [
              | inl q ↦ elim (new v q) [ inl k ↦ absurd (cc k) | inr r ↦ r ]
              | inr n ↦ known v (ground (arith, contains-append_all v done visited, m, n))
            ])
            rest,
      )

  -- For nodes with distinct identifiers, the containment check accepts if and only if from every node a
  -- finite number of steps up the parents leads to a node without a parent.
  pub containment-decides :
      (nodes : List (GraphNode F))
      → Unique (ids_of nodes)
      → (validate_containment nodes [] nodes ≡ ok tt) ↔ All (λ node. Rooted nodes node.id) nodes
  containment-decides nodes unique = (
    containment-Rooted nodes [] nodes (λ v m. absurd (cc m)),
    containment-accepts nodes [] nodes unique,
  )
