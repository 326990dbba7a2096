-- ===== src/OrderedMap/Memory.antt =====
-- The arrays of src/OrderedMap.ts that hold a tree, and what a rotation does to them.
use vjuga.Base.{
  ℕ, ◌+◌, ◌≤◌, ◌≡◌, refl, Option, none, some, ◌==◌, if◌then◌else◌, arith, ap, ap₂, sym, ◌∙◌, subst,
}
use vjuga.Base.Stores.{put_self}
use vjuga.OrderedMap.{OrderedMap, taller, node_height, update_height}
use vjuga.OrderedMap.Tree.{Tree, leaf, node, stored, join}

module _ {K V : Type 0} where
  -- how often a slot is in a tree
  unfoldable pub occ : ℕ → Tree K V → ℕ
  occ x leaf = 0
  occ x (node l i k v h r) = (if x == i then 1 else 0) + occ x l + occ x r

  abbrev pub IsAt : OrderedMap K V → ℕ → K → V → ℕ → Type 0
  IsAt m i k v h = (m.keys i ≡ k) × (m.vals i ≡ v) × (m.height i ≡ h)

  -- the arrays hold the tree, and `n` is its root
  unfoldable pub Holds : OrderedMap K V → Tree K V → Option ℕ → Type 0
  Holds m leaf n = n ≡ none
  Holds m (node l i k v h r) n =
      (n ≡ some i) × IsAt m i k v h × Holds m l (m.left i) × Holds m r (m.right i)

  -- the arrays of `m'` are those of `m` at the slot
  abbrev pub SameAt : OrderedMap K V → OrderedMap K V → ℕ → Type 0
  SameAt m m' i =
      (m'.keys i ≡ m.keys i)
      × (m'.vals i ≡ m.vals i)
      × (m'.left i ≡ m.left i)
      × (m'.right i ≡ m.right i)
      × (m'.height i ≡ m.height i)

  pub SameAt-trans : (a b c : OrderedMap K V) (i : ℕ) → SameAt a b i → SameAt b c i → SameAt a c i
  SameAt-trans a b c i p q = (q.0 ∙ p.0, q.1 ∙ p.1, q.2 ∙ p.2, q.3 ∙ p.3, q.4 ∙ p.4)

  pub Holds-frame :
      (m m' : OrderedMap K V) (t : Tree K V) (n : Option ℕ)
      → ((i : ℕ) → 1 ≤ occ i t → SameAt m m' i)
      → Holds m t n
      → Holds m' t n
  unfolding Holds occ
  Holds-frame m m' leaf n s h = h
  Holds-frame m m' (node l i k v g r) n s h =
      let e = s i (ground arith) in
      (
        h.0,
        (e.0 ∙ h.1.0, e.1 ∙ h.1.1, e.4 ∙ h.1.2),
        subst (Holds m' l) (sym e.2)
            (Holds-frame m m' l (m.left i) (λ j o. s j (omega (arith, o))) h.2),
        subst (Holds m' r) (sym e.3)
            (Holds-frame m m' r (m.right i) (λ j o. s j (omega (arith, o))) h.3),
      )

  pub Holds-stored :
      (m : OrderedMap K V) (t : Tree K V) (n : Option ℕ) → Holds m t n → node_height m n ≡ stored t
  unfolding Holds
  Holds-stored m leaf n h = ap (node_height m) h
  Holds-stored m (node l i k v g r) n h = ap (node_height m) h.0 ∙ h.1.2

  abbrev pub Once : Tree K V → Type 0
  Once t = (x : ℕ) → occ x t ≤ 1

  -- the slots, sizes and root, which a rotation does not touch
  abbrev pub SameRest : OrderedMap K V → OrderedMap K V → Type 0
  SameRest m m' = (m'.root ≡ m.root) × (m'.size ≡ m.size) × (m'.free ≡ m.free) × (m'.len ≡ m.len)

  pub update_height-same :
      (m : OrderedMap K V) (i x : ℕ) → (x ≡ i → ⊥) → SameAt m (update_height m i) x
  unfolding update_height
  update_height-same m i x n = (refl, refl, refl, refl, ground (arith, n))

  -- a slot of a tree is not one that the tree does not have
  pub apart : (t : Tree K V) (i j : ℕ) → occ i t ≡ 0 → 1 ≤ occ j t → j ≡ i → ⊥
  apart t i j z o e = absurd (omega (arith, z, o, ap (λ x. occ x t) e))

  -- a node over two trees, with its height brought up to date
  pub update_height-Holds :
      (m : OrderedMap K V) (l : Tree K V) (i : ℕ) (k : K) (v : V) (r : Tree K V)
      → (m.keys i ≡ k) × (m.vals i ≡ v)
      → Holds m l (m.left i)
      → Holds m r (m.right i)
      → occ i l ≡ 0
      → occ i r ≡ 0
      → Holds (update_height m i) (join l i k v r) (some i)
  unfolding Holds update_height
  update_height-Holds m l i k v r e a b ol or = (
    refl,
    (e.0, e.1, new_height),
    Holds-frame m (update_height m i) l _
        (λ j o. update_height-same m i j (λ s. apart l i j ol o s)) a,
    Holds-frame m (update_height m i) r _
        (λ j o. update_height-same m i j (λ s. apart r i j or o s)) b,
  )
    where
      new_height : (update_height m i).height i ≡ taller (stored l) (stored r)
      new_height =
          put_self m.height i _
          ∙ ap₂ taller (Holds-stored m l (m.left i) a) (Holds-stored m r (m.right i) b)

  -- `m'` is a rotation of the tree `t`, with the top `j`
  pub record Turned (m : OrderedMap K V) (t t' : Tree K V) (j : ℕ) (m' : OrderedMap K V)
      : Type 0 where
    pub holds : Holds m' t' (some j)
    pub frame : (x : ℕ) → occ x t ≡ 0 → SameAt m m' x
    pub rest : SameRest m m'
