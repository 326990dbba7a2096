-- ===== src/OrderedMap/TreeDelete.antt =====
-- Deletion from a tree of src/OrderedMap.ts: the tree that `deleteNode` leaves, its entries in order
-- and its heights.
use Prim.Native.Nat.{Ordering, lt, eq, gt}
use mathlib.Core.List.{append-nil}
use vjuga.Base.{
  ℕ, ◌+◌, ◌≤◌, ◌<◌, ◌≡◌, refl, true, ◌∷◌, ◌++◌, arith, ap, sym, ◌∙◌, ◌⊎◌, inl, inr, if◌then◌else◌,
  ◌==◌,
}
use vjuga.OrderedMap.{taller}
use vjuga.OrderedMap.Tree.{
  Tree, leaf, node, stored, flat, balanced, balanced-flat, IsAvl, balanced-IsAvl, balanced-height,
}
use vjuga.OrderedMap.Memory.{occ}
use vjuga.OrderedMap.TreeInsert.{Ordering-cases, has_key, occ-balanced}

-- the height above a child that has shrunk by one at most
shrunk_left :
    (l l' r h x : ℕ)
    → h ≡ taller l r
    → l ≤ r + 1
    → r ≤ l + 1
    → l' ≤ l
    → l ≤ l' + 1
    → x ≤ taller l' r
    → taller l' r ≤ x + 1
    → (x ≡ taller l' r) ⊎ (r + 1 < l') ⊎ (l' + 1 < r)
    → (x ≤ h) × (h ≤ x + 1)
shrunk_left l l' r h x e m n a b c d f = ground arith

shrunk_right :
    (l r r' h x : ℕ)
    → h ≡ taller l r
    → l ≤ r + 1
    → r ≤ l + 1
    → r' ≤ r
    → r ≤ r' + 1
    → x ≤ taller l r'
    → taller l r' ≤ x + 1
    → (x ≡ taller l r') ⊎ (r' + 1 < l) ⊎ (l + 1 < r')
    → (x ≤ h) × (h ≤ x + 1)
shrunk_right l r r' h x e m n a b c d f = ground arith

-- the height above one child alone
above_left : (l h : ℕ) → h ≡ taller l 0 → (l ≤ h) × (h ≤ l + 1)
above_left l h e = ground arith

above_right : (r h : ℕ) → h ≡ taller 0 r → (r ≤ h) × (h ≤ r + 1)
above_right r h e = ground arith

module _ {K V : Type 0} where
  -- the first cell of a node, and the tree without it
  unfoldable pub least : Tree K V → ℕ → K → V → Tree K V → (ℕ × K × V) × Tree K V
  least leaf i k v r = ((i, k, v), r)
  least (node a j q w g b) i k v r = ((least a j q w b).0, balanced (least a j q w b).1 i k v r)

  -- two subtrees whose root is taken away
  unfoldable pub fused : Tree K V → Tree K V → Tree K V
  fused l leaf = l
  fused leaf (node a j q w g b) = node a j q w g b
  fused (node c i k v h d) (node a j q w g b) =
      let (s, r) = least a j q w b in balanced (node c i k v h d) s.0 s.1 s.2 r

  -- the tree `t'` in place of `t`, of which it lacks one cell
  abbrev pub IsShrunk : Tree K V → Tree K V → Type 0
  IsShrunk t t' = IsAvl t' × (stored t' ≤ stored t) × (stored t ≤ stored t' + 1)

  pub shrink_left :
      (l l' : Tree K V) (i : ℕ) (k : K) (v : V) (h : ℕ) (r : Tree K V)
      → IsAvl (node l i k v h r)
      → IsShrunk l l'
      → IsShrunk (node l i k v h r) (balanced l' i k v r)
  unfolding IsAvl
  shrink_left l l' i k v h r a s =
      let c = balanced-IsAvl l' i k v r s.0 a.1 (omega (arith, s, a.3)) (omega (arith, s, a.4)) in
      let n =
        shrunk_left (stored l) (stored l') (stored r) h _ a.2 a.3 a.4 s.1 s.2 c.1 c.2
          (balanced-height l' i k v r) in
      (c.0, n.0, n.1)

  pub shrink_right :
      (l r r' : Tree K V) (i : ℕ) (k : K) (v : V) (h : ℕ)
      → IsAvl (node l i k v h r)
      → IsShrunk r r'
      → IsShrunk (node l i k v h r) (balanced l i k v r')
  unfolding IsAvl
  shrink_right l r r' i k v h a s =
      let c = balanced-IsAvl l i k v r' a.0 s.0 (omega (arith, s, a.3)) (omega (arith, s, a.4)) in
      let n =
        shrunk_right (stored l) (stored r) (stored r') h _ a.2 a.3 a.4 s.1 s.2 c.1 c.2
          (balanced-height l i k v r') in
      (c.0, n.0, n.1)

  pub least-flat :
      (l : Tree K V) (i : ℕ) (k : K) (v : V) (h : ℕ) (r : Tree K V)
      → flat (node l i k v h r) ≡ (least l i k v r).0 ∷ flat (least l i k v r).1
  unfolding flat least
  least-flat leaf i k v h r = refl
  least-flat (node a j q w g b) i k v h r =
      ap (λ l. l ++ (i, k, v) ∷ flat r) (least-flat a j q w g b)
      ∙ ap (λ l. (least a j q w b).0 ∷ l) (sym (balanced-flat (least a j q w b).1 i k v r))

  pub occ-least :
      (x : ℕ) (l : Tree K V) (i : ℕ) (k : K) (v : V) (h : ℕ) (r : Tree K V)
      → occ x (node l i k v h r)
        ≡ occ x (least l i k v r).1 + (if x == (least l i k v r).0.0 then 1 else 0)
  unfolding occ least
  occ-least x leaf i k v h r = omega arith
  occ-least x (node a j q w g b) i k v h r =
      omega (arith, occ-least x a j q w g b, occ-balanced x (least a j q w b).1 i k v r)

  pub least-IsShrunk :
      (l : Tree K V) (i : ℕ) (k : K) (v : V) (h : ℕ) (r : Tree K V)
      → IsAvl (node l i k v h r)
      → IsShrunk (node l i k v h r) (least l i k v r).1
  unfolding least IsAvl
  least-IsShrunk leaf i k v h r a = let n = above_right (stored r) h a.2 in (a.1, n.0, n.1)
  least-IsShrunk (node l j q w g b) i k v h r a =
      shrink_left (node l j q w g b) (least l j q w b).1 i k v h r a
        (least-IsShrunk l j q w g b a.0)

  pub fused-IsShrunk :
      (l : Tree K V) (i : ℕ) (k : K) (v : V) (h : ℕ) (r : Tree K V)
      → IsAvl (node l i k v h r)
      → IsShrunk (node l i k v h r) (fused l r)
  unfolding fused IsAvl
  fused-IsShrunk l i k v h leaf a = let n = above_left (stored l) h a.2 in (a.0, n.0, n.1)
  fused-IsShrunk leaf i k v h (node a j q w g b) o = let n = above_right g h o.2 in (o.1, n.0, n.1)
  fused-IsShrunk (node c y z u f d) i k v h (node a j q w g b) o =
      let s = (least a j q w b).0 in
      shrink_right (node c y z u f d) (node a j q w g b) (least a j q w b).1 s.0 s.1 s.2 h o
        (least-IsShrunk a j q w g b o.1)

  pub fused-flat : (l r : Tree K V) → flat (fused l r) ≡ flat l ++ flat r
  unfolding fused
  fused-flat l leaf = unfold flat in sym (append-nil (flat l))
  fused-flat leaf (node a j q w g b) = unfold flat in refl
  fused-flat (node c y z u f d) (node a j q w g b) =
      balanced-flat (node c y z u f d) _ _ _ (least a j q w b).1
      ∙ ap (λ l. flat (node c y z u f d) ++ l) (sym (least-flat a j q w g b))

module _ {K V : Type 0} (cmp : K → K → Ordering) where
  -- the tree without the key, which is in it
  unfoldable pub delete_tree : K → Tree K V → Tree K V
  delete_tree key leaf = leaf
  delete_tree key (node l i k v h r) = elim (cmp key k) [
    | lt ↦ balanced (delete_tree key l) i k v r
    | gt ↦ balanced l i k v (delete_tree key r)
    | eq ↦ fused l r
  ]

  module _ (key : K) (l : Tree K V) (i : ℕ) (k : K) (v : V) (h : ℕ) (r : Tree K V) where
    pub has_key_left : cmp key k ≡ lt → has_key cmp key (node l i k v h r) ≡ has_key cmp key l
    unfolding has_key
    has_key_left e = rw (e, has_key) refl

    pub has_key_right : cmp key k ≡ gt → has_key cmp key (node l i k v h r) ≡ has_key cmp key r
    unfolding has_key
    has_key_right e = rw (e, has_key) refl

  pub delete_tree-IsShrunk :
      (key : K) (t : Tree K V) → IsAvl t → has_key cmp key t ≡ true → IsShrunk t (delete_tree key t)
  unfolding delete_tree has_key
  delete_tree-IsShrunk key leaf a p = absurd (ground (arith, p))
  delete_tree-IsShrunk key (node l i k v h r) a p = elim (Ordering-cases (cmp key k)) [
    | inl e ↦
        rw (e, delete_tree)
          (shrink_left l (delete_tree key l) i k v h r a (
            delete_tree-IsShrunk key l (unfold IsAvl in a.0)
              (sym (has_key_left key l i k v h r e) ∙ p)))
    | inr (inl e) ↦
        rw (e, delete_tree)
          (shrink_right l r (delete_tree key r) i k v h a (
            delete_tree-IsShrunk key r (unfold IsAvl in a.1)
              (sym (has_key_right key l i k v h r e) ∙ p)))
    | inr (inr e) ↦ rw (e, delete_tree) (fused-IsShrunk l i k v h r a)
  ]
