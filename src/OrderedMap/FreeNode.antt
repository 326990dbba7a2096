-- ===== src/OrderedMap/FreeNode.antt =====
-- The end of `deleteNode` of src/OrderedMap.ts, where the node with the key is freed.
use vjuga.Base.{
  ℕ, ◌+◌, ◌-◌, ◌≤◌, ◌<◌, ◌≡◌, refl, true, Option, none, some, ◌∷◌, ◌==◌, if◌then◌else◌, arith, ap,
  sym, ◌∙◌, subst,
}
use vjuga.Base.Stores.{put, put_self, put_other}
use vjuga.OrderedMap.{OrderedMap, rebalance, free_node}
use vjuga.OrderedMap.Tree.{Tree, leaf, node, stored, balanced, IsAvl}
use vjuga.OrderedMap.TreeInsert.{occ-balanced}
use vjuga.OrderedMap.TreeDelete.{least, occ-least, fused}
use vjuga.OrderedMap.Memory.{occ, Holds, SameAt, Holds-frame, Once, Turned}
use vjuga.OrderedMap.Rebalance.{rebalance-Turned}
use vjuga.OrderedMap.Delete.{Min, delete_min, replace_node, remove_node}
use vjuga.OrderedMap.Detach.{Detached, delete_min-Detached}
use vjuga.OrderedMap.Removed.{Removed}

module _ {K V : Type 0} (no_key : K) (no_val : V) where
  free_node-same :
      (m : OrderedMap K V) (i x : ℕ) → (x ≡ i → ⊥) → SameAt m (free_node no_key no_val m i) x
  unfolding free_node
  free_node-same m i x n = (
    put_other m.keys i no_key x n,
    put_other m.vals i no_val x n,
    put_other m.left i none x n,
    put_other m.right i none x n,
    put_other m.height i 0 x n,
  )

  -- the node is freed and one of its subtrees takes its place
  only_child :
      (m : OrderedMap K V) (l : Tree K V) (i : ℕ) (k : K) (v : V) (h : ℕ) (r t : Tree K V)
      (n : Option ℕ)
      → Once (node l i k v h r)
      → ((x : ℕ) → occ x l + occ x r ≡ occ x t)
      → Holds m t n
      → Removed m
          (node l i k v h r)
          t
          (true, n, free_node no_key no_val (record m { size = m.size - 1 }) i)
  unfolding free_node
  only_child m l i k v h r t n d o at = record {
    flag = refl;
    holds =
        Holds-frame m (free_node no_key no_val (record m { size = m.size - 1 }) i) t n
          (λ x e.
            free_node-same (record m { size = m.size - 1 }) i x
              (λ s. absurd (unfold occ in ground (arith, s, e, o x, d x))))
          at;
    frame = λ x e.
        free_node-same (record m { size = m.size - 1 }) i x
          (λ s. absurd (unfold occ in ground (arith, s, e)));
    freed = i;
    lost = λ x. unfold occ in omega (arith, o x);
    free_is = refl;
    size_is = refl;
    len_is = refl;
  }

  -- the successor takes the place of a node with two subtrees
  replaced :
      (m : OrderedMap K V) (l : Tree K V) (i : ℕ) (k : K) (v : V) (h : ℕ) (a : Tree K V) (j : ℕ)
      (q : K) (w : V) (g : ℕ) (b : Tree K V) (n : Option ℕ) (out : Min K V)
      → Once (node l i k v h (node a j q w g b))
      → Holds m l n
      → Detached
          (record m { size = m.size - 1 })
          (node a j q w g b)
          (least a j q w b).0
          (least a j q w b).1
          out
      → Removed m
          (node l i k v h (node a j q w g b))
          (balanced l
            (least a j q w b).0.0
            (least a j q w b).0.1
            (least a j q w b).0.2
            (least a j q w b).1)
          (replace_node no_key no_val i n out)
  unfolding replace_node
  replaced m l i k v h a j q w g b n (n', out_slot, m') d at u = rw u.slot_is (record {
    flag = refl;
    holds = t.holds;
    frame = frame_t;
    freed = i;
    lost = λ x. unfold occ in omega (arith, o x, occ-balanced x l s.0 s.1 s.2 r');
    free_is = t.rest.2 ∙ unfold free_node in ap (λ f. i ∷ f) u.rest.2;
    size_is = t.rest.1 ∙ unfold free_node in u.rest.1;
    len_is = t.rest.3 ∙ unfold free_node in u.rest.3;
  })
    where
      s : ℕ × K × V
      s = (least a j q w b).0

      r' : Tree K V
      r' = (least a j q w b).1

      m2 : OrderedMap K V
      m2 = record m' { left = put m'.left s.0 n; right = put m'.right s.0 n' }

      m3 : OrderedMap K V
      m3 = free_node no_key no_val m2 i

      o : (x : ℕ) → occ x (node a j q w g b) ≡ occ x r' + (if x == s.0 then 1 else 0)
      o x = occ-least x a j q w g b

      parts : (x : ℕ) → (if x == i then 1 else 0) + occ x l + occ x (node a j q w g b) ≤ 1
      parts x = unfold occ in d x

      -- a slot that is neither freed nor the successor's
      same : (x : ℕ) → (x ≡ i → ⊥) → (x ≡ s.0 → ⊥) → SameAt m' m3 x
      same x e f =
          let p = free_node-same m2 i x e in
          (p.0, p.1, p.2 ∙ put_other m'.left s.0 n x f, p.3 ∙ put_other m'.right s.0 n' x f, p.4)

      top : SameAt m2 m3 s.0
      top = free_node-same m2 i s.0 (λ e. absurd (ground (arith, e, parts s.0, o s.0)))

      left_kept : Holds m3 l n
      left_kept =
          Holds-frame m m3 l n
            (λ x e.
              let p = u.frame x (omega (arith, e, parts x)) in
              let p' =
                same x (λ z. absurd (ground (arith, e, z, parts x)))
                  (λ z. absurd (ground (arith, e, z, parts x, o x))) in
              (p'.0 ∙ p.0, p'.1 ∙ p.1, p'.2 ∙ p.2, p'.3 ∙ p.3, p'.4 ∙ p.4))
            at

      right_kept : Holds m3 r' n'
      right_kept =
          Holds-frame m' m3 r' n'
            (λ x e.
              same x (λ z. absurd (ground (arith, e, z, parts x, o x)))
                (λ z. absurd (ground (arith, e, z, parts x, o x))))
            u.holds

      t :
          Turned m3
            (node l s.0 s.1 s.2 0 r')
            (balanced l s.0 s.1 s.2 r')
            (rebalance m3 s.0).0
            (rebalance m3 s.0).1
      t =
          rebalance-Turned m3 l s.0 s.1 s.2 r' (λ x. unfold occ in omega (arith, parts x, o x))
            (top.0 ∙ u.key_is, top.1 ∙ u.val_is)
            (subst (Holds m3 l) (sym (top.2 ∙ put_self m'.left s.0 n)) left_kept)
            (subst (Holds m3 r') (sym (top.3 ∙ put_self m'.right s.0 n')) right_kept)

      frame_t :
          (x : ℕ) → occ x (node l i k v h (node a j q w g b)) ≡ 0 → SameAt m (rebalance m3 s.0).1 x
      frame_t x z =
          let y : (if x == i then 1 else 0) + occ x l + occ x (node a j q w g b) ≡ 0 =
            unfold occ in z in
          let p = u.frame x (omega (arith, y)) in
          let p' =
            same x (λ e. absurd (ground (arith, y, e))) (λ e. absurd (ground (arith, y, e, o x))) in
          let q' = t.frame x (unfold occ in omega (arith, y, o x)) in
          (
            q'.0 ∙ p'.0 ∙ p.0,
            q'.1 ∙ p'.1 ∙ p.1,
            q'.2 ∙ p'.2 ∙ p.2,
            q'.3 ∙ p'.3 ∙ p.3,
            q'.4 ∙ p'.4 ∙ p.4,
          )

  -- the node whose key is found, with fuel above the height of its right subtree
  pub remove_node-Removed :
      (fuel : ℕ) (m : OrderedMap K V) (l : Tree K V) (i : ℕ) (k : K) (v : V) (h : ℕ) (r : Tree K V)
      → IsAvl (node l i k v h r)
      → stored r < fuel
      → Once (node l i k v h r)
      → Holds m (node l i k v h r) (some i)
      → Removed m
          (node l i k v h r)
          (fused l r)
          (remove_node no_key no_val fuel (record m { size = m.size - 1 }) i (m.left i) (m.right i))
  unfolding remove_node fused Holds IsAvl
  remove_node-Removed fuel m l i k v h leaf a f d at =
      rw (at.3, remove_node)
        (only_child m l i k v h leaf l (m.left i) d (λ x. unfold occ in omega arith) at.2)
  remove_node-Removed fuel m leaf i k v h (node b j q w g c) a f d at =
      rw (at.3.0, at.2, remove_node)
        (only_child m leaf i k v h (node b j q w g c) (node b j q w g c) (some j) d
          (λ x. unfold occ in omega arith) (refl, at.3.1, at.3.2, at.3.3))
  remove_node-Removed fuel m (node c y z u e p) i k v h (node b j q w g d') a f d at =
      rw (at.3.0, at.2.0, remove_node)
        (replaced m (node c y z u e p) i k v h b j q w g d' (some y)
          (delete_min fuel (record m { size = m.size - 1 }) j) d (refl, at.2.1, at.2.2, at.2.3)
          (delete_min-Detached fuel (record m { size = m.size - 1 }) b j q w g d' a.1 f
            (λ x. unfold occ in omega (arith, d x))
            (Holds-frame m (record m { size = m.size - 1 }) (node b j q w g d') (some j)
              (λ x o. (refl, refl, refl, refl, refl)) (refl, at.3.1, at.3.2, at.3.3))))
