-- ===== src/OrderedMap/Remove.antt =====
-- `deleteNode` of src/OrderedMap.ts on the arrays that hold a tree.
use Prim.Native.Nat.{Ordering, eq}
use vjuga.Base.{
  ℕ, zero, suc, ◌<◌, ◌≡◌, refl, true, false, Option, some, arith, ap, sym, ◌∙◌, inl, inr,
}
use vjuga.OrderedMap.{OrderedMap}
use vjuga.OrderedMap.Tree.{Tree, leaf, node, stored, IsAvl}
use vjuga.OrderedMap.TreeInsert.{Ordering-cases, has_key}
use vjuga.OrderedMap.TreeDelete.{delete_tree, has_key_left, has_key_right}
use vjuga.OrderedMap.Memory.{occ, Holds, Once}
use vjuga.OrderedMap.Insert.{lower}
use vjuga.OrderedMap.Delete.{after_left, after_right, delete_node}
use vjuga.OrderedMap.Removed.{Removed, after_left-Removed, after_right-Removed}
use vjuga.OrderedMap.FreeNode.{remove_node-Removed}

module _ {K V : Type 0} (no_key : K) (no_val : V) (cmp : K → K → Ordering) where
  -- `deleteNode`, with fuel above the height, leaves the tree without the key.
  pub delete_node-Removed :
      (fuel : ℕ) (m : OrderedMap K V) (t : Tree K V) (n : Option ℕ) (key : K)
      → IsAvl t
      → stored t < fuel
      → Once t
      → has_key cmp key t ≡ true
      → Holds m t n
      → Removed m t (delete_tree cmp key t) (delete_node no_key no_val cmp fuel m n key)
  unfolding delete_node delete_tree has_key Holds IsAvl
  delete_node-Removed zero m t n key a f d p at = absurd (omega (arith, f))
  delete_node-Removed (suc fuel) m leaf n key a f d p at = absurd (ground (arith, p))
  delete_node-Removed (suc fuel) m (node l i k v h r) n key a f d p at =
      rw at.0 (elim (Ordering-cases (cmp key k)) [
        | inl e ↦
            rw (e, key_at e, delete_node, delete_tree)
              (after_left-Removed m l i k v h r d here (delete_tree cmp key l)
                (delete_node no_key no_val cmp fuel m (m.left i) key)
                (delete_node-Removed fuel m l (m.left i) key a.0 low.0
                  (λ x. unfold occ in omega (arith, d x))
                  (sym (has_key_left cmp key l i k v h r e) ∙ p) at.2))
        | inr (inl e) ↦
            rw (e, key_at e, delete_node, delete_tree)
              (after_right-Removed m l i k v h r d here (delete_tree cmp key r)
                (delete_node no_key no_val cmp fuel m (m.right i) key)
                (delete_node-Removed fuel m r (m.right i) key a.1 low.1
                  (λ x. unfold occ in omega (arith, d x))
                  (sym (has_key_right cmp key l i k v h r e) ∙ p) at.3))
        | inr (inr e) ↦
            rw (e, key_at e, delete_node, delete_tree)
              (remove_node-Removed no_key no_val fuel m l i k v h r a low.1 d here)
      ])
    where
      key_at : {o : Ordering} → cmp key k ≡ o → cmp key (m.keys i) ≡ o
      key_at e = ap (cmp key) at.1.0 ∙ e

      low : (stored l < fuel) × (stored r < fuel)
      low = lower (stored l) (stored r) h fuel a.2 f

      here : Holds m (node l i k v h r) (some i)
      here = (refl, at.1, at.2, at.3)

  -- `deleteNode` of a key that is not there changes nothing.
  pub delete_node-absent :
      (fuel : ℕ) (m : OrderedMap K V) (t : Tree K V) (n : Option ℕ) (key : K)
      → IsAvl t
      → stored t < fuel
      → has_key cmp key t ≡ false
      → Holds m t n
      → delete_node no_key no_val cmp fuel m n key ≡ (false, n, m)
  unfolding delete_node has_key Holds IsAvl after_left after_right
  delete_node-absent zero m t n key a f p at = absurd (omega (arith, f))
  delete_node-absent (suc fuel) m leaf n key a f p at = rw at refl
  delete_node-absent (suc fuel) m (node l i k v h r) n key a f p at =
      rw at.0 (elim (Ordering-cases (cmp key k)) [
        | inl e ↦
            rw (key_at e, delete_node)
              (ap (after_left i) (
                delete_node-absent fuel m l (m.left i) key a.0 low.0
                  (sym (has_key_left cmp key l i k v h r e) ∙ p) at.2))
        | inr (inl e) ↦
            rw (key_at e, delete_node)
              (ap (after_right i) (
                delete_node-absent fuel m r (m.right i) key a.1 low.1
                  (sym (has_key_right cmp key l i k v h r e) ∙ p) at.3))
        | inr (inr e) ↦ absurd (there e)
      ])
    where
      key_at : {o : Ordering} → cmp key k ≡ o → cmp key (m.keys i) ≡ o
      key_at e = ap (cmp key) at.1.0 ∙ e

      low : (stored l < fuel) × (stored r < fuel)
      low = lower (stored l) (stored r) h fuel a.2 f

      found : cmp key k ≡ eq → has_key cmp key (node l i k v h r) ≡ true
      found e = rw (e, has_key) refl

      there : cmp key k ≡ eq → ⊥
      there e = absurd (ground (arith, p, found e))
