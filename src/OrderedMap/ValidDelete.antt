-- ===== src/OrderedMap/ValidDelete.antt =====
-- `del` of src/OrderedMap.ts keeps the states valid.
use Prim.Native.Nat.{Ordering}
use vjuga.Base.{
  ℕ, ◌+◌, ◌-◌, ◌≤◌, ◌≡◌, refl, true, false, List, ◌∷◌, ◌==◌, if◌then◌else◌, arith, ap, sym, ◌∙◌,
  subst,
}
use vjuga.Base.Counts.{occurs}
use vjuga.OrderedMap.{OrderedMap}
use vjuga.OrderedMap.Tree.{Tree}
use vjuga.OrderedMap.TreeInsert.{has_key}
use vjuga.OrderedMap.TreeDelete.{delete_tree, delete_tree-IsShrunk}
use vjuga.OrderedMap.Memory.{occ, Holds-frame}
use vjuga.OrderedMap.Free.{IsApart}
use vjuga.OrderedMap.Erase.{length-delete_tree}
use vjuga.OrderedMap.Valid.{IsValid, enough}
use vjuga.OrderedMap.Delete.{Deleted, delete_node, del}
use vjuga.OrderedMap.Removed.{Removed}
use vjuga.OrderedMap.Remove.{delete_node-Removed, delete_node-absent}

freed-IsApart :
    (len : ℕ) (free : List ℕ) (used used' : ℕ → ℕ) (freed : ℕ)
    → ((x : ℕ) → used x ≡ used' x + (if x == freed then 1 else 0))
    → IsApart len free used
    → IsApart len (freed ∷ free) used'
unfolding occurs
freed-IsApart len free used used' freed e a =
    ((λ x. omega (arith, e x, a.0 x)), λ x h. a.1 x (omega (arith, e x, h)))

one_less : (size n m : ℕ) → size ≡ n → m + 1 ≡ n → size - 1 ≡ m
one_less size n m e f = omega (arith, e, f)

module _ {K V : Type 0} (no_key : K) (no_val : V) (cmp : K → K → Ordering) (m : OrderedMap K V)
    (key : K) (t : Tree K V) where
  pub del-IsValid :
      has_key cmp key t ≡ true
      → IsValid m t
      → ((del no_key no_val cmp m key).0 ≡ true)
        × IsValid (del no_key no_val cmp m key).1 (delete_tree cmp key t)
  unfolding del
  del-IsValid p v = (
    u.flag,
    record {
      holds =
          Holds-frame out.2 (del no_key no_val cmp m key).1 (delete_tree cmp key t) out.1
            (λ i h. (refl, refl, refl, refl, refl)) u.holds;
      avl = (delete_tree-IsShrunk cmp key t v.avl p).0;
      counted = u.size_is ∙ one_less m.size _ _ v.counted (length-delete_tree cmp key t p);
      apart =
          subst (λ n. IsApart n out.2.free (λ x. occ x (delete_tree cmp key t))) (sym u.len_is)
            (subst (λ f. IsApart m.len f (λ x. occ x (delete_tree cmp key t))) (sym u.free_is)
              (freed-IsApart m.len m.free (λ x. occ x t) (λ x. occ x (delete_tree cmp key t))
                u.freed u.lost v.apart));
      room = subst (λ n. 1 ≤ n) (sym u.len_is) v.room;
    },
  )
    where
      out : Deleted K V
      out = delete_node no_key no_val cmp (m.size + 1) m m.root key

      u : Removed m t (delete_tree cmp key t) out
      u =
          delete_node-Removed no_key no_val cmp (m.size + 1) m t m.root key v.avl (enough m t v)
            (λ x. omega (arith, v.apart.0 x)) p v.holds

  pub del-absent :
      has_key cmp key t ≡ false → IsValid m t → del no_key no_val cmp m key ≡ (false, m)
  unfolding del
  del-absent p v =
      ap (λ out. (out.0, record out.2 { root = out.1 }))
        (delete_node-absent no_key no_val cmp (m.size + 1) m t m.root key v.avl (enough m t v) p
          v.holds)
