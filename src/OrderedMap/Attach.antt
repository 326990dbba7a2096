-- ===== src/OrderedMap/Attach.antt =====
-- A node of src/OrderedMap.ts that gets another child.
use vjuga.Base.{ℕ, ◌≡◌, refl, Option, sym, subst}
use vjuga.Base.Stores.{put, put_self, put_other}
use vjuga.OrderedMap.{OrderedMap}
use vjuga.OrderedMap.Tree.{Tree}
use vjuga.OrderedMap.Memory.{occ, Holds, SameAt, Holds-frame, apart}

module _ {K V : Type 0} where
  -- a node whose left child is replaced
  pub attach_left :
      (m : OrderedMap K V) (i : ℕ) (n : Option ℕ) (t s : Tree K V)
      → occ i t ≡ 0
      → occ i s ≡ 0
      → Holds m t n
      → Holds m s (m.right i)
      → Holds (record m { left = put m.left i n }) t (put m.left i n i)
        × Holds (record m { left = put m.left i n }) s (m.right i)
  attach_left m i n t s ot os a b = (
    subst (Holds m' t) (sym (put_self m.left i n))
        (Holds-frame m m' t n (λ x o. other x (apart t i x ot o)) a),
    Holds-frame m m' s (m.right i) (λ x o. other x (apart s i x os o)) b,
  )
    where
      m' : OrderedMap K V
      m' = record m { left = put m.left i n }

      other : (x : ℕ) → (x ≡ i → ⊥) → SameAt m m' x
      other x o = (refl, refl, put_other m.left i n x o, refl, refl)

  -- a node whose right child is replaced
  pub attach_right :
      (m : OrderedMap K V) (i : ℕ) (n : Option ℕ) (t s : Tree K V)
      → occ i t ≡ 0
      → occ i s ≡ 0
      → Holds m t n
      → Holds m s (m.left i)
      → Holds (record m { right = put m.right i n }) t (put m.right i n i)
        × Holds (record m { right = put m.right i n }) s (m.left i)
  attach_right m i n t s ot os a b = (
    subst (Holds m' t) (sym (put_self m.right i n))
        (Holds-frame m m' t n (λ x o. other x (apart t i x ot o)) a),
    Holds-frame m m' s (m.left i) (λ x o. other x (apart s i x os o)) b,
  )
    where
      m' : OrderedMap K V
      m' = record m { right = put m.right i n }

      other : (x : ℕ) → (x ≡ i → ⊥) → SameAt m m' x
      other x o = (refl, refl, refl, put_other m.right i n x o, refl)
