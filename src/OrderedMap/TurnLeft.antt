-- ===== src/OrderedMap/TurnLeft.antt =====
-- `rotateLeft` of src/OrderedMap.ts on the arrays that hold a tree: `j` has the right child `i`.
use vjuga.Base.{ℕ, ◌≡◌, refl, Option, some, arith, sym, ◌⊎◌, inl, inr, subst}
use vjuga.Base.Stores.{put, put_self, put_other}
use vjuga.OrderedMap.{OrderedMap, update_height, rotate_left}
use vjuga.OrderedMap.Tree.{Tree, node, join}
use vjuga.OrderedMap.Memory.{
  occ, Holds, SameAt, Holds-frame, Once, update_height-same, update_height-Holds, apart, Turned,
}

module _ {K V : Type 0} where
  module _ (m : OrderedMap K V) (a b c : Tree K V) (i j : ℕ) (k q : K) (v w : V) (g h : ℕ)
      (d : Once (node c j q w h (node b i k v g a))) (e : (m.keys j ≡ q) × (m.vals j ≡ w))
      (p : Holds m (node b i k v g a) (m.right j)) (z : Holds m c (m.left j)) where
    abbrev m1 : OrderedMap K V
    m1 = record m { right = put m.right j (m.left i); left = put m.left i (some j) }

    abbrev m2 : OrderedMap K V
    m2 = update_height m1 j

    differ : i ≡ j → ⊥
    unfolding occ
    differ s = absurd (ground (arith, d i, s))

    outside : (x : ℕ) → (x ≡ i) ⊎ (x ≡ j) → (occ x a ≡ 0) × (occ x b ≡ 0) × (occ x c ≡ 0)
    unfolding occ
    outside x s = ground (arith, d x, s)

    moved : (t : Tree K V) → occ i t ≡ 0 → occ j t ≡ 0 → (n : Option ℕ) → Holds m t n → Holds m1 t n
    moved t oi oj n = Holds-frame m m1 t n (λ x o. (
      refl,
      refl,
      put_other m.left i _ x (apart t i x oi o),
      put_other m.right j _ x (apart t j x oj o),
      refl,
    ))

    moved2 : (t : Tree K V) → occ j t ≡ 0 → (n : Option ℕ) → Holds m1 t n → Holds m2 t n
    moved2 t oj n = Holds-frame m1 m2 t n (λ x o. update_height-same m1 j x (apart t j x oj o))

    turned_low : Holds m2 (join c j q w b) (some j)
    unfolding Holds
    turned_low =
        let oi = outside i (inl refl) in
        let oj = outside j (inr refl) in
        update_height-Holds m1 c j q w b e
          (subst (Holds m1 c) (sym (put_other m.left i _ j (λ s. differ (sym s))))
            (moved c oi.2 oj.2 _ z))
          (subst (Holds m1 b) (sym (put_self m.right j _)) (moved b oi.1 oj.1 _ p.2)) oj.2 oj.1

    turned_top : Holds (update_height m2 i) (join (join c j q w b) i k v a) (some i)
    unfolding Holds update_height occ
    turned_top =
        let oi = outside i (inl refl) in
        let oj = outside j (inr refl) in
        update_height-Holds m2 (join c j q w b) i k v a (p.1.0, p.1.1)
          (subst (Holds m2 (join c j q w b)) (sym (put_self m.left i _)) turned_low)
          (subst (Holds m2 a) (sym (put_other m.right j _ i differ))
            (moved2 a oj.0 _ (moved a oi.0 oj.0 _ p.3)))
          (ground (arith, oi, differ)) oi.0

    turned_frame :
        (x : ℕ) → occ x (node c j q w h (node b i k v g a)) ≡ 0 → SameAt m (update_height m2 i) x
    unfolding update_height occ
    turned_frame x o = ground (arith, o)

    pub rotate_left-Turned :
        Turned m
          (node c j q w h (node b i k v g a))
          (join (join c j q w b) i k v a)
          (rotate_left m j).0
          (rotate_left m j).1
    unfolding rotate_left Holds
    rotate_left-Turned = rw p.0 (record {
      holds = turned_top;
      frame = turned_frame;
      rest = unfold update_height in (refl, refl, refl, refl);
    })
