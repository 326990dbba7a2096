-- ===== src/OrderedMap/Tree.antt =====
-- Search trees whose nodes have slots and stored heights, as src/OrderedMap.ts keeps them, and the
-- steps of the AVL algorithm on them.
use mathlib.Core.List.{append_assoc}
use vjuga.Base.{
  ℕ, ◌+◌, ◌≤◌, ◌<◌, ◌≡◌, refl, false, List, [], ◌∷◌, ◌++◌, ltb, if◌then◌else◌, arith, ap, sym, ◌∙◌,
  Bool-cases, ltb→lt, ltb→ge, ◌⊎◌, inl, inr,
}
use vjuga.OrderedMap.{taller}

pub data Tree (K V : Type 0) : Type 0 where
  leaf : Tree K V
  node : Tree K V → ℕ → K → V → ℕ → Tree K V → Tree K V

-- the heights of a rotation, and of a double one
straight_heights :
    (p t r g : ℕ)
    → g ≡ taller p t
    → g ≡ r + 2
    → p ≤ t + 1
    → t ≤ p + 1
    → ltb p t ≡ false
    → (t ≤ r + 1)
      × (r ≤ t + 1)
      × (p ≤ taller t r + 1)
      × (taller t r ≤ p + 1)
      × (taller p (taller t r) ≤ taller g r)
      × (taller g r ≤ taller p (taller t r) + 1)
straight_heights p t r g e f m n c = ground arith

bent_heights :
    (p c d t r g : ℕ)
    → g ≡ taller p t
    → g ≡ r + 2
    → t ≡ taller c d
    → c ≤ d + 1
    → d ≤ c + 1
    → p < t
    → t ≤ p + 1
    → (p ≤ c + 1)
      × (c ≤ p + 1)
      × (d ≤ r + 1)
      × (r ≤ d + 1)
      × (taller p c ≤ taller d r + 1)
      × (taller d r ≤ taller p c + 1)
      × (taller (taller p c) (taller d r) ≤ taller g r)
      × (taller g r ≤ taller (taller p c) (taller d r) + 1)
bent_heights p c d t r g e f h m n lt o = ground arith

taller_comm : (x y : ℕ) → taller x y ≡ taller y x
taller_comm x y = ground arith

bent_right_heights :
    (p c d t l g : ℕ)
    → g ≡ taller t p
    → g ≡ l + 2
    → t ≡ taller c d
    → c ≤ d + 1
    → d ≤ c + 1
    → p < t
    → t ≤ p + 1
    → (l ≤ c + 1)
      × (c ≤ l + 1)
      × (d ≤ p + 1)
      × (p ≤ d + 1)
      × (taller l c ≤ taller d p + 1)
      × (taller d p ≤ taller l c + 1)
      × (taller (taller l c) (taller d p) ≤ taller l g)
      × (taller l g ≤ taller (taller l c) (taller d p) + 1)
bent_right_heights p c d t l g e f h m n lt o = ground arith

module _ {K V : Type 0} where
  abbrev pub stored : Tree K V → ℕ
  stored leaf = 0
  stored (node l i k v h r) = h

  -- a node whose height is that of its children
  abbrev pub join : Tree K V → ℕ → K → V → Tree K V → Tree K V
  join l i k v r = node l i k v (taller (stored l) (stored r)) r

  unfoldable pub turn_right : Tree K V → Tree K V
  turn_right (node (node a i k v g b) j q w h c) = join a i k v (join b j q w c)
  turn_right t = t

  unfoldable pub turn_left : Tree K V → Tree K V
  turn_left (node a i k v h (node b j q w g c)) = join (join a i k v b) j q w c
  turn_left t = t

  -- the child that is turned before its parent, if it is bent inwards
  unfoldable pub unbend_left : Tree K V → Tree K V
  unbend_left (node a i k v g b) =
      if ltb (stored a) (stored b) then turn_left (node a i k v g b) else node a i k v g b
  unbend_left leaf = leaf

  unfoldable pub unbend_right : Tree K V → Tree K V
  unbend_right (node b j q w g c) =
      if ltb (stored c) (stored b) then turn_right (node b j q w g c) else node b j q w g c
  unbend_right leaf = leaf

  unfoldable pub balanced : Tree K V → ℕ → K → V → Tree K V → Tree K V
  balanced l i k v r =
      let h = taller (stored l) (stored r) in
      if ltb (stored r + 1) (stored l)
      then turn_right (node (unbend_left l) i k v h r)
      else if ltb (stored l + 1) (stored r)
      then turn_left (node l i k v h (unbend_right r))
      else node l i k v h r

  -- the entries in order, with their slots
  unfoldable pub flat : Tree K V → List (ℕ × K × V)
  flat leaf = []
  flat (node l i k v h r) = flat l ++ (i, k, v) ∷ flat r

  -- the heights are those of the tree, and siblings differ by one at most
  unfoldable pub IsAvl : Tree K V → Type 0
  IsAvl leaf = Unit
  IsAvl (node l i k v h r) =
      IsAvl l
      × IsAvl r
      × (h ≡ taller (stored l) (stored r))
      × (stored l ≤ stored r + 1)
      × (stored r ≤ stored l + 1)

  turn_right-flat : (t : Tree K V) → flat (turn_right t) ≡ flat t
  unfolding turn_right flat
  turn_right-flat leaf = refl
  turn_right-flat (node leaf j q w h c) = refl
  turn_right-flat (node (node a i k v g b) j q w h c) =
      sym (append_assoc (flat a) ((i, k, v) ∷ flat b) ((j, q, w) ∷ flat c))

  turn_left-flat : (t : Tree K V) → flat (turn_left t) ≡ flat t
  unfolding turn_left flat
  turn_left-flat leaf = refl
  turn_left-flat (node a i k v h leaf) = refl
  turn_left-flat (node a i k v h (node b j q w g c)) =
      append_assoc (flat a) ((i, k, v) ∷ flat b) ((j, q, w) ∷ flat c)

  unbend_left-flat : (t : Tree K V) → flat (unbend_left t) ≡ flat t
  unfolding unbend_left
  unbend_left-flat leaf = refl
  unbend_left-flat (node a i k v g b) = elim (Bool-cases (ltb (stored a) (stored b))) [
    | inl e ↦ rw e (turn_left-flat (node a i k v g b))
    | inr e ↦ rw e refl
  ]

  unbend_right-flat : (t : Tree K V) → flat (unbend_right t) ≡ flat t
  unfolding unbend_right
  unbend_right-flat leaf = refl
  unbend_right-flat (node b j q w g c) = elim (Bool-cases (ltb (stored c) (stored b))) [
    | inl e ↦ rw e (turn_right-flat (node b j q w g c))
    | inr e ↦ rw e refl
  ]

  -- Rebalancing keeps the entries and their order.
  pub balanced-flat :
      (l : Tree K V) (i : ℕ) (k : K) (v : V) (r : Tree K V)
      → flat (balanced l i k v r) ≡ flat l ++ (i, k, v) ∷ flat r
  unfolding balanced flat
  balanced-flat l i k v r = elim (Bool-cases (ltb (stored r + 1) (stored l))) [
    | inl e ↦ rw e (
        turn_right-flat (node (unbend_left l) i k v (taller (stored l) (stored r)) r)
        ∙ ap (λ m. m ++ (i, k, v) ∷ flat r) (unbend_left-flat l))
    | inr e ↦ elim (Bool-cases (ltb (stored l + 1) (stored r))) [
      | inl f ↦
          rw (e, f)
            (turn_left-flat (node l i k v (taller (stored l) (stored r)) (unbend_right r))
              ∙ ap (λ m. flat l ++ (i, k, v) ∷ m) (unbend_right-flat r))
      | inr f ↦ rw (e, f) refl
    ]
  ]

  -- what rebalancing makes of two children whose heights are `x` and `y`
  abbrev pub IsMended : Tree K V → ℕ → ℕ → Type 0
  IsMended t x y = IsAvl t × (stored t ≤ taller x y) × (taller x y ≤ stored t + 1)

  mend_left :
      (l : Tree K V) (i : ℕ) (k : K) (v : V) (h : ℕ) (r : Tree K V)
      → IsAvl l
      → IsAvl r
      → stored l ≡ stored r + 2
      → IsMended (turn_right (node (unbend_left l) i k v h r)) (stored l) (stored r)
  unfolding IsAvl turn_right turn_left unbend_left
  mend_left leaf i k v h r a b e = absurd (omega (arith, e))
  mend_left (node p j q w g t) i k v h r a b e = elim (Bool-cases (ltb (stored p) (stored t))) [
    | inl c ↦ rw c (bent t a.1 (ltb→lt _ _ c) a.2 a.4)
    | inr c ↦
        let n = straight_heights (stored p) (stored t) (stored r) g a.2 e a.3 a.4 c in
        rw c ((a.0, (a.1, b, refl, n.0, n.1), refl, n.2, n.3), n.4, n.5)
  ]
    where
      bent :
          (t : Tree K V)
          → IsAvl t
          → stored p < stored t
          → g ≡ taller (stored p) (stored t)
          → stored t ≤ stored p + 1
          → IsMended (turn_right (node (turn_left (node p j q w g t)) i k v h r)) g (stored r)
      bent leaf x lt f m = absurd (omega (arith, lt))
      bent (node c y z u f' d) x lt f m =
          let n =
            bent_heights (stored p) (stored c) (stored d) f' (stored r) g f e x.2 x.3 x.4 lt m in
          (((a.0, x.0, refl, n.0, n.1), (x.1, b, refl, n.2, n.3), refl, n.4, n.5), n.6, n.7)

  mend_right :
      (l : Tree K V) (i : ℕ) (k : K) (v : V) (h : ℕ) (r : Tree K V)
      → IsAvl l
      → IsAvl r
      → stored r ≡ stored l + 2
      → IsMended (turn_left (node l i k v h (unbend_right r))) (stored l) (stored r)
  unfolding IsAvl turn_right turn_left unbend_right
  mend_right l i k v h leaf a b e = absurd (omega (arith, e))
  mend_right l i k v h (node t j q w g p) a b e = elim (Bool-cases (ltb (stored p) (stored t))) [
    | inl c ↦ rw c (bent t b.0 (ltb→lt _ _ c) b.2 b.3)
    | inr c ↦
        let n =
          straight_heights (stored p) (stored t) (stored l) g
            (b.2 ∙ taller_comm (stored t) (stored p)) e b.4 b.3 c in
        let s =
          swapped (taller (stored l) (stored t)) (stored p) g (stored l)
            (taller (stored p) (taller (stored t) (stored l)))
            (outer (stored l) (stored t) (stored p)) n.4 n.5 in
        rw c (
          (
            (a, b.0, refl, n.1, n.0),
            b.1,
            refl,
            omega (arith, n.3, taller_comm (stored t) (stored l)),
            omega (arith, n.2, taller_comm (stored t) (stored l)),
          ),
          s.0,
          s.1,
        )
  ]
    where
      outer : (x y z : ℕ) → taller (taller x y) z ≡ taller z (taller y x)
      outer x y z = taller_comm (taller x y) z ∙ ap (λ m. taller z m) (taller_comm x y)

      swapped :
          (x z g' y w' : ℕ)
          → taller x z ≡ w'
          → w' ≤ taller g' y
          → taller g' y ≤ w' + 1
          → (taller x z ≤ taller y g') × (taller y g' ≤ taller x z + 1)
      swapped x z g' y w' e' f n = omega (arith, e', f, n, taller_comm y g')

      bent :
          (t : Tree K V)
          → IsAvl t
          → stored p < stored t
          → g ≡ taller (stored t) (stored p)
          → stored t ≤ stored p + 1
          → IsMended (turn_left (node l i k v h (turn_right (node t j q w g p)))) (stored l) g
      bent leaf x lt f m = absurd (omega (arith, lt))
      bent (node c y z u f' d) x lt f m =
          let n =
            bent_right_heights (stored p) (stored c) (stored d) f' (stored l) g f e x.2 x.3 x.4 lt
              m in
          (((a, x.0, refl, n.0, n.1), (x.1, b.1, refl, n.2, n.3), refl, n.4, n.5), n.6, n.7)

  pub balanced-IsAvl :
      (l : Tree K V) (i : ℕ) (k : K) (v : V) (r : Tree K V)
      → IsAvl l
      → IsAvl r
      → stored l ≤ stored r + 2
      → stored r ≤ stored l + 2
      → IsMended (balanced l i k v r) (stored l) (stored r)
  unfolding balanced
  balanced-IsAvl l i k v r a b m n = elim (Bool-cases (ltb (stored r + 1) (stored l))) [
    | inl e ↦ rw e (mend_left l i k v _ r a b (omega (arith, m, ltb→lt _ _ e)))
    | inr e ↦ elim (Bool-cases (ltb (stored l + 1) (stored r))) [
      | inl f ↦ rw (e, f) (mend_right l i k v _ r a b (omega (arith, n, ltb→lt _ _ f)))
      | inr f ↦
          rw (e, f)
            (
              (unfold IsAvl in
                  (a, b, refl, omega (arith, ltb→ge _ _ e), omega (arith, ltb→ge _ _ f))),
              omega arith,
              omega arith,
            )
    ]
  ]

  -- what is even enough is not rotated
  pub balanced-height :
      (l : Tree K V) (i : ℕ) (k : K) (v : V) (r : Tree K V)
      → (stored (balanced l i k v r) ≡ taller (stored l) (stored r))
        ⊎ (stored r + 1 < stored l)
        ⊎ (stored l + 1 < stored r)
  unfolding balanced
  balanced-height l i k v r = elim (Bool-cases (ltb (stored r + 1) (stored l))) [
    | inl e ↦ inr (inl (ltb→lt _ _ e))
    | inr e ↦ elim (Bool-cases (ltb (stored l + 1) (stored r))) [
      | inl f ↦ inr (inr (ltb→lt _ _ f))
      | inr f ↦ inl (rw (e, f) refl)
    ]
  ]
