-- ===== src/OrderedMap/Height.antt =====
-- The depth of the AVL tree of src/OrderedMap.ts: how far its links go down from the root.
use Prim.Native.Nat.{Ordering}
use vjuga.Base.{
  ℕ, zero, suc, ◌+◌, ◌-◌, ◌*◌, ◌^◌, ◌≤◌, ◌≡◌, Option, none, some, List, arith, ap, sym, subst,
  length, ◌⊎◌, inl, inr, ltb, if◌then◌else◌,
}
use vjuga.OrderedMap.{OrderedMap, make, taller}
use vjuga.OrderedMap.Tree.{Tree, leaf, node, stored, IsAvl}
use vjuga.OrderedMap.Memory.{Holds}
use vjuga.OrderedMap.Sorted.{IsOrder}
use vjuga.OrderedMap.Content.{content, length-content}
use vjuga.OrderedMap.Calls.{Call, reached, make_reached-Repr}

-- one more than the fewest entries of an AVL tree of a height: 1, 2, 3, 5, 8, ...
unfoldable fewest : ℕ → ℕ
fewest zero = 1
fewest (suc zero) = 2
fewest (suc (suc h)) = fewest (suc h) + fewest h

fewest-step : (h : ℕ) → fewest h ≤ fewest (suc h)
unfolding fewest
fewest-step zero = omega arith
fewest-step (suc h) = omega arith

square-double : (b k p : ℕ) → p ≤ b * b → 4 * p ≤ (b + k + b) * (b + k + b)
square-double b k p h = grind arith

square-sum : (a b p : ℕ) → b ≤ a → p ≤ b * b → 4 * p ≤ (a + b) * (a + b)
square-sum a b p l h =
    let e : b + (a - b) ≡ a = omega arith in
    subst (λ z. 4 * p ≤ (z + b) * (z + b)) e (square-double b (a - b) p h)

square_mono : (a b : ℕ) → a ≤ b → a * a ≤ b * b
square_mono a b h = grind arith

power-fewest : (h : ℕ) → 2 ^ h ≤ fewest h * fewest h
unfolding fewest
power-fewest zero = omega arith
power-fewest (suc zero) = omega arith
power-fewest (suc (suc h)) =
    omega (arith, square-sum (fewest (suc h)) (fewest h) (2 ^ h) (fewest-step h) (power-fewest h))

power_pos : (b : ℕ) → 1 ≤ 2 ^ b
power_pos zero = omega arith
power_pos (suc b) = omega (arith, power_pos b)

power_mono : (a b : ℕ) → a ≤ b → 2 ^ a ≤ 2 ^ b
power_mono zero b h = power_pos b
power_mono (suc a) zero h = absurd (omega arith)
power_mono (suc a) (suc b) h = omega (arith, power_mono a b (omega arith))

-- the heights under a node: one child is one below it, the other one one or two
near :
    (l r g : ℕ)
    → suc (suc g) ≡ taller l r
    → l ≤ r + 1
    → r ≤ l + 1
    → ((l ≡ suc g) × ((r ≡ g) ⊎ (r ≡ suc g))) ⊎ ((r ≡ suc g) × (l ≡ g))
near l r g e m n = ground arith

fewest-near : (x h : ℕ) → (x ≡ h) ⊎ (x ≡ suc h) → fewest h ≤ fewest x
fewest-near x h (inl e) = subst (λ z. fewest h ≤ fewest z) (sym e) (omega arith)
fewest-near x h (inr e) = subst (λ z. fewest h ≤ fewest z) (sym e) (fewest-step h)

fewest-is : (x h : ℕ) → x ≡ h → fewest h ≡ fewest x
fewest-is x h e = sym (ap fewest e)

-- the entries of a node, when those of its children are enough for their heights
above :
    (h l r ll lr : ℕ)
    → h ≡ taller l r
    → l ≤ r + 1
    → r ≤ l + 1
    → fewest l ≤ ll + 1
    → fewest r ≤ lr + 1
    → fewest h ≤ ll + suc lr + 1
unfolding fewest
above zero l r ll lr e m n a b = omega arith
above (suc zero) l r ll lr e m n a b = omega arith
above (suc (suc g)) l r ll lr e m n a b = elim (near l r g e m n) [
  | inl (x, y) ↦ omega (arith, a, b, fewest-is l (suc g) x, fewest-near r g y)
  | inr (x, y) ↦ omega (arith, a, b, fewest-is r (suc g) x, fewest-is l g y)
]

deeper : (a b l r g : ℕ) → a ≤ l → b ≤ r → g ≡ taller l r → suc (if ltb a b then b else a) ≤ g
deeper a b l r g x y e = ground arith

module _ {K V : Type 0} where
  -- The nodes on the longest way down from the node `n`, along the links, of at most `levels` nodes.
  unfoldable pub depth : OrderedMap K V → ℕ → Option ℕ → ℕ
  depth m zero n = 0
  depth m (suc levels) none = 0
  depth m (suc levels) (some i) =
      let a = depth m levels (m.left i) in
      let b = depth m levels (m.right i) in suc (if ltb a b then b else a)

  fewest-content : (t : Tree K V) → IsAvl t → fewest (stored t) ≤ length (content t) + 1
  unfolding IsAvl
  fewest-content leaf a = unfold fewest in omega arith
  fewest-content (node l i k v h r) a =
      subst (λ n. fewest h ≤ n + 1) (sym (length-content l i k v h r))
        (above h (stored l) (stored r) _ _ a.2 a.3 a.4 (fewest-content l a.0)
          (fewest-content r a.1))

  -- the heights that an AVL tree stores are at least the depths of the links
  depth-stored :
      (m : OrderedMap K V) (t : Tree K V) (levels : ℕ) (n : Option ℕ)
      → Holds m t n
      → IsAvl t
      → depth m levels n ≤ stored t
  unfolding depth Holds IsAvl
  depth-stored m t zero n h a = omega arith
  depth-stored m leaf (suc levels) none h a = omega arith
  depth-stored m leaf (suc levels) (some j) h a = absurd (ground arith)
  depth-stored m (node l i k v g r) (suc levels) none h a = absurd (ground arith)
  depth-stored m (node l i k v g r) (suc levels) (some j) h a =
      let e : i ≡ j = ground (arith, h.0) in
      let x = depth-stored m l levels (m.left j) (subst (λ z. Holds m l (m.left z)) e h.2) a.0 in
      let y = depth-stored m r levels (m.right j) (subst (λ z. Holds m r (m.right z)) e h.3) a.1 in
      deeper _ _ (stored l) (stored r) g x y a.2

  -- After any calls on a new map, when the comparator is a total order, the way down the links from the
  -- root, over any number of levels, has at most twice the logarithm of one more than the size of nodes:
  -- two to that number is at most the square of one more than the size.
  pub reached-depth :
      (cmp : K → K → Ordering) (no_key : K) (no_val : V) (calls : List (Call K V)) (levels : ℕ)
      → IsOrder cmp
      → (let m = reached cmp no_key no_val (make no_key no_val) calls in
          2 ^ depth m levels m.root ≤ (m.size + 1) * (m.size + 1))
  reached-depth cmp no_key no_val calls levels o =
      let m = reached cmp no_key no_val (make no_key no_val) calls in
      let r = make_reached-Repr cmp no_key no_val calls o in
      omega (
        arith,
        power_mono _ _ (depth-stored m r.0 levels m.root r.1.holds r.1.avl),
        power-fewest (stored r.0),
        square_mono (fewest (stored r.0)) (m.size + 1)
            (omega (arith, fewest-content r.0 r.1.avl, r.1.counted)),
      )
