-- ===== src/OrderedMap/Ends.antt =====
-- `min` and `max` of src/OrderedMap.ts on arrays that hold a sorted AVL tree.
use vjuga.Base.{
  ℕ, zero, suc, ◌≤◌, ◌≡◌, refl, Option, none, some, List, [], ◌∷◌, ◌++◌, arith, ap, ap₂, sym, ◌∙◌,
}
use vjuga.OrderedMap.{OrderedMap}
use vjuga.OrderedMap.Tree.{Tree, leaf, node, stored, flat, IsAvl}
use vjuga.OrderedMap.Memory.{Holds}
use vjuga.OrderedMap.Insert.{lower}
use vjuga.OrderedMap.Content.{content, content-node}
use vjuga.OrderedMap.Read.{min, min_from, min_loop, max, max_from, max_loop}
use vjuga.OrderedMap.Valid.{IsValid, enough}

module _ {K V : Type 0} where
  unfoldable pub first : List (K × V) → Option (K × V)
  first [] = none
  first (p ∷ l) = some p

  unfoldable pub last : List (K × V) → Option (K × V)
  last [] = none
  last (p ∷ []) = some p
  last (p ∷ q ∷ l) = last (q ∷ l)

  last-append :
      (xs : List (K × V)) (p : K × V) (ys : List (K × V)) → last (xs ++ p ∷ ys) ≡ last (p ∷ ys)
  unfolding last
  last-append [] p ys = refl
  last-append (x ∷ []) p ys = refl
  last-append (x ∷ y ∷ xs) p ys = last-append (y ∷ xs) p ys

  first-some :
      (xs : List (K × V)) (p : K × V) (ys : List (K × V))
      → first xs ≡ some p
      → first (xs ++ ys) ≡ some p
  unfolding first
  first-some [] p ys e = absurd (ground arith)
  first-some (x ∷ xs) p ys e = e

  -- The loop of `min`, with fuel from the height on, ends at the first entry.
  min_loop-first :
      (fuel : ℕ) (m : OrderedMap K V) (l : Tree K V) (i : ℕ) (k : K) (v : V) (h : ℕ) (r : Tree K V)
      → IsAvl (node l i k v h r)
      → h ≤ fuel
      → Holds m (node l i k v h r) (some i)
      → first (content (node l i k v h r)) ≡ some (min_loop fuel m i)
  unfolding min_loop Holds IsAvl first
  min_loop-first zero m l i k v h r a f at = absurd (ground (arith, f, a.2))
  min_loop-first (suc fuel) m leaf i k v h r a f at =
      rw (at.2, min_loop)
        (unfold content flat in ap₂ (λ x y. some (x, y)) (sym at.1.0) (sym at.1.1))
  min_loop-first (suc fuel) m (node b j q w g c) i k v h r a f at =
      rw (at.2.0, min_loop)
        (ap first (content-node (node b j q w g c) i k v h r)
          ∙ first-some (content (node b j q w g c)) (min_loop fuel m j) ((k, v) ∷ content r) (
              min_loop-first fuel m b j q w g c a.0
                (omega (arith, (lower g (stored r) h (suc fuel) a.2 (omega (arith, f))).0))
                (refl, at.2.1, at.2.2, at.2.3)))

  max_loop-last :
      (fuel : ℕ) (m : OrderedMap K V) (l : Tree K V) (i : ℕ) (k : K) (v : V) (h : ℕ) (r : Tree K V)
      → IsAvl (node l i k v h r)
      → h ≤ fuel
      → Holds m (node l i k v h r) (some i)
      → last (content (node l i k v h r)) ≡ some (max_loop fuel m i)
  unfolding max_loop Holds IsAvl last content flat
  max_loop-last zero m l i k v h r a f at = absurd (ground (arith, f, a.2))
  max_loop-last (suc fuel) m l i k v h leaf a f at =
      rw (at.3, max_loop)
        (ap last (content-node l i k v h leaf)
          ∙ last-append (content l) (k, v) []
          ∙ ap₂ (λ x y. some (x, y)) (sym at.1.0) (sym at.1.1))
  max_loop-last (suc fuel) m l i k v h (node b j q w g c) a f at =
      rw (at.3.0, max_loop)
        (ap last (content-node l i k v h (node b j q w g c))
          ∙ last-append (content l) (k, v) (content (node b j q w g c))
          ∙ ap (λ z. last ((k, v) ∷ z)) (content-node b j q w g c)
          ∙ last-append ((k, v) ∷ content b) (q, w) (content c)
          ∙ sym (ap last (content-node b j q w g c) ∙ last-append (content b) (q, w) (content c))
          ∙ max_loop-last fuel m b j q w g c a.1
              (omega (arith, (lower (stored l) g h (suc fuel) a.2 (omega (arith, f))).1))
              (refl, at.3.1, at.3.2, at.3.3))

  min_from-first :
      (m : OrderedMap K V) (t : Tree K V) (n : Option ℕ)
      → IsAvl t
      → stored t ≤ m.size
      → Holds m t n
      → min_from m n ≡ first (content t)
  unfolding min_from first Holds content flat
  min_from-first m leaf n a f at = ap (min_from m) at
  min_from-first m (node l i k v h r) n a f at =
      ap (min_from m) at.0 ∙ sym (min_loop-first m.size m l i k v h r a f (refl, at.1, at.2, at.3))

  max_from-last :
      (m : OrderedMap K V) (t : Tree K V) (n : Option ℕ)
      → IsAvl t
      → stored t ≤ m.size
      → Holds m t n
      → max_from m n ≡ last (content t)
  unfolding max_from last Holds content flat
  max_from-last m leaf n a f at = ap (max_from m) at
  max_from-last m (node l i k v h r) n a f at =
      ap (max_from m) at.0 ∙ sym (max_loop-last m.size m l i k v h r a f (refl, at.1, at.2, at.3))

  pub min-first : (m : OrderedMap K V) (t : Tree K V) → IsValid m t → min m ≡ first (content t)
  unfolding min
  min-first m t v = min_from-first m t m.root v.avl (omega (arith, enough m t v)) v.holds

  pub max-last : (m : OrderedMap K V) (t : Tree K V) → IsValid m t → max m ≡ last (content t)
  unfolding max
  max-last m t v = max_from-last m t m.root v.avl (omega (arith, enough m t v)) v.holds
