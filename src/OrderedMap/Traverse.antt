-- ===== src/OrderedMap/Traverse.antt =====
-- The in-order traversal of src/OrderedMap.ts on arrays that hold a tree.
use vjuga.Base.{
  ℕ, zero, suc, ◌+◌, ◌≤◌, ◌<◌, ◌≡◌, refl, Option, List, [], ◌∷◌, ◌++◌, arith, ap, ap₂, sym, ◌∙◌,
  subst, length,
}
use mathlib.Core.List.{map, append_assoc, append-nil}
use vjuga.OrderedMap.{OrderedMap, taller}
use vjuga.OrderedMap.Tree.{Tree, leaf, node, stored, flat, IsAvl}
use vjuga.OrderedMap.Memory.{Holds}
use vjuga.OrderedMap.Insert.{lower}
use vjuga.OrderedMap.Content.{content, content-node}
use vjuga.OrderedMap.Valid.{IsValid, enough}
use vjuga.OrderedMap.Read.{entry_at}
use vjuga.OrderedMap.Walk.{push_left, pop_loop, traverse, keys, values, entries}

-- the heights of the subtrees are within the bound of the tree's
pub within : (l r h n : ℕ) → h ≡ taller l r → h ≤ n → (l ≤ n) × (r ≤ n)
within l r h n e g = ground arith

-- a node on the stack: its slot, its key and value, and its right subtree
abbrev pub Pending : Type 0 → Type 0 → Type 0
Pending K V = ℕ × K × V × Tree K V

module _ {K V : Type 0} where
  -- the entries still to come from the stack
  unfoldable pub todo : List (Pending K V) → List (K × V)
  todo [] = []
  todo (p ∷ ps) = (p.1, p.2) ∷ content p.3 ++ todo ps

  -- the left spine of a tree, on the stack
  unfoldable pub spine : Tree K V → List (Pending K V) → List (Pending K V)
  spine leaf ps = ps
  spine (node l i k v h r) ps = spine l ((i, k, v, r) ∷ ps)

  pub todo-spine :
      (t : Tree K V) (ps : List (Pending K V)) → todo (spine t ps) ≡ content t ++ todo ps
  unfolding spine
  todo-spine leaf ps = unfold content flat in refl
  todo-spine (node l i k v h r) ps =
      todo-spine l ((i, k, v, r) ∷ ps)
      ∙ unfold todo in
        sym (append_assoc (content l) ((k, v) ∷ content r) (todo ps))
        ∙ ap (λ z. z ++ todo ps) (sym (content-node l i k v h r))

module _ {K V : Type 0} (m : OrderedMap K V) where
  -- the stack of slots is that of the pending nodes, which the arrays hold
  unfoldable pub Stacked : List ℕ → List (Pending K V) → Type 0
  Stacked [] [] = Unit
  Stacked (n ∷ stack) (p ∷ ps) =
      (n ≡ p.0)
      × (entry_at m n ≡ (p.1, p.2))
      × Holds m p.3 (m.right n)
      × IsAvl p.3
      × (stored p.3 ≤ m.size)
      × Stacked stack ps
  Stacked [] (p ∷ ps) = ⊥
  Stacked (n ∷ stack) [] = ⊥

  pub push_left-Stacked :
      (fuel : ℕ) (t : Tree K V) (n : Option ℕ) (stack : List ℕ) (ps : List (Pending K V))
      → IsAvl t
      → stored t < fuel
      → stored t ≤ m.size
      → Holds m t n
      → Stacked stack ps
      → Stacked (push_left m fuel n stack) (spine t ps)
  unfolding push_left spine Stacked Holds IsAvl
  push_left-Stacked zero t n stack ps a f b at s = absurd (omega (arith, f))
  push_left-Stacked (suc fuel) leaf n stack ps a f b at s = rw at s
  push_left-Stacked (suc fuel) (node l i k v h r) n stack ps a f b at s = rw at.0 (
      push_left-Stacked fuel l (m.left i) (i ∷ stack) ((i, k, v, r) ∷ ps) a.0
        (lower (stored l) (stored r) h fuel a.2 f).0 (within (stored l) (stored r) h m.size a.2 b).0
        at.2
        (
          refl,
          ap₂ (λ x y. (x, y)) at.1.0 at.1.1,
          at.3,
          a.1,
          (within (stored l) (stored r) h m.size a.2 b).1,
          s,
        ))

  module _ {A : Type 0} (yields : ℕ → A) (part : K × V → A)
      (same : (n : ℕ) → yields n ≡ part (entry_at m n)) where
    pop_loop-todo :
        (fuel : ℕ) (stack : List ℕ) (ps : List (Pending K V))
        → Stacked stack ps
        → length (todo ps) ≤ fuel
        → pop_loop m yields fuel stack ≡ map part (todo ps)
    unfolding pop_loop todo Stacked
    pop_loop-todo zero [] [] s f = refl
    pop_loop-todo zero (n ∷ stack) (p ∷ ps) s f = absurd (omega (arith, f))
    pop_loop-todo (suc fuel) [] [] s f = refl
    pop_loop-todo zero [] (p ∷ ps) s f = absurd s
    pop_loop-todo (suc fuel) [] (p ∷ ps) s f = absurd s
    pop_loop-todo zero (n ∷ stack) [] s f = absurd s
    pop_loop-todo (suc fuel) (n ∷ stack) [] s f = absurd s
    pop_loop-todo (suc fuel) (n ∷ stack) (p ∷ ps) s f =
        ap₂ (λ e rest. e ∷ rest) (same n ∙ ap part s.1)
          (pop_loop-todo fuel (push_left m (m.size + 1) (m.right n) stack) (spine p.3 ps)
              (push_left-Stacked (m.size + 1) p.3 (m.right n) stack ps s.3 (omega (arith, s.4)) s.4
                s.2 s.5)
              (subst (λ l. length l ≤ fuel) (sym (todo-spine p.3 ps)) (omega (arith, f)))
            ∙ ap (map part) (todo-spine p.3 ps))

    traverse-content : (t : Tree K V) → IsValid m t → traverse m yields ≡ map part (content t)
    unfolding traverse Stacked
    traverse-content t v =
        pop_loop-todo m.size (push_left m (m.size + 1) m.root []) (spine t [])
          (push_left-Stacked (m.size + 1) t m.root [] [] v.avl (enough m t v)
            (omega (arith, enough m t v)) v.holds tt)
          (subst (λ l. length l ≤ m.size) (sym all) (omega (arith, v.counted)))
        ∙ ap (map part) all
      where
        all : todo (spine t []) ≡ content t
        all = todo-spine t [] ∙ unfold todo in append-nil (content t)

  -- `entries`, `keys` and `values` yield the entries of the tree in order, or their parts.
  pub entries-content : (t : Tree K V) → IsValid m t → entries m ≡ content t
  unfolding entries
  entries-content t v =
      traverse-content (entry_at m) (λ e. e) (λ n. refl) t v ∙ map_same (content t)
    where
      map_same : (l : List (K × V)) → map (λ e. e) l ≡ l
      map_same [] = refl
      map_same (e ∷ l) = ap (λ z. e ∷ z) (map_same l)

  pub keys-content : (t : Tree K V) → IsValid m t → keys m ≡ map (λ e. e.0) (content t)
  unfolding keys
  keys-content t v = traverse-content m.keys (λ e. e.0) (λ n. refl) t v

  pub values-content : (t : Tree K V) → IsValid m t → values m ≡ map (λ e. e.1) (content t)
  unfolding values
  values-content t v = traverse-content m.vals (λ e. e.1) (λ n. refl) t v
