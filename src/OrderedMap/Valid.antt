-- ===== src/OrderedMap/Valid.antt =====
-- The states of src/OrderedMap.ts: arrays that hold an AVL tree, and a free list apart from it.
use Prim.Native.Nat.{Ordering}
use vjuga.Base.{
  ℕ, ◌+◌, ◌≤◌, ◌<◌, ◌≡◌, refl, Bool, true, false, Option, List, arith, ap, sym, ◌∙◌, subst, length,
  if◌then◌else◌, ◌==◌,
}
use vjuga.OrderedMap.{OrderedMap, make, init_cap, set, insert_node, alloc_node}
use vjuga.OrderedMap.Tree.{Tree, leaf, stored, flat, IsAvl}
use vjuga.OrderedMap.TreeInsert.{insert_tree, has_key, occ-insert_tree, insert_tree-IsAvl}
use vjuga.OrderedMap.Memory.{occ, Holds, Holds-frame}
use vjuga.OrderedMap.Insert.{Inserted, next_slot, insert_node-Inserted}
use vjuga.OrderedMap.Content.{content, length-insert_tree, stored-content}
use vjuga.OrderedMap.Free.{slots_from-within, IsApart, IsTaken, and_slot, alloc_node-IsTaken}

-- the uses of slots after an insertion
abbrev used_after : Bool → (ℕ → ℕ) → ℕ → ℕ → ℕ
used_after present used s x = used x + (if present then 0 else if x == s then 1 else 0)

IsApart-same :
    (len : ℕ) (free : List ℕ) (used more : ℕ → ℕ)
    → ((x : ℕ) → more x ≡ used x)
    → IsApart len free used
    → IsApart len free more
IsApart-same len free used more e a =
    ((λ x. omega (arith, e x, a.0 x)), λ x h. a.1 x (omega (arith, e x, h)))

module _ {K V : Type 0} where
  pub record IsValid (m : OrderedMap K V) (t : Tree K V) : Type 0 where
    pub holds : Holds m t m.root
    pub avl : IsAvl t
    pub counted : m.size ≡ length (content t)
    pub apart : IsApart m.len m.free (λ x. occ x t)
    pub room : 1 ≤ m.len

  pub make-IsValid : (no_key : K) (no_val : V) → IsValid (make no_key no_val) leaf
  unfolding make Holds IsAvl content occ flat
  make-IsValid no_key no_val = record {
    holds = refl;
    avl = tt;
    counted = refl;
    apart = (
      (λ x. omega (arith, (slots_from-within x 0 init_cap).0)),
      λ x h. omega (arith, (slots_from-within x 0 init_cap).1 (omega (arith, h))),
    );
    room = omega arith;
  }

  -- The number of entries, plus one, is enough fuel to go down the tree.
  pub enough : (m : OrderedMap K V) (t : Tree K V) → IsValid m t → stored t < m.size + 1
  enough m t v = omega (arith, v.counted, stored-content t v.avl)

  module _ (cmp : K → K → Ordering) (key : K) (val : V) (m : OrderedMap K V) (t : Tree K V) where
    abbrev inserted : Tree K V
    inserted = insert_tree cmp (next_slot m) key val t

    abbrev made : Option ℕ × OrderedMap K V
    made = insert_node cmp (m.size + 1) m m.root key val

    insert_node-IsApart :
        (b : Bool)
        → IsValid m t
        → Inserted m t inserted b made.0 made.1
        → ((x : ℕ) → occ x inserted ≡ used_after b (λ y. occ y t) (next_slot m) x)
        → IsApart made.1.len made.1.free (λ x. occ x inserted) × (1 ≤ made.1.len)
    insert_node-IsApart true v u o =
        subst (λ n. IsApart n made.1.free (λ x. occ x inserted) × (1 ≤ n)) (sym u.len_is)
          (subst (λ f. IsApart m.len f (λ x. occ x inserted) × (1 ≤ m.len)) (sym u.free_is)
            (IsApart-same m.len m.free _ _ (λ x. omega (arith, o x)) v.apart, v.room))
    insert_node-IsApart false v u o =
        let a = alloc_node-IsTaken m (λ x. occ x t) v.room v.apart in
        subst (λ n. IsApart n made.1.free (λ x. occ x inserted) × (1 ≤ n)) (sym u.len_is)
          (subst
            (λ f. IsApart (alloc_node m).1.len f (λ x. occ x inserted) × (1 ≤ (alloc_node m).1.len))
            (sym u.free_is)
            (
              IsApart-same _ _ (and_slot (λ x. occ x t) (next_slot m)) _ o a.0.1,
              omega (arith, v.room, a.1),
            ))

    pub set-IsValid : IsValid m t → IsValid (set cmp m key val) inserted
    unfolding set
    set-IsValid v = record {
      holds =
          Holds-frame made.1 (set cmp m key val) inserted made.0
            (λ i h. (refl, refl, refl, refl, refl)) u.holds;
      avl = (insert_tree-IsAvl cmp (next_slot m) key val t v.avl).0;
      counted =
          u.size_is
          ∙ ap (λ n. n + (if has_key cmp key t then 0 else 1)) v.counted
          ∙ sym (length-insert_tree cmp (next_slot m) key val t);
      apart = b.0;
      room = b.1;
    }
      where
        taken : IsTaken (alloc_node m) (λ x. occ x t) × (m.len ≤ (alloc_node m).1.len)
        taken = alloc_node-IsTaken m (λ x. occ x t) v.room v.apart

        u : Inserted m t inserted (has_key cmp key t) made.0 made.1
        u =
            insert_node-Inserted cmp (m.size + 1) m t m.root key val v.avl (enough m t v)
              (λ x. omega (arith, v.apart.0 x)) (λ x h. v.apart.1 x (omega (arith, h))) taken.0.0
              v.holds

        b : IsApart made.1.len made.1.free (λ x. occ x inserted) × (1 ≤ made.1.len)
        b =
            insert_node-IsApart (has_key cmp key t) v u
              (λ x. occ-insert_tree cmp x (next_slot m) key val t)
