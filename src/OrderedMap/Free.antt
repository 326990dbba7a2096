-- ===== src/OrderedMap/Free.antt =====
-- The free list of src/OrderedMap.ts and the slot that the next new node takes from it.
use vjuga.Base.{
  ℕ, zero, suc, ◌+◌, ◌-◌, ◌*◌, ◌≤◌, ◌<◌, ◌≡◌, refl, List, [], ◌∷◌, ◌==◌, if◌then◌else◌, arith,
}
use vjuga.Base.Counts.{occurs}
use vjuga.OrderedMap.{OrderedMap, alloc_from, alloc_node, slots_from}

-- The stack has each of its slots once, and no other slot.
pub slots_from-within :
    (x base n : ℕ)
    → (occurs x (slots_from base n) ≤ 1)
      × (1 ≤ occurs x (slots_from base n) → (base ≤ x) × (x < base + n))
unfolding occurs slots_from
slots_from-within x base zero = (omega arith, λ h. absurd (omega (arith, h)))
slots_from-within x base (suc n) =
    let i = slots_from-within x base n in (ground (arith, i.0, i.1), λ h. ground (arith, h, i.1))

-- the slots of the free list and those that `used` counts are apart, and below `len`
abbrev pub IsApart : ℕ → List ℕ → (ℕ → ℕ) → Type 0
IsApart len free used =
    ((x : ℕ) → occurs x free + used x ≤ 1) × ((x : ℕ) → 1 ≤ occurs x free + used x → x < len)

-- one more use, of the slot `s`
abbrev pub and_slot : (ℕ → ℕ) → ℕ → ℕ → ℕ
and_slot used s x = used x + (if x == s then 1 else 0)

module _ {K V : Type 0} where
  -- An allocation takes a slot that is not in use, and leaves the others free or in use.
  abbrev pub IsTaken : ℕ × OrderedMap K V → (ℕ → ℕ) → Type 0
  IsTaken taken used = (used taken.0 ≡ 0) × IsApart taken.1.len taken.1.free (and_slot used taken.0)

  alloc_from-IsTaken :
      (m : OrderedMap K V) (free : List ℕ) (used : ℕ → ℕ)
      → free ≡ m.free
      → 1 ≤ m.len
      → IsApart m.len free used
      → IsTaken (alloc_from m free) used × (m.len ≤ (alloc_from m free).1.len)
  unfolding alloc_from occurs
  alloc_from-IsTaken m (n ∷ free) used e p a = (
    (ground (arith, a.0 n), ((λ x. ground (arith, a.0 x)), (λ x h. a.1 x (ground (arith, h))))),
    omega arith,
  )
  alloc_from-IsTaken m [] used e p a = (
    (
      none_above m.len (omega arith),
      (
        (λ x.
            let i = slots_from-within x (m.len + 1) (m.len * 2 - (m.len + 1)) in
            ground (arith, a.0 x, none_above x, i.0, i.1)),
        (λ x h.
            let i = slots_from-within x (m.len + 1) (m.len * 2 - (m.len + 1)) in
            ground (arith, h, a.0 x, a.1 x, i.0, i.1)),
      ),
    ),
    omega arith,
  )
    where
      none_above : (x : ℕ) → m.len ≤ x → used x ≡ 0
      none_above x h = ground (arith, a.1 x)

  pub alloc_node-IsTaken :
      (m : OrderedMap K V) (used : ℕ → ℕ)
      → 1 ≤ m.len
      → IsApart m.len m.free used
      → IsTaken (alloc_node m) used × (m.len ≤ (alloc_node m).1.len)
  unfolding alloc_node
  alloc_node-IsTaken m used p a = alloc_from-IsTaken m m.free used refl p a
