-- ===== src/LruCache/Ready.antt =====
-- The state that the cache of src/LRUCache.ts keeps, and an entry on its way back into the ring.
use vjuga.Base.{
  ℕ, suc, ◌+◌, ◌≤◌, ◌≡◌, refl, Bool, true, Option, none, some, List, ◌∷◌, arith, if◌then◌else◌, ap,
  sym, ◌∙◌, length, ltb, lt→ltb,
}
use vjuga.Base.Counts.{occurs, remove, occurs-remove}
use vjuga.LruCache.{LruCache, detach, insert_after_sentinel}
use vjuga.LruCache.Ring.{IsRing, detach-IsRing, insert-IsRing, next-in, prev-next}
use vjuga.LruCache.Entries.{
  Entry, slots, slot_of, drop_key, occurs-slot_of, slots-drop_key, length-drop_key, Cells-agree,
  Cells, Unique, Cells-find, Cells-drop_key, slot_of-drop_key, Unique-drop_key,
}

module _ {K V : Type 0} (same : K → K → Bool) (same_eq : (a b : K) → same a b ≡ true → a ≡ b)
    (same_refl : (a : K) → same a a ≡ true) where
  -- The cache `c`, of capacity `cap`, holds the entries `es`.
  pub record Holds (cap : ℕ) (c : LruCache K V) (es : List (Entry K V)) : Type 0 where
    pub ring : IsRing c.next c.prev (slots es)
    pub cells : Cells c.keys c.vals es
    pub unique : Unique same same_eq same_refl es
    pub indexed : (k : K) → c.index k ≡ slot_of same k es
    pub counted : c.size ≡ length es
    pub room : length es + length c.free ≡ cap
    pub apart : (s : ℕ) → occurs s c.free + occurs s (0 ∷ slots es) ≤ 1
    pub len_is : c.len ≡ suc cap
    pub within : (t : ℕ) → 1 ≤ occurs t c.free + occurs t (0 ∷ slots es) → t ≤ cap

  -- The cache `c` holds the entries `es`, and has the entry of `k` in the slot `s`, which is out of
  -- the ring.
  pub record Ready (cap : ℕ) (c : LruCache K V) (es : List (Entry K V)) (s : ℕ) (k : K) (v : V)
      : Type 0 where
    pub ring : IsRing c.next c.prev (slots es)
    pub cells : Cells c.keys c.vals es
    pub at_key : c.keys s ≡ some k
    pub at_val : c.vals s ≡ some v
    pub unique : Unique same same_eq same_refl es
    pub absent : slot_of same k es ≡ none
    pub indexed : (j : K) → c.index j ≡ (if same j k then some s else slot_of same j es)
    pub counted : c.size ≡ suc (length es)
    pub room : suc (length es) + length c.free ≡ cap
    pub apart : (t : ℕ) → occurs t c.free + occurs t (0 ∷ s ∷ slots es) ≤ 1
    pub len_is : c.len ≡ suc cap
    pub within : (t : ℕ) → 1 ≤ occurs t c.free + occurs t (0 ∷ s ∷ slots es) → t ≤ cap

  insert-IsRing_within :
      (cap : ℕ) (c : LruCache K V) (es : List (Entry K V)) (s : ℕ) (k : K) (v : V)
      → Ready cap c es s k v
      → IsRing (insert_after_sentinel c s).next (insert_after_sentinel c s).prev (s ∷ slots es)
  unfolding insert_after_sentinel occurs
  insert-IsRing_within cap c es s k v r =
      let z : ltb 0 c.len ≡ true = lt→ltb 0 c.len (omega (arith, r.len_is)) in
      let i : ltb s c.len ≡ true =
        lt→ltb s c.len (omega (arith, r.len_is, r.within s (ground arith))) in
      let m : ltb (c.next 0) c.len ≡ true = lt→ltb (c.next 0) c.len (
        omega (
          arith,
          r.len_is,
          r.within (c.next 0) (omega (arith, next-in r.ring 0 (ground arith))),
        )) in
      rw (z, i, m) (insert-IsRing r.ring s (ground (arith, r.apart s)))

  pub insert-Holds :
      (cap : ℕ) (c : LruCache K V) (es : List (Entry K V)) (s : ℕ) (k : K) (v : V)
      → Ready cap c es s k v
      → Holds cap (insert_after_sentinel c s) (record { slot = s; key = k; value = v } ∷ es)
  unfolding insert_after_sentinel slot_of occurs
  insert-Holds cap c es s k v r = record {
    ring = insert-IsRing_within cap c es s k v r;
    cells = (r.at_key, r.at_val, r.cells);
    unique = (r.absent, r.unique);
    indexed = r.indexed;
    counted = r.counted;
    room = r.room;
    apart = r.apart;
    len_is = r.len_is;
    within = r.within;
  }

  module _ (cap : ℕ) (c : LruCache K V) (es : List (Entry K V)) (h : Holds cap c es) where
    once-slots : (v : ℕ) → occurs v (slots es) ≤ 1
    unfolding occurs
    once-slots v = omega (arith, h.ring.once v)

    module _ (k : K) (s : ℕ) (at : slot_of same k es ≡ some s) where
      abbrev left : List (Entry K V)
      left = drop_key same k es

      slots_left : slots left ≡ remove s (slots es)
      slots_left = slots-drop_key same k es s at once-slots

      -- the slot and its neighbours are within the arrays
      in_len : (t : ℕ) → 1 ≤ occurs t (0 ∷ slots es) → ltb t c.len ≡ true
      in_len t g = lt→ltb t c.len (omega (arith, h.len_is, h.within t (omega (arith, g))))

      pub detached : IsRing (detach c s).next (detach c s).prev (slots left)
      unfolding detach occurs
      detached =
          let here : 1 ≤ occurs s (slots es) = occurs-slot_of same k es s at in
          let i = in_len s (omega (arith, here)) in
          let p = in_len (c.prev s) (prev-next h.ring s here).1 in
          let n = in_len (c.next s) (next-in h.ring s (omega (arith, here))) in
          rw (i, p, n, slots_left) (detach-IsRing h.ring s here)

      length-left : suc (length left) ≡ length es
      length-left = length-drop_key same k es s at

      absent_left : slot_of same k left ≡ none
      absent_left = slot_of-drop_key same same_eq same_refl k k es h.unique ∙ rw (same_refl k) refl

      pub apart_left : (t : ℕ) → occurs t c.free + occurs t (0 ∷ s ∷ slots left) ≤ 1
      unfolding occurs
      apart_left t =
          rw slots_left (
            ground (arith, h.apart t, occurs-remove s t (slots es) (occurs-slot_of same k es s at)))

      pub within_left : (t : ℕ) → 1 ≤ occurs t c.free + occurs t (0 ∷ s ∷ slots left) → t ≤ cap
      unfolding occurs
      within_left t g = h.within t (
          ground (
            arith,
            g,
            ap (occurs t) slots_left,
            occurs-remove s t (slots es) (occurs-slot_of same k es s at),
          ))

      pub not_left : (t : ℕ) → 1 ≤ occurs t (slots left) → t ≡ s → ⊥
      unfolding occurs
      not_left t g e = absurd (ground (arith, apart_left t, e))

      -- the entry of `k`, out of the ring, with the value `v` in its slot
      module _ (vals' : ℕ → Option V) (v : V) (stored : vals' s ≡ some v)
          (others : (t : ℕ) → (t ≡ s → ⊥) → vals' t ≡ c.vals t) where
        abbrev c' : LruCache K V
        c' = record c { vals = vals' }

        pub found-Ready : Ready cap (detach c' s) left s k v
        unfolding detach
        found-Ready = record {
          ring = detached;
          cells =
              Cells-agree c.keys c.keys c.vals vals' left (λ t g. (refl, others t (not_left t g)))
                (Cells-drop_key same same_eq same_refl c.keys c.vals k es h.cells);
          at_key = (Cells-find same same_eq same_refl c.keys c.vals k es s at h.cells).1;
          at_val = stored;
          unique = Unique-drop_key same same_eq same_refl k es h.unique;
          absent = absent_left;
          indexed = λ j. indexed_left j;
          counted = h.counted ∙ sym length-left;
          room = omega (arith, h.room, length-left);
          apart = apart_left;
          len_is = h.len_is;
          within = within_left;
        }
          where
            indexed_left : (j : K) → c.index j ≡ (if same j k then some s else slot_of same j left)
            indexed_left j =
                h.indexed j
                ∙ ground (
                  arith,
                  at,
                  slot_of-drop_key same same_eq same_refl k j es h.unique,
                  λ (b : same j k ≡ true). ap (λ i. slot_of same i es) (same_eq j k b),
                )
