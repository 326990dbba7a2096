-- ===== src/LruCache/Refine.antt =====
-- The cache of src/LRUCache.ts and the list of its keys and values, most recent first.
use vjuga.Base.{
  ℕ, zero, suc, ◌+◌, ◌-◌, ◌≤◌, ◌≡◌, refl, Bool, true, Option, none, some, List, [], ◌∷◌, arith,
  if◌then◌else◌, ap, sym, ◌∙◌, subst, length, take, ltb, lt→ltb,
}
use vjuga.Base.Counts.{occurs}
use vjuga.Base.Stores.{put}
use vjuga.LruCache.{
  LruCache, detach, insert_after_sentinel, get, get_at, set, set_at, set_new, store_at, evict, has,
  has_at, del, del_at, map_set, map_delete,
}
use vjuga.LruCache.Ring.{prev-last, last_or}
use vjuga.LruCache.Entries.{
  Entry, slots, pairs, present, find, without, slot_of, drop_key, pairs-drop_key, length-drop_key,
  Cells-agree, find-present, find-absent, Cells-find, Cells-drop_key, slot_of-drop_key,
  Unique-drop_key, last_of,
}
use vjuga.LruCache.Ready.{
  Holds, Ready, insert-Holds, detached, found-Ready, apart_left, within_left, not_left,
}

module _ {K V : Type 0} (same : K → K → Bool) (same_eq : (a b : K) → same a b ≡ true → a ≡ b)
    (same_refl : (a : K) → same a a ≡ true) where
  pub length-pairs : (es : List (Entry K V)) → length (pairs es) ≡ length es
  length-pairs [] = refl
  length-pairs (e ∷ es) = ap suc (length-pairs es)

  take_all : (n : ℕ) (l : List (K × V)) → length l ≤ n → take n l ≡ l
  take_all zero [] h = refl
  take_all zero (x ∷ l) h = absurd (omega (arith, h))
  take_all (suc n) [] h = refl
  take_all (suc n) (x ∷ l) h = ap (λ k. x ∷ k) (take_all n l (omega (arith, h)))

  -- The cache `c`, of capacity `cap`, holds the pairs `l`, most recent first.
  pub record Repr (cap : ℕ) (c : LruCache K V) (l : List (K × V)) : Type 0 where
    pub entries : List (Entry K V)
    pub holds : Holds same same_eq same_refl cap c entries
    pub content : pairs entries ≡ l

  -- the list with the entry of `k` in front
  abbrev pub touched : K → V → List (K × V) → List (K × V)
  touched k v l = (k, v) ∷ without same k l

  abbrev promoted : K → Option V → List (K × V) → List (K × V)
  promoted k none l = l
  promoted k (some v) l = touched k v l

  unfoldable pub list_get : K → List (K × V) → Option V × List (K × V)
  list_get k l = (find same k l, promoted k (find same k l) l)

  unfoldable pub list_set : ℕ → K → V → List (K × V) → List (K × V)
  list_set cap k v l = take cap (touched k v l)

  unfoldable pub list_del : K → List (K × V) → Bool × List (K × V)
  list_del k l = (present (find same k l), without same k l)

  module _ (cap : ℕ) (c : LruCache K V) (es : List (Entry K V))
      (h : Holds same same_eq same_refl cap c es) (k : K) where
    found-Repr :
        (s : ℕ)
        → slot_of same k es ≡ some s
        → (vals' : ℕ → Option V) (v : V) → vals' s ≡ some v
        → ((t : ℕ) → (t ≡ s → ⊥) → vals' t ≡ c.vals t)
        → Repr cap
            (insert_after_sentinel (detach (record c { vals = vals' }) s) s)
            (touched k v (pairs es))
    found-Repr s at vals' v stored others = record {
      entries = record { slot = s; key = k; value = v } ∷ drop_key same k es;
      holds =
          insert-Holds same same_eq same_refl cap (detach (record c { vals = vals' }) s)
            (drop_key same k es) s k v
            (found-Ready same same_eq same_refl cap c es h k s at vals' v stored others);
      content = ap (λ l. (k, v) ∷ l) (pairs-drop_key same k es);
    }

    get_at-Repr :
        (o : Option ℕ)
        → c.index k ≡ o
        → ((get_at same c o).0 ≡ (list_get k (pairs es)).0)
          × Repr cap (get_at same c o).1 (list_get k (pairs es)).1
    unfolding get_at list_get
    get_at-Repr none e =
        let a = find-absent same k es (sym (h.indexed k) ∙ e) in
        rw a.0 (refl, record { entries = es; holds = h; content = refl })
    get_at-Repr (some s) e =
        let at = sym (h.indexed k) ∙ e in
        let (v, f) = find-present same k es s at in
        let stored =
          sym (Cells-find same same_eq same_refl c.keys c.vals k es s at h.cells).0 ∙ f in
        rw f (stored, found-Repr s at c.vals v stored (λ t n. refl))

    length-entries : length es ≤ cap
    length-entries = omega (arith, h.room)

    fits :
        (s n : ℕ) (v : V)
        → cap ≡ suc n
        → slot_of same k es ≡ some s
        → touched k v (pairs es) ≡ take cap (touched k v (pairs es))
    fits s n v e at = rw e (
        ap (λ l. (k, v) ∷ l)
          (sym (
            take_all n (without same k (pairs es)) (
              subst (λ l. length l ≤ n) (pairs-drop_key same k es)
                (omega (
                  arith,
                  e,
                  length-pairs (drop_key same k es),
                  length-drop_key same k es s at,
                  length-entries,
                ))))))

    module _ (absent : slot_of same k es ≡ none) (v : V) where
      -- a new key goes into a free slot
      free-Ready :
          (s : ℕ) (free : List ℕ)
          → c.free ≡ s ∷ free
          → Ready same same_eq same_refl cap
              (record c {
                free = free;
                size = c.size + 1;
                keys = put c.keys s (some k);
                vals = put c.vals s (some v);
                index = map_set same c.index k s;
              })
              es
              s
              k
              v
      unfolding occurs
      free-Ready s free e = record {
        ring = h.ring;
        cells =
            Cells-agree c.keys _ c.vals _ es (λ t g. ground (arith, g, h.apart t, ap (occurs t) e))
              h.cells;
        at_key = ground arith;
        at_val = ground arith;
        unique = h.unique;
        absent = absent;
        indexed = λ j. ground (arith, h.indexed j);
        counted = omega (arith, h.counted);
        room = omega (arith, h.room, ap length e);
        apart = λ t. ground (arith, h.apart t, ap (occurs t) e);
        len_is = h.len_is;
        within = λ t g. h.within t (ground (arith, g, ap (occurs t) e));
      }

      -- the slot of the last entry, of the key `old`, is reused
      evicted-Ready :
          (s : ℕ) (old : K)
          → slot_of same old es ≡ some s
          → Ready same same_eq same_refl cap
              (record (detach (record c { index = map_delete same c.index (some old) }) s) {
                keys = put c.keys s (some k);
                vals = put c.vals s (some v);
                index = map_set same (map_delete same c.index (some old)) k s;
              })
              (drop_key same old es)
              s
              k
              v
      unfolding detach
      evicted-Ready s old at = record {
        ring = detached same same_eq same_refl cap c es h old s at;
        cells =
            Cells-agree c.keys _ c.vals _ (drop_key same old es)
              (λ t g. ground (arith, g, not_left same same_eq same_refl cap c es h old s at t))
              (Cells-drop_key same same_eq same_refl c.keys c.vals old es h.cells);
        at_key = ground arith;
        at_val = ground arith;
        unique = Unique-drop_key same same_eq same_refl old es h.unique;
        absent = ground (arith, absent, gone k);
        indexed = λ j. ground (arith, h.indexed j, gone j);
        counted = h.counted ∙ sym (length-drop_key same old es s at);
        room = omega (arith, h.room, length-drop_key same old es s at);
        apart = apart_left same same_eq same_refl cap c es h old s at;
        len_is = h.len_is;
        within = within_left same same_eq same_refl cap c es h old s at;
      }
        where
          gone :
              (j : K)
              → slot_of same j (drop_key same old es)
                ≡ (if same j old then none else slot_of same j es)
          gone j = slot_of-drop_key same same_eq same_refl old j es h.unique

      small : (s : ℕ) (free : List ℕ) → c.free ≡ s ∷ free → length (touched k v (pairs es)) ≤ cap
      small s free f =
          rw (find-absent same k es absent).1 (omega (arith, h.room, ap length f, length-pairs es))

      evicted-pairs :
          (old : K) (n : ℕ)
          → cap ≡ suc n
          → without same old (pairs es) ≡ take n (pairs es)
          → (k, v) ∷ pairs (drop_key same old es) ≡ take cap (touched k v (pairs es))
      evicted-pairs old n e cut =
          rw (e, (find-absent same k es absent).1)
            (ap (λ l. (k, v) ∷ l) (pairs-drop_key same old es ∙ cut))

      set_new-Repr :
          (n : ℕ)
          → cap ≡ suc n
          → (free : List ℕ) → c.free ≡ free
          → Repr cap (set_new same c free k v) (take cap (touched k v (pairs es)))
      unfolding set_new store_at evict detach
      set_new-Repr n e (s ∷ free) f = record {
        entries = record { slot = s; key = k; value = v } ∷ es;
        holds = insert-Holds same same_eq same_refl cap _ es s k v (free-Ready s free f);
        content = sym (
            take_all cap (touched k v (pairs es)) (small s free f)
            ∙ ap (λ l. (k, v) ∷ l) (find-absent same k es absent).1);
      }
      set_new-Repr n e [] f =
          let l =
            last_of same same_eq same_refl c.keys c.vals n es
              (omega (arith, h.room, e, ap length f)) h.unique h.cells in
          let first : ltb 0 c.len ≡ true = lt→ltb 0 c.len (omega (arith, h.len_is)) in
          rw (first, prev-last h.ring, l.stored)
            (record {
              entries =
                  record { slot = last_or 0 (slots es); key = k; value = v }
                  ∷ drop_key same l.key es;
              holds =
                  insert-Holds same same_eq same_refl cap _ (drop_key same l.key es)
                    (last_or 0 (slots es)) k v (evicted-Ready (last_or 0 (slots es)) l.key l.at);
              content = evicted-pairs l.key n e (l.cut n (omega (arith, h.room, e, ap length f)));
            })

    set_at-Repr :
        (n : ℕ) (o : Option ℕ) (v : V)
        → cap ≡ suc n
        → c.index k ≡ o
        → Repr cap (set_at same c o k v) (list_set cap k v (pairs es))
    unfolding set_at list_set
    set_at-Repr n none v z e = set_new-Repr (sym (h.indexed k) ∙ e) v n z c.free refl
    set_at-Repr n (some s) v z e =
        let at = sym (h.indexed k) ∙ e in
        subst (Repr cap _) (fits s n v z at)
          (found-Repr s at (put c.vals s (some v)) v (ground arith) (λ t n. ground (arith, n)))

    has_at-find : (o : Option ℕ) → c.index k ≡ o → has_at o ≡ present (find same k (pairs es))
    unfolding has_at
    has_at-find none e = rw (find-absent same k es (sym (h.indexed k) ∙ e)).0 refl
    has_at-find (some s) e = rw (find-present same k es s (sym (h.indexed k) ∙ e)).1 refl

    deleted-Holds :
        (s : ℕ)
        → slot_of same k es ≡ some s
        → Holds same same_eq same_refl cap
            (record (detach (record c { index = map_delete same c.index (some k) }) s) {
              keys = put c.keys s none;
              vals = put c.vals s none;
              free = s ∷ c.free;
              size = c.size - 1;
            })
            (drop_key same k es)
    unfolding detach occurs
    deleted-Holds s at = record {
      ring = detached same same_eq same_refl cap c es h k s at;
      cells =
          Cells-agree c.keys _ c.vals _ (drop_key same k es)
            (λ t g. ground (arith, g, not_left same same_eq same_refl cap c es h k s at t))
            (Cells-drop_key same same_eq same_refl c.keys c.vals k es h.cells);
      unique = Unique-drop_key same same_eq same_refl k es h.unique;
      indexed =
          λ j. ground (arith, h.indexed j, slot_of-drop_key same same_eq same_refl k j es h.unique);
      counted = omega (arith, h.counted, length-drop_key same k es s at);
      room = omega (arith, h.room, length-drop_key same k es s at);
      apart = λ t. ground (arith, apart_left same same_eq same_refl cap c es h k s at t);
      len_is = h.len_is;
      within = λ t g. within_left same same_eq same_refl cap c es h k s at t (omega (arith, g));
    }

    del_at-Repr :
        (o : Option ℕ)
        → c.index k ≡ o
        → ((del_at same c o k).0 ≡ (list_del k (pairs es)).0)
          × Repr cap (del_at same c o k).1 (list_del k (pairs es)).1
    unfolding del_at list_del
    del_at-Repr none e =
        let a = find-absent same k es (sym (h.indexed k) ∙ e) in
        rw (a.0, a.1) (refl, record { entries = es; holds = h; content = refl })
    del_at-Repr (some s) e =
        let at = sym (h.indexed k) ∙ e in
        rw (find-present same k es s at).1 (
          refl,
          record {
            entries = drop_key same k es;
            holds = deleted-Holds s at;
            content = pairs-drop_key same k es;
          },
        )

    pub get-Repr :
        ((get same c k).0 ≡ (list_get k (pairs es)).0)
        × Repr cap (get same c k).1 (list_get k (pairs es)).1
    unfolding get
    get-Repr = get_at-Repr (c.index k) refl

    pub write-Repr :
        (n : ℕ) (v : V) → cap ≡ suc n → Repr cap (set same c k v) (list_set cap k v (pairs es))
    unfolding set
    write-Repr n v e = set_at-Repr n (c.index k) v e refl

    pub has-find : has same c k ≡ present (find same k (pairs es))
    unfolding has
    has-find = has_at-find (c.index k) refl

    pub del-Repr :
        ((del same c k).0 ≡ (list_del k (pairs es)).0)
        × Repr cap (del same c k).1 (list_del k (pairs es)).1
    unfolding del
    del-Repr = del_at-Repr (c.index k) refl
