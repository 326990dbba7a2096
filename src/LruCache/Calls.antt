-- ===== src/LruCache/Calls.antt =====
-- Sequences of calls of src/LRUCache.ts, on the cache and on a list of keys and values.
use mathlib.Core.Option.{some_inj}
use vjuga.Base.{
  ℕ, zero, suc, ◌+◌, ◌≡◌, refl, Bool, true, Option, some, List, [], ◌∷◌, ◌==◌, arith, if◌then◌else◌,
  ap, ap₂, sym, ◌∙◌, subst, length, ltb, ltb→ge, none, not, ◌||◌, ◌-◌, ◌≤◌, Bool-cases, inl, inr,
}
use vjuga.Base.Counts.{occurs}
use vjuga.LruCache.{LruCache, make, new_cache, is_int32, slots_to, get, set, has, del}
use vjuga.LruCache.Ring.{following}
use vjuga.LruCache.Entries.{slot_of, present, find}
use vjuga.LruCache.Refine.{
  Repr, list_get, list_set, list_del, get-Repr, write-Repr, has-find, del-Repr, length-pairs,
}

pub data Call (K V : Type 0) : Type 0 where
  get_call : K → Call K V
  set_call : K → V → Call K V
  has_call : K → Call K V
  del_call : K → Call K V
  size_call : Call K V

pub data Answer (V : Type 0) : Type 0 where
  value : Option V → Answer V
  done : Answer V
  yes_no : Bool → Answer V
  number : ℕ → Answer V

length-slots_to : (n : ℕ) → length (slots_to n) ≡ n
unfolding slots_to
length-slots_to zero = refl
length-slots_to (suc n) = ap suc (length-slots_to n)

occurs-slots_to :
    (n s : ℕ) → occurs s (slots_to n) + (if ltb n s then 1 else 0) + (if s == 0 then 1 else 0) ≡ 1
unfolding slots_to occurs
occurs-slots_to zero s = ground arith
occurs-slots_to (suc n) s = ground (arith, occurs-slots_to n s)

module _ {K V : Type 0} (same : K → K → Bool) (same_eq : (a b : K) → same a b ≡ true → a ≡ b)
    (same_refl : (a : K) → same a a ≡ true) where
  unfoldable pub call : LruCache K V → Call K V → Answer V × LruCache K V
  call c (get_call k) = (value (get same c k).0, (get same c k).1)
  call c (set_call k v) = (done, set same c k v)
  call c (has_call k) = (yes_no (has same c k), c)
  call c (del_call k) = (yes_no (del same c k).0, (del same c k).1)
  call c size_call = (number c.size, c)

  unfoldable pub run : LruCache K V → List (Call K V) → List (Answer V)
  run c [] = []
  run c (k ∷ calls) = (call c k).0 ∷ run (call c k).1 calls

  -- the same calls on a list of at most `cap` pairs, most recently used first
  unfoldable pub list_call : ℕ → List (K × V) → Call K V → Answer V × List (K × V)
  list_call cap l (get_call k) =
      (value (list_get same same_eq same_refl k l).0, (list_get same same_eq same_refl k l).1)
  list_call cap l (set_call k v) = (done, list_set same same_eq same_refl cap k v l)
  list_call cap l (has_call k) = (yes_no (present (find same k l)), l)
  list_call cap l (del_call k) =
      (yes_no (list_del same same_eq same_refl k l).0, (list_del same same_eq same_refl k l).1)
  list_call cap l size_call = (number (length l), l)

  unfoldable pub list_run : ℕ → List (K × V) → List (Call K V) → List (Answer V)
  list_run cap l [] = []
  list_run cap l (k ∷ calls) = (list_call cap l k).0 ∷ list_run cap (list_call cap l k).1 calls

  call-Repr :
      (n cap : ℕ) (c : LruCache K V) (l : List (K × V)) (k : Call K V)
      → cap ≡ suc n
      → Repr same same_eq same_refl cap c l
      → ((call c k).0 ≡ (list_call cap l k).0)
        × Repr same same_eq same_refl cap (call c k).1 (list_call cap l k).1
  unfolding call list_call
  call-Repr n cap c l (get_call k) e r =
      subst
        (λ m.
          ((call c (get_call k)).0 ≡ (list_call cap m (get_call k)).0)
          × Repr same same_eq same_refl cap (call c (get_call k)).1
              (list_call cap m (get_call k)).1)
        r.content
        (let g = get-Repr same same_eq same_refl cap c r.entries r.holds k in (ap value g.0, g.1))
  call-Repr n cap c l (set_call k v) e r = (
    refl,
    subst
        (λ m.
          Repr same same_eq same_refl cap (set same c k v)
            (list_set same same_eq same_refl cap k v m))
        r.content (write-Repr same same_eq same_refl cap c r.entries r.holds k n v e),
  )
  call-Repr n cap c l (has_call k) e r = (
    ap yes_no (
        has-find same same_eq same_refl cap c r.entries r.holds k
        ∙ ap (λ m. present (find same k m)) r.content),
    r,
  )
  call-Repr n cap c l (del_call k) e r =
      subst
        (λ m.
          ((call c (del_call k)).0 ≡ (list_call cap m (del_call k)).0)
          × Repr same same_eq same_refl cap (call c (del_call k)).1
              (list_call cap m (del_call k)).1)
        r.content
        (let g = del-Repr same same_eq same_refl cap c r.entries r.holds k in (ap yes_no g.0, g.1))
  call-Repr n cap c l size_call e r = (
    ap number (
        r.holds.counted
        ∙ sym (length-pairs same same_eq same_refl r.entries)
        ∙ ap (λ m. length m) r.content),
    r,
  )

  run-Repr :
      (n cap : ℕ) (calls : List (Call K V)) (c : LruCache K V) (l : List (K × V))
      → cap ≡ suc n
      → Repr same same_eq same_refl cap c l
      → run c calls ≡ list_run cap l calls
  unfolding run list_run
  run-Repr n cap [] c l e r = refl
  run-Repr n cap (k ∷ calls) c l e r =
      let step = call-Repr n cap c l k e r in
      ap₂ (λ (a : Answer V) (b : List (Answer V)). a ∷ b) step.0 (run-Repr n cap calls _ _ e step.1)

  -- a new cache is empty
  new_cache-Repr : (cap : ℕ) → Repr {V = V} same same_eq same_refl cap (new_cache cap) []
  unfolding new_cache occurs following slot_of
  new_cache-Repr cap = record {
    entries = [];
    holds = record {
      ring = record {
        forth = λ u g. ground arith;
        back = λ u g. ground (arith, g);
        once = λ u. ground arith;
      };
      cells = tt;
      unique = tt;
      indexed = λ k. refl;
      counted = refl;
      room = omega (arith, length-slots_to cap);
      apart = λ s. ground (arith, occurs-slots_to cap s);
      len_is = omega arith;
      within = λ s g. ground (arith, g, occurs-slots_to cap s);
    };
    content = refl;
  }

  make-new_cache :
      (cap : ℕ) (c : LruCache K V) → make cap ≡ some c → (1 ≤ cap) × (new_cache cap ≡ c)
  unfolding make
  make-new_cache cap c e = elim (Bool-cases (ltb cap 1 || not (is_int32 cap))) [
    | inl refused ↦ absurd (made_none (subst (λ b. check b ≡ some c) refused e))
    | inr accepted ↦ (
      ltb→ge cap 1 (ground (arith, accepted)),
      some_inj.0 (subst (λ b. check b ≡ some c) accepted e),
    )
  ]
    where
      check : Bool → Option (LruCache K V)
      check b = if b then none else some (new_cache cap)

      made_none : none ≡ some c → ⊥
      made_none q = cc

  -- Any sequence of calls on a new cache answers as it does on a list of the pairs, most recently
  -- used first, that is cut to the capacity at each `set`.
  pub calls_refine :
      (cap : ℕ) (c : LruCache K V) (calls : List (Call K V))
      → make cap ≡ some c
      → run c calls ≡ list_run cap [] calls
  calls_refine cap c calls e =
      let m = make-new_cache cap c e in
      let one : cap ≡ suc (cap - 1) = omega (arith, m.0) in
      run-Repr (cap - 1) cap calls c [] one
        (subst (λ d. Repr same same_eq same_refl cap d []) m.1 (new_cache-Repr cap))
