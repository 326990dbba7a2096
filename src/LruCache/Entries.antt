-- ===== src/LruCache/Entries.antt =====
-- The entries of the cache of src/LRUCache.ts, most recent first, each with its slot; and the
-- cache as a list of keys and values.
use vjuga.Base.{
  ℕ, zero, suc, ◌≤◌, ◌≡◌, refl, Bool, true, false, Option, none, some, List, [], ◌∷◌, arith,
  if◌then◌else◌, ap, sym, ◌∙◌, subst, inl, inr, Bool-cases, length, take,
}
use vjuga.Base.Counts.{occurs, remove}
use vjuga.LruCache.Ring.{last_or}

pub record Entry (K V : Type 0) : Type 0 where
  pub slot : ℕ
  pub key : K
  pub value : V

module _ {K V : Type 0} where
  abbrev pub slots : List (Entry K V) → List ℕ
  slots [] = []
  slots (e ∷ es) = e.slot ∷ slots es

  abbrev pub pairs : List (Entry K V) → List (K × V)
  pairs [] = []
  pairs (e ∷ es) = (e.key, e.value) ∷ pairs es

abbrev pub present {ℓ} : {V : Type ℓ} → Option V → Bool
present none = false
present (some v) = true

module _ {K V : Type 0} (same : K → K → Bool) where
  -- the value of a key
  unfoldable pub find : K → List (K × V) → Option V
  find k [] = none
  find k ((k', v) ∷ l) = let rest = find k l in if same k k' then some v else rest

  -- the list without a key
  unfoldable pub without : K → List (K × V) → List (K × V)
  without k [] = []
  without k ((k', v) ∷ l) = let rest = (k', v) ∷ without k l in if same k k' then l else rest

  unfoldable pub slot_of : K → List (Entry K V) → Option ℕ
  slot_of k [] = none
  slot_of k (e ∷ es) = let rest = slot_of k es in if same k e.key then some e.slot else rest

  unfoldable pub drop_key : K → List (Entry K V) → List (Entry K V)
  drop_key k [] = []
  drop_key k (e ∷ es) = let rest = e ∷ drop_key k es in if same k e.key then es else rest

  pub pairs-drop_key :
      (k : K) (es : List (Entry K V)) → pairs (drop_key k es) ≡ without k (pairs es)
  unfolding drop_key without
  pairs-drop_key k [] = refl
  pairs-drop_key k (e ∷ es) = ground (arith, pairs-drop_key k es)

  pub occurs-slot_of :
      (k : K) (es : List (Entry K V)) (s : ℕ) → slot_of k es ≡ some s → 1 ≤ occurs s (slots es)
  unfolding slot_of occurs
  occurs-slot_of k [] s h = absurd (ground arith)
  occurs-slot_of k (e ∷ es) s h = ground (arith, h, occurs-slot_of k es s)

  pub slots-drop_key :
      (k : K) (es : List (Entry K V)) (s : ℕ)
      → slot_of k es ≡ some s
      → ((v : ℕ) → occurs v (slots es) ≤ 1)
      → slots (drop_key k es) ≡ remove s (slots es)
  unfolding slot_of drop_key remove occurs
  slots-drop_key k [] s h d = refl
  slots-drop_key k (e ∷ es) s h d =
      ground
        (arith, h, d s, occurs-slot_of k es s, slots-drop_key k es s _ (λ v. omega (arith, d v)))

  pub length-drop_key :
      (k : K) (es : List (Entry K V)) (s : ℕ)
      → slot_of k es ≡ some s
      → suc (length (drop_key k es)) ≡ length es
  unfolding slot_of drop_key
  length-drop_key k [] s h = absurd (ground arith)
  length-drop_key k (e ∷ es) s h = ground (arith, h, length-drop_key k es s)

  pub find-present :
      (k : K) (es : List (Entry K V)) (s : ℕ)
      → slot_of k es ≡ some s
      → (v : V) × (find k (pairs es) ≡ some v)
  unfolding slot_of find
  find-present k [] s h = absurd (ground arith)
  find-present k (e ∷ es) s h = elim (Bool-cases (same k e.key)) [
    | inl b ↦ (e.value, rw b refl)
    | inr b ↦ rw b (find-present k es s (ground (arith, h, b)))
  ]

  pub find-absent :
      (k : K) (es : List (Entry K V))
      → slot_of k es ≡ none
      → (find k (pairs es) ≡ none) × (without k (pairs es) ≡ pairs es)
  unfolding slot_of find without
  find-absent k [] h = (refl, refl)
  find-absent k (e ∷ es) h = ground (arith, h, find-absent k es)

module _ {K V : Type 0} (keys : ℕ → Option K) (vals : ℕ → Option V) where
  -- the arrays hold the entries
  abbrev pub Cells : List (Entry K V) → Type 0
  Cells [] = Unit
  Cells (e ∷ es) = (keys e.slot ≡ some e.key) × (vals e.slot ≡ some e.value) × Cells es

module _ {K V : Type 0} (keys keys' : ℕ → Option K) (vals vals' : ℕ → Option V) where
  pub Cells-agree :
      (es : List (Entry K V))
      → ((t : ℕ) → 1 ≤ occurs t (slots es) → (keys' t ≡ keys t) × (vals' t ≡ vals t))
      → Cells keys vals es
      → Cells keys' vals' es
  unfolding occurs
  Cells-agree [] a c = tt
  Cells-agree (e ∷ es) a c =
      let here = a e.slot (ground arith) in
      (here.0 ∙ c.0, here.1 ∙ c.1, Cells-agree es (λ t g. a t (omega (arith, g))) c.2)

module _ {K V : Type 0} (same : K → K → Bool) (same_eq : (a b : K) → same a b ≡ true → a ≡ b)
    (same_refl : (a : K) → same a a ≡ true) where
  -- no key twice
  abbrev pub Unique : List (Entry K V) → Type 0
  Unique [] = Unit
  Unique (e ∷ es) = (slot_of same e.key es ≡ none) × Unique es

  module _ (keys : ℕ → Option K) (vals : ℕ → Option V) where
    pub Cells-find :
        (k : K) (es : List (Entry K V)) (s : ℕ)
        → slot_of same k es ≡ some s
        → Cells keys vals es
        → (find same k (pairs es) ≡ vals s) × (keys s ≡ some k)
    unfolding slot_of find
    Cells-find k [] s h c = absurd (ground arith)
    Cells-find k (e ∷ es) s h c = elim (Bool-cases (same k e.key)) [
      | inl b ↦
          let is : e.slot ≡ s = ground (arith, h, b) in
          rw b (
            sym c.1 ∙ ap vals is,
            ap keys (sym is) ∙ c.0 ∙ ap (λ j. some j) (sym (same_eq k e.key b)),
          )
      | inr b ↦ rw b (Cells-find k es s (ground (arith, h, b)) c.2)
    ]

    pub Cells-drop_key :
        (k : K) (es : List (Entry K V)) → Cells keys vals es → Cells keys vals (drop_key same k es)
    unfolding drop_key
    Cells-drop_key k [] c = tt
    Cells-drop_key k (e ∷ es) c = elim (Bool-cases (same k e.key)) [
      | inl b ↦ rw b c.2
      | inr b ↦ rw b (c.0, c.1, Cells-drop_key k es c.2)
    ]

  slot_of-same :
      (k k' : K) (es : List (Entry K V)) → same k k' ≡ true → slot_of same k es ≡ slot_of same k' es
  slot_of-same k k' es h = ap (λ j. slot_of same j es) (same_eq k k' h)

  pub slot_of-drop_key :
      (k j : K) (es : List (Entry K V))
      → Unique es
      → slot_of same j (drop_key same k es) ≡ (if same j k then none else slot_of same j es)
  unfolding slot_of drop_key
  slot_of-drop_key k j [] u = ground arith
  slot_of-drop_key k j (e ∷ es) u = ground (
    arith,
    λ (h : same k e.key ≡ true). ap (same j) (same_eq k e.key h),
    λ (h : same j e.key ≡ true). slot_of-same j e.key es h ∙ u.0,
    λ (h : same j k ≡ true). ap (λ i. same i e.key) (same_eq j k h),
    slot_of-drop_key k j es u.1,
  )

  pub Unique-drop_key : (k : K) (es : List (Entry K V)) → Unique es → Unique (drop_key same k es)
  unfolding drop_key
  Unique-drop_key k [] u = tt
  Unique-drop_key k (e ∷ es) u = elim (Bool-cases (same k e.key)) [
    | inl b ↦ rw b u.1
    | inr b ↦ rw b (ground (arith, slot_of-drop_key k e.key es u.1, u.0), Unique-drop_key k es u.1)
  ]

  -- the last entry, as the last slot, and as what is cut off a full list
  module _ (keys : ℕ → Option K) (vals : ℕ → Option V) where
    pub record Last (es : List (Entry K V)) (s : ℕ) : Type 0 where
      pub key : K
      pub stored : keys s ≡ some key
      pub at : slot_of same key es ≡ some s
      pub cut : (n : ℕ) → suc n ≡ length es → without same key (pairs es) ≡ take n (pairs es)

    cut_one : (e : Entry K V) (n : ℕ) → 0 ≡ n → [] ≡ take n (pairs (e ∷ []))
    cut_one e n h = subst (λ m. [] ≡ take m (pairs (e ∷ []))) h refl

    cut_more :
        (k : K) (e f : Entry K V) (es : List (Entry K V))
        → (same k e.key ≡ true → ⊥)
        → ((n : ℕ)
            → suc n ≡ length (f ∷ es)
            → without same k (pairs (f ∷ es)) ≡ take n (pairs (f ∷ es)))
        → (n : ℕ) → suc n ≡ length (e ∷ f ∷ es)
        → without same k (pairs (e ∷ f ∷ es)) ≡ take n (pairs (e ∷ f ∷ es))
    unfolding without
    cut_more k e f es o c zero h = absurd (omega (arith, h))
    cut_more k e f es o c (suc n) h = elim (Bool-cases (same k e.key)) [
      | inl b ↦ absurd (o b)
      | inr b ↦ rw b (ap (λ l. (e.key, e.value) ∷ l) (c n (omega (arith, h))))
    ]

    pub last :
        (e : Entry K V) (es : List (Entry K V)) (z : ℕ)
        → Unique (e ∷ es)
        → Cells keys vals (e ∷ es)
        → Last (e ∷ es) (last_or z (slots (e ∷ es)))
    unfolding slot_of without
    last e [] z u c = record {
      key = e.key;
      stored = c.0;
      at = rw (same_refl e.key) refl;
      cut = λ n h. rw (same_refl e.key) (cut_one e n (omega (arith, h)));
    }
    last e (f ∷ es) z u c =
        let l = last f es e.slot u.1 c.2 in
        let other : same l.key e.key ≡ true → ⊥ =
          λ h. absurd (ground (arith, l.at, u.0, slot_of-same l.key e.key (f ∷ es) h)) in
        record {
          key = l.key;
          stored = l.stored;
          at = ground (arith, l.at, other);
          cut = cut_more l.key e f es other l.cut;
        }

    pub last_of :
        (n : ℕ) (es : List (Entry K V))
        → length es ≡ suc n
        → Unique es
        → Cells keys vals es
        → Last es (last_or 0 (slots es))
    last_of n [] h u c = absurd (omega (arith, h))
    last_of n (e ∷ es) h u c = last e es 0 u c
