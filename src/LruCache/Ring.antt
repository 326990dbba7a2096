-- ===== src/LruCache/Ring.antt =====
-- The doubly linked ring of src/LRUCache.ts: the sentinel and the slots of a list, in order.
use vjuga.Base.{
  ℕ, ◌+◌, ◌≤◌, ◌≡◌, List, [], ◌∷◌, ◌==◌, arith, if◌then◌else◌, ap, sym, ◌∙◌, subst, ◌⊎◌, inl, inr,
  eq-cases,
}
use vjuga.Base.Counts.{occurs, remove, occurs-remove}
use vjuga.Base.Stores.{put}

abbrev head_or : ℕ → List ℕ → ℕ
head_or b [] = b
head_or b (x ∷ xs) = x

abbrev pub last_or : ℕ → List ℕ → ℕ
last_or b [] = b
last_or b (x ∷ xs) = last_or x xs

-- the slot after `u` in a list that ends with `b`
unfoldable pub following : ℕ → List ℕ → ℕ → ℕ
following b [] u = b
following b (x ∷ xs) u = let rest = following b xs u in if u == x then head_or b xs else rest

-- `next` runs through the list and comes back to 0, and `prev` undoes it
pub record IsRing (next prev : ℕ → ℕ) (xs : List ℕ) : Type 0 where
  pub forth : (u : ℕ) → 1 ≤ occurs u (0 ∷ xs) → next u ≡ following 0 (0 ∷ xs) u
  pub back : (u : ℕ) → 1 ≤ occurs u (0 ∷ xs) → prev (next u) ≡ u
  pub once : (u : ℕ) → occurs u (0 ∷ xs) ≤ 1

following-in :
    (b : ℕ) (xs : List ℕ) (u : ℕ)
    → 1 ≤ occurs (following b xs u) xs + (if following b xs u == b then 1 else 0)
unfolding following occurs
following-in b [] u = ground arith
following-in b (x ∷ []) u = ground arith
following-in b (x ∷ y ∷ xs) u = ground (arith, following-in b (y ∷ xs) u)

head-remove :
    (b x : ℕ) (xs : List ℕ)
    → ((v : ℕ) → occurs v xs ≤ 1)
    → (b ≡ x → ⊥)
    → head_or b (remove x xs) ≡ (if head_or b xs == x then following b xs x else head_or b xs)
unfolding following remove occurs
head-remove b x [] d n = ground arith
head-remove b x (y ∷ xs) d n = ground arith

-- what comes after `u` once the slot `x` is taken out
following-remove :
    (b x : ℕ) (xs : List ℕ) (u : ℕ)
    → ((v : ℕ) → occurs v xs ≤ 1)
    → (b ≡ x → ⊥)
    → (u ≡ x → ⊥)
    → following b (remove x xs) u
      ≡ (if following b xs u == x then following b xs x else following b xs u)
unfolding following remove occurs
following-remove b x [] u d c n = ground arith
following-remove b x (y ∷ xs) u d c n =
    let tail : (v : ℕ) → occurs v xs ≤ 1 = λ v. omega (arith, d v) in
    ground (
      arith,
      d x,
      following-in b xs u,
      following-remove b x xs u tail c n,
      head-remove b x xs tail c,
    )

-- a slot of the list comes after some slot
record Preceded (b x z : ℕ) (xs : List ℕ) : Type 0 where
  pub before : ℕ
  pub in_list : 1 ≤ occurs before (z ∷ xs)
  pub leads : following b (z ∷ xs) before ≡ x

preceded :
    (b x z : ℕ) (xs : List ℕ)
    → ((v : ℕ) → occurs v (z ∷ xs) ≤ 1)
    → 1 ≤ occurs x xs
    → Preceded b x z xs
unfolding following occurs
preceded b x z [] d h = absurd (omega arith)
preceded b x z (y ∷ xs) d h = elim (eq-cases x y) [
  | inl e ↦ record { before = z; in_list = ground arith; leads = ground arith }
  | inr n ↦
      let p = preceded b x y xs (λ v. omega (arith, d v)) (ground arith) in
      record {
        before = p.before;
        in_list = ground (arith, p.in_list);
        leads = ground (arith, p.in_list, p.leads, d p.before);
      }
]

last-follows :
    (b z : ℕ) (xs : List ℕ)
    → ((v : ℕ) → occurs v (z ∷ xs) ≤ 1)
    → (1 ≤ occurs (last_or z xs) (z ∷ xs)) × (following b (z ∷ xs) (last_or z xs) ≡ b)
unfolding occurs following
last-follows b z [] d = ground arith
last-follows b z (x ∷ xs) d =
    let rest = last-follows b x xs (λ v. omega (arith, d v)) in
    ground (arith, rest, d (last_or x xs))

module _ {next prev : ℕ → ℕ} {xs : List ℕ} (r : IsRing next prev xs) where
  -- `prev` of a slot leads to the slot
  pub prev-next : (x : ℕ) → 1 ≤ occurs x xs → (next (prev x) ≡ x) × (1 ≤ occurs (prev x) (0 ∷ xs))
  prev-next x h =
      let p = preceded 0 x 0 xs r.once h in
      let to : next p.before ≡ x = r.forth p.before p.in_list ∙ p.leads in
      let is : prev x ≡ p.before = ap prev (sym to) ∙ r.back p.before p.in_list in
      rw is (to, p.in_list)

  module _ (x : ℕ) (h : 1 ≤ occurs x xs) where
    not_zero : x ≡ 0 → ⊥
    unfolding occurs
    not_zero e = ground (arith, r.once x)

    other : (u : ℕ) → 1 ≤ occurs u (0 ∷ remove x xs) → (1 ≤ occurs u (0 ∷ xs)) × (u ≡ x → ⊥)
    unfolding occurs
    other u g = ground (arith, occurs-remove x u xs h, r.once u, not_zero)

    in_ring : 1 ≤ occurs x (0 ∷ xs)
    unfolding occurs
    in_ring = omega (arith, h)

    module _ (u : ℕ) (o : (1 ≤ occurs u (0 ∷ xs)) × (u ≡ x → ⊥)) where
      before_iff : (next u ≡ x → u ≡ prev x) × (u ≡ prev x → next u ≡ x)
      before_iff = (λ e. sym (r.back u o.0) ∙ ap prev e, λ e. ap next e ∙ (prev-next x h).0)

      not_after : next u ≡ next x → ⊥
      not_after e = o.1 (sym (r.back u o.0) ∙ ap prev e ∙ r.back x in_ring)

      detach-forth : put next (prev x) (next x) u ≡ following 0 (0 ∷ remove x xs) u
      unfolding remove
      detach-forth = ground (
        arith,
        not_zero,
        o,
        before_iff,
        r.forth u,
        r.forth x,
        in_ring,
        following-remove 0 x (0 ∷ xs) u r.once (λ e. not_zero (sym e)) o.1,
      )

      detach-back : put prev (next x) (prev x) (put next (prev x) (next x) u) ≡ u
      detach-back = ground (arith, before_iff, not_after, r.back u o.0)

    pub detach-IsRing :
        IsRing (put next (prev x) (next x)) (put prev (next x) (prev x)) (remove x xs)
    unfolding occurs
    detach-IsRing = record {
      forth = λ u g. detach-forth u (other u g);
      back = λ u g. detach-back u (other u g);
      once = λ u. ground (arith, r.once u, occurs-remove x u xs h);
    }

  -- the slot before the sentinel is the last of the list
  pub prev-last : prev 0 ≡ last_or 0 xs
  prev-last =
      let l = last-follows 0 0 xs r.once in
      ap prev (sym (r.forth (last_or 0 xs) l.0 ∙ l.1)) ∙ r.back (last_or 0 xs) l.0

  pub next-in : (u : ℕ) → 1 ≤ occurs u (0 ∷ xs) → 1 ≤ occurs (next u) (0 ∷ xs)
  unfolding occurs
  next-in u g =
      subst (λ k. 1 ≤ occurs k (0 ∷ xs)) (sym (r.forth u g))
        (ground (arith, following-in 0 (0 ∷ xs) u))

  module _ (x : ℕ) (h : occurs x (0 ∷ xs) ≡ 0) where
    not_next : (u : ℕ) → 1 ≤ occurs u (0 ∷ xs) → next u ≡ x → ⊥
    not_next u g e = absurd (omega (arith, h, subst (λ k. 1 ≤ occurs k (0 ∷ xs)) e (next-in u g)))

    zero-in : 1 ≤ occurs 0 (0 ∷ xs)
    unfolding occurs
    zero-in = ground arith

    insert-back :
        (u : ℕ)
        → (u ≡ x) ⊎ (1 ≤ occurs u (0 ∷ xs))
        → put (put prev x 0) (next 0) x (put (put next 0 x) x (next 0) u) ≡ u
    insert-back u (inl e) = ground (arith, e)
    insert-back u (inr g) =
        let one : next u ≡ next 0 → u ≡ 0 = λ e. sym (r.back u g) ∙ ap prev e ∙ r.back 0 zero-in in
        ground (arith, not_next u g, not_next 0 zero-in, one, r.back u g, x_not)
      where
        x_not : u ≡ x → ⊥
        x_not e = absurd (omega (arith, h, subst (λ k. 1 ≤ occurs k (0 ∷ xs)) e g))

    pub insert-IsRing :
        IsRing (put (put next 0 x) x (next 0)) (put (put prev x 0) (next 0) x) (x ∷ xs)
    unfolding occurs following
    insert-IsRing = record {
      forth = λ u g. ground (arith, h, r.forth u, r.forth 0);
      back = λ u g. insert-back u (ground (arith, g, eq-cases u x));
      once = λ u. ground (arith, r.once u, h);
    }
