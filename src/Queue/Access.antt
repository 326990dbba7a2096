-- ===== src/Queue/Access.antt =====
-- Indexed access to a queue of src/Queue.ts: `get`, `set` and `swap` by logical index.
use Prim.Native.Nat.{bit_and}
use vjuga.Base.{
  ℕ, zero, suc, ◌+◌, ◌-◌, ◌%◌, ◌^◌, ◌<◌, ◌≡◌, refl, ◌∙◌, ap, sym, subst, List, [], ◌∷◌, ◌++◌,
  Option, none, some, arith, length, get_elem?, read, write, ltb, ◌==◌, if◌then◌else◌, inl, inr,
  lt-cases, length-append, length-write, read-write, ap₂, get_elem?-none,
}
use vjuga.Base.Modular.{wrap}
use mathlib.Core.List.{append-nil, append_assoc}
use vjuga.Queue.{Queue, get, set, swap, push_all, make, fresh}
use vjuga.Queue.Window.{Window}
use vjuga.Queue.Repr.{Repr, masked_repr}
use vjuga.Queue.Push.{push-Repr}

-- the list with the element at an index replaced; out of range nothing changes
abbrev pub replace {ℓ} : {A : Type ℓ} → List A → ℕ → A → List A
replace [] i v = []
replace (x ∷ xs) zero v = v ∷ xs
replace (x ∷ xs) (suc i) v = x ∷ replace xs i v

module _ {A : Type 0} where
  pub length-replace : (xs : List A) (i : ℕ) (v : A) → length (replace xs i v) ≡ length xs
  length-replace [] i v = refl
  length-replace (x ∷ xs) zero v = refl
  length-replace (x ∷ xs) (suc i) v = ap suc (length-replace xs i v)

  pub get_elem?-replace :
      (xs : List A) (i : ℕ) (v : A) (j : ℕ)
      → i < length xs
      → get_elem? (replace xs i v) j ≡ (if i == j then some v else get_elem? xs j)
  get_elem?-replace [] i v j h = absurd (omega arith)
  get_elem?-replace (x ∷ xs) zero v zero h = refl
  get_elem?-replace (x ∷ xs) zero v (suc j) h = ground arith
  get_elem?-replace (x ∷ xs) (suc i) v zero h = ground arith
  get_elem?-replace (x ∷ xs) (suc i) v (suc j) h = ground (arith, get_elem?-replace xs i v j)

module _ {A : Type 0} {q : Queue A} {xs : List A} (r : Repr q xs) where
  -- `get` reads the element at a logical index.
  pub get_lem : (i : ℕ) → i < length xs → get q i ≡ get_elem? xs i
  unfolding get
  get_lem i h = rw (masked_repr r (q.head + i)) (r.window i (omega (arith, r.room)))

  -- a write at the slot of a logical index
  written-Repr :
      (i : ℕ) (v : A)
      → i < length xs
      → Repr
          (record q { list = write q.list ((q.head + i) % length q.list) (some v) })
          (replace xs i v)
  written-Repr i v h = record {
    bits = r.bits;
    bits_lower = r.bits_lower;
    bits_upper = r.bits_upper;
    capacity = size ∙ r.capacity;
    mask = r.mask;
    head_in = omega (arith, size, r.head_in);
    room = omega (arith, size, r.room, length-replace xs i v);
    tail_at = r.tail_at ∙ ap₂ (λ n c. (q.head + n) % c) (sym (length-replace xs i v)) (sym size);
    window = subst (λ c. Window list c q.head (replace xs i v)) (sym size) shown;
  }
    where
      list : List (Option A)
      list = write q.list ((q.head + i) % length q.list) (some v)

      at :
          (q.head + i) % length q.list
          ≡ (if ltb (q.head + i) (length q.list) then q.head + i else q.head + i - length q.list)
      at = wrap (length q.list) (q.head + i) (omega (arith, r.head_in, r.room))

      size : length list ≡ length q.list
      size = ground (
        arith,
        length-write q.list ((q.head + i) % length q.list) (some v),
        at,
        r.head_in,
        r.room,
      )

      shown : Window list (length q.list) q.head (replace xs i v)
      shown j hj = ground (
        arith,
        at,
        r.window j hj,
        r.head_in,
        r.room,
        wrap (length q.list) (q.head + j) (omega (arith, r.head_in)),
        read-write q.list ((q.head + i) % length q.list) (some v) ((q.head + j) % length q.list),
        get_elem?-replace xs i v j h,
      )

  -- `set` replaces the element at a logical index.
  pub set-Repr : (i : ℕ) (v : A) → i < length xs → Repr (set q i v) (replace xs i v)
  unfolding set
  set-Repr i v h = rw (masked_repr r (q.head + i)) (written-Repr i v h)

module _ {A : Type 0} {q : Queue A} {xs : List A} (r : Repr q xs) where
  -- `swap` exchanges the elements at two logical indices.
  pub swap-Repr :
      (i j : ℕ) (v w : A)
      → get_elem? xs i ≡ some v
      → get_elem? xs j ≡ some w
      → Repr (swap q i j) (replace (replace xs i w) j v)
  unfolding swap set
  swap-Repr i j v w hv hw =
      rw (at_j, at_i)
        (set-Repr (set-Repr r i w (inside i v hv)) j v
          (omega (arith, inside j w hw, length-replace xs i w)))
    where
      inside : (k : ℕ) (u : A) → get_elem? xs k ≡ some u → k < length xs
      inside k u e = elim (lt-cases k (length xs)) [
        | inl h ↦ h
        | inr h ↦ cc (get_elem?-none xs k h)
      ]

      at_i : read q.list (bit_and (q.head + i) q.capacity_mask) ≡ some v
      at_i = unfold get in (get_lem r i (inside i v hv) ∙ hv)

      at_j : read q.list (bit_and (q.head + j) q.capacity_mask) ≡ some w
      at_j = unfold get in (get_lem r j (inside j w hw) ∙ hw)

push_all-Repr :
    {A : Type 0} (items : List A) {q : Queue A} (xs : List A)
    → Repr q xs
    → length xs + length items < 2 ^ 30
    → Repr (push_all q items) (xs ++ items)
unfolding push_all
push_all-Repr [] {q} xs r h = rw append-nil r
push_all-Repr (x ∷ items) {q} xs r h = rw (append_assoc xs (x ∷ []) items) at (
    push_all-Repr items (xs ++ x ∷ []) (push-Repr r x (omega arith))
      (omega (arith, length-append xs (x ∷ []))))

pub fresh-Repr : {A : Type 0} → Repr {A = A} fresh []
fresh-Repr = record {
  bits = 2;
  bits_lower = omega arith;
  bits_upper = omega arith;
  capacity = refl;
  mask = refl;
  head_in = omega arith;
  room = omega arith;
  tail_at = refl;
  window = λ i hi. at_none i;
}
  where
    at_none :
        {A : Type 0} (i : ℕ) → read {A = A} (none ∷ none ∷ none ∷ none ∷ []) ((0 + i) % 4) ≡ none
    at_none {A} i = blank ((0 + i) % 4)
      where
        blank : (k : ℕ) → read {A = A} (none ∷ none ∷ none ∷ none ∷ []) k ≡ none
        blank zero = refl
        blank (suc zero) = refl
        blank (suc (suc zero)) = refl
        blank (suc (suc (suc zero))) = refl
        blank (suc (suc (suc (suc k)))) = refl

-- `make` holds the given items, in their order.
pub make-Repr : {A : Type 0} (items : List A) → length items < 2 ^ 30 → Repr (make items) items
unfolding make
make-Repr items h = push_all-Repr items [] fresh-Repr (omega arith)
