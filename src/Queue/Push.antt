-- ===== src/Queue/Push.antt =====
-- `push` and `unshift` of src/Queue.ts add an element at one end.
use vjuga.Base.{
  ℕ, suc, ◌+◌, ◌-◌, ◌%◌, ◌^◌, ◌<◌, ◌≡◌, ◌≢◌, ◌∙◌, ap, sym, subst, List, [], ◌∷◌, ◌++◌, Option, some,
  arith, length, write, ltb, ◌==◌, if◌then◌else◌, inl, inr, Bool-cases, lt-cases, length-append,
  length-write,
}
use vjuga.Base.Bits.{pow_mono}
use vjuga.Base.Modular.{wrap}
use vjuga.Queue.{Queue, push, unshift}
use vjuga.Queue.Window.{Window, push-Window, unshift-Window}
use vjuga.Queue.Repr.{Repr, Full, masked_repr}
use vjuga.Queue.Grow.{grow_list-Repr}

module _ {A : Type 0} {q : Queue A} {xs : List A} (r : Repr q xs) where
  -- with fewer than 2 ^ 30 - 1 elements there is room, or the buffer can be doubled
  spare_bits : suc (length xs) ≡ length q.list → suc (length xs) < 2 ^ 30 → r.bits < 30
  spare_bits full small = elim (lt-cases r.bits 30) [
    | inl h ↦ h
    | inr h ↦ absurd (omega (arith, pow_mono 30 r.bits h, r.capacity, small, full))
  ]

  wrap_tail : q.tail ≡ (
      if ltb (q.head + length xs) (length q.list)
      then q.head + length xs
      else q.head + length xs - length q.list)
  wrap_tail =
      r.tail_at ∙ wrap (length q.list) (q.head + length xs) (omega (arith, r.head_in, r.room))

  size-write :
      (v : Option A) (i : ℕ) → i < length q.list → length (write q.list i v) ≡ length q.list
  size-write v i h = omega (arith, length-write q.list i v)

  module _ (v : A) where
    written : List (Option A)
    written = write q.list q.tail (some v)

    tail_in : q.tail < length q.list
    tail_in = ground (arith, wrap_tail, r.head_in, r.room)

    length-written : length written ≡ length q.list
    unfolding written
    length-written = size-write (some v) q.tail tail_in

    written-Window : Window written (length written) q.head (xs ++ v ∷ [])
    unfolding written
    written-Window =
        subst (λ c. Window (write q.list q.tail (some v)) c q.head (xs ++ v ∷ []))
          (sym length-written)
          (subst (λ t. Window (write q.list t (some v)) (length q.list) q.head (xs ++ v ∷ []))
            (sym r.tail_at)
            (push-Window q.list (length q.list) q.head xs v r.head_in r.room r.window))

    size-pushed : length (xs ++ v ∷ []) ≡ suc (length xs)
    size-pushed = omega (arith, length-append xs (v ∷ []))

    next_tail : (q.tail + 1) % length q.list ≡ (q.head + length (xs ++ v ∷ [])) % length q.list
    next_tail = ground (
      arith,
      wrap_tail,
      size-pushed,
      r.head_in,
      r.room,
      wrap (length q.list) (q.tail + 1) (omega (arith, tail_in)),
      wrap (length q.list) (q.head + length (xs ++ v ∷ []))
          (omega (arith, size-pushed, r.head_in, r.room)),
    )

    -- the tail comes round to the head when the last slot is taken
    comes_round :
        ((q.tail + 1) % length q.list == q.head) ≡ (length (xs ++ v ∷ []) == length q.list)
    comes_round = ground (
      arith,
      next_tail,
      size-pushed,
      r.head_in,
      r.room,
      wrap (length q.list) (q.head + length (xs ++ v ∷ []))
          (omega (arith, size-pushed, r.head_in, r.room)),
    )

    pushed-Full :
        suc (length xs) < 2 ^ 30
        → length (xs ++ v ∷ []) ≡ length q.list
        → Full (record q { tail = (q.tail + 1) % length q.list; list = written }) (xs ++ v ∷ [])
    pushed-Full small full = record {
      bits = r.bits;
      bits_lower = r.bits_lower;
      bits_upper = spare_bits (omega (arith, full, size-pushed)) small;
      capacity = length-written ∙ r.capacity;
      mask = r.mask;
      head_in = omega (arith, length-written, r.head_in);
      whole = full ∙ sym length-written;
      tail_at = ground (arith, comes_round);
      window = written-Window;
    }

    pushed-Repr :
        length (xs ++ v ∷ []) ≢ length q.list
        → Repr (record q { tail = (q.tail + 1) % length q.list; list = written }) (xs ++ v ∷ [])
    pushed-Repr free = record {
      bits = r.bits;
      bits_lower = r.bits_lower;
      bits_upper = r.bits_upper;
      capacity = length-written ∙ r.capacity;
      mask = r.mask;
      head_in = omega (arith, length-written, r.head_in);
      room = omega (arith, length-written, size-pushed, r.room);
      tail_at = next_tail ∙ ap (λ c. (q.head + length (xs ++ v ∷ [])) % c) (sym length-written);
      window = written-Window;
    }

    -- `push` appends the element, growing the buffer when the last slot is taken.
    pub push-Repr : suc (length xs) < 2 ^ 30 → Repr (push q v) (xs ++ v ∷ [])
    unfolding push written
    push-Repr small =
        rw (masked_repr r (q.tail + 1), comes_round)
          (elim (Bool-cases (length (xs ++ v ∷ []) == length q.list)) [
            | inl full ↦ rw full (grow_list-Repr (pushed-Full small (ground arith)))
            | inr free ↦ rw free (pushed-Repr (ground arith))
          ])

    first : ℕ
    first = (q.head + length q.list - 1) % length q.list

    fronted : List (Option A)
    fronted = write q.list first (some v)

    wrap_first : first ≡ (
        if ltb (q.head + length q.list - 1) (length q.list)
        then q.head + length q.list - 1
        else q.head + length q.list - 1 - length q.list)
    unfolding first
    wrap_first = wrap (length q.list) (q.head + length q.list - 1) (omega (arith, r.head_in))

    first_in : first < length q.list
    first_in = ground (arith, wrap_first, r.head_in)

    length-fronted : length fronted ≡ length q.list
    unfolding fronted
    length-fronted = size-write (some v) first first_in

    fronted-Window : Window fronted (length fronted) first (v ∷ xs)
    unfolding fronted first
    fronted-Window =
        subst (λ c. Window (write q.list first (some v)) c first (v ∷ xs)) (sym length-fronted)
          (unshift-Window q.list (length q.list) q.head xs v r.head_in r.room r.window)

    tail_kept : q.tail ≡ (first + length (v ∷ xs)) % length q.list
    tail_kept = ground (
      arith,
      wrap_tail,
      wrap_first,
      r.head_in,
      r.room,
      wrap (length q.list) (first + suc (length xs)) (omega (arith, first_in, r.room)),
    )

    meets : (q.tail == first) ≡ (suc (length xs) == length q.list)
    meets = ground (arith, wrap_tail, wrap_first, r.head_in, r.room)

    -- `unshift` puts the element in front, growing the buffer when the last slot is taken.
    pub unshift-Repr : suc (length xs) < 2 ^ 30 → Repr (unshift q v) (v ∷ xs)
    unfolding unshift fronted first
    unshift-Repr small =
        rw (masked_repr r (q.head + length q.list - 1), meets)
          (elim (Bool-cases (suc (length xs) == length q.list)) [
            | inl full ↦ rw full (
                grow_list-Repr (record {
                  bits = r.bits;
                  bits_lower = r.bits_lower;
                  bits_upper = spare_bits (ground arith) small;
                  capacity = length-fronted ∙ r.capacity;
                  mask = r.mask;
                  head_in = omega (arith, length-fronted, first_in);
                  whole = ground (arith, length-fronted);
                  tail_at = ground (arith, meets);
                  window = fronted-Window;
                }))
            | inr free ↦ rw free (record {
              bits = r.bits;
              bits_lower = r.bits_lower;
              bits_upper = r.bits_upper;
              capacity = length-fronted ∙ r.capacity;
              mask = r.mask;
              head_in = omega (arith, length-fronted, first_in);
              room = ground (arith, length-fronted, r.room);
              tail_at = tail_kept ∙ ap (λ c. (first + length (v ∷ xs)) % c) (sym length-fronted);
              window = fronted-Window;
            })
          ])
