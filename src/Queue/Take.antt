-- ===== src/Queue/Take.antt =====
-- `pop`, `shift` and the two peeks of src/Queue.ts read or take an element at one end.
use vjuga.Base.{
  ℕ, suc, ◌+◌, ◌-◌, ◌%◌, ◌<◌, ◌≡◌, ◌∙◌, ap, sym, subst, List, [], ◌∷◌, ◌++◌, Option, none, some,
  arith, length, read, write, ltb, ◌==◌, if◌then◌else◌, Bool, true, false, length-append,
  length-write,
}
use vjuga.Base.Modular.{wrap}
use vjuga.Queue.{Queue, pop, shift, peek_front, peek_back, try_to_shrink_list, max_kept}
use vjuga.Queue.Window.{Window, pop-Window, shift-Window, Window-last}
use vjuga.Queue.Repr.{Repr, masked_repr}
use vjuga.Queue.Shrink.{try_to_shrink_list-Repr}

-- the shrinking branch of `pop` and `shift`
shrink_if-Repr :
    {A : Type 0} {q : Queue A} {xs : List A} (b : Bool)
    → Repr q xs
    → Repr (if b then try_to_shrink_list q else q) xs
shrink_if-Repr true r = try_to_shrink_list-Repr r
shrink_if-Repr false r = r

module _ {A : Type 0} {q : Queue A} (r : Repr q []) where
  is_empty : (q.tail == q.head) ≡ true
  is_empty =
      ground
        (arith, r.tail_at, r.head_in, wrap (length q.list) (q.head + 0) (omega (arith, r.head_in)))

  -- On an empty queue `pop`, `shift` and the peeks return `undefined`, and change nothing.
  pub take-empty :
      (pop q ≡ (none, q)) × (shift q ≡ (none, q)) × (peek_front q ≡ none) × (peek_back q ≡ none)
  unfolding pop shift peek_front peek_back
  take-empty = (rw is_empty, rw is_empty, rw is_empty, rw is_empty)

module _ {A : Type 0} {q : Queue A} (v : A) (xs : List A) (r : Repr q (v ∷ xs)) where
  wrap_tail : q.tail ≡ (
      if ltb (q.head + suc (length xs)) (length q.list)
      then q.head + suc (length xs)
      else q.head + suc (length xs) - length q.list)
  wrap_tail =
      r.tail_at ∙ wrap (length q.list) (q.head + suc (length xs)) (omega (arith, r.head_in, r.room))

  not_empty : (q.tail == q.head) ≡ false
  not_empty = ground (arith, wrap_tail, r.head_in, r.room)

  at_head : read q.list q.head ≡ some v
  at_head = subst (λ i. read q.list i ≡ some v) start (r.window 0 (omega (arith, r.room)))
    where
      start : (q.head + 0) % length q.list ≡ q.head
      start =
          ground (arith, r.head_in, wrap (length q.list) (q.head + 0) (omega (arith, r.head_in)))

  -- `peekFront` returns the front element.
  pub peek_front_lem : peek_front q ≡ some v
  unfolding peek_front
  peek_front_lem = rw not_empty at_head

  cleared : List (Option A)
  cleared = write q.list q.head none

  length-cleared : length cleared ≡ length q.list
  unfolding cleared
  length-cleared = omega (arith, length-write q.list q.head none, r.head_in)

  next : ℕ
  next = (q.head + 1) % length q.list

  wrap_next :
      next ≡ (if ltb (q.head + 1) (length q.list) then q.head + 1 else q.head + 1 - length q.list)
  unfolding next
  wrap_next = wrap (length q.list) (q.head + 1) (omega (arith, r.head_in, r.room))

  shifted-Repr : Repr (record q { list = cleared; head = next }) xs
  shifted-Repr = record {
    bits = r.bits;
    bits_lower = r.bits_lower;
    bits_upper = r.bits_upper;
    capacity = length-cleared ∙ r.capacity;
    mask = r.mask;
    head_in = ground (arith, length-cleared, wrap_next, r.head_in, r.room);
    room = omega (arith, length-cleared, r.room);
    tail_at = ground (
      arith,
      length-cleared,
      wrap_tail,
      wrap_next,
      r.head_in,
      r.room,
      wrap (length cleared) (next + length xs)
          (ground (arith, length-cleared, wrap_next, r.head_in, r.room)),
    );
    window =
        subst (λ c. Window cleared c next xs) (sym length-cleared)
          (unfold cleared next in
            shift-Window q.list (length q.list) q.head xs v r.head_in r.room r.window);
  }

  -- `shift` returns the front element and removes it.
  pub shift-Repr : ((shift q).0 ≡ some v) × Repr (shift q).1 xs
  unfolding shift cleared next
  shift-Repr =
      rw (masked_repr r (q.head + 1), not_empty)
        (at_head, shrink_if-Repr (ltb max_kept (length q.list)) shifted-Repr)

module _ {A : Type 0} {q : Queue A} (xs : List A) (v : A) (r : Repr q (xs ++ v ∷ [])) where
  size-before : length (xs ++ v ∷ []) ≡ suc (length xs)
  size-before = omega (arith, length-append xs (v ∷ []))

  last : ℕ
  last = (q.head + length xs) % length q.list

  wrap_last : last ≡ (
      if ltb (q.head + length xs) (length q.list)
      then q.head + length xs
      else q.head + length xs - length q.list)
  unfolding last
  wrap_last =
      wrap (length q.list) (q.head + length xs) (omega (arith, r.head_in, r.room, size-before))

  last_in : last < length q.list
  last_in = ground (arith, wrap_last, r.head_in, r.room, size-before)

  tail_after : q.tail ≡ (
      if ltb (q.head + suc (length xs)) (length q.list)
      then q.head + suc (length xs)
      else q.head + suc (length xs) - length q.list)
  tail_after =
      r.tail_at
      ∙ (ap (λ n. (q.head + n) % length q.list) size-before
          ∙ wrap (length q.list) (q.head + suc (length xs))
              (omega (arith, r.head_in, r.room, size-before)))

  not_empty_back : (q.tail == q.head) ≡ false
  not_empty_back = ground (arith, tail_after, r.head_in, r.room, size-before)

  back_index : (q.tail + length q.list - 1) % length q.list ≡ last
  back_index = ground (
    arith,
    tail_after,
    wrap_last,
    r.head_in,
    r.room,
    size-before,
    wrap (length q.list) (q.tail + length q.list - 1)
        (ground (arith, tail_after, r.head_in, r.room, size-before)),
  )

  at_last : read q.list last ≡ some v
  unfolding last
  at_last =
      Window-last q.list (length q.list) q.head xs v (omega (arith, r.room, size-before)) r.window

  -- `peekBack` returns the back element.
  pub peek_back_lem : peek_back q ≡ some v
  unfolding peek_back
  peek_back_lem =
      rw (masked_repr r (q.tail + length q.list - 1), back_index, not_empty_back) at_last

  trimmed : List (Option A)
  trimmed = write q.list last none

  length-trimmed : length trimmed ≡ length q.list
  unfolding trimmed
  length-trimmed = omega (arith, length-write q.list last none, last_in)

  popped-Repr : Repr (record q { tail = last; list = trimmed }) xs
  unfolding last
  popped-Repr = record {
    bits = r.bits;
    bits_lower = r.bits_lower;
    bits_upper = r.bits_upper;
    capacity = length-trimmed ∙ r.capacity;
    mask = r.mask;
    head_in = omega (arith, length-trimmed, r.head_in);
    room = omega (arith, length-trimmed, r.room, size-before);
    tail_at = ap (λ c. (q.head + length xs) % c) (sym length-trimmed);
    window =
        subst (λ c. Window trimmed c q.head xs) (sym length-trimmed)
          (unfold trimmed in
            pop-Window q.list (length q.list) q.head xs v r.head_in
              (omega (arith, r.room, size-before)) r.window);
  }

  -- `pop` returns the back element and removes it.
  pub pop-Repr : ((pop q).0 ≡ some v) × Repr (pop q).1 xs
  unfolding pop trimmed
  pop-Repr =
      rw (masked_repr r (q.tail + length q.list - 1), back_index, not_empty_back)
        (at_last, shrink_if-Repr (ltb max_kept (length q.list)) popped-Repr)
