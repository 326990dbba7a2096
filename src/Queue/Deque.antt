-- ===== src/Queue/Deque.antt =====
-- What a client of src/Queue.ts may rely on: a double-ended queue is a list, and no sequence of
-- calls tells the circular buffer from it.
use mathlib.Core.List.{map}
use vjuga.Base.{
  ℕ, suc, ◌+◌, ◌^◌, ◌≤◌, ◌<◌, ◌≡◌, refl, ◌∙◌, ap, ap₂, sym, subst, List, [], ◌∷◌, ◌++◌, Option,
  none, some, arith, length, length-append,
}
use vjuga.Queue
use vjuga.Queue.{Queue}
use vjuga.Queue.Repr.{Repr, size_lem}
use vjuga.Queue.Push.{push-Repr, unshift-Repr}
use vjuga.Queue.Take.{take-empty, pop-Repr, shift-Repr, peek_front_lem, peek_back_lem}
use vjuga.Queue.Bulk.{to_array_lem}
use vjuga.Queue.Dump.{dump_to_array-Repr}

-- the calls of a client, and what each returns
pub data Op (A : Type 0) : Type 0 where
  push : A → Op A
  unshift : A → Op A
  pop : Op A
  shift : Op A
  peek_front : Op A
  peek_back : Op A
  size : Op A
  to_array : Op A
  dump_to_array : Op A

pub data Reply (A : Type 0) : Type 0 where
  done : Reply A
  value : Option A → Reply A
  number : ℕ → Reply A
  values : List (Option A) → Reply A

module _ {A : Type 0} where
  -- a call on the circular buffer
  unfoldable pub step : Queue A → Op A → Reply A × Queue A
  step q (push v) = (done, Queue.push q v)
  step q (unshift v) = (done, Queue.unshift q v)
  step q pop = let (v, q') = Queue.pop q in (value v, q')
  step q shift = let (v, q') = Queue.shift q in (value v, q')
  step q peek_front = (value (Queue.peek_front q), q)
  step q peek_back = (value (Queue.peek_back q), q)
  step q size = (number (Queue.size q), q)
  step q to_array = (values (Queue.to_array q), q)
  step q dump_to_array = let (vs, q') = Queue.dump_to_array q in (values vs, q')

  unfoldable pub run : Queue A → List (Op A) → List (Reply A)
  run q [] = []
  run q (op ∷ ops) = let (reply, q') = step q op in reply ∷ run q' ops

  -- the last element and those before it
  pub back : List A → Option A
  back [] = none
  back (x ∷ []) = some x
  back (x ∷ y ∷ xs) = back (y ∷ xs)

  pub front : List A → List A
  front [] = []
  front (x ∷ []) = []
  front (x ∷ y ∷ xs) = x ∷ front (y ∷ xs)

  pub first : List A → Option A
  first [] = none
  first (x ∷ xs) = some x

  pub rest : List A → List A
  rest [] = []
  rest (x ∷ xs) = xs

  -- a call on the list
  pub list_step : List A → Op A → Reply A × List A
  list_step xs (push v) = (done, xs ++ v ∷ [])
  list_step xs (unshift v) = (done, v ∷ xs)
  list_step xs pop = (value (back xs), front xs)
  list_step xs shift = (value (first xs), rest xs)
  list_step xs peek_front = (value (first xs), xs)
  list_step xs peek_back = (value (back xs), xs)
  list_step xs size = (number (length xs), xs)
  list_step xs to_array = (values (map some xs), xs)
  list_step xs dump_to_array = (values (map some xs), [])

  pub list_run : List A → List (Op A) → List (Reply A)
  list_run xs [] = []
  list_run xs (op ∷ ops) = let (reply, xs') = list_step xs op in reply ∷ list_run xs' ops

  -- a list is empty, or ends in an element
  split_back :
      (x : A) (xs : List A)
      → (v : A) × (back (x ∷ xs) ≡ some v) × (x ∷ xs ≡ front (x ∷ xs) ++ v ∷ [])
  unfolding back front
  split_back x [] = (x, refl, refl)
  split_back x (y ∷ xs) = let (v, e, f) = split_back y xs in (v, e, ap (λ l. x ∷ l) f)

  -- a call returns the list's reply, and leaves the buffer holding the list's new state
  Steps : Queue A → List A → Op A → Type 0
  Steps q xs op = ((step q op).0 ≡ (list_step xs op).0) × Repr (step q op).1 (list_step xs op).1

  pop-Steps : (x : A) (xs : List A) {q : Queue A} → Repr q (x ∷ xs) → Steps q (x ∷ xs) pop
  unfolding Steps step list_step
  pop-Steps x xs {q} r =
      let (v, e, f) = split_back x xs in
      let (taken, left) = pop-Repr (front (x ∷ xs)) v (subst (Repr q) f r) in
      (ap value (taken ∙ sym e), left)

  peek_back-Steps :
      (x : A) (xs : List A) {q : Queue A} → Repr q (x ∷ xs) → Steps q (x ∷ xs) peek_back
  unfolding Steps step list_step
  peek_back-Steps x xs {q} r =
      let (v, e, f) = split_back x xs in
      (ap value (peek_back_lem (front (x ∷ xs)) v (subst (Repr q) f r) ∙ sym e), r)

  step-Steps :
      (op : Op A) {q : Queue A} (xs : List A) → Repr q xs → suc (length xs) < 2 ^ 30 → Steps q xs op
  unfolding Steps step list_step first rest back front
  step-Steps (push v) xs r h = (refl, push-Repr r v h)
  step-Steps (unshift v) xs r h = (refl, unshift-Repr r v h)
  step-Steps pop [] r h = let (e, f, g, k) = take-empty r in rw e (refl, r)
  step-Steps pop (x ∷ xs) r h = pop-Steps x xs r
  step-Steps shift [] r h = let (e, f, g, k) = take-empty r in rw f (refl, r)
  step-Steps shift (x ∷ xs) r h = let (e, s) = shift-Repr x xs r in (ap value e, s)
  step-Steps peek_front [] r h = let (e, f, g, k) = take-empty r in (ap value g, r)
  step-Steps peek_front (x ∷ xs) r h = (ap value (peek_front_lem x xs r), r)
  step-Steps peek_back [] r h = let (e, f, g, k) = take-empty r in (ap value k, r)
  step-Steps peek_back (x ∷ xs) r h = peek_back-Steps x xs r
  step-Steps size xs r h = (ap number (size_lem r), r)
  step-Steps to_array xs r h = (ap values (to_array_lem r), r)
  step-Steps dump_to_array xs r h = let (e, d, _, _) = dump_to_array-Repr r in (ap values e, d)

  length-front : (xs : List A) → length (front xs) ≤ suc (length xs)
  unfolding front
  length-front [] = omega arith
  length-front (x ∷ []) = omega arith
  length-front (x ∷ y ∷ xs) = omega (arith, length-front (y ∷ xs))

  length-list_step : (xs : List A) (op : Op A) → length (list_step xs op).1 ≤ suc (length xs)
  unfolding list_step rest
  length-list_step xs (push v) = omega (arith, length-append xs (v ∷ []))
  length-list_step xs (unshift v) = omega arith
  length-list_step xs pop = length-front xs
  length-list_step [] shift = omega arith
  length-list_step (x ∷ xs) shift = omega arith
  length-list_step xs peek_front = omega arith
  length-list_step xs peek_back = omega arith
  length-list_step xs size = omega arith
  length-list_step xs to_array = omega arith
  length-list_step xs dump_to_array = omega arith

  -- As long as the elements and the calls to come stay below 2 ^ 30, the calls return what the
  -- same calls on a list return.
  pub run_refines :
      (ops : List (Op A)) {q : Queue A} {xs : List A}
      → Repr q xs
      → length xs + length ops < 2 ^ 30
      → run q ops ≡ list_run xs ops
  unfolding run list_run Steps
  run_refines [] r h = refl
  run_refines (op ∷ ops) {q} {xs} r h =
      let (e, s) = step-Steps op xs r (omega arith) in
      ap₂ ◌∷◌ e (run_refines ops s (omega (arith, length-list_step xs op)))
