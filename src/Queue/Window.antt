-- ===== src/Queue/Window.antt =====
-- The elements of src/Queue.ts in the circular buffer: what a write, a move or a resize of the
-- buffer does to the window of live slots.
use vjuga.Base.{
  ℕ, zero, suc, ◌+◌, ◌-◌, ◌%◌, ◌<◌, ◌≡◌, refl, ◌∙◌, List, [], ◌∷◌, ◌++◌, Option, none, some, arith,
  length, get_elem?, read, write, get_elem?-append, get_elem?-none, read-write,
}
use vjuga.Base.Modular.{wrap}

module _ {A : Type 0} where
  -- slot `head + i`, going round at `c`, holds element `i`, and nothing past the last element
  abbrev pub Window : List (Option A) → ℕ → ℕ → List A → Type 0
  Window list c head xs = (i : ℕ) → i < c → read list ((head + i) % c) ≡ get_elem? xs i

  pub push-Window :
      (list : List (Option A)) (c head : ℕ) (xs : List A) (v : A)
      → head < c
      → length xs < c
      → Window list c head xs
      → Window (write list ((head + length xs) % c) (some v)) c head (xs ++ v ∷ [])
  push-Window list c head xs v hh hn w i hi = ground (
    arith,
    w i hi,
    wrap c (head + i) (omega arith),
    wrap c (head + length xs) (omega arith),
    read-write list ((head + length xs) % c) (some v) ((head + i) % c),
    get_elem?-append xs (v ∷ []) i,
    get_elem?-none xs i,
    get_elem?-none (v ∷ []) (i - length xs),
  )

  pub unshift-Window :
      (list : List (Option A)) (c head : ℕ) (xs : List A) (v : A)
      → head < c
      → length xs < c
      → Window list c head xs
      → Window (write list ((head + c - 1) % c) (some v)) c ((head + c - 1) % c) (v ∷ xs)
  unshift-Window list c head xs v hh hn w zero hi = ground (
    arith,
    wrap c (head + c - 1) (omega arith),
    wrap c ((head + c - 1) % c + 0) (omega arith),
    read-write list ((head + c - 1) % c) (some v) (((head + c - 1) % c + 0) % c),
  )
  unshift-Window list c head xs v hh hn w (suc i) hi = ground (
    arith,
    w i (omega arith),
    wrap c (head + i) (omega arith),
    wrap c (head + c - 1) (omega arith),
    wrap c ((head + c - 1) % c + suc i) (omega arith),
    read-write list ((head + c - 1) % c) (some v) (((head + c - 1) % c + suc i) % c),
  )

  pub pop-Window :
      (list : List (Option A)) (c head : ℕ) (xs : List A) (v : A)
      → head < c
      → length xs < c
      → Window list c head (xs ++ v ∷ [])
      → Window (write list ((head + length xs) % c) none) c head xs
  pop-Window list c head xs v hh hn w i hi = ground (
    arith,
    w i hi,
    wrap c (head + i) (omega arith),
    wrap c (head + length xs) (omega arith),
    read-write list ((head + length xs) % c) none ((head + i) % c),
    get_elem?-append xs (v ∷ []) i,
    get_elem?-none xs i,
    get_elem?-none (v ∷ []) (i - length xs),
  )

  pub shift-Window :
      (list : List (Option A)) (c head : ℕ) (xs : List A) (v : A)
      → head < c
      → suc (length xs) < c
      → Window list c head (v ∷ xs)
      → Window (write list head none) c ((head + 1) % c) xs
  shift-Window list c head xs v hh hn w i hi = ground (
    arith,
    below,
    wrap c (head + suc i) (omega arith),
    wrap c (head + 1) (omega arith),
    wrap c ((head + 1) % c + i) (omega arith),
    read-write list head none (((head + 1) % c + i) % c),
    get_elem?-none xs i,
  )
    where
      below : suc i < c → read list ((head + suc i) % c) ≡ get_elem? xs i
      below h = w (suc i) h

  -- the slot before the tail holds the last element
  pub Window-last :
      (list : List (Option A)) (c head : ℕ) (xs : List A) (v : A)
      → length xs < c
      → Window list c head (xs ++ v ∷ [])
      → read list ((head + length xs) % c) ≡ some v
  Window-last list c head xs v hn w = w (length xs) hn ∙ last
    where
      last : get_elem? (xs ++ v ∷ []) (length xs) ≡ some v
      last = ground (
        arith,
        get_elem?-append xs (v ∷ []) (length xs),
        zeroth (length xs - length xs) (omega arith),
      )
        where
          zeroth : (n : ℕ) → n ≡ 0 → get_elem? (v ∷ []) n ≡ some v
          zeroth zero e = refl
          zeroth (suc n) e = absurd (omega arith)
