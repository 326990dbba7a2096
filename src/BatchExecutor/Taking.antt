-- ===== src/BatchExecutor/Taking.antt =====
-- `take` of src/BatchExecutor.ts: the requests that wait in the queue of arrays, and those taken.
use mathlib.Core.List.{append_assoc, append-nil}
use vjuga.Base.{
  ℕ, zero, suc, ◌+◌, ◌-◌, ◌≤◌, ◌<◌, ◌≡◌, refl, List, [], ◌∷◌, ◌++◌, ◌==◌, leb, arith, ap, sym, ◌∙◌,
  length, take, drop, length-append, length-drop, length-take, Bool-cases, inl, inr, leb→le,
}
use vjuga.BatchExecutor.{take_loop, take_chunk}

module _ {A : Type 0} where
  take-append-drop : (n : ℕ) (xs : List A) → take n xs ++ drop n xs ≡ xs
  take-append-drop zero xs = refl
  take-append-drop (suc n) [] = refl
  take-append-drop (suc n) (x ∷ xs) = ap (λ l. x ∷ l) (take-append-drop n xs)

  drop_none : (n : ℕ) → drop {A = A} n [] ≡ []
  drop_none zero = refl
  drop_none (suc n) = refl

  drop-add : (h n : ℕ) (xs : List A) → drop (h + n) xs ≡ drop n (drop h xs)
  drop-add zero n xs = ap (λ z. drop z xs) (zero_add n)
    where
      zero_add : (n : ℕ) → 0 + n ≡ n
      zero_add n = omega arith
  drop-add (suc h) n [] = drop_none (suc h + n) ∙ sym (drop_none n)
  drop-add (suc h) n (x ∷ xs) = ap (λ z. drop z (x ∷ xs)) (suc_add h n) ∙ drop-add h n xs
    where
      suc_add : (h n : ℕ) → suc h + n ≡ suc (h + n)
      suc_add h n = omega arith

  abbrev pub concat : List (List A) → List A
  concat [] = []
  concat (xs ∷ xss) = xs ++ concat xss

  pub concat-append : (xs ys : List (List A)) → concat (xs ++ ys) ≡ concat xs ++ concat ys
  concat-append [] ys = refl
  concat-append (x ∷ xs) ys =
      ap (λ l. x ++ l) (concat-append xs ys) ∙ sym (append_assoc x (concat xs) (concat ys))

  -- the requests that wait, the first `head` of the front array being gone
  unfoldable pub waiting : ℕ → List (List A) → List A
  waiting head [] = []
  waiting head (front ∷ pending) = drop head front ++ concat pending

  abbrev pub AllSome : List (List A) → Type 0
  AllSome [] = Unit
  AllSome (xs ∷ xss) = (1 ≤ length xs) × AllSome xss

  -- the offset is within the front array, and no array is empty
  abbrev pub IsFront : ℕ → List (List A) → Type 0
  IsFront head [] = head ≡ 0
  IsFront head (front ∷ pending) = (head < length front) × AllSome pending

  IsFront-next : (pending : List (List A)) → AllSome pending → IsFront 0 pending
  IsFront-next [] h = refl
  IsFront-next (xs ∷ xss) h = h

  waiting-next : (pending : List (List A)) → waiting 0 pending ≡ concat pending
  unfolding waiting
  waiting-next [] = refl
  waiting-next (xs ∷ xss) = refl

  pub waiting-append :
      (head : ℕ) (pending : List (List A)) (xs : List A)
      → IsFront head pending
      → waiting head (pending ++ xs ∷ []) ≡ waiting head pending ++ xs
  unfolding waiting
  waiting-append head [] xs f = ap (λ z. drop z xs ++ []) f ∙ append-nil xs
  waiting-append head (front ∷ pending) xs f =
      ap (λ l. drop head front ++ l)
        (concat-append pending (xs ∷ []) ∙ ap (λ l. concat pending ++ l) (append-nil xs))
      ∙ sym (append_assoc (drop head front) (concat pending) xs)

  pub IsFront-append :
      (head : ℕ) (pending : List (List A)) (xs : List A)
      → 1 ≤ length xs
      → IsFront head pending
      → IsFront head (pending ++ xs ∷ [])
  IsFront-append head [] xs h f = (omega (arith, h, f), tt)
  IsFront-append head (front ∷ pending) xs h f = (f.0, all pending f.1)
    where
      all : (pending : List (List A)) → AllSome pending → AllSome (pending ++ xs ∷ [])
      all [] a = (h, tt)
      all (p ∷ ps) a = (a.0, all ps a.1)

  -- What is taken are the first `n` requests that wait, and the others still wait.
  abbrev pub IsTaken : ℕ → ℕ → List (List A) → List A × ℕ × List (List A) → Type 0
  IsTaken n head pending out =
      (out.0 ++ waiting out.1 out.2 ≡ waiting head pending)
      × (length out.0 ≡ n)
      × IsFront out.1 out.2

  split_front :
      (n head : ℕ) (front : List A) (pending : List (List A))
      → n < length front - head
      → AllSome pending
      → IsTaken n head (front ∷ pending) (take n (drop head front), head + n, front ∷ pending)
  unfolding waiting
  split_front n head front pending h a = (
    ap (λ l. take n (drop head front) ++ (l ++ concat pending)) (drop-add head n front)
        ∙ sym (append_assoc (take n (drop head front)) (drop n (drop head front)) (concat pending))
        ∙ ap (λ l. l ++ concat pending) (take-append-drop n (drop head front)),
    omega (arith, length-take n (drop head front), length-drop head front),
    (omega (arith, h), a),
  )

  whole_front :
      (n head : ℕ) (front : List A) (pending : List (List A))
      → length front - head ≡ n
      → AllSome pending
      → IsTaken n head (front ∷ pending) (drop head front, 0, pending)
  unfolding waiting
  whole_front n head front pending h a = (
    ap (λ l. drop head front ++ l) (waiting-next pending),
    length-drop head front ∙ h,
    IsFront-next pending a,
  )

  pub take_loop-IsTaken :
      (m head : ℕ) (pending : List (List A))
      → m ≤ length (waiting head pending)
      → IsFront head pending
      → 1 ≤ m
      → IsTaken m head pending (take_loop m head pending)
  unfolding take_loop waiting
  take_loop-IsTaken m head [] h f p = absurd (omega (arith, h, p))
  take_loop-IsTaken m head (front ∷ pending) h f p =
      elim (Bool-cases (leb (length front - head) m)) [
        | inl e ↦ elim (Bool-cases (length front - head == m)) [
          | inl g ↦ rw (e, g) (whole_front m head front pending (ground (arith, g)) f.1)
          | inr g ↦
              let rest = m - (length front - head) in
              let i =
                take_loop-IsTaken rest 0 pending
                  (omega (
                    arith,
                    h,
                    length-append (drop head front) (concat pending),
                    length-drop head front,
                    ap length (waiting-next pending),
                  ))
                  (IsFront-next pending f.1) (ground (arith, e, g)) in
              rw (e, g)
                (
                  append_assoc (drop head front) (take_loop rest 0 pending).0
                        (waiting (take_loop rest 0 pending).1 (take_loop rest 0 pending).2)
                      ∙ ap (λ l. drop head front ++ l) (i.0 ∙ waiting-next pending),
                  length-append (drop head front) (take_loop rest 0 pending).0
                      ∙ joined (length front) head m (length (drop head front))
                          (length (take_loop rest 0 pending).0) (length-drop head front) i.1
                          (leb→le _ _ e),
                  i.2,
                )
        ]
        | inr e ↦ rw e (split_front m head front pending (ground (arith, e)) f.1)
      ]
    where
      joined : (l h n a b : ℕ) → a ≡ l - h → b ≡ n - (l - h) → l - h ≤ n → a + b ≡ n
      joined l h n a b u v w = omega (arith, u, v, w)

  pub take_chunk-IsTaken :
      (n head : ℕ) (pending : List (List A))
      → n ≤ length (waiting head pending)
      → IsFront head pending
      → 1 ≤ n
      → IsTaken n head pending (take_chunk n head pending)
  unfolding take_chunk waiting
  take_chunk-IsTaken n head [] h f p = absurd (omega (arith, h, p))
  take_chunk-IsTaken n head (front ∷ pending) h f p =
      elim (Bool-cases (leb n (length front - head))) [
        | inl e ↦ elim (Bool-cases (head + n == length front)) [
          | inl g ↦ rw (e, g) (whole_front n head front pending (ground (arith, g)) f.1)
          | inr g ↦ rw (e, g) (split_front n head front pending (ground (arith, e, g)) f.1)
        ]
        | inr e ↦ rw e (unfold waiting in take_loop-IsTaken n head (front ∷ pending) h f p)
      ]
