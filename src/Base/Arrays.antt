-- ===== src/Base/Arrays.antt =====
-- JavaScript arrays whose slots may be `undefined` or holes, as lists of options: a read out of
-- range is `undefined`, a write past the end extends the array with holes, and the methods
-- `slice`, `copyWithin`, `fill` and an assignment to `length` act as the language defines them.
use Prim.Native.Nat.{ℕ, zero, suc, ◌+◌, ◌-◌, ◌≤◌, max}
use mathlib.Core.Path.{◌≡◌, refl, ap, ◌∙◌}
use mathlib.Core.Bool.{◌&&◌}
use mathlib.Core.List.{List, [], ◌∷◌}
use mathlib.Core.Option.{Option, none}
use native.Mathlib.Omega.{arith}
use vjuga.Base.Tests.{ltb, leb, ◌==◌, if◌then◌else◌}
use vjuga.Base.Lists.{length, take, drop, replicate, length-take, length-drop, length-replicate}

plus_zero : (i : ℕ) → i ≡ 0 + i
plus_zero i = omega arith

suc_plus : (n i : ℕ) → suc (n + i) ≡ suc n + i
suc_plus n i = omega arith

module _ {ℓ} {A : Type ℓ} where
  -- `xs[i]`
  abbrev pub read : List (Option A) → ℕ → Option A
  read [] i = none
  read (x ∷ xs) zero = x
  read (x ∷ xs) (suc i) = read xs i

  -- `xs[i] = v`
  abbrev pub write : List (Option A) → ℕ → Option A → List (Option A)
  write [] zero v = v ∷ []
  write [] (suc i) v = none ∷ write [] i v
  write (x ∷ xs) zero v = v ∷ xs
  write (x ∷ xs) (suc i) v = x ∷ write xs i v

  -- `xs.length = n`
  abbrev pub set_length : List (Option A) → ℕ → List (Option A)
  set_length xs zero = []
  set_length [] (suc n) = none ∷ set_length [] n
  set_length (x ∷ xs) (suc n) = x ∷ set_length xs n

  -- `xs.slice(start, end)`
  abbrev pub slice : List (Option A) → ℕ → ℕ → List (Option A)
  slice xs start end = take (end - start) (drop start xs)

  -- the entries of `ys` put over those of `xs` from index `at` on, as far as `xs` reaches
  abbrev pub overlay : List (Option A) → ℕ → List (Option A) → List (Option A)
  overlay [] at ys = []
  overlay (x ∷ xs) (suc at) ys = x ∷ overlay xs at ys
  overlay (x ∷ xs) zero [] = x ∷ xs
  overlay (x ∷ xs) zero (y ∷ ys) = y ∷ overlay xs zero ys

  -- `xs.copyWithin(target, start, end)`
  abbrev pub copy_within : List (Option A) → ℕ → ℕ → ℕ → List (Option A)
  copy_within xs target start end = overlay xs target (slice xs start end)

  -- `xs.fill(v, start, end)`
  abbrev pub fill : List (Option A) → Option A → ℕ → ℕ → List (Option A)
  fill xs v start end = overlay xs start (replicate (end - start) v)

  pub read-past : (xs : List (Option A)) (i : ℕ) → length xs ≤ i → read xs i ≡ none
  read-past [] i h = refl
  read-past (x ∷ xs) zero h = absurd (omega arith)
  read-past (x ∷ xs) (suc i) h = read-past xs i (omega arith)

  pub read-write :
      (xs : List (Option A)) (i : ℕ) (v : Option A) (j : ℕ)
      → read (write xs i v) j ≡ (if i == j then v else read xs j)
  read-write [] zero v zero = refl
  read-write [] zero v (suc j) = ground arith
  read-write [] (suc i) v zero = ground arith
  read-write [] (suc i) v (suc j) = ground (arith, read-write [] i v j)
  read-write (x ∷ xs) zero v zero = refl
  read-write (x ∷ xs) zero v (suc j) = ground arith
  read-write (x ∷ xs) (suc i) v zero = ground arith
  read-write (x ∷ xs) (suc i) v (suc j) = ground (arith, read-write xs i v j)

  pub length-write :
      (xs : List (Option A)) (i : ℕ) (v : Option A)
      → length (write xs i v) ≡ max (length xs) (i + 1)
  length-write [] zero v = omega arith
  length-write [] (suc i) v = omega (arith, length-write [] i v)
  length-write (x ∷ xs) zero v = omega arith
  length-write (x ∷ xs) (suc i) v = omega (arith, length-write xs i v)

  pub read-set_length :
      (xs : List (Option A)) (n i : ℕ)
      → read (set_length xs n) i ≡ (if ltb i n then read xs i else none)
  read-set_length [] zero i = ground arith
  read-set_length (x ∷ xs) zero i = ground arith
  read-set_length [] (suc n) zero = ground arith
  read-set_length [] (suc n) (suc i) = ground (arith, read-set_length [] n i)
  read-set_length (x ∷ xs) (suc n) zero = ground arith
  read-set_length (x ∷ xs) (suc n) (suc i) = ground (arith, read-set_length xs n i)

  pub length-set_length : (xs : List (Option A)) (n : ℕ) → length (set_length xs n) ≡ n
  length-set_length xs zero = refl
  length-set_length [] (suc n) = ap suc (length-set_length [] n)
  length-set_length (x ∷ xs) (suc n) = ap suc (length-set_length xs n)

  pub read-take :
      (n : ℕ) (xs : List (Option A)) (i : ℕ)
      → read (take n xs) i ≡ (if ltb i n then read xs i else none)
  read-take zero xs i = ground arith
  read-take (suc n) [] i = ground arith
  read-take (suc n) (x ∷ xs) zero = ground arith
  read-take (suc n) (x ∷ xs) (suc i) = ground (arith, read-take n xs i)

  pub read-drop : (n : ℕ) (xs : List (Option A)) (i : ℕ) → read (drop n xs) i ≡ read xs (n + i)
  read-drop zero xs i = ap (read xs) (plus_zero i)
  read-drop (suc n) [] i = refl
  read-drop (suc n) (x ∷ xs) i = read-drop n xs i ∙ ap (read (x ∷ xs)) (suc_plus n i)

  pub read-replicate :
      (n : ℕ) (v : Option A) (i : ℕ) → read (replicate n v) i ≡ (if ltb i n then v else none)
  read-replicate zero v i = ground arith
  read-replicate (suc n) v zero = ground arith
  read-replicate (suc n) v (suc i) = ground (arith, read-replicate n v i)

  pub read-overlay :
      (xs : List (Option A)) (at : ℕ) (ys : List (Option A)) (i : ℕ)
      → read (overlay xs at ys) i ≡ (
          if leb at i && (ltb (i - at) (length ys) && ltb i (length xs))
          then read ys (i - at)
          else read xs i)
  read-overlay [] at ys i = ground arith
  read-overlay (x ∷ xs) (suc at) ys zero = ground arith
  read-overlay (x ∷ xs) (suc at) ys (suc i) = ground (arith, read-overlay xs at ys i)
  read-overlay (x ∷ xs) zero [] i = ground arith
  read-overlay (x ∷ xs) zero (y ∷ ys) zero = ground arith
  read-overlay (x ∷ xs) zero (y ∷ ys) (suc i) = ground (arith, read-overlay xs zero ys i)

  pub length-overlay :
      (xs : List (Option A)) (at : ℕ) (ys : List (Option A)) → length (overlay xs at ys) ≡ length xs
  length-overlay [] at ys = refl
  length-overlay (x ∷ xs) (suc at) ys = ap suc (length-overlay xs at ys)
  length-overlay (x ∷ xs) zero [] = refl
  length-overlay (x ∷ xs) zero (y ∷ ys) = ap suc (length-overlay xs zero ys)

module _ {A : Type 0} where
  pub read-copy_within :
      (xs : List (Option A)) (target start end i : ℕ)
      → start ≤ end
      → end ≤ length xs
      → target + (end - start) ≤ length xs
      → read (copy_within xs target start end) i ≡ (
          if leb target i && ltb i (target + (end - start))
          then read xs (start + (i - target))
          else read xs i)
  read-copy_within xs target start end i h k l = ground (
    arith,
    read-overlay xs target (slice xs start end) i,
    length-take (end - start) (drop start xs),
    length-drop start xs,
    read-take (end - start) (drop start xs) (i - target),
    read-drop start xs (i - target),
  )

  pub read-fill :
      (xs : List (Option A)) (v : Option A) (start end i : ℕ)
      → read (fill xs v start end) i
        ≡ (if leb start i && (ltb i end && ltb i (length xs)) then v else read xs i)
  read-fill xs v start end i = ground (
    arith,
    read-overlay xs start (replicate (end - start) v) i,
    length-replicate (end - start) v,
    read-replicate (end - start) v (i - start),
  )
