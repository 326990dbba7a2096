-- ===== src/MemoryPool/Held.antt =====
-- The objects that the borrowers of a pool of src/MemoryPool.ts hold, and the steps they take.
use vjuga.Base.{ℕ, ◌≤◌, ◌≡◌, Option, List, ◌∷◌}
use vjuga.Base.Counts.{occurs, remove}
use vjuga.MemoryPool.{MemoryPool, Outcome, returns, throws, Failure, acquire, release}

module _ {E W : Type 0} (factory : W → Outcome E ℕ × W)
    (reset : Option (ℕ → W → Option E × W)) where
  -- A use of the pool: its state, the world, and the objects that the borrowers hold. The caller's
  -- own code between two calls is a step that changes the world alone.
  pub data Step : MemoryPool → W → List ℕ → MemoryPool → W → List ℕ → Type 0 where
    took :
        {p q : MemoryPool} {w v : W} {held : List ℕ} (x : ℕ)
        → acquire factory p w ≡ (returns x, q, v)
        → Step p w held q v (x ∷ held)
    refused :
        {p q : MemoryPool} {w v : W} {held : List ℕ} (e : Failure E)
        → acquire factory p w ≡ (throws e, q, v)
        → Step p w held q v held
    gave :
        {p q : MemoryPool} {w v : W} {held : List ℕ} (x : ℕ) (r : Option E)
        → 1 ≤ occurs x held
        → release reset p x w ≡ (r, q, v)
        → Step p w held q v (remove x held)

  pub data Run : MemoryPool → W → List ℕ → MemoryPool → W → List ℕ → Type 0 where
    done : {p : MemoryPool} {w : W} {held : List ℕ} → Run p w held p w held
    more :
        {p q r : MemoryPool} {w v u : W} {held kept left : List ℕ}
        → Step p w held q v kept
        → Run q v kept r u left
        → Run p w held r u left
