-- ===== src/Balancer.antt =====
-- pkg/balancer: the choice of a partition for a message. What the balancers do with float64 is a
-- parameter: the kernel has no floating-point numbers, and no property here depends on their laws.
pub mod RoundRobin
pub mod P2c
mod Tests
use nya_queue.Prelude.{ℕ, Bool, true, false, ◌≡◌}

-- `of_int` is the conversion of an int64, given by its bit pattern, and of an int that is not
-- negative.
pub record Floats : Type 1 where
  pub Float : Type 0
  pub of_int : ℕ → Float
  pub plus : Float → Float → Float
  pub minus : Float → Float → Float
  pub times : Float → Float → Float
  pub divide : Float → Float → Float
  pub less : Float → Float → Bool
  pub less_equal : Float → Float → Bool

-- What IEEE 754 promises of the comparison of any two floats: it is irreflexive and transitive.
pub record Compares (f : Floats) : Type 0 where
  pub irreflexive : (x : f.Float) → f.less x x ≡ false
  pub transitive : (x y z : f.Float) → f.less x y ≡ true → f.less y z ≡ true → f.less x z ≡ true
