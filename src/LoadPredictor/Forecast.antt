-- ===== src/LoadPredictor/Forecast.antt =====
-- The forecast: how many values it has, and between which bounds.
use nya_queue.Prelude.{
  ℕ, zero, suc, ◌+◌, ◌-◌, ◌≤◌, ◌≡◌, ◌⊎◌, inl, inr, refl, ap, Bool, true, false, Option, none, some,
  List, [], ◌∷◌, ◌++◌, map, arith, length, ◌==◌, if◌then◌else◌, replicate, All, All-replicate,
  length-replicate, length-snoc,
}
use nya_queue.Balancer.{Floats, Compares}
use nya_queue.LoadPredictor.{
  Roots, reflected, less_products, autocovariance, levinson, yule_walker, clamped, forecast_from,
  mean_of, order_of, ar_predict,
}

module _ (f : Floats) (c : Roots f) where
  open f use {Float, of_int, less}

  -- Neither below 0 nor above 1.
  abbrev pub IsShare : Float → Type 0
  IsShare x = (less x (of_int 0) ≡ false) × (less c.one x ≡ false)

  length-reflected :
      (old : List Float) (k : Float) (m j : ℕ) (a : List Float)
      → length (reflected f c old k m j a) ≡ length a
  unfolding reflected
  length-reflected old k m j [] = refl
  length-reflected old k m j (x ∷ a) = ap suc (length-reflected old k m (j + 1) a)

  length-levinson :
      (r : ℕ → Float) (m : ℕ) (a : List Float) (e : Float) (left : ℕ)
      → (length a ≤ length (levinson f c r m a e left))
        × (length (levinson f c r m a e left) ≤ length a + left)
  unfolding levinson
  length-levinson r m a e zero = omega arith
  length-levinson r m a e (suc left) =
      let k = f.divide (less_products f c r m 0 (r (m + 1)) a) e in
      let longer = reflected f c a k m 0 a ++ (k ∷ []) in
      let rest = length-levinson r (m + 1) longer (f.times e (f.minus c.one (f.times k k))) left in
      let amount = length-snoc (reflected f c a k m 0 a) k in
      ground (arith, rest, amount, length-reflected a k m 0 a)

  -- As many coefficients as the order, or fewer, but one at least.
  pub length-yule_walker :
      (vals : List Float) (mean : Float) (p : ℕ) (coeffs : List Float)
      → 1 ≤ p
      → yule_walker f c vals mean p ≡ some coeffs
      → (1 ≤ length coeffs) × (length coeffs ≤ p)
  unfolding yule_walker
  length-yule_walker vals mean p coeffs le e =
      let r : ℕ → Float = autocovariance f c vals mean in
      let a0 = f.divide (r 1) (r 0) in
      ground (
        arith,
        e,
        length-levinson r 1 (a0 ∷ []) (f.times (r 0) (f.minus c.one (f.times a0 a0))) (p - 1),
      )

  clamped-IsShare :
      (x : Float) → Compares f → less c.one (of_int 0) ≡ false → IsShare (clamped f c x)
  unfolding clamped
  clamped-IsShare x laws e = ground (arith, e, laws.irreflexive (of_int 0), laws.irreflexive c.one)

  forecast_from-IsShare :
      (coeffs : List Float) (mean : Float) (left : ℕ) (buf : List Float)
      → Compares f
      → less c.one (of_int 0) ≡ false
      → (length (forecast_from f c coeffs mean buf left) ≡ left)
        × All IsShare (forecast_from f c coeffs mean buf left)
  unfolding forecast_from
  forecast_from-IsShare coeffs mean zero buf laws e = (refl, tt)
  forecast_from-IsShare coeffs mean (suc left) buf laws e =
      let rest = forecast_from-IsShare coeffs mean left _ laws e in
      (ap suc rest.0, (clamped-IsShare _ laws e, rest.1))

  -- A forecast has one value for each step, and these are all the mean of the values, or neither
  -- below 0 nor above 1.
  abbrev IsForecast : List Float → ℕ → List Float → Type 0
  IsForecast vals horizon out =
      (length out ≡ horizon) × ((out ≡ replicate horizon (mean_of f c vals)) ⊎ All IsShare out)

  mean-IsForecast :
      (vals : List Float) (horizon : ℕ)
      → IsForecast vals horizon (replicate horizon (mean_of f c vals))
  mean-IsForecast vals horizon = (length-replicate horizon (mean_of f c vals), inl refl)

  if-IsForecast :
      (test : Bool) (vals : List Float) (horizon : ℕ) (xs ys : List Float)
      → IsForecast vals horizon xs
      → IsForecast vals horizon ys
      → IsForecast vals horizon (if test then xs else ys)
  if-IsForecast true vals horizon xs ys h k = h
  if-IsForecast false vals horizon xs ys h k = k

  -- Let the comparison of floats be irreflexive, and 1 not smaller than 0. Then the forecast of any
  -- loads has one value for each step of the horizon, and either each is the mean of the loads or
  -- each is cut to the range from 0 to 1.
  pub ar_predict-IsForecast :
      (window : ℕ) (vals : List Float) (horizon : ℕ)
      → Compares f
      → less c.one (of_int 0) ≡ false
      → (length (ar_predict f c window vals horizon) ≡ horizon)
        × ((ar_predict f c window vals horizon ≡ replicate horizon (mean_of f c vals))
            ⊎ All IsShare (ar_predict f c window vals horizon))
  unfolding ar_predict
  ar_predict-IsForecast window vals horizon laws e =
      if-IsForecast (length vals == 0) vals horizon _ _
        (
          length-replicate horizon (of_int 0),
          inr (All-replicate IsShare horizon (of_int 0) (laws.irreflexive (of_int 0), e)),
        )
        (if-IsForecast _ vals horizon _ _ (mean-IsForecast vals horizon)
          (step (yule_walker f c vals (mean_of f c vals) (order_of f c window (length vals)))))
    where
      step :
          (found : Option (List Float))
          → IsForecast vals horizon (elim found [
            | none ↦ replicate horizon (mean_of f c vals)
            | some coeffs ↦
                forecast_from f c coeffs
                  (mean_of f c vals)
                  (map (λ v. f.minus v (mean_of f c vals)) vals)
                  horizon
          ])
      step none = mean-IsForecast vals horizon
      step (some coeffs) =
          let out = forecast_from-IsShare coeffs _ horizon _ laws e in (out.0, inr out.1)
