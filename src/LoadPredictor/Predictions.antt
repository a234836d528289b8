-- ===== src/LoadPredictor/Predictions.antt =====
-- The predictions that `Update` publishes.
use nya_queue.Prelude.{
  ℕ, ◌-◌, ◌<◌, ◌≡◌, refl, sym, ap, ◌∙◌, subst, Option, none, some, List, [], ◌∷◌, arith, length,
  map, get_elem?, drop,
}
use nya_queue.Prelude.Elems.{get_elem?-map-some}
use nya_queue.Balancer.{Floats}
use nya_queue.LoadPredictor.{
  Roots, RingBuffer, PartitionPrediction, LoadPredictor, new_load_predictor, update, predict,
  predict_one, ar_predict,
}
use nya_queue.LoadPredictor.Histories.{
  find, loads_of, HasHad, observed-HasHad, update_all, update_all-observed, predict_one-IsAfter,
}

module _ (f : Floats) (c : Roots f) where
  open f use {Float, of_int}

  -- An order in which `Range` goes through the map that leaves no entry out.
  abbrev pub VisitsAll : (List (ℕ × RingBuffer Float) → List (ℕ × RingBuffer Float)) → Type 0
  VisitsAll visit =
      (h : List (ℕ × RingBuffer Float)) (i : ℕ) (buf : RingBuffer Float)
      → find f c h i ≡ some buf
      → (k : ℕ) × (get_elem? (visit h) k ≡ some (i, buf))

  -- The predictions that are published are those of the histories.
  abbrev IsPublished :
      (List (ℕ × RingBuffer Float) → List (ℕ × RingBuffer Float))
      → ℕ
      → ℕ
      → LoadPredictor f c
      → Type 0
  IsPublished visit window horizon lp =
      lp.predictions ≡ map (predict_one f c window horizon) (visit lp.history)

  update_all-IsPublished :
      (visit : List (ℕ × RingBuffer Float) → List (ℕ × RingBuffer Float))
      (rounds : List (List Float)) (lp : LoadPredictor f c)
      → IsPublished visit lp.window lp.horizon lp
      → IsPublished visit lp.window lp.horizon (update_all f c visit lp rounds)
  unfolding update_all update predict
  update_all-IsPublished visit [] lp h = h
  update_all-IsPublished visit (loads ∷ rest) lp h =
      update_all-IsPublished visit rest (update f c visit lp loads) refl

  updated-IsPublished :
      (visit : List (ℕ × RingBuffer Float) → List (ℕ × RingBuffer Float)) (loads : List Float)
      (rest : List (List Float)) (lp : LoadPredictor f c)
      → IsPublished visit lp.window lp.horizon (update_all f c visit lp (loads ∷ rest))
  unfolding update_all update predict
  updated-IsPublished visit loads rest lp =
      update_all-IsPublished visit rest (update f c visit lp loads) refl

  -- A partition that has had a load has a history.
  HasHad-some :
      (window : ℕ) (o : Option (RingBuffer Float)) (h : List Float)
      → HasHad f c window o h
      → 0 < length h
      → (buf : RingBuffer Float) × (o ≡ some buf)
  HasHad-some window none h a some_load = absurd (omega (arith, some_load, ap length a))
  HasHad-some window (some buf) h a some_load = (buf, refl)

  all-HasHad :
      (visit : List (ℕ × RingBuffer Float) → List (ℕ × RingBuffer Float))
      (rounds : List (List Float)) (window horizon i : ℕ)
      → 0 < window
      → HasHad f c window
          (find f c (update_all f c visit (new_load_predictor f c window horizon) rounds).history i)
          (loads_of f c i rounds)
  unfolding find new_load_predictor
  all-HasHad visit rounds window horizon i room =
      subst (λ h. HasHad f c window (find f c h i) (loads_of f c i rounds))
        (sym (update_all-observed f c visit rounds (new_load_predictor f c window horizon)))
        (observed-HasHad f c window [] rounds i [] room refl)

  -- Let `Range` leave no entry of the map out, and the window be positive. Whatever updates there were
  -- of a new predictor, for each partition that had a load in one of them there is a prediction among
  -- those that are published, and it is the forecast of the last loads that the updates had for this
  -- partition, as many as the window or all of them, in their order.
  pub update_all-predicted :
      (visit : List (ℕ × RingBuffer Float) → List (ℕ × RingBuffer Float))
      (rounds : List (List Float)) (window horizon i : ℕ)
      → VisitsAll visit
      → 0 < window
      → 0 < length (loads_of f c i rounds)
      → let lp = update_all f c visit (new_load_predictor f c window horizon) rounds in
        (k : ℕ) × (p : PartitionPrediction f c) × (get_elem? lp.predictions k ≡ some p)
        × (p.partition_id ≡ i)
        × (p.predicted
            ≡ ar_predict f c window
                (drop (length (loads_of f c i rounds) - window) (loads_of f c i rounds))
                horizon)
  unfolding new_load_predictor loads_of predict_one
  update_all-predicted visit [] window horizon i visits room some_load =
      absurd (omega (arith, some_load))
  update_all-predicted visit (loads ∷ rest) window horizon i visits room some_load =
      let rounds = loads ∷ rest in
      let fresh = new_load_predictor f c window horizon in
      let lp = update_all f c visit fresh rounds in
      let had = all-HasHad visit rounds window horizon i room in
      let (buf, at) =
        HasHad-some window (find f c lp.history i) (loads_of f c i rounds) had some_load in
      let (k, place) = visits lp.history i buf at in
      (
        k,
        predict_one f c window horizon (i, buf),
        ap (λ ps. get_elem? ps k) (updated-IsPublished visit loads rest fresh)
            ∙ get_elem?-map-some (predict_one f c window horizon) (visit lp.history) k (i, buf)
                place,
        refl,
        predict_one-IsAfter f c window horizon i buf (loads_of f c i rounds)
            (subst (λ o. HasHad f c window o (loads_of f c i rounds)) at had),
      )
