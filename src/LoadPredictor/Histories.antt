-- ===== src/LoadPredictor/Histories.antt =====
-- The histories of the partitions, and whose prediction stands where.
use nya_queue.Prelude.{
  ℕ, zero, suc, ◌+◌, ◌-◌, ◌<◌, ◌≡◌, ◌≢◌, refl, sym, ap, ap₂, ◌∙◌, subst, true, Option, none, some,
  List, [], ◌∷◌, ◌++◌, arith, length, ◌==◌, min, if◌then◌else◌, replicate, get_elem?, take, drop,
  take-append, length-drop, length-replicate, append-nil, append_assoc,
}
use nya_queue.Balancer.{Floats}
use nya_queue.LoadPredictor.{
  Roots, RingBuffer, new_ring_buffer, push, PartitionPrediction, LoadPredictor, new_load_predictor,
  observe, observe_all, update, predict, predict_one, first_prediction, predict_all, mean_of,
  ar_predict, order_of,
}
use nya_queue.LoadPredictor.Ring.{IsAfter, new-IsAfter, push-IsAfter, values_into-IsAfter}

-- The visit that goes through a map from behind.
unfoldable pub backwards {ℓ} : {A : Type ℓ} → List A → List A
backwards [] = []
backwards (x ∷ xs) = backwards xs ++ (x ∷ [])

module _ (f : Floats) (c : Roots f) where
  open f use {Float, of_int}

  unfoldable pub find : List (ℕ × RingBuffer Float) → ℕ → Option (RingBuffer Float)
  find [] i = none
  find ((j, buf) ∷ rest) i = if j == i then some buf else find rest i

  -- The buffer that a load of a partition goes to.
  abbrev or_new : ℕ → Option (RingBuffer Float) → RingBuffer Float
  or_new window (some buf) = buf
  or_new window none = new_ring_buffer (of_int 0) window

  find-observe :
      (window : ℕ) (history : List (ℕ × RingBuffer Float)) (i : ℕ) (load : Float) (k : ℕ)
      → find (observe f c window history i load) k
        ≡ (if i == k then some (push (or_new window (find history i)) load) else find history k)
  unfolding find observe
  find-observe window [] i load k = refl
  find-observe window ((j, buf) ∷ rest) i load k = ground (arith, find-observe window rest i load k)

  -- The loads of one partition, in a sequence of updates.
  unfoldable pub loads_of : ℕ → List (List Float) → List Float
  loads_of i [] = []
  loads_of i (loads ∷ rest) = elim (get_elem? loads i) [
    | some load ↦ load ∷ loads_of i rest
    | none ↦ loads_of i rest
  ]

  unfoldable pub observed :
      ℕ → List (ℕ × RingBuffer Float) → List (List Float) → List (ℕ × RingBuffer Float)
  observed window history [] = history
  observed window history (loads ∷ rest) =
      observed window (observe_all f c window history 0 loads) rest

  -- A partition has had the loads `h`, or none.
  abbrev pub HasHad : ℕ → Option (RingBuffer Float) → List Float → Type 0
  HasHad window (some buf) h = IsAfter buf window h
  HasHad window none h = h ≡ []

  or_new-IsAfter :
      (window : ℕ) (o : Option (RingBuffer Float)) (h : List Float)
      → 0 < window
      → HasHad window o h
      → IsAfter (or_new window o) window h
  or_new-IsAfter window (some buf) h room a = a
  or_new-IsAfter window none h room a =
      subst (IsAfter (new_ring_buffer (of_int 0) window) window) (sym a)
        (new-IsAfter (of_int 0) window room)

  observe-same :
      (window : ℕ) (history : List (ℕ × RingBuffer Float)) (i : ℕ) (load : Float) (h : List Float)
      → 0 < window
      → HasHad window (find history i) h
      → HasHad window (find (observe f c window history i load) i) (h ++ (load ∷ []))
  observe-same window history i load h room a =
      let hit : (i == i) ≡ true = ground arith in
      subst (λ o. HasHad window o (h ++ (load ∷ [])))
        (sym (
          find-observe window history i load i
          ∙ ap
              (λ t. if t then some (push (or_new window (find history i)) load) else find history i)
              hit))
        (push-IsAfter (or_new window (find history i)) window h load
          (or_new-IsAfter window (find history i) h room a))

  observe-other :
      (window : ℕ) (history : List (ℕ × RingBuffer Float)) (i : ℕ) (load : Float) (k : ℕ)
      → i ≢ k
      → find (observe f c window history i load) k ≡ find history k
  observe-other window history i load k ne =
      ground (arith, find-observe window history i load k, ne)

  observe_all-other :
      (window : ℕ) (history : List (ℕ × RingBuffer Float)) (k : ℕ) (loads : List Float) (i : ℕ)
      → i < k
      → find (observe_all f c window history k loads) i ≡ find history i
  unfolding observe_all
  observe_all-other window history k [] i lt = refl
  observe_all-other window history k (load ∷ loads) i lt =
      observe_all-other window (observe f c window history k load) (k + 1) loads i
        (omega (arith, lt))
      ∙ observe-other window history k load i (λ e. omega (arith, e, lt))

  -- One load more, if there is one.
  abbrev and_one : List Float → Option Float → List Float
  and_one h (some load) = h ++ (load ∷ [])
  and_one h none = h

  observe_all-HasHad :
      (window : ℕ) (history : List (ℕ × RingBuffer Float)) (k : ℕ) (loads : List Float) (d i : ℕ)
      (h : List Float)
      → 0 < window
      → i ≡ k + d
      → HasHad window (find history i) h
      → HasHad window
          (find (observe_all f c window history k loads) i)
          (and_one h (get_elem? loads d))
  unfolding observe_all
  observe_all-HasHad window history k [] d i h room e a = a
  observe_all-HasHad window history k (load ∷ loads) zero i h room e a =
      let at : k ≡ i = omega (arith, e) in
      subst (λ o. HasHad window o (h ++ (load ∷ [])))
        (sym (
          observe_all-other window (observe f c window history k load) (k + 1) loads i
            (omega (arith, e))))
        (subst (λ j. HasHad window (find (observe f c window history j load) i) (h ++ (load ∷ [])))
          (sym at) (observe-same window history i load h room a))
  observe_all-HasHad window history k (load ∷ loads) (suc d) i h room e a =
      observe_all-HasHad window (observe f c window history k load) (k + 1) loads d i h room
        (omega (arith, e))
        (subst (λ o. HasHad window o h)
          (sym (observe-other window history k load i (λ p. omega (arith, e, p)))) a)

  pub observed-HasHad :
      (window : ℕ) (history : List (ℕ × RingBuffer Float)) (rounds : List (List Float)) (i : ℕ)
      (h : List Float)
      → 0 < window
      → HasHad window (find history i) h
      → HasHad window (find (observed window history rounds) i) (h ++ loads_of i rounds)
  unfolding observed loads_of
  observed-HasHad window history [] i h room a =
      subst (HasHad window (find history i)) (sym (append-nil h)) a
  observed-HasHad window history (loads ∷ rest) i h room a =
      subst (HasHad window (find (observed window (observe_all f c window history 0 loads) rest) i))
        (regroup (get_elem? loads i))
        (observed-HasHad window (observe_all f c window history 0 loads) rest i
          (and_one h (get_elem? loads i)) room
          (observe_all-HasHad window history 0 loads i i h room (omega arith) a))
    where
      regroup :
          (o : Option Float)
          → and_one h o ++ loads_of i rest
            ≡ h ++ elim o [ some load ↦ load ∷ loads_of i rest | none ↦ loads_of i rest ]
      regroup (some load) = append_assoc h (load ∷ []) (loads_of i rest)
      regroup none = refl

  -- Updates one after the other.
  unfoldable pub update_all :
      (List (ℕ × RingBuffer Float) → List (ℕ × RingBuffer Float))
      → LoadPredictor f c
      → List (List Float)
      → LoadPredictor f c
  update_all visit lp [] = lp
  update_all visit lp (loads ∷ rest) = update_all visit (update f c visit lp loads) rest

  pub update_all-observed :
      (visit : List (ℕ × RingBuffer Float) → List (ℕ × RingBuffer Float))
      (rounds : List (List Float)) (lp : LoadPredictor f c)
      → (update_all visit lp rounds).history ≡ observed lp.window lp.history rounds
  unfolding update_all observed update predict
  update_all-observed visit [] lp = refl
  update_all-observed visit (loads ∷ rest) lp =
      update_all-observed visit rest (update f c visit lp loads)

  pub predict_one-IsAfter :
      (window horizon i : ℕ) (buf : RingBuffer Float) (h : List Float)
      → IsAfter buf window h
      → (predict_one f c window horizon (i, buf)).predicted
        ≡ ar_predict f c window (drop (length h - window) h) horizon
  unfolding predict_one
  predict_one-IsAfter window horizon i buf h a =
      let amount : length (replicate window (of_int 0)) ≡ window =
        length-replicate window (of_int 0) in
      let lasts = drop (length h - window) h in
      let copied =
        values_into-IsAfter buf (replicate window (of_int 0)) window h a (omega (arith, amount)) in
      let n : min (length h) window ≡ length lasts =
        omega (arith, length-drop (length h - window) h) in
      ap (λ t. ar_predict f c window t horizon)
        (ap (λ (p : ℕ × List Float). take p.0 p.1) copied
          ∙ ap (λ k. take k (lasts ++ drop (min (length h) window) (replicate window (of_int 0)))) n
          ∙ take-append lasts (drop (min (length h) window) (replicate window (of_int 0))))

  -- One load is too few for a regression.
  ar_predict-one :
      (window horizon : ℕ) (x : Float)
      → c.root 1 ≡ 1
      → ar_predict f c window (x ∷ []) horizon ≡ replicate horizon (mean_of f c (x ∷ []))
  unfolding ar_predict order_of
  ar_predict-one window horizon x one = ground (arith, one)

  first_prediction-head :
      (p : PartitionPrediction f c) (x : Float) (xs : List Float)
      → p.predicted ≡ x ∷ xs
      → first_prediction f c p ≡ x
  unfolding first_prediction
  first_prediction-head p x xs e = ground (arith, e)

  first_prediction-one :
      (window horizon i : ℕ) (x : Float)
      → 0 < window
      → 0 < horizon
      → c.root 1 ≡ 1
      → first_prediction f c
          (predict_one f c window horizon (i, push (new_ring_buffer (of_int 0) window) x))
        ≡ mean_of f c (x ∷ [])
  first_prediction-one window zero i x room ahead one = absurd (omega (arith, ahead))
  first_prediction-one window (suc horizon) i x room ahead one =
      let after =
        push-IsAfter (new_ring_buffer (of_int 0) window) window [] x
          (new-IsAfter (of_int 0) window room) in
      let all : 1 - window ≡ 0 = omega (arith, room) in
      first_prediction-head _ (mean_of f c (x ∷ [])) (replicate horizon (mean_of f c (x ∷ []))) (
        predict_one-IsAfter window (suc horizon) i (push (new_ring_buffer (of_int 0) window) x)
          (x ∷ []) after
        ∙ ap (λ k. ar_predict f c window (drop k (x ∷ [])) (suc horizon)) all
        ∙ ar_predict-one window (suc horizon) x one)

  -- `PredictAll` gives the predictions in the order in which `Range` goes through the map, and says
  -- nothing of the partitions they are for: when a predictor that has one load of each of two
  -- partitions visits the second first, the prediction of the second stands at place 0 and that of
  -- the first at place 1. Conditions: the window and the horizon are positive, and the root of 1 is
  -- 1.
  pub predict_all-misplaced :
      (window horizon : ℕ) (x y : Float)
      → 0 < window
      → 0 < horizon
      → c.root 1 ≡ 1
      → predict_all f c (update f c backwards (new_load_predictor f c window horizon) (x ∷ y ∷ []))
        ≡ mean_of f c (y ∷ []) ∷ mean_of f c (x ∷ []) ∷ []
  unfolding predict_all update predict observe_all observe backwards new_load_predictor
  predict_all-misplaced window horizon x y room ahead one =
      ap₂ (λ a b. a ∷ b ∷ []) (first_prediction-one window horizon 1 y room ahead one)
        (first_prediction-one window horizon 0 x room ahead one)
