-- ===== src/Config/Tuning.antt =====
-- What the tuning of one parameter does to a configuration.
use nya_queue.Prelude.{
  ℕ, zero, suc, ◌≡◌, ◌+◌, subst, refl, true, none, some, List, [], ◌∷◌, arith, get_elem?, set, All,
}
use nya_queue.Prelude.Int.{ℤ, pos, ◌≤ℤ◌}
use nya_queue.Prelude.Elems.{some-inj}
use nya_queue.Config.{
  Config, Rule, Rounding, ParamRange, config_rules, meets, set_param_by_name, tunable_param_ranges,
}

-- The values of the parameters, in the order of their ranges.
unfoldable pub parameters : Config → List ℤ
parameters c =
    c.segment_max_bytes ∷ c.segment_max_count ∷ c.retention_max_bytes ∷ c.retention_max_age
    ∷ c.flush_interval_ms ∷ c.compression_type ∷ c.max_connections ∷ c.recv_buffer_bytes
    ∷ c.send_buffer_bytes ∷ c.max_message_bytes ∷ c.read_timeout_ms ∷ c.write_timeout_ms
    ∷ c.num_network_goroutines ∷ c.num_io_goroutines ∷ c.max_queued_requests ∷ c.batch_size
    ∷ c.batch_memory_bytes ∷ c.linger_ms ∷ c.fetch_min_bytes ∷ c.fetch_max_wait_ms
    ∷ c.max_fetch_bytes ∷ c.consumer_session_timeout_ms ∷ []

-- What a float sets the `i`-th parameter to.
unfoldable pub setting : (f : Rounding) → ℕ → f.Float → ℤ
setting f (suc (suc zero)) x = f.truncated x
setting f (suc (suc (suc zero))) x = f.truncated x
setting f i x = f.rounded x

abbrev AllFrom {ℓ κ} : {A : Type ℓ} → (ℕ → A → Type κ) → ℕ → List A → Type κ
AllFrom P i [] = Unit
AllFrom P i (x ∷ xs) = P i x × AllFrom P (suc i) xs

module _ (f : Rounding) where
  -- The name of a parameter sets that parameter and no other.
  abbrev Sets : ℕ → ParamRange → Type 0
  Sets i r =
      (c : Config) (x : f.Float)
      → (parameters (set_param_by_name f c r.name x) ≡ set (parameters c) i (setting f i x))
        × ((set_param_by_name f c r.name x).sync_policy ≡ c.sync_policy)

  every_one-Sets : AllFrom Sets 0 tunable_param_ranges
  unfolding tunable_param_ranges parameters setting set_param_by_name
  every_one-Sets = search tt

AllFrom-get_elem? {ℓ κ} :
    {A : Type ℓ} (P : ℕ → A → Type κ) (n : ℕ) (xs : List A) (i j : ℕ) (x : A)
    → AllFrom P n xs
    → get_elem? xs i ≡ some x
    → j ≡ n + i
    → P j x
AllFrom-get_elem? P n [] i j x h e at = absurd (ground (arith, e))
AllFrom-get_elem? P n (y ∷ xs) zero j x h e at =
    let same : n ≡ j = omega arith in subst (λ k. P k x) same (subst (P n) (some-inj e) h.0)
AllFrom-get_elem? P n (y ∷ xs) (suc i) j x h e at =
    AllFrom-get_elem? P (suc n) xs i j x h.1 e (omega arith)

-- The bounds of a rule, as a type.
abbrev Meets : Config → Rule → Type 0
Meets c r =
    (r.at_least ≤ℤ r.value c) × elim r.at_most [ none ↦ Unit {0} | some most ↦ r.value c ≤ℤ most ]

meets→All : (c : Config) (rs : List Rule) → meets c rs ≡ true → All (Meets c) rs
unfolding meets
meets→All c [] h = tt
meets→All c (r ∷ rs) h = ground (arith, h, meets→All c rs)

All→meets : (c : Config) (rs : List Rule) → All (Meets c) rs → meets c rs ≡ true
unfolding meets
All→meets c [] h = refl
All→meets c (r ∷ rs) h = ground (arith, h, All→meets c rs)

module _ (f : Rounding) where
  -- A float in a range becomes an integer in it.
  abbrev IsInRange : ParamRange → f.Float → Type 0
  IsInRange r x =
      (pos r.min ≤ℤ f.rounded x)
      × (f.rounded x ≤ℤ pos r.max)
      × (pos r.min ≤ℤ f.truncated x)
      × (f.truncated x ≤ℤ pos r.max)

  abbrev KeepsRules : ℕ → ParamRange → Type 0
  KeepsRules i r =
      (c : Config) (x : f.Float)
      → IsInRange r x
      → All (Meets c) config_rules
      → All (Meets (set_param_by_name f c r.name x)) config_rules

  every_one-KeepsRules : AllFrom KeepsRules 0 tunable_param_ranges
  unfolding tunable_param_ranges config_rules set_param_by_name
  every_one-KeepsRules = ground arith

  -- For every entry of `TunableParamRanges`, `SetParamByName` with the name of the entry sets the
  -- parameter at the same place of the list to the float, rounded or (for the two retention limits)
  -- truncated, and leaves the other 21 and the sync policy.
  pub set_param_by_name-parameters :
      (c : Config) (x : f.Float) (i : ℕ) (r : ParamRange)
      → get_elem? tunable_param_ranges i ≡ some r
      → (parameters (set_param_by_name f c r.name x) ≡ set (parameters c) i (setting f i x))
        × ((set_param_by_name f c r.name x).sync_policy ≡ c.sync_policy)
  set_param_by_name-parameters c x i r e =
      AllFrom-get_elem? (Sets f) 0 tunable_param_ranges i i r (every_one-Sets f) e (omega arith) c x

  -- A configuration that `Validate` accepts is accepted after `SetParamByName` with any name of
  -- `TunableParamRanges` and a float that becomes an integer in the range of that name: no tuning
  -- within the ranges breaks a rule.
  pub set_param_by_name-meets :
      (c : Config) (x : f.Float) (i : ℕ) (r : ParamRange)
      → get_elem? tunable_param_ranges i ≡ some r
      → IsInRange r x
      → meets c config_rules ≡ true
      → meets (set_param_by_name f c r.name x) config_rules ≡ true
  set_param_by_name-meets c x i r e within h =
      All→meets (set_param_by_name f c r.name x) config_rules (
        AllFrom-get_elem? KeepsRules 0 tunable_param_ranges i i r every_one-KeepsRules e
          (omega arith) c x within (meets→All c config_rules h))
