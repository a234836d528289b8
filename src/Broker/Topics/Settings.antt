-- ===== src/Broker/Topics/Settings.antt =====
-- What `ApplyConfig` changes, and what it does not.
use nya_queue.Prelude.{
  ◌≡◌, inl, inr, refl, sym, ap, ◌∙◌, subst, Bool-cases, Bool, true, false, ◌&&◌, Option, arith,
  if◌then◌else◌,
}
use nya_queue.Prelude.Int.{ℤ, pos, negsuc}
use nya_queue.Codec.{new_codec}
use nya_queue.OffsetStore.{OffsetStore}
use nya_queue.Config.{Config, SyncPolicy, eq_ℤ, same_policy, same_config, meets, config_rules}
use nya_queue.Broker.{Parts, Result, ok, err, invalid_config, Broker, Float, pool_size, new_broker}
use nya_queue.Broker.Topics.{apply_config}

and_true : (a b : Bool) → (a && b) ≡ true → (a ≡ true) × (b ≡ true)
and_true true true e = (refl, refl)
and_true true false e = absurd (ground (arith, e))
and_true false b e = absurd (ground (arith, e))

eq_ℤ-eq : (a b : ℤ) → eq_ℤ a b ≡ true → a ≡ b
eq_ℤ-eq (pos a) (pos b) e = ap pos {x = a} {y = b} (ground (arith, e))
eq_ℤ-eq (negsuc a) (negsuc b) e = ap negsuc {x = a} {y = b} (ground (arith, e))
eq_ℤ-eq (pos a) (negsuc b) e = absurd (ground (arith, e))
eq_ℤ-eq (negsuc a) (pos b) e = absurd (ground (arith, e))

same_policy-eq : (a b : SyncPolicy) → same_policy a b ≡ true → a ≡ b
same_policy-eq SyncPolicy.every_write SyncPolicy.every_write e = refl
same_policy-eq SyncPolicy.interval SyncPolicy.interval e = refl
same_policy-eq SyncPolicy.none_ SyncPolicy.none_ e = refl
same_policy-eq SyncPolicy.every_write SyncPolicy.interval e = absurd (ground (arith, e))
same_policy-eq SyncPolicy.every_write SyncPolicy.none_ e = absurd (ground (arith, e))
same_policy-eq SyncPolicy.interval SyncPolicy.every_write e = absurd (ground (arith, e))
same_policy-eq SyncPolicy.interval SyncPolicy.none_ e = absurd (ground (arith, e))
same_policy-eq SyncPolicy.none_ SyncPolicy.every_write e = absurd (ground (arith, e))
same_policy-eq SyncPolicy.none_ SyncPolicy.interval e = absurd (ground (arith, e))

-- The comparison of configurations tells them apart.
pub same_config-eq : (c d : Config) → same_config c d ≡ true → c ≡ d
unfolding same_config
same_config-eq c d h0 =
    let (h1, e22) = and_true _ _ h0 in
    let (h2, e21) = and_true _ _ h1 in
    let (h3, e20) = and_true _ _ h2 in
    let (h4, e19) = and_true _ _ h3 in
    let (h5, e18) = and_true _ _ h4 in
    let (h6, e17) = and_true _ _ h5 in
    let (h7, e16) = and_true _ _ h6 in
    let (h8, e15) = and_true _ _ h7 in
    let (h9, e14) = and_true _ _ h8 in
    let (h10, e13) = and_true _ _ h9 in
    let (h11, e12) = and_true _ _ h10 in
    let (h12, e11) = and_true _ _ h11 in
    let (h13, e10) = and_true _ _ h12 in
    let (h14, e9) = and_true _ _ h13 in
    let (h15, e8) = and_true _ _ h14 in
    let (h16, e7) = and_true _ _ h15 in
    let (h17, e6) = and_true _ _ h16 in
    let (h18, e5) = and_true _ _ h17 in
    let (h19, e4) = and_true _ _ h18 in
    let (h20, e3) = and_true _ _ h19 in
    let (h21, e2) = and_true _ _ h20 in
    let (h22, e1) = and_true _ _ h21 in
    λ i. record {
      segment_max_bytes = eq_ℤ-eq c.segment_max_bytes d.segment_max_bytes h22 i;
      segment_max_count = eq_ℤ-eq c.segment_max_count d.segment_max_count e1 i;
      retention_max_bytes = eq_ℤ-eq c.retention_max_bytes d.retention_max_bytes e2 i;
      retention_max_age = eq_ℤ-eq c.retention_max_age d.retention_max_age e3 i;
      flush_interval_ms = eq_ℤ-eq c.flush_interval_ms d.flush_interval_ms e4 i;
      sync_policy = same_policy-eq c.sync_policy d.sync_policy e5 i;
      compression_type = eq_ℤ-eq c.compression_type d.compression_type e6 i;
      max_connections = eq_ℤ-eq c.max_connections d.max_connections e7 i;
      recv_buffer_bytes = eq_ℤ-eq c.recv_buffer_bytes d.recv_buffer_bytes e8 i;
      send_buffer_bytes = eq_ℤ-eq c.send_buffer_bytes d.send_buffer_bytes e9 i;
      max_message_bytes = eq_ℤ-eq c.max_message_bytes d.max_message_bytes e10 i;
      read_timeout_ms = eq_ℤ-eq c.read_timeout_ms d.read_timeout_ms e11 i;
      write_timeout_ms = eq_ℤ-eq c.write_timeout_ms d.write_timeout_ms e12 i;
      num_network_goroutines = eq_ℤ-eq c.num_network_goroutines d.num_network_goroutines e13 i;
      num_io_goroutines = eq_ℤ-eq c.num_io_goroutines d.num_io_goroutines e14 i;
      max_queued_requests = eq_ℤ-eq c.max_queued_requests d.max_queued_requests e15 i;
      batch_size = eq_ℤ-eq c.batch_size d.batch_size e16 i;
      batch_memory_bytes = eq_ℤ-eq c.batch_memory_bytes d.batch_memory_bytes e17 i;
      linger_ms = eq_ℤ-eq c.linger_ms d.linger_ms e18 i;
      fetch_min_bytes = eq_ℤ-eq c.fetch_min_bytes d.fetch_min_bytes e19 i;
      fetch_max_wait_ms = eq_ℤ-eq c.fetch_max_wait_ms d.fetch_max_wait_ms e20 i;
      max_fetch_bytes = eq_ℤ-eq c.max_fetch_bytes d.max_fetch_bytes e21 i;
      consumer_session_timeout_ms =
          eq_ℤ-eq c.consumer_session_timeout_ms d.consumer_session_timeout_ms e22 i;
    }

module _ (x : Parts) where
  -- The codec and the pool are those of the configuration.
  pub record IsConsistent (b : Broker x) : Type 0 where
    pub codec : b.codec ≡ new_codec x.compressors b.config.compression_type
    pub slots : b.io_slots ≡ pool_size x b.config.num_io_goroutines

  pub new_broker-IsConsistent :
      (threshold : Float x) (cfg : Config) (bal : x.BalancerState)
      (s : Option (OffsetStore x.badger))
      → IsConsistent (new_broker x threshold cfg bal s)
  unfolding new_broker
  new_broker-IsConsistent threshold cfg bal s = record { codec = refl; slots = refl }

  if-eq {ℓ} :
      {A B : Type ℓ} (f : A → B) (same : Bool) (b : B) (a c : A)
      → (same ≡ true → a ≡ c)
      → b ≡ f c
      → (if same then b else f a) ≡ f a
  if-eq f true b a c h e = e ∙ ap f (sym (h refl))
  if-eq f false b a c h e = refl

  -- By its result, what `ApplyConfig` leaves.
  abbrev pub Applied : Broker x → Broker x → Config → Result (Unit {0}) → Type 0
  Applied b b' cfg (err e) = (meets cfg config_rules ≡ false) × (b' ≡ b)
  Applied b b' cfg (ok _) =
      (meets cfg config_rules ≡ true)
      × (b'.config ≡ cfg)
      × (b'.codec ≡ new_codec x.compressors cfg.compression_type)
      × (b'.io_slots ≡ pool_size x cfg.num_io_goroutines)
      × (b'.topics ≡ b.topics)
      × (b'.schedulers ≡ b.schedulers)

  apply_config-rejects :
      (b : Broker x) (cfg : Config)
      → meets cfg config_rules ≡ false
      → apply_config x b cfg ≡ (err invalid_config, b)
  unfolding apply_config
  apply_config-rejects b cfg e = ground (arith, e)

  apply_config-skips :
      (b : Broker x) (cfg : Config)
      → meets cfg config_rules ≡ true
      → same_config b.config cfg ≡ true
      → apply_config x b cfg ≡ (ok tt, b)
  unfolding apply_config
  apply_config-skips b cfg e same = ground (arith, e, same)

  changed : Broker x → Config → Broker x
  changed b cfg = record b {
    config = cfg;
    codec =
        if eq_ℤ cfg.compression_type b.config.compression_type
        then b.codec
        else new_codec x.compressors cfg.compression_type;
    io_slots =
        if eq_ℤ cfg.num_io_goroutines b.config.num_io_goroutines
        then b.io_slots
        else pool_size x cfg.num_io_goroutines;
  }

  apply_config-changes :
      (b : Broker x) (cfg : Config)
      → meets cfg config_rules ≡ true
      → same_config b.config cfg ≡ false
      → apply_config x b cfg ≡ (ok tt, changed b cfg)
  unfolding apply_config changed
  apply_config-changes b cfg e other = ground (arith, e, other)

  changed-Applied :
      (b : Broker x) (cfg : Config)
      → IsConsistent b
      → meets cfg config_rules ≡ true
      → Applied b (changed b cfg) cfg (ok tt)
  unfolding changed
  changed-Applied b cfg v e = (
    e,
    refl,
    if-eq (new_codec x.compressors) (eq_ℤ cfg.compression_type b.config.compression_type) b.codec
        cfg.compression_type b.config.compression_type (eq_ℤ-eq _ _) v.codec,
    if-eq (pool_size x) (eq_ℤ cfg.num_io_goroutines b.config.num_io_goroutines) b.io_slots
        cfg.num_io_goroutines b.config.num_io_goroutines (eq_ℤ-eq _ _) v.slots,
    refl,
    refl,
  )

  skipped-Applied :
      (b : Broker x) (cfg : Config)
      → IsConsistent b
      → meets cfg config_rules ≡ true
      → same_config b.config cfg ≡ true
      → Applied b b cfg (ok tt)
  skipped-Applied b cfg v e same =
      let eq = same_config-eq b.config cfg same in
      (
        e,
        eq,
        v.codec ∙ ap (λ (c : Config). new_codec x.compressors c.compression_type) eq,
        v.slots ∙ ap (λ (c : Config). pool_size x c.num_io_goroutines) eq,
        refl,
        refl,
      )

  -- Let the codec and the pool of a broker be those of its configuration, as they are in a new
  -- broker. `ApplyConfig` returns an error exactly for a configuration that `Validate` rejects, and
  -- then changes nothing. Otherwise the configuration is the new one, and the codec and the pool are
  -- again those of it; topics, and with them the codecs that their partitions read batches with, and
  -- schedulers stay as they are.
  pub apply_config-Applied :
      (b : Broker x) (cfg : Config)
      → IsConsistent b
      → Applied b (apply_config x b cfg).1 cfg (apply_config x b cfg).0
  apply_config-Applied b cfg v = elim (Bool-cases (meets cfg config_rules)) [
    | inr e ↦
        subst (λ (o : Result (Unit {0}) × Broker x). Applied b o.1 cfg o.0)
          (sym (apply_config-rejects b cfg e)) (e, refl)
    | inl e ↦ elim (Bool-cases (same_config b.config cfg)) [
      | inl same ↦
          subst (λ (o : Result (Unit {0}) × Broker x). Applied b o.1 cfg o.0)
            (sym (apply_config-skips b cfg e same)) (skipped-Applied b cfg v e same)
      | inr other ↦
          subst (λ (o : Result (Unit {0}) × Broker x). Applied b o.1 cfg o.0)
            (sym (apply_config-changes b cfg e other)) (changed-Applied b cfg v e)
    ]
  ]
