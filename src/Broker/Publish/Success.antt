-- ===== src/Broker/Publish/Success.antt =====
-- What a publish has done that succeeds.
use nya_queue.Prelude.{
  ℕ, ◌≡◌, inl, inr, sym, ap, ap₂, ◌∙◌, subst, Bool-cases, Option-cases, some, List, arith, set,
}
use nya_queue.Prelude.Int.{pos}
use nya_queue.Message.{Message}
use nya_queue.Partition
use nya_queue.Partition.{Result-cases, Partition, Clock}
use nya_queue.Partition.Methods.{append}
use nya_queue.OffsetStore.{Key, lookup, insert}
use nya_queue.Topic.{Topic, get_partition}
use nya_queue.Broker.{Parts, Error, Result, ok, err, append_failed, Broker, Float, put_partition}
use nya_queue.Broker.Publish.{
  is_too_large, compress_message, produced_at, Published, record_produce, complete, publish_to,
  publish_in, publish,
}
use nya_queue.Broker.Publish.Refusals.{
  is_refused-kept, selected, verdict, publish-known, publish_in-some, publish-too_large,
  publish-not_packed, publish-unknown, publish_in-refused, publish_in-none,
}

ok-inj : {A : Type 0} {a b : A} → ◌≡◌ {A = Result A} (ok a) (ok b) → a ≡ b
ok-inj e = cc

module _ (x : Parts) where
  open x use {wal}

  module _ (pool : ℕ → List ℕ) (clock : Clock) (now : ℕ) (b : Broker x) (name : List ℕ)
      (m : Message) where
    pub record Success (part offset : ℕ) (after : Broker x) : Type 0 where
      pub packed : Message
      pub compressed : compress_message m b.codec ≡ some packed
      pub topic : Topic wal (Float x)
      pub known : lookup b.topics name ≡ some topic
      pub old : Partition wal.Log
      pub in_range : get_partition wal (Float x) topic (pos part) ≡ some old
      pub appended : (append wal pool clock old (produced_at now packed)).0 ≡ Partition.ok offset
      pub topics :
          after.topics
          ≡ insert b.topics name (record topic {
            partitions =
                set topic.partitions part (append wal pool clock old (produced_at now packed)).1;
          })
      pub schedulers : after.schedulers ≡ b.schedulers
      pub codec : after.codec ≡ b.codec

    abbrev put :
        Broker x → Topic wal (Float x) → ℕ → Partition wal.Log → List (Key × Topic wal (Float x))
    put c t part p = insert c.topics name (record t { partitions = set t.partitions part p })

    publish_to-ok :
        (c : Broker x) (t : Topic wal (Float x)) (part : ℕ) (p : Partition wal.Log)
        (packed : Message) (o : ℕ)
        → (append wal pool clock p (produced_at now packed)).0 ≡ Partition.ok o
        → let out = publish_to x pool clock now c name t part p packed in
          (out.result ≡ ok (part, o))
          × (out.broker.topics ≡ put c t part (append wal pool clock p (produced_at now packed)).1)
          × (out.broker.schedulers ≡ c.schedulers)
          × (out.broker.codec ≡ c.codec)
    unfolding publish_to complete record_produce put_partition
    publish_to-ok c t part p packed o e = ground (arith, e)

    publish_to-err :
        (c : Broker x) (t : Topic wal (Float x)) (part : ℕ) (p : Partition wal.Log)
        (packed : Message) (er : Partition.Error)
        → (append wal pool clock p (produced_at now packed)).0 ≡ Partition.err er
        → (publish_to x pool clock now c name t part p packed).result ≡ err (append_failed er)
    unfolding publish_to
    publish_to-err c t part p packed er e = ground (arith, e)

    -- An error is not a success.
    refused : {a : ℕ × ℕ} {e : Error} → ◌≡◌ {A = Result (ℕ × ℕ)} (err e) (ok a) → ⊥
    refused h = ground (arith, h)

    to-Success :
        (part offset : ℕ) (t : Topic wal (Float x)) (packed : Message) (p : Partition wal.Log)
        → compress_message m b.codec ≡ some packed
        → lookup b.topics name ≡ some t
        → get_partition wal (Float x) t (pos (selected x b name t packed).0) ≡ some p
        → let out =
            publish_to x pool clock now
              (verdict x b name t packed).1
              name
              t
              (selected x b name t packed).0
              p
              packed in
          out.result ≡ ok (part, offset) → Success part offset out.broker
    to-Success part offset t packed p h k at e =
        elim (Result-cases (append wal pool clock p (produced_at now packed)).0) [
          | inl (er, f) ↦ absurd (refused (sym (publish_to-err checked t chosen p packed er f) ∙ e))
          | inr (o, f) ↦
              let done = publish_to-ok checked t chosen p packed o f in
              let same = ok-inj (sym done.0 ∙ e) in
              let place : chosen ≡ part = ap (λ (q : ℕ × ℕ). q.0) same in
              record {
                packed = packed;
                compressed = h;
                topic = t;
                known = k;
                old = p;
                in_range = subst (λ i. get_partition wal (Float x) t (pos i) ≡ some p) place at;
                appended = f ∙ ap Partition.ok (ap (λ (q : ℕ × ℕ). q.1) same);
                topics =
                    done.1
                    ∙ ap₂
                        (λ ts i. insert ts name (record t {
                          partitions =
                              set t.partitions i
                                (append wal pool clock p (produced_at now packed)).1;
                        }))
                        kept.1 place;
                schedulers = done.2 ∙ kept.2;
                codec = done.3 ∙ kept.3;
              }
        ]
      where
        chosen : ℕ
        chosen = (selected x b name t packed).0

        checked : Broker x
        checked = (verdict x b name t packed).1

        kept :
            (checked.balancer ≡ (selected x b name t packed).1)
            × (checked.topics ≡ b.topics)
            × (checked.schedulers ≡ b.schedulers)
            × (checked.codec ≡ b.codec)
        kept =
            let r =
              is_refused-kept x (record b { balancer = (selected x b name t packed).1 }) chosen in
            (r.0, r.1, r.2, r.3)

    abbrev result : Published x → Result (ℕ × ℕ)
    result out = out.result

    abbrev Claim : ℕ → ℕ → Published x → Type 0
    Claim part offset out = out.result ≡ ok (part, offset) → Success part offset out.broker

    in-Claim :
        (part offset : ℕ) (t : Topic wal (Float x)) (packed : Message)
        → compress_message m b.codec ≡ some packed
        → lookup b.topics name ≡ some t
        → Claim part offset (publish_in x pool clock now b name t packed)
    in-Claim part offset t packed h k = elim (Bool-cases (verdict x b name t packed).0) [
      | inl closed ↦ λ r. absurd (
          refused
            (sym (ap result (publish_in-refused x pool clock now b name t packed closed)) ∙ r))
      | inr passed ↦
          elim (Option-cases (get_partition wal (Float x) t (pos (selected x b name t packed).0))) [
            | inl at ↦ λ r. absurd (
                refused (
                  sym (ap result (publish_in-none x pool clock now b name t packed passed at)) ∙ r))
            | inr (p, at) ↦
                subst (Claim part offset)
                  (sym (publish_in-some x pool clock now b name t packed p passed at))
                  (to-Success part offset t packed p h k at)
          ]
    ]

    pub publish-Success :
        (part offset : ℕ)
        → (publish x pool clock now b name m).result ≡ ok (part, offset)
        → Success part offset (publish x pool clock now b name m).broker
    publish-Success part offset = elim (Bool-cases (is_too_large b.config m)) [
      | inl e ↦ λ h.
          absurd (refused (sym (ap result (publish-too_large x pool clock now b name m e)) ∙ h))
      | inr e ↦ elim (Option-cases (compress_message m b.codec)) [
        | inl h ↦ λ r.
            absurd
              (refused (sym (ap result (publish-not_packed x pool clock now b name m e h)) ∙ r))
        | inr (packed, h) ↦ elim (Option-cases (lookup b.topics name)) [
          | inl k ↦ λ r. absurd (
              refused
                (sym (ap result (publish-unknown x pool clock now b name m packed e h k)) ∙ r))
          | inr (t, k) ↦
              subst (Claim part offset)
                (sym (publish-known x pool clock now b name m packed t e h k))
                (in-Claim part offset t packed h k)
        ]
      ]
    ]
