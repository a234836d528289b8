-- ===== src/OffsetStore/Maps.antt =====
-- What is found in a map after it has changed.
use nya_queue.Prelude.{
  ◌≡◌, ◌≢◌, refl, sym, ap₂, ◌∙◌, Bool-cases, inl, inr, true, none, some, List, [], ◌∷◌, arith,
}
use nya_queue.OffsetStore.{Key, same_key, lookup, insert, remove}

pub same_key-eq : (j k : Key) → same_key j k ≡ true → j ≡ k
unfolding same_key
same_key-eq [] [] e = refl
same_key-eq [] (y ∷ k) e = absurd (ground (arith, e))
same_key-eq (x ∷ j) [] e = absurd (ground (arith, e))
same_key-eq (x ∷ j) (y ∷ k) e =
    ap₂ ◌∷◌ {x = x} {y = y} (ground (arith, e)) (same_key-eq j k (ground (arith, e)))

pub same_key_refl : (k : Key) → same_key k k ≡ true
unfolding same_key
same_key_refl [] = refl
same_key_refl (x ∷ k) = ground (arith, same_key_refl k)

module _ {A : Type 0} where
  pub lookup-insert_same : (m : List (Key × A)) (k : Key) (v : A) → lookup (insert m k v) k ≡ some v
  unfolding lookup insert
  lookup-insert_same [] k v = ground (arith, same_key_refl k)
  lookup-insert_same ((j, u) ∷ m) k v = ground (arith, lookup-insert_same m k v)

  pub lookup-insert_other :
      (m : List (Key × A)) (k i : Key) (v : A) → k ≢ i → lookup (insert m k v) i ≡ lookup m i
  unfolding lookup insert
  lookup-insert_other [] k i v ne = elim (Bool-cases (same_key k i)) [
    | inl e ↦ absurd (ne (same_key-eq k i e))
    | inr e ↦ ground (arith, e)
  ]
  lookup-insert_other ((j, u) ∷ m) k i v ne = elim (Bool-cases (same_key j k)) [
    | inl e ↦ elim (Bool-cases (same_key j i)) [
      | inl e' ↦ absurd (ne (sym (same_key-eq j k e) ∙ same_key-eq j i e'))
      | inr e' ↦ ground (arith, e, e')
    ]
    | inr e ↦ ground (arith, e, lookup-insert_other m k i v ne)
  ]

  pub lookup-remove_same : (m : List (Key × A)) (k : Key) → lookup (remove m k) k ≡ none
  unfolding lookup remove
  lookup-remove_same [] k = refl
  lookup-remove_same ((j, u) ∷ m) k = ground (arith, lookup-remove_same m k)

  pub lookup-remove_other :
      (m : List (Key × A)) (k i : Key) → k ≢ i → lookup (remove m k) i ≡ lookup m i
  unfolding lookup remove
  lookup-remove_other [] k i ne = refl
  lookup-remove_other ((j, u) ∷ m) k i ne = elim (Bool-cases (same_key j k)) [
    | inl e ↦ elim (Bool-cases (same_key j i)) [
      | inl e' ↦ absurd (ne (sym (same_key-eq j k e) ∙ same_key-eq j i e'))
      | inr e' ↦ ground (arith, e, e', lookup-remove_other m k i ne)
    ]
    | inr e ↦ ground (arith, e, lookup-remove_other m k i ne)
  ]
