-- ===== src/Prelude/Elems.antt =====
-- The elements of appended and mapped lists.
use nya_queue.Prelude.{
  ℕ, zero, suc, ◌+◌, ◌<◌, ◌≡◌, refl, ap, ◌∙◌, subst, Option, some, List, [], ◌∷◌, ◌++◌, arith, map,
  get_elem?, length, All, get_or, set, ◌⊎◌, ◌≢◌, inl, inr,
}

module _ {ℓ} {A : Type ℓ} where
  pub some-inj : {x y : A} → ◌≡◌ {A = Option A} (some x) (some y) → x ≡ y
  some-inj e = cc

  pub get_elem?-append_left :
      (xs ys : List A) (i : ℕ) → i < length xs → get_elem? (xs ++ ys) i ≡ get_elem? xs i
  get_elem?-append_left [] ys i h = absurd (omega arith)
  get_elem?-append_left (x ∷ xs) ys zero h = refl
  get_elem?-append_left (x ∷ xs) ys (suc i) h = get_elem?-append_left xs ys i (omega arith)

  pub get_elem?-append_right :
      (xs ys : List A) (i : ℕ) → get_elem? (xs ++ ys) (length xs + i) ≡ get_elem? ys i
  get_elem?-append_right [] ys i = ap (get_elem? ys) (omega arith)
  get_elem?-append_right (x ∷ xs) ys i =
      ap (get_elem? (x ∷ (xs ++ ys))) {x = suc (length xs) + i} {y = suc (length xs + i)}
        (omega arith)
      ∙ get_elem?-append_right xs ys i

  pub get_elem?-lt : (xs : List A) (i : ℕ) (x : A) → get_elem? xs i ≡ some x → i < length xs
  get_elem?-lt [] i x e = cc
  get_elem?-lt (y ∷ xs) zero x e = omega arith
  get_elem?-lt (y ∷ xs) (suc i) x e = omega (arith, get_elem?-lt xs i x e)

  -- Within the bounds there is an element.
  pub get_elem?-total : (xs : List A) (i : ℕ) → i < length xs → (x : A) × (get_elem? xs i ≡ some x)
  get_elem?-total [] i h = absurd (omega arith)
  get_elem?-total (x ∷ xs) zero h = (x, refl)
  get_elem?-total (x ∷ xs) (suc i) h = get_elem?-total xs i (omega arith)

  pub All-get_elem? :
      (P : A → Type 0) (xs : List A) (i : ℕ) (x : A) → All P xs → get_elem? xs i ≡ some x → P x
  All-get_elem? P [] i x v e = cc
  All-get_elem? P (y ∷ xs) zero x v e = subst P (some-inj e) v.0
  All-get_elem? P (y ∷ xs) (suc i) x v e = All-get_elem? P xs i x v.1 e

  pub get_or-get_elem? :
      (xs : List A) (i : ℕ) (x d : A) → get_elem? xs i ≡ some x → get_or xs i d ≡ x
  get_or-get_elem? [] i x d e = cc
  get_or-get_elem? (y ∷ xs) zero x d e = some-inj e
  get_or-get_elem? (y ∷ xs) (suc i) x d e = get_or-get_elem? xs i x d e

  pub All-imp : (P Q : A → Type 0) (xs : List A) → ((x : A) → P x → Q x) → All P xs → All Q xs
  All-imp P Q [] h v = tt
  All-imp P Q (x ∷ xs) h v = (h x v.0, All-imp P Q xs h v.1)

  -- An element after a write was written, or was there before.
  pub get_elem?-set :
      (xs : List A) (i k : ℕ) (v x : A)
      → get_elem? (set xs i v) k ≡ some x
      → ((k ≡ i) × (v ≡ x)) ⊎ ((k ≢ i) × (get_elem? xs k ≡ some x))
  get_elem?-set [] i k v x e = cc
  get_elem?-set (y ∷ xs) zero zero v x e = inl (refl, some-inj e)
  get_elem?-set (y ∷ xs) zero (suc k) v x e = inr (λ p. omega (arith, p), e)
  get_elem?-set (y ∷ xs) (suc i) zero v x e = inr (λ p. omega (arith, p), e)
  get_elem?-set (y ∷ xs) (suc i) (suc k) v x e = elim (get_elem?-set xs i k v x e) [
    | inl (at, same) ↦ inl (ap suc at, same)
    | inr (ne, old) ↦ inr (λ p. ne (omega (arith, p)), old)
  ]

module _ {ℓ} {A B : Type ℓ} where
  pub get_elem?-map-some :
      (f : A → B) (xs : List A) (i : ℕ) (x : A)
      → get_elem? xs i ≡ some x
      → get_elem? (map f xs) i ≡ some (f x)
  get_elem?-map-some f [] i x e = cc
  get_elem?-map-some f (y ∷ xs) zero x e = ap (λ t. some (f t)) (some-inj e)
  get_elem?-map-some f (y ∷ xs) (suc i) x e = get_elem?-map-some f xs i x e

  pub All-map :
      (P : A → Type 0) (Q : B → Type 0) (f : A → B) (xs : List A)
      → ((x : A) → P x → Q (f x))
      → All P xs
      → All Q (map f xs)
  All-map P Q f [] h v = tt
  All-map P Q f (x ∷ xs) h v = (h x v.0, All-map P Q f xs h v.1)
