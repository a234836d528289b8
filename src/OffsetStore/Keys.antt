-- ===== src/OffsetStore/Keys.antt =====
-- Keys of topics without a slash: no two topics, partitions and groups share one.
use nya_queue.Prelude.{
  ℕ, zero, suc, ◌+◌, ◌*◌, ◌-◌, ◌/◌, ◌%◌, ◌<◌, ◌≡◌, ◌≢◌, refl, sym, ap, ap₂, ◌∙◌, Bool-cases, inl,
  inr, List, [], ◌∷◌, ◌++◌, ltb, All, arith, some,
}
use nya_queue.EntryRing.{Time}
use nya_queue.OffsetStore.{Badger, OffsetStore, digits, decimal, bucket_key, commit, load}
use nya_queue.OffsetStore.Sessions.{load-commit}

-- The number that some digits spell, behind one that is read already.
unfoldable pub number_from : ℕ → List ℕ → ℕ
number_from n [] = n
number_from n (d ∷ ds) = number_from (n * 10 + (d - 48)) ds

number_from-append :
    (xs ys : List ℕ) (n : ℕ) → number_from n (xs ++ ys) ≡ number_from (number_from n xs) ys
unfolding number_from
number_from-append [] ys n = refl
number_from-append (x ∷ xs) ys n = number_from-append xs ys (n * 10 + (x - 48))

-- More rounds than the number are enough.
number_from-digits : (fuel n : ℕ) → n < fuel → number_from 0 (digits fuel n) ≡ n
unfolding number_from digits
number_from-digits zero n lt = absurd (omega arith)
number_from-digits (suc fuel) n lt = elim (Bool-cases (ltb n 10)) [
  | inl small ↦ ground (arith, small)
  | inr large ↦ ground (
    arith,
    large,
    number_from-append (digits fuel (n / 10)) ((48 + n % 10) ∷ []) 0,
    number_from-digits fuel (n / 10) (ground (arith, large)),
  )
]

abbrev pub HasNoSlash : List ℕ → Type 0
HasNoSlash name = All (λ c. c ≢ 47) name

All-append : (xs ys : List ℕ) → HasNoSlash xs → HasNoSlash ys → HasNoSlash (xs ++ ys)
All-append [] ys h k = k
All-append (x ∷ xs) ys h k = (h.0, All-append xs ys h.1 k)

head-eq : {x y : ℕ} {xs ys : List ℕ} → ◌≡◌ {A = List ℕ} (x ∷ xs) (y ∷ ys) → x ≡ y
head-eq e = cc

tail-eq : {x y : ℕ} {xs ys : List ℕ} → ◌≡◌ {A = List ℕ} (x ∷ xs) (y ∷ ys) → xs ≡ ys
tail-eq e = cc

-- What stands before the first slash, and behind it.
slash-split :
    (xs us ys vs : List ℕ)
    → HasNoSlash xs
    → HasNoSlash us
    → xs ++ (47 ∷ ys) ≡ us ++ (47 ∷ vs)
    → (xs ≡ us) × (ys ≡ vs)
slash-split [] [] ys vs h k e = (refl, tail-eq e)
slash-split [] (u ∷ us) ys vs h k e = absurd (k.0 (sym (head-eq e)))
slash-split (x ∷ xs) [] ys vs h k e = absurd (h.0 (head-eq e))
slash-split (x ∷ xs) (u ∷ us) ys vs h k e =
    let (front, back) = slash-split xs us ys vs h.1 k.1 (tail-eq e) in
    (ap₂ (λ c cs. c ∷ cs) (head-eq e) front, back)

digits-HasNoSlash : (fuel n : ℕ) → HasNoSlash (digits fuel n)
unfolding digits
digits-HasNoSlash zero n = tt
digits-HasNoSlash (suc fuel) n = elim (Bool-cases (ltb n 10)) [
  | inl small ↦ rw (small) ((λ e. omega (arith, e)), tt)
  | inr large ↦ rw (large) (
      All-append (digits fuel (n / 10)) ((48 + n % 10) ∷ []) (digits-HasNoSlash fuel (n / 10))
        ((λ e. omega (arith, e)), tt))
]

decimal-inj : (m n : ℕ) → decimal m ≡ decimal n → m ≡ n
decimal-inj m n e =
    sym (number_from-digits (m + 1) m (omega arith))
    ∙ ap (number_from 0) e
    ∙ number_from-digits (n + 1) n (omega arith)

bucket_key-inj :
    (topic topic' : List ℕ) (p p' : ℕ) (group group' : List ℕ)
    → HasNoSlash topic
    → HasNoSlash topic'
    → bucket_key topic p group ≡ bucket_key topic' p' group'
    → (topic ≡ topic') × (p ≡ p') × (group ≡ group')
unfolding bucket_key
bucket_key-inj topic topic' p p' group group' h k e =
    let (same, rest) = slash-split topic topic' _ _ h k e in
    let (number, behind) =
      slash-split (decimal p) (decimal p') group group' (digits-HasNoSlash (p + 1) p)
        (digits-HasNoSlash (p' + 1) p') rest in
    (same, decimal-inj p p' number, behind)

-- Let the names of two topics have no slash. After a `Commit` for the first, whether the write to the
-- database succeeds or not, `Load` for its group, topic and partition returns the offset, and `Load`
-- for the second topic returns what it did before, unless topic, partition and group are all the same.
pub load-commit_apart :
    (b : Badger) (s : OffsetStore b) (now : Time) (group topic group' topic' : List ℕ)
    (p p' offset : ℕ)
    → HasNoSlash topic
    → HasNoSlash topic'
    → let s' = (commit b s now group topic p offset).1 in
      (load b s' group topic p ≡ some offset)
      × (((topic ≡ topic') × (p ≡ p') × (group ≡ group') → ⊥)
          → load b s' group' topic' p' ≡ load b s group' topic' p')
load-commit_apart b s now group topic group' topic' p p' offset h k =
    let done = load-commit b s now group topic p offset in
    (
      done.0,
      λ ne. done.1 group' topic' p' (λ e. ne (bucket_key-inj topic topic' p p' group group' h k e)),
    )
