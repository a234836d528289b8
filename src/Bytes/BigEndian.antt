-- ===== src/Bytes/BigEndian.antt =====
-- Big-endian numbers are read back as they were stored, and slices of appended parts.
use nya_queue.Prelude.{
  ℕ, zero, suc, ◌+◌, ◌*◌, ◌/◌, ◌%◌, ◌^◌, ◌≤◌, ◌<◌, ◌≡◌, refl, sym, ap, ap₂, ◌∙◌, List, [], ◌∷◌,
  ◌++◌, arith, take, drop, copy, length, length-snoc, append_assoc, subst, take-append, drop-append,
  copy-eq,
}
use native.Mathlib.Nat.{pow-suc}
use nya_queue.Bytes.{IsByte, AreBytes, be_bytes, be_value_from, be_value, slice, write_at}

pub length-be_bytes : (n x : ℕ) → length (be_bytes n x) ≡ n
unfolding be_bytes
length-be_bytes zero x = refl
length-be_bytes (suc n) x =
    omega (arith, length-be_bytes n (x / 256), length-snoc (be_bytes n (x / 256)) (x % 256))

All-append : (xs ys : List ℕ) → AreBytes xs → AreBytes ys → AreBytes (xs ++ ys)
All-append [] ys h k = k
All-append (x ∷ xs) ys (h, hs) k = (h, All-append xs ys hs k)

pub be_bytes-AreBytes : (n x : ℕ) → AreBytes (be_bytes n x)
unfolding be_bytes
be_bytes-AreBytes zero x = tt
be_bytes-AreBytes (suc n) x =
    All-append (be_bytes n (x / 256)) _ (be_bytes-AreBytes n (x / 256)) (omega arith, tt)

be_value_from-snoc :
    (acc : ℕ) (bs : List ℕ) (b : ℕ)
    → be_value_from acc (bs ++ (b ∷ [])) ≡ be_value_from acc bs * 256 + b
unfolding be_value_from
be_value_from-snoc acc [] b = refl
be_value_from-snoc acc (x ∷ bs) b = be_value_from-snoc (acc * 256 + x) bs b

pub be_value-be_bytes : (n x : ℕ) → x < 256 ^ n → be_value (be_bytes n x) ≡ x
unfolding be_value_from be_bytes
be_value-be_bytes zero x h = omega arith
be_value-be_bytes (suc n) x h =
    be_value_from-snoc 0 (be_bytes n (x / 256)) (x % 256)
    ∙ omega (arith, be_value-be_bytes n (x / 256) (omega (arith, pow-suc 256 n)))

-- A list that is not empty, taken apart at its end.
snoc_view :
    (n : ℕ) (bs : List ℕ)
    → length bs ≡ suc n
    → (front : List ℕ) × (b : ℕ) × (bs ≡ front ++ (b ∷ [])) × (length front ≡ n)
snoc_view n [] h = absurd (omega arith)
snoc_view zero (b ∷ []) h = ([], b, refl, refl)
snoc_view zero (b ∷ c ∷ bs) h = absurd (omega arith)
snoc_view (suc n) (b ∷ bs) h =
    let (front, c, e, l) = snoc_view n bs (omega arith) in
    (b ∷ front, c, ap (λ t. b ∷ t) e, ap suc l)

All-last : (xs : List ℕ) (b : ℕ) → AreBytes (xs ++ (b ∷ [])) → AreBytes xs × IsByte b
All-last [] b h = (tt, h.0)
All-last (x ∷ xs) b h = let r = All-last xs b h.1 in ((h.0, r.0), r.1)

pub be_bytes-be_value :
    (n : ℕ) (bs : List ℕ) → length bs ≡ n → AreBytes bs → be_bytes n (be_value bs) ≡ bs
unfolding be_bytes
be_bytes-be_value zero [] h k = refl
be_bytes-be_value zero (b ∷ bs) h k = absurd (omega arith)
be_bytes-be_value (suc n) bs h k =
    let (front, b, e, l) = snoc_view n bs h in
    let parts = All-last front b (subst AreBytes e k) in
    let value = ap be_value e ∙ be_value_from-snoc 0 front b in
    ap₂ (λ x y. be_bytes n x ++ (y ∷ [])) (omega (arith, value, parts.1))
      (omega (arith, value, parts.1))
    ∙ ap (λ x. x ++ (b ∷ [])) (be_bytes-be_value n front l parts.0)
    ∙ sym e

pub be_value-lt : (n : ℕ) (bs : List ℕ) → length bs ≡ n → AreBytes bs → be_value bs < 256 ^ n
unfolding be_value_from
be_value-lt zero [] h k = omega arith
be_value-lt zero (b ∷ bs) h k = absurd (omega arith)
be_value-lt (suc n) bs h k =
    let (front, b, e, l) = snoc_view n bs h in
    let parts = All-last front b (subst AreBytes e k) in
    let value = ap be_value e ∙ be_value_from-snoc 0 front b in
    omega (arith, value, parts.1, be_value-lt n front l parts.0, pow-suc 256 n)

-- A store right behind what is done leaves the rest of the buffer for the next one.
pub write_at-next :
    (done rest src : List ℕ) (off : ℕ)
    → off ≡ length done
    → length src ≤ length rest
    → write_at (done ++ rest) off src ≡ (done ++ src) ++ drop (length src) rest
unfolding write_at
write_at-next done rest src off e h =
    ap (λ k. take k (done ++ rest) ++ copy (drop k (done ++ rest)) src) e
    ∙ ap₂ (λ a b. a ++ copy b src) (take-append done rest) (drop-append done rest)
    ∙ ap (λ t. done ++ t) (copy-eq rest src h)
    ∙ sym (append_assoc done src (drop (length src) rest))

-- The slice of a part that stands between two others.
pub slice-append :
    (front part back : List ℕ) (off n : ℕ)
    → off ≡ length front
    → n ≡ length part
    → slice (front ++ (part ++ back)) off n ≡ part
slice-append front part back off n e h =
    ap₂ (λ k m. take m (drop k (front ++ (part ++ back)))) e h
    ∙ ap (take (length part)) (drop-append front (part ++ back))
    ∙ take-append part back
