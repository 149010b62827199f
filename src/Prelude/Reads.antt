-- ===== src/Prelude/Reads.antt =====
-- `f.read(n)` in a loop: the successive buffers of at most n bytes that a file of the given bytes
-- returns before the empty one, and the slices `xs[i:i + n]` of any list for i in
-- `range(0, len(xs), n)`. The fuel is the length: every read takes an element.
use sentinel_hft.Prelude.{
  ℕ, zero, suc, ◌≤◌, ◌<◌, ◌≡◌, refl, ap, ◌∙◌, List, [], ◌∷◌, ◌++◌, length, take, drop, arith,
  take-append-drop, length-drop, length-append, append_assoc,
}
use sentinel_hft.Prelude.Slices.{take-append, drop-append, take_all, drop_all}

module _ {ℓ} {A : Type ℓ} where
  abbrev pub concat : List (List A) → List A
  concat [] = []
  concat (x ∷ xs) = x ++ concat xs

  unfoldable pub reads_from : ℕ → ℕ → List A → List (List A)
  reads_from zero n bs = []
  reads_from (suc k) n [] = []
  reads_from (suc k) n (b ∷ bs) = take n (b ∷ bs) ∷ reads_from k n (drop n (b ∷ bs))

  unfoldable pub reads : ℕ → List A → List (List A)
  unfolding reads_from
  reads n bs = reads_from (length bs) n bs

  -- The fuel is enough: the buffers make up the whole file.
  reads_from_all : (k n : ℕ) (bs : List A) → 0 < n → length bs ≤ k → concat (reads_from k n bs) ≡ bs
  unfolding reads_from
  reads_from_all zero n [] p h = refl
  reads_from_all zero n (b ∷ bs) p h = absurd (omega arith)
  reads_from_all (suc k) n [] p h = refl
  reads_from_all (suc k) n (b ∷ bs) p h =
      ap (λ l. take n (b ∷ bs) ++ l)
        (reads_from_all k n (drop n (b ∷ bs)) p (omega (arith, length-drop n (b ∷ bs))))
      ∙ take-append-drop n (b ∷ bs)

  pub concat-reads : (n : ℕ) (bs : List A) → 0 < n → concat (reads n bs) ≡ bs
  unfolding reads
  concat-reads n bs p = reads_from_all (length bs) n bs p (omega arith)

  abbrev pub AllLength : ℕ → List (List A) → Type 0
  AllLength n [] = Unit
  AllLength n (x ∷ xs) = (length x ≡ n) × AllLength n xs

  -- What a short rest of the file adds to the buffers.
  abbrev pub last_read : List A → List (List A)
  last_read [] = []
  last_read (b ∷ bs) = (b ∷ bs) ∷ []

  reads_from-last :
      (k n : ℕ) (bs : List A) → length bs < n → length bs ≤ k → reads_from k n bs ≡ last_read bs
  unfolding reads_from
  reads_from-last zero n [] lt h = refl
  reads_from-last zero n (b ∷ bs) lt h = absurd (omega arith)
  reads_from-last (suc k) n [] lt h = refl
  reads_from-last (suc k) n (b ∷ bs) lt h =
      rw (take_all n (b ∷ bs) (omega arith), drop_all n (b ∷ bs) (omega arith)) (nothing k)
    where
      nothing : (k : ℕ) → (b ∷ bs) ∷ reads_from k n [] ≡ (b ∷ bs) ∷ []
      nothing zero = refl
      nothing (suc k) = refl

  reads_from-concat :
      (k n : ℕ) (xs : List (List A)) (rest : List A)
      → length rest < n
      → AllLength n xs
      → length (concat xs ++ rest) ≤ k
      → reads_from k n (concat xs ++ rest) ≡ xs ++ last_read rest
  unfolding reads_from
  reads_from-concat k n [] rest p a h = reads_from-last k n rest p h
  reads_from-concat k n ([] ∷ xs) rest p a h = absurd (omega arith)
  reads_from-concat zero n ((b ∷ x) ∷ xs) rest p a h = absurd (omega arith)
  reads_from-concat (suc k) n ((b ∷ x) ∷ xs) rest p a h =
      rw
        (
          append_assoc,
          take-append n (b ∷ x) (concat xs ++ rest) a.0,
          drop-append n (b ∷ x) (concat xs ++ rest) a.0,
        )
        (ap (λ l. (b ∷ x) ∷ l) (reads_from-concat k n xs rest p a.1 fits))
    where
      fits : length (concat xs ++ rest) ≤ k
      fits =
          omega (
            arith,
            ap length (append_assoc x (concat xs) rest),
            length-append x (concat xs ++ rest),
          )

  -- A file of whole records is read back record by record; a shorter rest is the last buffer.
  pub reads-concat :
      (n : ℕ) (xs : List (List A)) (rest : List A)
      → length rest < n
      → AllLength n xs
      → reads n (concat xs ++ rest) ≡ xs ++ last_read rest
  unfolding reads
  reads-concat n xs rest p a = reads_from-concat _ n xs rest p a (omega arith)
