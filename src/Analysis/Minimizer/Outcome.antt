-- ===== src/Analysis/Minimizer/Outcome.antt =====
-- What a round of the loop may do: take a smaller list that shows the regression, refine the
-- chunks, or stop, and then no element can be spared.
use mathlib.Core.List.{Sublist}
use sentinel_hft.Prelude.{
  ℕ, zero, suc, ◌+◌, ◌≤◌, ◌<◌, ◌≡◌, refl, ap, subst, ◌⊎◌, Bool, false, none, List, [], ◌∷◌, length,
  arith, ltb, Bool-cases, Option-cases, inl, inr,
}
use sentinel_hft.Prelude.Reads.{reads, reads_from, concat}
use sentinel_hft.Analysis.Minimizer.{
  Search, Round, next, stop, chunk_size, chunks_of, complement, is_smaller, find_chunk,
  find_complement, refine, try_complements, try_chunks, round,
}
use sentinel_hft.Analysis.Minimizer.Chunks.{
  IsChunk, IsSmaller, chunk_size-lt, chunk_size_one, chunks_of-IsChunk, concat-chunks_of,
  complement-sublist, length-complement, find_chunk_found, find_complement_found,
  find_complement-none,
}

module _ {ℓ} {A : Type ℓ} where
  -- The list without its element at index i.
  abbrev pub remove : ℕ → List A → List A
  remove i [] = []
  remove zero (x ∷ xs) = xs
  remove (suc i) (x ∷ xs) = x ∷ remove i xs

  concat_ones : (k : ℕ) (xs : List A) → length xs ≤ k → concat (reads_from k 1 xs) ≡ xs
  unfolding reads_from
  concat_ones zero [] h = refl
  concat_ones zero (x ∷ xs) h = absurd (omega arith)
  concat_ones (suc k) [] h = refl
  concat_ones (suc k) (x ∷ xs) h = ap (λ l. x ∷ l) (concat_ones k xs (omega arith))

  remove_ones :
      (k i : ℕ) (xs : List A) → length xs ≤ k → complement i (reads_from k 1 xs) ≡ remove i xs
  unfolding reads_from complement
  remove_ones zero i [] h = refl
  remove_ones zero i (x ∷ xs) h = absurd (omega arith)
  remove_ones (suc k) i [] h = refl
  remove_ones (suc k) zero (x ∷ xs) h = concat_ones k xs (omega arith)
  remove_ones (suc k) (suc i) (x ∷ xs) h = ap (λ l. x ∷ l) (remove_ones k i xs (omega arith))

  length_ones : (k : ℕ) (xs : List A) → length xs ≤ k → length (reads_from k 1 xs) ≡ length xs
  unfolding reads_from
  length_ones zero [] h = refl
  length_ones zero (x ∷ xs) h = absurd (omega arith)
  length_ones (suc k) [] h = refl
  length_ones (suc k) (x ∷ xs) h = ap suc (length_ones k xs (omega arith))

  pub length-remove : (i : ℕ) (xs : List A) → i < length xs → length (remove i xs) + 1 ≡ length xs
  length-remove i [] h = absurd (omega arith)
  length-remove zero (x ∷ xs) h = omega arith
  length-remove (suc i) (x ∷ xs) h = omega (arith, length-remove i xs (omega arith))

module _ {ℓ} {A : Type ℓ} (check : List A → Bool) (min_size : ℕ) where
  -- No element can be removed without losing the regression.
  abbrev pub IsOneMinimal : List A → Type 0
  IsOneMinimal xs = (i : ℕ) → i < length xs → check (remove i xs) ≡ false

  abbrev pub IsMinimal : List A → Type 0
  IsMinimal xs = (length xs ≤ min_size) ⊎ IsOneMinimal xs

  pub data Outcome (s : Search A) : Round A → Type ℓ where
    smaller :
        (c : List A) (m : ℕ)
        → Sublist c s.current
        → length c < length s.current
        → IsSmaller check min_size c
        → 2 ≤ m
        → m ≤ s.n
        → Outcome s (next (record { current = c; n = m; iterations = s.iterations + 1 }))
    finer :
        (m : ℕ)
        → s.n < m
        → m ≤ length s.current
        → Outcome s (next (record { current = s.current; n = m; iterations = s.iterations + 1 }))
    done :
        IsOneMinimal s.current
        → Outcome s (stop (record { current = s.current; n = s.n; iterations = s.iterations + 1 }))

  spared :
      (s : Search A) (i : ℕ)
      → min_size < length s.current
      → length s.current ≤ s.n
      → find_complement check min_size
          (chunks_of s.n s.current)
          0
          (length (chunks_of s.n s.current))
        ≡ none
      → i < length s.current
      → check (remove i s.current) ≡ false
  unfolding chunks_of reads
  spared s i large fine e h =
      let xs = s.current in
      let one = chunk_size_one (length xs) s.n fine in
      let ones = λ (size : ℕ). reads_from (length xs) size xs in
      let none_found =
        subst
          (λ (size : ℕ). find_complement check min_size (ones size) 0 (length (ones size)) ≡ none)
          one e in
      let refused =
        find_complement-none check min_size (ones 1) 0 (length (ones 1)) i none_found (omega arith)
          (omega (arith, length_ones (length xs) xs (omega arith), h)) in
      let without = remove_ones (length xs) i xs (omega arith) in
      let refused' = subst (λ (l : List A). is_smaller check min_size l ≡ false) without refused in
      ground (arith, length-remove i xs h)

  refine-Outcome :
      (s : Search A)
      → 2 ≤ s.n
      → (length s.current ≤ s.n → IsOneMinimal s.current)
      → Outcome s (refine (record s { iterations = s.iterations + 1 }))
  unfolding refine
  refine-Outcome s two minimal = elim (Bool-cases (ltb s.n (length s.current))) [
    | inl coarse ↦ rw coarse (finer _ (ground arith) (ground arith))
    | inr fine ↦ rw fine (done (minimal (ground arith)))
  ]

  pub round-Outcome :
      (s : Search A)
      → 1 ≤ min_size
      → min_size < length s.current
      → 2 ≤ s.n
      → Outcome s (round check min_size s)
  unfolding round try_chunks try_complements
  round-Outcome s one large two =
      let xs = s.current in
      let cs = chunks_of s.n xs in
      let size = chunk_size (length xs) s.n in
      let parts = chunks_of-IsChunk s.n xs (omega arith) two in
      let whole = concat-chunks_of s.n xs (omega arith) two in
      let short = (chunk_size-lt (length xs) s.n (omega arith) two).1 in
      elim (Option-cases (find_chunk check min_size cs)) [
        | inr (c, found) ↦
            let (chunk, small) =
              find_chunk_found check min_size (IsChunk size xs) cs c parts found in
            rw (round, try_chunks, found)
              (smaller c 2 chunk.part (omega (arith, chunk.bounded, short)) small (omega arith) two)
        | inl missing ↦ elim (Option-cases (find_complement check min_size cs 0 (length cs))) [
          | inr (c, found) ↦
              let (j, lt, same, small) =
                find_complement_found check min_size cs 0 (length cs) c found in
              let part =
                subst (λ l. Sublist c l) whole
                  (subst (λ l. Sublist l (concat cs)) same (complement-sublist j cs)) in
              let shorter = length-complement j size xs cs (omega arith) parts in
              rw (round, try_chunks, missing, try_complements, found)
                (smaller c _ part (omega (arith, shorter, ap length same, ap length whole)) small
                  (ground arith) (ground arith))
          | inl none_found ↦
              rw (round, try_chunks, missing, try_complements, none_found)
                (refine-Outcome s two (λ fine i h. spared s i large fine none_found h))
        ]
      ]
