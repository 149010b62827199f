-- ===== src/Analysis/Minimizer/Chunks.antt =====
-- The chunks of a list and their complements: their lengths, and that they are parts of the list.
use mathlib.Core.List.Sublist
use mathlib.Core.List.{Sublist, sublist-append_left, sublist-append_right}
use mathlib.Core.Option.{some-injective}
use native.Mathlib.Nat.{div-lt_self, div-le_of_le-mul}
use sentinel_hft.Prelude.{
  ℕ, zero, suc, ◌+◌, ◌/◌, ◌≤◌, ◌<◌, ◌≡◌, ◌==◌, subst, Bool, true, false, none, some, List, [], ◌∷◌,
  length, take, drop, arith, All, All-map, if_split, ltb, Bool-cases, inl, inr, take-append-drop,
  length-take, length-append, if◌then◌else◌,
}
use sentinel_hft.Prelude.Reads.{reads, reads_from, concat, concat-reads}
use sentinel_hft.Analysis.Minimizer.{
  chunk_size, chunks_of, complement, is_smaller, find_chunk, find_complement,
}

-- With two chunks or more, a chunk is not empty and shorter than the list.
pub chunk_size-lt :
    (len n : ℕ) → 2 ≤ len → 2 ≤ n → (0 < chunk_size len n) × (chunk_size len n < len)
chunk_size-lt len n h k =
    if_split (λ (c : ℕ). (0 < c) × (c < len)) (ltb 1 (len / n))
      (λ more. (ground arith, div-lt_self (omega arith) (omega arith)))
      (λ one. (omega arith, omega arith))

-- With as many chunks as elements, each is one element.
pub chunk_size_one : (len n : ℕ) → len ≤ n → chunk_size len n ≡ 1
chunk_size_one len n h =
    let small : len / n ≤ 1 = div-le_of_le-mul n (omega arith) in ground (arith, small)

module _ {ℓ} {A : Type ℓ} where
  -- A chunk of a list: a part of it, not empty, of at most this size.
  pub record IsChunk (size : ℕ) (xs c : List A) : Type ℓ where
    pub part : Sublist c xs
    pub filled : 0 < length c
    pub bounded : length c ≤ size

  take-sublist : (n : ℕ) (xs : List A) → Sublist (take n xs) xs
  take-sublist n xs =
      subst (λ l. Sublist (take n xs) l) (take-append-drop n xs)
        (sublist-append_left (take n xs) (drop n xs))

  drop-sublist : (n : ℕ) (xs : List A) → Sublist (drop n xs) xs
  drop-sublist n xs =
      subst (λ l. Sublist (drop n xs) l) (take-append-drop n xs)
        (sublist-append_right (take n xs) (drop n xs))

  reads_from-IsChunk :
      (k size : ℕ) (xs : List A) → 0 < size → All (IsChunk size xs) (reads_from k size xs)
  unfolding reads_from
  reads_from-IsChunk zero size xs p = tt
  reads_from-IsChunk (suc k) size [] p = tt
  reads_from-IsChunk (suc k) size (x ∷ xs) p = (
    record {
      part = take-sublist size (x ∷ xs);
      filled = omega (arith, length-take size (x ∷ xs));
      bounded = omega (arith, length-take size (x ∷ xs));
    },
    All-map
        (λ c (h : IsChunk size (drop size (x ∷ xs)) c). record {
          part = Sublist.trans h.part (drop-sublist size (x ∷ xs));
          filled = h.filled;
          bounded = h.bounded;
        })
        (reads_from k size (drop size (x ∷ xs))) (reads_from-IsChunk k size (drop size (x ∷ xs)) p),
  )

  pub chunks_of-IsChunk :
      (n : ℕ) (xs : List A)
      → 2 ≤ length xs
      → 2 ≤ n
      → All (IsChunk (chunk_size (length xs) n) xs) (chunks_of n xs)
  unfolding chunks_of reads
  chunks_of-IsChunk n xs h k =
      reads_from-IsChunk (length xs) (chunk_size (length xs) n) xs
        (chunk_size-lt (length xs) n h k).0

  pub concat-chunks_of :
      (n : ℕ) (xs : List A) → 2 ≤ length xs → 2 ≤ n → concat (chunks_of n xs) ≡ xs
  unfolding chunks_of
  concat-chunks_of n xs h k =
      concat-reads (chunk_size (length xs) n) xs (chunk_size-lt (length xs) n h k).0

  pub complement-sublist : (i : ℕ) (cs : List (List A)) → Sublist (complement i cs) (concat cs)
  unfolding complement
  complement-sublist i [] = Sublist.refl []
  complement-sublist zero (c ∷ cs) = sublist-append_right c (concat cs)
  complement-sublist (suc i) (c ∷ cs) = Sublist.append (Sublist.refl c) (complement-sublist i cs)

  pub length-complement :
      (i size : ℕ) (xs : List A) (cs : List (List A))
      → i < length cs
      → All (IsChunk size xs) cs
      → length (complement i cs) < length (concat cs)
  unfolding complement
  length-complement i size xs [] h a = absurd (omega arith)
  length-complement zero size xs (c ∷ cs) h a =
      omega (arith, length-append c (concat cs), a.0.filled)
  length-complement (suc i) size xs (c ∷ cs) h a = omega (
    arith,
    length-append c (concat cs),
    length-append c (complement i cs),
    length-complement i size xs cs (omega arith) a.1,
  )

module _ {ℓ} {A : Type ℓ} (check : List A → Bool) (min_size : ℕ) where
  -- What the guard of the code asks of a smaller list.
  pub record IsSmaller (c : List A) : Type 0 where
    pub large_enough : min_size ≤ length c
    pub checked : check c ≡ true

  pub is_smaller_sound : (c : List A) → is_smaller check min_size c ≡ true → IsSmaller c
  is_smaller_sound c h = record { large_enough = ground arith; checked = ground arith }

  pub find_chunk_found {κ} :
      (P : List A → Type κ) (cs : List (List A)) (c : List A)
      → All P cs
      → find_chunk check min_size cs ≡ some c
      → P c × IsSmaller c
  unfolding find_chunk
  find_chunk_found P [] c a e = cc
  find_chunk_found P (d ∷ cs) c a e =
      let branch = λ (b : Bool). (if b then some d else find_chunk check min_size cs) ≡ some c in
      elim (Bool-cases (is_smaller check min_size d)) [
        | inl here ↦
            let same : d ≡ c = some-injective d c (subst branch here e) in
            subst (λ x. P x × IsSmaller x) same (a.0, is_smaller_sound d here)
        | inr other ↦ find_chunk_found P cs c a.1 (subst branch other e)
      ]

  pub find_complement_found :
      (cs : List (List A)) (i k : ℕ) (c : List A)
      → find_complement check min_size cs i k ≡ some c
      → (j : ℕ) × (j < i + k) × (complement j cs ≡ c) × IsSmaller c
  unfolding find_complement
  find_complement_found cs i zero c e = cc
  find_complement_found cs i (suc k) c e =
      let rest = find_complement check min_size cs (suc i) k in
      let branch = λ (b : Bool). (if b then some (complement i cs) else rest) ≡ some c in
      elim (Bool-cases (is_smaller check min_size (complement i cs))) [
        | inl here ↦
            let same : complement i cs ≡ c = some-injective _ c (subst branch here e) in
            (i, omega arith, same, subst IsSmaller same (is_smaller_sound (complement i cs) here))
        | inr other ↦
            let (j, lt, same, small) =
              find_complement_found cs (suc i) k c (subst branch other e) in
            (j, omega arith, same, small)
      ]

  pub find_complement-none :
      (cs : List (List A)) (i k j : ℕ)
      → find_complement check min_size cs i k ≡ none
      → i ≤ j
      → j < i + k
      → is_smaller check min_size (complement j cs) ≡ false
  unfolding find_complement
  find_complement-none cs i zero j e le lt = absurd (omega arith)
  find_complement-none cs i (suc k) j e le lt =
      let rest = find_complement check min_size cs (suc i) k in
      let branch = λ (b : Bool). (if b then some (complement i cs) else rest) ≡ none in
      elim (Bool-cases (is_smaller check min_size (complement i cs))) [
        | inl here ↦ cc (subst branch here e)
        | inr other ↦ elim (Bool-cases (i == j)) [
          | inl now ↦ let same : i ≡ j = ground arith in rw (← same) other
          | inr later ↦
              find_complement-none cs (suc i) k j (subst branch other e) (ground arith)
                (omega arith)
        ]
      ]
