-- ===== src/Streaming/Sketch/Counts.antt =====
-- Every value that a sketch was given is in one bucket.
use sentinel_hft.Prelude.{List, ◌++◌, if_split, ℕ, ◌+◌, ◌≡◌, refl, sym, ◌∙◌, [], ◌∷◌, arith}
use sentinel_hft.Prelude.Int.{ℤ}
use sentinel_hft.Prelude.Eq.{int_eq}
use sentinel_hft.Prelude.Dict.{Dict, bump_by}
use sentinel_hft.Prelude.Dict.Values.{held, held-bump_by}
use sentinel_hft.Prelude.Float.{Float}
use sentinel_hft.Prelude.Result.{ok}
use sentinel_hft.Streaming.Sketch.{
  TDigestWrapper, hundredth, new_digest, add_digest, merged_digest, merge_digest, Maths, DdSketch,
  merge_buckets, add_value, joined, merge,
}

held-merge_buckets : (more d : Dict ℤ ℕ) → held (merge_buckets more d) ≡ held d + held more
unfolding merge_buckets
held-merge_buckets [] d = omega arith
held-merge_buckets ((k, n) ∷ more) d =
    omega (arith, held-merge_buckets more (bump_by n k d), held-bump_by n k d)

-- The count is what the buckets hold.
abbrev pub IsCounted : {N : Type 0} → DdSketch N → Type 0
IsCounted s = s.count ≡ s.zero_count + held s.positive_buckets + held s.negative_buckets

module _ (F : Float) (M : Maths F) where
  open F use {Num, of_nat, lt}

  pub add_value-IsCounted :
      (v : Num) (s : DdSketch Num) → IsCounted s → IsCounted (add_value F M v s)
  unfolding add_value
  add_value-IsCounted v s c =
      if_split IsCounted (lt (of_nat 0) v)
        (λ positive. omega (arith, c, held-bump_by 1 _ s.positive_buckets))
        (λ other.
          if_split IsCounted (lt v (of_nat 0))
            (λ negative. omega (arith, c, held-bump_by 1 _ s.negative_buckets))
            (λ zero. omega (arith, c)))

  pub count-add_value : (v : Num) (s : DdSketch Num) → (add_value F M v s).count ≡ s.count + 1
  unfolding add_value
  count-add_value v s = ground arith

  pub joined-IsCounted :
      (other s : DdSketch Num) → IsCounted other → IsCounted s → IsCounted (joined F M other s)
  joined-IsCounted other s c d = omega (
    arith,
    held-merge_buckets other.positive_buckets s.positive_buckets,
    held-merge_buckets other.negative_buckets s.negative_buckets,
  )

  -- Sketches of the same precision can be merged.
  pub merge_same :
      (other s : DdSketch Num) → other.alpha ≡ s.alpha → merge F M other s ≡ ok (joined F M other s)
  unfolding merge
  merge_same other s e = rw (e, M.sub_self s.alpha)

  -- A digest that was given n values: its counts agree, and its precision is that of all digests.
  pub record Holds (n : ℕ) (t : TDigestWrapper Num) : Type 0 where
    pub counted : t.count ≡ n
    pub sketched : t.impl.count ≡ n
    pub bucketed : IsCounted t.impl
    pub precise : t.impl.alpha ≡ hundredth F M

  pub new_digest-Holds : Holds 0 (new_digest F M)
  new_digest-Holds = record { counted = refl; sketched = refl; bucketed = refl; precise = refl }

  alpha_kept : (v : Num) (s : DdSketch Num) → (add_value F M v s).alpha ≡ s.alpha
  unfolding add_value
  alpha_kept v s = ground arith

  pub add_digest-Holds :
      (n : ℕ) (v : Num) (t : TDigestWrapper Num) → Holds n t → Holds (n + 1) (add_digest F M v t)
  unfolding add_digest
  add_digest-Holds n v t h = record {
    counted = omega (arith, h.counted);
    sketched = omega (arith, h.sketched, count-add_value v t.impl);
    bucketed = add_value-IsCounted v t.impl h.bucketed;
    precise = alpha_kept v t.impl ∙ h.precise;
  }

  -- A digest of a list of values: one after the other is added.
  unfoldable pub add_digests : List Num → TDigestWrapper Num → TDigestWrapper Num
  add_digests [] t = t
  add_digests (v ∷ vs) t = add_digests vs (add_digest F M v t)

  pub add_digests-append :
      (vs : List Num) (v : Num) (t : TDigestWrapper Num)
      → add_digests (vs ++ v ∷ []) t ≡ add_digest F M v (add_digests vs t)
  unfolding add_digests
  add_digests-append [] v t = refl
  add_digests-append (x ∷ vs) v t = add_digests-append vs v (add_digest F M x t)

  -- Merging adds the numbers, and never raises.
  pub merge_digest-Holds :
      (m n : ℕ) (other t : TDigestWrapper Num)
      → Holds m other
      → Holds n t
      → (u : TDigestWrapper Num) × (merge_digest F M other t ≡ ok u) × Holds (n + m) u
  unfolding merge_digest
  merge_digest-Holds m n other t h k = (
    merged_digest F M (joined F M other.impl t.impl) other t,
    rw (merge_same other.impl t.impl (h.precise ∙ sym k.precise)),
    record {
      counted = omega (arith, h.counted, k.counted);
      sketched = omega (arith, h.sketched, k.sketched);
      bucketed = joined-IsCounted other.impl t.impl h.bucketed k.bucketed;
      precise = k.precise;
    },
  )
