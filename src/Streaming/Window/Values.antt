-- ===== src/Streaming/Window/Values.antt =====
-- The values behind the digests of the rolling window: bucket by bucket, those that were added last.
use sentinel_hft.Prelude.{
  ℕ, ◌-◌, ◌<◌, true, not, ◌+◌, ◌≡◌, refl, sym, ap, subst, ◌∙◌, Option, none, some, List, [], ◌∷◌,
  ◌++◌, length, map, ltb, arith, append_assoc, length-append, Bool-cases, inl, inr, if_split,
}
use mathlib.Core.List.{append-nil}
use sentinel_hft.Prelude.Reads.{concat}
use sentinel_hft.Prelude.Float.{Float, geb}
use sentinel_hft.Prelude.Dict.{or_else}
use sentinel_hft.Prelude.Result.{Result, ok, ◌>>=◌, Result-cases, bind-eq-ok, guard, value_error}
use sentinel_hft.Streaming.Sketch.{Maths, TDigestWrapper, new_digest, add_digest, merge_digest}
use sentinel_hft.Streaming.Sketch.Counts.{add_digests, add_digests-append}
use sentinel_hft.Streaming.Window.{
  WindowBucket, RollingWindowStats, new_bucket, new_window, window_of, expire, rotate, add_sample,
  add_samples, merge_all, merged,
}

concat-append :
    {N : Type 0} (gs : List (List N)) (g : List N) → concat (gs ++ g ∷ []) ≡ concat gs ++ g
concat-append [] g = append-nil g
concat-append (x ∷ gs) g =
    ap (λ l. x ++ l) (concat-append gs g) ∙ sym (append_assoc x (concat gs) g)

module _ (F : Float) (M : Maths F) where
  open F use {Num, of_nat, add, sub, div, lt}

  -- The digest of a list of values on its own.
  abbrev pub digest_of : List Num → TDigestWrapper Num
  digest_of vs = add_digests F M vs (new_digest F M)

  -- The bucket was given these values, and counts them.
  abbrev pub Taken : List Num → WindowBucket Num → Type 0
  Taken g b = (b.digest ≡ digest_of g) × (b.sample_count ≡ length g)

  abbrev pub AllTaken : List (List Num) → List (WindowBucket Num) → Type 0
  AllTaken [] [] = Unit
  AllTaken (g ∷ gs) (b ∷ bs) = Taken g b × AllTaken gs bs
  AllTaken [] (b ∷ bs) = ⊥
  AllTaken (g ∷ gs) [] = ⊥

  abbrev pub OpenTaken : List Num → Option (WindowBucket Num) → Type 0
  OpenTaken g none = g ≡ []
  OpenTaken g (some b) = Taken g b

  -- The digests of the groups, merged in their order.
  unfoldable pub merge_groups : List (List Num) → TDigestWrapper Num → Result (TDigestWrapper Num)
  merge_groups [] t = ok t
  merge_groups (g ∷ gs) t = do t' ← merge_digest F M (digest_of g) t; merge_groups gs t'

  -- The window holds the last of these values: some have left it, the rest are in its closed buckets,
  -- group by group, and in the open one.
  pub record Remembers (vs : List Num) (w : RollingWindowStats Num) : Type 0 where
    pub left : List Num
    pub groups : List (List Num)
    pub newest : List Num
    pub all : vs ≡ left ++ (concat groups ++ newest)
    pub closed : AllTaken groups w.buckets
    pub opened : OpenTaken newest w.current_bucket

  AllTaken-append :
      (gs : List (List Num)) (bs : List (WindowBucket Num)) (g : List Num) (b : WindowBucket Num)
      → AllTaken gs bs
      → Taken g b
      → AllTaken (gs ++ g ∷ []) (bs ++ b ∷ [])
  AllTaken-append [] [] g b a t = (t, tt)
  AllTaken-append (x ∷ gs) (c ∷ bs) g b a t = (a.0, AllTaken-append gs bs g b a.1 t)
  AllTaken-append [] (c ∷ bs) g b a t = elim a [ ]
  AllTaken-append (x ∷ gs) [] g b a t = elim a [ ]

  -- What `rotate` hands on of the values `vs` in the buckets.
  record Turned (vs : List Num) (x : WindowBucket Num × List (WindowBucket Num)) : Type 0 where
    groups : List (List Num)
    newest : List Num
    same : vs ≡ concat groups ++ newest
    closed : AllTaken groups x.1
    current : Taken newest x.0

  or_else-Taken :
      (ts : Num) (g : List Num) (o : Option (WindowBucket Num))
      → OpenTaken g o
      → Taken g (or_else o (new_bucket F M ts))
  unfolding add_digests
  or_else-Taken ts g none empty = rw empty (refl, refl)
  or_else-Taken ts g (some b) taken = taken

  rotate-Turned :
      (ts : Num) (w : RollingWindowStats Num) (gs : List (List Num)) (g : List Num)
      → AllTaken gs w.buckets
      → OpenTaken g w.current_bucket
      → Turned (concat gs ++ g) (rotate F M ts w)
  unfolding rotate add_digests
  rotate-Turned ts w gs g a o =
      let c = or_else w.current_bucket (new_bucket F M ts) in
      let t = or_else-Taken ts g w.current_bucket o in
      if_split (Turned (concat gs ++ g)) (geb F ts (add c.start_time w.bucket_seconds))
        (λ ended. record {
          groups = gs ++ g ∷ [];
          newest = [];
          same = sym (append-nil (concat (gs ++ g ∷ [])) ∙ concat-append gs g);
          closed = AllTaken-append gs w.buckets g c a t;
          current = (refl, refl);
        })
        (λ running. record { groups = gs; newest = g; same = refl; closed = a; current = t })

  -- What `expire` leaves.
  record Trimmed (vs : List Num) (bs : List (WindowBucket Num)) : Type 0 where
    dropped : List Num
    groups : List (List Num)
    same : vs ≡ dropped ++ concat groups
    closed : AllTaken groups bs

  expire-Trimmed :
      (cutoff : Num) (bs : List (WindowBucket Num)) (n : ℕ) (gs : List (List Num))
      → AllTaken gs bs
      → Trimmed (concat gs) (expire F M cutoff bs n).0
  unfolding expire
  expire-Trimmed cutoff [] n [] a = record { dropped = []; groups = []; same = refl; closed = tt }
  expire-Trimmed cutoff [] n (g ∷ gs) a = elim a [ ]
  expire-Trimmed cutoff (b ∷ bs) n [] a = elim a [ ]
  expire-Trimmed cutoff (b ∷ bs) n (g ∷ gs) a = elim (Bool-cases (lt b.start_time cutoff)) [
    | inl old ↦
        let rest = expire-Trimmed cutoff bs (n - b.sample_count) gs a.1 in
        rw old (record {
          dropped = g ++ rest.dropped;
          groups = rest.groups;
          same =
              ap (λ l. g ++ l) rest.same ∙ sym (append_assoc g rest.dropped (concat rest.groups));
          closed = rest.closed;
        })
    | inr kept ↦ rw kept (record { dropped = []; groups = g ∷ gs; same = refl; closed = a })
  ]

  pub add_sample-Remembers :
      (value : Num) (timestamp : ℕ) (vs : List Num) (w : RollingWindowStats Num)
      → Remembers vs w
      → Remembers (vs ++ value ∷ []) (add_sample F M value timestamp w)
  unfolding add_sample
  add_sample-Remembers value timestamp vs w r =
      let ts = div (of_nat timestamp) w.clock_hz in
      let t = rotate-Turned ts w r.groups r.newest r.closed r.opened in
      let e =
        expire-Trimmed (sub ts w.window_seconds) (rotate F M ts w).1 (w.sample_count + 1) t.groups
          t.closed in
      record {
        left = r.left ++ e.dropped;
        groups = e.groups;
        newest = t.newest ++ value ∷ [];
        all = rw (r.all, t.same, e.same) (simp append_assoc);
        closed = e.closed;
        opened = (
          ap (λ (d : TDigestWrapper Num). add_digest F M value d) (t.current).0
              ∙ sym (add_digests-append F M t.newest value (new_digest F M)),
          omega (arith, (t.current).1, length-append t.newest (value ∷ [])),
        );
      }

  abbrev pub value_of : Num × ℕ → Num
  value_of x = x.0

  pub add_samples-Remembers :
      (xs : List (Num × ℕ)) (vs : List Num) (w : RollingWindowStats Num)
      → Remembers vs w
      → Remembers (vs ++ map value_of xs) (add_samples F M xs w)
  unfolding add_samples
  add_samples-Remembers [] vs w r = subst (λ l. Remembers l w) (sym (append-nil vs)) r
  add_samples-Remembers (x ∷ xs) vs w r =
      let later =
        add_samples-Remembers xs (vs ++ x.0 ∷ []) (add_sample F M x.0 x.1 w)
          (add_sample-Remembers x.0 x.1 vs w r) in
      subst (λ l. Remembers l (add_samples F M (x ∷ xs) w))
        (append_assoc vs (x.0 ∷ []) (map value_of xs)) later

  merge_all-groups :
      (gs : List (List Num)) (bs : List (WindowBucket Num)) (more : List (List Num))
      (t : TDigestWrapper Num)
      → AllTaken gs bs
      → merge_groups (gs ++ more) t ≡ (merge_all F M bs t >>= merge_groups more)
  unfolding merge_groups merge_all
  merge_all-groups [] [] more t a = refl
  merge_all-groups [] (b ∷ bs) more t a = elim a [ ]
  merge_all-groups (g ∷ gs) [] more t a = elim a [ ]
  merge_all-groups (g ∷ gs) (b ∷ bs) more t a =
      let same : b.digest ≡ digest_of g = a.0.0 in
      elim (Result-cases (merge_digest F M (digest_of g) t)) [
        | inl (u, e) ↦ rw (same, e) (merge_all-groups gs bs more u a.1)
        | inr (x, e) ↦ rw (same, e) refl
      ]

  -- With a value in the open bucket, the digest of the window is the merged groups.
  pub merged-groups :
      (gs : List (List Num)) (g : List Num) (w : RollingWindowStats Num) (b : WindowBucket Num)
      → AllTaken gs w.buckets
      → w.current_bucket ≡ some b
      → Taken g b
      → 0 < b.sample_count
      → merged F M w ≡ merge_groups (gs ++ g ∷ []) (new_digest F M)
  unfolding merged merge_groups merge_all
  merged-groups gs g w b a e t some_in =
      let more : ltb 0 b.sample_count ≡ true = ground (arith, some_in) in
      rw (e, more, t.0, merge_all-groups gs w.buckets (g ∷ []) (new_digest F M) a) refl

  pub new_window-Remembers :
      (ws bs hz : Num) (w : RollingWindowStats Num)
      → new_window F M ws bs hz ≡ ok w
      → Remembers [] w
  unfolding new_window
  new_window-Remembers ws bs hz w e =
      let (_, p, e1) = bind-eq-ok (guard (lt (of_nat 0) ws) value_error) _ e in
      let (_, q, e2) = bind-eq-ok (guard (lt (of_nat 0) bs) value_error) _ e1 in
      let (_, r, e3) = bind-eq-ok (guard (not (lt ws bs)) value_error) _ e2 in
      let same : window_of F M ws bs hz ≡ w = ground arith in
      subst (Remembers []) same
        (record { left = []; groups = []; newest = []; all = refl; closed = tt; opened = refl })

  -- Behind one more sample the window remembers it and what came before, and its digest is that of
  -- the groups.
  pub add_sample-merged :
      (value : Num) (timestamp : ℕ) (w : RollingWindowStats Num) (gs : List (List Num))
      (g : List Num)
      → let x = add_sample F M value timestamp w in
        AllTaken gs x.buckets
        → OpenTaken g x.current_bucket
        → merged F M x ≡ merge_groups (gs ++ g ∷ []) (new_digest F M)
  unfolding add_sample
  add_sample-merged value timestamp w gs g a t =
      merged-groups gs g (add_sample F M value timestamp w) _ a refl t (omega arith)
