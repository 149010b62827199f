-- ===== src/Compliance/FatFinger/Deviation.antt =====
-- When the guard rejects, and what its statistics say of the rejections.
use sentinel_hft.Prelude.{
  ℕ, ◌+◌, ◌≤◌, ◌≡◌, ◌⊎◌, inl, inr, refl, sym, ap, subst, ◌∙◌, Bool, true, false, ◌||◌, Option, none,
  some, List, [], ◌∷◌, if_split, arith, Bool-cases,
}
use sentinel_hft.Prelude.Eq.{nat_eq}
use sentinel_hft.Prelude.Dict.{lookup}
use sentinel_hft.Prelude.Dict.Values.{AllValues, AllValues-insert}
use sentinel_hft.Prelude.Float.{Float, geb}
use sentinel_hft.Compliance.FatFinger.{
  FatFingerGuard, on_trade, deviation, observed, judge, compare_with, check,
}

module _ (F : Float) where
  open F use {Num, of_nat, lt, lt_asym, ge_trans}

  -- a < b and b ≤ c, or a ≤ b and b < c
  lt_of_lt_le : (a b c : Num) → lt a b ≡ true → lt c b ≡ false → lt a c ≡ true
  lt_of_lt_le a b c h k = elim (Bool-cases (lt a c)) [
    | inl less ↦ less
    | inr above ↦ absurd (ground (arith, ge_trans a c b above k))
  ]

  abbrev pub Positive : Num → Type 0
  Positive a = lt (of_nat 0) a ≡ true

  -- Reference prices are positive; a rejection leaves a worst deviation beyond the limit.
  pub record IsChecked (m : Num) (g : FatFingerGuard Num) : Type 0 where
    pub limit : g.max_deviation_bps ≡ m
    pub prices : AllValues Positive g.last_px
    pub rejects_le : g.rejects ≤ g.checked
    pub worst : (g.rejects ≡ 0) ⊎ (lt m g.max_observed_bps ≡ true)

  pub on_trade-IsChecked :
      (m : Num) (symbol : ℕ) (price : Num) (g : FatFingerGuard Num)
      → IsChecked m g
      → IsChecked m (on_trade F symbol price g)
  unfolding on_trade
  on_trade-IsChecked m symbol price g c =
      if_split (IsChecked m) (lt (of_nat 0) price)
        (λ positive. record {
          limit = c.limit;
          prices = AllValues-insert Positive symbol price g.last_px positive c.prices;
          rejects_le = c.rejects_le;
          worst = c.worst;
        })
        (λ other. c)

  -- The worst deviation only grows, and is at least the one at hand.
  observed-worst :
      (dev : Num) (g : FatFingerGuard Num)
      → (lt (observed F dev g).max_observed_bps dev ≡ false)
        × (lt (observed F dev g).max_observed_bps g.max_observed_bps ≡ false)
  observed-worst dev g =
      if_split
        (λ (x : FatFingerGuard Num).
          (lt x.max_observed_bps dev ≡ false) × (lt x.max_observed_bps g.max_observed_bps ≡ false))
        (lt g.max_observed_bps dev) (λ beyond. (F.lt_irrefl dev, lt_asym _ _ beyond))
        (λ within. (within, F.lt_irrefl _))

  pub observed-rest :
      (dev : Num) (g : FatFingerGuard Num)
      → ((observed F dev g).max_deviation_bps ≡ g.max_deviation_bps)
        × ((observed F dev g).last_px ≡ g.last_px)
        × ((observed F dev g).rejects ≡ g.rejects)
        × ((observed F dev g).checked ≡ g.checked)
  observed-rest dev g =
      if_split
        (λ (x : FatFingerGuard Num).
          (x.max_deviation_bps ≡ g.max_deviation_bps)
          × (x.last_px ≡ g.last_px)
          × (x.rejects ≡ g.rejects)
          × (x.checked ≡ g.checked))
        (lt g.max_observed_bps dev) (λ h. (refl, refl, refl, refl)) (λ h. (refl, refl, refl, refl))

  judge-IsChecked :
      (m dev : Num) (g : FatFingerGuard Num)
      → g.rejects + 1 ≤ g.checked
      → IsChecked m g
      → IsChecked m (judge F dev g).1
  unfolding judge
  judge-IsChecked m dev g room c =
      let g' = observed F dev g in
      let (l, p, r, n) = observed-rest dev g in
      let (high, old) = observed-worst dev g in
      if_split (λ (x : Bool × FatFingerGuard Num). IsChecked m x.1) (lt g'.max_deviation_bps dev)
        (λ beyond. record {
          limit = l ∙ c.limit;
          prices = subst (AllValues Positive) (sym p) c.prices;
          rejects_le = omega (arith, r, n, room);
          worst = inr (
              lt_of_lt_le m dev g'.max_observed_bps
                (ap (λ z. lt z dev) (sym (l ∙ c.limit)) ∙ beyond) high);
        })
        (λ within. record {
          limit = l ∙ c.limit;
          prices = subst (AllValues Positive) (sym p) c.prices;
          rejects_le = omega (arith, r, n, c.rejects_le);
          worst = elim c.worst [
            | inl none_yet ↦ inl (r ∙ none_yet)
            | inr far ↦ inr (lt_of_lt_le m g.max_observed_bps g'.max_observed_bps far old)
          ];
        })

  compare_with-IsChecked :
      (m : Num) (o : Option Num) (price : Num) (g : FatFingerGuard Num)
      → g.rejects + 1 ≤ g.checked
      → IsChecked m g
      → IsChecked m (compare_with F o price g).1
  unfolding compare_with
  compare_with-IsChecked m none price g room c = c
  compare_with-IsChecked m (some last) price g room c =
      if_split (λ (x : Bool × FatFingerGuard Num). IsChecked m x.1)
        (geb F (of_nat 0) last || geb F (of_nat 0) price) (λ skip. c)
        (λ known. judge-IsChecked m (deviation F price last) g room c)

  pub check-IsChecked :
      (m : Num) (symbol : ℕ) (price : Num) (g : FatFingerGuard Num)
      → IsChecked m g
      → IsChecked m (check F symbol price g).1
  unfolding check
  check-IsChecked m symbol price g c =
      compare_with-IsChecked m (lookup symbol g.last_px) price
        (record g { checked = g.checked + 1 }) (omega (arith, c.rejects_le))
        (record {
          limit = c.limit;
          prices = c.prices;
          rejects_le = omega (arith, c.rejects_le);
          worst = c.worst;
        })

  checked-compare_with :
      (o : Option Num) (price : Num) (g : FatFingerGuard Num)
      → (compare_with F o price g).1.checked ≡ g.checked
  unfolding compare_with judge
  checked-compare_with none price g = refl
  checked-compare_with (some last) price g =
      let dev = deviation F price last in
      let (_, _, _, same) = observed-rest dev g in
      if_split (λ (x : Bool × FatFingerGuard Num). x.1.checked ≡ g.checked)
        (geb F (of_nat 0) last || geb F (of_nat 0) price) (λ skip. refl)
        (λ known.
          if_split (λ (x : Bool × FatFingerGuard Num). x.1.checked ≡ g.checked)
            (lt (observed F dev g).max_deviation_bps dev) (λ far. same) (λ near. same))

  -- Every check is counted.
  pub checked-check :
      (symbol : ℕ) (price : Num) (g : FatFingerGuard Num)
      → (check F symbol price g).1.checked ≡ g.checked + 1
  unfolding check
  checked-check symbol price g =
      checked-compare_with (lookup symbol g.last_px) price (record g { checked = g.checked + 1 })

  pub checked-on_trade :
      (symbol : ℕ) (price : Num) (g : FatFingerGuard Num)
      → (on_trade F symbol price g).checked ≡ g.checked
  unfolding on_trade
  checked-on_trade symbol price g =
      if_split (λ (x : FatFingerGuard Num). x.checked ≡ g.checked) (lt (of_nat 0) price) (λ h. refl)
        (λ h. refl)

  -- A price that is checked, or traded.
  pub data Quote : Type 0 where
    checked trade : ℕ → Num → Quote

  unfoldable pub run : List Quote → FatFingerGuard Num → FatFingerGuard Num
  run [] g = g
  run (checked symbol price ∷ qs) g = run qs (check F symbol price g).1
  run (trade symbol price ∷ qs) g = run qs (on_trade F symbol price g)

  run_from-IsChecked :
      (m : Num) (qs : List Quote) (g : FatFingerGuard Num) → IsChecked m g → IsChecked m (run qs g)
  unfolding run
  run_from-IsChecked m [] g c = c
  run_from-IsChecked m (checked symbol price ∷ qs) g c =
      run_from-IsChecked m qs (check F symbol price g).1 (check-IsChecked m symbol price g c)
  run_from-IsChecked m (trade symbol price ∷ qs) g c =
      run_from-IsChecked m qs (on_trade F symbol price g) (on_trade-IsChecked m symbol price g c)

  abbrev pub new_guard : Num → FatFingerGuard Num
  new_guard m = record {
    max_deviation_bps = m;
    last_px = [];
    rejects = 0;
    checked = 0;
    max_observed_bps = of_nat 0;
  }

  -- After any trades and checks on a new guard: the limit is unchanged, every reference price is
  -- positive, there are at most as many rejections as checks, and once there is a rejection the
  -- worst deviation that the statistics show is beyond the limit.
  pub run-IsChecked : (m : Num) (qs : List Quote) → IsChecked m (run qs (new_guard m))
  run-IsChecked m qs =
      run_from-IsChecked m qs (new_guard m)
        (record { limit = refl; prices = tt; rejects_le = omega arith; worst = inl refl })
