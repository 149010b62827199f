-- ===== src/Hyperliquid/Scorer/Profiles.antt =====
-- The summary of the scorer counts every card once.
use sentinel_hft.Prelude.{ℕ, ◌+◌, ◌≡◌, refl, ◌∙◌, [], ◌∷◌, length, arith}
use sentinel_hft.Prelude.Dict.{Dict}
use sentinel_hft.Hyperliquid.Fixture.{TakerProfile, toxic, neutral, benign}
use sentinel_hft.Hyperliquid.Scorer.{
  TakerScorecard, ToxicFlowScorer, ScorerSummary, count_profile, count_profiles, summarise,
}

count_profiles_total :
    {N : Type 0} (cards : Dict ℕ (TakerScorecard N)) (n : ScorerSummary)
    → let n' = count_profiles cards n in
      (n'.takers ≡ n.takers)
      × (n'.toxic_takers + n'.neutral_takers + n'.benign_takers
          ≡ n.toxic_takers + n.neutral_takers + n.benign_takers + length cards)
unfolding count_profiles
count_profiles_total [] n = (refl, omega arith)
count_profiles_total ((taker, sc) ∷ cards) n =
    let (t, sum) = count_profiles_total cards (count_profile sc.profile n) in
    let (one, more) = one_profile sc.profile n in (t ∙ one, omega (arith, sum, more))
  where
    one_profile :
        (p : TakerProfile) (n : ScorerSummary)
        → let n' = count_profile p n in
          (n'.takers ≡ n.takers)
          × (n'.toxic_takers + n'.neutral_takers + n'.benign_takers
              ≡ n.toxic_takers + n.neutral_takers + n.benign_takers + 1)
    one_profile toxic n = (refl, omega arith)
    one_profile neutral n = (refl, omega arith)
    one_profile benign n = (refl, omega arith)

pub summarise_total :
    {N : Type 0} (s : ToxicFlowScorer N)
    → let n = summarise s in n.toxic_takers + n.neutral_takers + n.benign_takers ≡ n.takers
unfolding summarise
summarise_total s =
    let (t, sum) = count_profiles_total s.scorecards (record {
      takers = length s.scorecards;
      toxic_takers = 0;
      neutral_takers = 0;
      benign_takers = 0;
    }) in
    omega (arith, t, sum)
