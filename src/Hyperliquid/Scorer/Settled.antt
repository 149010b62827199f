-- ===== src/Hyperliquid/Scorer/Settled.antt =====
-- The scorer's scorecards after any ticks: every trade of a taker is settled once or still open.
use sentinel_hft.Prelude.{
  ℕ, suc, ◌+◌, ◌≡◌, ◌≢◌, refl, sym, ap, ◌∙◌, subst, true, false, not, ◌||◌, Option, none, some,
  List, [], ◌∷◌, ◌++◌, arith, ltb, leb, ◌==◌, if◌then◌else◌, Bool-cases, Option-cases, inl, inr,
  ==_iff,
}
use sentinel_hft.Prelude.Dict.{Dict, lookup, insert, or_else, lookup-insert_self, lookup-insert_ne}
use sentinel_hft.Prelude.Eq.{nat_eq}
use sentinel_hft.Prelude.Float.{Float}
use sentinel_hft.Prelude.Result.{Result, ok}
use sentinel_hft.Hyperliquid.Fixture.{TakerProfile, neutral, HlTickEvent, tick_mid, is_trade}
use sentinel_hft.Hyperliquid.Scorer.{
  TakerOutcome, TakerScorecard, ScorerConfig, ToxicFlowScorer, new_scorer, touch, classify, score,
  update_scorecard, settle_one, settle_all, settle_open, new_card, note_mid, outcome_of,
  record_outcome, on_tick, on_ticks,
}

-- The outcomes of a taker in a list.
unfoldable pub pending : {N : Type 0} → ℕ → List (TakerOutcome N) → ℕ
pending t [] = 0
pending t (o ∷ os) = (if o.taker_id == t then 1 else 0) + pending t os

pending-append :
    {N : Type 0} (t : ℕ) (os ps : List (TakerOutcome N))
    → pending t (os ++ ps) ≡ pending t os + pending t ps
unfolding pending
pending-append t [] ps = omega arith
pending-append t (o ∷ os) ps = omega (arith, pending-append t os ps)

module _ (F : Float) (cfg : ScorerConfig F.Num) where
  open F use {Num, lt}

  -- What the thresholds make of a card.
  abbrev pub profile_of : TakerScorecard Num → TakerProfile
  profile_of sc =
      if sc.settled == 0
      then neutral
      else if ltb sc.settled cfg.min_trades
      then neutral
      else classify F cfg sc.ewma_drift_ticks

  -- The card of a taker with n open outcomes.
  pub record Scored (n : ℕ) (sc : TakerScorecard Num) : Type 0 where
    pub balanced : sc.trades ≡ sc.settled + n
    pub classified : sc.profile ≡ profile_of sc

  abbrev pub Held : ℕ → Option (TakerScorecard Num) → Type 0
  Held n none = n ≡ 0
  Held n (some sc) = Scored n sc

  -- The cards of all takers, with open outcomes in two lists.
  abbrev pub Kept : ToxicFlowScorer Num → List (TakerOutcome Num) → List (TakerOutcome Num) → Type 0
  Kept s os ps = (t : ℕ) → Held (pending t os + pending t ps) (lookup t s.scorecards)

  early : (sc : TakerScorecard Num) → ltb sc.settled cfg.min_trades ≡ true → profile_of sc ≡ neutral
  early sc few = ground (arith, few)

  score-classified :
      (drift : Num) (sc : TakerScorecard Num)
      → sc.profile ≡ profile_of sc
      → (score F cfg drift sc).profile ≡ profile_of (score F cfg drift sc)
  score-classified drift sc c = elim (Bool-cases (leb cfg.min_trades (sc.settled + 1))) [
    | inl enough ↦
        let many : ltb (sc.settled + 1) cfg.min_trades ≡ false = ground arith in
        let some_settled : (sc.settled + 1 == 0) ≡ false = ground arith in
        rw (enough, some_settled, many) refl
    | inr few ↦
        let fewer : ltb (sc.settled + 1) cfg.min_trades ≡ true = ground arith in
        let before : ltb sc.settled cfg.min_trades ≡ true = ground arith in
        rw few (c ∙ (early sc before ∙ sym (early (score F cfg drift sc) fewer)))
  ]

  score-Scored :
      (n : ℕ) (drift : Num) (sc : TakerScorecard Num)
      → Scored (suc n) sc
      → Scored n (score F cfg drift sc)
  score-Scored n drift sc c = record {
    balanced = omega (arith, c.balanced);
    classified = score-classified drift sc c.classified;
  }

  record Settles (os : List (TakerOutcome Num))
      (r : Result (List (TakerOutcome Num) × ToxicFlowScorer Num)) : Type 0 where
    keep : List (TakerOutcome Num)
    scorer : ToxicFlowScorer Num
    returned : r ≡ ok (keep, scorer)
    kept : Kept scorer os keep

  one_less :
      (t taker : ℕ) (n m : ℕ) (drift : Num) (sc : TakerScorecard Num)
      (d : Dict ℕ (TakerScorecard Num))
      → lookup taker d ≡ some sc
      → Held ((if taker == t then 1 else 0) + n + m) (lookup t d)
      → Held (n + m) (lookup t (insert taker (score F cfg drift sc) d))
  one_less t taker n m drift sc d found held = elim (Bool-cases (taker == t)) [
    | inl here ↦
        let same : taker ≡ t = (==_iff taker t).0 here in
        let card : lookup t d ≡ some sc = subst (λ (x : ℕ). lookup x d ≡ some sc) same found in
        let more : (if taker == t then 1 else 0) + n + m ≡ suc (n + m) = rw here (omega arith) in
        let before : Held (suc (n + m)) (some sc) =
          subst (λ (o : Option (TakerScorecard Num)). Held (suc (n + m)) o) card
            (subst (λ (k : ℕ). Held k (lookup t d)) more held) in
        rw (← same, lookup-insert_self taker (score F cfg drift sc) d)
          (score-Scored (n + m) drift sc before)
    | inr other ↦
        let apart : taker ≢ t = λ e. cc ((==_iff taker t).1 e) in
        rw (lookup-insert_ne t taker (score F cfg drift sc) d apart)
          (subst (λ (k : ℕ). Held k (lookup t d)) (rw other (omega arith)) held)
  ]

  -- The card of the outcome that is settled is there, since the taker has an open outcome.
  settle_card :
      (now : ℕ) (out : TakerOutcome Num) (os keep : List (TakerOutcome Num))
      (s : ToxicFlowScorer Num)
      → Kept s (out ∷ os) keep
      → ltb now (out.trade_ts_ns + out.horizon_ns) ≡ false
      → Settles os (settle_one F cfg now out (keep, s))
  unfolding settle_one update_scorecard pending
  settle_card now out os keep s k due = elim (Option-cases (lookup out.taker_id s.scorecards)) [
    | inl absent ↦
        let n = pending out.taker_id os + pending out.taker_id keep in
        let none_open : (if out.taker_id == out.taker_id then 1 else 0) + n ≡ 0 = omega (
          arith,
          subst
              (λ (o : Option (TakerScorecard Num)).
                Held (pending out.taker_id (out ∷ os) + pending out.taker_id keep) o)
              absent (k out.taker_id),
        ) in
        ground (arith, none_open)
    | inr (sc, found) ↦
        rw (due, update_scorecard, found)
          (record {
            keep = keep;
            scorer = _;
            returned = refl;
            kept = λ t.
                one_less t out.taker_id (pending t os) (pending t keep) _ sc s.scorecards found
                  (k t);
          })
  ]

  settle_one-Settles :
      (now : ℕ) (out : TakerOutcome Num) (os keep : List (TakerOutcome Num))
      (s : ToxicFlowScorer Num)
      → Kept s (out ∷ os) keep
      → Settles os (settle_one F cfg now out (keep, s))
  unfolding settle_one pending
  settle_one-Settles now out os keep s k =
      elim (Bool-cases (ltb now (out.trade_ts_ns + out.horizon_ns))) [
        | inl waiting ↦ rw waiting (record {
          keep = keep ++ out ∷ [];
          scorer = s;
          returned = refl;
          kept = λ t.
              subst (λ (n : ℕ). Held n (lookup t s.scorecards))
                (omega (arith, pending-append t keep (out ∷ []))) (k t);
        })
        | inr due ↦ settle_card now out os keep s k due
      ]

  settle_all-Settles :
      (now : ℕ) (os keep : List (TakerOutcome Num)) (s : ToxicFlowScorer Num)
      → Kept s os keep
      → Settles [] (settle_all F cfg now os (keep, s))
  unfolding settle_all
  settle_all-Settles now [] keep s k = record { keep = keep; scorer = s; returned = refl; kept = k }
  settle_all-Settles now (out ∷ os) keep s k =
      let one = settle_one-Settles now out os keep s k in
      rw one.returned (settle_all-Settles now os one.keep one.scorer one.kept)

  -- Every taker's card counts the settled outcomes and those that are still open.
  abbrev pub IsBalanced : ToxicFlowScorer Num → Type 0
  IsBalanced s = (taker : ℕ) → Held (pending taker s.open_outcomes) (lookup taker s.scorecards)

  -- What a call leaves.
  pub record Returns (r : Result (ToxicFlowScorer Num)) : Type 0 where
    pub scorer : ToxicFlowScorer Num
    pub returned : r ≡ ok scorer
    pub balanced : IsBalanced scorer

  settle_open-Returns :
      (now : ℕ) (s : ToxicFlowScorer Num) → IsBalanced s → Returns (settle_open F cfg now s)
  unfolding settle_open pending
  settle_open-Returns now s b = with_open s.open_outcomes refl
    where
      with_open :
          (os : List (TakerOutcome Num)) → s.open_outcomes ≡ os → Returns (settle_open F cfg now s)
      with_open [] none_open = rw none_open (record {
        scorer = record s { open_outcomes = [] };
        returned = refl;
        balanced = λ t.
            subst (λ (l : List (TakerOutcome Num)). Held (pending t l) (lookup t s.scorecards))
              none_open (b t);
      })
      with_open (o ∷ os) opened =
          let held : Kept s (o ∷ os) [] = λ t.
            subst (λ (n : ℕ). Held n (lookup t s.scorecards)) (ap (pending t) opened ∙ omega arith)
              (b t) in
          let all = settle_all-Settles now (o ∷ os) [] s held in
          rw (opened, settle_open, all.returned)
            (record {
              scorer = _;
              returned = refl;
              balanced = λ t.
                  subst (λ (n : ℕ). Held n (lookup t all.scorer.scorecards)) (omega arith)
                    (all.kept t);
            })

  note_mid-Returns :
      (ev : HlTickEvent Num) (s : ToxicFlowScorer Num)
      → IsBalanced s
      → Returns (note_mid F cfg ev s)
  unfolding note_mid
  note_mid-Returns ev s b = elim (Bool-cases (lt (F.of_nat 0) (tick_mid F ev))) [
    | inl priced ↦ rw priced (settle_open-Returns ev.host_ts_ns _ b)
    | inr unpriced ↦ rw unpriced (record { scorer = s; returned = refl; balanced = b })
  ]

  traded_card :
      (ts taker n : ℕ) (o : Option (TakerScorecard Num))
      → Held n o
      → let sc = touch ts (or_else o (new_card F cfg taker)) in
        Scored (n + 1) (record sc { trades = sc.trades + 1 })
  traded_card ts taker n none h = record { balanced = omega (arith, h); classified = refl }
  traded_card ts taker n (some sc) h = record {
    balanced = omega (arith, h.balanced);
    classified = h.classified;
  }

  one_more :
      (t taker ts n : ℕ) (d : Dict ℕ (TakerScorecard Num))
      → Held n (lookup t d)
      → let sc = touch ts (or_else (lookup taker d) (new_card F cfg taker)) in
        Held
          (n + (if taker == t then 1 else 0))
          (lookup t (insert taker (record sc { trades = sc.trades + 1 }) d))
  one_more t taker ts n d held = elim (Bool-cases (taker == t)) [
    | inl here ↦
        let same : taker ≡ t = (==_iff taker t).0 here in
        rw (here, same, lookup-insert_self t _ d) (traded_card ts t n (lookup t d) held)
    | inr other ↦
        let apart : taker ≢ t = λ e. cc ((==_iff taker t).1 e) in
        rw (other, lookup-insert_ne t taker _ d apart)
          (subst (λ (k : ℕ). Held k (lookup t d)) (omega arith) held)
  ]

  record_outcome-IsBalanced :
      (ev : HlTickEvent Num) (s : ToxicFlowScorer Num)
      → IsBalanced s
      → IsBalanced (record_outcome F cfg ev s)
  unfolding record_outcome pending
  record_outcome-IsBalanced ev s b t =
      subst (λ (n : ℕ). Held n (lookup t (record_outcome F cfg ev s).scorecards))
        (omega (arith, pending-append t s.open_outcomes (outcome_of F cfg ev ∷ [])))
        (one_more t ev.taker_id ev.host_ts_ns (pending t s.open_outcomes) s.scorecards (b t))

  pub on_tick-Returns :
      (ev : HlTickEvent Num) (s : ToxicFlowScorer Num) → IsBalanced s → Returns (on_tick F cfg ev s)
  unfolding on_tick
  on_tick-Returns ev s b =
      let x = note_mid-Returns ev s b in
      elim (Bool-cases (not (is_trade ev.kind) || ev.taker_id == 0)) [
        | inl quiet ↦
            rw (x.returned, quiet)
              (record { scorer = x.scorer; returned = refl; balanced = x.balanced })
        | inr trading ↦
            rw (x.returned, trading)
              (record {
                scorer = record_outcome F cfg ev x.scorer;
                returned = refl;
                balanced = record_outcome-IsBalanced ev x.scorer x.balanced;
              })
      ]

  on_ticks-Returns :
      (evs : List (HlTickEvent Num)) (s : ToxicFlowScorer Num)
      → IsBalanced s
      → Returns (on_ticks F cfg evs s)
  unfolding on_ticks
  on_ticks-Returns [] s b = record { scorer = s; returned = refl; balanced = b }
  on_ticks-Returns (ev ∷ evs) s b =
      let x = on_tick-Returns ev s b in rw x.returned (on_ticks-Returns evs x.scorer x.balanced)

  pub new_scorer-IsBalanced : IsBalanced new_scorer
  unfolding lookup pending
  new_scorer-IsBalanced t = refl

  -- The scorer raises nothing on any ticks, although it looks the card of a settled outcome up
  -- without a default. No trade is lost or settled twice: each taker's card has as many trades as
  -- settled outcomes and outcomes that are still open, a taker without a card has no open outcome,
  -- and the profile is neutral before the least number of settled outcomes, and behind it what the
  -- two thresholds make of the average drift.
  pub on_ticks-IsBalanced :
      (evs : List (HlTickEvent Num))
      → (s : ToxicFlowScorer Num) × (on_ticks F cfg evs new_scorer ≡ ok s) × IsBalanced s
  on_ticks-IsBalanced evs =
      let x = on_ticks-Returns evs new_scorer new_scorer-IsBalanced in
      (x.scorer, x.returned, x.balanced)
