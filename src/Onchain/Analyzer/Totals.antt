-- ===== src/Onchain/Analyzer/Totals.antt =====
-- What the metrics hold after any records, told by the records alone.
use sentinel_hft.Prelude.{
  ℕ, ◌+◌, ◌≤◌, ◌≡◌, refl, Bool, true, List, [], ◌∷◌, map, filter, length, ap, ◌∙◌, arith,
  Bool-cases, inl, inr,
}
use sentinel_hft.Prelude.Dict.Values.{held, held-bump_by}
use sentinel_hft.Prelude.Eq.{nat_eq}
use sentinel_hft.Prelude.Float.{Float}
use sentinel_hft.Streaming.Sketch.{Maths, DdSketch, sketch_of}
use sentinel_hft.Onchain.Record.{
  OnchainRecord, total_ns, overhead_ns, flag_set, flag_rejected, flag_timeout, flag_reorg,
  flag_landed,
}
use sentinel_hft.Onchain.Analyzer.{
  StageSketch, OnchainMetrics, count_if, stage_of, metrics_of, add_latency, add_onchain, add_many,
}
use sentinel_hft.Onchain.Analyzer.Stages.{Streamed, stream, stage_of-Streamed}

-- The records with a flag.
abbrev pub flagged : ℕ → List OnchainRecord → ℕ
flagged mask rs = length (filter (flag_set mask) rs)

module _ (F : Float) (M : Maths F) where
  open F use {Num}

  -- A stage of the metrics takes one latency of each record.
  each-Streamed :
      (get : OnchainMetrics Num → StageSketch Num) (f : OnchainRecord → ℕ)
      → ((r : OnchainRecord) (m : OnchainMetrics Num)
          → get (add_onchain F M r m) ≡ add_latency F M (f r) (get m))
      → (rs : List OnchainRecord) (m : OnchainMetrics Num) (sk : DdSketch Num) → sk.count ≡ 0
      → get m ≡ stage_of sk
      → Streamed (map f rs) (get (add_many F M rs m))
  unfolding add_many stream
  each-Streamed get f step rs m sk empty start =
      rw (all rs m, start) (stage_of-Streamed F M (map f rs) sk empty)
    where
      all :
          (rs : List OnchainRecord) (m : OnchainMetrics Num)
          → get (add_many F M rs m) ≡ stream F M (map f rs) (get m)
      all [] m = refl
      all (r ∷ rs) m = all rs (add_onchain F M r m) ∙ ap (stream F M (map f rs)) (step r m)

  -- A counter of the metrics takes one step for each record that it is about.
  counter_all :
      (get : OnchainMetrics Num → ℕ) (test : OnchainRecord → Bool)
      → ((r : OnchainRecord) (m : OnchainMetrics Num)
          → get (add_onchain F M r m) ≡ count_if (test r) (get m))
      → (rs : List OnchainRecord) (m : OnchainMetrics Num)
      → get (add_many F M rs m) ≡ get m + length (filter test rs)
  unfolding add_many
  counter_all get test step [] m = omega arith
  counter_all get test step (r ∷ rs) m =
      let later = counter_all get test step rs (add_onchain F M r m) in
      elim (Bool-cases (test r)) [
        | inl counted ↦
            rw counted (omega (arith, later, step r m ∙ ap (λ b. count_if b (get m)) counted))
        | inr other ↦ rw other (omega (arith, later, step r m ∙ ap (λ b. count_if b (get m)) other))
      ]

  -- The latencies that the stages and the overhead account for.
  abbrev pub accounted : OnchainMetrics Num → ℕ
  accounted m =
      m.rpc.sum_ns + m.quote.sum_ns + m.sign.sum_ns + m.submit.sum_ns + m.inclusion.sum_ns
      + m.overhead.sum_ns

  -- What the records alone tell of the metrics.
  pub record Reflects (rs : List OnchainRecord) (m : OnchainMetrics Num) : Type 0 where
    pub rpc : Streamed (map (λ (r : OnchainRecord). r.d_rpc_ns) rs) m.rpc
    pub quote : Streamed (map (λ (r : OnchainRecord). r.d_quote_ns) rs) m.quote
    pub sign : Streamed (map (λ (r : OnchainRecord). r.d_sign_ns) rs) m.sign
    pub submit : Streamed (map (λ (r : OnchainRecord). r.d_submit_ns) rs) m.submit
    pub inclusion : Streamed (map (λ (r : OnchainRecord). r.d_inclusion_ns) rs) m.inclusion
    pub total : Streamed (map total_ns rs) m.total
    pub overhead : Streamed (map overhead_ns rs) m.overhead
    pub count : m.count ≡ length rs
    pub landed : m.landed ≡ flagged flag_landed rs
    pub rejected : m.rejected ≡ flagged flag_rejected rs
    pub timed_out : m.timed_out ≡ flagged flag_timeout rs
    pub reorged : m.reorged ≡ flagged flag_reorg rs
    pub per_venue : held m.per_venue ≡ length rs
    pub per_action : held m.per_action ≡ length rs
    pub accounts : m.total.sum_ns ≤ accounted m

  filter_all : (rs : List OnchainRecord) → filter (λ r. true) rs ≡ rs
  filter_all [] = refl
  filter_all (r ∷ rs) = ap (λ l. r ∷ l) (filter_all rs)

  accounts_all :
      (rs : List OnchainRecord) (m : OnchainMetrics Num)
      → m.total.sum_ns ≤ accounted m
      → (add_many F M rs m).total.sum_ns ≤ accounted (add_many F M rs m)
  unfolding add_many add_onchain add_latency
  accounts_all [] m h = h
  accounts_all (r ∷ rs) m h = accounts_all rs (add_onchain F M r m) (omega (arith, h))

  Reflects-new :
      (rs : List OnchainRecord) (sk : DdSketch Num)
      → sk.count ≡ 0
      → Reflects rs (add_many F M rs (metrics_of sk))
  unfolding add_onchain
  Reflects-new rs sk empty =
      let start = metrics_of sk in
      let always = λ (r : OnchainRecord). true in
      let all = ap length (filter_all rs) in
      record {
        rpc = each-Streamed (λ m. m.rpc) (λ r. r.d_rpc_ns) (λ r m. refl) rs start sk empty refl;
        quote =
            each-Streamed (λ m. m.quote) (λ r. r.d_quote_ns) (λ r m. refl) rs start sk empty refl;
        sign = each-Streamed (λ m. m.sign) (λ r. r.d_sign_ns) (λ r m. refl) rs start sk empty refl;
        submit =
            each-Streamed (λ m. m.submit) (λ r. r.d_submit_ns) (λ r m. refl) rs start sk empty refl;
        inclusion =
            each-Streamed (λ m. m.inclusion) (λ r. r.d_inclusion_ns) (λ r m. refl) rs start sk empty
              refl;
        total = each-Streamed (λ m. m.total) total_ns (λ r m. refl) rs start sk empty refl;
        overhead = each-Streamed (λ m. m.overhead) overhead_ns (λ r m. refl) rs start sk empty refl;
        count = omega (arith, counter_all (λ m. m.count) always (λ r m. refl) rs start, all);
        landed =
            omega
              (arith, counter_all (λ m. m.landed) (flag_set flag_landed) (λ r m. refl) rs start);
        rejected =
            omega (
              arith,
              counter_all (λ m. m.rejected) (flag_set flag_rejected) (λ r m. refl) rs start,
            );
        timed_out =
            omega (
              arith,
              counter_all (λ m. m.timed_out) (flag_set flag_timeout) (λ r m. refl) rs start,
            );
        reorged =
            omega
              (arith, counter_all (λ m. m.reorged) (flag_set flag_reorg) (λ r m. refl) rs start);
        per_venue = omega (
          arith,
          counter_all (λ m. held m.per_venue) always (λ r m. held-bump_by 1 r.venue m.per_venue) rs
              start,
          all,
        );
        per_action = omega (
          arith,
          counter_all (λ m. held m.per_action) always (λ r m. held-bump_by 1 r.action m.per_action)
              rs start,
          all,
        );
        accounts = accounts_all rs start (omega arith);
      }

  -- New metrics reflect the records that they are given: every stage, the total and the overhead have
  -- as many values, in count and in the sketch, as there were records, with the sum of their latencies
  -- and with extremes that enclose each of them; the flag counters are the numbers of records with the
  -- flag; the venues and the actions each add up to all records; and the total is no more than what
  -- the stages and the overhead account for.
  pub add_many-Reflects :
      (alpha : Num) (rs : List OnchainRecord)
      → Reflects rs (add_many F M rs (metrics_of (sketch_of F M alpha)))
  add_many-Reflects alpha rs = Reflects-new rs (sketch_of F M alpha) refl
