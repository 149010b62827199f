-- ===== src/Deribit/Strategy/Live.antt =====
-- Which orders the strategy holds to be on the book, against a list of audit records.
use sentinel_hft.Prelude.{
  ℕ, ◌≡◌, true, not, List, [], ◌∷◌, ◌++◌, map, append_assoc, Bool-cases, Option-cases, inl, inr,
  ◌||◌,
}
use sentinel_hft.Prelude.Eq.{nat_eq}
use sentinel_hft.Prelude.Dict.{lookup, or_else}
use sentinel_hft.Prelude.Dict.Values.{AllValues, AllValues-insert, AllValues-lookup}
use sentinel_hft.Prelude.Result.{IfReturned, Result-cases}
use sentinel_hft.Prelude.Float.{Float}
use sentinel_hft.Audit.Record.{AuditRecord, passed}
use sentinel_hft.Risk.{cancel, QuoteIntent}
use sentinel_hft.Deribit.Book.{TopOfBook, mid}
use sentinel_hft.Deribit.Strategy.{
  OutstandingQuote, SymbolState, SpreadMmStrategy, fresh, papered, cancel_of, order, quote_pair,
  skew_of, too_soon, on_tick, confirm_new,
}

-- One of the records is about this order and says that it passed.
pub record Accepted (rs : List AuditRecord) (id : ℕ) : Type 0 where
  pub before : List AuditRecord
  pub rec : AuditRecord
  pub after : List AuditRecord
  pub split : rs ≡ before ++ rec ∷ after
  pub order : rec.order_id ≡ id
  pub verdict : passed rec ≡ true

pub Accepted-append :
    (rs more : List AuditRecord) (id : ℕ) → Accepted rs id → Accepted (rs ++ more) id
Accepted-append rs more id a = record {
  before = a.before;
  rec = a.rec;
  after = a.after ++ more;
  split = rw (a.split, append_assoc);
  order = a.order;
  verdict = a.verdict;
}

module _ {N : Type 0} (rs : List AuditRecord) where
  abbrev pub AllAccepted : List (OutstandingQuote N) → Type 0
  AllAccepted [] = Unit
  AllAccepted (out ∷ outs) = Accepted rs out.order_id × AllAccepted outs

  -- Every order on the strategy's lists was accepted.
  abbrev pub IsBacked : SpreadMmStrategy N → Type 0
  IsBacked s = AllValues (λ (st : SymbolState N). AllAccepted st.outstanding) s.state

  -- Every cancel among the intents is about an accepted order.
  abbrev pub CancelsAccepted : List (QuoteIntent N) → Type 0
  CancelsAccepted [] = Unit
  CancelsAccepted (i ∷ is) = (i.action ≡ cancel → Accepted rs i.order_id) × CancelsAccepted is

  pub AllAccepted-append :
      (outs : List (OutstandingQuote N)) (out : OutstandingQuote N)
      → AllAccepted outs
      → Accepted rs out.order_id
      → AllAccepted (outs ++ out ∷ [])
  AllAccepted-append [] out a one = (one, tt)
  AllAccepted-append (o ∷ outs) out a one = (a.0, AllAccepted-append outs out a.1 one)

module _ {N : Type 0} (rs more : List AuditRecord) where
  AllAccepted-more :
      (outs : List (OutstandingQuote N)) → AllAccepted rs outs → AllAccepted (rs ++ more) outs
  AllAccepted-more [] a = tt
  AllAccepted-more (o ∷ outs) a =
      (Accepted-append rs more o.order_id a.0, AllAccepted-more outs a.1)

  states-more :
      (d : List (ℕ × SymbolState N))
      → AllValues (λ (st : SymbolState N). AllAccepted rs st.outstanding) d
      → AllValues (λ (st : SymbolState N). AllAccepted (rs ++ more) st.outstanding) d
  states-more [] a = tt
  states-more ((k, st) ∷ d) a = (AllAccepted-more st.outstanding a.0, states-more d a.1)

  -- A longer log accepts what a shorter one does.
  pub IsBacked-more : (s : SpreadMmStrategy N) → IsBacked rs s → IsBacked (rs ++ more) s
  IsBacked-more s a = states-more s.state a

module _ (F : Float) (rs : List AuditRecord) where
  open F use {Num, of_nat, sub, mul, lt}

  abbrev pub Held : SymbolState Num → Type 0
  Held st = AllAccepted rs st.outstanding

  Held-fresh :
      (k : ℕ) (s : SpreadMmStrategy Num)
      → IsBacked rs s
      → Held (or_else (lookup k s.state) (fresh F))
  Held-fresh k s a = elim (Option-cases (lookup k s.state)) [
    | inl missing ↦ rw missing tt
    | inr (st, found) ↦ rw found (AllValues-lookup Held k st s.state a found)
  ]

  cancels :
      (symbol now : ℕ) (outs : List (OutstandingQuote Num)) (pair : List (QuoteIntent Num))
      → AllAccepted rs outs
      → CancelsAccepted rs pair
      → CancelsAccepted rs (map (cancel_of F symbol now) outs ++ pair)
  unfolding cancel_of
  cancels symbol now [] pair a p = p
  cancels symbol now (o ∷ outs) pair a p = (λ h. a.0, cancels symbol now outs pair a.1 p)

  pub record Ticked (x : List (QuoteIntent Num) × SpreadMmStrategy Num) : Type 0 where
    pub cancelled : CancelsAccepted rs x.0
    pub backed : IsBacked rs x.1

  -- A tick cancels accepted orders only, and leaves accepted orders only on the lists.
  pub on_tick-Ticked :
      (book : TopOfBook Num) (now : ℕ) (s : SpreadMmStrategy Num)
      → IsBacked rs s
      → IfReturned Ticked (on_tick F book now s)
  unfolding on_tick quote_pair order
  on_tick-Ticked book now s a =
      let ins = book.instrument in
      let st = or_else (lookup ins.symbol_id s.state) (fresh F) in
      let held = Held-fresh ins.symbol_id s a in
      let kept = AllValues-insert Held ins.symbol_id st s.state held a in
      let m = mid F book in
      elim (Bool-cases (not (lt (of_nat 0) m))) [
        | inl off ↦ rw off (record { cancelled = tt; backed = a })
        | inr on ↦ elim (Result-cases (too_soon F s ins m now st)) [
          | inr (x, raised) ↦ rw (on, raised) tt
          | inl (soon, returned) ↦
              rw (on, returned)
                (elim (Bool-cases
                  (soon || not (lt (of_nat 0) (sub m (mul ins.tick_size (skew_of ins.kind s)))))) [
                    | inl declined ↦ rw declined (record { cancelled = tt; backed = kept })
                    | inr quotes ↦ rw quotes (record {
                      cancelled =
                          cancels ins.symbol_id now st.outstanding (quote_pair F s ins m now) held
                            (λ h. cc, (λ h. cc, tt));
                      backed =
                          AllValues-insert Held ins.symbol_id (papered F m now st) s.state tt a;
                    })
                  ])
        ]
      ]

  -- Confirming an accepted order keeps the lists right.
  pub confirm_new-IsBacked :
      (i : QuoteIntent Num) (s : SpreadMmStrategy Num)
      → Accepted rs i.order_id
      → IsBacked rs s
      → IsBacked rs (confirm_new F i s)
  unfolding confirm_new
  confirm_new-IsBacked i s one a = elim (Option-cases (lookup i.symbol_id s.state)) [
    | inl missing ↦ rw (confirm_new, missing) a
    | inr (st, found) ↦
        rw (confirm_new, found)
          (AllValues-insert Held i.symbol_id _ s.state
            (AllAccepted-append rs st.outstanding _
              (AllValues-lookup Held i.symbol_id st s.state a found) one)
            a)
  ]
