-- ===== src/Deribit/Pipeline/Traced.antt =====
-- The trace records of a run: each decodes, and its time from wire to wire covers its stages.
use sentinel_hft.Prelude.{
  if_split, ℕ, ◌+◌, ◌*◌, ◌≤◌, ◌≡◌, refl, subst, Bool, List, [], ◌∷◌, ◌++◌, length, arith,
}
use sentinel_hft.Prelude.Float.{Float}
use sentinel_hft.Prelude.Result.{ok, bind-eq-ok}
use sentinel_hft.Struct.{pack, unpack}
use sentinel_hft.Struct.RoundTrip.{unpack-pack, length-pack}
use sentinel_hft.Trace.Adapters.{v12_struct, TraceRecordV12, from_v12, decode_record, attribution}
use sentinel_hft.Audit.Digest.{Blake2b}
use sentinel_hft.Risk.{QuoteIntent, Decision}
use sentinel_hft.Deribit.Book.{TickEvent}
use sentinel_hft.Deribit.Pipeline.{
  Random, DemoConfig, DeribitDemo, Cycles, cycles_to_ns, trace_fields,
}
use sentinel_hft.Deribit.Pipeline.Loop.{
  Tick, log_decision, confirm, decide, egress, consume_intent, no_order, consume_all,
}
use sentinel_hft.Deribit.Pipeline.Preserved.{IsTimed, consume_all_keeps}
use sentinel_hft.Deribit.Pipeline.Stages.{
  decision_time_late, log_decision_parts, append_trace_record_parts,
}

abbrev pub stages : TraceRecordV12 → ℕ
stages r = r.d_ingress + r.d_core + r.d_risk + r.d_egress

-- A trace record that the v1.2 adapter decodes, with ten nanoseconds for each cycle of its stages
-- between its two times. The attribution takes these times for cycles, so nine tenths of them are
-- an overhead to it.
pub record Timed (bs : List ℕ) : Type 0 where
  pub decoded : TraceRecordV12
  pub decode_record_lem : decode_record bs ≡ ok decoded
  pub covers : decoded.t_ingress + 10 * stages decoded ≤ decoded.t_egress
  pub overhead : 9 * stages decoded ≤ (attribution decoded).overhead

abbrev pub AllTimed : List (List ℕ) → Type 0
AllTimed [] = Unit
AllTimed (bs ∷ rest) = Timed bs × AllTimed rest

AllTimed-append :
    (xs : List (List ℕ)) (bs : List ℕ) → AllTimed xs → Timed bs → AllTimed (xs ++ bs ∷ [])
AllTimed-append [] bs a t = (t, tt)
AllTimed-append (x ∷ xs) bs a t = (a.0, AllTimed-append xs bs a.1 t)

overhead_covers :
    (r : TraceRecordV12)
    → r.t_ingress + 10 * stages r ≤ r.t_egress
    → 9 * stages r ≤ (attribution r).overhead
unfolding attribution
overhead_covers r h = ground arith

module _ {N : Type 0} where
  pack-Timed :
      (ev : TickEvent N) (t_ingress t_egress : ℕ) (c : Cycles) (tx_id flags : ℕ) (bs : List ℕ)
      → pack v12_struct (trace_fields ev t_ingress t_egress c tx_id flags) ≡ ok bs
      → t_ingress + 10 * (c.d_ingress + c.d_core + c.d_risk + c.d_egress) ≤ t_egress
      → Timed bs
  unfolding decode_record
  pack-Timed ev t_in t_out c tx fl bs e h =
      let vs = trace_fields ev t_in t_out c tx fl in
      let len : length bs ≡ 64 = length-pack v12_struct vs bs e in
      let u : unpack v12_struct bs ≡ ok vs = unpack-pack v12_struct vs bs tt e in
      record {
        decoded = from_v12 vs;
        decode_record_lem = rw (len, u);
        covers = h;
        overhead = overhead_covers (from_v12 vs) h;
      }

abbrev IsTraced : {N S : Type 0} → DeribitDemo N S → Type 0
IsTraced demo = AllTimed demo.trace_records

module _ (F : Float) (R : Random (F.Num)) (h : Blake2b) where
  open F use {Num}
  open R use {State}

  confirm-kept :
      (i : QuoteIntent Num) (d : Decision) (demo : DeribitDemo Num State)
      → ((confirm F i d demo).trace_records ≡ demo.trace_records)
        × ((confirm F i d demo).last_decision_ns ≡ demo.last_decision_ns)
  unfolding confirm
  confirm-kept i d demo =
      if_split
        (λ (x : DeribitDemo Num State).
          (x.trace_records ≡ demo.trace_records) × (x.last_decision_ns ≡ demo.last_decision_ns))
        _ (λ on. (refl, refl)) (λ off. (refl, refl))

  egress-IsTraced :
      (cfg : DemoConfig Num) (t : Tick Num) (d_risk : ℕ) (i : QuoteIntent Num) (d : Decision)
      (demo demo' : DeribitDemo Num State)
      → egress F R cfg t d_risk i d demo ≡ ok demo'
      → IsTimed t
      → t.core_ts + cycles_to_ns d_risk ≤ demo.last_decision_ns
      → IsTraced demo
      → IsTraced demo'
  unfolding egress
  egress-IsTraced cfg t d_risk i d demo demo' e time late a =
      let (bs, p, same) = append_trace_record_parts t.event _ _ _ _ _ _ e in
      subst IsTraced same (
        AllTimed-append demo.trace_records bs a
          (pack-Timed t.event _ _ _ _ _ bs p (omega (arith, time, late))))

  consume_intent-IsTraced :
      (cfg : DemoConfig Num) (t : Tick Num) (first : Bool) (i : QuoteIntent Num)
      (demo demo' : DeribitDemo Num State)
      → consume_intent F R h cfg t first i demo ≡ ok demo'
      → IsTimed t
      → IsTraced demo
      → IsTraced demo'
  unfolding consume_intent decide
  consume_intent-IsTraced cfg t first i demo demo' e time a =
      let x = decide F R cfg t.core_ts first i demo in
      let (logged, p, q) = bind-eq-ok (log_decision h x.decision x.demo) _ e in
      let (r, s, about, one, same) = log_decision_parts h x.decision x.demo p in
      let (traces, last) = confirm-kept x.intent x.decision logged in
      let late = (decision_time_late (t.core_ts + cycles_to_ns x.d_risk) demo.last_decision_ns).1 in
      egress-IsTraced cfg t x.d_risk x.intent x.decision _ demo' q time (rw (last, ← same) late)
        (rw (traces, ← same) a)

  no_order-IsTraced :
      (cfg : DemoConfig Num) (t : Tick Num) (demo demo' : DeribitDemo Num State)
      → IsTimed t
      → no_order F R cfg.budgets.egress t demo ≡ ok demo'
      → IsTraced demo
      → IsTraced demo'
  unfolding no_order
  no_order-IsTraced cfg t demo demo' time e a =
      let (bs, p, same) = append_trace_record_parts t.event _ _ _ _ _ _ e in
      subst IsTraced same (
        AllTimed-append demo.trace_records bs a
          (pack-Timed t.event _ _ _ _ _ bs p (omega (arith, time))))

  -- Every trace record of a run decodes, its wire-to-wire time is at least ten nanoseconds for each
  -- cycle of its four stages, and the attribution of the decoded record, which takes nanoseconds for
  -- cycles, reports at least nine times the stages as overhead.
  pub consume_all-IsTraced :
      (cfg : DemoConfig Num) (evs : List (TickEvent Num)) (demo demo' : DeribitDemo Num State)
      → consume_all F R h cfg evs demo ≡ ok demo'
      → AllTimed demo.trace_records
      → AllTimed demo'.trace_records
  consume_all-IsTraced cfg =
      consume_all_keeps F R h cfg IsTraced (λ ev core_ts s x y e b. b)
        (λ t first i x y time e. consume_intent-IsTraced cfg t first i x y e time)
        (no_order-IsTraced cfg) (λ n x b. b)
