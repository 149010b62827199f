-- ===== src/Deribit/Strategy/Raises.antt =====
-- What the quoting strategy raises: `ZeroDivisionError` for a tick size of zero, at most.
use sentinel_hft.Prelude.{ℕ, ◌+◌, not, ◌&&◌, ltb, ◌==◌, Bool-cases, inl, inr}
use sentinel_hft.Prelude.Float.{Float, is_zero}
use sentinel_hft.Prelude.Result.{IsNumeric, OnlyRaises, bind-OnlyRaises_ok}
use sentinel_hft.Deribit.Book.{Instrument, TopOfBook, mid}
use sentinel_hft.Deribit.Strategy.{SymbolState, SpreadMmStrategy, too_soon, on_tick}

module _ (F : Float) where
  open F use {Num, of_nat, lt}

  too_soon-OnlyRaises :
      (s : SpreadMmStrategy Num) (ins : Instrument Num) (m : Num) (now : ℕ) (st : SymbolState Num)
      → OnlyRaises IsNumeric (too_soon F s ins m now st)
  unfolding too_soon
  too_soon-OnlyRaises s ins m now st =
      let recent = not (st.last_paper_ns == 0) && ltb now (st.last_paper_ns + s.repaper_ns) in
      elim (Bool-cases recent) [
        | inr old ↦ rw old tt
        | inl paper ↦ elim (Bool-cases (lt (of_nat 0) st.last_mid)) [
          | inr no_mid ↦ rw (paper, no_mid) tt
          | inl has_mid ↦ elim (Bool-cases (is_zero F ins.tick_size)) [
            | inl zero_size ↦ rw (paper, has_mid, zero_size) tt
            | inr sized ↦ rw (paper, has_mid, sized) tt
          ]
        ]
      ]

  -- A tick raises for a tick size of zero at most.
  pub on_tick-OnlyRaises :
      (book : TopOfBook Num) (now : ℕ) (s : SpreadMmStrategy Num)
      → OnlyRaises IsNumeric (on_tick F book now s)
  unfolding on_tick
  on_tick-OnlyRaises book now s =
      let m = mid F book in
      elim (Bool-cases (not (lt (of_nat 0) m))) [
        | inl off ↦ rw off tt
        | inr on ↦ rw on (
            bind-OnlyRaises_ok IsNumeric (too_soon F s book.instrument m now _) _
              (too_soon-OnlyRaises s book.instrument m now _))
      ]
