-- ===== src/Compliance/Cat.antt =====
-- sentinel_hft/compliance/cat_export.py: the feed of the consolidated audit trail. A record stands
-- for its line of JSON; fields that every caller fills with the same text are left out.
use sentinel_hft.Prelude.{
  ℕ, zero, suc, true, ◌+◌, ◌≡◌, ◌↔◌, refl, sym, ap, ◌∙◌, Option, none, some, List, [], ◌∷◌, ◌++◌,
  ◌==◌, ==_iff,
}
use sentinel_hft.Prelude.Eq.{Eq}
use sentinel_hft.Prelude.Dict.{Dict, lookup, insert, or_else}
use sentinel_hft.Audit.Record.{RejectReason}

pub data CatEvent : Type 0 where
  meno mecr meom metr meor : CatEvent

abbrev pub event_code : CatEvent → ℕ
event_code meno = 0
event_code mecr = 1
event_code meom = 2
event_code metr = 3
event_code meor = 4

abbrev pub event_of : ℕ → CatEvent
event_of zero = meno
event_of (suc zero) = mecr
event_of (suc (suc zero)) = meom
event_of (suc (suc (suc zero))) = metr
event_of _ = meor

pub event_of-event_code : (e : CatEvent) → event_of (event_code e) ≡ e
event_of-event_code meno = refl
event_of-event_code mecr = refl
event_of-event_code meom = refl
event_of-event_code metr = refl
event_of-event_code meor = refl

pub event_code_iff : (a b : CatEvent) → ((event_code a == event_code b) ≡ true) ↔ (a ≡ b)
event_code_iff a b = (
  λ h.
      sym (event_of-event_code a)
      ∙ ap event_of ((==_iff (event_code a) (event_code b)).0 h)
      ∙ event_of-event_code b,
  λ e. (==_iff (event_code a) (event_code b)).1 (ap event_code e),
)

instance abbrev pub event_eq : Eq CatEvent
event_eq = record { same = λ a b. event_code a == event_code b; same_iff = event_code_iff }

-- 'B', 'S' or '?'.
pub data SideName : Type 0 where
  side_b side_s side_unknown : SideName

-- `symbol` is the number in the name `HL-{symbol_id}`.
pub record CatRecord (N : Type 0) : Type 0 where
  pub event_type : CatEvent
  pub event_timestamp_ns : ℕ
  pub order_id : ℕ
  pub symbol : ℕ
  pub side : SideName
  pub price : N
  pub quantity : N
  pub reject_reason : Option RejectReason

-- `fh` is the file's lines, if a file is open.
pub record CatExporter (N : Type 0) : Type 0 where
  pub fh : Option (List (CatRecord N))
  pub count : ℕ
  pub by_type : Dict CatEvent ℕ

module _ {N : Type 0} where
  abbrev pub write : CatRecord N → Option (List (CatRecord N)) → Option (List (CatRecord N))
  write r none = none
  write r (some lines) = some (lines ++ r ∷ [])

  unfoldable pub emit : CatRecord N → CatExporter N → CatExporter N
  emit r c = record c {
    count = c.count + 1;
    by_type = insert r.event_type (or_else (lookup r.event_type c.by_type) 0 + 1) c.by_type;
    fh = write r c.fh;
  }

  unfoldable pub close : CatExporter N → CatExporter N
  close c = record c { fh = none }
