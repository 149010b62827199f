-- ===== src/Compliance/Mar.antt =====
-- sentinel_hft/compliance/market_abuse.py: the detector of spoofing and layering.
pub mod Memory
pub mod Firing
pub mod Calls
pub mod Seen
use sentinel_hft.Prelude.{
  ℕ, ◌+◌, ◌-◌, Bool, true, false, not, ◌&&◌, Option, none, some, List, [], ◌∷◌, ◌++◌, length, drop,
  leb, ltb, ◌==◌, if◌then◌else◌,
}
use sentinel_hft.Prelude.Eq.{triple_eq}
use sentinel_hft.Prelude.Dict.{Dict, lookup, insert, or_else}
use sentinel_hft.Prelude.Result.{Result, ok, err, index_error, ◌>>=◌}

pub record MarAlert : Type 0 where
  pub trader_id : ℕ
  pub symbol_id : ℕ
  pub side : ℕ
  pub n_orders : ℕ
  pub window_ns : ℕ
  pub first_order_ns : ℕ
  pub last_cancel_ns : ℕ

pub record OrderEvent : Type 0 where
  pub ts_ns : ℕ
  pub order_id : ℕ
  pub filled : Bool
  pub cancelled_ns : Option ℕ

-- (trader_id, symbol_id, side)
abbrev pub Key : Type 0
Key = ℕ × ℕ × ℕ

pub record SpoofLayerDetector : Type 0 where
  pub min_cancelled : ℕ
  pub window_ns : ℕ
  pub min_time_on_book_ns : ℕ
  pub max_history : ℕ
  pub hist : Dict Key (List OrderEvent)
  pub alerts : List MarAlert
  pub orders_seen : ℕ
  pub cancels_seen : ℕ
  pub fills_seen : ℕ

-- `deque(maxlen = cap).append(e)`: the oldest event goes when it is full.
unfoldable pub push : ℕ → List OrderEvent → OrderEvent → List OrderEvent
push cap dq e = let longer = dq ++ e ∷ [] in drop (length longer - cap) longer

-- `_bucket`: the deque of a key, which is made if there is none.
unfoldable pub bucket : Key → SpoofLayerDetector → List OrderEvent × SpoofLayerDetector
bucket key d = elim (lookup key d.hist) [
  | some dq ↦ (dq, d)
  | none ↦ ([], record d { hist = insert key [] d.hist })
]

-- What happens to the deque of a key, which all its users share.
unfoldable pub store : Key → List OrderEvent → SpoofLayerDetector → SpoofLayerDetector
store key dq d = record d { hist = insert key dq d.hist }

unfoldable pub on_new : Key → ℕ → ℕ → SpoofLayerDetector → SpoofLayerDetector
on_new key order_id ts d =
    let (dq, d') = bucket key (record d { orders_seen = d.orders_seen + 1 }) in
    store key
      (push d.max_history dq
        (record { ts_ns = ts; order_id = order_id; filled = false; cancelled_ns = none }))
      d'

abbrev pub is_pending : ℕ → OrderEvent → Bool
is_pending order_id e =
    (e.order_id == order_id) && elim e.cancelled_ns [ none ↦ true | some t ↦ false ]

-- The loop over the reversed deque: the last event of the order that is not cancelled yet.
unfoldable pub mark_cancelled : ℕ → ℕ → List OrderEvent → Option (List OrderEvent)
mark_cancelled order_id ts [] = none
mark_cancelled order_id ts (e ∷ es) = elim (mark_cancelled order_id ts es) [
  | some es' ↦ some (e ∷ es')
  | none ↦ if is_pending order_id e then some (record e { cancelled_ns = some ts } ∷ es) else none
]

-- The loop over the deque: the first event of the order.
unfoldable pub mark_filled : ℕ → List OrderEvent → List OrderEvent
mark_filled order_id [] = []
mark_filled order_id (e ∷ es) =
    let later = mark_filled order_id es in
    if e.order_id == order_id then record e { filled = true } ∷ es else e ∷ later

-- The events that count: cancelled within the window, not filled, and long enough on the book. The
-- differences of the source, which may be negative, stand as sums on the other side.
unfoldable pub is_layered : SpoofLayerDetector → ℕ → OrderEvent → Bool
is_layered d now e = elim e.cancelled_ns [
  | none ↦ false
  | some t ↦ leb now (t + d.window_ns) && (not e.filled && leb (e.ts_ns + d.min_time_on_book_ns) t)
]

unfoldable pub layered : SpoofLayerDetector → ℕ → List OrderEvent → List OrderEvent
layered d now [] = []
layered d now (e ∷ es) =
    let later = layered d now es in if is_layered d now e then e ∷ later else later

-- `cancelled[0]`
abbrev pub first : List OrderEvent → Result OrderEvent
first [] = err index_error
first (e ∷ es) = ok e

abbrev pub alert_of : Key → ℕ → ℕ → ℕ → ℕ → MarAlert
alert_of (trader, symbol, side) n window first_ns now = record {
  trader_id = trader;
  symbol_id = symbol;
  side = side;
  n_orders = n;
  window_ns = window;
  first_order_ns = first_ns;
  last_cancel_ns = now;
}

abbrev pub fire : Key → MarAlert → SpoofLayerDetector → Option MarAlert × SpoofLayerDetector
fire key alert d = (some alert, store key [] (record d { alerts = d.alerts ++ alert ∷ [] }))

-- `_maybe_fire`, whose alert empties the deque.
unfoldable pub maybe_fire :
    Key → ℕ → SpoofLayerDetector → Result (Option MarAlert × SpoofLayerDetector)
maybe_fire key now d =
    let cancelled = layered d now (or_else (lookup key d.hist) []) in
    if ltb (length cancelled) d.min_cancelled then ok (none, d) else (do
      e ← first cancelled
      ok (fire key (alert_of key (length cancelled) d.window_ns e.ts_ns now) d))

unfoldable pub on_cancel :
    Key → ℕ → ℕ → SpoofLayerDetector → Result (Option MarAlert × SpoofLayerDetector)
on_cancel key order_id ts d =
    let (dq, d') = bucket key (record d { cancels_seen = d.cancels_seen + 1 }) in
    maybe_fire key ts (store key (or_else (mark_cancelled order_id ts dq) dq) d')

unfoldable pub on_fill : Key → ℕ → SpoofLayerDetector → SpoofLayerDetector
on_fill key order_id d =
    let (dq, d') = bucket key (record d { fills_seen = d.fills_seen + 1 }) in
    store key (mark_filled order_id dq) d'
