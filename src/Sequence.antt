-- ===== src/Sequence.antt =====
-- sentinel_hft/streaming/sequence.py: sequence numbers of 32 bits, and the tracker that tells drops
-- from late arrivals for each core. A time stamp is only carried along.
pub mod Distance
pub mod Counters
pub mod Drops
mod Tests
use sentinel_hft.Prelude.{
  ℕ, zero, suc, ◌+◌, ◌-◌, ◌%◌, ◌^◌, Bool, ◌&&◌, Option, none, some, List, [], ◌∷◌, ◌++◌, ltb, leb,
  ◌==◌, if◌then◌else◌,
}
use sentinel_hft.Prelude.Int.{ℤ, pos, negsuc, sub_ℕ, ltb_ℤ}
use sentinel_hft.Prelude.Eq.{nat_eq}
use sentinel_hft.Prelude.Dict.{Dict, lookup, insert, or_else}

abbrev pub u32_half : ℕ
u32_half = 0x80000000

abbrev pub u32_modulus : ℕ
u32_modulus = 0x100000000

-- `val & U32_MAX`, on every Python integer.
unfoldable pub u32 : ℤ → ℕ
u32 (pos n) = n % u32_modulus
u32 (negsuc n) = u32_modulus - 1 - n % u32_modulus

unfoldable pub u32_add : ℕ → ℕ → ℕ
u32_add a b = (a + b) % u32_modulus

-- The signed distance on the circle of 32-bit numbers.
unfoldable pub u32_distance : ℕ → ℕ → ℤ
unfolding u32
u32_distance from_seq to_seq =
    let from = u32 (pos from_seq) in
    let to = u32 (pos to_seq) in
    let diff = u32 (sub_ℕ to from) in if leb u32_half diff then sub_ℕ diff u32_modulus else pos diff

pub data EventType : Type 0 where
  gap wrap : EventType

pub record DropEvent : Type 0 where
  pub core_id : ℕ
  pub expected_seq : ℕ
  pub actual_seq : ℕ
  pub dropped_count : ℕ
  pub timestamp : ℕ
  pub event_type : EventType

-- The tuple of a late arrival or of a reset: core, expected number, number, time.
abbrev pub Notice : Type 0
Notice = ℕ × ℕ × ℕ × ℕ

pub record SequenceTracker : Type 0 where
  pub expected_seq : Dict ℕ ℕ
  pub max_seen_seq : Dict ℕ ℕ
  pub total_dropped : ℕ
  pub total_reorders : ℕ
  pub total_resets : ℕ
  pub drop_events : List DropEvent
  pub reorder_events : List Notice
  pub reset_events : List Notice

abbrev pub new_tracker : SequenceTracker
new_tracker = record {
  expected_seq = [];
  max_seen_seq = [];
  total_dropped = 0;
  total_reorders = 0;
  total_resets = 0;
  drop_events = [];
  reorder_events = [];
  reset_events = [];
}

-- `_update_max_seen`
unfoldable pub update_max_seen : ℕ → ℕ → Dict ℕ ℕ → Dict ℕ ℕ
update_max_seen core_id seq seen =
    if ltb_ℤ (pos 0) (u32_distance (or_else (lookup core_id seen) 0) seq)
    then insert core_id seq seen
    else seen

-- The three ways on from a known core, by the distance.
unfoldable pub expected_branch : ℕ → ℕ → SequenceTracker → SequenceTracker
expected_branch core_id seq t = record t {
  expected_seq = insert core_id (u32_add seq 1) t.expected_seq;
  max_seen_seq = update_max_seen core_id seq t.max_seen_seq;
}

abbrev pub event_type_of : ℕ → ℕ → EventType
event_type_of expected seq = if ltb 0xffff0000 expected && ltb seq 0x10000 then wrap else gap

abbrev pub drop_event : ℕ → ℕ → ℕ → ℕ → ℕ → DropEvent
drop_event core_id expected seq dropped timestamp = record {
  core_id = core_id;
  expected_seq = expected;
  actual_seq = seq;
  dropped_count = dropped;
  timestamp = timestamp;
  event_type = event_type_of expected seq;
}

unfoldable pub gap_branch : ℕ → ℕ → DropEvent → SequenceTracker → SequenceTracker
gap_branch core_id seq event t = record t {
  drop_events = t.drop_events ++ event ∷ [];
  total_dropped = t.total_dropped + event.dropped_count;
  expected_seq = insert core_id (u32_add seq 1) t.expected_seq;
  max_seen_seq = update_max_seen core_id seq t.max_seen_seq;
}

unfoldable pub late_branch : ℕ → ℕ → ℕ → ℕ → SequenceTracker → SequenceTracker
late_branch core_id expected seq timestamp t = record t {
  total_reorders = t.total_reorders + 1;
  reorder_events = t.reorder_events ++ (core_id, expected, seq, timestamp) ∷ [];
}

-- `distance == 0`, `distance > 0` and the rest, as the code tests them.
unfoldable pub check_known :
    ℕ → ℕ → ℕ → ℕ → ℤ → SequenceTracker → Option DropEvent × SequenceTracker
check_known core_id expected seq timestamp (pos zero) t = (none, expected_branch core_id seq t)
check_known core_id expected seq timestamp (pos (suc n)) t =
    let event = drop_event core_id expected seq (suc n) timestamp in
    (some event, gap_branch core_id seq event t)
check_known core_id expected seq timestamp (negsuc _) t =
    (none, late_branch core_id expected seq timestamp t)

-- `SequenceTracker.check`
unfoldable pub check : ℕ → ℕ → ℕ → SequenceTracker → Option DropEvent × SequenceTracker
check core_id seq_no timestamp t =
    let seq = u32 (pos seq_no) in
    elim (lookup core_id t.expected_seq) [
      | none ↦ (
        none,
        record t {
          expected_seq = insert core_id (u32_add seq 1) t.expected_seq;
          max_seen_seq = insert core_id seq t.max_seen_seq;
        },
      )
      | some expected ↦ check_known core_id expected seq timestamp (u32_distance expected seq) t
    ]

-- `SequenceTracker.handle_reset`
unfoldable pub handle_reset : ℕ → ℕ → ℕ → SequenceTracker → SequenceTracker
handle_reset core_id new_seq timestamp t = record t {
  total_resets = t.total_resets + 1;
  reset_events =
      t.reset_events
      ++ (core_id, or_else (lookup core_id t.expected_seq) 0, new_seq, timestamp) ∷ [];
  expected_seq = insert core_id (u32_add new_seq 1) t.expected_seq;
  max_seen_seq = insert core_id new_seq t.max_seen_seq;
}
