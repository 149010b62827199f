-- ===== src/Lib.antt =====
-- Sentinel-HFT: the core of the Python host, sentinel_hft/.
--
-- The program watches a trading pipeline. For every order intent of a strategy the risk gate decides
-- whether the order passes; the audit logger chains the decisions into a log of 96-byte records, and
-- the verifier walks such a log and reports where the chain is broken. The compliance stack observes
-- every intent together with its decision and keeps the counters of five regulations. Traces of the
-- pipeline arrive as files of binary records in three formats, which the reader detects and decodes,
-- and the sequence tracker counts, per core, what was lost on the way.
--
-- Files and the code they are about (paths from the repository's root):
--   Prelude       numbers, tests, lists, integers, dictionaries, slices of bytes, reads of a file, and
--                 Python exceptions as values (Prelude.Result). Prelude.Float is the interface of
--                 Python floats; Prelude.Integral fills it with integers.
--   Struct        the codes of Python's struct module that the formats use, and their round trips.
--   Audit         sentinel_hft/audit: Record is record.py (AuditRecord with encode, decode,
--                 payload_bytes and hash_lo, write_records, read_records), Logger is logger.py
--                 (AuditLogger.log is `log`), Verifier is verifier.py (`verify`, its loop `walk`, and
--                 `visit` for one record), Alert is alert_log.py (AlertChain.append, verify_chain;
--                 Alert.Reader is decode and read_alerts).
--   Sequence      sentinel_hft/streaming/sequence.py: u32_distance and SequenceTracker.
--   Trace         Adapters is sentinel_hft/adapters/base.py, sentinel_adapter.py and
--                 sentinel_adapter_v12.py; Header is sentinel_hft/formats/file_header.py and
--                 auto_detect of sentinel_hft/adapters/__init__.py; Reader is
--                 sentinel_hft/formats/reader.py.
--   Risk          sentinel_hft/deribit/risk.py: TokenBucket, PositionTracker, KillSwitch and
--                 RiskGate.evaluate, whose four steps are `submit`, `rated`, `limits` and `accept`.
--   Deribit       sentinel_hft/deribit: Book is book.py, Strategy is strategy.py (on_tick, confirm_new)
--                 and Pipeline is pipeline.py, whose _consume_tick is `consume_tick`: the stages of
--                 one intent are `decide`, `log_decision`, `confirm` and `egress`. Its trace records
--                 are those of Trace, its decisions those of Risk, its log that of Audit.
--   Streaming     sentinel_hft/streaming: Sketch is quantiles.py, Window is rolling_window.py, Metrics is
--                 StreamingMetrics of analyzer.py, a client of Sequence and of the other two, and
--                 Attribution is attribution.py.
--   Analysis      Minimizer is minimize_reproducer of sentinel_hft/analysis/minimizer.py: its while loop
--                 is `search`, with one `round` for each iteration.
--   Hyperliquid   sentinel_hft/hyperliquid: Fixture is the tick of fixture.py, Scorer and Guard are
--                 ToxicFlowScorer and ToxicFlowGuard of scorer.py, and Runner is runner.py, whose
--                 _consume_tick is `take_tick`: an intent goes to `reject_toxic` or to `pass_gate`.
--                 It composes them with the book, strategy and trace records of Deribit, the gate of
--                 Risk, the log of Audit and the observers of Compliance.
--   Onchain       sentinel_hft/onchain: Record is record.py with the files of analyzer.py, Analyzer is
--                 OnchainMetrics, whose sketches are those of Streaming.
--   Triage        sentinel_hft/ai: Detectors is triage_detectors.py, Agent is TriageAgent of
--                 triage_stream.py, a client of the detectors and of Audit.Alert.
--   Compliance    sentinel_hft/compliance: Mar is market_abuse.py, Otr is mifid_otr.py, SelfTrade is
--                 self_trade_guard.py, FatFinger is price_sanity.py, Cat is cat_export.py, and Stack
--                 is stack.py, which calls the five.
-- A module's theorems stand in its children, and runs on concrete inputs in its Tests.
--
-- State is a record, and an operation that changes it returns the new record; what Python mutates
-- through a shared reference, such as the deques of the market abuse detector, is written back into
-- the dictionary that holds it. A call that may raise returns a Result, and what its callers do not
-- catch ends the run. A generator returns the list of what it yields with the exception that ends it.
--
-- Parameters. BLAKE2b is a function to 32 bytes. Floats are any type of numbers with the order laws
-- that doubles have under rounding on values that are not NaN; no law of exact arithmetic is assumed.
-- The conversion of a number to `int` is none where Python raises OverflowError, on an infinite number,
-- and the division by a tick size of zero raises ZeroDivisionError; the draws of a latency budget, which
-- become cycles, are taken to be finite and its burst factor not to be zero.
-- Reading CSV is a function from the bytes of the file. The draws of Python's random generator are
-- functions of its state, with no law; logarithms, roots, powers and infinities are functions and
-- values, with one law on the difference of a number with itself. Which bytes are the UTF-8 of a text is
-- a test on bytes.
--
-- Bounds and fuel. Fields of records have the widths of their struct codes, and a value out of range
-- is an error of `pack`, as in Python; sequence numbers are taken modulo 2^32, positions as two's
-- complement of 64 bits; other integers are Python's, without a bound. Reading a file in buffers of
-- n > 0 bytes takes at most as many reads as the file has bytes, which is the fuel of `reads`;
-- a record of the alert log takes at least four bytes, so `read_from` has the length of the file; the
-- minimizer's loop has the iterations that its caller allows; all other loops are recursion on a list.
--
-- Not modelled: the texts of messages and the JSON of snapshots, the command lines and servers,
-- exporters, reports, language-model calls, the web application and the hardware, which are input and
-- output or other languages; and the trace pipeline of the host and licensing, which the modelled parts
-- do not call.
pub mod Prelude
pub mod Struct
pub mod Audit
pub mod Sequence
pub mod Trace
pub mod Risk
pub mod Deribit
pub mod Hyperliquid
pub mod Compliance
pub mod Streaming
pub mod Analysis
pub mod Onchain
pub mod Triage
