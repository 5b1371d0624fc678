-- ===== src/Lib.antt =====
-- A verification library for the core of StockMesh (engine/stockmesh), the engine behind XTXC: a
-- compiler of venue liquidity to marginal curves, two allocators over it, the kernels that clear,
-- match, price and admit orders, and the resting asks of its on-chain settlement program.
--
-- Files and code:
-- - Common: engine/stockmesh/lib.rs. Outcome has the errors and what a call gives: a value, an
--   error or an abort (`panic`), since the crate is built with overflow checks, so that
--   arithmetic or an index out of range aborts the call. Meter has the operation budget
--   `WorkMeter` and the calls that are charged to one; the meter comes back with an error too.
--   Tests, Lists, Int and Bits have Boolean tests, lists, signed words and masks over the native
--   numbers.
--   Ends has the postconditions of calls: what a value satisfies, and whether the call may
--   abort.
-- - Compiler: engine/stockmesh/compiler/mod.rs. `Curve`, `validate`, `quote`, the snapshots
--   with `exact_quote`; Chords has the constant product arm of `compile` and Compile the book
--   arm and `compile` itself. Bands is the independent description of a curve: the area under
--   its bands. Quote, Book, Product, Sampled and Under prove.
-- - Optimizer: engine/stockmesh/optimizer/mod.rs, the streaming allocator `waterfill`; Search
--   and Subsets have the search over subsets of venues, with that allocator as its query, as
--   `search_reference` calls it. Price, Choice, Lanes, Waterfill, Optimal, Progress, Total and
--   Sound prove.
-- - Optimizer/Oracle: engine/stockmesh/optimizer/oracle.rs, the refinement of a plan against
--   exact quotes. Oracle has the plans and the seeds, Refine the exchanges and
--   `refine_bounded_legs`. Arrays, Priced, Sound, Seeds and Refined prove.
-- - Fair: engine/stockmesh/fair/mod.rs, the consensus of price intervals and the midpoint
--   crossing. Consensus and Limits prove.
-- - Clearing: engine/stockmesh/clearing/mod.rs. Clearing has the residual graph and the pivots,
--   Cycle the metered search, Fold `fold` and `validate_fold`, Lots their versions on lots,
--   Residual the residual groups and `distribute`, Settlement `verify_settlement` and its
--   proof. Quantum, Balance, Accept, LotBalance, Groups and Distribute prove.
-- - OneBook: engine/stockmesh/onebook/mod.rs. OneBook has the orders and a trade, Matching
--   `match_continuous`, Levels `compile_virtual_book`. Scan, Trades, Sorted and Total prove.
-- - Admission: engine/stockmesh/runtime/admission.rs; Moves has any sequence of calls on the lane,
--   and Lane, Once and Apart prove.
-- - Settle: engine/stockmesh/programs/stocklana-settle. Settle has the results of an
--   instruction and the accounts, Bytes the little-endian words in account data
--   (engine/stockmesh/adapters/lib.rs), Exposure the conversion to economic exposure
--   (engine/stockmesh/native/src/lib.rs and exposure.rs of the program), Asset the checks of
--   token accounts (graph.rs), Layout the offsets of an order, Order `record_fill` and
--   `validate_fill`, Order/Cancel `cancel`, Order/Record the terms and the data of a new
--   order, Order/Place `place` (order.rs), Policy the checks of a policy and of a claim
--   (stock.rs and claim.rs). Exposure/Floor, Policy/Permits and the
--   other children of Order prove.
-- - Tests: runs of the model, and the theorems at concrete inputs.
--
-- Conventions: a number of the source is a native number with its range written out; a 32-byte
-- key is a number; an array with a length is a list, of which the code reads the first entries;
-- an array that is indexed like the orders is a list of the orders' own entries. `&mut` state is
-- passed and returned. In Settle a key is the list of its bytes, and the data of an account is a
-- list of bytes. The oracle of the refinement, the derivation of program addresses, the clock,
-- the rent, the instructions of the system program and the calls of other programs are
-- parameters: functions, since the oracle describes one immutable state and the runtime is
-- deterministic. No theorem assumes more of them than it says.
--
-- Bounds and fuel: the loop of `waterfill` has fuel for 128 rounds, as many as eight curves of
-- sixteen bands have, and each round uses up a band or ends; Total proves that this is enough.
-- Euclid's loop has fuel for one round more than its second number, which falls in each round.
-- The loop of `match_continuous` has fuel for 17 rounds: each closes at least one of at most 16
-- orders, and OneBook/Total proves that the rounds suffice. The loops of the pivots and of the
-- search for a cycle have the source's own bounds. The loop of the refinement halves a step below
-- 2 ^ 47 and has fuel for 64 rounds; Refined proves that it suffices. The loops over the
-- extensions of a token account have fuel for one round more than its bytes, and every extension
-- takes at least four of them.
--
-- Not modelled: the residual tape and the searches that query it (optimizer/tape.rs), the
-- execution loop (reflow), of the settlement program the publication of policies and claims and
-- the instructions of the other files, the native venue math beyond the exposure, the adapters
-- beyond the reading of a word, the host and the harness. The borrow checks of accounts before a
-- call of the token program have no counterpart, since no borrow is held there.
pub mod Common
pub mod Compiler
pub mod Optimizer
pub mod Fair
pub mod Clearing
pub mod OneBook
pub mod Admission
pub mod Settle
pub mod Tests
