-- ===== src/Lib.antt =====
-- Asteria: the batch auction and its private market, the order book, the event log, the state
-- snapshots and the key generation ceremony of a perpetual futures exchange.
--
-- The parts and their files. `Auction` models src/batch_auction.rs, the uniform-price auction that
-- clears the private orders of a block: `Auction/Types` has its data types, `Auction/Allocate` the
-- eligible orders and the priority by hash, `Auction/Sides` the allocation on one side
-- (`allocate_side`, `allocate_group`, `allocate_pro_rata`), `Auction/Candidate` the evaluation of
-- one price with its rounds and its fallback, and `Auction/Clear` validation and `clear_batch`.
-- The proofs follow the same order: `Auction/Fits`, `Auction/Fill`, `Auction/ProRata`,
-- `Auction/Split`, `Auction/Group`, `Auction/OneSide`, `Auction/Balanced`, `Auction/Rounds`,
-- `Auction/Validate`, `Auction/Prices`, `Auction/Ranking`, `Auction/Best`, `Auction/Outcome`,
-- `Auction/Optimal` and `Auction/Listing`.
--
-- `StateSync` models src/state_sync.rs, by which a node that joins takes over the state of others:
-- `StateSync/Types` has its data types and the codec, `StateSync/Metadata` the checks of the
-- metadata, `StateSync/Export` the sending side and `StateSync/Import` the receiving side.
-- `StateSync/Chunks`, `StateSync/Created`, `StateSync/Delivery`, `StateSync/RoundTrip` and
-- `StateSync/Verified` hold the proofs.
--
-- `OrderBook` models src/orderbook.rs, the continuous book beside the auction, on the types of
-- src/domain.rs and the errors of src/error.rs in `Domain`. `OrderBook/Levels` has the queues by
-- price, `OrderBook/Release` the release of reserved margin, `OrderBook/Cancel` cancelling,
-- `OrderBook/Match` the matching loop, and `OrderBook/Active` the queries, the batch fills and the
-- restoring of orders. The proofs: `OrderBook/ReleaseBounds` has the lemmas on releases;
-- `OrderBook/WellFormed` defines the invariant, which `OrderBook/Removal`, `OrderBook/Removed`,
-- `OrderBook/Updated` and `OrderBook/Pushed` follow through the primitive changes of a book;
-- `OrderBook/Best` is about the best price, `OrderBook/Fills` and `OrderBook/Passed` about the
-- fills of one pass, `OrderBook/Report` about what fills say,
-- `OrderBook/Step` about one pass of the loop, `OrderBook/Loop` about the loop
-- with its fuel, and `OrderBook/Execute`, `OrderBook/Trading` and `OrderBook/BatchFill` about the
-- operations.
--
-- `Event` models src/event.rs, the hash-chained log to which the engine appends what happens and
-- from which clients poll. `Event/Window` is about its bounded length, `Event/Chain` about the
-- chain of hashes, and `Event/Polling` about the answers to a poll.
--
-- `PrivateMarket` models src/private_market.rs, which stands between the decimals of the market
-- and the integers of the auction: `PrivateMarket/Types` has its data types, `PrivateMarket/Units`
-- the conversions, `PrivateMarket/Orders` the orders for the auction (`to_auction_order`),
-- `PrivateMarket/Pairing` the pairing of buys and sells into fills (`pair_fills`), and
-- `PrivateMarket/Clearing` with the maps of `PrivateMarket/ById` the whole: `clear_private_batch`
-- calls the auction and settles what comes out of it (`PrivateMarket/Cleared`, with
-- `PrivateMarket/Ordered` on the map of the participants).
-- `PrivateMarket/Gcd` and `PrivateMarket/Fractions` are about divisors and reduced fractions,
-- `PrivateMarket/Aligned` and `PrivateMarket/Exact` about the conversions,
-- `PrivateMarket/Rounding` about the protection prices of market orders, `PrivateMarket/Shares`
-- about what an order has in fills and queues, `PrivateMarket/Progress` about one pass of the
-- pairing, `PrivateMarket/Fills` and `PrivateMarket/Enough` about its loop, and
-- `PrivateMarket/Settlement` about its result.
--
-- `Ceremony` models src/dkg_ceremony.rs, in which a validator's coordinator leads it through the
-- rounds of a key generation and writes each step to a journal first: `Ceremony/Types` has the
-- durable record and the errors, `Ceremony/Record` its validation, its canonical form and the
-- transitions of phases, `Ceremony/Journal` the journal as an interface and the one in memory,
-- `Ceremony/Coordinator` the coordinator with its commits and aborts, `Ceremony/Rounds` starting,
-- recovering and the checks of messages, and `Ceremony/FirstRound`, `Ceremony/SecondRound` and
-- `Ceremony/Closing` the calls. `Ceremony/Contract` says what the coordinator asks of a journal,
-- and `Ceremony/Canonical` and `Ceremony/Memory` are about the journal in memory.
-- `Ceremony/Evidence` says what a record has collected, and `Ceremony/Keeps` has the invariant and
-- the rules for chains of calls; `Ceremony/Commits`, `Ceremony/Aborts`,
-- `Ceremony/Round1`, `Ceremony/Round2` and `Ceremony/Finish` follow it through the calls.
-- `Ceremony/Calls`, `Ceremony/Recovery`, `Ceremony/History` and `Ceremony/Life` are about
-- sequences of calls, failures and recoveries, `Ceremony/Peers` about the digest of the peers,
-- `Ceremony/Tombstones` and `Ceremony/Deadline` about late calls, and `Ceremony/Certificates` and
-- `Ceremony/Again` about messages that were sent before.
--
-- `Base` and the files below it hold lists, sorting, maps, bytes, machine words, the result monad
-- and the monad of methods that change a state (`Base/Action`) that the parts share. Each part
-- keeps its runs on concrete inputs in a module Tests.
--
-- How code becomes definitions. A struct is a record and an enum a data type. A `u64` is a native
-- natural number; its checked operations return an option that is empty at 2^64 (`Base/Words`),
-- and the products of the pro-rata shares are checked against 2^128. A `Result` is a result type,
-- and the order book's results tell a returned error from a panic. A `BTreeMap` from ids is a list
-- sorted by key, a `VecDeque` is a list, and a slice that the code updates in place is passed on
-- and returned.
--
-- Bounds and fuel. The auction's rounds are the code's own bound, four times the number of orders
-- and eight more, after which the code falls back to the immediate-or-cancel orders: no other fuel
-- is needed. That bound overflows for 2^62 - 2 orders and more, which is why theorems ask for
-- fewer. The matching loop of the order book runs on fuel that is the number of resting orders and
-- two more, which `OrderBook/Loop` proves to be enough: each pass removes a resting order or uses
-- up the incoming one. The loop that pairs fills runs on as much fuel as there are entries on the
-- two sides (`PrivateMarket/Enough`), and that of `gcd` on its right argument, which each pass
-- lowers. The chunks of a snapshot are counted by the code before they are cut.
--
-- Parameters. SHA-256 is a function of bytes in the auction and a field of the codec in the state
-- snapshots, beside hex, serde_json, and the engine's serialization, application hash and audit;
-- `CodecLaws` names what the proofs rest on. The event log's JSON, SHA-256 and hex are its own
-- codec. `rust_decimal::Decimal` is the interface `Decimal`, whose arithmetic is checked; a value
-- is the number that it stands for, and `DecimalLaws` names what the proofs rest on. The private
-- market also reads mantissas and scales, which are the interface `FixedDecimal`; what is said of
-- conversions is said for scales of at most 28, the largest that `rust_decimal` has. The
-- ceremony's provider of cryptography is an interface, as in the code; the envelopes and messages
-- that it exchanges, from src/dkg_transport.rs and src/threshold_dkg.rs, are the record
-- `Transport`, and serde on records is `RecordCodec`, with `RecordCodecLaws` for what the proofs
-- rest on. The coordinator's theorems hold for each journal with `JournalContract`.
--
-- What is not modelled: of the ceremony, the software provider, the sealed envelopes and FROST;
-- the engine, accounts and risk, consensus, the transaction formats, the shielded pool and the
-- circuits, the store and the servers. They rest on cryptographic libraries, on input and output,
-- or on parts that come before them in this library. Formatting of errors and
-- debug assertions (at the end of `allocate_side`) are left out.
pub mod Base
pub mod Auction
pub mod StateSync
pub mod Decimal
pub mod Domain
pub mod OrderBook
pub mod Event
pub mod Ceremony
pub mod PrivateMarket
