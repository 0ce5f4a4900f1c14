-- ===== src/Lib.antt =====
-- A verification library for the order book of this repository, a C++ program that keeps orders,
-- matches them, checks risk and speaks FIX 4.4.
--
-- The parts, and the file that models each:
-- - Types.antt: include/orderbook/Core/Types.hpp. Enumerations, `Result`, 64-bit arithmetic.
-- - Order.antt: `Order` and `Trade` of include/orderbook/Core/Order.hpp; Order/Fill is about fill
--   and modify.
-- - Level.antt: `PriceLevel` and `OrderLocation` of the same file. The order objects that the
--   pointers reach are a store, a function from addresses to orders, so that the links of a
--   queue and the incoming order that is not in it are told apart. Level/Segment, Level/Unlink,
--   Level/Queue and Level/Passive are about the doubly linked queue.
-- - Report.antt and Matching.antt: src/Core/MatchingEngine.cpp and its header. `match_order` is
--   matchOrder with matchBuyOrder and matchSellOrder, which are each other's mirror image;
--   `match_loop` is the loop of matchAgainstPriceLevel.
-- - Manager.antt: src/Core/OrderManager.cpp. `step` is one public call, `run` a sequence of them;
--   Manager/Machine has the function from ids to orders that the manager implements, with the
--   value of each call; Manager/Calls and Manager/Modifying are about the single calls.
-- - Session.antt: src/Network/FixSession.cpp. Session/State has the state and what sends a message;
--   `step` is one event, a message or a timer, and `run` a sequence of them; `read_stream` is
--   reading from the socket, Session/Reading what comes of it, Session/Dropped of its timer.
-- - Config.antt: src/Utilities/Config.cpp.
-- - Book.antt: src/Core/OrderBook.cpp and its header, with the market data structures of
--   include/orderbook/Core/Interfaces.hpp. Book/Index has the levels and the price index,
--   Book/Trading the matching, Book/Calls the public calls; Book/Kept carries an invariant of the
--   single steps through all of them. A `PriceLevel*` is a slot of a vector; a read past the end of
--   the vector, or of the incoming order after it was deleted, ends a call in `Undefined`.
-- - Feed.antt: src/MarketData/MarketDataFeed.cpp. Feed/Format has the texts and the publications.
-- - Risk.antt: src/Risk/RiskManager.cpp and `Portfolio`. Risk/Loading takes the limits from a
--   configuration, Risk/Configured is about what it takes.
-- - Fix.antt: src/Network/FixParser.cpp and include/orderbook/Network/FixConstants.hpp. Fix/Requests
--   has the three requests, Fix/Generate the messages that are sent; Fix/Reported is about reading
--   a report back.
-- - Handler.antt: src/Network/FixMessageHandler.cpp. Handler/Requests has the three requests;
--   `handle_all` is a sequence of what the handler is called with.
-- - Pool.antt: include/orderbook/Utilities/ObjectPool.hpp. `step` is one thing that the program does
--   with a wrapper, `run` a sequence; Pool/Owned says who owns the objects.
-- - Prelude.antt: lists, integers, association lists, bytes, decimal text, and `Double`.
--
-- How they interact: a level links orders of the store; the engine fills the incoming order and the
-- orders of the levels through them; the manager owns the orders by id; the risk manager checks an
-- order against a portfolio before and books the trade after; the session hands the parser's requests
-- to the handler, which calls the manager and sends its reports through the session. The order
-- book keeps its own levels and orders, over the same queues and risk manager; its events are the
-- calls that the market data publisher gets.
--
-- Numbers. A quantity, an id and a counter are natural numbers below 2 ^ 64, and each sum and
-- difference is taken modulo 2 ^ 64 as in the source. A price is of any type with the operations
-- of the record `Double`, since the program only compares, reads and prints prices; where a
-- theorem needs that no price is NaN it takes `IsOrdered`. A position is an integer: an int64_t
-- that overflows is undefined in the source. A string is a list of bytes. A hash map is an
-- association list with one entry a key. An error is named by a constructor for its message.
--
-- A level is called well formed (`IsQueue`) when its pointers link its orders in both directions,
-- none twice, and its total and count are theirs modulo 2 ^ 64; an order is sound (`IsSound`) when
-- it is filled by no more than its quantity, which is below 2 ^ 64.
--
-- Fuel. The loops over a price level, of the engine and of the book, take fuel; two rounds are
-- given, and any more come to the same, since no run makes a third round. Decimal digits take n + 1
-- rounds for n. The loop over subscribers that erases while it runs takes as many rounds as there
-- are subscribers, since each moves on or erases one. All other loops are recursion on a list.
--
-- Parameters. `Double` stands for the type double with std::stod and the printing of two decimals;
-- the text of the present time, the time itself, and the text of an exception are arguments. The
-- tests of two prices against the smallest increment are the record `Increment`. Which subscribers
-- are alive and how their callbacks end is the record `World`.
--
-- Not modelled: logging and latency measurement, which return nothing to the program; the time
-- stamps of orders and trades; what a pooled object holds, and the allocators; the FIX server, the programs and the benchmarks, which are I/O; concurrent calls. The order book is
-- modelled with vectors that do not grow past the capacity that they reserve, and with what
-- cancelOrder reads from an erased entry as the entry held it. What std::move leaves in an incoming order whose remainder is handed back is not
-- modelled either. src/Core/MatchingEngine.cpp has two places where
-- a line break stands inside a function's return type, and is modelled as if it had not.
pub mod Prelude
pub mod Types
pub mod Order
pub mod Level
pub mod Report
pub mod Matching
pub mod Manager
pub mod Risk
pub mod Fix
pub mod Session
pub mod Config
pub mod Pool
pub mod Book
pub mod Feed
pub mod Handler
