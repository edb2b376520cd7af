-- ===== src/Lib.antt =====
-- The core of the P4 behavioral model: the containers and resource managers that match tables, multicast
-- and action profiles stand on, header stacks, meters, queues and expressions.
--
--   Bits.antt     bits of natural numbers, for machine words
--   Bitset.antt   DynamicBitset (include/bm/bm_sim/dynamic_bitset.h): a bit vector in 64-bit blocks, with
--                 the search for the lowest set or clear bit by a De Bruijn table
--   Handles.antt  HandleMgr (include/bm/bm_sim/handle_mgr.h): handles for table entries, members, groups
--                 and multicast nodes, over one DynamicBitset that has a bit for each handle in use
--   Lpm.antt      bf_lpm_trie (src/bf_lpm_trie/bf_lpm_trie.c): the trie behind LPM tables
--   Pre.antt      McSimplePre (src/bm_sim/simple_pre.cpp, include/bm/bm_sim/simple_pre.h): multicast
--                 groups of nodes, with a HandleMgr for each of its two kinds of node; Pre/Lag.antt is
--                 McSimplePreLAG (src/bm_sim/simple_pre_lag.cpp), where nodes also send to LAGs
--   Stacks.antt   header stacks (src/bm_sim/stacks.cpp), with the exchange and the marks of headers
--                 (src/bm_sim/headers.cpp)
--   Meters.antt   Meter (src/bm_sim/meters.cpp, include/bm/bm_sim/meters.h): the color marker;
--                 Meters/Arrays.antt is MeterArray
--   Profiles.antt ActionProfile (src/bm_sim/action_profile.cpp, include/bm/bm_sim/action_profile.h,
--                 include/bm/bm_sim/ras.h): members and groups for indirect tables, with a HandleMgr for
--                 each, counts of references in Profiles/Parts.antt, what packets and clients read
--                 in Profiles/Reads.antt, and saving and restoring in Profiles/Save.antt
--   Queueing.antt QueueingLogic and QueueingLogicRL (include/bm/bm_sim/queueing.h): logical queues that are
--                 shared between workers, without and with rates
--   Expressions.antt
--                 Expression and VLHeaderExpression (src/bm_sim/expressions.cpp,
--                 include/bm/bm_sim/expressions.h): expressions as operations on stacks, with registers
--
-- A class is a record of its fields, and a member function takes the record and returns its results with
-- the new record. Machine words wrap around by `% 2 ^ 64`. The child modules of a file hold the lemmas and
-- theorems; each Tests module has the theorems at concrete data.
--
-- Correspondence: set_bit, reset, push_back, resize, find_next and find_unset_next are DynamicBitset's
-- `set`, `reset`, `push_back`, `resize`, `find_next` and `find_unset_next`. get_handle, release_handle,
-- set_handle, valid_handle and clear are HandleMgr's, and begin and next its iterators. In the trie,
-- create, insert, retrieve_value, has_prefix, lookup and delete are the functions `bf_lpm_trie_*`;
-- get_next_node, set_next_node, delete_branch, insert_prefix, get_prefix, get_empty_prefix and
-- delete_prefix keep their names, and search is the binary search that they repeat. The operations of
-- McSimplePre keep their names; its unordered maps are the association lists of Base/Maps.antt, and an
-- operation that calls `at` on a missing key gives the outcome `throws`.
--
-- Stacks/Legacy.antt and Stacks/Conformant.antt are StackLegacy and StackP4_16; their pop_front_num and
-- push_front_num are the overloads with a count.
--
-- A meter's rates are of any type with a comparison and with the tokens of a rate in a time, in place of
-- `double` and its product; the clock and the packet's length are arguments of execute, and how a rate is
-- written as text and read back is an argument of serialize and deserialize. Meters/Limit.antt follows a
-- meter through a history of packets.
--
-- Queueing/Logic.antt is QueueingLogic and Queueing/RateLimited.antt is QueueingLogicRL, whose priority
-- queue, a heap of the C++ library, is the sorted list of Queueing/Heap.antt. The map of queues to workers
-- and the conversion of a rate to ticks are parameters, the time is an argument, and a call that would
-- block answers that it waits.
--
-- In Expressions, Ops.antt and Build.antt are the operations, the push_back functions,
-- append_expression and build with its assignment of registers; Temps.antt is ExpressionTemps;
-- Eval.antt is eval_ and the functions that call it; Resolve.antt is VLHeaderExpression; Source.antt
-- has typed trees with their meaning, and how one is written with the push_back functions. The
-- packet's objects and the arithmetic of the class Data are a record of operations that all
-- definitions take.
--
-- ActionProfile's operations keep their names; the sets of Boost are a record of what is used of them, with
-- their documented behaviour in Profiles/Inv.antt. Profiles/Reach.antt and Pre/Run.antt are the calls as
-- steps, with the states that they lead to.
--
-- Bounds and fuel: the binary search of the trie stops after the length of the array in rounds, since the
-- interval shrinks in each, and a loop over handles after one round for each bit, by Handles/Walk.antt.
-- Theorems on growth of a bit vector ask for room for 64 more bits below 2 ^ 64.
--
-- Not modelled: memory (destroy, capacities, pointers to parents), locks,
-- and the byte that the trie reads past the end of a prefix, whose value is shifted out. Asserted
-- preconditions are hypotheses. Of ActionProfile, printing
-- and other selectors; of the queues, to_string, QueueingLogicPriRL and the notifications; of
-- the expressions, the opcodes' names and the references that eval_arith_lvalue returns. Of the
-- repository's other parts: match tables, the parser, headers and packets, which build on these
-- containers and on big integers of a library; the reader of JSON programs; and servers, targets,
-- devices and loggers, which do I/O.
pub mod Base
pub mod Bits
pub mod Bitset
pub mod Expressions
pub mod Handles
pub mod Lpm
pub mod Meters
pub mod Pre
pub mod Profiles
pub mod Queueing
pub mod Stacks
