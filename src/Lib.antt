-- ===== src/Lib.antt =====
-- ytlib, a C++ library of headers: containers, a cache, string and codec tools, number and sort
-- routines, a calculator of logical expressions, queues between threads, and the buffers of its RPC
-- streams.
--
-- The parts do not share state; each is a class or a set of functions of one header, and one module
-- here:
--   Container.RingBuf     ytlib/container/ring_buf.hpp          RingBuf
--   Cache.LocalCache      ytlib/cache/local_cache.hpp           LocalCache
--   Text.UrlEncode        ytlib/string/url_encode.hpp           UrlEncode, UrlDecode
--   Text.Base64           ytlib/string/base64_encode.hpp        Base64Encode, Base64Decode
--   Container.BinaryTree  ytlib/container/binary_tree.hpp      BinTreeNode, BinSearchTreeNode, walks
--   Container.AvlTree     ytlib/container/binary_tree.hpp      AVLTreeNode
--   Container.Heap        ytlib/container/heap.hpp             Heap
--   Thread.BlockQueue     ytlib/thread/block_queue.hpp         BlockQueue
--   Thread.Channel        ytlib/thread/channel.hpp             Channel
--   Thread.RefCounter     ytlib/thread/ref_counter.hpp         RefCounter
--   Text.Tables           ytlib/string/string_util.hpp         SplitToMap, SplitToSet, JoinMap, AddKV
--   Math.LoopTool         ytlib/math/loop_tool.hpp             LoopTool
--   Math.MathUtil         ytlib/math/math_util.hpp             Mul, Arn, ArnRec, Crn, CrnRec
--   Math.Sort.QuickSort   ytlib/math/sort_algs.hpp             QuickSort
--   Text.Split            ytlib/string/string_util.hpp          Trim, SplitToVec, JoinVec
--   Text.Affix            ytlib/string/string_util.hpp          StartsWith, EndsWith, case, hashes
--   Text.StrDif           ytlib/string/string_algs.hpp          StrDif
--   Text.Strings          the members of std::string_view that these call
--   Logic.BoolExpression  ytlib/logic/bool_expression.hpp       BoolExpCalculator
--   Math.BigNum           ytlib/math/big_num.hpp                BigNum
--   Math.Sort             ytlib/math/sort_algs.hpp              sorts and binary searches
--   Rpc.BufferVec         ytlib/ytrpc/rpc_util/buffer.hpp       BufferVec and its two streams
--   Rpc.FilterMgr         ytlib/ytrpc/rpc_util/filter.hpp       FilterMgr
--   Base                  lists, Boolean tests and their lemmas, which all of them use
-- The file of a module holds the state and the operations of its header, under the header's names in
-- snake case; its children hold the proofs, and Tests the runs and the theorems at concrete inputs.
--
-- How the code is read. A member function takes the object's state and gives its result with the new
-- state. An exception, an undefined read and a pointer that dangles are values of the result. A
-- string is the list of its bytes, an array and a std::vector a list, an unordered_map an association
-- list, and an iterator into a list the key that stands there. Unsigned numbers keep their width: a
-- sum is taken modulo 2^32 or 2^64, and a difference has the modulus added first. A clock reading and
-- what malloc gives are arguments.
--
-- A node of a tree is the tree under it with the path to the root, each father on the path with the
-- side it was left by; following pf takes the path up. Threads are a step relation: what a
-- thread does under the mutex is one step, a wait parts it in two, and a waiting thread may take
-- its second step at any time, since a condition variable may wake it without a call.
-- A run is a list of steps in any order.
--
-- Fuel. The loops of SplitToVec, SplitToSet and SplitToMap get one more round than the source has bytes,
-- and a round moves on by at least the separator. MergeSort gets the length of the array, which its
-- halves are shorter than; QuickSort and its partition get the length of the range, which a round
-- shortens. The loops of the binary searches get the length too, and halve what is left. AdjustDown gets
-- the number of elements, and each round takes its index up. TraByLevel gets one more round than there are nodes, and
-- a round takes a level. ReBase gets one more round than the number's value, which a round divides by the
-- new base. AssignU64 gets 64 rounds, since the base is 2 or more. The loop over a LoopTool is
-- given the number of combinations. The other loops follow the structure of a list, a tree or a path,
-- or count down as the loop does.
--
-- Not modelled: the scheduler, signals, timers, coroutines and the executors; sockets, files, dynamic
-- libraries and the HTTP and RPC ends, which are calls of Boost, libunifex and the system; the regular
-- expressions behind the URL parser and the HTTP dispatcher; the code generators for protoc; iostream
-- output; the demonstrations and benchmarks. BRTreeNode does not compile when it is used, and is left out
-- with the functions that set a single link of a tree and those that rebuild a tree from two walks. Graphs,
-- matrices, complex numbers and vectors, the rest of math_util.hpp, the time functions and of the string tools GetValueFromStrKV,
-- CmpVersion, CheckVersionInside, CheckIfInList, ReplaceString and StrToTitleCase are not modelled.
pub mod Base
pub mod Cache
pub mod Container
pub mod Logic
pub mod Math
pub mod Rpc
pub mod Text
pub mod Thread
