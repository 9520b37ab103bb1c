-- ===== src/Lib.antt =====
-- Verification of the programs of the systems labs: a cache simulator and matrix transposes
-- (cache/), two memory allocators (malloc/), a caching web proxy (proxy/), a shell with job control
-- (tsh/) and bit puzzles (datalab/). They are separate programs.
--
-- Base holds what the parts share: the result of a C call (Base/Result: a value, or the fault that
-- ends it, such as an access out of bounds, a null or dangling pointer, abort and exit), C integers
-- as bit patterns with their wrap-around (Base/Word), lists indexed by native numbers, bit masks
-- (Base/Bits), scans for a first index (Base/First) and counted loops with their invariant rule
-- (Base/Loop).
--
-- Csim is cache/csim.c. A Cache is its sets, each with the arrays of tags, valid and dirty bits and
-- times of use, and the statistics; access_set, execute_instruction, parse_file and main are the
-- functions of that name. Csim/Search is the choice of the line to evict, Csim/Access one access of
-- a set, Csim/Address the split of an address, Csim/Simulation and Csim/Main whole traces. A trace
-- is the list of its parsed lines; reading options and files and printing the summary are left out.
--
-- Trans is cache/trans.c, over any type of entries and any test that they differ: trans_basic,
-- trans_tmp, largeTranspose (large_transpose), smallTranspose (small_transpose), garboTranspose
-- (garbo_transpose), transpose_submit and their check is_transpose. Trans/Progress has what a
-- sequence of copies does in any order, from which the loops follow.
--
-- Malloc is malloc/mm.c over the dense heap of malloc/memlib.c, in a build without DEBUG. Memory is
-- the list of its 64-bit words, an address a number, and an access off the words below the break a
-- fault; whether sbrk grants memory is a parameter. Malloc/Header, Size, Block, Links, Allocate and
-- Checker are the functions of the file by topic, under their own names; their children prove the
-- laws. Searches along a list or along the heap have fuel: a bound on the number of blocks, proved
-- enough for find_fit on linked lists. memcpy and memset work on words and the low bytes of the last
-- one, as the addresses are multiples of eight.
--
-- Naive is malloc/mm-naive.c, over the same heap: Naive/Blocks has malloc, Naive/Realloc and
-- Naive/Calloc the two functions that move and clear bytes, by the laws of Malloc/Memory/Copy, and
-- Naive/Client any sequence of calls, for sizes whose rounding does not wrap (below 2^64 - 31).
--
-- Splay is malloc/stree.c, with the path from a node to the root in place of the pointers to
-- parents: the searches, rotations and splay, insertion and removal. Splay/Entries has the list of
-- entries that a tree stands for, and Splay/Client any sequence of calls.
--
-- Proxy is proxy/cache.c, on a store of blocks in which a pointer is an index. It shows what the
-- list operations do; Proxy/Cache/Tests runs the cases in which the code goes wrong. insert sets no
-- refcnt, and takes what the memory holds there as an argument. Walks have fuel: a bound on the
-- length of the list.
--
-- Tsh is tsh/tsh.c and tsh/tsh_helper.c: Tsh/Jobs the job list, Tsh/Parse parseline, whose fuel is
-- the length of the line and one, Tsh/Signals the handlers and the wait for the foreground job,
-- Tsh/Eval eval and the built-in commands, Tsh/Session the read/eval loop of main as a step
-- relation. The handlers change the job list that eval waits on; what waitpid reports and the
-- signals that come while the shell waits are given as lists (Tsh/Signals/Watch follows the
-- foreground job through the reports), and the events that run out are a fault of their own,
-- out_of_fuel.
--
-- Datalab is datalab/bits.c, under its own names: Datalab/Integers the puzzles on long,
-- Datalab/Floats those on floats, and Datalab/Reference the solutions of datalab/tests.c that the
-- test program compares with. Datalab/Floats/Value reads a pattern as a float, in units of its least
-- positive value; the loops of datalab/tests.c are recursions on the rounds that are left.
--
-- Not modelled: the driver programs, the copies of csapp.c, what only writes to the terminal, the
-- network side of the proxy (proxy/proxy.c), the child side of fork, and the sparse mode of the
-- heap. Threads are not interleaved: the proxy's cache is used under its lock. The operations of
-- malloc/mm.c on whole blocks (coalesce_block, split_block, place, free, realloc) have definitions
-- and runs; the results on them stop at the lists and the headers.
mod Base
pub mod Csim
pub mod Datalab
pub mod Malloc
pub mod Naive
pub mod Proxy
pub mod Splay
pub mod Trans
pub mod Tsh
