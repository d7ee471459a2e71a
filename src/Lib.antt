-- ===== src/Lib.antt =====
-- ig_cachesim: the cache simulator of this repository: its caches, its tables, its handlers of single steps,
-- the file of a capture, and the profiles that the viewer makes of it.
--
-- The program traces a process instruction by instruction. For each instruction it works out the memory
-- accesses, sends them through a model of the caches of a Jaguar processor, and counts the results under
-- the instruction and the call stack. The parts that are modelled:
--
-- SetData.antt, Cache.antt (CacheSim/CacheSimInternals.h, `SetData`, `Cache`): a set is the list of the
-- line numbers in its ways, newest first, where zero is an empty way. A cache is the list of its sets,
-- and the template's parameters are a `Geometry`. The children relate the loops over the array to the
-- recency of the lines, and to what the cache holds.
--
-- Jaguar.antt (CacheSim/CacheSimInternals.h and .cpp, `JaguarModule`, `JaguarCacheSim`): two modules of
-- four cores, with an L1 for data and one for code in each core and an L2 in each module. The pointer
-- `m_OtherModule` is the index of the other module in the simulator, so that an access is a function
-- from simulator to simulator. `access` runs the loop of `JaguarCacheSim::Access` on fuel and is `none`
-- when the fuel is used up. The fuel that is enough is a round more than there are lines.
--
-- HashTable.antt (CacheSim/GenericHashTable.h): the chained table with its growth. A pointer to a value
-- is the key that it belongs to, since elements do not move; a write through it is `store`. The hash
-- and the equality of a key are an instance of `Key`. `Remove` is `none` where the code reads through a
-- null pointer. The children say where each element is (Buckets), what `Grow` does (Rehash, Growth), and what
-- the table is as a map (Laws, Writes, Removal). Allocator has the memory of the elements, by address.
--
-- Stacks.antt (CacheSim/CacheSimCommon.inl, `StackKey`, `RipKey`, `InsertStack`): the memory of the
-- frames, which doubles, and the table from digests to offsets. It is a client of HashTable. The
-- function `md5` is a parameter; nothing is asked of it.
--
-- CoreMapping.antt (CacheSim/CacheSimCommon.inl, `FindLogicalCoreIndex`,
-- `CacheSimSetThreadCoreMapping`): the array of 128 mappings from threads to logical cores.
--
-- Trace.antt (CacheSim/CacheSimCommon.inl, `GetRipNode` and the critical section of
-- `GenerateMemoryAccesses`): the accesses of one instruction go through Jaguar, and their results are
-- counted in a HashTable under the instruction's address and its stack. The lists of accesses are
-- arguments, and the fuel is that of each access.
--
-- Operand.antt (CacheSim/CacheSimCommon.inl, `ReadReg`, `ComputeEa`; CacheSim/CacheSimLinux.cpp,
-- `AdjustFsSegment`, `AdjustGsSegment`): the effective address of a memory operand. The registers and
-- operands of the disassembler are data. The starts of the segments are arguments, and so is whether they can
-- be read, which on Windows (CacheSim/CacheSimWindows.cpp) depends on the processor.
--
-- Accesses.antt (CacheSim/CacheSimCommon.inl, `GenerateMemoryAccesses` up to its lock): the accesses of an
-- instruction, by its mnemonic and its operands. What the disassembler leaves in `ud_t` is data. A
-- `DebugBreak` on the way sets `stopped`, and then `GenerateMemoryAccesses` is `none`. The
-- child Generate puts these accesses and Trace together to the whole of `GenerateMemoryAccesses`.
--
-- Handler.antt (CacheSim/CacheSimLinux.cpp, `HandleTrap`; CacheSim/CacheSimWindows.cpp, `StepFilter`): a
-- single step of a thread. It is where CoreMapping, Stacks, Accesses and Trace meet. The call stack, the
-- registers and the decoded instruction are fields of a `Trap`.
--
-- Lock.antt (CacheSim/CacheSimCommon.inl, `AutoSpinLock`): threads that run one atomic action at a time, in
-- any order. The other files hold the lock throughout what it protects.
--
-- Capture.antt (CacheSim/CacheSimCommon.inl, `CacheSimEndCapture`; CacheSim/CacheSimData.h): the bytes of a
-- capture's file. The writer appends to a list and patches words of the header; the accessors read
-- words at offsets. The list of modules and the success of `fopen` are arguments. HashTable/Iteration.antt
-- has the loop over the keys of a table, on fuel: a round more than there are elements is enough.
--
-- Session.antt (CacheSim/CacheSimLinux.cpp, `CacheSimInit`, `CacheSimStartCapture`, `CacheSimRemoveHandler`): the
-- calls that a program makes, on the state of Handler and Capture. Whether the two calls of `wait` in a start
-- return is an argument, and without that the start is `none`. Modules.antt (`RecordModule`,
-- `GetModuleList`): the list that the capture's file describes, from the objects of `dl_iterate_phdr`, and
-- `none` where a name does not fit its 512 bytes; its
-- child Windows has the `GetModuleList` of CacheSim/CacheSimWindows.cpp. Loader.antt (CacheSim/CacheSim.h,
-- `DynamicLoader`): the functions of the library as a program loads it.
--
-- TraceData.antt (UI/TraceData.cpp): the symbols of a capture's file. `symbolResolveTask` makes the symbols and
-- strings of what `ResolveSymbols` found, which is an argument, `symbolsResolved` appends them to the file
-- and patches its header. Strings are lists of their code units.
-- The children follow the bytes: Interned and Serialized the strings, Sorted the symbols, Written the file,
-- Names and Resolved what is read from it, Kept what was there before. FileData.antt (`internedSymbolString`,
-- `symbolNameForAddress`, `findFileData`): the caches of the strings, what is looked up through them during and
-- after a resolution, and the counters by line.
--
-- SymbolResolver.antt (UI/SymbolResolverLinux.cpp, the first half of `ResolveSymbols`): the addresses of a
-- capture by module. Profile.antt has the sums of counters that the next two and FileData share.
-- TreeModel.antt (UI/TreeModel.cpp, `createTree`): the call tree, as a data type of nodes and lists of
-- nodes, made from the file. FlatModel.antt (UI/FlatModel.cpp, `dataStoreChanged`): a row for each symbol,
-- by the names of the file and, in `data_store_changed_cached`, through the caches; Cached shows that both agree.
-- ObjectStack.antt (UI/ObjectStack.h and .cpp): the memory of the tree's nodes, by page and offset.
--
-- Common.antt has the lists, the Boolean tests and the bit masks that the parts share; Tests.antt runs the
-- program's own unit tests (UnitTest/TestCacheSim.cpp) on the model and applies the theorems to concrete
-- inputs.
--
-- Machine integers are natural numbers with the wrap-around written out. A `uint32_t` or `uint64_t` that
-- a theorem keeps below a bound is so by a hypothesis: 2^59 elements of a table, 2^30 frames,
-- 2^32 bytes of a file.
--
-- Not modelled: the decoding of instructions (udis86); signals, ptrace, threads and the unwinding of call
-- stacks, and with them the child process of a start; the start on Windows; MD5; in the viewer the widgets
-- and the views of Qt, the opening of a file, and the tools that resolve symbols (addr2line, dbghelp).
pub mod Common
pub mod Session
pub mod Loader
pub mod SetData
pub mod Cache
pub mod Handler
pub mod Jaguar
pub mod HashTable
pub mod Stacks
pub mod CoreMapping
pub mod Trace
pub mod TraceData
pub mod FileData
pub mod SymbolResolver
pub mod Profile
pub mod TreeModel
pub mod FlatModel
pub mod ObjectStack
pub mod Capture
pub mod Lock
pub mod Modules
pub mod Operand
pub mod Accesses
pub mod Tests
