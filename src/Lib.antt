-- ===== src/Lib.antt =====
-- A verification library for the lab programs of this repository that have state or algorithms of
-- their own: the cache simulator and the transposition of the cache lab, the shell of the shell
-- lab, the bit puzzles of the data lab, the web proxy, the allocators of the malloc lab with the
-- checks of their driver, and a linked queue. The programs share no code and run apart from each
-- other, so each has a module tree of its own over common helpers.
--
-- - Prelude, tests, lists and integers that all parts use.
-- - Csim, for cachelab-handout/csim.c: `find_cache` and its loops (Csim, Csim/Search), the run
--   over a trace (`read_from_file`) and the options (`parse_cmd`, Csim/Options). Csim/Lru and
--   Csim/History hold the specification of a set against the history of the accesses to it, and
--   Csim/Reference an independent least recently used cache (Csim/Stack), which the whole run
--   agrees with.
-- - Csim/Earlier, for cachelab-handout_back/csim.c, an earlier simulator with the same options.
-- - Bootcamp, for the programs of cbootcamp: the linked queue of extras/ref-queue.c
--   (Bootcamp/Queue), whose nodes Bootcamp/Queue/Chain relates to a list of entries.
-- - Transpose, for cachelab-handout/trans.c: `transpose_submit` with its three branches, `trans`
--   and `is_transpose`. Transpose/Writes has the loops and the writes to a matrix; Square32,
--   Square64 and Other have a branch each, Correct puts them together.
-- - Shell, for shlab-handout/tsh.c: the job list (Shell/Jobs), `parseline` (Shell/Parse), the
--   signal handlers (Shell/Signals), `eval` and `do_bgfg` (Shell/Command), and how the main loop
--   and the handlers interleave as a step relation (Shell/System).
-- - Word, for the operators of C on 32-bit words, and Datalab, for datalab-handout/bits.c and the
--   functions of datalab-handout/tests.c that say what the puzzles should return.
-- - Proxy, for proxylab-handout/proxy.c and cache.c: the queue between `main` and the threads
--   (Proxy/Queue), the readers-writers lock (Proxy/Lock) and the contents of the cache
--   (Proxy/Cache), `parse_uri` (Proxy/Uri), `build_headers` (Proxy/Headers), the loop that passes
--   an answer on (Proxy/Relay), and `do_request`, which puts them together (Proxy/Request).
-- - Malloc, for malloclab-handout: the memory and the break (memlib.c, Malloc/Memory), headers
--   and footers (Malloc/Tags), and an allocator for each of mm_blk.c (Malloc/Implicit), mm_list.c
--   (Malloc/Explicit), mm.c (Malloc/Segregated) and mm_right.c (Malloc/BestFit). Malloc/Tiles
--   says what it means that a stretch of memory is tiled with blocks, Malloc/Extents what clients
--   see of that, and Malloc/Links what a doubly linked list of free blocks is. Malloc/Driver has
--   the checks that malloclab-handout/mdriver.c makes on an allocator (`eval_mm_valid`) and its
--   measure of the memory that an allocator uses (`eval_mm_util`), for any record `Allocator` of
--   the functions it calls; Malloc/Driver/Laws says what it may ask of them,
--   Malloc/Implicit/Lawful fills that for mm_blk.c, and Malloc/Bytes reads and fills memory by
--   bytes.
--
-- A C struct is a record, with the static variables of a program in one record that its functions
-- take and return. A fault of the code, as an access out of an array or through a null pointer,
-- is `none`, or a constructor of its own. A call that waits for a condition is a step that is not
-- enabled. A text is the list of its bytes without the NUL at its end. Machine words are numbers
-- below 2 ^ 32 and wrap around in the definitions; where C does not define the result, as for the
-- counters and the shifts of the cache simulators, the definition faults instead; only the sum of
-- two options that `parse_cmd` tests wraps around there too.
--
-- Loops are recursion on what they run over. Where a `while` has no such bound the definition
-- takes fuel: `args_loop` of `parseline` takes the length of the text, and `count_loop` of the
-- test of `howManyBits` a round for each bit of the word; both are shown to be enough. The loops
-- of the allocators over blocks take the size of the heap, since each round goes on by eight
-- bytes or to another free block, and the loop of `get_list_index` the thirty doublings of 4 that
-- fit in a word. The loop of `find_object` takes the number of entries, which is shown to be
-- enough; the loop of `do_request` that connects takes any number of rounds, since there are
-- networks for which it never ends. A pointer of the allocators is a 32-bit number, as the lab is
-- compiled, and memory holds words at multiples of four.
--
-- Not modelled: processes, sockets, files and printing, which are the environment, so that what
-- they give back is an argument; the harnesses that come with the labs, but for the two functions
-- of mdriver.c above; the tiny web server of the proxy lab; the course book's csapp.c, which the
-- proxy only calls; and the recitations and the small programs of cbootcamp, whose purpose is to
-- print or to show a tool. For mm.c, mm_list.c and mm_right.c it is not shown that the blocks
-- stay a partition of the heap, as it is for mm_blk.c.
pub mod Prelude
pub mod Csim
pub mod Bootcamp
pub mod Shell
pub mod Word
pub mod Datalab
pub mod Transpose
pub mod Proxy
pub mod Malloc
