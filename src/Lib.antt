-- ===== src/Lib.antt =====
-- NVMeVirt is a kernel module that plays an NVMe drive in memory. A request of the host goes from
-- the I/O queues to the translation layer of its namespace, which decides which physical pages it
-- reads or writes and when it would complete on a real drive. The answer joins the queue of a
-- worker thread, which copies the data and completes the request when its time has come. Three
-- layers are modelled: conv_ftl.c, which maps single pages and keeps an SLC cache (host writes go
-- to SLC blocks, and a collection of the cache moves the valid pages to the TLC blocks), the
-- zoned namespace of zns_ftl.c, and the plain timing of simple_ftl.c.
--
-- Parts and files, from the bottom up:
--   Channel (channel_model.c, channel_model.h): the bandwidth of a NAND channel or of the PCIe link, as a
--     ring of credits. Step has the code (`chmodel_init`, `chmodel_request`), Invariant the proofs.
--   Params (ssd_config.h; ssd.h `struct ssdparams`; ssd.c `ssd_init_params`, `ssd_init_params_slc`): the
--     constants of a configuration as a record `Config`, and the parameters that are derived from it.
--   Ppa (ssd.h `struct ppa`): the 64-bit physical page address, as its bit fields and as a word.
--   Nand (ssd.h, ssd.c): the array of channels, dies, blocks and pages, the time at which each die is
--     free, the write buffer, and the flash commands (`ssd_advance_nand`, `ssd_advance_pcie`). Each die
--     and channel asks its channel model for the transfer time.
--   Ftl (conv_ftl.c, conv_ftl.h): State, Mapping (tables and addresses), Lines and Advance (free lines,
--     write pointers), Pages (`mark_page_valid`, `mark_page_invalid`, `mark_block_free`), Victim, Policy
--     and Collect (choice of a victim, garbage collection, migration, write credits), Start, Namespace,
--     Read, Write and Host (initialisation and the host's commands). The other modules of Ftl are proofs:
--     Index, Addresses and Sweep on addresses and write pointers; Blocks, Counts, CountMarks, LineSums,
--     Recount, Relines, MarkValid, Queue and MarkInvalid on the page counts of blocks and lines; Consistency,
--     Retag, Handover, Touch, Release and Remap on the two mapping tables; Fresh, Prepare and Boot on the
--     start of an instance; Managers, Onward and Progress on the write pointer's way; FreeLines, Freed and
--     Unwritten on free lines, erased blocks and requests.
--   Prp (zns_mgmt_recv.c `__prp_transfer_data`): the walk over the pages of memory that a command names,
--     also that of io.c `__do_perform_io`. Prp.Cover has its proofs.
--   Zns (zns_ftl.c, zns_ftl.h, zns_read_write.c, zns_mgmt_send.c, zns_mgmt_recv.c, nvme_zns.h): State and
--     Zones (descriptors, resources, `change_zone_state`), Send and Manage (Zone Management Send), Access,
--     Write, Zrwa and Read (the write pointer, reads, writes, random write areas), Report (Zone Management
--     Receive), Start and Host (initialisation and dispatch). The other modules of Zns are proofs:
--     Accounts, Moves and Releases on resource counts and state transitions; Sends, Opens, Spans, Flushes,
--     Sent and ManySent on management commands; Appends, Admits, Loops, WriteLoops, Drives and Writes on
--     reads and writes; Reaches on the pages of a read; Tables and Initial on the start; Commands on the
--     dispatch.
--   Io (io.c; nvmev.h `struct nvmev_io_work`, `struct nvmev_io_worker`): State, Queue (`__enqueue_io_req`,
--     `schedule_internal_operation`, `__insert_req_sorted`, `__reclaim_completed_reqs`) and Work (the copies,
--     `__fill_cq_result`, the inner loop of `nvmev_io_worker`). The other modules of Io are proofs: Chains,
--     Places, Inserts and Ordered on linked entries; Workers and Requests on a request that joins; Relinks,
--     Releases and Reclaims on reclaiming; Starts on a new worker; Visits and Passes on the worker's loop.
--   Simple (simple_ftl.c): a drive whose units each have a time from which they are free, with its
--     requests and its flush. Simple.Schedule has the proofs.
--   Tests: runs at concrete data, on a small drive of two dies.
--   Common: names of the libraries, the state monad, arrays, lists, words, sums.
--
-- Conventions. A structure is a record, an enumeration a data type, a function that changes a
-- structure takes and returns it. An array that is allocated whole is a function of the index;
-- the counts that the program keeps beside it bound the indices. A line is referred to by its
-- manager and its index in that manager's array, as the pointers of the C code do. The result
-- `none` of a step stands for a kernel that stops: a failed NVMEV_ASSERT (BUG_ON), a null pointer
-- followed, a division by the size of a flush group or by the number of units where that is 0, or
-- a variable read before it was set; ASSERT, which nvmev.h defines as nothing, is left out. Other
-- divisors are parameters of the drive and of its zones: a quotient by 0 is a number in the
-- model, and so is what an array holds past its end. The theorems on the zoned namespace ask for
-- positive parameters (`IsDrive`, `IsZoned`), for zones that exist and, where data are read, for
-- dies that exist; that a flash page has pages and a cell has levels, by which `get_cell`
-- divides, every configuration that uses it sets. Clocks, `ktime_get_ns` and the CPU clock, are
-- functions of the number of readings so far, arguments in the record `Machine`, whose `config`
-- holds the constants. Numbers of machine type stay plain, and an operation that may leave its
-- type writes the wrap-around out; the parameters of the drive are plain, so that configurations
-- whose products overflow their C types are outside the model. The linked lists of lines are
-- lists of indices. `schedule_internal_operation` of io.c is seen from here as a list of the
-- buffer releases handed over. The entries of a worker are one array with links by number, where
-- the word -1 ends a chain; the dispatcher and the worker take turns at whole operations, and an
-- insertion sees one value of `latest_nsecs`. Which pages the kernel maps itself, and where
-- `memremap` puts the others, is an argument, the record `Mapper`. The priority queue (pqueue/)
-- is a copy of a library: its operations are an argument, the record `Pqueue`, and what is relied
-- on is the hypothesis `KeepsCounts`: an insertion keeps the counts and the ids of the lines, and
-- a change of priority writes the priority, which is the valid count, of its line and keeps the
-- other counts.
--
-- Bounds. The loop of `chmodel_request` runs on fuel, NR_CREDIT_ENTRIES rounds, since it stops
-- before the ring comes round to its head. The transfer loop of a flash read runs on fuel, the
-- size of the transfer, since each round moves at least one byte. The loops over pages, lines,
-- dies and logical pages count down the C loops' own bounds. A loop over the pages of a zoned
-- read or write runs on as much fuel as pages; the walk over the pages of memory on as much as
-- bytes, since each round moves one at least; the loops over a worker's queue on
-- NR_MAX_PARALLEL_IO + 1, one more than there are entries; the loop over the units of a request
-- on its bytes.
--
-- Not modelled: the doorbells, interrupts and copies by DMA of io.c, the key-value layer, the
-- admin commands, the PCI device, the functions that free memory, printed statistics, and
-- `#ifdef` branches that the default build does not take (CB2 and RD2 in the choice of a victim
-- of the cache).
pub mod Common
pub mod Channel
pub mod Params
pub mod Ppa
pub mod Prp
pub mod Nand
pub mod Ftl
pub mod Zns
pub mod Io
pub mod Simple
pub mod Tests
