-- ===== src/Io/Work.antt =====
-- The work of a worker: the copies of `__do_perform_io`, `__fill_cq_result` and the inner loop of
-- `nvmev_io_worker`.
use nvmevirt_slc_cache.Common.{
  ℕ, zero, suc, ◌+◌, ◌*◌, ◌/◌, ◌%◌, ◌^◌, Bool, true, Option, none, some, List, [], ◌∷◌, leb, ◌==◌,
  if◌then◌else◌, update, u16, u64, sub32,
}
use nvmevirt_slc_cache.Prp.{Copy, page_size, transfer}
use nvmevirt_slc_cache.Io.State.{IoWork, IoWorker, nil}

-- `struct nvme_rw_command` as far as the copies read it.
pub record DataCommand : Type 0 where
  pub opcode : ℕ
  pub nsid : ℕ
  pub slba : ℕ
  pub length : ℕ
  pub prp1 : ℕ
  pub prp2 : ℕ

-- The copies of a command, with the namespace: into the drive's memory, out of it, or none.
pub data DataMove : Type 0 where
  to_drive to_host : ℕ → List Copy → DataMove
  no_data : DataMove

-- Where the kernel maps a physical address: whether it maps the page itself (`pfn_valid`), and, where
-- it does not, the physical address that the pointer of `memremap` stands for.
pub record Mapper : Type 0 where
  pub pfn_valid : ℕ → Bool
  pub memremap : ℕ → ℕ

-- The address at which the list of prp2 is read. The pointer of `memremap` is one to 64-bit entries, to
-- which the offset in the page is added.
unfoldable pub list_address : Mapper → ℕ → ℕ
list_address k paddr =
    if k.pfn_valid (paddr / page_size) then paddr else k.memremap paddr + 8 * (paddr % page_size)

-- The address of the data of a region.
unfoldable pub data_address : Mapper → ℕ → ℕ
data_address k paddr =
    if k.pfn_valid (paddr / page_size) then paddr else k.memremap paddr + paddr % page_size

unfoldable pub place_data : Mapper → List Copy → List Copy
unfolding data_address
place_data k [] = []
place_data k (c ∷ cs) = record c { paddr = data_address k c.paddr } ∷ place_data k cs

-- `__do_perform_io`: the copies between the drive's memory, at the offset, and the host's. The opcodes
-- are those of a write, a zone append and a read.
unfoldable pub do_perform_io : ℕ → Mapper → (ℕ → ℕ → ℕ) → DataCommand → Option DataMove
unfolding list_address place_data transfer
do_perform_io lba_bits k entry cmd =
    let copies =
      transfer
        (record { prp1 = cmd.prp1; prp2 = cmd.prp2; entry = entry; list_base = list_address k })
        (u64 (cmd.slba * 2 ^ lba_bits)) (u64 ((cmd.length + 1) * 2 ^ lba_bits)) in
    elim copies [
      | none ↦ none
      | some cs ↦ some (
          if cmd.opcode == 1
          then to_drive (sub32 cmd.nsid 1) (place_data k cs)
          else if cmd.opcode == 125
          then to_drive (sub32 cmd.nsid 1) (place_data k cs)
          else if cmd.opcode == 2
          then to_host (sub32 cmd.nsid 1) (place_data k cs)
          else no_data)
    ]

-- `struct nvme_completion`
pub record Completion : Type 0 where
  pub command_id : ℕ
  pub sq_id : ℕ
  pub sq_head : ℕ
  pub status : ℕ
  pub result0 : ℕ
  pub result1 : ℕ

-- `struct nvmev_completion_queue`; the phase is 0 or 1.
pub record CompletionQueue : Type 0 where
  pub queue_size : ℕ
  pub phase : ℕ
  pub cq_head : ℕ
  pub cq_tail : ℕ
  pub interrupt_ready : Bool
  pub cq : ℕ → Completion

-- `__fill_cq_result`; the lowest bit of the status is the phase.
unfoldable pub fill_cq_result : IoWork → CompletionQueue → CompletionQueue
fill_cq_result w c =
    let wraps = c.cq_head + 1 == c.queue_size in
    record c {
      cq = update c.cq c.cq_head (record {
        command_id = w.command_id;
        sq_id = w.sqid;
        sq_head = w.sq_entry;
        status = u16 (w.status * 2 + c.phase);
        result0 = w.result0;
        result1 = w.result1;
      });
      cq_head = if wraps then 0 else c.cq_head + 1;
      phase = if wraps then (if c.phase == 0 then 1 else 0) else c.phase;
      interrupt_ready = true;
    }

-- The worker with what it acts on. `copied` has the queue and the entry of the commands whose data it
-- has copied, and `released` the buffers and sizes that it has given back, the latest first.
pub record Working : Type 0 where
  pub worker : IoWorker
  pub cqes : ℕ → CompletionQueue
  pub copied : List (ℕ × ℕ)
  pub released : List (ℕ × ℕ)

abbrev pub set_work : ℕ → IoWork → Working → Working
set_work i x s = record s {
  worker = record (s.worker) { work_queue = update s.worker.work_queue i x };
}

-- The data of a request are copied once; an internal operation has none.
unfoldable pub copy_once : ℕ → Working → Working
copy_once curr s =
    let w = s.worker.work_queue curr in
    if w.is_copied
    then s
    else set_work curr (record w { is_copied = true })
        (record s { copied = if w.is_internal then s.copied else (w.sqid, w.sq_entry) ∷ s.copied })

-- A request that is due is completed: its buffer is released, or its result goes to the host.
unfoldable pub complete_due : ℕ → ℕ → Working → Working
unfolding fill_cq_result
complete_due now curr s =
    let w = s.worker.work_queue curr in
    if leb w.nsecs_target now
    then set_work curr (record w { is_completed = true })
        (if w.is_internal
          then record s { released = (w.write_buffer, w.buffs_to_release) ∷ s.released }
          else record s { cqes = update s.cqes w.cqid (fill_cq_result w (s.cqes w.cqid)) })
    else s

-- A round of the loop, at the time `now`.
unfoldable pub visit : ℕ → ℕ → Working → Working
unfolding copy_once complete_due
visit now curr s =
    let t = record s { worker = record (s.worker) { latest_nsecs = now } } in
    if (s.worker.work_queue curr).is_completed then t else complete_due now curr (copy_once curr t)

-- The loop over the queue, on fuel; `clock k` is the time of its `k`-th round.
unfoldable pub pass : ℕ → (ℕ → ℕ) → ℕ → ℕ → Working → Option Working
unfolding visit
pass zero clock k curr s = none
pass (suc fuel) clock k curr s =
    let t = visit (clock k) curr s in
    let rest = pass fuel clock (k + 1) (t.worker.work_queue curr).next t in
    if curr == nil then some s else rest
