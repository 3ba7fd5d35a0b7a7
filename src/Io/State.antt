-- ===== src/Io/State.antt =====
-- The work entries, the workers and the device of nvmev.h, as far as io.c uses them.
use nvmevirt_slc_cache.Common.{ℕ, Bool, update}

-- `NR_MAX_PARALLEL_IO`
abbrev pub nr_max_parallel_io : ℕ
nr_max_parallel_io = 16384

-- The `unsigned int` -1, which ends a chain of entries.
abbrev pub nil : ℕ
nil = 4294967295

-- `struct nvmev_io_work`; the buffer of an internal operation is a number.
pub record IoWork : Type 0 where
  pub sqid : ℕ
  pub cqid : ℕ
  pub sq_entry : ℕ
  pub command_id : ℕ
  pub nsecs_start : ℕ
  pub nsecs_target : ℕ
  pub nsecs_enqueue : ℕ
  pub is_copied : Bool
  pub is_completed : Bool
  pub status : ℕ
  pub result0 : ℕ
  pub result1 : ℕ
  pub is_internal : Bool
  pub write_buffer : ℕ
  pub buffs_to_release : ℕ
  pub next : ℕ
  pub prev : ℕ

-- `struct nvmev_io_worker`
pub record IoWorker : Type 0 where
  pub work_queue : ℕ → IoWork
  pub free_seq : ℕ
  pub free_seq_end : ℕ
  pub io_seq : ℕ
  pub io_seq_end : ℕ
  pub latest_nsecs : ℕ

-- `struct nvmev_dev`
pub record Dev : Type 0 where
  pub nr_io_workers : ℕ
  pub io_workers : ℕ → IoWorker
  pub io_worker_turn : ℕ

-- `work_queue[i].next = v` and the like.
abbrev pub set_next : ℕ → ℕ → (ℕ → IoWork) → ℕ → IoWork
set_next i v q = update q i (record (q i) { next = v })

abbrev pub set_prev : ℕ → ℕ → (ℕ → IoWork) → ℕ → IoWork
set_prev i v q = update q i (record (q i) { prev = v })

abbrev pub set_worker : ℕ → IoWorker → Dev → Dev
set_worker i w d = record d { io_workers = update d.io_workers i w }
