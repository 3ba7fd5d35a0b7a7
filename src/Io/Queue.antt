-- ===== src/Io/Queue.antt =====
-- The queue of a worker: `__insert_req_sorted`, `__allocate_work_queue_entry`, `__enqueue_io_req`,
-- `schedule_internal_operation`, `__reclaim_completed_reqs` and the start of a worker. A result `none`
-- is a kernel that stops, or a loop that runs out of fuel.
use nvmevirt_slc_cache.Common.{
  ℕ, zero, suc, ◌+◌, ◌-◌, ◌%◌, Bool, true, false, ◌&&◌, Option, none, some, leb, ◌==◌,
  if◌then◌else◌, update, sub32,
}
use nvmevirt_slc_cache.Io.State.{
  IoWork, IoWorker, Dev, nr_max_parallel_io, nil, set_next, set_prev, set_worker,
}

-- The loop that goes back from the end of the queue to the entry that the new one follows, on fuel.
unfoldable pub find_place : ℕ → (ℕ → IoWork) → ℕ → ℕ → ℕ → Option ℕ
find_place zero q latest target curr = none
find_place (suc fuel) q latest target curr =
    let rest = find_place fuel q latest target (q curr).prev in
    if curr == nil
    then some nil
    else if leb (q curr).nsecs_target latest
    then some curr
    else if leb (q curr).nsecs_target target
    then some curr
    else rest

-- Head inserted.
unfoldable pub insert_head : ℕ → IoWorker → IoWorker
insert_head entry w = record w {
  work_queue = set_next entry w.io_seq (set_prev w.io_seq entry w.work_queue);
  io_seq = entry;
}

-- Tail.
unfoldable pub insert_tail : ℕ → ℕ → IoWorker → IoWorker
insert_tail curr entry w = record w {
  work_queue = set_next curr entry (set_prev entry curr w.work_queue);
  io_seq_end = entry;
}

-- In between.
unfoldable pub insert_between : ℕ → ℕ → IoWorker → IoWorker
insert_between curr entry w =
    let q1 = set_prev entry curr w.work_queue in
    let q2 = set_next entry (q1 curr).next q1 in
    let q3 = set_prev (q2 entry).next entry q2 in record w { work_queue = set_next curr entry q3 }

unfoldable pub insert_at : ℕ → ℕ → IoWorker → IoWorker
unfolding insert_head insert_tail insert_between
insert_at curr entry w =
    if curr == nil
    then insert_head entry w
    else if (w.work_queue curr).next == nil
    then insert_tail curr entry w
    else insert_between curr entry w

-- `__insert_req_sorted`
unfoldable pub insert_req_sorted : ℕ → ℕ → IoWorker → Option IoWorker
unfolding find_place insert_at
insert_req_sorted entry nsecs_target w =
    if w.io_seq == nil
    then some (record w { io_seq = entry; io_seq_end = entry })
    else elim (find_place (nr_max_parallel_io + 1) w.work_queue w.latest_nsecs nsecs_target
        w.io_seq_end) [ none ↦ none | some curr ↦ some (insert_at curr entry w) ]

-- The part of `__allocate_work_queue_entry` on the worker: the entry, or none where the queue is almost
-- full.
unfoldable pub take_entry : IoWorker → Option (Option ℕ × IoWorker)
take_entry w =
    let e = w.free_seq in
    let next = (w.work_queue e).next in
    if leb nr_max_parallel_io next
    then some (none, w)
    else if leb nr_max_parallel_io next
    then none
    else some (some e, record w { free_seq = next })

-- `__get_io_worker`, as it is configured: by the submission queue.
unfoldable pub get_io_worker : ℕ → Dev → ℕ
get_io_worker sqid d = sub32 sqid 1 % d.nr_io_workers

-- `__allocate_work_queue_entry`: the number of the worker and the entry.
unfoldable pub allocate_work_queue_entry : ℕ → Dev → Option (Option (ℕ × ℕ) × Dev)
unfolding take_entry get_io_worker
allocate_work_queue_entry sqid d =
    let turn = get_io_worker sqid d in
    let next_turn = if turn + 1 == d.nr_io_workers then 0 else turn + 1 in
    elim (take_entry (d.io_workers turn)) [
      | none ↦ none
      | some (none, w) ↦ some (none, d)
      | some (some e, w) ↦
          some (some (turn, e), record (set_worker turn w d) { io_worker_turn = next_turn })
    ]

-- A filled entry is inserted into the queue of its worker.
unfoldable pub enter_work : ℕ → ℕ → IoWork → Dev → Option Dev
enter_work turn e work d =
    let w = d.io_workers turn in
    elim (insert_req_sorted e work.nsecs_target
      (record w { work_queue = update w.work_queue e work })) [
        | none ↦ none
        | some t ↦ some (set_worker turn t d)
      ]

-- What `__enqueue_io_req` writes to an entry; `command_id` is read from the submission queue.
abbrev pub io_work_of : ℕ → ℕ → ℕ → ℕ → ℕ → ℕ → ℕ → ℕ → IoWork → IoWork
io_work_of sqid cqid sq_entry command_id start now target status old = record old {
  sqid = sqid;
  cqid = cqid;
  sq_entry = sq_entry;
  command_id = command_id;
  nsecs_start = start;
  nsecs_enqueue = now;
  nsecs_target = target;
  status = status;
  is_completed = false;
  is_copied = false;
  prev = nil;
  next = nil;
  is_internal = false;
}

-- `__enqueue_io_req`; `now` is `local_clock()`. A request that finds no entry is dropped.
unfoldable pub enqueue_io_req : ℕ → ℕ → ℕ → ℕ → ℕ → ℕ → ℕ → ℕ → Dev → Option Dev
unfolding allocate_work_queue_entry
enqueue_io_req sqid cqid sq_entry command_id start now target status d =
    elim (allocate_work_queue_entry sqid d) [
      | none ↦ none
      | some (none, t) ↦ some t
      | some (some (turn, e), t) ↦
          enter_work turn e
            (io_work_of sqid cqid sq_entry command_id start now target status
              ((t.io_workers turn).work_queue e))
            t
    ]

abbrev pub internal_work_of : ℕ → ℕ → ℕ → ℕ → ℕ → IoWork → IoWork
internal_work_of sqid now target write_buffer amount old = record old {
  sqid = sqid;
  nsecs_start = now;
  nsecs_enqueue = now;
  nsecs_target = target;
  is_completed = false;
  is_copied = true;
  prev = nil;
  next = nil;
  is_internal = true;
  write_buffer = write_buffer;
  buffs_to_release = amount;
}

-- `schedule_internal_operation`
unfoldable pub schedule_internal_operation : ℕ → ℕ → ℕ → ℕ → ℕ → Dev → Option Dev
unfolding allocate_work_queue_entry
schedule_internal_operation sqid now target write_buffer amount d =
    elim (allocate_work_queue_entry sqid d) [
      | none ↦ none
      | some (none, t) ↦ some t
      | some (some (turn, e), t) ↦
          enter_work turn e
            (internal_work_of sqid now target write_buffer amount
              ((t.io_workers turn).work_queue e))
            t
    ]

-- Whether an entry may be reclaimed.
abbrev pub is_done : ℕ → IoWork → Bool
is_done latest w = w.is_completed && (w.is_copied && leb w.nsecs_target latest)

-- The loop over the first entries that are done, on fuel: the last of them.
unfoldable pub last_done : ℕ → (ℕ → IoWork) → ℕ → ℕ → ℕ → Option ℕ
last_done zero q latest curr last = none
last_done (suc fuel) q latest curr last =
    let rest = last_done fuel q latest (q curr).next curr in
    if curr == nil then some last else if is_done latest (q curr) then rest else some last

-- The entries from `first` to `last` go to the end of the free ones.
unfoldable pub release_entries : ℕ → ℕ → IoWorker → IoWorker
release_entries first last w =
    let next = (w.work_queue last).next in
    let q1 = if next == nil then w.work_queue else set_prev next nil w.work_queue in
    let q2 = set_next last nil q1 in
    let q3 = set_prev first w.free_seq_end q2 in
    record w { io_seq = next; work_queue = set_next w.free_seq_end first q3; free_seq_end = last }

-- `__reclaim_completed_reqs` for one worker.
unfoldable pub reclaim_worker : IoWorker → Option IoWorker
unfolding release_entries
reclaim_worker w =
    elim (last_done (nr_max_parallel_io + 1) w.work_queue w.latest_nsecs w.io_seq nil) [
      | none ↦ none
      | some last ↦ some (if last == nil then w else release_entries w.io_seq last w)
    ]

-- `__reclaim_completed_reqs`, for the first `n` workers.
unfoldable pub reclaim_workers : ℕ → Dev → Option Dev
unfolding reclaim_worker
reclaim_workers zero d = some d
reclaim_workers (suc n) d = elim (reclaim_workers n d) [
  | none ↦ none
  | some t ↦ elim (reclaim_worker (t.io_workers n)) [
    | none ↦ none
    | some w ↦ some (set_worker n w t)
  ]
]

unfoldable pub reclaim_completed_reqs : Dev → Option Dev
unfolding reclaim_workers
reclaim_completed_reqs d = reclaim_workers d.nr_io_workers d

-- A worker of `NVMEV_IO_WORKER_INIT`; `zeroed` is an entry of zero bytes.
unfoldable pub init_worker : IoWork → IoWorker
init_worker zeroed = record {
  work_queue = λ i. record zeroed {
    next = if i == nr_max_parallel_io - 1 then nil else i + 1;
    prev = if i == 0 then nil else i - 1;
  };
  free_seq = 0;
  free_seq_end = nr_max_parallel_io - 1;
  io_seq = nil;
  io_seq_end = nil;
  latest_nsecs = 0;
}
