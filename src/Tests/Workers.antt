-- ===== src/Tests/Workers.antt =====
-- A request, and a reclaim, on a device of two workers.
use nvmevirt_slc_cache.Common.{
  ◌+◌, ◌≡◌, refl, [], ◌∷◌, ◌≢◌, true, false, Returns, subst, update, arith,
}
use nvmevirt_slc_cache.Io.Chains.{All-mono, Fwd-same}
use nvmevirt_slc_cache.Io.{
  IoWork, IoWorker, Dev, nil, nr_max_parallel_io, get_io_worker, init_worker, io_work_of,
  enqueue_io_req, reclaim_worker, schedule_internal_operation, internal_work_of, Working, pass,
}
use nvmevirt_slc_cache.Io.Workers.{IsWorker}
use nvmevirt_slc_cache.Io.Requests.{
  Joined, enqueue_io_req-Joined, schedule_internal_operation-Joined,
}
use nvmevirt_slc_cache.Io.Reclaims.{Reclaimed, reclaim_worker-Reclaimed}
use nvmevirt_slc_cache.Io.Passes.{Passed, pass-Visited}
use nvmevirt_slc_cache.Io.Starts.{numbers, init_worker-IsWorker}

abbrev blank : IoWork
blank = record {
  sqid = 0;
  cqid = 0;
  sq_entry = 0;
  command_id = 0;
  nsecs_start = 0;
  nsecs_target = 0;
  nsecs_enqueue = 0;
  is_copied = false;
  is_completed = false;
  status = 0;
  result0 = 0;
  result1 = 0;
  is_internal = false;
  write_buffer = 0;
  buffs_to_release = 0;
  next = 0;
  prev = 0;
}

init_worker-IsWorker_example : IsWorker (init_worker blank) [] (numbers 0 nr_max_parallel_io)
init_worker-IsWorker_example = init_worker-IsWorker blank

abbrev device : Dev
device = record { nr_io_workers = 2; io_workers = λ i. init_worker blank; io_worker_turn = 0 }

two_free : numbers 0 nr_max_parallel_io ≡ 0 ∷ (1 ∷ numbers 2 16382)
unfolding numbers
two_free = refl

idle-IsWorker : IsWorker (init_worker blank) [] (0 ∷ (1 ∷ numbers 2 16382))
idle-IsWorker = subst (IsWorker (init_worker blank) []) two_free (init_worker-IsWorker blank)

-- A request of submission queue 3, due at 900.
enqueue_io_req-Joined_example :
    Returns
      (Joined
        (get_io_worker 3 device)
        []
        (0 ∷ (1 ∷ numbers 2 16382))
        (io_work_of 3 3 17 5 100 200 900 0)
        device)
      (enqueue_io_req 3 3 17 5 100 200 900 0 device)
enqueue_io_req-Joined_example =
    enqueue_io_req-Joined device 3 [] (0 ∷ (1 ∷ numbers 2 16382)) idle-IsWorker 3 17 5 100 200 900 0

-- A worker with entry 0 done and the others free.
abbrev finished : IoWork
finished = record blank {
  is_copied = true;
  is_completed = true;
  nsecs_target = 10;
  next = nil;
  prev = nil;
}

abbrev busy : IoWorker
busy = record (init_worker blank) {
  work_queue = update (init_worker blank).work_queue 0 finished;
  free_seq = 1;
  io_seq = 0;
  io_seq_end = 0;
  latest_nsecs = 50;
}

busy-IsWorker : IsWorker busy (0 ∷ []) (1 ∷ numbers 2 16382)
busy-IsWorker = record {
  queued = (refl, refl, (refl, refl));
  freed =
      Fwd-same (init_worker blank).work_queue busy.work_queue nil 1 (1 ∷ numbers 2 16382)
        (init_worker blank).free_seq_end nil
        (All-mono (λ x. x ≢ 0)
          (λ x. (busy.work_queue x).next ≡ ((init_worker blank).work_queue x).next)
          (λ x n. ground arith) (1 ∷ numbers 2 16382) idle-IsWorker.distinct.0)
        (refl, idle-IsWorker.freed.1.1);
  some_free = omega arith;
  distinct = idle-IsWorker.distinct;
  within = idle-IsWorker.within;
  entries = omega (arith, idle-IsWorker.entries);
  ordered = (tt, tt);
}

reclaim_worker-Reclaimed_example :
    Returns (Reclaimed busy (0 ∷ []) (1 ∷ numbers 2 16382)) (reclaim_worker busy)
reclaim_worker-Reclaimed_example =
    reclaim_worker-Reclaimed busy (0 ∷ []) 1 (numbers 2 16382) busy-IsWorker

schedule_internal_operation-Joined_example :
    Returns
      (Joined
        (get_io_worker 3 device)
        []
        (0 ∷ (1 ∷ numbers 2 16382))
        (internal_work_of 3 200 900 7 4096)
        device)
      (schedule_internal_operation 3 200 900 7 4096 device)
schedule_internal_operation-Joined_example =
    schedule_internal_operation-Joined device 3 [] (0 ∷ (1 ∷ numbers 2 16382)) idle-IsWorker 200 900
      7 4096

-- The worker with its entry 0 still to be copied and completed.
abbrev working : Working
working = record {
  worker = record busy {
    work_queue =
        update busy.work_queue 0 (record finished { is_copied = false; is_completed = false });
  };
  cqes = λ i. record {
    queue_size = 8;
    phase = 1;
    cq_head = 0;
    cq_tail = 0;
    interrupt_ready = false;
    cq = λ k. record {
      command_id = 0;
      sq_id = 0;
      sq_head = 0;
      status = 0;
      result0 = 0;
      result1 = 0;
    };
  };
  copied = [];
  released = [];
}

working-IsWorker : IsWorker working.worker (0 ∷ []) (1 ∷ numbers 2 16382)
working-IsWorker = record {
  queued = (refl, refl, (refl, refl));
  freed =
      Fwd-same busy.work_queue working.worker.work_queue nil 1 (1 ∷ numbers 2 16382)
        busy.free_seq_end nil
        (All-mono (λ x. x ≢ 0) (λ x. (working.worker.work_queue x).next ≡ (busy.work_queue x).next)
          (λ x n. ground arith) (1 ∷ numbers 2 16382) idle-IsWorker.distinct.0)
        busy-IsWorker.freed;
  some_free = busy-IsWorker.some_free;
  distinct = idle-IsWorker.distinct;
  within = idle-IsWorker.within;
  entries = busy-IsWorker.entries;
  ordered = (tt, tt);
}

pass-Visited_example :
    Returns
      (Passed 20 50 (0 ∷ []) working)
      (pass (nr_max_parallel_io + 1) (λ k. 30) 0 working.worker.io_seq working)
pass-Visited_example =
    pass-Visited 20 50 (λ k. 30) (λ k. (omega arith, omega arith)) working (0 ∷ [])
      (1 ∷ numbers 2 16382) working-IsWorker
