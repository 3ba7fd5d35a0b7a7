-- ===== src/Io/Requests.antt =====
-- `__enqueue_io_req` and `schedule_internal_operation` on the device.
use nvmevirt_slc_cache.Common.{
  ℕ, ◌≡◌, ◌≢◌, ◌<◌, ◌+◌, refl, sym, ap, ◌∙◌, subst, false, List, [], ◌∷◌, arith, ◌==◌, leb,
  if◌then◌else◌, update, none, some, Returns, Returns-then,
}
use nvmevirt_slc_cache.Io.{
  IoWork, IoWorker, Dev, nr_max_parallel_io, nil, set_worker, take_entry, get_io_worker,
  insert_req_sorted, allocate_work_queue_entry, enter_work, io_work_of, enqueue_io_req,
  internal_work_of, schedule_internal_operation,
}
use nvmevirt_slc_cache.Io.Chains.{All-parts}
use nvmevirt_slc_cache.Io.Places.{Within}
use nvmevirt_slc_cache.Io.Workers.{IsWorker, Enqueued, enter-Enqueued}

-- What a request leaves: with one free entry it is dropped; otherwise it is in the queue of its worker,
-- as `work` writes its entry, and the other workers are as before.
abbrev pub Joined : ℕ → List ℕ → List ℕ → (IoWork → IoWork) → Dev → Dev → Type 0
Joined i io [] work d t = ⊥
Joined i io (e ∷ []) work d t = t ≡ d
Joined i io (e ∷ (f ∷ fs)) work d t =
    Enqueued e (work ((d.io_workers i).work_queue e)) io (f ∷ fs) (t.io_workers i)
    × ((j : ℕ) → j ≢ i → t.io_workers j ≡ d.io_workers j)

take_last :
    (w : IoWorker) (io : List ℕ) (e : ℕ) → IsWorker w io (e ∷ []) → take_entry w ≡ some (none, w)
unfolding take_entry
take_last w io e h = rw next_nil
  where
    next_nil : (w.work_queue w.free_seq).next ≡ nil
    next_nil = ap (λ (x : ℕ). (w.work_queue x).next) h.freed.0 ∙ h.freed.1.0

take_first :
    (w : IoWorker) (io : List ℕ) (e f : ℕ) (fs : List ℕ)
    → IsWorker w io (e ∷ (f ∷ fs))
    → take_entry w ≡ some (some e, record w { free_seq = f })
unfolding take_entry
take_first w io e f fs h =
    rw (next_is, more) (ap (λ (x : ℕ). some (some x, record w { free_seq = f })) h.freed.0)
  where
    next_is : (w.work_queue w.free_seq).next ≡ f
    next_is = ap (λ (x : ℕ). (w.work_queue x).next) h.freed.0 ∙ h.freed.1.0

    inside : f < nr_max_parallel_io
    inside = (All-parts Within io (e ∷ (f ∷ fs)) h.within).1.1.0

    more : leb nr_max_parallel_io f ≡ false
    more = ground (arith, inside)

-- The turn goes round.
abbrev next_turn : ℕ → Dev → ℕ
next_turn i d = if i + 1 == d.nr_io_workers then 0 else i + 1

-- The device after an entry of worker `i` is taken.
abbrev taken : ℕ → ℕ → Dev → Dev
taken i f d = record (set_worker i (record (d.io_workers i) { free_seq = f }) d) {
  io_worker_turn = next_turn i d;
}

-- A taken entry is written and inserted.
enter-Joined :
    (d : Dev) (i : ℕ) (io : List ℕ) (work : IoWork → IoWork) (e f : ℕ) (fs : List ℕ)
    → ((x : IoWork) → (work x).next ≡ nil)
    → ((x : IoWork) → (work x).prev ≡ nil)
    → IsWorker (d.io_workers i) io (e ∷ (f ∷ fs))
    → Returns
        (Joined i io (e ∷ (f ∷ fs)) work d)
        (enter_work i e (work (((taken i f d).io_workers i).work_queue e)) (taken i f d))
unfolding enter_work
enter-Joined d i io work e f fs n p h =
    Returns-then (Enqueued e written io (f ∷ fs)) (Joined i io (e ∷ (f ∷ fs)) work d)
      (insert_req_sorted e (work (((taken i f d).io_workers i).work_queue e)).nsecs_target
        (record ((taken i f d).io_workers i) {
          work_queue =
              update ((taken i f d).io_workers i).work_queue e
                (work (((taken i f d).io_workers i).work_queue e));
        }))
      _
      (rw same (
        enter-Enqueued (d.io_workers i) io e f fs h written (n ((d.io_workers i).work_queue e))
          (p ((d.io_workers i).work_queue e))))
      λ t k.
        let e' : (set_worker i t (taken i f d)).io_workers i ≡ t = ground arith in
        (subst (Enqueued e written io (f ∷ fs)) (sym e') k, λ j ne. ground arith)
  where
    written : IoWork
    written = work ((d.io_workers i).work_queue e)

    same : (taken i f d).io_workers i ≡ record (d.io_workers i) { free_seq = f }
    same = ground arith

module _ (d : Dev) (sqid : ℕ) (io : List ℕ) where
  -- What either function does once its entry is taken.
  joins :
      (work : IoWork → IoWork) (free : List ℕ)
      → ((x : IoWork) → (work x).next ≡ nil)
      → ((x : IoWork) → (work x).prev ≡ nil)
      → IsWorker (d.io_workers (get_io_worker sqid d)) io free
      → Returns
          (Joined (get_io_worker sqid d) io free work d)
          (elim (allocate_work_queue_entry sqid d) [
            | none ↦ none
            | some (none, t) ↦ some t
            | some (some (turn, e), t) ↦
                enter_work turn e (work ((t.io_workers turn).work_queue e)) t
          ])
  unfolding allocate_work_queue_entry
  joins work [] n p h = absurd (omega (arith, h.some_free))
  joins work (e ∷ []) n p h = rw (take_last (d.io_workers (get_io_worker sqid d)) io e h) refl
  joins work (e ∷ (f ∷ fs)) n p h =
      rw (take_first (d.io_workers (get_io_worker sqid d)) io e f fs h)
        (enter-Joined d (get_io_worker sqid d) io work e f fs n p h)

  -- A request to a device whose worker for the submission queue is in order (the entries in
  -- flight linked both ways in the order of their due times, the free ones linked to the end,
  -- each entry of the array in exactly one of them, at least one free): it returns. With one free
  -- entry it is dropped and nothing changes; otherwise the worker is in order again, with the
  -- first free entry, as the request fills it, at a place in the queue, the other entries in
  -- flight in their old order, and no other worker changes.
  pub enqueue_io_req-Joined :
      (free : List ℕ)
      → IsWorker (d.io_workers (get_io_worker sqid d)) io free
      → (cqid sq_entry command_id start now target status : ℕ)
      → Returns
          (Joined
            (get_io_worker sqid d)
            io
            free
            (io_work_of sqid cqid sq_entry command_id start now target status)
            d)
          (enqueue_io_req sqid cqid sq_entry command_id start now target status d)
  unfolding enqueue_io_req
  enqueue_io_req-Joined free h cqid sq_entry command_id start now target status =
      joins (io_work_of sqid cqid sq_entry command_id start now target status) free (λ x. refl)
        (λ x. refl) h

  -- The release of a write buffer that is handed to a device whose worker for the submission
  -- queue is in order returns: with one free entry it is dropped and nothing changes; otherwise
  -- the first free entry, as the release fills it, joins the queue of the worker, which is in
  -- order again, and no other worker changes.
  pub schedule_internal_operation-Joined :
      (free : List ℕ)
      → IsWorker (d.io_workers (get_io_worker sqid d)) io free
      → (now target write_buffer amount : ℕ)
      → Returns
          (Joined
            (get_io_worker sqid d)
            io
            free
            (internal_work_of sqid now target write_buffer amount)
            d)
          (schedule_internal_operation sqid now target write_buffer amount d)
  unfolding schedule_internal_operation
  schedule_internal_operation-Joined free h now target write_buffer amount =
      joins (internal_work_of sqid now target write_buffer amount) free (λ x. refl) (λ x. refl) h
