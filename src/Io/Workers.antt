-- ===== src/Io/Workers.antt =====
-- A worker in order: its queue and its free entries, and how a request enters.
use nvmevirt_slc_cache.Common.{
  ℕ, ◌≡◌, ◌≢◌, ◌≤◌, ◌<◌, ◌+◌, refl, sym, ap, ◌∙◌, subst, List, [], ◌∷◌, ◌++◌, arith, update, length,
  length-append, Returns, Returns-mono,
}
use nvmevirt_slc_cache.Io.{IoWork, IoWorker, nr_max_parallel_io, nil, insert_req_sorted}
use nvmevirt_slc_cache.Io.Chains.{
  All, All-both, All-mono, All-append, All-parts, NotIn, Distinct, Distinct-parts, Distinct-append,
  Apart, Apart-sym, Seg, Seg-same, Fwd, Fwd-same, SameLinks,
}
use nvmevirt_slc_cache.Io.Places.{Within, due}
use nvmevirt_slc_cache.Io.Inserts.{Inserted}
use nvmevirt_slc_cache.Io.Ordered.{
  Ordered, Ordered-same, Chained, Entered, insert_req_sorted-Entered,
}

-- The entries of `io` are in flight, in the order in which they are due, and those of `free` are free;
-- together they are as many as there are, and none is in both.
pub record IsWorker (w : IoWorker) (io free : List ℕ) : Type 0 where
  pub queued : Chained w io
  pub freed : Fwd w.work_queue nil w.free_seq free w.free_seq_end nil
  pub some_free : 0 < length free
  pub distinct : Distinct (io ++ free)
  pub within : All Within (io ++ free)
  pub entries : length io + length free ≡ nr_max_parallel_io
  pub ordered : Ordered w.work_queue w.latest_nsecs io

-- The order depends on the targets of the members only.
pub Ordered-on :
    (q r : ℕ → IoWork) (latest : ℕ) (xs : List ℕ)
    → All (λ x. (r x).nsecs_target ≡ (q x).nsecs_target) xs
    → Ordered q latest xs
    → Ordered r latest xs
Ordered-on q r latest [] h o = tt
Ordered-on q r latest (x ∷ xs) (h, hs) (a, o) = (
  All-both (λ y. (r y).nsecs_target ≡ (q y).nsecs_target) (λ y. due q latest x ≤ due q latest y)
      (λ y. due r latest x ≤ due r latest y) (λ y k l. rw (h, k) l) xs hs a,
  Ordered-on q r latest xs hs o,
)

pub Chained-Seg :
    (w : IoWorker) (xs : List ℕ) → Seg w.work_queue nil w.io_seq xs w.io_seq_end nil → Chained w xs
Chained-Seg w [] s = s.0
Chained-Seg w (x ∷ xs) s = s

pub Chained-same :
    (w t : IoWorker) (xs : List ℕ)
    → t.io_seq ≡ w.io_seq
    → t.io_seq_end ≡ w.io_seq_end
    → All (SameLinks w.work_queue t.work_queue) xs
    → Chained w xs
    → Chained t xs
Chained-same w t [] f e a c = f ∙ c
Chained-same w t (x ∷ xs) f e a c =
    rw (f, e) (Seg-same w.work_queue t.work_queue nil w.io_seq (x ∷ xs) w.io_seq_end nil a c)

Distinct-insert :
    (us vs : List ℕ) (e : ℕ) → Distinct (us ++ vs) → NotIn e (us ++ vs) → Distinct (us ++ (e ∷ vs))
Distinct-insert us vs e d n =
    let p = Distinct-parts us vs d in
    let m = All-parts (λ x. x ≢ e) us vs n in
    Distinct-append us (e ∷ vs) p.0 (m.1, p.1)
      (All-both (λ x. x ≢ e) (λ x. NotIn x vs) (λ x. NotIn x (e ∷ vs))
        (λ x h k. ((λ q. h (sym q)), k)) us m.0 p.2)

length-insert : (us vs : List ℕ) (e : ℕ) → length (us ++ (e ∷ vs)) ≡ length (us ++ vs) + 1
length-insert us vs e = omega (arith, length-append us (e ∷ vs), length-append us vs)

-- The worker with its next free entry taken and written.
abbrev pub with_entry : ℕ → ℕ → IoWork → IoWorker → IoWorker
with_entry e f work w = record w { free_seq = f; work_queue = update w.work_queue e work }

-- The request is in the queue, with nothing lost.
pub record Enqueued (e : ℕ) (work : IoWork) (io free : List ℕ) (t : IoWorker) : Type 0 where
  pub before : List ℕ
  pub behind : List ℕ
  pub parts : io ≡ before ++ behind
  pub is_worker : IsWorker t (before ++ (e ∷ behind)) free
  pub entry :
      t.work_queue e ≡ record work { next = (t.work_queue e).next; prev = (t.work_queue e).prev }

module _ (w : IoWorker) (io : List ℕ) (e f : ℕ) (fs : List ℕ) (h : IsWorker w io (e ∷ (f ∷ fs)))
    (work : IoWork) (work_next : work.next ≡ nil) (work_prev : work.prev ≡ nil) where
  abbrev filled : IoWorker
  filled = with_entry e f work w

  apart : Distinct io × Distinct (e ∷ (f ∷ fs)) × Apart io (e ∷ (f ∷ fs))
  apart = Distinct-parts io (e ∷ (f ∷ fs)) h.distinct

  bounds : All Within io × All Within (e ∷ (f ∷ fs))
  bounds = All-parts Within io (e ∷ (f ∷ fs)) h.within

  not_e : NotIn e io
  not_e = All-mono (λ x. NotIn x (e ∷ (f ∷ fs))) (λ x. x ≢ e) (λ x n q. n.0 (sym q)) io apart.2

  unwritten : (x : ℕ) → x ≢ e → filled.work_queue x ≡ w.work_queue x
  unwritten x n = ground arith

  written : filled.work_queue e ≡ work
  written = ground arith

  enter-Entered : Returns (Entered filled e io) (insert_req_sorted e work.nsecs_target filled)
  enter-Entered =
      subst
        (λ (x : IoWork). Returns (Entered filled e io) (insert_req_sorted e x.nsecs_target filled))
        written
        (insert_req_sorted-Entered filled e (ap (λ (x : IoWork). x.next) written ∙ work_next)
          (ap (λ (x : IoWork). x.prev) written ∙ work_prev) io
          (Chained-same w filled io refl refl
            (All-mono (λ x. x ≢ e) (SameLinks w.work_queue filled.work_queue)
              (λ x n. (
                ap (λ (y : IoWork). y.next) (unwritten x n),
                ap (λ (y : IoWork). y.prev) (unwritten x n),
              ))
              io not_e)
            h.queued)
          not_e apart.0 bounds.0 (omega (arith, h.entries))
          (Ordered-on w.work_queue filled.work_queue w.latest_nsecs io
            (All-mono (λ x. x ≢ e)
              (λ x. (filled.work_queue x).nsecs_target ≡ (w.work_queue x).nsecs_target)
              (λ x n. ap (λ (y : IoWork). y.nsecs_target) (unwritten x n)) io not_e)
            h.ordered))

  -- The free entries that are left keep their links.
  left_free :
      (us vs : List ℕ) (t : IoWorker)
      → io ≡ us ++ vs
      → Inserted filled e (us ++ (e ∷ vs)) t
      → Fwd t.work_queue nil t.free_seq (f ∷ fs) t.free_seq_end nil
  left_free us vs t p i =
      rw (i.free_same, i.free_end_same)
        (Fwd-same w.work_queue t.work_queue nil f (f ∷ fs) w.free_seq_end nil links
          (refl, h.freed.1.1))
    where
      unmoved : (x : ℕ) → NotIn x io → x ≢ e → t.work_queue x ≡ w.work_queue x
      unmoved x n k =
          let q = All-parts (λ y. y ≢ x) us vs (subst (NotIn x) p n) in
          i.others x (All-append (λ y. y ≢ x) us (e ∷ vs) q.0 ((λ r. k (sym r)), q.1))
          ∙ unwritten x k

      links : All (λ x. (t.work_queue x).next ≡ (w.work_queue x).next) (f ∷ fs)
      links =
          All-both (λ x. NotIn x io) (λ x. x ≢ e)
            (λ x. (t.work_queue x).next ≡ (w.work_queue x).next)
            (λ x n k. ap (λ (y : IoWork). y.next) (unmoved x n k)) (f ∷ fs)
            (Apart-sym io (e ∷ (f ∷ fs)) apart.2).1 apart.1.0

  Entered-Enqueued : (t : IoWorker) → Entered filled e io t → Enqueued e work io (f ∷ fs) t
  Entered-Enqueued t n = record {
    before = n.before;
    behind = n.behind;
    parts = n.parts;
    is_worker = record {
      queued = Chained-Seg t whole n.inserted.chain;
      freed = left_free n.before n.behind t n.parts n.inserted;
      some_free = omega arith;
      distinct =
          Distinct-append whole (f ∷ fs)
            (Distinct-insert n.before n.behind e (subst Distinct n.parts apart.0)
              (subst (NotIn e) n.parts not_e))
            apart.1.1
            (All-append (λ x. NotIn x (f ∷ fs)) n.before (e ∷ n.behind) far.0 (apart.1.0, far.1));
      within =
          All-append Within whole (f ∷ fs)
            (All-append Within n.before (e ∷ n.behind) near.0 (bounds.1.0, near.1)) bounds.1.1;
      entries = omega (arith, h.entries, length-insert n.before n.behind e, ap length n.parts);
      ordered = rw n.inserted.time_same (
          Ordered-same filled.work_queue t.work_queue w.latest_nsecs whole
            (λ x. ap (λ (y : IoWork). y.nsecs_target) (n.inserted.data_same x)) n.ordered);
    };
    entry =
        n.inserted.data_same e
        ∙ ap
            (λ (y : IoWork). record y {
              next = (t.work_queue e).next;
              prev = (t.work_queue e).prev;
            })
            written;
  }
    where
      whole : List ℕ
      whole = n.before ++ (e ∷ n.behind)

      far : Apart n.before (f ∷ fs) × Apart n.behind (f ∷ fs)
      far =
          All-parts (λ x. NotIn x (f ∷ fs)) n.before n.behind
            (subst (λ (zs : List ℕ). Apart zs (f ∷ fs)) n.parts
              (All-mono (λ x. NotIn x (e ∷ (f ∷ fs))) (λ x. NotIn x (f ∷ fs)) (λ x m. m.1) io
                apart.2))

      near : All Within n.before × All Within n.behind
      near = All-parts Within n.before n.behind (subst (All Within) n.parts bounds.0)

  -- A request whose entry is written enters the queue where it is due, and the worker stays in order.
  pub enter-Enqueued :
      Returns
        (Enqueued e work io (f ∷ fs))
        (insert_req_sorted e work.nsecs_target (with_entry e f work w))
  enter-Enqueued =
      Returns-mono (Entered filled e io) (Enqueued e work io (f ∷ fs)) Entered-Enqueued
        (insert_req_sorted e work.nsecs_target filled) enter-Entered
