-- ===== src/Io/Reclaims.antt =====
-- `__reclaim_completed_reqs` on a worker in order.
use nvmevirt_slc_cache.Common.{
  ℕ, zero, suc, ◌≡◌, ◌≢◌, ◌<◌, ◌+◌, refl, sym, ap, subst, true, false, List, [], ◌∷◌, ◌++◌, arith,
  ◌==◌, if◌then◌else◌, length, length-append, Returns, Returns-if, Returns-then, Returns-mono,
}
use nvmevirt_slc_cache.Io.{
  IoWork, IoWorker, nr_max_parallel_io, nil, is_done, last_done, release_entries, reclaim_worker,
}
use nvmevirt_slc_cache.Io.Chains.{
  everywhere, All, All-both, All-append, All-parts, NotIn, Distinct, Distinct-parts,
  Distinct-append, Apart, Apart-sym, Seg,
}
use nvmevirt_slc_cache.Io.Relinks.{last_or, All-last}
use nvmevirt_slc_cache.Io.Releases.{after_release, released, queue_left, all_free, target_same}
use nvmevirt_slc_cache.Io.Places.{Within}
use nvmevirt_slc_cache.Io.Ordered.{Ordered, Chained}
use nvmevirt_slc_cache.Io.Workers.{IsWorker, Ordered-on}

-- The first entry, if there is one, is not done.
abbrev pub Waits : (ℕ → IoWork) → ℕ → List ℕ → Type 0
Waits q latest [] = Unit
Waits q latest (x ∷ xs) = is_done latest (q x) ≡ false

-- A queue split after the entries at its front that are done.
pub record Split (q : ℕ → IoWork) (latest last : ℕ) (xs : List ℕ) (r : ℕ) : Type 0 where
  pub done : List ℕ
  pub rest : List ℕ
  pub parts : xs ≡ done ++ rest
  pub all_done : All (λ x. is_done latest (q x) ≡ true) done
  pub waits : Waits q latest rest
  pub result : r ≡ last_or last done

last_done-Split :
    (fuel : ℕ) (q : ℕ → IoWork) (latest p curr last : ℕ) (xs : List ℕ) (l : ℕ)
    → Seg q p curr xs l nil
    → All Within xs
    → length xs < fuel
    → Returns (Split q latest last xs) (last_done fuel q latest curr last)
unfolding last_done
last_done-Split zero q latest p curr last xs l s w h = absurd (omega arith)
last_done-Split (suc fuel) q latest p curr last [] l (e, k) w h =
    rw e (record { done = []; rest = []; parts = refl; all_done = tt; waits = tt; result = refl })
last_done-Split (suc fuel) q latest p curr last (x ∷ xs) l (e, k, s) (b, w) h =
    Returns-if P (curr == nil) _ _ (λ g. absurd (ground (arith, e, b)))
      λ _.
        Returns-if P (is_done latest (q curr)) _ _
          (λ g.
            Returns-mono (Split q latest curr xs) P
              (λ r t. record {
                done = x ∷ t.done;
                rest = t.rest;
                parts = ap (λ (zs : List ℕ). x ∷ zs) t.parts;
                all_done = (rw e at g, t.all_done);
                waits = t.waits;
                result = rw e at t.result;
              })
              _
              (last_done-Split fuel q latest x (q curr).next curr xs l (rw e s) w
                (omega (arith, h))))
          λ g. record {
            done = [];
            rest = x ∷ xs;
            parts = refl;
            all_done = tt;
            waits = rw e at g;
            result = refl;
          }
  where
    P : ℕ → Type 0
    P = Split q latest last (x ∷ xs)

-- The entries that are done leave the queue for the free ones.
pub record Reclaimed (w : IoWorker) (io free : List ℕ) (t : IoWorker) : Type 0 where
  pub done : List ℕ
  pub rest : List ℕ
  pub parts : io ≡ done ++ rest
  pub all_done : All (λ x. is_done w.latest_nsecs (w.work_queue x) ≡ true) done
  pub waits : Waits w.work_queue w.latest_nsecs rest
  pub is_worker : IsWorker t rest (free ++ done)

append_nil : (xs : List ℕ) → xs ++ [] ≡ xs
append_nil [] = refl
append_nil (x ∷ xs) = ap (λ (zs : List ℕ). x ∷ zs) (append_nil xs)

Ordered-rest :
    (q : ℕ → IoWork) (latest : ℕ) (xs ys : List ℕ)
    → Ordered q latest (xs ++ ys)
    → Ordered q latest ys
Ordered-rest q latest [] ys o = o
Ordered-rest q latest (x ∷ xs) ys (_, o) = Ordered-rest q latest xs ys o

module _ (w : IoWorker) (x : ℕ) (ds rest : List ℕ) (e : ℕ) (es : List ℕ) where
  -- Some entries are done.
  release-IsWorker :
      IsWorker w ((x ∷ ds) ++ rest) (e ∷ es)
      → IsWorker (release_entries w.io_seq (last_or x ds) w) rest ((e ∷ es) ++ (x ∷ ds))
  release-IsWorker h =
      subst (λ (t : IoWorker). IsWorker t rest ((e ∷ es) ++ (x ∷ ds)))
        (sym (released w x ds rest e es h.queued h.freed dp.0 dd.1 dp.1 df.0 dp' df.1 rw'))
        (record {
          queued = queue_left w x ds rest e es h.queued h.freed dp.0 dd.1 dp.1 df.0 dp' df.1 rw';
          freed = all_free w x ds rest e es h.queued h.freed dp.0 dd.1 dp.1 df.0 dp' df.1 rw';
          some_free = omega arith;
          distinct =
              Distinct-append rest ((e ∷ es) ++ (x ∷ ds)) dp.1
                (Distinct-append (e ∷ es) (x ∷ ds) dd.1 dp.0 (Apart-sym (x ∷ ds) (e ∷ es) df.0))
                (All-both (λ y. NotIn y (e ∷ es)) (λ y. NotIn y (x ∷ ds))
                  (λ y. NotIn y ((e ∷ es) ++ (x ∷ ds)))
                  (λ y n k. All-append (λ z. z ≢ y) (e ∷ es) (x ∷ ds) n k) rest df.1 dp');
          within = All-append Within rest ((e ∷ es) ++ (x ∷ ds)) rw' (
              All-append Within (e ∷ es) (x ∷ ds) bounds.1
                (All-parts Within (x ∷ ds) rest bounds.0).0);
          entries =
              omega
                (arith, h.entries, length-append (x ∷ ds) rest, length-append (e ∷ es) (x ∷ ds));
          ordered =
              Ordered-on w.work_queue
                (after_release w x ds rest e es h.queued h.freed dp.0 dd.1 dp.1 df.0 dp' df.1
                  rw').work_queue
                w.latest_nsecs rest
                (everywhere
                  (λ y.
                    ((after_release w x ds rest e es h.queued h.freed dp.0 dd.1 dp.1 df.0 dp' df.1
                        rw').work_queue
                      y).nsecs_target
                    ≡ (w.work_queue y).nsecs_target)
                  (target_same w x ds rest e es h.queued h.freed dp.0 dd.1 dp.1 df.0 dp' df.1 rw')
                  rest)
                (Ordered-rest w.work_queue w.latest_nsecs (x ∷ ds) rest h.ordered);
        })
    where
      dd : Distinct ((x ∷ ds) ++ rest) × Distinct (e ∷ es) × Apart ((x ∷ ds) ++ rest) (e ∷ es)
      dd = Distinct-parts ((x ∷ ds) ++ rest) (e ∷ es) h.distinct

      dp : Distinct (x ∷ ds) × Distinct rest × Apart (x ∷ ds) rest
      dp = Distinct-parts (x ∷ ds) rest dd.0

      df : Apart (x ∷ ds) (e ∷ es) × Apart rest (e ∷ es)
      df = All-parts (λ y. NotIn y (e ∷ es)) (x ∷ ds) rest dd.2

      dp' : Apart rest (x ∷ ds)
      dp' = Apart-sym (x ∷ ds) rest dp.2

      bounds : All Within ((x ∷ ds) ++ rest) × All Within (e ∷ es)
      bounds = All-parts Within ((x ∷ ds) ++ rest) (e ∷ es) h.within

      rw' : All Within rest
      rw' = (All-parts Within (x ∷ ds) rest bounds.0).1

module _ (w : IoWorker) (io : List ℕ) (e : ℕ) (es : List ℕ) (h : IsWorker w io (e ∷ es)) where
  bounds_io : All Within io
  bounds_io = (All-parts Within io (e ∷ es) h.within).0

  scanned :
      Returns
        (Split w.work_queue w.latest_nsecs nil io)
        (last_done (nr_max_parallel_io + 1) w.work_queue w.latest_nsecs w.io_seq nil)
  scanned = scan io h.queued bounds_io (omega (arith, h.entries))
    where
      scan :
          (xs : List ℕ)
          → Chained w xs
          → All Within xs
          → length xs < nr_max_parallel_io + 1
          → Returns
              (Split w.work_queue w.latest_nsecs nil xs)
              (last_done (nr_max_parallel_io + 1) w.work_queue w.latest_nsecs w.io_seq nil)
      scan [] c b l =
          last_done-Split (nr_max_parallel_io + 1) w.work_queue w.latest_nsecs nil w.io_seq nil []
            nil (c, refl) b l
      scan (x ∷ xs) c b l =
          last_done-Split (nr_max_parallel_io + 1) w.work_queue w.latest_nsecs nil w.io_seq nil
            (x ∷ xs) w.io_seq_end c b l

  Split-Reclaimed :
      (last : ℕ)
      → Split w.work_queue w.latest_nsecs nil io last
      → Reclaimed w io (e ∷ es) (if last == nil then w else release_entries w.io_seq last w)
  Split-Reclaimed last p = go p.done p.rest p.parts p.all_done p.waits p.result
    where
      go :
          (done rest : List ℕ)
          → io ≡ done ++ rest
          → All (λ x. is_done w.latest_nsecs (w.work_queue x) ≡ true) done
          → Waits w.work_queue w.latest_nsecs rest
          → last ≡ last_or nil done
          → Reclaimed w io (e ∷ es) (if last == nil then w else release_entries w.io_seq last w)
      go [] rest q a v r = rw r (record {
        done = [];
        rest = rest;
        parts = q;
        all_done = tt;
        waits = v;
        is_worker =
            subst (IsWorker w rest) (sym (append_nil (e ∷ es)))
              (subst (λ (zs : List ℕ). IsWorker w zs (e ∷ es)) q h);
      })
      go (x ∷ ds) rest q a v r =
          rw (r, some_last)
            (record {
              done = x ∷ ds;
              rest = rest;
              parts = q;
              all_done = a;
              waits = v;
              is_worker =
                  release-IsWorker w x ds rest e es
                    (subst (λ (zs : List ℕ). IsWorker w zs (e ∷ es)) q h);
            })
        where
          inside : Within (last_or x ds)
          inside =
              All-last Within x ds
                (All-parts Within (x ∷ ds) rest (subst (All Within) q bounds_io)).0

          some_last : (last_or x ds == nil) ≡ false
          some_last = ground (arith, inside)

  -- Reclaiming on a worker in order returns and leaves it in order: the entries at the front of
  -- the queue that are copied, completed and due leave it for the end of the free ones, in their
  -- order, and the first entry that is left is not done.
  pub reclaim_worker-Reclaimed : Returns (Reclaimed w io (e ∷ es)) (reclaim_worker w)
  unfolding reclaim_worker
  reclaim_worker-Reclaimed =
      Returns-then (Split w.work_queue w.latest_nsecs nil io) (Reclaimed w io (e ∷ es)) _ _ scanned
        Split-Reclaimed
