-- ===== src/Io/Passes.antt =====
-- A pass of a worker over its queue: what is due is completed, and nothing else.
use nvmevirt_slc_cache.Common.{
  ℕ, zero, suc, ◌≡◌, ◌≢◌, ◌≤◌, ◌<◌, ◌+◌, refl, sym, ap, ◌∙◌, subst, true, List, [], ◌∷◌, arith,
  ◌==◌, length, Returns, Returns-if, Returns-mono,
}
use nvmevirt_slc_cache.Io.{IoWork, nr_max_parallel_io, nil, Working, visit, pass}
use nvmevirt_slc_cache.Io.Chains.{
  everywhere, All-parts, Distinct-parts, All, All-both, NotIn, Distinct, Seg, Seg-same, SameLinks,
}
use nvmevirt_slc_cache.Io.Places.{Within}
use nvmevirt_slc_cache.Io.Visits.{
  Visited, unserved, Visited-trans, visit-Visited, visit-completes, visit-others,
}
use nvmevirt_slc_cache.Io.Workers.{IsWorker}

-- The queue after a pass.
pub record Passed (lower upper : ℕ) (xs : List ℕ) (s t : Working) : Type 0 where
  pub served : (x : ℕ) → Visited lower upper (s.worker.work_queue x) (t.worker.work_queue x)
  pub completed :
      All
        (λ x.
          (s.worker.work_queue x).nsecs_target ≤ lower
          → (t.worker.work_queue x).is_completed ≡ true)
        xs
  pub others : (x : ℕ) → NotIn x xs → t.worker.work_queue x ≡ s.worker.work_queue x

module _ (lower upper : ℕ) (clock : ℕ → ℕ)
    (in_range : (k : ℕ) → (lower ≤ clock k) × (clock k ≤ upper)) where
  next-Passed :
      (k : ℕ) (s u : Working) (x : ℕ) (xs : List ℕ)
      → NotIn x xs
      → Passed lower upper xs (visit (clock k) x s) u
      → Passed lower upper (x ∷ xs) s u
  next-Passed k s u x xs n p = record {
    served = λ y.
        Visited-trans lower upper (s.worker.work_queue y)
          ((visit (clock k) x s).worker.work_queue y) (u.worker.work_queue y)
          (visit-Visited lower upper (clock k) x s y (in_range k).1) (p.served y);
    completed = (
      (λ h. (p.served x).stays (visit-completes (clock k) x s (omega (arith, h, in_range k)))),
      All-both
          (λ y.
            ((visit (clock k) x s).worker.work_queue y).nsecs_target ≤ lower
            → (u.worker.work_queue y).is_completed ≡ true)
          (λ y. y ≢ x)
          (λ y.
            (s.worker.work_queue y).nsecs_target ≤ lower
            → (u.worker.work_queue y).is_completed ≡ true)
          (λ y c m h. c (
            subst (λ (z : IoWork). z.nsecs_target ≤ lower) (sym (visit-others (clock k) x s y m))
              h))
          xs p.completed n,
    );
    others = λ y m. p.others y m.1 ∙ visit-others (clock k) x s y (λ h. m.0 (sym h));
  }

  pass-Passed :
      (fuel k p curr : ℕ) (s : Working) (xs : List ℕ) (l : ℕ)
      → Seg s.worker.work_queue p curr xs l nil
      → All Within xs
      → Distinct xs
      → length xs < fuel
      → Returns (Passed lower upper xs s) (pass fuel clock k curr s)
  unfolding pass
  pass-Passed zero k p curr s xs l c w d f = absurd (omega arith)
  pass-Passed (suc fuel) k p curr s [] l (e, g) w d f = rw e (record {
    served = λ x. unserved lower upper (s.worker.work_queue x);
    completed = tt;
    others = λ x n. refl;
  })
  pass-Passed (suc fuel) k p curr s (x ∷ xs) l (e, g, c) (b, w) (n, d) f =
      Returns-if (Passed lower upper (x ∷ xs) s) (curr == nil) _ _
        (λ h. absurd (ground (arith, e, b, h)))
        λ _.
          Returns-mono (Passed lower upper xs t) (Passed lower upper (x ∷ xs) s)
            (λ u q.
              next-Passed k s u x xs n
                (subst (λ (y : ℕ). Passed lower upper xs (visit (clock k) y s) u) e q))
            _
            (pass-Passed fuel (k + 1) x (t.worker.work_queue curr).next t xs l
              (subst (λ (y : ℕ). Seg t.worker.work_queue x y xs l nil) moved
                (Seg-same s.worker.work_queue t.worker.work_queue x (s.worker.work_queue x).next xs
                  l nil
                  (everywhere (SameLinks s.worker.work_queue t.worker.work_queue)
                    (λ y. ((visited y).same_next, (visited y).same_prev)) xs)
                  c))
              w d (omega (arith, f)))
    where
      t : Working
      t = visit (clock k) curr s

      visited : (y : ℕ) → Visited lower upper (s.worker.work_queue y) (t.worker.work_queue y)
      visited y = visit-Visited lower upper (clock k) curr s y (in_range k).1

      moved : (s.worker.work_queue x).next ≡ (t.worker.work_queue curr).next
      moved = sym ((visited curr).same_next ∙ ap (λ (y : ℕ). (s.worker.work_queue y).next) e)

  -- A pass of a worker in order over its queue, at times that all lie from `lower` to `upper`,
  -- ends. Every entry in flight that is due by `lower` is completed after it, none is completed
  -- that was not before and is due only after `upper`, a completed one stays so, every entry
  -- keeps its place and its due time, and the entries outside the queue are untouched.
  pub pass-Visited :
      (s : Working) (io free : List ℕ)
      → IsWorker s.worker io free
      → Returns (Passed lower upper io s) (pass (nr_max_parallel_io + 1) clock 0 s.worker.io_seq s)
  pass-Visited s [] free h =
      pass-Passed (nr_max_parallel_io + 1) 0 nil s.worker.io_seq s [] nil (h.queued, refl) tt tt
        (omega arith)
  pass-Visited s (x ∷ xs) free h =
      pass-Passed (nr_max_parallel_io + 1) 0 nil s.worker.io_seq s (x ∷ xs) s.worker.io_seq_end
        h.queued (All-parts Within (x ∷ xs) free h.within).0
        (Distinct-parts (x ∷ xs) free h.distinct).0 (omega (arith, h.entries))
