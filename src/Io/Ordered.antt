-- ===== src/Io/Ordered.antt =====
-- The order of a queue, and `__insert_req_sorted` as a whole.
use nvmevirt_slc_cache.Common.{
  ℕ, ◌≡◌, ◌≢◌, ◌≤◌, ◌<◌, ◌+◌, refl, ap, ◌∙◌, subst, true, false, List, [], ◌∷◌, ◌++◌, arith, ◌==◌,
  length, Returns, Returns-then,
}
use nvmevirt_slc_cache.Io.{IoWork, IoWorker, nr_max_parallel_io, nil, insert_at, insert_req_sorted}
use nvmevirt_slc_cache.Io.Chains.{
  All, All-mono, All-append, All-parts, NotIn, Distinct, Distinct-parts, Apart, Seg, SegAt, Seg-at,
}
use nvmevirt_slc_cache.Io.Places.{Within, due, Place, front, after, find_place-Place}
use nvmevirt_slc_cache.Io.Inserts.{
  Inserted, insert_head-Inserted, insert_tail-Inserted, insert_between-Inserted,
}

-- Each entry is due no later than those behind it.
abbrev pub Ordered : (ℕ → IoWork) → ℕ → List ℕ → Type 0
Ordered q latest [] = Unit
Ordered q latest (x ∷ xs) = All (λ y. due q latest x ≤ due q latest y) xs × Ordered q latest xs

module _ (q : ℕ → IoWork) (latest : ℕ) where
  Ordered-before :
      (us : List ℕ) (c : ℕ) (vs : List ℕ)
      → Ordered q latest (us ++ (c ∷ vs))
      → All (λ x. due q latest x ≤ due q latest c) us
  Ordered-before [] c vs o = tt
  Ordered-before (u ∷ us) c vs (a, o) = (
    (All-parts (λ y. due q latest u ≤ due q latest y) us (c ∷ vs) a).1.0,
    Ordered-before us c vs o,
  )

  -- An entry in its place.
  Ordered-insert :
      (us vs : List ℕ) (e : ℕ)
      → Ordered q latest (us ++ vs)
      → All (λ x. due q latest x ≤ due q latest e) us
      → All (λ x. due q latest e < due q latest x) vs
      → Ordered q latest (us ++ (e ∷ vs))
  Ordered-insert [] vs e o h k = (
    All-mono (λ x. due q latest e < due q latest x) (λ x. due q latest e ≤ due q latest x)
        (λ x l. omega (arith, l)) vs k,
    o,
  )
  Ordered-insert (u ∷ us) vs e (a, o) (h, hs) k =
      let p = All-parts (λ y. due q latest u ≤ due q latest y) us vs a in
      (
        All-append (λ y. due q latest u ≤ due q latest y) us (e ∷ vs) p.0 (h, p.1),
        Ordered-insert us vs e o hs k,
      )

pub Ordered-same :
    (q r : ℕ → IoWork) (latest : ℕ) (xs : List ℕ)
    → ((x : ℕ) → (r x).nsecs_target ≡ (q x).nsecs_target)
    → Ordered q latest xs
    → Ordered r latest xs
Ordered-same q r latest [] h o = tt
Ordered-same q r latest (x ∷ xs) h (a, o) = (
  All-mono (λ y. due q latest x ≤ due q latest y) (λ y. due r latest x ≤ due r latest y)
      (λ y l. rw (h x, h y) l) xs a,
  Ordered-same q r latest xs h o,
)

-- The entries in flight, from the first to the last; an empty queue has no first.
abbrev pub Chained : IoWorker → List ℕ → Type 0
Chained w [] = w.io_seq ≡ nil
Chained w (x ∷ xs) = Seg w.work_queue nil w.io_seq (x ∷ xs) w.io_seq_end nil

-- The entry `e` joins the queue `io` at its place.
pub record Entered (w : IoWorker) (e : ℕ) (io : List ℕ) (t : IoWorker) : Type 0 where
  pub before : List ℕ
  pub behind : List ℕ
  pub parts : io ≡ before ++ behind
  pub inserted : Inserted w e (before ++ (e ∷ behind)) t
  pub ordered : Ordered w.work_queue w.latest_nsecs (before ++ (e ∷ behind))

snoc_append : (us : List ℕ) (c : ℕ) (vs : List ℕ) → us ++ (c ∷ vs) ≡ (us ++ (c ∷ [])) ++ vs
snoc_append [] c vs = refl
snoc_append (u ∷ us) c vs = ap (λ (zs : List ℕ). u ∷ zs) (snoc_append us c vs)

module _ (w : IoWorker) (e : ℕ) (next_nil : (w.work_queue e).next ≡ nil)
    (prev_nil : (w.work_queue e).prev ≡ nil) where
  insert_at-Inserted :
      (us : List ℕ) (c : ℕ) (vs : List ℕ)
      → Seg w.work_queue nil w.io_seq (us ++ (c ∷ vs)) w.io_seq_end nil
      → NotIn e (us ++ (c ∷ vs))
      → Distinct (us ++ (c ∷ vs))
      → All Within (us ++ (c ∷ vs))
      → Inserted w e (us ++ (c ∷ (e ∷ vs))) (insert_at c e w)
  unfolding insert_at
  insert_at-Inserted us c [] s n d b =
      rw (no_nil, at_end) (insert_tail-Inserted w e next_nil prev_nil us c place np.0 np.1.0 dp.2)
    where
      place : SegAt w.work_queue nil w.io_seq us c [] w.io_seq_end nil
      place = Seg-at w.work_queue nil w.io_seq us c [] w.io_seq_end nil s

      np : NotIn e us × NotIn e (c ∷ [])
      np = All-parts (λ x. x ≢ e) us (c ∷ []) n

      dp : Distinct us × Distinct (c ∷ []) × Apart us (c ∷ [])
      dp = Distinct-parts us (c ∷ []) d

      inside : c < nr_max_parallel_io
      inside = (All-parts Within us (c ∷ []) b).1.0

      no_nil : (c == nil) ≡ false
      no_nil = ground (arith, inside)

      at_end : ((w.work_queue c).next == nil) ≡ true
      at_end = let h = place.rest.0 in ground (arith, h)
  insert_at-Inserted us c (y ∷ ys) s n d b =
      rw (no_nil, not_end)
        (insert_between-Inserted w e next_nil prev_nil us c y ys place np.0 np.1.0 np.1.1.0 np.1.1.1
          dp.1 dp.2)
    where
      place : SegAt w.work_queue nil w.io_seq us c (y ∷ ys) w.io_seq_end nil
      place = Seg-at w.work_queue nil w.io_seq us c (y ∷ ys) w.io_seq_end nil s

      np : NotIn e us × NotIn e (c ∷ (y ∷ ys))
      np = All-parts (λ x. x ≢ e) us (c ∷ (y ∷ ys)) n

      dp : Distinct us × Distinct (c ∷ (y ∷ ys)) × Apart us (c ∷ (y ∷ ys))
      dp = Distinct-parts us (c ∷ (y ∷ ys)) d

      inside : (c < nr_max_parallel_io) × (y < nr_max_parallel_io)
      inside = let p = All-parts Within us (c ∷ (y ∷ ys)) b in (p.1.0, p.1.1.0)

      no_nil : (c == nil) ≡ false
      no_nil = ground (arith, inside)

      not_end : ((w.work_queue c).next == nil) ≡ false
      not_end = let h = place.rest.0 in ground (arith, h, inside)

  -- The queue with `e` before all of it.
  enter_front :
      (x : ℕ) (xs : List ℕ) (curr : ℕ)
      → Chained w (x ∷ xs)
      → NotIn e (x ∷ xs)
      → Distinct (x ∷ xs)
      → Ordered w.work_queue w.latest_nsecs (x ∷ xs)
      → curr ≡ nil
      → All (λ y. due w.work_queue w.latest_nsecs e < due w.work_queue w.latest_nsecs y) (x ∷ xs)
      → Entered w e (x ∷ xs) (insert_at curr e w)
  unfolding insert_at
  enter_front x xs curr s n d o h a = record {
    before = [];
    behind = x ∷ xs;
    parts = refl;
    inserted = rw h (insert_head-Inserted w e next_nil prev_nil x xs s n d);
    ordered = Ordered-insert w.work_queue w.latest_nsecs [] (x ∷ xs) e o tt a;
  }

  -- The queue with `e` behind `c`.
  enter_behind :
      (us : List ℕ) (c : ℕ) (vs : List ℕ) (io : List ℕ)
      → io ≡ us ++ (c ∷ vs)
      → Seg w.work_queue nil w.io_seq io w.io_seq_end nil
      → NotIn e io
      → Distinct io
      → All Within io
      → Ordered w.work_queue w.latest_nsecs io
      → due w.work_queue w.latest_nsecs c ≤ due w.work_queue w.latest_nsecs e
      → All (λ y. due w.work_queue w.latest_nsecs e < due w.work_queue w.latest_nsecs y) vs
      → Entered w e io (insert_at c e w)
  enter_behind us c vs io p s n d b o h a = record {
    before = us ++ (c ∷ []);
    behind = vs;
    parts = p ∙ snoc_append us c vs;
    inserted =
        subst (λ (zs : List ℕ). Inserted w e zs (insert_at c e w)) (snoc_append us c (e ∷ vs))
          (insert_at-Inserted us c vs
            (subst (λ (zs : List ℕ). Seg w.work_queue nil w.io_seq zs w.io_seq_end nil) p s)
            (subst (NotIn e) p n) (subst Distinct p d) (subst (All Within) p b));
    ordered =
        Ordered-insert q latest (us ++ (c ∷ [])) vs e
          (subst (Ordered q latest) (p ∙ snoc_append us c vs) o)
          (All-append (λ x. due q latest x ≤ due q latest e) us (c ∷ [])
            (All-mono (λ x. due q latest x ≤ due q latest c) (λ x. due q latest x ≤ due q latest e)
              (λ x l. omega (arith, l, h)) us
              (Ordered-before q latest us c vs (subst (Ordered q latest) p o)))
            (h, tt))
          a;
  }
    where
      q : ℕ → IoWork
      q = w.work_queue

      latest : ℕ
      latest = w.latest_nsecs

  pub insert_req_sorted-Entered :
      (io : List ℕ)
      → Chained w io
      → NotIn e io
      → Distinct io
      → All Within io
      → length io ≤ nr_max_parallel_io
      → Ordered w.work_queue w.latest_nsecs io
      → Returns (Entered w e io) (insert_req_sorted e (w.work_queue e).nsecs_target w)
  unfolding insert_req_sorted
  insert_req_sorted-Entered [] s n d b l o = rw s (record {
    before = [];
    behind = [];
    parts = refl;
    inserted = record {
      chain = (refl, prev_nil, (next_nil, refl));
      data_same = λ x. refl;
      others = λ x h. refl;
      free_same = refl;
      free_end_same = refl;
      time_same = refl;
    };
    ordered = (tt, tt);
  })
  insert_req_sorted-Entered (x ∷ xs) s n d b l o = rw busy (
      Returns-then (Place w.work_queue w.latest_nsecs target (x ∷ xs)) (Entered w e (x ∷ xs)) _ _
        (find_place-Place (nr_max_parallel_io + 1) w.work_queue w.latest_nsecs target w.io_seq
          (x ∷ xs) w.io_seq_end nil s b (omega (arith, l)))
        place)
    where
      target : ℕ
      target = (w.work_queue e).nsecs_target

      busy : (w.io_seq == nil) ≡ false
      busy = let h = s.0 in let k = b.0 in ground (arith, h, k)

      place :
          (curr : ℕ)
          → Place w.work_queue w.latest_nsecs target (x ∷ xs) curr
          → Entered w e (x ∷ xs) (insert_at curr e w)
      place curr (front h a) = enter_front x xs curr s n d o h a
      place curr (after us vs p h a) = enter_behind us curr vs (x ∷ xs) p s n d b o h a
