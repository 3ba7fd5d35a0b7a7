-- ===== src/Io/Releases.antt =====
-- The entries that are done go to the end of the free ones.
use nvmevirt_slc_cache.Common.{
  ℕ, ◌≡◌, ◌≢◌, refl, sym, ap, ◌∙◌, subst, List, [], ◌∷◌, ◌++◌, arith, ◌==◌, if◌then◌else◌,
}
use nvmevirt_slc_cache.Io.{IoWork, IoWorker, nil, set_next, set_prev, release_entries}
use nvmevirt_slc_cache.Io.Chains.{
  All, All-both, All-mono, NotIn, Distinct, Apart, Apart-sym, Seg, Seg-same, Seg-last, Seg-Fwd, Fwd,
  Fwd-append, SameLinks,
}
use nvmevirt_slc_cache.Io.Relinks.{
  Cut, Seg-cut, last_or, Fwd-last, NotIn-last, All-last, Fwd-relink,
}
use nvmevirt_slc_cache.Io.Places.{Within}
use nvmevirt_slc_cache.Io.Ordered.{Chained}

-- The links that `release_entries` writes, once it has read those of the last entry.
abbrev pub relinked : (ℕ → IoWork) → ℕ → ℕ → ℕ → ℕ → ℕ → IoWork
relinked q free_end f l n =
    set_next free_end f
      (set_prev f free_end (set_next l nil (if n == nil then q else set_prev n nil q)))

release_entries_at :
    (w : IoWorker) (f l n : ℕ)
    → (w.work_queue l).next ≡ n
    → release_entries f l w ≡ record w {
      io_seq = n;
      work_queue = relinked w.work_queue w.free_seq_end f l n;
      free_seq_end = l;
    }
unfolding release_entries
release_entries_at w f l n h = rw h refl

-- The entries `x ∷ ds` are at the front of the queue, `rest` behind them, and `e ∷ es` are free.
module _ (w : IoWorker) (x : ℕ) (ds rest : List ℕ) (e : ℕ) (es : List ℕ)
    (s : Seg w.work_queue nil w.io_seq ((x ∷ ds) ++ rest) w.io_seq_end nil)
    (u : Fwd w.work_queue nil w.free_seq (e ∷ es) w.free_seq_end nil) (d : Distinct (x ∷ ds))
    (df : Distinct (e ∷ es)) (dr : Distinct rest) (done_free : Apart (x ∷ ds) (e ∷ es))
    (rest_done : Apart rest (x ∷ ds)) (rest_free : Apart rest (e ∷ es))
    (rest_within : All Within rest) where
  abbrev pub last : ℕ
  last = last_or x ds

  pub cut : Cut w.work_queue nil w.io_seq (x ∷ ds) rest w.io_seq_end nil
  cut = Seg-cut w.work_queue nil w.io_seq (x ∷ ds) rest w.io_seq_end nil s

  is_last : cut.last ≡ last
  is_last =
      Fwd-last w.work_queue nil w.io_seq (x ∷ ds) cut.last cut.first
        (Seg-Fwd w.work_queue nil w.io_seq (x ∷ ds) cut.last cut.first cut.front)

  is_first : w.io_seq ≡ x
  is_first = cut.front.0

  free_end : w.free_seq_end ≡ last_or e es
  free_end = Fwd-last w.work_queue nil w.free_seq (e ∷ es) w.free_seq_end nil u

  last_next : (w.work_queue last).next ≡ cut.first
  last_next =
      ap (λ (y : ℕ). (w.work_queue y).next) (sym is_last)
      ∙ (Seg-last w.work_queue nil w.io_seq x ds cut.last cut.first cut.front).ends

  -- Entries apart from the done and from the free ones are neither of the two ends.
  not_last : (y : ℕ) → NotIn y (x ∷ ds) → last ≢ y
  not_last y n = NotIn-last y x ds n

  not_end : (y : ℕ) → NotIn y (e ∷ es) → w.free_seq_end ≢ y
  not_end y n h = NotIn-last y e es n (sym free_end ∙ h)

  abbrev r : ℕ → IoWork
  r = relinked w.work_queue w.free_seq_end x last cut.first

  abbrev pub after_release : IoWorker
  after_release = record w { io_seq = cut.first; work_queue = r; free_seq_end = last }

  pub released : release_entries w.io_seq last w ≡ after_release
  released =
      ap (λ (y : ℕ). release_entries y last w) is_first
      ∙ release_entries_at w x last cut.first last_next

  next_same : (y : ℕ) → w.free_seq_end ≢ y → last ≢ y → (r y).next ≡ (w.work_queue y).next
  next_same y h k = ground arith

  prev_same : (y : ℕ) → x ≢ y → cut.first ≢ y → (r y).prev ≡ (w.work_queue y).prev
  prev_same y h k = ground arith

  end_next : (r w.free_seq_end).next ≡ x
  end_next = ground arith

  ends_apart : w.free_seq_end ≢ last
  ends_apart = not_end last (All-last (λ y. NotIn y (e ∷ es)) x ds done_free)

  last_nil : (r last).next ≡ nil
  last_nil = ground (arith, ends_apart)

  -- What is left of the queue.
  pub queue_left :
      Chained (record w { io_seq = cut.first; work_queue = r; free_seq_end = last }) rest
  queue_left = left rest cut.back rest_done rest_free dr rest_within
    where
      left :
          (ys : List ℕ)
          → Seg w.work_queue cut.last cut.first ys w.io_seq_end nil
          → Apart ys (x ∷ ds)
          → Apart ys (e ∷ es)
          → Distinct ys
          → All Within ys
          → Chained after_release ys
      left [] k a b c v = k.0
      left (y ∷ ys) (f, _, k) (a, others_done) (b, others_free) (c, _) (v, _) =
          let apart_x = a.0 in
          let apart_last = not_last y a in
          let apart_end = not_end y b in
          (
            f,
            ground (arith, f, v, apart_x, apart_last, apart_end),
            rw (next_same y apart_end apart_last) (
                Seg-same w.work_queue r y (w.work_queue y).next ys w.io_seq_end nil
                  (All-both (λ z. NotIn z (x ∷ ds) × NotIn z (e ∷ es)) (λ z. z ≢ y)
                    (SameLinks w.work_queue r)
                    (λ z (g, h) o. (
                      next_same z (not_end z h) (not_last z g),
                      prev_same z g.0 (λ j. o (sym j ∙ f)),
                    ))
                    ys
                    (All-both (λ z. NotIn z (x ∷ ds)) (λ z. NotIn z (e ∷ es))
                      (λ z. NotIn z (x ∷ ds) × NotIn z (e ∷ es)) (λ z g h. (g, h)) ys others_done
                      others_free)
                    c)
                  k),
          )

  -- The free entries, with the done ones behind.
  pub all_free : Fwd r nil w.free_seq ((e ∷ es) ++ (x ∷ ds)) last nil
  all_free =
      Fwd-append r nil w.free_seq (e ∷ es) w.free_seq_end x (x ∷ ds) last nil
        (Fwd-relink w.work_queue r nil w.free_seq e es w.free_seq_end nil x df
          (All-mono (λ y. NotIn y (x ∷ ds))
            (λ y. y ≢ w.free_seq_end → (r y).next ≡ (w.work_queue y).next)
            (λ y n g. next_same y (λ h. g (sym h)) (not_last y n)) (e ∷ es)
            (Apart-sym (x ∷ ds) (e ∷ es) done_free))
          end_next u)
        (Fwd-relink w.work_queue r w.free_seq_end x x ds last cut.first nil d
          (All-mono (λ y. NotIn y (e ∷ es)) (λ y. y ≢ last → (r y).next ≡ (w.work_queue y).next)
            (λ y n g. next_same y (not_end y n) (λ h. g (sym h))) (x ∷ ds) done_free)
          last_nil (refl, done_chain.1))
    where
      done_chain : Fwd w.work_queue nil w.io_seq (x ∷ ds) last cut.first
      done_chain =
          subst (λ (l : ℕ). Fwd w.work_queue nil w.io_seq (x ∷ ds) l cut.first) is_last
            (Seg-Fwd w.work_queue nil w.io_seq (x ∷ ds) cut.last cut.first cut.front)

  -- Only links are written.
  pub target_same : (y : ℕ) → (r y).nsecs_target ≡ (w.work_queue y).nsecs_target
  target_same y = ground arith
