-- ===== src/Io/Inserts.antt =====
-- The links that `__insert_req_sorted` changes: the chain with the entry in its place.
use nvmevirt_slc_cache.Common.{ℕ, ◌≡◌, ◌≢◌, refl, ◌∙◌, List, [], ◌∷◌, ◌++◌, arith}
use nvmevirt_slc_cache.Io.{
  IoWork, IoWorker, nil, set_next, set_prev, insert_head, insert_tail, insert_between,
}
use nvmevirt_slc_cache.Io.Chains.{
  All-both, All-parts, NotIn, Distinct, Apart, Seg, Seg-same, Seg-append, SegAt, SameLinks,
}
use nvmevirt_slc_cache.Io.Places.{Within}

-- The chain after the insertion; nothing but links changes, and only in the chain.
pub record Inserted (w : IoWorker) (e : ℕ) (whole : List ℕ) (t : IoWorker) : Type 0 where
  pub chain : Seg t.work_queue nil t.io_seq whole t.io_seq_end nil
  pub data_same :
      (x : ℕ)
      → t.work_queue x
        ≡ record (w.work_queue x) { next = (t.work_queue x).next; prev = (t.work_queue x).prev }
  pub others : (x : ℕ) → NotIn x whole → t.work_queue x ≡ w.work_queue x
  pub free_same : t.free_seq ≡ w.free_seq
  pub free_end_same : t.free_seq_end ≡ w.free_seq_end
  pub time_same : t.latest_nsecs ≡ w.latest_nsecs

Within-nil : (x : ℕ) → Within x → x ≢ nil
Within-nil x w h = omega (arith, w, h)

module _ (w : IoWorker) (e : ℕ) (next_nil : (w.work_queue e).next ≡ nil)
    (prev_nil : (w.work_queue e).prev ≡ nil) where
  pub insert_head-Inserted :
      (y : ℕ) (ys : List ℕ)
      → Seg w.work_queue nil w.io_seq (y ∷ ys) w.io_seq_end nil
      → NotIn e (y ∷ ys)
      → Distinct (y ∷ ys)
      → Inserted w e (e ∷ (y ∷ ys)) (insert_head e w)
  unfolding insert_head
  insert_head-Inserted y ys (f, b, s) (n, m) (d, _) = record {
    chain = (refl, ground arith, (ground arith, ground arith, rw y_next rest));
    data_same = λ x. ground arith;
    others = λ x h. let a = h.0 in let c = h.1.0 in ground arith;
    free_same = refl;
    free_end_same = refl;
    time_same = refl;
  }
    where
      r : ℕ → IoWork
      r = set_next e w.io_seq (set_prev w.io_seq e w.work_queue)

      y_next : (r y).next ≡ (w.work_queue y).next
      y_next = ground arith

      same : (x : ℕ) → x ≢ e → x ≢ y → SameLinks w.work_queue r x
      same x h k = (ground arith, ground arith)

      rest : Seg r y (w.work_queue y).next ys w.io_seq_end nil
      rest =
          Seg-same w.work_queue r y (w.work_queue y).next ys w.io_seq_end nil
            (All-both (λ x. x ≢ e) (λ x. x ≢ y) (SameLinks w.work_queue r) same ys m d) s

  -- After the last entry `c`.
  pub insert_tail-Inserted :
      (us : List ℕ) (c : ℕ)
      → SegAt w.work_queue nil w.io_seq us c [] w.io_seq_end nil
      → NotIn e us
      → c ≢ e
      → Apart us (c ∷ [])
      → Inserted w e (us ++ (c ∷ (e ∷ []))) (insert_tail c e w)
  unfolding insert_tail
  insert_tail-Inserted us c s n k a = record {
    chain =
        Seg-append r nil w.io_seq us s.from_last c (c ∷ (e ∷ [])) e nil
          (Seg-same w.work_queue r nil w.io_seq us s.from_last c
            (All-both (λ x. x ≢ e) (λ x. NotIn x (c ∷ [])) (SameLinks w.work_queue r)
              (λ x h l. let j = l.0 in (ground arith, ground arith)) us n a)
            s.front)
          (refl, c_prev ∙ s.back_link, (ground arith, ground arith, (e_next ∙ next_nil, refl)));
    data_same = λ x. ground arith;
    others = λ x h.
        let p = All-parts (λ y. y ≢ x) us (c ∷ (e ∷ [])) h in
        let i = p.1.0 in let j = p.1.1.0 in ground arith;
    free_same = refl;
    free_end_same = refl;
    time_same = refl;
  }
    where
      r : ℕ → IoWork
      r = set_next c e (set_prev e c w.work_queue)

      c_prev : (r c).prev ≡ (w.work_queue c).prev
      c_prev = ground arith

      e_next : (r e).next ≡ (w.work_queue e).next
      e_next = ground arith

  -- Between `c` and `y`.
  pub insert_between-Inserted :
      (us : List ℕ) (c y : ℕ) (ys : List ℕ)
      → SegAt w.work_queue nil w.io_seq us c (y ∷ ys) w.io_seq_end nil
      → NotIn e us
      → c ≢ e
      → y ≢ e
      → NotIn e ys
      → Distinct (c ∷ (y ∷ ys))
      → Apart us (c ∷ (y ∷ ys))
      → Inserted w e (us ++ (c ∷ (e ∷ (y ∷ ys)))) (insert_between c e w)
  unfolding insert_between
  insert_between-Inserted us c y ys s n k j m ((d, dc), (dy, _)) a = record {
    chain =
        Seg-append r nil w.io_seq us s.from_last c (c ∷ (e ∷ (y ∷ ys))) w.io_seq_end nil
          (Seg-same w.work_queue r nil w.io_seq us s.from_last c
            (All-both (λ x. x ≢ e) (λ x. NotIn x (c ∷ (y ∷ ys))) (SameLinks w.work_queue r)
              (λ x h l.
                let i = l.0 in let o = l.1.0 in (ground (arith, c_next), ground (arith, c_next)))
              us n a)
            s.front)
          (
            refl,
            c_prev ∙ s.back_link,
            (
              ground (arith, c_next),
              ground (arith, c_next),
              (ground (arith, c_next), ground (arith, c_next), rw y_next rest),
            ),
          );
    data_same = λ x. ground arith;
    others = λ x h.
        let p = All-parts (λ z. z ≢ x) us (c ∷ (e ∷ (y ∷ ys))) h in
        let i = p.1.0 in let o = p.1.1.0 in let v = p.1.1.1.0 in ground (arith, c_next);
    free_same = refl;
    free_end_same = refl;
    time_same = refl;
  }
    where
      c_next : (w.work_queue c).next ≡ y
      c_next = s.rest.0

      r : ℕ → IoWork
      r = (insert_between c e w).work_queue

      c_prev : (r c).prev ≡ (w.work_queue c).prev
      c_prev = ground arith

      y_next : (r y).next ≡ (w.work_queue y).next
      y_next = ground (arith, c_next)

      same : (x : ℕ) → x ≢ e → x ≢ c → x ≢ y → SameLinks w.work_queue r x
      same x h i o = (ground (arith, c_next), ground (arith, c_next))

      rest : Seg r y (w.work_queue y).next ys w.io_seq_end nil
      rest =
          Seg-same w.work_queue r y (w.work_queue y).next ys w.io_seq_end nil
            (All-both (λ x. (x ≢ e) × (x ≢ c)) (λ x. x ≢ y) (SameLinks w.work_queue r)
              (λ x (h, i) o. same x h i o) ys
              (All-both (λ x. x ≢ e) (λ x. x ≢ c) (λ x. (x ≢ e) × (x ≢ c)) (λ x h i. (h, i)) ys m
                dc)
              dy)
            s.rest.2
