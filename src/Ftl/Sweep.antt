-- ===== src/Ftl/Sweep.antt =====
-- The order in which a write pointer goes over a line: wordline by wordline, in each over the dies of
-- all channels, in each die over the pages of the wordline.
use nvmevirt_slc_cache.Common.{
  ℕ, ◌+◌, ◌-◌, ◌*◌, ◌/◌, ◌%◌, ◌<◌, ◌≡◌, ◌≢◌, refl, sym, ap, ◌∙◌, arith, Bool, true, false, not, ltb,
  ◌==◌, Returns, Returns-if,
}
use native.Mathlib.Nat.{div-add-mod, div-add-mod', div-eq_of_eq-mul_left}
use nvmevirt_slc_cache.Ftl.State.{WritePointer}
use nvmevirt_slc_cache.Ftl.Advance.{next_page}

module _ (per_blk oneshot nchs luns : ℕ) where
  -- How many pages of its line a pointer has behind it.
  abbrev pub place : WritePointer → ℕ
  place w = (((w.pg / oneshot) * luns + w.lun) * nchs + w.ch) * oneshot + w.pg % oneshot

  pub record InLine (w : WritePointer) : Type 0 where
    pub pg_in : w.pg < per_blk
    pub ch_in : w.ch < nchs
    pub lun_in : w.lun < luns

  -- The pointer after a step: one page further, or back at the start at the end of the line.
  pub record Stepped (w : WritePointer) (r : WritePointer × Bool) : Type 0 where
    pub in_line : InLine r.0
    pub further : r.1 ≡ false → place r.0 ≡ place w + 1
    pub at_end : r.1 ≡ true → (place w + 1 ≡ luns * nchs * per_blk) × (place r.0 ≡ 0)
    pub same_line : (r.0.curline ≡ w.curline) × (r.0.blk ≡ w.blk) × (r.0.pl ≡ w.pl)

  -- A step within the wordline of a die.
  within :
      (pg : ℕ)
      → 0 < oneshot
      → (pg + 1) % oneshot ≢ 0
      → ((pg + 1) / oneshot ≡ pg / oneshot) × ((pg + 1) % oneshot ≡ pg % oneshot + 1)
  within pg h n = grind arith

  -- A step past its end.
  past :
      (pg : ℕ)
      → 0 < oneshot
      → (pg + 1) % oneshot ≡ 0
      → ((pg + 1) / oneshot ≡ pg / oneshot + 1) × (pg % oneshot + 1 ≡ oneshot)
  past pg h n = grind arith

  -- The pages up to the end of a wordline.
  whole : (pg : ℕ) → 0 < oneshot → (pg + 1) % oneshot ≡ 0 → pg + 1 ≡ (pg / oneshot + 1) * oneshot
  whole pg h n = omega (arith, past pg h n, div-add-mod pg oneshot)

  -- Back to the start of the wordline.
  back :
      (pg : ℕ)
      → 0 < oneshot
      → (pg + 1) % oneshot ≡ 0
      → ((pg + 1 - oneshot) / oneshot ≡ pg / oneshot) × ((pg + 1 - oneshot) % oneshot ≡ 0)
  back pg h n =
      let e : pg + 1 - oneshot ≡ pg / oneshot * oneshot = omega (arith, whole pg h n) in
      let d = div-eq_of_eq-mul_left h e in
      (d, omega (arith, e, ap (λ (t : ℕ). t * oneshot) d, div-add-mod' (pg + 1 - oneshot) oneshot))

  -- From a page of a line, for blocks of whole wordlines, the step never stops the kernel. It
  -- goes to the next place of the line, or, only from the last place, reports the end of the line
  -- and stands at place 0; the line, its block and the plane stay.
  pub next_page-Stepped :
      (w : WritePointer)
      → 0 < oneshot
      → per_blk % oneshot ≡ 0
      → InLine w
      → Returns (Stepped w) (next_page per_blk oneshot nchs luns w)
  unfolding next_page
  next_page-Stepped w ho hb v =
      Returns-if (Stepped w) (not (ltb w.pg per_blk)) _ _ (λ e. absurd (ground (arith, v.pg_in)))
        λ _.
          Returns-if (Stepped w) (not ((w.pg + 1) % oneshot == 0)) _ _ (λ e. one (ground arith))
            λ e2.
              Returns-if (Stepped w) (not (ltb w.ch nchs)) _ _
                (λ e. absurd (ground (arith, v.ch_in)))
                λ _.
                  Returns-if (Stepped w) (not (w.ch + 1 == nchs)) _ _
                    (λ e. two (ground arith) (ground arith))
                    λ e3.
                      Returns-if (Stepped w) (not (ltb w.lun luns)) _ _
                        (λ e. absurd (ground (arith, v.lun_in)))
                        λ _.
                          Returns-if (Stepped w) (not (w.lun + 1 == luns)) _ _
                            (λ e. three (ground arith) (ground arith) (ground arith))
                            λ e4.
                              Returns-if (Stepped w) (not (w.pg + 1 == per_blk)) _ _
                                (λ e.
                                  four (ground arith) (ground arith) (ground arith) (ground arith))
                                (λ e.
                                  five (ground arith) (ground arith) (ground arith) (ground arith))
    where
      not_last : (w.pg + 1) % oneshot ≢ 0 → w.pg + 1 ≢ per_blk
      not_last n e = n (ap (λ (t : ℕ). t % oneshot) e ∙ hb)

      one : (w.pg + 1) % oneshot ≢ 0 → Stepped w (record w { pg = w.pg + 1 }, false)
      one n = record {
        in_line = record {
          pg_in = omega (arith, not_last n, v.pg_in);
          ch_in = v.ch_in;
          lun_in = v.lun_in;
        };
        further = λ _. rw ((within w.pg ho n).0, (within w.pg ho n).1) (omega arith);
        at_end = λ e. cc;
        same_line = (refl, refl, refl);
      }

      two :
          (w.pg + 1) % oneshot ≡ 0
          → w.ch + 1 ≢ nchs
          → Stepped w (record w { pg = w.pg + 1 - oneshot; ch = w.ch + 1 }, false)
      two n c = record {
        in_line = record {
          pg_in = omega (arith, v.pg_in);
          ch_in = omega (arith, v.ch_in);
          lun_in = v.lun_in;
        };
        further = λ _. rw ((back w.pg ho n).0, (back w.pg ho n).1) (omega (arith, past w.pg ho n));
        at_end = λ e. cc;
        same_line = (refl, refl, refl);
      }

      three :
          (w.pg + 1) % oneshot ≡ 0
          → w.ch + 1 ≡ nchs
          → w.lun + 1 ≢ luns
          → Stepped w (record w { pg = w.pg + 1 - oneshot; ch = 0; lun = w.lun + 1 }, false)
      three n c l = record {
        in_line = record {
          pg_in = omega (arith, v.pg_in);
          ch_in = omega (arith, v.ch_in);
          lun_in = omega (arith, v.lun_in);
        };
        further = λ _.
            rw ((back w.pg ho n).0, (back w.pg ho n).1)
              (omega (arith, past w.pg ho n, ap (λ (t : ℕ). t * oneshot) c));
        at_end = λ e. cc;
        same_line = (refl, refl, refl);
      }

      four :
          (w.pg + 1) % oneshot ≡ 0
          → w.ch + 1 ≡ nchs
          → w.lun + 1 ≡ luns
          → w.pg + 1 ≢ per_blk
          → Stepped w (record w { pg = w.pg + 1; ch = 0; lun = 0 }, false)
      four n c l b = record {
        in_line = record {
          pg_in = omega (arith, v.pg_in);
          ch_in = omega (arith, v.ch_in);
          lun_in = omega (arith, v.lun_in);
        };
        further = λ _.
            rw ((past w.pg ho n).0, n)
              (omega (
                arith,
                past w.pg ho n,
                ap (λ (t : ℕ). t * oneshot) c,
                ap (λ (t : ℕ). t * nchs * oneshot) l,
              ));
        at_end = λ e. cc;
        same_line = (refl, refl, refl);
      }

      five :
          (w.pg + 1) % oneshot ≡ 0
          → w.ch + 1 ≡ nchs
          → w.lun + 1 ≡ luns
          → w.pg + 1 ≡ per_blk
          → Stepped w (record w { pg = 0; ch = 0; lun = 0 }, true)
      five n c l b = record {
        in_line = record {
          pg_in = omega (arith, v.pg_in);
          ch_in = omega (arith, v.ch_in);
          lun_in = omega (arith, v.lun_in);
        };
        further = λ e. cc;
        at_end = λ _. (
          omega (
            arith,
            past w.pg ho n,
            ap (λ (t : ℕ). t * oneshot) c,
            ap (λ (t : ℕ). t * nchs * oneshot) l,
            ap (λ (t : ℕ). luns * nchs * t) (sym b ∙ whole w.pg ho n),
          ),
          grind arith,
        );
        same_line = (refl, refl, refl);
      }
