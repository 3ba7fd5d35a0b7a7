-- ===== src/Ftl/Queue.antt =====
-- The priority queue of victim lines: what the translation layer relies on, and what invalidating a
-- page does to a line that may be in it.
use nvmevirt_slc_cache.Common.{
  ℕ, ◌+◌, ◌-◌, ◌≤◌, ◌<◌, ◌≡◌, ◌⊎◌, inl, inr, refl, ◌∙◌, arith, true, false, ◌==◌, ==_iff, lt→ltb,
  le→leb, if◌then◌else◌, Bool-cases, Returns, Returns-if, update, List,
}
use nvmevirt_slc_cache.Ftl.State.{Line, LineMgmt, Pqueue, victim_line_callbacks}
use nvmevirt_slc_cache.Ftl.Pages.{invalidate_in_line, full_to_victim, invalidate_line}
use nvmevirt_slc_cache.Ftl.Relines.{Recounted}

-- `pqueue_insert` touches no counts; `pqueue_change_priority` sets the priority of its entry, the
-- number of valid pages, and no other count.
pub record KeepsCounts (pq : Pqueue) : Type 0 where
  pub insert_ipc :
      (q : List ℕ) (a : ℕ → Line) (i j : ℕ)
      → ((pq.insert victim_line_callbacks q a i).1 j).ipc ≡ (a j).ipc
  pub insert_vpc :
      (q : List ℕ) (a : ℕ → Line) (i j : ℕ)
      → ((pq.insert victim_line_callbacks q a i).1 j).vpc ≡ (a j).vpc
  pub insert_id :
      (q : List ℕ) (a : ℕ → Line) (i j : ℕ)
      → ((pq.insert victim_line_callbacks q a i).1 j).id ≡ (a j).id
  pub change_ipc :
      (q : List ℕ) (a : ℕ → Line) (pri i j : ℕ)
      → ((pq.change_priority victim_line_callbacks q a pri i).1 j).ipc ≡ (a j).ipc
  pub change_vpc :
      (q : List ℕ) (a : ℕ → Line) (pri i j : ℕ)
      → ((pq.change_priority victim_line_callbacks q a pri i).1 j).vpc
        ≡ (if j == i then pri else (a j).vpc)

module _ (pq : Pqueue) (laws : KeepsCounts pq) where
  invalidate_in_line-Recounted :
      (i : ℕ) (m : LineMgmt)
      → Recounted m i ((m.lines i).ipc + 1) ((m.lines i).vpc - 1) (invalidate_in_line pq i m)
  unfolding invalidate_in_line
  invalidate_in_line-Recounted i m = go (Bool-cases _)
    where
      l : Line
      l = m.lines i

      a : ℕ → Line
      a = update m.lines i (record l { ipc = l.ipc + 1 })

      go :
          ((l.pos == 0) ≡ true) ⊎ ((l.pos == 0) ≡ false)
          → Recounted m i (l.ipc + 1) (l.vpc - 1) (invalidate_in_line pq i m)
      go (inl e) = rw e (record {
        tt_lines = refl;
        ipc_here = ground arith;
        vpc_here = ground arith;
        ipc_elsewhere = λ j ne. ground arith;
        vpc_elsewhere = λ j ne. ground arith;
      })
      go (inr e) = rw e (record {
        tt_lines = refl;
        ipc_here = laws.change_ipc m.victim_line_pq a (l.vpc - 1) i i ∙ (ground arith);
        vpc_here = laws.change_vpc m.victim_line_pq a (l.vpc - 1) i i ∙ (ground arith);
        ipc_elsewhere = λ j ne. laws.change_ipc m.victim_line_pq a (l.vpc - 1) i j ∙ (ground arith);
        vpc_elsewhere = λ j ne. laws.change_vpc m.victim_line_pq a (l.vpc - 1) i j ∙ (ground arith);
      })

  full_to_victim-Recounted :
      (b : LineMgmt) (i x y : ℕ) (m : LineMgmt)
      → Recounted b i x y m
      → Recounted b i x y (full_to_victim pq i m)
  unfolding full_to_victim
  full_to_victim-Recounted b i x y m r = record {
    tt_lines = r.tt_lines;
    ipc_here = laws.insert_ipc _ _ _ _ ∙ r.ipc_here;
    vpc_here = laws.insert_vpc _ _ _ _ ∙ r.vpc_here;
    ipc_elsewhere = λ j ne. laws.insert_ipc _ _ _ _ ∙ r.ipc_elsewhere j ne;
    vpc_elsewhere = λ j ne. laws.insert_vpc _ _ _ _ ∙ r.vpc_elsewhere j ne;
  }

  -- With a queue whose operations keep counts, a line that holds a valid page, and no more pages
  -- than it has room for, passes the assertions; one page moves from its valid ones to its
  -- invalid ones, whether it waits in the queue or not.
  pub invalidate_line-Recounted :
      (per_line i : ℕ) (m : LineMgmt)
      → 0 < (m.lines i).vpc
      → (m.lines i).vpc + (m.lines i).ipc ≤ per_line
      → Returns
          (Recounted m i ((m.lines i).ipc + 1) ((m.lines i).vpc - 1))
          (invalidate_line pq per_line i m)
  unfolding invalidate_line
  invalidate_line-Recounted per_line i m h k =
      rw
        (
          lt→ltb (m.lines i).ipc per_line (omega arith),
          lt→ltb _ _ h,
          le→leb (m.lines i).vpc per_line (omega arith),
        )
        (Returns-if P _ _ _
          (λ f.
            let vpc : (m.lines i).vpc ≡ per_line = (==_iff _ _).0 f in
            let none_left : ((m.lines i).ipc == 0) ≡ true = (==_iff _ _).1 (omega arith) in
            let sum : ((t.lines i).vpc + (t.lines i).ipc == per_line) ≡ true =
              (==_iff _ _).1 (omega (arith, r.ipc_here, r.vpc_here)) in
            rw (none_left, sum) (full_to_victim-Recounted m i _ _ t r))
          (λ _. r))
    where
      P : LineMgmt → Type 0
      P = Recounted m i ((m.lines i).ipc + 1) ((m.lines i).vpc - 1)

      t : LineMgmt
      t = invalidate_in_line pq i m

      r : P t
      r = invalidate_in_line-Recounted i m
