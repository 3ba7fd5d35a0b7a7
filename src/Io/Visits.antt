-- ===== src/Io/Visits.antt =====
-- What a worker does to the entries when it visits one of them.
use nvmevirt_slc_cache.Common.{
  ℕ, ◌≡◌, ◌≢◌, ◌≤◌, inl, inr, ◌⊎◌, refl, sym, ◌∙◌, subst, true, false, Bool-cases, arith, ◌==◌,
  ==_iff, leb,
}
use nvmevirt_slc_cache.Io.{IoWork, Working, copy_once, complete_due, visit}

-- An entry after a visit or a pass whose times lie from `lower` to `upper`: its place and its target
-- stay, it stays completed, and it is completed only if it is due.
pub record Visited (lower upper : ℕ) (old new : IoWork) : Type 0 where
  pub same_next : new.next ≡ old.next
  pub same_prev : new.prev ≡ old.prev
  pub same_target : new.nsecs_target ≡ old.nsecs_target
  pub stays : old.is_completed ≡ true → new.is_completed ≡ true
  pub never_early : new.is_completed ≡ true → (old.is_completed ≡ true) ⊎ (old.nsecs_target ≤ upper)

pub unserved : (lower upper : ℕ) (x : IoWork) → Visited lower upper x x
unserved lower upper x = record {
  same_next = refl;
  same_prev = refl;
  same_target = refl;
  stays = λ h. h;
  never_early = λ h. inl h;
}

visit_self :
    (now curr : ℕ) (s : Working)
    → Visited now now (s.worker.work_queue curr) ((visit now curr s).worker.work_queue curr)
unfolding visit copy_once complete_due
visit_self now curr s = record {
  same_next = ground arith;
  same_prev = ground arith;
  same_target = ground arith;
  stays = λ h. ground (arith, h);
  never_early = λ h. elim (Bool-cases (s.worker.work_queue curr).is_completed) [
    | inl e ↦ inl e
    | inr e ↦ elim (Bool-cases (leb (s.worker.work_queue curr).nsecs_target now)) [
      | inl k ↦ inr (ground (arith, k))
      | inr k ↦ absurd (ground (arith, e, k, h))
    ]
  ];
}

pub visit-completes :
    (now curr : ℕ) (s : Working)
    → (s.worker.work_queue curr).nsecs_target ≤ now
    → ((visit now curr s).worker.work_queue curr).is_completed ≡ true
unfolding visit copy_once complete_due
visit-completes now curr s h = ground (arith, h)

pub visit-others :
    (now curr : ℕ) (s : Working) (x : ℕ)
    → x ≢ curr
    → (visit now curr s).worker.work_queue x ≡ s.worker.work_queue x
unfolding visit copy_once complete_due
visit-others now curr s x n = ground arith

pub visit-worker :
    (now curr : ℕ) (s : Working)
    → (visit now curr s).worker
      ≡ record (s.worker) { work_queue = (visit now curr s).worker.work_queue; latest_nsecs = now }
unfolding visit copy_once complete_due
visit-worker now curr s = ground arith

pub Visited-trans :
    (lower upper : ℕ) (x y z : IoWork)
    → Visited lower upper x y
    → Visited lower upper y z
    → Visited lower upper x z
Visited-trans lower upper x y z a b = record {
  same_next = b.same_next ∙ a.same_next;
  same_prev = b.same_prev ∙ a.same_prev;
  same_target = b.same_target ∙ a.same_target;
  stays = λ h. b.stays (a.stays h);
  never_early = λ h. elim (b.never_early h) [
    | inl k ↦ a.never_early k
    | inr k ↦ inr (omega (arith, k, a.same_target))
  ];
}

-- A visit at a time in the range.
pub visit-Visited :
    (lower upper now curr : ℕ) (s : Working) (x : ℕ)
    → now ≤ upper
    → Visited lower upper (s.worker.work_queue x) ((visit now curr s).worker.work_queue x)
visit-Visited lower upper now curr s x l = at (Bool-cases (x == curr))
  where
    here :
        Visited now now (s.worker.work_queue curr) ((visit now curr s).worker.work_queue curr)
        → Visited lower upper (s.worker.work_queue curr) ((visit now curr s).worker.work_queue curr)
    here a = record {
      same_next = a.same_next;
      same_prev = a.same_prev;
      same_target = a.same_target;
      stays = a.stays;
      never_early =
          λ h. elim (a.never_early h) [ inl k ↦ inl k | inr k ↦ inr (omega (arith, k, l)) ];
    }

    at :
        ((x == curr) ≡ true) ⊎ ((x == curr) ≡ false)
        → Visited lower upper (s.worker.work_queue x) ((visit now curr s).worker.work_queue x)
    at (inl e) =
        subst
          (λ (y : ℕ).
            Visited lower upper (s.worker.work_queue y) ((visit now curr s).worker.work_queue y))
          (sym ((==_iff x curr).0 e)) (here (visit_self now curr s))
    at (inr e) =
        let n : x ≢ curr = (λ h. absurd (ground (arith, e, h))) in
        subst (Visited lower upper (s.worker.work_queue x)) (sym (visit-others now curr s x n))
          (unserved lower upper (s.worker.work_queue x))
