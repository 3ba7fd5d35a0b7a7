-- ===== src/Zns/Sends.antt =====
-- The actions of Zone Management Send: each moves its zone by an allowed step, if at all.
use nvmevirt_slc_cache.Common.{ℕ, ◌≡◌, refl, ap, ◌∙◌, arith, Bool, false, subst, update}
use nvmevirt_slc_cache.Zns.State.{
  ZoneState, empty, opened_impl, opened_expl, closed, read_only, full, offline, ZoneDescriptor,
  ZnsFtl,
}
use nvmevirt_slc_cache.Zns.Zones.{change_zone_state}
use nvmevirt_slc_cache.Zns.Send.{
  close_from, finish_from, reset_from, reset_to_empty, reset_zone, offline_from,
}
use nvmevirt_slc_cache.Zns.Accounts.{
  zone_lbas, Allowed, stay, empty_full, impl_closed, expl_closed, impl_full, expl_full, closed_full,
  impl_empty, expl_empty, closed_empty, full_empty, StateFits, IsZone,
}
use nvmevirt_slc_cache.Zns.Moves.{Held, Moves, unmoved, close_opened}
use nvmevirt_slc_cache.Zns.Releases.{
  Released, closed-Released, opened-Released, idle-Released, settle,
}

-- What a state says, read at the state that a zone is in.
pub fits_in :
    (d : ZoneDescriptor) (st : ZoneState) → d.state ≡ st → StateFits d.state d → StateFits st d
fits_in d st e f = subst (λ (x : ZoneState). StateFits x d) e f

module _ {E : Type 0} (z : ZnsFtl) (i : ℕ) (h : Held z i)
    (f : IsZone (zone_lbas z) i (z.zone_descs i)) where
  pub close_from-Moves :
      (st : ZoneState) → (z.zone_descs i).state ≡ st → Moves E z i (close_from st i z).1
  unfolding close_from
  close_from-Moves opened_impl e =
      close_opened z i h f opened_impl e refl refl impl_closed
        (fits_in _ opened_impl e f.state_fits)
  close_from-Moves opened_expl e =
      close_opened z i h f opened_expl e refl refl expl_closed
        (fits_in _ opened_expl e f.state_fits)
  close_from-Moves closed e = unmoved z i h f
  close_from-Moves empty e = unmoved z i h f
  close_from-Moves read_only e = unmoved z i h f
  close_from-Moves full e = unmoved z i h f
  close_from-Moves offline e = unmoved z i h f

  -- The zone becomes full after its resources are given back.
  pub fill_settles :
      (t : ZnsFtl) (st : ZoneState) (b : Bool)
      → Released E z st b t
      → (z.zone_descs i).state ≡ st
      → (z.zone_descs i).zrwav ≡ b
      → Allowed st full
      → Moves E z i (change_zone_state i full t)
  unfolding change_zone_state
  fill_settles t st b r e v k =
      settle z i h t (change_zone_state i full t) st b (record (z.zone_descs i) { state = full }) r
        e v k refl refl refl refl refl
        (λ j.
          ap (λ (y : ℕ → ZoneDescriptor). update t.zone_descs i (record (y i) { state = full }) j)
            r.same_descs)
        (record {
          start = f.start;
          capacity = f.capacity;
          wp_from = f.wp_from;
          wp_to = f.wp_to;
          state_fits = tt;
        })

  pub finish_from-Moves :
      (st : ZoneState) (b : Bool)
      → (z.zone_descs i).state ≡ st
      → (z.zone_descs i).zrwav ≡ b
      → Moves E z i (finish_from st i b z).1
  unfolding finish_from
  finish_from-Moves opened_impl b e v =
      fill_settles _ opened_impl b (opened-Released z i h opened_impl b e v refl refl) e v impl_full
  finish_from-Moves opened_expl b e v =
      fill_settles _ opened_expl b (opened-Released z i h opened_expl b e v refl refl) e v expl_full
  finish_from-Moves closed b e v =
      fill_settles _ closed b (closed-Released z i h b e v) e v closed_full
  finish_from-Moves empty b e v =
      fill_settles z empty b (idle-Released z i h empty b refl refl) e v empty_full
  finish_from-Moves full b e v = unmoved z i h f
  finish_from-Moves read_only b e v = unmoved z i h f
  finish_from-Moves offline b e v = unmoved z i h f

  -- The zone becomes empty after its resources are given back.
  reset_settles :
      (t : ZnsFtl) (st : ZoneState) (b : Bool)
      → Released E z st b t
      → (z.zone_descs i).state ≡ st
      → (z.zone_descs i).zrwav ≡ b
      → Allowed st empty
      → Moves E z i (reset_to_empty i t).1
  unfolding reset_to_empty reset_zone change_zone_state
  reset_settles t st b r e v k =
      settle z i h t (reset_to_empty i t).1 st b
        (record (z.zone_descs i) { state = empty; wp = (z.zone_descs i).zslba; zrwav = false }) r e
        v k refl refl refl refl refl
        (λ j.
          (ground arith)
          ∙ ap
              (λ (y : ℕ → ZoneDescriptor).
                update t.zone_descs i
                  (record (y i) { state = empty; wp = (y i).zslba; zrwav = false }) j)
              r.same_descs)
        (record {
          start = f.start;
          capacity = f.capacity;
          wp_from = omega arith;
          wp_to = omega arith;
          state_fits = (refl, refl);
        })

  pub reset_from-Moves :
      (st : ZoneState) (b : Bool)
      → (z.zone_descs i).state ≡ st
      → (z.zone_descs i).zrwav ≡ b
      → Moves E z i (reset_from st i b z).1
  unfolding reset_from
  reset_from-Moves opened_impl b e v =
      reset_settles _ opened_impl b (opened-Released z i h opened_impl b e v refl refl) e v
        impl_empty
  reset_from-Moves opened_expl b e v =
      reset_settles _ opened_expl b (opened-Released z i h opened_expl b e v refl refl) e v
        expl_empty
  reset_from-Moves closed b e v =
      reset_settles _ closed b (closed-Released z i h b e v) e v closed_empty
  reset_from-Moves full b e v =
      reset_settles z full b (idle-Released z i h full b refl refl) e v full_empty
  reset_from-Moves empty b e v =
      reset_settles z empty b (idle-Released z i h empty b refl refl) e v (stay empty)
  reset_from-Moves read_only b e v = unmoved z i h f
  reset_from-Moves offline b e v = unmoved z i h f

  pub offline_from-Moves :
      (st : ZoneState) → (z.zone_descs i).state ≡ st → Moves E z i (offline_from st i z).1
  unfolding offline_from
  offline_from-Moves read_only e = absurd (fits_in _ read_only e f.state_fits)
  offline_from-Moves offline e = unmoved z i h f
  offline_from-Moves empty e = unmoved z i h f
  offline_from-Moves opened_impl e = unmoved z i h f
  offline_from-Moves opened_expl e = unmoved z i h f
  offline_from-Moves closed e = unmoved z i h f
  offline_from-Moves full e = unmoved z i h f
