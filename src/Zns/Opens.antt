-- ===== src/Zns/Opens.antt =====
-- How a zone opens: explicitly by Zone Management Send, or by a write to it.
use nvmevirt_slc_cache.Common.{
  ℕ, ◌+◌, ◌<◌, ◌≡◌, inl, inr, refl, ap, arith, Bool, true, false, ◌==◌, ltb, lt→ltb, Bool-cases,
  u32,
}
use nvmevirt_slc_cache.Zns.State.{
  ZoneState, ZoneResourceType, empty, opened_impl, opened_expl, closed, read_only, full, offline,
  active_zone, open_zone, zrwa_zone, success, ZnsFtl,
}
use nvmevirt_slc_cache.Zns.Zones.{
  set_desc, recount_res, is_zone_resource_full, is_zone_resource_avail, acquire_zone_resource,
  change_zone_state,
}
use nvmevirt_slc_cache.Zns.Send.{open_closed, open_empty, open_from, take_zrwa}
use nvmevirt_slc_cache.Zns.Accounts.{
  zone_lbas, open_weight, active_weight, zrwa_weight, Allowed, empty_expl, impl_expl, closed_expl,
  StateFits, IsZone,
}
use nvmevirt_slc_cache.Zns.Moves.{Held, Moves, unmoved, redescribed}
use nvmevirt_slc_cache.Zns.Sends.{fits_in}

-- One more zone holds a resource.
abbrev pub acquired : ZoneResourceType → ZnsFtl → ZnsFtl
acquired t z = recount_res t (u32 ((z.res_infos t).acquired_cnt + 1)) z

module _ (z : ZnsFtl) (i : ℕ) (h : Held z i) (f : IsZone (zone_lbas z) i (z.zone_descs i)) where
  -- A closed zone opens.
  pub closed_opens :
      {E : Type 0} (st : ZoneState)
      → (z.zone_descs i).state ≡ closed
      → open_weight st ≡ 1
      → active_weight st ≡ 1
      → Allowed closed st
      → StateFits st (record (z.zone_descs i) { state = st })
      → Moves E z i (change_zone_state i st (acquired open_zone z))
  unfolding change_zone_state
  closed_opens st e o a k w = record {
    desc = record (z.zone_descs i) { state = st };
    moved = record {
      params = refl;
      drive = refl;
      descs = λ j. refl;
      allowed = rw e k;
      open_moves = rw (e, o) (omega (arith, h.open_held, h.open_room, h.small, ap open_weight e));
      active_moves = rw (e, a) refl;
      zrwa_moves = rw e (omega (arith, same_zrwa (z.zone_descs i).zrwav));
      zrwa_exact = λ _. rw e (omega (arith, same_zrwa (z.zone_descs i).zrwav));
      zrwa_below = h.zrwa_room;
      open_same = refl;
      active_same = refl;
      zrwa_same = refl;
      zone_fits = record {
        start = f.start;
        capacity = f.capacity;
        wp_from = f.wp_from;
        wp_to = f.wp_to;
        state_fits = w;
      };
    };
  }
    where
      same_zrwa :
          (b : Bool)
          → (z.res_infos zrwa_zone).acquired_cnt + zrwa_weight b st
            ≡ (z.res_infos zrwa_zone).acquired_cnt + zrwa_weight b closed
      same_zrwa true = omega (arith, a)
      same_zrwa false = omega arith

  -- An empty zone opens.
  pub empty_opens :
      {E : Type 0} (st : ZoneState)
      → (z.zone_descs i).state ≡ empty
      → open_weight st ≡ 1
      → active_weight st ≡ 1
      → Allowed empty st
      → StateFits st (record (z.zone_descs i) { state = st })
      → Moves E z i (change_zone_state i st (acquired open_zone (acquired active_zone z)))
  unfolding change_zone_state
  empty_opens st e o a k w = record {
    desc = record (z.zone_descs i) { state = st };
    moved = record {
      params = refl;
      drive = refl;
      descs = λ j. refl;
      allowed = rw e k;
      open_moves = rw (e, o) (omega (arith, h.open_held, h.open_room, h.small, ap open_weight e));
      active_moves =
          rw (e, a) (omega (arith, h.active_held, h.active_room, h.small, ap active_weight e));
      zrwa_moves = rw (e, no_area.1) (omega arith);
      zrwa_exact = λ _. rw (e, no_area.1) (omega arith);
      zrwa_below = h.zrwa_room;
      open_same = refl;
      active_same = refl;
      zrwa_same = refl;
      zone_fits = record {
        start = f.start;
        capacity = f.capacity;
        wp_from = f.wp_from;
        wp_to = f.wp_to;
        state_fits = w;
      };
    };
  }
    where
      no_area : ((z.zone_descs i).wp ≡ (z.zone_descs i).zslba) × ((z.zone_descs i).zrwav ≡ false)
      no_area = fits_in (z.zone_descs i) empty e f.state_fits

  -- An empty zone opens with a random write area.
  area_opens :
      (z.zone_descs i).state ≡ empty
      → 0 < zone_lbas z
      → (z.res_infos zrwa_zone).acquired_cnt < z.zp.nr_zones
      → Moves Unit z i (
          change_zone_state i opened_expl (
            acquired open_zone (
              acquired active_zone
                (set_desc i (record (z.zone_descs i) { zrwav = true }) (acquired zrwa_zone z)))))
  unfolding change_zone_state
  area_opens e p l = record {
    desc = record (z.zone_descs i) { state = opened_expl; zrwav = true };
    moved = record {
      params = refl;
      drive = refl;
      descs = λ j. ground arith;
      allowed = rw e empty_expl;
      open_moves = rw e (omega (arith, h.open_held, h.open_room, h.small, ap open_weight e));
      active_moves =
          rw e (omega (arith, h.active_held, h.active_room, h.small, ap active_weight e));
      zrwa_moves = rw e (omega (arith, l, h.small));
      zrwa_exact = λ _.
          rw (e, (fits_in (z.zone_descs i) empty e f.state_fits).1) (omega (arith, l, h.small));
      zrwa_below = omega (arith, l, h.small);
      open_same = refl;
      active_same = refl;
      zrwa_same = refl;
      zone_fits = record {
        start = f.start;
        capacity = f.capacity;
        wp_from = f.wp_from;
        wp_to = f.wp_to;
        state_fits =
            omega (arith, p, f.capacity, (fits_in (z.zone_descs i) empty e f.state_fits).0);
      };
    };
  }

  -- The resources that an empty or a closed zone asks for are there.
  pub open_avail :
      open_weight (z.zone_descs i).state ≡ 0
      → ltb (z.res_infos open_zone).acquired_cnt (z.res_infos open_zone).total_cnt ≡ true
  open_avail o = lt→ltb _ _ (omega (arith, h.open_room, h.open_total))

  pub active_avail :
      active_weight (z.zone_descs i).state ≡ 0
      → ltb (z.res_infos active_zone).acquired_cnt (z.res_infos active_zone).total_cnt ≡ true
  active_avail a = lt→ltb _ _ (omega (arith, h.active_room, h.active_total))

  pub open_not_full :
      open_weight (z.zone_descs i).state ≡ 0
      → ((z.res_infos open_zone).acquired_cnt == (z.res_infos open_zone).total_cnt) ≡ false
  open_not_full o =
      let l : (z.res_infos open_zone).acquired_cnt < (z.res_infos open_zone).total_cnt =
        omega (arith, h.open_room, h.open_total) in
      ground arith

  pub active_not_full :
      active_weight (z.zone_descs i).state ≡ 0
      → ((z.res_infos active_zone).acquired_cnt == (z.res_infos active_zone).total_cnt) ≡ false
  active_not_full a =
      let l : (z.res_infos active_zone).acquired_cnt < (z.res_infos active_zone).total_cnt =
        omega (arith, h.active_room, h.active_total) in
      ground arith

  open_closed-closed :
      (z.zone_descs i).state ≡ closed
      → open_closed i z ≡ (success, change_zone_state i opened_expl (acquired open_zone z))
  unfolding open_closed acquire_zone_resource is_zone_resource_avail
  open_closed-closed e = rw (open_avail (ap open_weight e))

  open_empty-plain :
      (z.zone_descs i).state ≡ empty
      → open_empty i false z
        ≡ (success, change_zone_state i opened_expl (acquired open_zone (acquired active_zone z)))
  unfolding open_empty open_closed acquire_zone_resource is_zone_resource_avail
      is_zone_resource_full
  open_empty-plain e = rw (
    active_not_full (ap active_weight e),
    open_not_full (ap open_weight e),
    active_avail (ap active_weight e),
    open_avail (ap open_weight e),
  )

  open_empty-area :
      (z.zone_descs i).state ≡ empty → 0 < zone_lbas z → Moves Unit z i (open_empty i true z).1
  unfolding open_empty open_closed take_zrwa acquire_zone_resource is_zone_resource_avail
      is_zone_resource_full
  open_empty-area e p =
      elim (Bool-cases
        ((z.res_infos zrwa_zone).acquired_cnt == (z.res_infos zrwa_zone).total_cnt)) [
          | inl k ↦
              rw (active_not_full (ap active_weight e), open_not_full (ap open_weight e), k)
                (unmoved z i h f)
          | inr k ↦
              let l : (z.res_infos zrwa_zone).acquired_cnt < z.zp.nr_zones =
                ground (arith, h.zrwa_room, h.zrwa_total) in
              let b : ltb (z.res_infos zrwa_zone).acquired_cnt (z.res_infos zrwa_zone).total_cnt
                  ≡ true =
                lt→ltb _ _ (omega (arith, l, h.zrwa_total)) in
              rw
                (
                  active_not_full (ap active_weight e),
                  open_not_full (ap open_weight e),
                  k,
                  b,
                  active_avail (ap active_weight e),
                  open_avail (ap open_weight e),
                )
                (area_opens e p l)
        ]

  impl_to_expl :
      (z.zone_descs i).state ≡ opened_impl → Moves Unit z i (change_zone_state i opened_expl z)
  unfolding change_zone_state
  impl_to_expl e =
      redescribed z i h f (record (z.zone_descs i) { state = opened_expl }) (rw e impl_expl) (rw e)
        (rw e) refl
        (record {
          start = f.start;
          capacity = f.capacity;
          wp_from = f.wp_from;
          wp_to = f.wp_to;
          state_fits = fits_in (z.zone_descs i) opened_impl e f.state_fits;
        })

  pub open_from-Moves :
      (st : ZoneState) (zrwa : Bool)
      → (z.zone_descs i).state ≡ st
      → 0 < zone_lbas z
      → Moves Unit z i (open_from st i zrwa z).1
  unfolding open_from
  open_from-Moves empty false e p = rw (open_empty-plain e) (
      empty_opens opened_expl e refl refl empty_expl
        (omega (arith, p, f.capacity, (fits_in (z.zone_descs i) empty e f.state_fits).0)))
  open_from-Moves empty true e p = open_empty-area e p
  open_from-Moves closed b e p = rw (open_closed-closed e) (
      closed_opens opened_expl e refl refl closed_expl
        (fits_in (z.zone_descs i) closed e f.state_fits))
  open_from-Moves opened_impl b e p = impl_to_expl e
  open_from-Moves opened_expl b e p = unmoved z i h f
  open_from-Moves full b e p = unmoved z i h f
  open_from-Moves read_only b e p = unmoved z i h f
  open_from-Moves offline b e p = unmoved z i h f
