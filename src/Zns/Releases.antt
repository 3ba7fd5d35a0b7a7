-- ===== src/Zns/Releases.antt =====
-- A zone that becomes full or empty gives up the resources of its state.
use nvmevirt_slc_cache.Common.{ℕ, ◌+◌, ◌≤◌, ◌≡◌, refl, ap, ◌∙◌, arith, Bool, true, false, update}
use nvmevirt_slc_cache.Zns.State.{
  ZoneState, closed, active_zone, open_zone, zrwa_zone, ZoneDescriptor, ZnsFtl,
}
use nvmevirt_slc_cache.Zns.Zones.{release_zone_resource}
use nvmevirt_slc_cache.Zns.Send.{release_active}
use nvmevirt_slc_cache.Zns.Accounts.{
  zone_lbas, open_weight, active_weight, zrwa_weight, Allowed, IsZone,
}
use nvmevirt_slc_cache.Zns.Moves.{Held, Moves}

none_held : (c : Bool) (w : ZoneState) → active_weight w ≡ 0 → zrwa_weight c w ≡ 0
none_held true w q = q
none_held false w q = refl

-- The resources that a zone in state `st` holds are given back, and no descriptor changes.
pub record Released (E : Type 0) (z : ZnsFtl) (st : ZoneState) (b : Bool) (t : ZnsFtl)
    : Type 0 where
  pub same_params : t.zp ≡ z.zp
  pub same_ssd : t.ssd ≡ z.ssd
  pub same_descs : t.zone_descs ≡ z.zone_descs
  pub open_back :
      (t.res_infos open_zone).acquired_cnt + open_weight st ≡ (z.res_infos open_zone).acquired_cnt
  pub active_back :
      (t.res_infos active_zone).acquired_cnt + active_weight st
      ≡ (z.res_infos active_zone).acquired_cnt
  pub zrwa_back :
      (z.res_infos zrwa_zone).acquired_cnt ≤ (t.res_infos zrwa_zone).acquired_cnt + zrwa_weight b st
  pub zrwa_exact :
      E
      → (z.res_infos zrwa_zone).acquired_cnt
        ≡ (t.res_infos zrwa_zone).acquired_cnt + zrwa_weight b st
  pub zrwa_less : (t.res_infos zrwa_zone).acquired_cnt ≤ (z.res_infos zrwa_zone).acquired_cnt
  pub open_total : (t.res_infos open_zone).total_cnt ≡ (z.res_infos open_zone).total_cnt
  pub active_total : (t.res_infos active_zone).total_cnt ≡ (z.res_infos active_zone).total_cnt
  pub zrwa_total : (t.res_infos zrwa_zone).total_cnt ≡ (z.res_infos zrwa_zone).total_cnt

module _ {E : Type 0} (z : ZnsFtl) (i : ℕ) (h : Held z i) where
  pub closed-Released :
      (b : Bool)
      → (z.zone_descs i).state ≡ closed
      → (z.zone_descs i).zrwav ≡ b
      → Released E z closed b (release_active b z)
  unfolding release_active release_zone_resource
  closed-Released true e v = record {
    same_params = refl;
    same_ssd = refl;
    same_descs = refl;
    open_back = omega arith;
    active_back = omega (arith, h.active_held, h.active_room, h.small, ap active_weight e);
    zrwa_back = omega (arith, zrwa, h.zrwa_room, h.small);
    zrwa_exact = λ _. omega (arith, zrwa, h.zrwa_room, h.small);
    zrwa_less = omega (arith, zrwa, h.zrwa_room, h.small);
    open_total = refl;
    active_total = refl;
    zrwa_total = refl;
  }
    where
      zrwa : 1 ≤ (z.res_infos zrwa_zone).acquired_cnt
      zrwa = rw (e, v) at h.zrwa_held
  closed-Released false e v = record {
    same_params = refl;
    same_ssd = refl;
    same_descs = refl;
    open_back = omega arith;
    active_back = omega (arith, h.active_held, h.active_room, h.small, ap active_weight e);
    zrwa_back = omega arith;
    zrwa_exact = λ _. omega arith;
    zrwa_less = omega arith;
    open_total = refl;
    active_total = refl;
    zrwa_total = refl;
  }

  pub opened-Released :
      (st : ZoneState) (b : Bool)
      → (z.zone_descs i).state ≡ st
      → (z.zone_descs i).zrwav ≡ b
      → open_weight st ≡ 1
      → active_weight st ≡ 1
      → Released E z st b (release_active b (release_zone_resource open_zone z))
  unfolding release_active release_zone_resource
  opened-Released st true e v o a = record {
    same_params = refl;
    same_ssd = refl;
    same_descs = refl;
    open_back = omega (arith, h.open_held, h.open_room, h.small, ap open_weight e, o);
    active_back = omega (arith, h.active_held, h.active_room, h.small, ap active_weight e, a);
    zrwa_back = omega (arith, zrwa, h.zrwa_room, h.small, a);
    zrwa_exact = λ _. omega (arith, zrwa, h.zrwa_room, h.small, a);
    zrwa_less = omega (arith, zrwa, h.zrwa_room, h.small, a);
    open_total = refl;
    active_total = refl;
    zrwa_total = refl;
  }
    where
      zrwa : active_weight st ≤ (z.res_infos zrwa_zone).acquired_cnt
      zrwa = rw (e, v) at h.zrwa_held
  opened-Released st false e v o a = record {
    same_params = refl;
    same_ssd = refl;
    same_descs = refl;
    open_back = omega (arith, h.open_held, h.open_room, h.small, ap open_weight e, o);
    active_back = omega (arith, h.active_held, h.active_room, h.small, ap active_weight e, a);
    zrwa_back = omega arith;
    zrwa_exact = λ _. omega arith;
    zrwa_less = omega arith;
    open_total = refl;
    active_total = refl;
    zrwa_total = refl;
  }

  -- A state that holds nothing.
  pub idle-Released :
      (st : ZoneState) (b : Bool) → open_weight st ≡ 0 → active_weight st ≡ 0 → Released E z st b z
  idle-Released st b o a = record {
    same_params = refl;
    same_ssd = refl;
    same_descs = refl;
    open_back = omega (arith, o);
    active_back = omega (arith, a);
    zrwa_back = omega arith;
    zrwa_exact = λ _. omega (arith, none_held b st a);
    zrwa_less = omega arith;
    open_total = refl;
    active_total = refl;
    zrwa_total = refl;
  }

  -- The zone settles in a state that holds nothing.
  pub settle :
      (t u : ZnsFtl) (st : ZoneState) (b : Bool) (d : ZoneDescriptor)
      → Released E z st b t
      → (z.zone_descs i).state ≡ st
      → (z.zone_descs i).zrwav ≡ b
      → Allowed st d.state
      → open_weight d.state ≡ 0
      → active_weight d.state ≡ 0
      → u.zp ≡ t.zp
      → u.ssd ≡ t.ssd
      → u.res_infos ≡ t.res_infos
      → ((j : ℕ) → u.zone_descs j ≡ update t.zone_descs i d j)
      → IsZone (zone_lbas z) i d
      → Moves E z i u
  settle t u st b d r e v k o a p s x ds f = record {
    desc = d;
    moved = record {
      params = p ∙ r.same_params;
      drive = s ∙ r.same_ssd;
      descs = λ j. ds j ∙ ap (λ y. update y i d j) r.same_descs;
      allowed = rw e k;
      open_moves = rw (x, e, o) (omega (arith, r.open_back));
      active_moves = rw (x, e, a) (omega (arith, r.active_back));
      zrwa_moves = rw (x, e, v) (omega (arith, r.zrwa_back, none_held d.zrwav d.state a));
      zrwa_exact = λ q. rw (x, e, v) (omega (arith, r.zrwa_exact q, none_held d.zrwav d.state a));
      zrwa_below = rw x (omega (arith, r.zrwa_less, h.zrwa_room));
      open_same = rw x r.open_total;
      active_same = rw x r.active_total;
      zrwa_same = rw x r.zrwa_total;
      zone_fits = f;
    };
  }
