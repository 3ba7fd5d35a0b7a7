-- ===== src/Zns/Moves.antt =====
-- What each action of Zone Management Send does to the descriptor and the resources of its zone.
use nvmevirt_slc_cache.Common.{
  ℕ, ◌+◌, ◌^◌, ◌≤◌, ◌<◌, ◌≡◌, refl, ap, arith, Bool, true, false, sum_below, sum_below_ones,
}
use nvmevirt_slc_cache.Zns.State.{
  ZoneState, opened_impl, closed, active_zone, open_zone, zrwa_zone, ZoneDescriptor, ZnsFtl,
}
use nvmevirt_slc_cache.Zns.Zones.{set_desc, release_zone_resource, change_zone_state}
use nvmevirt_slc_cache.Zns.Accounts.{
  zone_lbas, open_weight, active_weight, zrwa_weight, Allowed, stay, StateFits, IsZone, IsZoned,
  IsAccounted, Moved,
}

open_weight-le : (st : ZoneState) → open_weight st ≤ 1
open_weight-le opened_impl = omega arith
open_weight-le st = ground arith

active_weight-le : (st : ZoneState) → active_weight st ≤ 1
active_weight-le opened_impl = omega arith
active_weight-le st = ground arith

zrwa_weight-le : (b : Bool) (st : ZoneState) → zrwa_weight b st ≤ 1
zrwa_weight-le true st = active_weight-le st
zrwa_weight-le false st = omega arith

-- The counts around one zone: what it holds is counted, and there is room for what it does not hold.
pub record Held (z : ZnsFtl) (i : ℕ) : Type 0 where
  pub small : z.zp.nr_zones < 2 ^ 32
  pub open_held : open_weight (z.zone_descs i).state ≤ (z.res_infos open_zone).acquired_cnt
  pub open_room :
      (z.res_infos open_zone).acquired_cnt + 1 ≤ z.zp.nr_zones + open_weight (z.zone_descs i).state
  pub active_held : active_weight (z.zone_descs i).state ≤ (z.res_infos active_zone).acquired_cnt
  pub active_room :
      (z.res_infos active_zone).acquired_cnt + 1
      ≤ z.zp.nr_zones + active_weight (z.zone_descs i).state
  pub zrwa_held :
      zrwa_weight (z.zone_descs i).zrwav (z.zone_descs i).state
      ≤ (z.res_infos zrwa_zone).acquired_cnt
  pub zrwa_room : (z.res_infos zrwa_zone).acquired_cnt ≤ z.zp.nr_zones
  pub open_total : (z.res_infos open_zone).total_cnt ≡ z.zp.nr_zones
  pub active_total : (z.res_infos active_zone).total_cnt ≡ z.zp.nr_zones
  pub zrwa_total : (z.res_infos zrwa_zone).total_cnt ≡ z.zp.nr_zones

pub IsAccounted-Held :
    (z : ZnsFtl) (i : ℕ) → i < z.zp.nr_zones → IsZoned z → IsAccounted z → Held z i
IsAccounted-Held z i l g a = record {
  small = grind (arith, g.some_lbas, g.few_lbas);
  open_held = omega (arith, a.opened, o);
  open_room = omega (arith, a.opened, o);
  active_held = omega (arith, a.active, v);
  active_room = omega (arith, a.active, v);
  zrwa_held = omega (arith, a.zrwa, r);
  zrwa_room = a.zrwa_fits;
  open_total = a.open_total;
  active_total = a.active_total;
  zrwa_total = a.zrwa_total;
}
  where
    o :
        (open_weight (z.zone_descs i).state
          ≤ sum_below (λ j. open_weight (z.zone_descs j).state) z.zp.nr_zones)
        × (sum_below (λ j. open_weight (z.zone_descs j).state) z.zp.nr_zones + 1
            ≤ z.zp.nr_zones + open_weight (z.zone_descs i).state)
        × (sum_below (λ j. open_weight (z.zone_descs j).state) z.zp.nr_zones ≤ z.zp.nr_zones)
    o =
        sum_below_ones (λ j. open_weight (z.zone_descs j).state) z.zp.nr_zones i
          (λ j. open_weight-le (z.zone_descs j).state) l

    v :
        (active_weight (z.zone_descs i).state
          ≤ sum_below (λ j. active_weight (z.zone_descs j).state) z.zp.nr_zones)
        × (sum_below (λ j. active_weight (z.zone_descs j).state) z.zp.nr_zones + 1
            ≤ z.zp.nr_zones + active_weight (z.zone_descs i).state)
        × (sum_below (λ j. active_weight (z.zone_descs j).state) z.zp.nr_zones ≤ z.zp.nr_zones)
    v =
        sum_below_ones (λ j. active_weight (z.zone_descs j).state) z.zp.nr_zones i
          (λ j. active_weight-le (z.zone_descs j).state) l

    r :
        (zrwa_weight (z.zone_descs i).zrwav (z.zone_descs i).state
          ≤ sum_below
              (λ j. zrwa_weight (z.zone_descs j).zrwav (z.zone_descs j).state)
              z.zp.nr_zones)
        × (sum_below (λ j. zrwa_weight (z.zone_descs j).zrwav (z.zone_descs j).state) z.zp.nr_zones
              + 1
            ≤ z.zp.nr_zones + zrwa_weight (z.zone_descs i).zrwav (z.zone_descs i).state)
        × (sum_below (λ j. zrwa_weight (z.zone_descs j).zrwav (z.zone_descs j).state) z.zp.nr_zones
            ≤ z.zp.nr_zones)
    r =
        sum_below_ones (λ j. zrwa_weight (z.zone_descs j).zrwav (z.zone_descs j).state)
          z.zp.nr_zones i (λ j. zrwa_weight-le (z.zone_descs j).zrwav (z.zone_descs j).state) l

-- The zone after an operation.
pub record Moves (E : Type 0) (z : ZnsFtl) (i : ℕ) (t : ZnsFtl) : Type 0 where
  pub desc : ZoneDescriptor
  pub moved : Moved E z i desc t

module _ {E : Type 0} (z : ZnsFtl) (i : ℕ) (h : Held z i)
    (f : IsZone (zone_lbas z) i (z.zone_descs i)) where
  pub unmoved : Moves E z i z
  unmoved = record {
    desc = z.zone_descs i;
    moved = record {
      params = refl;
      drive = refl;
      descs = λ j. ground arith;
      allowed = stay (z.zone_descs i).state;
      open_moves = refl;
      active_moves = refl;
      zrwa_moves = omega arith;
      zrwa_exact = λ _. refl;
      zrwa_below = h.zrwa_room;
      open_same = refl;
      active_same = refl;
      zrwa_same = refl;
      zone_fits = f;
    };
  }

  pub close_opened :
      (st : ZoneState)
      → (z.zone_descs i).state ≡ st
      → open_weight st ≡ 1
      → active_weight st ≡ 1
      → Allowed st closed
      → StateFits closed (z.zone_descs i)
      → Moves E z i (release_zone_resource open_zone (change_zone_state i closed z))
  unfolding release_zone_resource change_zone_state
  close_opened st e o a k w = record {
    desc = record (z.zone_descs i) { state = closed };
    moved = record {
      params = refl;
      drive = refl;
      descs = λ j. refl;
      allowed = rw e k;
      open_moves = rw (e, o) (omega (arith, h.open_held, h.open_room, h.small, ap open_weight e));
      active_moves = rw (e, a) refl;
      zrwa_moves = rw e (ground arith);
      zrwa_exact = λ _. rw e (ground arith);
      zrwa_below = h.zrwa_room;
      open_same = refl;
      active_same = refl;
      zrwa_same = refl;
      zone_fits = record {
        start = f.start;
        capacity = f.capacity;
        wp_from = f.wp_from;
        wp_to = f.wp_to;
        state_fits = w;
      };
    };
  }

  -- A new descriptor that holds the same resources.
  pub redescribed :
      (d : ZoneDescriptor)
      → Allowed (z.zone_descs i).state d.state
      → open_weight d.state ≡ open_weight (z.zone_descs i).state
      → active_weight d.state ≡ active_weight (z.zone_descs i).state
      → d.zrwav ≡ (z.zone_descs i).zrwav
      → IsZone (zone_lbas z) i d
      → Moves E z i (set_desc i d z)
  redescribed d k o a v g = record {
    desc = d;
    moved = record {
      params = refl;
      drive = refl;
      descs = λ j. refl;
      allowed = k;
      open_moves = omega (arith, o);
      active_moves = omega (arith, a);
      zrwa_moves = rw v (omega (arith, same_area (z.zone_descs i).zrwav));
      zrwa_exact = λ _. rw v (omega (arith, same_area (z.zone_descs i).zrwav));
      zrwa_below = h.zrwa_room;
      open_same = refl;
      active_same = refl;
      zrwa_same = refl;
      zone_fits = g;
    };
  }
    where
      same_area : (b : Bool) → zrwa_weight b d.state ≡ zrwa_weight b (z.zone_descs i).state
      same_area true = a
      same_area false = refl
