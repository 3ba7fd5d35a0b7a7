-- ===== src/Zns/Accounts.antt =====
-- The resources of a zoned namespace against the states of its zones, and the state machine of a zone.
use nvmevirt_slc_cache.Common.{
  ℕ, ◌+◌, ◌*◌, ◌/◌, ◌^◌, ◌≤◌, ◌<◌, ◌≡◌, inl, inr, refl, sym, ap, ◌∙◌, arith, Bool, true, false, ◌⊎◌,
  ==_iff, ◌==◌, subst, Bool-cases, update, sum_below, sum_below_change,
}
use nvmevirt_slc_cache.Zns.State.{
  ZoneState, empty, opened_impl, opened_expl, closed, read_only, full, offline, active_zone,
  open_zone, zrwa_zone, ZoneDescriptor, ZnsParams, ZnsFtl,
}

-- The blocks of a zone.
abbrev pub zone_lbas : ZnsFtl → ℕ
zone_lbas z = z.zp.zone_size / z.ssd.sp.secsz

-- Which states hold an open, and which an active resource.
abbrev pub open_weight : ZoneState → ℕ
open_weight opened_impl = 1
open_weight opened_expl = 1
open_weight _ = 0

abbrev pub active_weight : ZoneState → ℕ
active_weight opened_impl = 1
active_weight opened_expl = 1
active_weight closed = 1
active_weight _ = 0

abbrev pub zrwa_weight : Bool → ZoneState → ℕ
zrwa_weight true st = active_weight st
zrwa_weight false st = 0

-- The moves that the specification of zoned namespaces allows a zone.
pub data Allowed : ZoneState → ZoneState → Type 0 where
  stay : (st : ZoneState) → Allowed st st
  empty_impl : Allowed empty opened_impl
  empty_expl : Allowed empty opened_expl
  empty_full : Allowed empty full
  impl_expl : Allowed opened_impl opened_expl
  impl_closed : Allowed opened_impl closed
  expl_closed : Allowed opened_expl closed
  closed_impl : Allowed closed opened_impl
  closed_expl : Allowed closed opened_expl
  impl_full : Allowed opened_impl full
  expl_full : Allowed opened_expl full
  closed_full : Allowed closed full
  impl_empty : Allowed opened_impl empty
  expl_empty : Allowed opened_expl empty
  closed_empty : Allowed closed empty
  full_empty : Allowed full empty
  read_only_offline : Allowed read_only offline

-- What a state says of the write pointer and the random write area. No operation makes a zone
-- read-only.
abbrev pub StateFits : ZoneState → ZoneDescriptor → Type 0
StateFits empty d = (d.wp ≡ d.zslba) × (d.zrwav ≡ false)
StateFits opened_impl d = d.wp < d.zslba + d.zone_capacity
StateFits opened_expl d = d.wp < d.zslba + d.zone_capacity
StateFits closed d = d.wp < d.zslba + d.zone_capacity
StateFits full d = Unit
StateFits read_only d = ⊥
StateFits offline d = ⊥

-- The descriptor of zone `i`, for zones of `lbas` blocks.
pub record IsZone (lbas i : ℕ) (d : ZoneDescriptor) : Type 0 where
  pub start : d.zslba ≡ i * lbas
  pub capacity : d.zone_capacity ≡ lbas
  pub wp_from : d.zslba ≤ d.wp
  pub wp_to : d.wp ≤ d.zslba + d.zone_capacity
  pub state_fits : StateFits d.state d

-- The zones, and one request past them, fit the 32 bits in which blocks are counted.
pub record IsZoned (z : ZnsFtl) : Type 0 where
  pub some_lbas : 0 < zone_lbas z
  pub some_pages : 0 < z.zp.zone_size / z.ssd.sp.pgsz
  pub some_dies : 0 < z.zp.dies_per_zone
  pub few_lbas : z.zp.nr_zones * zone_lbas z + 2 ^ 16 ≤ 2 ^ 32

-- Every resource is held by as many zones as its count says; that of the random write areas by at most
-- as many.
pub record IsAccounted (z : ZnsFtl) : Type 0 where
  pub opened :
      (z.res_infos open_zone).acquired_cnt
      ≡ sum_below (λ j. open_weight (z.zone_descs j).state) z.zp.nr_zones
  pub active :
      (z.res_infos active_zone).acquired_cnt
      ≡ sum_below (λ j. active_weight (z.zone_descs j).state) z.zp.nr_zones
  pub zrwa :
      sum_below (λ j. zrwa_weight (z.zone_descs j).zrwav (z.zone_descs j).state) z.zp.nr_zones
      ≤ (z.res_infos zrwa_zone).acquired_cnt
  pub zrwa_fits : (z.res_infos zrwa_zone).acquired_cnt ≤ z.zp.nr_zones
  pub open_total : (z.res_infos open_zone).total_cnt ≡ z.zp.nr_zones
  pub active_total : (z.res_infos active_zone).total_cnt ≡ z.zp.nr_zones
  pub zrwa_total : (z.res_infos zrwa_zone).total_cnt ≡ z.zp.nr_zones
  pub zones : (i : ℕ) → i < z.zp.nr_zones → IsZone (zone_lbas z) i (z.zone_descs i)

-- What the zones hold of random write areas, and what is counted.
abbrev pub zrwa_held : (ℕ → ZoneDescriptor) → ℕ → ℕ
zrwa_held ds n = sum_below (λ j. zrwa_weight (ds j).zrwav (ds j).state) n

-- The count of the random write areas changes by as much as the number of zones that hold one.
abbrev pub AreasKept : ZnsFtl → ZnsFtl → Type 0
AreasKept z t =
    (t.res_infos zrwa_zone).acquired_cnt + zrwa_held z.zone_descs z.zp.nr_zones
    ≡ (z.res_infos zrwa_zone).acquired_cnt + zrwa_held t.zone_descs z.zp.nr_zones

-- One zone gets a new descriptor, by an allowed move, and the counts follow its state; under `E` that of
-- the random write areas follows it exactly.
pub record Moved (E : Type 0) (z : ZnsFtl) (i : ℕ) (d : ZoneDescriptor) (t : ZnsFtl) : Type 0 where
  pub params : t.zp ≡ z.zp
  pub drive : t.ssd ≡ z.ssd
  pub descs : (j : ℕ) → t.zone_descs j ≡ update z.zone_descs i d j
  pub allowed : Allowed (z.zone_descs i).state d.state
  pub open_moves :
      (t.res_infos open_zone).acquired_cnt + open_weight (z.zone_descs i).state
      ≡ (z.res_infos open_zone).acquired_cnt + open_weight d.state
  pub active_moves :
      (t.res_infos active_zone).acquired_cnt + active_weight (z.zone_descs i).state
      ≡ (z.res_infos active_zone).acquired_cnt + active_weight d.state
  pub zrwa_moves :
      (z.res_infos zrwa_zone).acquired_cnt + zrwa_weight d.zrwav d.state
      ≤ (t.res_infos zrwa_zone).acquired_cnt
        + zrwa_weight (z.zone_descs i).zrwav (z.zone_descs i).state
  pub zrwa_exact :
      E
      → (t.res_infos zrwa_zone).acquired_cnt
          + zrwa_weight (z.zone_descs i).zrwav (z.zone_descs i).state
        ≡ (z.res_infos zrwa_zone).acquired_cnt + zrwa_weight d.zrwav d.state
  pub zrwa_below : (t.res_infos zrwa_zone).acquired_cnt ≤ z.zp.nr_zones
  pub open_same : (t.res_infos open_zone).total_cnt ≡ (z.res_infos open_zone).total_cnt
  pub active_same : (t.res_infos active_zone).total_cnt ≡ (z.res_infos active_zone).total_cnt
  pub zrwa_same : (t.res_infos zrwa_zone).total_cnt ≡ (z.res_infos zrwa_zone).total_cnt
  pub zone_fits : IsZone (zone_lbas z) i d

-- The sum of a weight over the zones after the move.
sum_moves :
    (w : ZoneDescriptor → ℕ) (z t : ZnsFtl) (i : ℕ) (d : ZoneDescriptor)
    → ((j : ℕ) → t.zone_descs j ≡ update z.zone_descs i d j)
    → i < z.zp.nr_zones
    → sum_below (λ j. w (t.zone_descs j)) z.zp.nr_zones + w (z.zone_descs i)
      ≡ sum_below (λ j. w (z.zone_descs j)) z.zp.nr_zones + w d
sum_moves w z t i d h l =
    sum_below_change (λ j. w (z.zone_descs j)) (λ j. w (t.zone_descs j)) z.zp.nr_zones i l
      (λ j ne. ap w (h j ∙ (ground arith)))
    ∙ ap (λ (x : ℕ). sum_below (λ j. w (z.zone_descs j)) z.zp.nr_zones + x)
        (ap w (h i ∙ (ground arith)))

pub AreasKept-trans : (z t u : ZnsFtl) → t.zp ≡ z.zp → AreasKept z t → AreasKept t u → AreasKept z u
AreasKept-trans z t u p h k =
    let k' : (u.res_infos zrwa_zone).acquired_cnt + zrwa_held t.zone_descs z.zp.nr_zones
        ≡ (t.res_infos zrwa_zone).acquired_cnt + zrwa_held u.zone_descs z.zp.nr_zones =
      rw p at k in
    omega (arith, h, k')

-- The tables as they were.
pub AreasKept-same :
    (z t : ZnsFtl) → t.res_infos ≡ z.res_infos → t.zone_descs ≡ z.zone_descs → AreasKept z t
AreasKept-same z t r d = rw (r, d) refl

pub Moved-AreasKept :
    {E : Type 0} (z t : ZnsFtl) (i : ℕ) (d : ZoneDescriptor)
    → i < z.zp.nr_zones
    → Moved E z i d t
    → E
    → AreasKept z t
Moved-AreasKept z t i d l m e = omega (
  arith,
  m.zrwa_exact e,
  sum_moves (λ (x : ZoneDescriptor). zrwa_weight x.zrwav x.state) z t i d m.descs l,
)

pub Moved-IsAccounted :
    {E : Type 0} (z t : ZnsFtl) (i : ℕ) (d : ZoneDescriptor)
    → i < z.zp.nr_zones
    → IsAccounted z
    → Moved E z i d t
    → IsAccounted t
Moved-IsAccounted z t i d l a m = record {
  opened = rw m.params (
      omega (
        arith,
        a.opened,
        m.open_moves,
        sum_moves (λ (x : ZoneDescriptor). open_weight x.state) z t i d m.descs l,
      ));
  active = rw m.params (
      omega (
        arith,
        a.active,
        m.active_moves,
        sum_moves (λ (x : ZoneDescriptor). active_weight x.state) z t i d m.descs l,
      ));
  zrwa = rw m.params (
      omega (
        arith,
        a.zrwa,
        m.zrwa_moves,
        sum_moves (λ (x : ZoneDescriptor). zrwa_weight x.zrwav x.state) z t i d m.descs l,
      ));
  zrwa_fits = rw m.params m.zrwa_below;
  open_total = m.open_same ∙ a.open_total ∙ sym (ap (λ (x : ZnsParams). x.nr_zones) m.params);
  active_total = m.active_same ∙ a.active_total ∙ sym (ap (λ (x : ZnsParams). x.nr_zones) m.params);
  zrwa_total = m.zrwa_same ∙ a.zrwa_total ∙ sym (ap (λ (x : ZnsParams). x.nr_zones) m.params);
  zones = λ j k.
      rw (m.params, m.drive)
        (subst (λ (x : ZoneDescriptor). IsZone (zone_lbas z) j x) (sym (m.descs j))
          (zone j (Bool-cases (j == i)) (subst (λ (x : ZnsParams). j < x.nr_zones) m.params k)));
}
  where
    zone :
        (j : ℕ)
        → ((j == i) ≡ true) ⊎ ((j == i) ≡ false)
        → j < z.zp.nr_zones
        → IsZone (zone_lbas z) j (update z.zone_descs i d j)
    zone j (inl e) k =
        rw e (subst (λ (x : ℕ). IsZone (zone_lbas z) x d) (sym ((==_iff j i).0 e)) m.zone_fits)
    zone j (inr e) k = rw e (a.zones j k)
