-- ===== src/Zns/Reaches.antt =====
-- The pages that a read touches lie in zones and on dies that exist.
use nvmevirt_slc_cache.Common.{
  ℕ, ◌+◌, ◌*◌, ◌/◌, ◌%◌, ◌≤◌, ◌<◌, ◌≡◌, arith, ap, ◌∙◌, u32, u64, sub64, ◌^◌, Returns, Returns-mono,
}
use native.Mathlib.Nat.{
  mod-lt, mod-le, div-lt_iff_lt-mul, div-add-mod', mul-le-mul_right, mod-mod_of_dvd,
  dvd_of_mod-eq-zero, mul-mod_left,
}
use nvmevirt_slc_cache.Zns.State.{ZnsFtl}
use nvmevirt_slc_cache.Zns.Zones.{lpn_to_zone, lba_to_lpn, zone_to_slpn, die_to_channel, die_to_lun}
use nvmevirt_slc_cache.Zns.Access.{ZoneRequest, ZoneResult, nr_lbas, lpn_to_ppa}
use nvmevirt_slc_cache.Zns.Read.{read_status, zns_read}
use nvmevirt_slc_cache.Nand.{Machine}
use nvmevirt_slc_cache.Nand.Timing.{ModelsValid}
use nvmevirt_slc_cache.Zns.Accounts.{IsZoned}
use nvmevirt_slc_cache.Zns.Loops.{IsDrive, SameZones, zns_read-SameZones}

-- A page in a zone of the namespace, on a die of the drive.
pub record Reached (z : ZnsFtl) (lpn : ℕ) : Type 0 where
  pub zone_in : lpn_to_zone z lpn < z.zp.nr_zones
  pub channel_in : (lpn_to_ppa z lpn).ch < z.ssd.sp.nchs
  pub die_in : (lpn_to_ppa z lpn).lun < z.ssd.sp.luns_per_ch

-- The dies of the drive are whole groups of those of a zone.
pub record WholeGroups (z : ZnsFtl) : Type 0 where
  pub groups : ℕ
  pub whole_groups : z.ssd.sp.tt_luns ≡ groups * z.zp.dies_per_zone

-- The zone of page `last` exists, and the dies come in whole groups.
pub record InNamespace (z : ZnsFtl) (last : ℕ) : Type 0 where
  pub last_in : last / (z.zp.zone_size / z.ssd.sp.pgsz) < z.zp.nr_zones
  pub dies : WholeGroups z

-- A group of `d` dies starts so that it ends among `k` groups.
group_end : (zone k d n : ℕ) → 0 < d → 0 < n → n ≡ k * d → zone * d % n + d ≤ n
group_end zone k d n p q e = omega (
  arith,
  e,
  aligned,
  div-add-mod' x d,
  mul-le-mul_right {m = x / d + 1} {n = k} d (omega (arith, below)),
)
  where
    x : ℕ
    x = zone * d % n

    aligned : x % d ≡ 0
    aligned =
        mod-mod_of_dvd d (zone * d)
          (dvd_of_mod-eq-zero d (ap (λ (y : ℕ). y % d) e ∙ mul-mod_left k d))
        ∙ mul-mod_left zone d

    below : x / d < k
    below = (div-lt_iff_lt-mul p).1 (omega (arith, mod-lt (zone * d) q, e))

module _ (z : ZnsFtl) (g : IsZoned z) (v : IsDrive z.ssd.sp) (last : ℕ)
    (h : InNamespace z last) where
  zone_below : (lpn : ℕ) → lpn ≤ last → lpn / (z.zp.zone_size / z.ssd.sp.pgsz) < z.zp.nr_zones
  zone_below lpn l =
      (div-lt_iff_lt-mul g.some_pages).1
        (omega (arith, l, (div-lt_iff_lt-mul g.some_pages).0 h.last_in))

  pub page-Reached : (lpn : ℕ) → lpn ≤ last → Reached z lpn
  unfolding lpn_to_zone lpn_to_ppa die_to_channel die_to_lun zone_to_slpn
  page-Reached lpn l = record {
    zone_in =
        omega (arith, zone_below lpn l, mod-le (lpn / (z.zp.zone_size / z.ssd.sp.pgsz)) (2 ^ 32));
    channel_in = omega (arith, mod-le (die % z.ssd.sp.nchs) (2 ^ 8), mod-lt die v.channels);
    die_in = omega (arith, mod-le (die / z.ssd.sp.nchs) (2 ^ 8), lun_below);
  }
    where
      off : ℕ
      off = sub64 lpn (zone_to_slpn z (lpn_to_zone z lpn))

      first : ℕ
      first = u32 (lpn_to_zone z lpn * z.zp.dies_per_zone % z.ssd.sp.tt_luns)

      die : ℕ
      die = u32 (first + off / z.ssd.sp.pgs_per_oneshotpg % z.zp.dies_per_zone)

      die_below : die < z.ssd.sp.tt_luns
      die_below = omega (
        arith,
        group_end (lpn_to_zone z lpn) h.dies.groups z.zp.dies_per_zone z.ssd.sp.tt_luns g.some_dies
            v.some_dies h.dies.whole_groups,
        mod-lt (off / z.ssd.sp.pgs_per_oneshotpg) g.some_dies,
        mod-le (lpn_to_zone z lpn * z.zp.dies_per_zone % z.ssd.sp.tt_luns) (2 ^ 32),
        mod-le (first + off / z.ssd.sp.pgs_per_oneshotpg % z.zp.dies_per_zone) (2 ^ 32),
      )

      lun_below : die / z.ssd.sp.nchs < z.ssd.sp.luns_per_ch
      lun_below = (div-lt_iff_lt-mul v.channels).1 (omega (arith, die_below, v.dies))

-- The pages of a read, by the number of its first and of its last.
abbrev pub first_page : ZoneRequest → ZnsFtl → ℕ
first_page q z = lba_to_lpn z q.slba

abbrev pub last_page : ZoneRequest → ZnsFtl → ℕ
last_page q z = lba_to_lpn z (sub64 (u64 (q.slba + nr_lbas q)) 1)

-- What a read leaves: the status that its checks give, with zones, resources and bytes as they were, and
-- every zone and die that it looked at was there.
pub record ReadOut (q : ZoneRequest) (z : ZnsFtl) (r : ZoneResult × ZnsFtl) : Type 0 where
  pub status : r.0.status ≡ read_status q z
  pub same : SameZones z r.1
  pub reached : (lpn : ℕ) → first_page q z ≤ lpn → lpn ≤ last_page q z → Reached z lpn
  pub zone_in : lpn_to_zone z (first_page q z) < z.zp.nr_zones

-- On a namespace and a drive of positive sizes with well-formed channel models, whose dies come
-- in whole groups of those of a zone, a read whose range does not wrap and whose last page lies
-- in a zone that exists returns: its loop over the pages ends. Every page of the range lies in a
-- zone of the namespace and on a channel and a die of the drive. The read has the status that its
-- checks give, and changes no zone, no resource and no byte of the storage.
pub zns_read-ReadOut :
    (m : Machine) (q : ZoneRequest) (z : ZnsFtl)
    → IsZoned z
    → IsDrive z.ssd.sp
    → ModelsValid z.ssd
    → first_page q z ≤ last_page q z
    → InNamespace z (last_page q z)
    → Returns (ReadOut q z) (zns_read m q z)
zns_read-ReadOut m q z g v k l h =
    Returns-mono (λ r. (r.0.status ≡ read_status q z) × SameZones z r.1) (ReadOut q z)
      (λ r (e, s). record {
        status = e;
        same = s;
        reached = λ lpn _ b. page-Reached z g v (last_page q z) h lpn b;
        zone_in = (page-Reached z g v (last_page q z) h (first_page q z) l).zone_in;
      })
      (zns_read m q z) (zns_read-SameZones m q z v k)
