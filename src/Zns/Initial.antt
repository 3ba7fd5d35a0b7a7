-- ===== src/Zns/Initial.antt =====
-- A namespace as `zns_init_ftl` leaves it is in order.
use nvmevirt_slc_cache.Common.{
  ℕ, zero, suc, ◌+◌, ◌*◌, ◌/◌, ◌^◌, ◌≤◌, ◌<◌, ◌≡◌, refl, sym, arith, false, sum_below,
}
use nvmevirt_slc_cache.Nand.{Ssd}
use nvmevirt_slc_cache.Nand.Timing.{ModelsValid}
use nvmevirt_slc_cache.Zns.State.{ZnsParams, ZnsFtl, empty, open_zone, active_zone, zrwa_zone}
use nvmevirt_slc_cache.Zns.Start.{init_descriptor, init_resource, zns_init_ftl}
use nvmevirt_slc_cache.Zns.Accounts.{zone_lbas, IsZone}
use nvmevirt_slc_cache.Zns.Loops.{IsDrive}
use nvmevirt_slc_cache.Zns.Tables.{IsNamespace}

-- A namespace in order without data: every zone is empty, its pointer at its start, and no resource is
-- held.
pub record Idle (z : ZnsFtl) : Type 0 where
  pub in_order : IsNamespace z
  pub all_empty :
      (i : ℕ)
      → ((z.zone_descs i).state ≡ empty)
        × ((z.zone_descs i).wp ≡ (z.zone_descs i).zslba)
        × ((z.zone_descs i).zrwav ≡ false)
  pub none_open : (z.res_infos open_zone).acquired_cnt ≡ 0
  pub none_active : (z.res_infos active_zone).acquired_cnt ≡ 0
  pub none_zrwa : (z.res_infos zrwa_zone).acquired_cnt ≡ 0

nothing_held : (n : ℕ) → sum_below (λ j. 0) n ≡ 0
unfolding sum_below
nothing_held zero = refl
nothing_held (suc n) = omega (arith, nothing_held n)

module _ (lba_bits : ℕ) (zp : ZnsParams) (ssd : Ssd) (mapped : ℕ → ℕ)
    (s : ssd.sp.secsz ≡ 2 ^ lba_bits) where
  init_zone :
      (i : ℕ)
      → IsZone (zone_lbas (zns_init_ftl lba_bits zp ssd mapped)) i (init_descriptor lba_bits zp i)
  unfolding zns_init_ftl init_descriptor
  init_zone i = record {
    start = rw s refl;
    capacity = rw s refl;
    wp_from = omega arith;
    wp_to = omega arith;
    state_fits = (refl, refl);
  }

  -- `zns_init_ftl` leaves a namespace in order, with every zone empty, its write pointer at its
  -- start and no random write area, and with no resource held, on a drive of positive sizes with
  -- well-formed channel models, for zones of at least a block, a page and a die that all lie
  -- below 2^32 blocks with room for a request.
  pub zns_init_ftl-Idle :
      0 < zp.zone_size / ssd.sp.secsz
      → zp.nr_zones * (zp.zone_size / ssd.sp.secsz) + 2 ^ 16 ≤ 2 ^ 32
      → 0 < zp.zone_size / ssd.sp.pgsz
      → 0 < zp.dies_per_zone
      → IsDrive ssd.sp
      → ModelsValid ssd
      → Idle (zns_init_ftl lba_bits zp ssd mapped)
  unfolding zns_init_ftl init_resource init_descriptor
  zns_init_ftl-Idle p f q k d v = record {
    in_order = record {
      zoned = record { some_lbas = p; some_pages = q; some_dies = k; few_lbas = f };
      accounted = record {
        opened = sym (nothing_held zp.nr_zones);
        active = sym (nothing_held zp.nr_zones);
        zrwa = omega (arith, nothing_held zp.nr_zones);
        zrwa_fits = omega arith;
        open_total = refl;
        active_total = refl;
        zrwa_total = refl;
        zones = λ i l. init_zone i;
      };
      drive = d;
      models = v;
    };
    all_empty = λ i. (refl, refl, refl);
    none_open = refl;
    none_active = refl;
    none_zrwa = refl;
  }
