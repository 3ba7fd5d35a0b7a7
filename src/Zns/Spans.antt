-- ===== src/Zns/Spans.antt =====
-- The blocks of a zone, and the zone of a block.
use nvmevirt_slc_cache.Common.{
  ℕ, ◌+◌, ◌-◌, ◌*◌, ◌/◌, ◌^◌, ◌≤◌, ◌<◌, ◌≡◌, sym, ap, ◌∙◌, arith, true, ==_iff, u32, u64, sub64,
}
use native.Mathlib.Nat.{div-add-mod}
use nvmevirt_slc_cache.Zns.State.{ZnsFtl}
use nvmevirt_slc_cache.Zns.Zones.{zone_to_slba, lba_to_zone}
use nvmevirt_slc_cache.Zns.Access.{check_boundary_error}
use nvmevirt_slc_cache.Zns.Accounts.{zone_lbas, IsZoned}

-- A zone ends below the limit of all.
pub zone_end : (i n lbas : ℕ) → i < n → i * lbas + lbas ≤ n * lbas
zone_end i n lbas h = grind arith

pub zone_to_slba-span :
    (z : ZnsFtl) (i : ℕ) → i < z.zp.nr_zones → IsZoned z → zone_to_slba z i ≡ i * zone_lbas z
unfolding zone_to_slba
zone_to_slba-span z i l g = omega (arith, zone_end i z.zp.nr_zones (zone_lbas z) l, g.few_lbas)

-- The quotient tells the range.
div_range : (x lbas : ℕ) → 0 < lbas → (x / lbas * lbas ≤ x) × (x < x / lbas * lbas + lbas)
div_range x lbas h = omega (arith, div-add-mod x lbas)

div_small : (x lbas : ℕ) → 0 < lbas → x / lbas ≤ x
div_small x lbas h = grind arith

in_range : (x i lbas : ℕ) → i * lbas ≤ x → x < i * lbas + lbas → x / lbas ≡ i
in_range x i lbas h k = grind arith

pub lba_to_zone-span :
    (z : ZnsFtl) (i lba : ℕ)
    → i < z.zp.nr_zones
    → IsZoned z
    → i * zone_lbas z ≤ lba
    → lba < i * zone_lbas z + zone_lbas z
    → lba_to_zone z lba ≡ i
unfolding lba_to_zone
lba_to_zone-span z i lba l g h k =
    let e : lba / zone_lbas z ≡ i = in_range lba i (zone_lbas z) h k in
    let s : i < 2 ^ 32 = omega (
      arith,
      zone_end i z.zp.nr_zones (zone_lbas z) l,
      g.few_lbas,
      div_small lba (zone_lbas z) g.some_lbas,
    ) in
    omega (arith, e, s)

-- A request that starts in a zone and passes the check ends in it.
pub check_boundary_error-span :
    (z : ZnsFtl) (i slba n : ℕ)
    → i < z.zp.nr_zones
    → IsZoned z
    → 0 < n
    → n ≤ 2 ^ 16
    → i * zone_lbas z ≤ slba
    → slba < i * zone_lbas z + zone_lbas z
    → check_boundary_error z slba n ≡ true
    → slba + n ≤ i * zone_lbas z + zone_lbas z
unfolding check_boundary_error lba_to_zone
check_boundary_error-span z i slba n l g p q h k c =
    let same : u32 ((slba + n - 1) / zone_lbas z) ≡ i =
      sym (ap (λ (x : ℕ). u32 (x / zone_lbas z)) last)
      ∙ sym ((==_iff _ _).0 c)
      ∙ lba_to_zone-span z i slba l g h k in
    let small = div_small (slba + n - 1) (zone_lbas z) g.some_lbas in
    let e : (slba + n - 1) / zone_lbas z ≡ i = omega (arith, same, small, bound) in
    omega
      (arith, div_range (slba + n - 1) (zone_lbas z) g.some_lbas, ap (λ (x : ℕ). x * zone_lbas z) e)
  where
    bound : slba + n ≤ 2 ^ 32
    bound = omega (arith, zone_end i z.zp.nr_zones (zone_lbas z) l, g.few_lbas)

    last : sub64 (u64 (slba + n)) 1 ≡ slba + n - 1
    last = omega (arith, bound)
