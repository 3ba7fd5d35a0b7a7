-- ===== src/Zns/Drives.antt =====
-- The checks of a write do not touch the drive.
use nvmevirt_slc_cache.Common.{
  ℕ, ◌+◌, ◌*◌, ◌%◌, not, ◌^◌, ◌≡◌, refl, ◌∙◌, arith, Bool, true, false, ◌==◌, if◌then◌else◌, u64,
}
use nvmevirt_slc_cache.Nand.{Machine, Ssd}
use nvmevirt_slc_cache.Zns.State.{
  ZoneState, empty, opened_impl, opened_expl, closed, read_only, full, offline, open_zone,
  active_zone, Status, success, ZoneResourceType, ZnsFtl,
}
use nvmevirt_slc_cache.Zns.Zones.{
  zone_to_slba, acquire_zone_resource, release_zone_resource, is_zone_resource_full,
  is_zone_resource_avail, change_zone_state,
}
use nvmevirt_slc_cache.Zns.Access.{check_boundary_error, increase_write_ptr}
use nvmevirt_slc_cache.Zns.Write.{write_closed, write_empty, write_from, admit_write}

-- What both branches agree on.
either :
    {A B : Type 0} (f : A → B) (b : Bool) (x y : A) {c : B}
    → f x ≡ c
    → f y ≡ c
    → f (if b then x else y) ≡ c
either f true x y h k = h
either f false x y h k = k

abbrev pub drive_of : Status × ZnsFtl → Ssd
drive_of r = r.1.ssd

-- The checks do not touch the drive.
write_closed_drive : (i : ℕ) (z : ZnsFtl) → drive_of (write_closed i z) ≡ z.ssd
unfolding write_closed acquire_zone_resource change_zone_state is_zone_resource_avail
write_closed_drive i z = ground arith

acquire_drive : (t : ZoneResourceType) (z : ZnsFtl) → (acquire_zone_resource t z).1.ssd ≡ z.ssd
unfolding acquire_zone_resource is_zone_resource_avail
acquire_drive t z = ground arith

write_empty_drive : (i slba : ℕ) (z : ZnsFtl) → drive_of (write_empty i slba z) ≡ z.ssd
unfolding write_empty acquire_zone_resource is_zone_resource_avail
write_empty_drive i slba z = either drive_of (not (slba == (z.zone_descs i).zslba)) _ _ refl (
    either drive_of (is_zone_resource_full z active_zone) _ _ refl (
      either drive_of (is_zone_resource_full z open_zone) _ _ refl (
        write_closed_drive i (acquire_zone_resource active_zone z).1
        ∙ acquire_drive active_zone z)))

write_from_drive :
    (st : ZoneState) (i slba : ℕ) (z : ZnsFtl) → drive_of (write_from st i slba z) ≡ z.ssd
unfolding write_from
write_from_drive empty i slba z = write_empty_drive i slba z
write_from_drive closed i slba z = write_closed_drive i z
write_from_drive opened_impl i slba z = refl
write_from_drive opened_expl i slba z = refl
write_from_drive full i slba z = refl
write_from_drive read_only i slba z = refl
write_from_drive offline i slba z = refl

increase_write_ptr_drive : (i n : ℕ) (z : ZnsFtl) → (increase_write_ptr i n z).ssd ≡ z.ssd
unfolding increase_write_ptr release_zone_resource change_zone_state
increase_write_ptr_drive i n z =
    either (λ (x : ZnsFtl). x.ssd)
      (u64 ((z.zone_descs i).wp + n) == u64 (zone_to_slba z i + (z.zone_descs i).zone_capacity)) _ _
      refl refl

advance_drive :
    (st : Status) (i n : ℕ) (z t : ZnsFtl)
    → t.ssd ≡ z.ssd
    → drive_of (st, elim st [ success ↦ increase_write_ptr i n t | _ ↦ t ]) ≡ z.ssd
advance_drive success i n z t h = increase_write_ptr_drive i n t ∙ h
advance_drive refused i n z t h = h

pub admit_write_drive :
    (m : Machine) (i slba n : ℕ) (z : ZnsFtl) → drive_of (admit_write m i slba n z) ≡ z.ssd
unfolding admit_write
admit_write_drive m i slba n z =
    either drive_of (not (u64 (n * 2 ^ m.config.lba_bits) % z.ssd.sp.write_unit_size == 0)) _ _ refl
      (either drive_of (not (check_boundary_error z slba n)) _ _ refl (
        either drive_of (not (slba == (z.zone_descs i).wp)) _ _ refl (
          advance_drive (write_from (z.zone_descs i).state i slba z).0 i n z
            (write_from (z.zone_descs i).state i slba z).1
            (write_from_drive (z.zone_descs i).state i slba z))))
