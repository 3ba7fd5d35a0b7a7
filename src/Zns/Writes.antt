-- ===== src/Zns/Writes.antt =====
-- `__zns_write` as a whole.
use nvmevirt_slc_cache.Common.{
  ℕ, ◌*◌, ◌^◌, ◌≤◌, ◌<◌, ◌≡◌, sym, arith, ltb, subst, if◌then◌else◌, u64, Option, none, some,
  Returns, Returns-if, Returns-elim,
}
use nvmevirt_slc_cache.Nand.{Machine, Ssd}
use nvmevirt_slc_cache.Nand.Timing.{ModelsValid}
use nvmevirt_slc_cache.Zns.State.{Status, success, BufferRef, ZnsFtl}
use nvmevirt_slc_cache.Zns.Zones.{lba_to_zone}
use nvmevirt_slc_cache.Zns.Access.{ZoneRequest, ZoneResult, nr_lbas, write_buffer_of, written}
use nvmevirt_slc_cache.Zns.Write.{admit_write, write_zone, zns_write_plain}
use nvmevirt_slc_cache.Zns.Admits.{Appended, Admitted, admit_write-Admitted}
use nvmevirt_slc_cache.Zns.Loops.{IsDrive, SameZones}
use nvmevirt_slc_cache.Zns.WriteLoops.{write_zone-SameZones}
use nvmevirt_slc_cache.Zns.Tables.{
  SameTables, IsNamespace, IsNamespace-same, SameZones-SameTables, buffer_at, allocate-SameTables,
  Appended-before, Appended-after,
}
use nvmevirt_slc_cache.Zns.Drives.{admit_write_drive}

-- How a write of `n` blocks to zone `i` ends: without space in the buffer, or refused, it changes no
-- zone and no resource; and it succeeds as the checks say.
abbrev pub Ended : ℕ → ℕ → ℕ → ZnsFtl → ZnsFtl → Status → Type 0
Ended i slba n z t success = Appended i slba n z t × ModelsValid t.ssd
Ended i slba n z t refused = SameTables z t

abbrev pub Wrote : ℕ → ℕ → ZnsFtl → (ℕ × Option ZoneResult) × ZnsFtl → Type 0
Wrote i n z ((slba, none), t) = SameTables z t
Wrote i n z ((slba, some r), t) = Ended i slba n z t r.status

module _ (m : Machine) (i : ℕ) (q : ZoneRequest) (slba : ℕ) (b : BufferRef) (z : ZnsFtl) where
  -- What follows the checks.
  after_checks :
      (st : Status) (t u : ZnsFtl)
      → IsDrive u.ssd.sp
      → ModelsValid u.ssd
      → SameTables z t
      → Admitted i slba (nr_lbas q) t (st, u)
      → Returns (Wrote i (nr_lbas q) z) (elim st [
        | success ↦ elim (write_zone m q i slba b u) [
          | none ↦ none
          | some (r, v) ↦ some ((slba, some r), v)
        ]
        | refused ↦ some ((slba, some (written q refused q.nsecs_start q.nsecs_start u)), u)
      ])
  after_checks success t u d v h a =
      Returns-elim (λ r. (r.0.status ≡ success) × SameZones u r.1) (Wrote i (nr_lbas q) z)
        (write_zone m q i slba b u) _ (write_zone-SameZones m q i slba b u d v)
        λ r w (e, k). rw e (
          Appended-after i slba (nr_lbas q) z u w (Appended-before i slba (nr_lbas q) z t u h a)
              (SameZones-SameTables u w k),
          k.drive.models,
        )
  after_checks refused t u d v h a = subst (SameTables z) (sym a) h

-- A write of at most `2 ^ 16` blocks, no larger than its buffer, to a zone without a random write
-- area, on a namespace in order: it returns.
module _ (z : ZnsFtl) (o : IsNamespace z) where
  -- A write or append of at most 2^16 blocks, no larger than its buffer, to a zone of a namespace
  -- in order, not through a random write area: it returns. Where it succeeds, it starts at the
  -- write pointer and ends in the zone, the zone is open with the pointer moved on by as many
  -- blocks, or full if it ends there, the resources are counted right and no other zone changes.
  -- Where it is refused or finds no space in the buffer, no zone and no resource changes.
  pub zns_write_plain-Wrote :
      (m : Machine) (q : ZoneRequest)
      → lba_to_zone z q.slba < z.zp.nr_zones
      → q.length < 2 ^ 16
      → u64 (nr_lbas q * 2 ^ m.config.lba_bits)
        ≤ (buffer_at (write_buffer_of z (lba_to_zone z q.slba)) z).size
      → Returns (Wrote (lba_to_zone z q.slba) (nr_lbas q) z) (zns_write_plain m q z)
  unfolding zns_write_plain
  zns_write_plain-Wrote m q l k b =
      Returns-elim (λ r. SameTables z r.1) (Wrote i (nr_lbas q) z) _ _
        (allocate-SameTables (write_buffer_of z i) bytes z b o.models)
        λ got t h.
          Returns-if (Wrote i (nr_lbas q) z) (ltb got bytes) _ _ (λ _. h) λ _. checked got t h
    where
      i : ℕ
      i = lba_to_zone z q.slba

      slba : ℕ
      slba = if q.is_append then (z.zone_descs i).wp else q.slba

      bytes : ℕ
      bytes = u64 (nr_lbas q * 2 ^ m.config.lba_bits)

      moved :
          (t : ZnsFtl)
          → SameTables z t
          → Admitted i slba (nr_lbas q) t (admit_write m i slba (nr_lbas q) t)
      moved t h =
          let p = IsNamespace-same z t h o in
          admit_write-Admitted t i (rw h.params l) p.zoned p.accounted m slba (nr_lbas q)
            (omega arith) (omega (arith, k))

      checked :
          (got : ℕ) (t : ZnsFtl)
          → SameTables z t
          → Returns (Wrote i (nr_lbas q) z) (elim (admit_write m i slba (nr_lbas q) t).0 [
            | success ↦
                elim (write_zone m q i slba
                  (write_buffer_of z i)
                  (admit_write m i slba (nr_lbas q) t).1) [
                    | none ↦ none
                    | some (r, v) ↦ some ((slba, some r), v)
                  ]
            | refused ↦ some (
              (
                slba,
                some (
                    written q refused q.nsecs_start q.nsecs_start
                      (admit_write m i slba (nr_lbas q) t).1),
              ),
              (admit_write m i slba (nr_lbas q) t).1,
            )
          ])
      checked got t h =
          let p = IsNamespace-same z t h o in
          let same = admit_write_drive m i slba (nr_lbas q) t in
          after_checks m i q slba (write_buffer_of z i) z (admit_write m i slba (nr_lbas q) t).0 t
            (admit_write m i slba (nr_lbas q) t).1
            (subst (λ (x : Ssd). IsDrive x.sp) (sym same) p.drive)
            (subst ModelsValid (sym same) p.models) h (moved t h)
