-- ===== src/Zns/Admits.antt =====
-- The checks of `__zns_write`, with all that they do to the zone.
use nvmevirt_slc_cache.Common.{
  ℕ, false, ◌+◌, ◌*◌, ◌%◌, ◌^◌, ◌≤◌, ◌<◌, ◌≡◌, inl, inr, refl, sym, ap, ◌∙◌, arith, true, ◌==◌,
  ==_iff, Bool-cases, u64,
}
use nvmevirt_slc_cache.Nand.{Machine, Ssd}
use nvmevirt_slc_cache.Zns.State.{
  ZoneState, empty, opened_impl, opened_expl, closed, read_only, full, offline, active_zone,
  open_zone, Status, success, ZoneDescriptor, ZnsFtl,
}
use nvmevirt_slc_cache.Zns.Zones.{
  is_zone_resource_full, is_zone_resource_avail, acquire_zone_resource, change_zone_state,
}
use nvmevirt_slc_cache.Zns.Access.{increase_write_ptr, check_boundary_error}
use nvmevirt_slc_cache.Zns.Write.{write_closed, write_empty, write_from, admit_write}
use nvmevirt_slc_cache.Zns.Accounts.{
  zone_lbas, open_weight, active_weight, empty_impl, closed_impl, StateFits, IsZone, IsZoned,
  IsAccounted, AreasKept, AreasKept-trans,
}
use nvmevirt_slc_cache.Zns.Moves.{Held, IsAccounted-Held, unmoved}
use nvmevirt_slc_cache.Zns.Sends.{fits_in}
use nvmevirt_slc_cache.Zns.Opens.{
  acquired, closed_opens, empty_opens, open_avail, active_avail, open_not_full, active_not_full,
}
use nvmevirt_slc_cache.Zns.Spans.{check_boundary_error-span}
use nvmevirt_slc_cache.Zns.Sent.{Sent, Only, Moves-Sent, IsZoned-same}
use nvmevirt_slc_cache.Zns.Appends.{
  IsOpen, implicitly, explicitly, advanced, Advanced, increase_write_ptr-Advanced,
}

-- The state in which a write leaves a zone that it does not fill.
abbrev pub opened_by_write : ZoneState → ZoneState
opened_by_write empty = opened_impl
opened_by_write closed = opened_impl
opened_by_write st = st

-- A zone that takes writes is open after the `switch` of the write, and otherwise as before.
pub record Opened (i : ℕ) (z t : ZnsFtl) : Type 0 where
  pub sent : Sent Unit (Only i) z t
  pub desc :
      t.zone_descs i ≡ record (z.zone_descs i) { state = opened_by_write (z.zone_descs i).state }
  pub is_open : IsOpen (opened_by_write (z.zone_descs i).state)

-- The end of a write's checks: it is a success and the zone is open with the pointer moved on, or it
-- is an error and nothing has changed.
abbrev pub Switched : ℕ → ZnsFtl → Status × ZnsFtl → Type 0
Switched i z (success, t) = Opened i z t
Switched i z (refused, t) = t ≡ z

module _ (z : ZnsFtl) (i : ℕ) (l : i < z.zp.nr_zones) (g : IsZoned z) (a : IsAccounted z) where
  h : Held z i
  h = IsAccounted-Held z i l g a

  f : IsZone (zone_lbas z) i (z.zone_descs i)
  f = a.zones i l

  write_closed-opened :
      (z.zone_descs i).state ≡ closed
      → write_closed i z ≡ (success, change_zone_state i opened_impl (acquired open_zone z))
  unfolding write_closed acquire_zone_resource is_zone_resource_avail
  write_closed-opened e = rw (open_avail z i h f (ap open_weight e))

  write_empty-opened :
      (slba : ℕ)
      → (z.zone_descs i).state ≡ empty
      → (slba == (z.zone_descs i).zslba) ≡ true
      → write_empty i slba z
        ≡ (success, change_zone_state i opened_impl (acquired open_zone (acquired active_zone z)))
  unfolding write_empty write_closed acquire_zone_resource is_zone_resource_avail
      is_zone_resource_full
  write_empty-opened slba e s = rw (
    s,
    active_not_full z i h f (ap active_weight e),
    open_not_full z i h f (ap open_weight e),
    active_avail z i h f (ap active_weight e),
    open_avail z i h f (ap open_weight e),
  )

  start :
      (slba : ℕ)
      → (z.zone_descs i).state ≡ empty
      → slba ≡ (z.zone_descs i).wp
      → (slba == (z.zone_descs i).zslba) ≡ true
  start slba e s = (==_iff _ _).1 (s ∙ (fits_in (z.zone_descs i) empty e f.state_fits).0)

  same :
      (st : ZoneState)
      → (z.zone_descs i).state ≡ st
      → opened_by_write st ≡ st
      → z.zone_descs i ≡ record (z.zone_descs i) { state = opened_by_write (z.zone_descs i).state }
  same st e o =
      ap (λ (x : ZoneState). record (z.zone_descs i) { state = x })
        (e ∙ sym o ∙ sym (ap opened_by_write e))

  write_from-Switched :
      (st : ZoneState) (slba : ℕ)
      → (z.zone_descs i).state ≡ st
      → slba ≡ (z.zone_descs i).wp
      → Switched i z (write_from st i slba z)
  unfolding write_from change_zone_state
  write_from-Switched closed slba e s = rw (write_closed-opened e) (record {
    sent = Moves-Sent z i _ l a (
        closed_opens z i h f opened_impl e refl refl closed_impl
          (fits_in (z.zone_descs i) closed e f.state_fits));
    desc = rw e (ground arith);
    is_open = rw e implicitly;
  })
  write_from-Switched empty slba e s = rw (write_empty-opened slba e (start slba e s)) (record {
    sent = Moves-Sent z i _ l a (
        empty_opens z i h f opened_impl e refl refl empty_impl (
          omega
            (arith, g.some_lbas, f.capacity, (fits_in (z.zone_descs i) empty e f.state_fits).0)));
    desc = rw e (ground arith);
    is_open = rw e implicitly;
  })
  write_from-Switched opened_impl slba e s = record {
    sent = Moves-Sent z i z l a (unmoved z i h f);
    desc = same opened_impl e refl;
    is_open = rw e implicitly;
  }
  write_from-Switched opened_expl slba e s = record {
    sent = Moves-Sent z i z l a (unmoved z i h f);
    desc = same opened_expl e refl;
    is_open = rw e explicitly;
  }
  write_from-Switched full slba e s = refl
  write_from-Switched read_only slba e s = refl
  write_from-Switched offline slba e s = refl

-- A write of `n` blocks at `slba` that passes the checks.
pub record Appended (i slba n : ℕ) (z t : ZnsFtl) : Type 0 where
  pub accounted : IsAccounted t
  pub areas : (z.zone_descs i).zrwav ≡ false → AreasKept z t
  pub params : t.zp ≡ z.zp
  pub drive_params : t.ssd.sp ≡ z.ssd.sp
  pub at_pointer : slba ≡ (z.zone_descs i).wp
  pub room : slba + n ≤ (z.zone_descs i).zslba + (z.zone_descs i).zone_capacity
  pub desc :
      t.zone_descs i
      ≡ advanced (record (z.zone_descs i) { state = opened_by_write (z.zone_descs i).state }) n
  pub others : (j : ℕ) → (j ≡ i → ⊥) → t.zone_descs j ≡ z.zone_descs j

abbrev pub Admitted : ℕ → ℕ → ℕ → ZnsFtl → Status × ZnsFtl → Type 0
Admitted i slba n z (success, t) = Appended i slba n z t
Admitted i slba n z (refused, t) = t ≡ z

module _ (z : ZnsFtl) (i : ℕ) (l : i < z.zp.nr_zones) (g : IsZoned z) (a : IsAccounted z) where
  -- A zone that a write may go to has its pointer inside.
  wp_inside :
      IsOpen (opened_by_write (z.zone_descs i).state)
      → (z.zone_descs i).wp < (z.zone_descs i).zslba + (z.zone_descs i).zone_capacity
  wp_inside o = inside (z.zone_descs i).state o (a.zones i l).state_fits
    where
      inside :
          (st : ZoneState)
          → IsOpen (opened_by_write st)
          → StateFits st (z.zone_descs i)
          → (z.zone_descs i).wp < (z.zone_descs i).zslba + (z.zone_descs i).zone_capacity
      inside opened_impl k w = w
      inside opened_expl k w = w
      inside closed k w = w
      inside empty k (w, _) = omega (arith, w, (a.zones i l).capacity, g.some_lbas)
      inside full k w = elim k [ ]
      inside read_only k w = elim w [ ]
      inside offline k w = elim w [ ]

  Switched-Admitted :
      (slba n : ℕ) (r : Status × ZnsFtl)
      → 0 < n
      → n ≤ 2 ^ 16
      → check_boundary_error z slba n ≡ true
      → slba ≡ (z.zone_descs i).wp
      → Switched i z r
      → Admitted i slba n z (r.0, elim r.0 [ success ↦ increase_write_ptr i n r.1 | _ ↦ r.1 ])
  Switched-Admitted slba n (success, t) p q c s o = record {
    accounted = moved.sent.accounted;
    areas = λ q.
        AreasKept-trans z t (increase_write_ptr i n t) o.sent.params (o.sent.areas tt)
          (moved.sent.areas (ap (λ (x : ZoneDescriptor). x.zrwav) opened_desc ∙ q));
    params = moved.sent.params ∙ o.sent.params;
    drive_params = ap (λ (x : Ssd). x.sp) (moved.sent.drive ∙ o.sent.drive);
    at_pointer = s;
    room = omega (arith, room, (a.zones i l).start, (a.zones i l).capacity);
    desc = moved.desc ∙ ap (λ (x : ZoneDescriptor). advanced x n) o.desc;
    others = λ j k. moved.sent.others j k ∙ o.sent.others j k;
  }
    where
      room : slba + n ≤ i * zone_lbas z + zone_lbas z
      room =
          check_boundary_error-span z i slba n l g p q
            (omega (arith, s, (a.zones i l).start, (a.zones i l).wp_from))
            (omega (arith, s, (a.zones i l).start, (a.zones i l).capacity, wp_inside o.is_open)) c

      opened_desc :
          t.zone_descs i
          ≡ record (z.zone_descs i) { state = opened_by_write (z.zone_descs i).state }
      opened_desc = o.desc

      moved : Advanced i n t (increase_write_ptr i n t)
      moved =
          increase_write_ptr-Advanced t i (rw o.sent.params l)
            (IsZoned-same z t o.sent.params (ap (λ (x : Ssd). x.sp) o.sent.drive) g)
            o.sent.accounted (opened_by_write (z.zone_descs i).state) n
            (ap (λ (x : ZoneDescriptor). x.state) o.desc) o.is_open
            (rw (o.sent.params, o.sent.drive, ap (λ (x : ZoneDescriptor). x.wp) opened_desc)
              (omega (arith, room, s)))
  Switched-Admitted slba n (refused, t) p q c s o = o

  -- The checks of a write to a zone without a random write area, on a namespace whose resources are
  -- counted right: if they succeed, the write starts at the write pointer and ends in the zone, the
  -- zone is open with the pointer moved on by as many blocks, or full if it ends there, and no other
  -- zone changes; and otherwise nothing changes.
  pub admit_write-Admitted :
      (m : Machine) (slba n : ℕ)
      → 0 < n
      → n ≤ 2 ^ 16
      → Admitted i slba n z (admit_write m i slba n z)
  unfolding admit_write
  admit_write-Admitted m slba n p q =
      elim (Bool-cases (u64 (n * 2 ^ m.config.lba_bits) % z.ssd.sp.write_unit_size == 0)) [
        | inr u ↦ rw u refl
        | inl u ↦ elim (Bool-cases (check_boundary_error z slba n)) [
          | inr c ↦ rw (u, c) refl
          | inl c ↦ elim (Bool-cases (slba == (z.zone_descs i).wp)) [
            | inr s ↦ rw (u, c, s) refl
            | inl s ↦
                rw (u, c, s)
                  (Switched-Admitted slba n (write_from (z.zone_descs i).state i slba z) p q c
                    ((==_iff _ _).0 s)
                    (write_from-Switched z i l g a (z.zone_descs i).state slba refl
                      ((==_iff _ _).0 s)))
          ]
        ]
      ]
