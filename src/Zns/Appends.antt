-- ===== src/Zns/Appends.antt =====
-- What a write does to its zone: `__increase_write_ptr` and the checks of `__zns_write`.
use nvmevirt_slc_cache.Common.{
  ℕ, false, ◌+◌, ◌*◌, ◌≤◌, ◌<◌, ◌≡◌, inl, inr, refl, sym, ap, arith, Bool, ◌==◌, subst, Bool-cases,
  if◌then◌else◌, u64,
}
use nvmevirt_slc_cache.Zns.State.{
  ZoneState, empty, opened_impl, opened_expl, closed, read_only, full, offline, active_zone,
  open_zone, ZoneDescriptor, ZnsFtl,
}
use nvmevirt_slc_cache.Zns.Zones.{release_zone_resource, change_zone_state}
use nvmevirt_slc_cache.Zns.Access.{increase_write_ptr}
use nvmevirt_slc_cache.Zns.Accounts.{
  zone_lbas, open_weight, active_weight, Allowed, stay, impl_full, expl_full, StateFits, IsZone,
  IsZoned, IsAccounted,
}
use nvmevirt_slc_cache.Zns.Moves.{Held, IsAccounted-Held, Moves, redescribed}
use nvmevirt_slc_cache.Zns.Releases.{Released, settle}
use nvmevirt_slc_cache.Zns.Spans.{zone_end}
use nvmevirt_slc_cache.Zns.Flushes.{end_of_zone, at_wp, at_wp-IsZone}
use nvmevirt_slc_cache.Zns.Sent.{Sent, Only, Moves-Sent}

-- The two states in which a zone is open.
pub data IsOpen : ZoneState → Type 0 where
  implicitly : IsOpen opened_impl
  explicitly : IsOpen opened_expl

-- The descriptor after `n` blocks more.
abbrev pub advanced : ZoneDescriptor → ℕ → ZoneDescriptor
advanced d n =
    if d.wp + n == d.zslba + d.zone_capacity
    then record d { wp = d.wp + n; state = full }
    else record d { wp = d.wp + n }

module _ (z : ZnsFtl) (i : ℕ) (l : i < z.zp.nr_zones) (g : IsZoned z) (h : Held z i)
    (f : IsZone (zone_lbas z) i (z.zone_descs i)) where
  -- The release of what an open zone holds, its random write area left out.
  filled-Released :
      (st : ZoneState) (b : Bool)
      → (z.zone_descs i).state ≡ st
      → open_weight st ≡ 1
      → active_weight st ≡ 1
      → Released
          (b ≡ false)
          z
          st
          b
          (release_zone_resource active_zone (release_zone_resource open_zone z))
  unfolding release_zone_resource
  filled-Released st b e o a = record {
    same_params = refl;
    same_ssd = refl;
    same_descs = refl;
    open_back = omega (arith, h.open_held, h.open_room, h.small, ap open_weight e, o);
    active_back = omega (arith, h.active_held, h.active_room, h.small, ap active_weight e, a);
    zrwa_back = omega arith;
    zrwa_exact = λ q. rw q (omega arith);
    zrwa_less = omega arith;
    open_total = refl;
    active_total = refl;
    zrwa_total = refl;
  }

  module _ (st : ZoneState) (n : ℕ) (e : (z.zone_descs i).state ≡ st) (o : open_weight st ≡ 1)
      (a : active_weight st ≡ 1) (k : Allowed st full)
      (w : (wp : ℕ) → wp < i * zone_lbas z + zone_lbas z → StateFits st (at_wp z i l g h f wp))
      (b : (z.zone_descs i).wp + n ≤ i * zone_lbas z + zone_lbas z) where
    whole : u64 ((z.zone_descs i).wp + n) ≡ (z.zone_descs i).wp + n
    whole = omega (arith, b, zone_end i z.zp.nr_zones (zone_lbas z) l, g.few_lbas)

    advance-Moves : Moves ((z.zone_descs i).zrwav ≡ false) z i (increase_write_ptr i n z)
    unfolding increase_write_ptr release_zone_resource change_zone_state
    advance-Moves = elim (Bool-cases ((z.zone_descs i).wp + n == i * zone_lbas z + zone_lbas z)) [
      | inl c ↦
          rw (whole, end_of_zone z i l g h f, c)
            (settle z i h (release_zone_resource active_zone (release_zone_resource open_zone z)) _
              st (z.zone_descs i).zrwav
              (record (at_wp z i l g h f ((z.zone_descs i).wp + n)) { state = full })
              (filled-Released st (z.zone_descs i).zrwav e o a) e refl k refl refl refl refl refl
              (λ j. ground arith)
              (at_wp-IsZone z i l g h f ((z.zone_descs i).wp + n) full (omega arith) b tt))
      | inr c ↦
          let p : (z.zone_descs i).wp + n < i * zone_lbas z + zone_lbas z = ground arith in
          rw (whole, end_of_zone z i l g h f, c)
            (redescribed z i h f (at_wp z i l g h f ((z.zone_descs i).wp + n))
              (stay (z.zone_descs i).state) refl refl refl
              (at_wp-IsZone z i l g h f ((z.zone_descs i).wp + n) (z.zone_descs i).state
                (omega arith) b
                (subst
                  (λ (x : ZoneState). StateFits x (at_wp z i l g h f ((z.zone_descs i).wp + n)))
                  (sym e) (w _ p))))
    ]

    advance-desc : (increase_write_ptr i n z).zone_descs i ≡ advanced (z.zone_descs i) n
    unfolding increase_write_ptr release_zone_resource change_zone_state
    advance-desc = elim (Bool-cases ((z.zone_descs i).wp + n == i * zone_lbas z + zone_lbas z)) [
      | inl c ↦ rw (whole, end_of_zone z i l g h f, f.start, f.capacity, c) (ground arith)
      | inr c ↦ rw (whole, end_of_zone z i l g h f, f.start, f.capacity, c) (ground arith)
    ]

-- The write pointer of an open zone moves within the zone.
pub record Advanced (i n : ℕ) (z t : ZnsFtl) : Type 0 where
  pub sent : Sent ((z.zone_descs i).zrwav ≡ false) (Only i) z t
  pub desc : t.zone_descs i ≡ advanced (z.zone_descs i) n

module _ (z : ZnsFtl) (i : ℕ) (l : i < z.zp.nr_zones) (g : IsZoned z) (a : IsAccounted z) where
  h : Held z i
  h = IsAccounted-Held z i l g a

  f : IsZone (zone_lbas z) i (z.zone_descs i)
  f = a.zones i l

  -- Advancing the write pointer of an open zone within the zone: the zone is full, and holds no
  -- resource, exactly if it ends there.
  pub increase_write_ptr-Advanced :
      (st : ZoneState) (n : ℕ)
      → (z.zone_descs i).state ≡ st
      → IsOpen st
      → (z.zone_descs i).wp + n ≤ i * zone_lbas z + zone_lbas z
      → Advanced i n z (increase_write_ptr i n z)
  increase_write_ptr-Advanced opened_impl n e implicitly b = record {
    sent = Moves-Sent z i _ l a (
        advance-Moves z i l g h f opened_impl n e refl refl impl_full
          (λ wp p. omega (arith, p, f.start, f.capacity)) b);
    desc =
        advance-desc z i l g h f opened_impl n e refl refl impl_full
          (λ wp p. omega (arith, p, f.start, f.capacity)) b;
  }
  increase_write_ptr-Advanced opened_expl n e explicitly b = record {
    sent = Moves-Sent z i _ l a (
        advance-Moves z i l g h f opened_expl n e refl refl expl_full
          (λ wp p. omega (arith, p, f.start, f.capacity)) b);
    desc =
        advance-desc z i l g h f opened_expl n e refl refl expl_full
          (λ wp p. omega (arith, p, f.start, f.capacity)) b;
  }
  increase_write_ptr-Advanced empty n e k b = elim k [ ]
  increase_write_ptr-Advanced closed n e k b = elim k [ ]
  increase_write_ptr-Advanced full n e k b = elim k [ ]
  increase_write_ptr-Advanced read_only n e k b = elim k [ ]
  increase_write_ptr-Advanced offline n e k b = elim k [ ]
