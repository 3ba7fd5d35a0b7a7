-- ===== src/Zns/Flushes.antt =====
-- The explicit flush of a random write area, and the whole of Zone Management Send.
use nvmevirt_slc_cache.Common.{
  ℕ, ◌+◌, ◌*◌, ◌≤◌, ◌<◌, ◌≡◌, inl, inr, refl, sym, arith, Bool, true, false, ◌==◌, subst,
  Bool-cases, update, u64,
}
use nvmevirt_slc_cache.Zns.State.{
  ZoneState, empty, opened_impl, opened_expl, closed, read_only, full, offline, open_zone,
  ZoneDescriptor, ZnsFtl,
}
use nvmevirt_slc_cache.Zns.Zones.{set_desc, release_zone_resource, change_zone_state, zone_to_slba}
use nvmevirt_slc_cache.Zns.Send.{release_active}
use nvmevirt_slc_cache.Zns.Manage.{fill_flushed, flush_to, flush_from}
use nvmevirt_slc_cache.Zns.Accounts.{
  zone_lbas, Allowed, stay, impl_full, expl_full, closed_full, StateFits, IsZone, IsZoned,
}
use nvmevirt_slc_cache.Zns.Moves.{Held, Moves, unmoved, redescribed}
use nvmevirt_slc_cache.Zns.Releases.{Released, closed-Released, opened-Released, settle}
use nvmevirt_slc_cache.Zns.Spans.{zone_end, zone_to_slba-span}

module _ (z : ZnsFtl) (i : ℕ) (l : i < z.zp.nr_zones) (g : IsZoned z) (h : Held z i)
    (f : IsZone (zone_lbas z) i (z.zone_descs i)) where
  -- The end of the zone, as the code computes it.
  pub end_of_zone :
      u64 (zone_to_slba z i + (z.zone_descs i).zone_capacity) ≡ i * zone_lbas z + zone_lbas z
  end_of_zone = omega (
    arith,
    zone_to_slba-span z i l g,
    f.capacity,
    zone_end i z.zp.nr_zones (zone_lbas z) l,
    g.few_lbas,
  )

  -- The descriptor with the write pointer moved on.
  abbrev pub at_wp : ℕ → ZoneDescriptor
  at_wp wp = record (z.zone_descs i) { wp = wp }

  pub at_wp-IsZone :
      (wp : ℕ) (st : ZoneState)
      → (z.zone_descs i).wp ≤ wp
      → wp ≤ i * zone_lbas z + zone_lbas z
      → StateFits st (record (at_wp wp) { state = st })
      → IsZone (zone_lbas z) i (record (at_wp wp) { state = st })
  at_wp-IsZone wp st a b w = record {
    start = f.start;
    capacity = f.capacity;
    wp_from = omega (arith, a, f.wp_from);
    wp_to = omega (arith, b, f.start, f.capacity);
    state_fits = w;
  }

  -- The flush from a state that it allows, up to before or at the end of the zone.
  flush_to-Moves :
      (st : ZoneState) (is_open : Bool) (slba : ℕ)
      → (z.zone_descs i).state ≡ st
      → (z.zone_descs i).wp ≤ slba
      → slba + 1 ≤ i * zone_lbas z + zone_lbas z
      → ((wp : ℕ)
          → wp < i * zone_lbas z + zone_lbas z
          → StateFits (z.zone_descs i).state (at_wp wp))
      → Moves Unit z i (fill_flushed is_open i (set_desc i (at_wp (slba + 1)) z))
      → Moves Unit z i (flush_to is_open i slba z).1
  unfolding flush_to
  flush_to-Moves st is_open slba e a b w k =
      elim (Bool-cases (slba + 1 == i * zone_lbas z + zone_lbas z)) [
        | inl c ↦ rw (whole, end_of_zone, c) k
        | inr c ↦
            rw (whole, end_of_zone, c)
              (redescribed z i h f (at_wp (slba + 1)) (stay (z.zone_descs i).state) refl refl refl (
                at_wp-IsZone (slba + 1) (z.zone_descs i).state (omega arith) b
                  (w (slba + 1) (ground arith))))
      ]
    where
      whole : u64 (slba + 1) ≡ slba + 1
      whole = omega (arith, b, zone_end i z.zp.nr_zones (zone_lbas z) l, g.few_lbas)

  -- The zone is full after the flush.
  filled-Moves :
      (st : ZoneState) (is_open : Bool) (slba : ℕ) (t : ZnsFtl)
      → (z.zone_descs i).state ≡ st
      → (z.zone_descs i).zrwav ≡ true
      → (z.zone_descs i).wp ≤ slba
      → slba + 1 ≤ i * zone_lbas z + zone_lbas z
      → Released Unit z st true t
      → Allowed st full
      → (fill_flushed is_open i (set_desc i (at_wp (slba + 1)) z)).zp ≡ t.zp
      → (fill_flushed is_open i (set_desc i (at_wp (slba + 1)) z)).ssd ≡ t.ssd
      → (fill_flushed is_open i (set_desc i (at_wp (slba + 1)) z)).res_infos ≡ t.res_infos
      → ((j : ℕ)
          → (fill_flushed is_open i (set_desc i (at_wp (slba + 1)) z)).zone_descs j
            ≡ update t.zone_descs i (record (at_wp (slba + 1)) { state = full }) j)
      → Moves Unit z i (fill_flushed is_open i (set_desc i (at_wp (slba + 1)) z))
  filled-Moves st is_open slba t e v a b r k p s x d =
      settle z i h t _ st true (record (at_wp (slba + 1)) { state = full }) r e v k refl refl p s x
        d (at_wp-IsZone (slba + 1) full (omega arith) b tt)

  opened_area :
      (st : ZoneState)
      → (z.zone_descs i).state ≡ st
      → ((wp : ℕ) → wp < i * zone_lbas z + zone_lbas z → StateFits st (at_wp wp))
      → (wp : ℕ) → wp < i * zone_lbas z + zone_lbas z
      → StateFits (z.zone_descs i).state (at_wp wp)
  opened_area st e k wp b = subst (λ (x : ZoneState). StateFits x (at_wp wp)) (sym e) (k wp b)

  pub flush_from-Moves :
      (st : ZoneState) (slba : ℕ)
      → (z.zone_descs i).state ≡ st
      → (z.zone_descs i).zrwav ≡ true
      → (z.zone_descs i).wp ≤ slba
      → slba + 1 ≤ i * zone_lbas z + zone_lbas z
      → Moves Unit z i (flush_from st i slba z).1
  unfolding flush_from fill_flushed release_active release_zone_resource change_zone_state
  flush_from-Moves opened_expl slba e v a b =
      flush_to-Moves opened_expl true slba e a b
        (opened_area opened_expl e (λ wp k. omega (arith, k, f.start, f.capacity)))
        (filled-Moves opened_expl true slba
          (release_active true (release_zone_resource open_zone z)) e v a b
          (opened-Released z i h opened_expl true e v refl refl) expl_full refl refl refl
          (λ j. ground arith))
  flush_from-Moves opened_impl slba e v a b =
      flush_to-Moves opened_impl true slba e a b
        (opened_area opened_impl e (λ wp k. omega (arith, k, f.start, f.capacity)))
        (filled-Moves opened_impl true slba
          (release_active true (release_zone_resource open_zone z)) e v a b
          (opened-Released z i h opened_impl true e v refl refl) impl_full refl refl refl
          (λ j. ground arith))
  flush_from-Moves closed slba e v a b =
      flush_to-Moves closed false slba e a b
        (opened_area closed e (λ wp k. omega (arith, k, f.start, f.capacity)))
        (filled-Moves closed false slba (release_active true z) e v a b
          (closed-Released z i h true e v) closed_full refl refl refl (λ j. ground arith))
  flush_from-Moves empty slba e v a b = unmoved z i h f
  flush_from-Moves full slba e v a b = unmoved z i h f
  flush_from-Moves read_only slba e v a b = unmoved z i h f
  flush_from-Moves offline slba e v a b = unmoved z i h f
