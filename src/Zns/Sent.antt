-- ===== src/Zns/Sent.antt =====
-- An action of Zone Management Send on one zone.
use nvmevirt_slc_cache.Common.{
  ℕ, ◌+◌, ◌*◌, ◌%◌, ◌≤◌, ◌<◌, ◌≡◌, inl, inr, ◌⊎◌, refl, sym, ◌∙◌, arith, Bool, true, false, not,
  ◌&&◌, ◌==◌, ==_iff, leb, subst, Bool-cases, update, some, u64, sub64, Returns, Returns-if,
  Returns-then,
}
use nvmevirt_slc_cache.Zns.State.{Status, invalid_field, ZoneDescriptor, ZnsParams, ZnsFtl}
use nvmevirt_slc_cache.Zns.Zones.{lba_to_zone}
use nvmevirt_slc_cache.Zns.Send.{
  zmgmt_send_close_zone, zmgmt_send_finish_zone, zmgmt_send_open_zone, zmgmt_send_reset_zone,
  zmgmt_send_offline_zone,
}
use nvmevirt_slc_cache.Zns.Manage.{
  flush_from, zrwa_end, zmgmt_send_flush_explicit_zrwa, ZoneSendAction, close_zone, finish_zone,
  open_zone_action, reset_zone_action, offline_zone, set_zone_desc_ext, flush_expl_zrwa,
  other_action, with_status, zmgmt_send,
}
use nvmevirt_slc_cache.Zns.Accounts.{
  zone_lbas, Allowed, stay, IsZone, IsZoned, IsAccounted, AreasKept, Moved-AreasKept,
  Moved-IsAccounted,
}
use nvmevirt_slc_cache.Zns.Moves.{Held, IsAccounted-Held, Moves, unmoved}
use nvmevirt_slc_cache.Zns.Sends.{
  close_from-Moves, finish_from-Moves, reset_from-Moves, offline_from-Moves,
}
use nvmevirt_slc_cache.Zns.Opens.{open_from-Moves}
use nvmevirt_slc_cache.Zns.Spans.{zone_end}
use nvmevirt_slc_cache.Zns.Flushes.{end_of_zone, flush_from-Moves}

-- A step of the namespace: the resources stay right, and every zone moves by an allowed step, those
-- that `Acted` rules out not at all. Under `E` the count of random write areas follows the zones.
pub record Sent (E : Type 0) (Acted : ℕ → Type 0) (z t : ZnsFtl) : Type 0 where
  pub accounted : IsAccounted t
  pub areas : E → AreasKept z t
  pub params : t.zp ≡ z.zp
  pub drive : t.ssd ≡ z.ssd
  pub allowed : (j : ℕ) → Allowed (z.zone_descs j).state (t.zone_descs j).state
  pub others : (j : ℕ) → (Acted j → ⊥) → t.zone_descs j ≡ z.zone_descs j

-- An explicit flush divides by the size of a flush group.
abbrev pub CanFlush : ZoneSendAction → ZnsParams → Type 0
CanFlush flush_expl_zrwa zp = 0 < zp.lbas_per_zrwafg
CanFlush x zp = Unit

-- Zone `i` only.
abbrev pub Only : ℕ → ℕ → Type 0
Only i j = j ≡ i

pub IsZoned-same : (z t : ZnsFtl) → t.zp ≡ z.zp → t.ssd.sp ≡ z.ssd.sp → IsZoned z → IsZoned t
IsZoned-same z t p s g = record {
  some_lbas = rw (p, s) g.some_lbas;
  some_pages = rw (p, s) g.some_pages;
  some_dies = rw p g.some_dies;
  few_lbas = rw (p, s) g.few_lbas;
}

pub Moves-Sent :
    {E : Type 0} (z : ZnsFtl) (i : ℕ) (t : ZnsFtl)
    → i < z.zp.nr_zones
    → IsAccounted z
    → Moves E z i t
    → Sent E (Only i) z t
Moves-Sent z i t l a m = record {
  accounted = Moved-IsAccounted z t i m.desc l a m.moved;
  areas = Moved-AreasKept z t i m.desc l m.moved;
  params = m.moved.params;
  drive = m.moved.drive;
  allowed = λ j.
      subst (λ (x : ZoneDescriptor). Allowed (z.zone_descs j).state x.state) (sym (m.moved.descs j))
        (step j (Bool-cases (j == i)));
  others = λ j n. m.moved.descs j ∙ apart j n (Bool-cases (j == i));
}
  where
    step :
        (j : ℕ)
        → ((j == i) ≡ true) ⊎ ((j == i) ≡ false)
        → Allowed (z.zone_descs j).state (update z.zone_descs i m.desc j).state
    step j (inl e) = rw e (
        subst (λ (x : ℕ). Allowed (z.zone_descs x).state m.desc.state) (sym ((==_iff j i).0 e))
          m.moved.allowed)
    step j (inr e) = rw e (stay (z.zone_descs j).state)

    apart :
        (j : ℕ)
        → (j ≡ i → ⊥)
        → ((j == i) ≡ true) ⊎ ((j == i) ≡ false)
        → update z.zone_descs i m.desc j ≡ z.zone_descs j
    apart j n (inl e) = absurd (n ((==_iff j i).0 e))
    apart j n (inr e) = rw e

module _ (z : ZnsFtl) (g : IsZoned z) (a : IsAccounted z) where
  zrwa_end-lt :
      (i : ℕ)
      → i < z.zp.nr_zones
      → IsZone (zone_lbas z) i (z.zone_descs i)
      → zrwa_end i z + 1 ≤ i * zone_lbas z + zone_lbas z
  unfolding zrwa_end
  zrwa_end-lt i l f =
      rw (end_of_zone z i l g (IsAccounted-Held z i l g a) f)
        (omega (arith, g.some_lbas, g.few_lbas, zone_end i z.zp.nr_zones (zone_lbas z) l))

  flush-Moves :
      (slba : ℕ)
      → lba_to_zone z slba < z.zp.nr_zones
      → 0 < z.zp.lbas_per_zrwafg
      → Returns (λ r. Moves Unit z (lba_to_zone z slba) r.1) (zmgmt_send_flush_explicit_zrwa slba z)
  unfolding zmgmt_send_flush_explicit_zrwa
  flush-Moves slba l p =
      Returns-if P (not d.zrwav) _ _ (λ _. same)
        λ v.
          Returns-if P (not (leb d.wp slba && leb slba (zrwa_end i z))) _ _ (λ _. same)
            λ r.
              Returns-if P (z.zp.lbas_per_zrwafg == 0) _ _ (λ e. absurd (ground arith))
                λ _.
                  Returns-if P (not (u64 (sub64 slba d.wp + 1) % z.zp.lbas_per_zrwafg == 0))
                    (some (invalid_field, z)) (some (flush_from d.state i slba z)) (λ _. same)
                    λ _. flush_from-Moves z i l g h f d.state slba refl (area v) (from r) (upto r)
    where
      i : ℕ
      i = lba_to_zone z slba

      d : ZoneDescriptor
      d = z.zone_descs i

      P : Status × ZnsFtl → Type 0
      P r = Moves Unit z i r.1

      h : Held z i
      h = IsAccounted-Held z i l g a

      f : IsZone (zone_lbas z) i d
      f = a.zones i l

      same : Moves Unit z i z
      same = unmoved z i h f

      area : not d.zrwav ≡ false → d.zrwav ≡ true
      area v = ground arith

      from : not (leb d.wp slba && leb slba (zrwa_end i z)) ≡ false → d.wp ≤ slba
      from r = ground arith

      upto :
          not (leb d.wp slba && leb slba (zrwa_end i z)) ≡ false
          → slba + 1 ≤ i * zone_lbas z + zone_lbas z
      upto r = let k : slba ≤ zrwa_end i z = ground arith in omega (arith, k, zrwa_end-lt i l f)

  -- One action on one zone.
  pub zmgmt_send-Sent :
      (action : ZoneSendAction) (slba : ℕ) (option : Bool)
      → lba_to_zone z slba < z.zp.nr_zones
      → CanFlush action z.zp
      → Returns (λ r. Sent Unit (Only (lba_to_zone z slba)) z r.1) (zmgmt_send action slba option z)
  unfolding zmgmt_send zmgmt_send_close_zone zmgmt_send_finish_zone zmgmt_send_open_zone
      zmgmt_send_reset_zone zmgmt_send_offline_zone
  zmgmt_send-Sent action slba option l p = act action p
    where
      i : ℕ
      i = lba_to_zone z slba

      h : Held z i
      h = IsAccounted-Held z i l g a

      f : IsZone (zone_lbas z) i (z.zone_descs i)
      f = a.zones i l

      send : (t : ZnsFtl) → Moves Unit z i t → Sent Unit (Only i) z t
      send t m = Moves-Sent z i t l a m

      act :
          (x : ZoneSendAction)
          → CanFlush x z.zp
          → Returns (λ r. Sent Unit (Only (lba_to_zone z slba)) z r.1) (zmgmt_send x slba option z)
      act close_zone _ = send _ (close_from-Moves z i h f (z.zone_descs i).state refl)
      act finish_zone _ =
          send _ (finish_from-Moves z i h f (z.zone_descs i).state (z.zone_descs i).zrwav refl refl)
      act open_zone_action _ =
          send _ (open_from-Moves z i h f (z.zone_descs i).state option refl g.some_lbas)
      act reset_zone_action _ =
          send _ (reset_from-Moves z i h f (z.zone_descs i).state (z.zone_descs i).zrwav refl refl)
      act offline_zone _ = send _ (offline_from-Moves z i h f (z.zone_descs i).state refl)
      act flush_expl_zrwa p =
          Returns-then (λ r. Moves Unit z i r.1) (λ r. Sent Unit (Only i) z r.1)
            (zmgmt_send_flush_explicit_zrwa slba z) with_status (flush-Moves slba l p)
            (λ r m. send r.1 m)
      act set_zone_desc_ext _ = send z (unmoved z i h f)
      act (other_action n) _ = send z (unmoved z i h f)
