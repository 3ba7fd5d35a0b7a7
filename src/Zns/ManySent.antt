-- ===== src/Zns/ManySent.antt =====
-- Zone Management Send as a whole: one zone, or all of them in turn.
use nvmevirt_slc_cache.Common.{
  ℕ, zero, suc, ◌*◌, ◌≤◌, ◌<◌, ◌≡◌, inl, inr, ◌⊎◌, refl, sym, ap, ◌∙◌, arith, Bool, true, false,
  ltb, ltb-cases, subst, if◌then◌else◌, none, some, Returns, Returns-then, Returns-elim,
}
use nvmevirt_slc_cache.Nand.{Ssd}
use nvmevirt_slc_cache.Zns.State.{success, ZoneDescriptor, ZnsFtl}
use nvmevirt_slc_cache.Zns.Zones.{zone_to_slba, lba_to_zone}
use nvmevirt_slc_cache.Zns.Manage.{
  ZoneSendAction, zmgmt_send, MgmtSend, send_to_all, zns_zmgmt_send,
}
use nvmevirt_slc_cache.Zns.Accounts.{
  zone_lbas, Allowed, stay, IsZoned, IsAccounted, AreasKept-trans,
}
use nvmevirt_slc_cache.Zns.Spans.{zone_to_slba-span, lba_to_zone-span}
use nvmevirt_slc_cache.Zns.Sent.{Sent, CanFlush, Only, IsZoned-same, zmgmt_send-Sent}

-- The zones below `n`.
abbrev pub Below : ℕ → ℕ → Type 0
Below n j = j < n

-- One zone more is acted on.
Sent-next :
    (n : ℕ) (z t u : ZnsFtl)
    → Sent Unit (Below n) z t
    → Sent Unit (Only n) t u
    → Sent Unit (Below (suc n)) z u
Sent-next n z t u a b = record {
  accounted = b.accounted;
  areas = λ _. AreasKept-trans z t u a.params (a.areas tt) (b.areas tt);
  params = b.params ∙ a.params;
  drive = b.drive ∙ a.drive;
  allowed = λ j. step j (ltb-cases j n);
  others = λ j k. b.others j (λ e. k (omega arith)) ∙ a.others j (λ e. k (omega arith));
}
  where
    step :
        (j : ℕ)
        → ((j < n) × (ltb j n ≡ true)) ⊎ ((n ≤ j) × (ltb j n ≡ false))
        → Allowed (z.zone_descs j).state (u.zone_descs j).state
    step j (inl (l, _)) =
        subst (λ (x : ZoneDescriptor). Allowed (z.zone_descs j).state x.state)
          (sym (b.others j (λ e. omega arith))) (a.allowed j)
    step j (inr (l, _)) =
        subst (λ (x : ZoneDescriptor). Allowed x.state (u.zone_descs j).state)
          (a.others j (λ e. omega arith)) (b.allowed j)

module _ (z : ZnsFtl) (g : IsZoned z) (a : IsAccounted z) where
  send_to_all-Sent :
      (n : ℕ) (action : ZoneSendAction) (option : Bool)
      → n ≤ z.zp.nr_zones
      → CanFlush action z.zp
      → Returns (Sent Unit (Below n) z) (send_to_all n action option z)
  unfolding send_to_all
  send_to_all-Sent zero action option l p = record {
    accounted = a;
    areas = λ _. refl;
    params = refl;
    drive = refl;
    allowed = λ j. stay (z.zone_descs j).state;
    others = λ j k. refl;
  }
  send_to_all-Sent (suc n) action option l p =
      Returns-then (Sent Unit (Below n) z) (Sent Unit (Below (suc n)) z)
        (send_to_all n action option z) _ (send_to_all-Sent n action option (omega arith) p) next
    where
      next :
          (t : ZnsFtl)
          → Sent Unit (Below n) z t
          → Returns
              (Sent Unit (Below (suc n)) z)
              (elim (zmgmt_send action (zone_to_slba t n) option t) [
                | none ↦ none
                | some (_, u) ↦ some u
              ])
      next t k =
          let tg = IsZoned-same z t k.params (ap (λ (x : Ssd). x.sp) k.drive) g in
          let in_zones : n < t.zp.nr_zones = rw k.params (omega arith) in
          let here : lba_to_zone t (zone_to_slba t n) ≡ n =
            ap (lba_to_zone t) (zone_to_slba-span t n in_zones tg)
            ∙ lba_to_zone-span t n (n * zone_lbas t) in_zones tg (omega arith)
                (omega (arith, tg.some_lbas)) in
          Returns-elim (λ r. Sent Unit (Only (lba_to_zone t (zone_to_slba t n))) t r.1)
            (Sent Unit (Below (suc n)) z) (zmgmt_send action (zone_to_slba t n) option t)
            (λ _ u. some u)
            (zmgmt_send-Sent t tg k.accounted action (zone_to_slba t n) option (rw here in_zones)
              (subst (CanFlush action) (sym k.params) p))
            (λ st u m. Sent-next n z t u k (subst (λ (x : ℕ). Sent Unit (Only x) t u) here m))

  -- Zone Management Send on a namespace whose open and active resources are counted right, and
  -- its random write areas at least as many as are held, to a zone that exists and, for an
  -- explicit flush, with flush groups of at least a block: it returns, the counts stay so, the
  -- count of the random write areas changes by exactly as much as the number of active zones that
  -- have one, every zone that moves makes a step that the state machine of zoned namespaces
  -- allows, and only the zones that the command names move.
  pub zns_zmgmt_send-Sent :
      (cmd : MgmtSend)
      → lba_to_zone z cmd.slba < z.zp.nr_zones
      → CanFlush cmd.zsa z.zp
      → Returns
          (λ r.
            Sent Unit
              (λ j.
                if cmd.select_all then Below z.zp.nr_zones j else Only (lba_to_zone z cmd.slba) j)
              z
              r.1)
          (zns_zmgmt_send cmd z)
  unfolding zns_zmgmt_send
  zns_zmgmt_send-Sent cmd l p = act cmd.select_all
    where
      act :
          (all : Bool)
          → Returns
              (λ r.
                Sent Unit
                  (λ j. if all then Below z.zp.nr_zones j else Only (lba_to_zone z cmd.slba) j)
                  z
                  r.1)
              (if all
                then elim (send_to_all z.zp.nr_zones cmd.zsa cmd.zsaso z) [
                  | none ↦ none
                  | some t ↦ some (some success, t)
                ]
                else zmgmt_send cmd.zsa cmd.slba cmd.zsaso z)
      act true =
          Returns-then (Sent Unit (Below z.zp.nr_zones) z)
            (λ r. Sent Unit (Below z.zp.nr_zones) z r.1)
            (send_to_all z.zp.nr_zones cmd.zsa cmd.zsaso z) (λ t. some (some success, t))
            (send_to_all-Sent z.zp.nr_zones cmd.zsa cmd.zsaso (omega arith) p) (λ t m. m)
      act false = zmgmt_send-Sent z g a cmd.zsa cmd.slba cmd.zsaso l p
