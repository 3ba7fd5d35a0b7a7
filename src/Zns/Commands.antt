-- ===== src/Zns/Commands.antt =====
-- The commands of a host to a zoned namespace.
use nvmevirt_slc_cache.Common.{
  ℕ, ◌-◌, ◌*◌, ◌^◌, ◌≤◌, ◌<◌, ◌≡◌, ap, refl, false, if◌then◌else◌, u64, Option, none, some, Returns,
  Returns-mono, Returns-elim, Returns-then, Returns-if,
}
use nvmevirt_slc_cache.Nand.{Machine, Ssd, read_cpu_clock, ssd_next_idle_time}
use nvmevirt_slc_cache.Nand.Timing.{ModelsValid}
use nvmevirt_slc_cache.Zns.State.{Status, success, ZnsFtl}
use nvmevirt_slc_cache.Zns.Zones.{lba_to_zone, lpn_to_zone, lba_to_lpn}
use nvmevirt_slc_cache.Zns.Manage.{zns_zmgmt_send}
use nvmevirt_slc_cache.Zns.Access.{ZoneResult, nr_lbas, write_buffer_of}
use nvmevirt_slc_cache.Zns.Write.{zns_write_plain}
use nvmevirt_slc_cache.Zns.Zrwa.{zns_write}
use nvmevirt_slc_cache.Zns.Read.{zns_read}
use nvmevirt_slc_cache.Zns.Report.{
  Received, recv_length, report_prps, check_zmgmt_rcv_option_supported, zns_zmgmt_recv,
}
use nvmevirt_slc_cache.Prp.{chunk, transfer}
use nvmevirt_slc_cache.Prp.Cover.{Covers, Reaches, transfer-Covers}
use nvmevirt_slc_cache.Zns.Host.{
  ZoneCommand, cmd_write, cmd_read, cmd_flush, cmd_zone_mgmt_send, cmd_zone_mgmt_recv, cmd_other,
  ZonedNamespace, on_zns, answer_of, zns_flush, zns_proc_nvme_io_cmd,
}
use nvmevirt_slc_cache.Zns.Sent.{Sent, CanFlush, Only, IsZoned-same}
use nvmevirt_slc_cache.Zns.ManySent.{Below, zns_zmgmt_send-Sent}
use nvmevirt_slc_cache.Zns.Admits.{Appended}
use nvmevirt_slc_cache.Zns.Accounts.{AreasKept, AreasKept-same}
use nvmevirt_slc_cache.Zns.Reaches.{
  first_page, last_page, WholeGroups, InNamespace, ReadOut, zns_read-ReadOut,
}
use nvmevirt_slc_cache.Zns.Tables.{
  SameTables, IsNamespace, IsNamespace-same, SameZones-SameTables, buffer_at,
}
use nvmevirt_slc_cache.Zns.Writes.{Ended, Wrote, zns_write_plain-Wrote}

-- A namespace in order, with the result; the count of the random write areas has followed the zones.
abbrev InOrder : ZnsFtl → {A : Type 0} → A × ZnsFtl → Type 0
InOrder z r = IsNamespace r.1 × AreasKept z r.1

Sent-IsNamespace : (P : ℕ → Type 0) (z t : ZnsFtl) → IsNamespace z → Sent Unit P z t → IsNamespace t
Sent-IsNamespace P z t o s = record {
  zoned = IsZoned-same z t s.params (ap (λ (x : Ssd). x.sp) s.drive) o.zoned;
  accounted = s.accounted;
  drive = rw s.drive o.drive;
  models = rw s.drive o.models;
}

Appended-IsNamespace :
    (i slba n : ℕ) (z t : ZnsFtl)
    → IsNamespace z
    → Appended i slba n z t
    → ModelsValid t.ssd
    → IsNamespace t
Appended-IsNamespace i slba n z t o a v = record {
  zoned = IsZoned-same z t a.params a.drive_params o.zoned;
  accounted = a.accounted;
  drive = rw a.drive_params o.drive;
  models = v;
}

same-InOrder : (z t : ZnsFtl) → IsNamespace z → SameTables z t → IsNamespace t × AreasKept z t
same-InOrder z t o h = (IsNamespace-same z t h o, AreasKept-same z t h.resources h.descs)

-- A write that does not go through a random write area.
Ended-InOrder :
    (i slba n : ℕ) (z t : ZnsFtl) (st : Status)
    → IsNamespace z
    → (z.zone_descs i).zrwav ≡ false
    → Ended i slba n z t st
    → IsNamespace t × AreasKept z t
Ended-InOrder i slba n z t success o w (a, v) = (Appended-IsNamespace i slba n z t o a v, a.areas w)
Ended-InOrder i slba n z t refused o w h = same-InOrder z t o h

Wrote-InOrder :
    (i n : ℕ) (z : ZnsFtl)
    → IsNamespace z
    → (z.zone_descs i).zrwav ≡ false
    → (r : (ℕ × Option ZoneResult) × ZnsFtl) → Wrote i n z r
    → InOrder z r
Wrote-InOrder i n z o w ((slba, none), t) h = same-InOrder z t o h
Wrote-InOrder i n z o w ((slba, some r), t) h = Ended-InOrder i slba n z t r.status o w h

flush-IsNamespace :
    (m : Machine) (start : ℕ) (z : ZnsFtl)
    → IsNamespace z
    → Returns (InOrder z {A = ℕ}) (zns_flush m start z)
unfolding zns_flush ssd_next_idle_time read_cpu_clock
flush-IsNamespace m start z o = (
  record {
    zoned = record {
      some_lbas = o.zoned.some_lbas;
      some_pages = o.zoned.some_pages;
      some_dies = o.zoned.some_dies;
      few_lbas = o.zoned.few_lbas;
    };
    accounted = record {
      opened = o.accounted.opened;
      active = o.accounted.active;
      zrwa = o.accounted.zrwa;
      zrwa_fits = o.accounted.zrwa_fits;
      open_total = o.accounted.open_total;
      active_total = o.accounted.active_total;
      zrwa_total = o.accounted.zrwa_total;
      zones = o.accounted.zones;
    };
    drive = o.drive;
    models = record { channels = o.models.channels; link = o.models.link };
  },
  refl,
)

-- What a command must meet to be served without a stop of the kernel. A write goes to a zone without a
-- random write area, and is no larger than the buffer it goes through; a send names a zone, and
-- the flush groups have a block; a report finds its pages.
abbrev pub CanServe : Machine → (ℕ → ℕ → ℕ) → ZnsFtl → ZoneCommand → Type 0
CanServe m entry z (cmd_write q) =
    (lba_to_zone z q.slba < z.zp.nr_zones)
    × WholeGroups z
    × (q.length < 2 ^ 16)
    × ((z.zone_descs (lpn_to_zone z (lba_to_lpn z q.slba))).zrwav ≡ false)
    × ((z.zone_descs (lba_to_zone z q.slba)).zrwav ≡ false)
    × (u64 (nr_lbas q * 2 ^ m.config.lba_bits)
        ≤ (buffer_at (write_buffer_of z (lba_to_zone z q.slba)) z).size)
CanServe m entry z (cmd_zone_mgmt_send c) =
    (lba_to_zone z c.slba < z.zp.nr_zones) × CanFlush c.zsa z.zp
CanServe m entry z (cmd_zone_mgmt_recv c) =
    Reaches (report_prps entry c) (recv_length c - chunk c.prp1 (recv_length c))
CanServe m entry z (cmd_read q) = (first_page q z ≤ last_page q z) × InNamespace z (last_page q z)
CanServe m entry z (cmd_flush t) = Unit
CanServe m entry z (cmd_other n) = Unit

-- A namespace whose zones are in order, and whose count of random write areas has followed them.
abbrev pub Answered : ZonedNamespace → {A : Type 0} → A × ZonedNamespace → Type 0
Answered s r = IsNamespace r.1.ftl × AreasKept s.ftl r.1.ftl

-- An operation of the layer, as one of the namespace.
on_zns-Answered :
    {A : Type 0} (op : ZnsFtl → Option (A × ZnsFtl)) (s : ZonedNamespace)
    → Returns (InOrder s.ftl) (op s.ftl)
    → Returns (Answered s) (on_zns op s)
on_zns-Answered op s h = Returns-elim (InOrder s.ftl) (Answered s) (op s.ftl) _ h λ a z o. o

write-Answered :
    (s : ZonedNamespace) (r : Option ZoneResult) (t : ZonedNamespace)
    → IsNamespace t.ftl × AreasKept s.ftl t.ftl
    → Returns
        (Answered s)
        (elim r [ none ↦ some (none, t) | some x ↦ some (some (answer_of x), t) ])
write-Answered s none t o = o
write-Answered s (some x) t o = o

module _ (m : Machine) (entry : ℕ → ℕ → ℕ) (now : ℕ) where
  -- On a namespace in order, every command that can be served is served, without a stop of the
  -- kernel and with its loops at an end, and leaves the namespace in order: as many zones open
  -- and active as counted, every write pointer in its zone, full or open as the state says. The
  -- count of the random write areas changes by exactly as much as the number of active zones that
  -- have one. The dies of the drive are whole groups of those of a zone where data are read or
  -- written. A read can be served whose range does not wrap and whose last page lies in a zone
  -- that exists; a write to a zone that exists, without a random write area, that takes at most
  -- 2^16 blocks and no more than its buffer holds; a send to a zone that exists (and, for an
  -- explicit flush, with flush groups of some blocks); a receive whose list of pages is there;
  -- and any flush or other command.
  pub zns_proc_nvme_io_cmd-IsNamespace :
      (c : ZoneCommand) (s : ZonedNamespace)
      → IsNamespace s.ftl
      → CanServe m entry s.ftl c
      → Returns (Answered s) (zns_proc_nvme_io_cmd m entry now c s)
  unfolding zns_proc_nvme_io_cmd zns_zmgmt_recv zns_write
  zns_proc_nvme_io_cmd-IsNamespace (cmd_write q) s o (l, _, k, v, w, b) =
      Returns-elim (Answered s) (Answered s) (on_zns (zns_write m q) s) _
        (on_zns-Answered (zns_write m q) s written) λ a t p. write-Answered s a.1 t p
    where
      written : Returns (InOrder s.ftl) (zns_write m q s.ftl)
      written = rw v (
          Returns-mono (Wrote (lba_to_zone s.ftl q.slba) (nr_lbas q) s.ftl) (InOrder s.ftl)
            (Wrote-InOrder (lba_to_zone s.ftl q.slba) (nr_lbas q) s.ftl o w)
            (zns_write_plain m q s.ftl) (zns_write_plain-Wrote s.ftl o m q l k b))
  zns_proc_nvme_io_cmd-IsNamespace (cmd_read q) s o (b, h) =
      Returns-elim (Answered s) (Answered s) (on_zns (zns_read m q) s) _
        (on_zns-Answered (zns_read m q) s (
          Returns-mono (ReadOut q s.ftl) (InOrder s.ftl)
            (λ r k. same-InOrder s.ftl r.1 o (SameZones-SameTables s.ftl r.1 k.same))
            (zns_read m q s.ftl) (zns_read-ReadOut m q s.ftl o.zoned o.drive o.models b h)))
        λ a t p. p
  zns_proc_nvme_io_cmd-IsNamespace (cmd_flush t) s o h = flush-IsNamespace m t s.ftl o
  zns_proc_nvme_io_cmd-IsNamespace (cmd_zone_mgmt_send c) s o (l, p) =
      Returns-elim (Answered s) (Answered s) (on_zns (zns_zmgmt_send c) s) _
        (on_zns-Answered (zns_zmgmt_send c) s (
          Returns-mono (λ r. Sent Unit Acted s.ftl r.1) (InOrder s.ftl)
            (λ r k. (Sent-IsNamespace Acted s.ftl r.1 o k, k.areas tt)) (zns_zmgmt_send c s.ftl)
            (zns_zmgmt_send-Sent s.ftl o.zoned o.accounted c l p)))
        λ a t p. p
    where
      Acted : ℕ → Type 0
      Acted j =
          if c.select_all then Below s.ftl.zp.nr_zones j else Only (lba_to_zone s.ftl c.slba) j
  zns_proc_nvme_io_cmd-IsNamespace (cmd_zone_mgmt_recv c) s o h =
      Returns-then Whatever (Answered s) (zns_zmgmt_recv entry c s.report_buffer s.ftl) _
        (Returns-if Whatever (check_zmgmt_rcv_option_supported c s.ftl) _ _
          (λ _.
            Returns-then (Covers 0 (recv_length c)) Whatever
              (transfer (report_prps entry c) 0 (recv_length c)) _
              (transfer-Covers (report_prps entry c) 0 (recv_length c) h) λ cs _. tt)
          (λ _. tt))
        λ r _. (o, refl)
    where
      Whatever : Received → Type 0
      Whatever r = Unit
  zns_proc_nvme_io_cmd-IsNamespace (cmd_other n) s o h = (o, refl)
