-- ===== src/Zns/Loops.antt =====
-- The loops of reads and writes over flash pages end, and leave the zones alone.
use nvmevirt_slc_cache.Common.{
  ℕ, zero, suc, ◌+◌, ◌-◌, ◌*◌, ◌^◌, ◌≤◌, ◌<◌, ◌≡◌, refl, ◌∙◌, arith, max, true, false, leb,
  if◌then◌else◌, u64, sub64, kb, St, Returns, Returns-if, Returns-mono, Returns-elim,
}
use native.Mathlib.Nat.{mod-lt}
use nvmevirt_slc_cache.Params.{SsdParams}
use nvmevirt_slc_cache.Ppa.{Ppa}
use nvmevirt_slc_cache.Nand.{
  Ssd, Machine, NandCmd, NandCommand, nand_read, ssd_advance_nand, ssd_advance_pcie,
}
use nvmevirt_slc_cache.Nand.Timing.{ModelsValid}
use nvmevirt_slc_cache.Nand.Total.{
  Kept, Keeps, unchanged-Kept, Kept-trans, ssd_advance_nand-Kept, ssd_advance_pcie-Kept,
}
use nvmevirt_slc_cache.Zns.State.{ZnsFtl}
use nvmevirt_slc_cache.Zns.Zones.{lba_to_lpn}
use nvmevirt_slc_cache.Zns.Access.{
  ZoneRequest, ZoneResult, on_drive, nr_lbas, lpn_to_ppa, round_pgs,
}
use nvmevirt_slc_cache.Zns.Read.{read_status, read_pages, zns_read}

-- Sizes that no configuration sets to 0.
pub record IsDrive (sp : SsdParams) : Type 0 where
  pub flashpg : 0 < sp.pgs_per_flashpg
  pub oneshotpg : 0 < sp.pgs_per_oneshotpg
  pub page : 0 < sp.pgsz
  pub chunk : 0 < sp.max_ch_xfer_size
  pub channels : 0 < sp.nchs
  pub dies : sp.tt_luns ≡ sp.luns_per_ch * sp.nchs
  pub some_dies : 0 < sp.tt_luns
  pub sectors : 0 < sp.secs_per_pg
  pub sector : 0 < sp.secsz
  pub unit : 0 < sp.write_unit_size

-- Only the timing of the drive and the list of releases may differ.
pub record SameZones (z t : ZnsFtl) : Type 0 where
  pub params : t.zp ≡ z.zp
  pub resources : t.res_infos ≡ z.res_infos
  pub descs : t.zone_descs ≡ z.zone_descs
  pub bytes : t.storage ≡ z.storage
  pub drive : Kept z.ssd t.ssd

abbrev pub KeepsZones : {A : Type 0} → ZnsFtl → A × ZnsFtl → Type 0
KeepsZones z r = SameZones z r.1

pub SameZones-trans : {z t u : ZnsFtl} → SameZones z t → SameZones t u → SameZones z u
SameZones-trans a b = record {
  params = b.params ∙ a.params;
  resources = b.resources ∙ a.resources;
  descs = b.descs ∙ a.descs;
  bytes = b.bytes ∙ a.bytes;
  drive = Kept-trans a.drive b.drive;
}

pub same_zones : (z : ZnsFtl) → ModelsValid z.ssd → SameZones z z
same_zones z v = record {
  params = refl;
  resources = refl;
  descs = refl;
  bytes = refl;
  drive = unchanged-Kept z.ssd v;
}

pub on_drive-SameZones :
    {A : Type 0} (op : St Ssd A) (z : ZnsFtl)
    → Returns (Keeps z.ssd) (op z.ssd)
    → Returns (KeepsZones z) (on_drive op z)
on_drive-SameZones op z h =
    Returns-elim (Keeps z.ssd) (KeepsZones z) _ _ h
      λ a d k. record { params = refl; resources = refl; descs = refl; bytes = refl; drive = k }

-- A round covers at least a page, and no more than remain.
pub round_pgs_pos :
    (oneshot pg remaining : ℕ)
    → 0 < oneshot
    → 0 < remaining
    → (0 < round_pgs oneshot pg remaining) × (round_pgs oneshot pg remaining ≤ remaining)
round_pgs_pos oneshot pg remaining h k = omega (arith, mod-lt pg h)

pub some_bytes : (n size : ℕ) → 0 < n → 0 < size → 0 < n * size
some_bytes n size h k = grind arith

-- A command whose data stay in the drive.
abbrev pub inner_cmd : NandCommand → ℕ → ℕ → Ppa → NandCmd
inner_cmd k size stime p = record {
  cmd = k;
  xfer_size = size;
  stime = stime;
  interleave_pci_dma = false;
  ppa = p;
}

module _ (m : Machine) where
  pub flash-SameZones :
      (c : NandCmd) (z : ZnsFtl)
      → 0 < c.xfer_size
      → IsDrive z.ssd.sp
      → ModelsValid z.ssd
      → Returns (KeepsZones z) (on_drive (ssd_advance_nand m c) z)
  flash-SameZones c z k d v =
      on_drive-SameZones (ssd_advance_nand m c) z (ssd_advance_nand-Kept m c z.ssd k d.chunk v)

  pub transfer-SameZones :
      (time length : ℕ) (z : ZnsFtl)
      → ModelsValid z.ssd
      → Returns (KeepsZones z) (on_drive (ssd_advance_pcie m time length) z)
  transfer-SameZones time length z v =
      on_drive-SameZones (ssd_advance_pcie m time length) z
        (ssd_advance_pcie-Kept m z.ssd time length v)

  -- With fuel for every page, the loop of a read ends.
  read_pages-SameZones :
      (fuel elpn stime lpn latest : ℕ) (z : ZnsFtl)
      → elpn + 1 ≤ lpn + fuel
      → IsDrive z.ssd.sp
      → ModelsValid z.ssd
      → Returns (KeepsZones z) (read_pages m fuel elpn stime lpn latest z)
  unfolding read_pages
  read_pages-SameZones zero elpn stime lpn latest z f d v =
      Returns-if (KeepsZones z) (leb lpn elpn) _ _ (λ e. absurd (ground arith)) λ _. same_zones z v
  read_pages-SameZones (suc fuel) elpn stime lpn latest z f d v =
      Returns-if (KeepsZones z) (leb lpn elpn) _ _
        (λ e.
          Returns-elim (KeepsZones z) (KeepsZones z) _ _
            (flash-SameZones (inner_cmd nand_read (pgs * z.ssd.sp.pgsz) stime (lpn_to_ppa z lpn)) z
              (some_bytes pgs z.ssd.sp.pgsz some_pages.0 d.page) d v)
            λ t u h.
              Returns-mono (KeepsZones u) (KeepsZones z) (λ r k. SameZones-trans h k) _
                (read_pages-SameZones fuel elpn stime (lpn + pgs) (max t latest) u
                  (omega (arith, f, below e, some_pages)) (rw h.drive.sp_same d) h.drive.models))
        λ _. same_zones z v
    where
      pgs : ℕ
      pgs = round_pgs z.ssd.sp.pgs_per_flashpg (lpn_to_ppa z lpn).pg (elpn - lpn + 1)

      some_pages : (0 < pgs) × (pgs ≤ elpn - lpn + 1)
      some_pages =
          round_pgs_pos z.ssd.sp.pgs_per_flashpg (lpn_to_ppa z lpn).pg (elpn - lpn + 1) d.flashpg
            (omega arith)

      below : leb lpn elpn ≡ true → lpn ≤ elpn
      below e = ground arith

  -- On a drive of positive sizes with well-formed channel models every read returns, whatever its
  -- range: its loop over the pages ends. It has the status that its checks give, and changes no
  -- zone, no resource and no byte of the storage.
  pub zns_read-SameZones :
      (q : ZoneRequest) (z : ZnsFtl)
      → IsDrive z.ssd.sp
      → ModelsValid z.ssd
      → Returns (λ r. (r.0.status ≡ read_status q z) × SameZones z r.1) (zns_read m q z)
  unfolding zns_read
  zns_read-SameZones q z d v =
      Returns-elim (KeepsZones z) Ended _ _
        (read_pages-SameZones (last + 1 - first) last stime first stime z (omega arith) d v)
        λ latest t h.
          Returns-elim (KeepsZones t) Ended _ _
            (transfer-SameZones latest (u64 (nr_lbas q * z.ssd.sp.secsz)) t h.drive.models)
            λ done u k. (refl, SameZones-trans h k)
    where
      Ended : ZoneResult × ZnsFtl → Type 0
      Ended r = (r.0.status ≡ read_status q z) × SameZones z r.1

      first : ℕ
      first = lba_to_lpn z q.slba

      last : ℕ
      last = lba_to_lpn z (sub64 (u64 (q.slba + nr_lbas q)) 1)

      delay : ℕ
      delay =
          if leb (u64 (nr_lbas q * 2 ^ m.config.lba_bits)) (kb 4)
          then z.ssd.sp.fw_4kb_rd_lat
          else z.ssd.sp.fw_rd_lat

      stime : ℕ
      stime = u64 (q.nsecs_start + delay)
