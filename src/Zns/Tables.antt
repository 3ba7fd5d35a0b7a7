-- ===== src/Zns/Tables.antt =====
-- A namespace in order, and the steps that leave its zones and their resources alone.
use nvmevirt_slc_cache.Common.{
  ℕ, ◌≤◌, ◌≡◌, refl, ap, ◌∙◌, arith, leb, ltb, Returns, Returns-if, Returns-elim,
}
use nvmevirt_slc_cache.Nand.{Buffer}
use nvmevirt_slc_cache.Nand.WriteBuffer.{buffer_allocate}
use nvmevirt_slc_cache.Nand.Timing.{ModelsValid}
use nvmevirt_slc_cache.Zns.State.{
  BufferRef, drive_buffer, zone_buffer, zone_zrwa_buffer, ZoneDescriptor, ZnsFtl,
}
use nvmevirt_slc_cache.Zns.Access.{allocate}
use nvmevirt_slc_cache.Zns.Accounts.{IsZoned, IsAccounted, AreasKept-trans, AreasKept-same}
use nvmevirt_slc_cache.Zns.Sent.{IsZoned-same}
use nvmevirt_slc_cache.Zns.Admits.{Appended}
use nvmevirt_slc_cache.Zns.Loops.{IsDrive, SameZones}

-- Nothing that the zones and their resources are differs.
pub record SameTables (z t : ZnsFtl) : Type 0 where
  pub params : t.zp ≡ z.zp
  pub resources : t.res_infos ≡ z.res_infos
  pub descs : t.zone_descs ≡ z.zone_descs
  pub drive_params : t.ssd.sp ≡ z.ssd.sp
  pub models : ModelsValid t.ssd

-- The namespace in order.
pub record IsNamespace (z : ZnsFtl) : Type 0 where
  pub zoned : IsZoned z
  pub accounted : IsAccounted z
  pub drive : IsDrive z.ssd.sp
  pub models : ModelsValid z.ssd

pub SameZones-SameTables : (z t : ZnsFtl) → SameZones z t → SameTables z t
SameZones-SameTables z t h = record {
  params = h.params;
  resources = h.resources;
  descs = h.descs;
  drive_params = h.drive.sp_same;
  models = h.drive.models;
}

pub SameTables-trans : (z t u : ZnsFtl) → SameTables z t → SameTables t u → SameTables z u
SameTables-trans z t u h k = record {
  params = k.params ∙ h.params;
  resources = k.resources ∙ h.resources;
  descs = k.descs ∙ h.descs;
  drive_params = k.drive_params ∙ h.drive_params;
  models = k.models;
}

IsAccounted-same : (z t : ZnsFtl) → SameTables z t → IsAccounted z → IsAccounted t
IsAccounted-same z t h a = record {
  opened = rw (h.params, h.resources, h.descs) a.opened;
  active = rw (h.params, h.resources, h.descs) a.active;
  zrwa = rw (h.params, h.resources, h.descs) a.zrwa;
  zrwa_fits = rw (h.params, h.resources) a.zrwa_fits;
  open_total = rw (h.params, h.resources) a.open_total;
  active_total = rw (h.params, h.resources) a.active_total;
  zrwa_total = rw (h.params, h.resources) a.zrwa_total;
  zones = λ i l. rw (h.params, h.drive_params, h.descs) (a.zones i (rw h.params at l));
}

pub IsNamespace-same : (z t : ZnsFtl) → SameTables z t → IsNamespace z → IsNamespace t
IsNamespace-same z t h n = record {
  zoned = IsZoned-same z t h.params h.drive_params n.zoned;
  accounted = IsAccounted-same z t h n.accounted;
  drive = rw h.drive_params n.drive;
  models = h.models;
}

-- The buffer that a pointer names.
abbrev pub buffer_at : BufferRef → ZnsFtl → Buffer
buffer_at drive_buffer z = z.ssd.write_buffer
buffer_at (zone_buffer i) z = z.zone_write_buffer i
buffer_at (zone_zrwa_buffer i) z = z.zrwa_buffer i

abbrev Any : {A : Type 0} → A → Type 0
Any a = Unit {0}

-- An allocation that the buffer can ever hold.
allocates : (size : ℕ) (b : Buffer) → size ≤ b.size → Returns Any (buffer_allocate size b)
unfolding buffer_allocate
allocates size b h =
    Returns-if Any (leb size b.size) _ _
      (λ _. Returns-if Any (ltb b.remaining size) _ _ (λ _. tt) (λ _. tt))
      (λ e. absurd (ground arith))

pub allocate-SameTables :
    (b : BufferRef) (size : ℕ) (z : ZnsFtl)
    → size ≤ (buffer_at b z).size
    → ModelsValid z.ssd
    → Returns (λ r. SameTables z r.1) (allocate b size z)
unfolding allocate
allocate-SameTables drive_buffer size z h v =
    Returns-elim Any (λ r. SameTables z r.1) _ _ (allocates size z.ssd.write_buffer h)
      λ n b _. record {
        params = refl;
        resources = refl;
        descs = refl;
        drive_params = refl;
        models = record { channels = v.channels; link = v.link };
      }
allocate-SameTables (zone_buffer i) size z h v =
    Returns-elim Any (λ r. SameTables z r.1) _ _ (allocates size (z.zone_write_buffer i) h)
      λ n b _. record {
        params = refl;
        resources = refl;
        descs = refl;
        drive_params = refl;
        models = v;
      }
allocate-SameTables (zone_zrwa_buffer i) size z h v =
    Returns-elim Any (λ r. SameTables z r.1) _ _ (allocates size (z.zrwa_buffer i) h)
      λ n b _. record {
        params = refl;
        resources = refl;
        descs = refl;
        drive_params = refl;
        models = v;
      }

pub Appended-before :
    (i slba n : ℕ) (z t u : ZnsFtl) → SameTables z t → Appended i slba n t u → Appended i slba n z u
Appended-before i slba n z t u h a = record {
  accounted = a.accounted;
  areas = λ q.
      AreasKept-trans z t u h.params (AreasKept-same z t h.resources h.descs)
        (a.areas (rw h.descs q));
  params = a.params ∙ h.params;
  drive_params = a.drive_params ∙ h.drive_params;
  at_pointer = rw h.descs at a.at_pointer;
  room = rw h.descs at a.room;
  desc = rw h.descs at a.desc;
  others = λ j k. a.others j k ∙ ap (λ (f : ℕ → ZoneDescriptor). f j) h.descs;
}

pub Appended-after :
    (i slba n : ℕ) (z t u : ZnsFtl) → Appended i slba n z t → SameTables t u → Appended i slba n z u
Appended-after i slba n z t u a h = record {
  accounted = IsAccounted-same t u h a.accounted;
  areas = λ q. AreasKept-trans z t u a.params (a.areas q) (AreasKept-same t u h.resources h.descs);
  params = h.params ∙ a.params;
  drive_params = h.drive_params ∙ a.drive_params;
  at_pointer = a.at_pointer;
  room = a.room;
  desc = ap (λ (f : ℕ → ZoneDescriptor). f i) h.descs ∙ a.desc;
  others = λ j k. ap (λ (f : ℕ → ZoneDescriptor). f j) h.descs ∙ a.others j k;
}
