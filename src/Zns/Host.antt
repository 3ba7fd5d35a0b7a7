-- ===== src/Zns/Host.antt =====
-- The dispatch of commands to a zoned namespace, and its flush: zns_ftl.c. There is one partition.
use nvmevirt_slc_cache.Common.{ℕ, max, Option, none, some, List, [], St, ◌>>=◌}
use nvmevirt_slc_cache.Prp.{Copy}
use nvmevirt_slc_cache.Nand.{Machine, ssd_next_idle_time}
use nvmevirt_slc_cache.Zns.State.{Status, success, ZnsFtl}
use nvmevirt_slc_cache.Zns.Manage.{MgmtSend, zns_zmgmt_send}
use nvmevirt_slc_cache.Zns.Access.{ZoneRequest, ZoneResult, on_drive}
use nvmevirt_slc_cache.Zns.Zrwa.{zns_write}
use nvmevirt_slc_cache.Zns.Read.{zns_read}
use nvmevirt_slc_cache.Zns.Report.{MgmtRecv, ZoneReport, zns_zmgmt_recv}

-- The commands; a write is also a Zone Append.
pub data ZoneCommand : Type 0 where
  cmd_write cmd_read : ZoneRequest → ZoneCommand
  cmd_flush : ℕ → ZoneCommand
  cmd_zone_mgmt_send : MgmtSend → ZoneCommand
  cmd_zone_mgmt_recv : MgmtRecv → ZoneCommand
  cmd_other : ℕ → ZoneCommand

-- `struct nvmev_result` where the status may stay unset, with the copies that the report makes.
pub record Answer : Type 0 where
  pub status : Option Status
  pub nsecs_target : ℕ
  pub copies : List Copy

-- A namespace with its report buffer.
pub record ZonedNamespace : Type 0 where
  pub ftl : ZnsFtl
  pub report_buffer : ZoneReport

abbrev pub on_zns : {A : Type 0} → St ZnsFtl A → St ZonedNamespace A
on_zns op s = elim (op s.ftl) [ none ↦ none | some (a, z) ↦ some (a, record s { ftl = z }) ]

abbrev pub answer_of : ZoneResult → Answer
answer_of r = record { status = some r.status; nsecs_target = r.nsecs_target; copies = [] }

module _ (m : Machine) where
  -- `zns_flush`; `start` is what `local_clock` returns.
  unfoldable pub zns_flush : ℕ → St ZnsFtl ℕ
  unfolding ssd_next_idle_time
  zns_flush start = do idle ← on_drive (ssd_next_idle_time m); λ z. some (max start idle, z)

  -- `zns_proc_nvme_io_cmd` for a request that starts at `now`: the answer, or `none` for the result
  -- false. An unknown command keeps the result that the caller set.
  unfoldable pub zns_proc_nvme_io_cmd :
      (ℕ → ℕ → ℕ) → ℕ → ZoneCommand → St ZonedNamespace (Option Answer)
  unfolding zns_write zns_read zns_flush zns_zmgmt_send zns_zmgmt_recv
  zns_proc_nvme_io_cmd entry now (cmd_write q) s = elim (on_zns (zns_write m q) s) [
    | none ↦ none
    | some ((_, o), t) ↦ elim o [ none ↦ some (none, t) | some r ↦ some (some (answer_of r), t) ]
  ]
  zns_proc_nvme_io_cmd entry now (cmd_read q) s = elim (on_zns (zns_read m q) s) [
    | none ↦ none
    | some (r, t) ↦ some (some (answer_of r), t)
  ]
  zns_proc_nvme_io_cmd entry now (cmd_flush start) s = elim (on_zns (zns_flush start) s) [
    | none ↦ none
    | some (t, u) ↦ some (some (record { status = some success; nsecs_target = t; copies = [] }), u)
  ]
  zns_proc_nvme_io_cmd entry now (cmd_zone_mgmt_send q) s = elim (on_zns (zns_zmgmt_send q) s) [
    | none ↦ none
    | some (st, t) ↦ some (some (record { status = st; nsecs_target = now; copies = [] }), t)
  ]
  zns_proc_nvme_io_cmd entry now (cmd_zone_mgmt_recv q) s =
      elim (zns_zmgmt_recv entry q s.report_buffer s.ftl) [
        | none ↦ none
        | some r ↦ some (
          some (record { status = some r.status; nsecs_target = now; copies = r.copies }),
          record s { report_buffer = r.report },
        )
      ]
  zns_proc_nvme_io_cmd entry now (cmd_other n) s =
      some (some (record { status = some success; nsecs_target = now; copies = [] }), s)
