-- ===== src/Ftl/Host.antt =====
-- `conv_flush` and `conv_proc_nvme_io_cmd` of conv_ftl.c.
use nvmevirt_slc_cache.Common.{
  ℕ, zero, suc, max, Bool, true, false, Option, none, some, St, ◌>>=◌, return,
}
use nvmevirt_slc_cache.Nand.{Machine, ssd_next_idle_time}
use nvmevirt_slc_cache.Ftl.State.{Pqueue, on_ssd}
use nvmevirt_slc_cache.Ftl.Namespace.{Namespace, on_ftl, RwRequest, Served}
use nvmevirt_slc_cache.Ftl.Read.{conv_read}
use nvmevirt_slc_cache.Ftl.Write.{conv_write}

-- The opcodes of `conv_proc_nvme_io_cmd`; any other is reported and answered with true.
pub data IoCommand : Type 0 where
  cmd_write cmd_read : RwRequest → IoCommand
  cmd_flush : ℕ → IoCommand
  cmd_other : IoCommand

module _ (m : Machine) (pq : Pqueue) where
  -- The loop of `conv_flush` over the instances, and its result; the statistics that it prints are
  -- left out.
  unfoldable pub flush_parts : ℕ → ℕ → St Namespace ℕ
  unfolding on_ftl ssd_next_idle_time
  flush_parts zero latest ns = some (latest, ns)
  flush_parts (suc n) latest ns = elim (flush_parts n latest ns) [
    | none ↦ none
    | some (t, ns') ↦ elim (on_ftl n (on_ssd (ssd_next_idle_time m)) ns') [
      | none ↦ none
      | some (u, ns'') ↦ some (max t u, ns'')
    ]
  ]

  -- `start` is what `local_clock` returns.
  unfoldable pub conv_flush : ℕ → St Namespace (Option Served)
  unfolding flush_parts
  conv_flush start ns = elim (flush_parts ns.nr_parts start ns) [
    | none ↦ none
    | some (latest, ns') ↦ some (some (record { nsecs_target = latest }), ns')
  ]

  -- The result: whether the command was taken, and for a command of the three what it set.
  unfoldable pub conv_proc_nvme_io_cmd : IoCommand → St Namespace (Bool × Option Served)
  unfolding conv_write conv_read conv_flush
  conv_proc_nvme_io_cmd (cmd_write q) = do
    r ← conv_write m pq q
    return (elim r [ none ↦ (false, none) | some v ↦ (true, some v) ])
  conv_proc_nvme_io_cmd (cmd_read q) = do
    r ← conv_read m q
    return (elim r [ none ↦ (false, none) | some v ↦ (true, some v) ])
  conv_proc_nvme_io_cmd (cmd_flush start) = do r ← conv_flush start; return (true, r)
  conv_proc_nvme_io_cmd cmd_other = return (true, none)
