-- ===== src/Simple.antt =====
-- simple_ftl.c: a drive without a translation layer, whose units each have a time from which they are
-- free.
pub mod Schedule
use nvmevirt_slc_cache.Common.{
  ℕ, zero, suc, ◌+◌, ◌-◌, ◌*◌, ◌/◌, ◌%◌, ◌^◌, Bool, true, Option, none, some, leb, ltb, ◌==◌, min,
  max, if◌then◌else◌, update, u32, u64,
}

-- The part of `struct nvmev_config` on the units; the times are in nanoseconds.
pub record UnitConfig : Type 0 where
  pub nr_io_units : ℕ
  pub io_unit_shift : ℕ
  pub read_delay : ℕ
  pub read_time : ℕ
  pub read_trailing : ℕ
  pub write_delay : ℕ
  pub write_time : ℕ
  pub write_trailing : ℕ

-- The times that apply to an opcode.
pub record Cost : Type 0 where
  pub delay : ℕ
  pub latency : ℕ
  pub trailing : ℕ

abbrev pub read_cost : UnitConfig → Cost
read_cost c = record { delay = c.read_delay; latency = c.read_time; trailing = c.read_trailing }

abbrev pub write_cost : UnitConfig → Cost
write_cost c = record { delay = c.write_delay; latency = c.write_time; trailing = c.write_trailing }

abbrev pub next_unit : UnitConfig → ℕ → ℕ
next_unit c unit = if leb c.nr_io_units (unit + 1) then 0 else unit + 1

-- `do ... while (length > 0)`, on fuel: the time of completion and the times of the units. `left` is
-- `nr_io_units`, which the code lets go below 0.
unfoldable pub serve_units : ℕ → UnitConfig → Cost → ℕ → ℕ → ℕ → ℕ → (ℕ → ℕ) → Option (ℕ × (ℕ → ℕ))
serve_units zero c k unit left length latest stat = none
serve_units (suc fuel) c k unit left length latest stat =
    let t = u64 (latest + k.latency) in
    let s = update stat unit (if ltb 0 left then u64 (t + k.trailing) else t) in
    let remaining = length - min length (2 ^ c.io_unit_shift) in
    let rest = serve_units fuel c k (next_unit c unit) (left - 1) remaining t s in
    if ltb 0 remaining then rest else some (t, s)

-- `__schedule_io_units`; without units it divides by zero.
unfoldable pub schedule_io_units :
    ℕ → UnitConfig → Cost → ℕ → ℕ → ℕ → (ℕ → ℕ) → Option (ℕ × (ℕ → ℕ))
unfolding serve_units
schedule_io_units lba_bits c k lba length start stat =
    let size = 2 ^ c.io_unit_shift in
    let unit = lba / 2 ^ (c.io_unit_shift - lba_bits) % c.nr_io_units in
    let served =
      serve_units (length + 1) c k unit (min c.nr_io_units (u32 (length + size - 1) / size)) length
        (u64 (max start (stat unit) + k.delay)) stat in
    if c.nr_io_units == 0 then none else served

-- `__schedule_flush`, for the first `n` units.
unfoldable pub latest_of : ℕ → (ℕ → ℕ) → ℕ
latest_of zero stat = 0
latest_of (suc n) stat = max (latest_of n stat) (stat n)

unfoldable pub schedule_flush : UnitConfig → (ℕ → ℕ) → ℕ
unfolding latest_of
schedule_flush c stat = latest_of c.nr_io_units stat

-- The opcodes; the arguments of a read or a write are its first block and its length field.
pub data SimpleCommand : Type 0 where
  simple_write simple_read : ℕ → ℕ → SimpleCommand
  simple_flush simple_other : SimpleCommand

-- `__cmd_io_size`, as the `unsigned int` that it is passed as.
abbrev pub cmd_io_size : ℕ → ℕ → ℕ
cmd_io_size lba_bits length = u32 ((length + 1) * 2 ^ lba_bits)

-- `struct nvmev_ns`; its command set is that of blocks, or another.
pub record SimpleNamespace : Type 0 where
  pub id : ℕ
  pub is_nvm : Bool
  pub size : ℕ
  pub mapped : ℕ

-- `simple_init_namespace`
unfoldable pub simple_init_namespace : ℕ → ℕ → ℕ → SimpleNamespace
simple_init_namespace id size mapped = record {
  id = id;
  is_nvm = true;
  size = size;
  mapped = mapped;
}

-- `simple_proc_nvme_io_cmd`: the target of the result, which other commands leave as it was, and the
-- times of the units.
unfoldable pub simple_proc_nvme_io_cmd :
    ℕ → UnitConfig → SimpleNamespace → ℕ → SimpleCommand → ℕ → (ℕ → ℕ) → Option (ℕ × (ℕ → ℕ))
unfolding schedule_io_units schedule_flush
simple_proc_nvme_io_cmd lba_bits c ns now (simple_write slba length) target stat =
    if ns.is_nvm
    then schedule_io_units lba_bits c (write_cost c) slba (cmd_io_size lba_bits length) now stat
    else none
simple_proc_nvme_io_cmd lba_bits c ns now (simple_read slba length) target stat =
    if ns.is_nvm
    then schedule_io_units lba_bits c (read_cost c) slba (cmd_io_size lba_bits length) now stat
    else none
simple_proc_nvme_io_cmd lba_bits c ns now simple_flush target stat =
    if ns.is_nvm then some (schedule_flush c stat, stat) else none
simple_proc_nvme_io_cmd lba_bits c ns now simple_other target stat =
    if ns.is_nvm then some (target, stat) else none
