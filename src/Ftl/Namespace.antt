-- ===== src/Ftl/Namespace.antt =====
-- A namespace of several instances, the requests it takes, and `conv_init_namespace` of conv_ftl.c.
use nvmevirt_slc_cache.Common.{
  ℕ, zero, suc, ◌+◌, ◌-◌, ◌*◌, ◌/◌, ◌^◌, Bool, Option, none, some, List, [], if◌then◌else◌, update,
  u64, St,
}
use nvmevirt_slc_cache.Channel.{ChannelModel}
use nvmevirt_slc_cache.Params.{SsdParams}
use nvmevirt_slc_cache.Params.Init.{ssd_init_params, ssd_init_params_slc}
use nvmevirt_slc_cache.Nand.{Buffer, Release, Machine, ssd_init}
use nvmevirt_slc_cache.Ftl.State.{ConvFtl, ConvParams}
use nvmevirt_slc_cache.Ftl.Start.{conv_init_params, conv_init_ftl}

-- What the instances share: the PCIe link and the write buffer are one for all (the others' are
-- freed), and so are the clocks and the I/O workers' queue.
pub record Shared : Type 0 where
  pub pcie : ChannelModel
  pub write_buffer : Buffer
  pub reads : ℕ
  pub scheduled : List Release

-- `struct nvmev_ns` with its instances.
pub record Namespace : Type 0 where
  pub nr_parts : ℕ
  pub ftls : ℕ → ConvFtl
  pub shared : Shared
  pub size : ℕ

-- An operation of instance `i`, which sees the shared parts through its own pointers.
unfoldable pub on_ftl : {A : Type 0} → ℕ → St ConvFtl A → St Namespace A
on_ftl i op ns =
    let f = ns.ftls i in
    let s = ns.shared in
    let ssd = record (f.ssd) {
      pcie = s.pcie;
      write_buffer = s.write_buffer;
      reads = s.reads;
      scheduled = s.scheduled;
    } in
    elim (op (record f { ssd = ssd })) [
      | none ↦ none
      | some (a, g) ↦ some (
        a,
        record ns {
          ftls = update ns.ftls i g;
          shared = record {
            pcie = g.ssd.pcie;
            write_buffer = g.ssd.write_buffer;
            reads = g.ssd.reads;
            scheduled = g.ssd.scheduled;
          };
        },
      )
    ]

-- `struct nvme_rw_command` as far as it is read, with the submission queue and the start time of the
-- request; `length` counts blocks less one.
pub record RwRequest : Type 0 where
  pub slba : ℕ
  pub length : ℕ
  pub fua : Bool
  pub sq_id : ℕ
  pub nsecs_start : ℕ

-- `struct nvmev_result`; the status is always NVME_SC_SUCCESS, and `none` in the handlers' results
-- is their result false.
pub record Served : Type 0 where
  pub nsecs_target : ℕ

-- `cmd->length` blocks in bytes, and the first and last logical page of a request.
abbrev pub nr_lba : RwRequest → ℕ
nr_lba q = q.length + 1

abbrev pub start_lpn : SsdParams → RwRequest → ℕ
start_lpn spp q = q.slba / spp.secs_per_pg

abbrev pub end_lpn : SsdParams → RwRequest → ℕ
end_lpn spp q = u64 (q.slba + nr_lba q - 1) / spp.secs_per_pg

-- `LBA_TO_BYTE`
abbrev pub lba_to_byte : Machine → ℕ → ℕ
lba_to_byte m n = n * 2 ^ m.config.lba_bits

module _ (m : Machine) where
  -- The instances, one after another; every `kmalloc` is given what it holds by `old`.
  unfoldable pub init_ftls : ConvFtl → ConvParams → SsdParams → ℕ → Option (ℕ → ConvFtl)
  unfolding ssd_init conv_init_ftl
  init_ftls old cp spp zero = some (λ _. old)
  init_ftls old cp spp (suc n) = elim (init_ftls old cp spp n) [
    | none ↦ none
    | some ftls ↦ elim (conv_init_ftl m old cp (ssd_init spp)) [
      | none ↦ none
      | some f ↦ some (update ftls n f)
    ]
  ]

  unfoldable pub conv_init_namespace : ConvFtl → SsdParams → ℕ → Option Namespace
  unfolding ssd_init_params ssd_init_params_slc conv_init_params init_ftls
  conv_init_namespace old junk size =
      let cfg = m.config in
      let n = cfg.ssd_partitions in
      let params =
        if cfg.enable_slc_cache
        then ssd_init_params_slc cfg junk size n
        else ssd_init_params cfg junk size n in
      elim params [
        | none ↦ none
        | some spp ↦ elim (init_ftls old conv_init_params spp n) [
          | none ↦ none
          | some ftls ↦ some (record {
            nr_parts = n;
            ftls = ftls;
            shared = record {
              pcie = (ftls 0).ssd.pcie;
              write_buffer = (ftls 0).ssd.write_buffer;
              reads = 0;
              scheduled = [];
            };
            size = u64 (size * 100) / cfg.pba_pcent;
          })
        ]
      ]
