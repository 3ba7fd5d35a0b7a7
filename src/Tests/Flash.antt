-- ===== src/Tests/Flash.antt =====
-- The bandwidth model, the flash commands, and the write buffer.
use nvmevirt_slc_cache.Common.{
  ◌+◌, ◌-◌, ◌≡◌, ◌≤◌, ◌<◌, ◌⊎◌, refl, arith, true, false, some, Returns, kb,
}
use nvmevirt_slc_cache.Channel.{chmodel_init, chmodel_request}
use nvmevirt_slc_cache.Channel.Invariant.{
  IsValid, Requested, chmodel_init-IsValid, chmodel_request-Requested,
}
use nvmevirt_slc_cache.Ppa.{get_cell, mapped_ppa}
use nvmevirt_slc_cache.Nand.{
  Buffer, NandCmd, nand_write, ssd_init, ssd_advance_nand, read_latency, write_latency,
  erase_latency, get_lun,
}
use nvmevirt_slc_cache.Nand.WriteBuffer.{
  buffer_allocate, buffer_release, buffer_allocate_cases, buffer_release-allocate,
}
use nvmevirt_slc_cache.Nand.Timing.{ModelsValid}
use nvmevirt_slc_cache.Nand.Command.{Advanced, Fits, ssd_advance_nand-Advanced}
use nvmevirt_slc_cache.Tests.Params.{params}
use nvmevirt_slc_cache.Tests.Instance.{machine}

chmodel_init-IsValid_example : IsValid (chmodel_init 800)
chmodel_init-IsValid_example = chmodel_init-IsValid 800 (omega arith) (omega arith)

nand_channel-IsValid : IsValid (chmodel_init 800)
nand_channel-IsValid = chmodel_init-IsValid 800 (omega arith) (omega arith)

-- A page of 4 KB, requested 500 ns from now.
chmodel_request-Requested_example :
    Returns (Requested 1500) (chmodel_request (chmodel_init 800) 1000 1500 4096)
chmodel_request-Requested_example =
    chmodel_request-Requested (chmodel_init 800) 1000 1500 4096 nand_channel-IsValid

-- The write of a TLC wordline to a block behind the cache.
abbrev program : NandCmd
program = record {
  cmd = nand_write;
  xfer_size = kb 12;
  stime = 1000;
  interleave_pci_dma = false;
  ppa = record { pg = 2; blk = 3; pl = 0; lun = 0; ch = 1; rsv = 0 };
}

pub fresh-ModelsValid : ModelsValid (ssd_init params)
unfolding ssd_init
fresh-ModelsValid = record {
  channels = λ i. record {
    head_in = omega arith;
    valid_len_in = omega arith;
    credits_positive = omega arith;
    credits_byte = omega arith;
    credits_in = λ _. omega arith;
  };
  link = record {
    head_in = omega arith;
    valid_len_in = omega arith;
    credits_positive = omega arith;
    credits_byte = omega arith;
    credits_in = λ _. omega arith;
  };
}

program-Fits : Fits machine (ssd_init params) program 1000
unfolding ssd_init get_lun read_latency write_latency erase_latency get_cell
program-Fits = record {
  start_fits = omega arith;
  avail_fits = omega arith;
  read_fits = omega arith;
  write_fits = omega arith;
  erase_fits = omega arith;
  xfer_fits = omega arith;
  chunk = omega arith;
}

program-mapped : mapped_ppa program.ppa ≡ true
unfolding mapped_ppa
program-mapped = refl

ssd_advance_nand-Advanced_example :
    Returns
      (Advanced (ssd_init params) program 1000)
      (ssd_advance_nand machine program (ssd_init params))
ssd_advance_nand-Advanced_example =
    ssd_advance_nand-Advanced machine program (ssd_init params) (λ n e. cc) (omega arith)
      (omega arith) program-mapped fresh-ModelsValid program-Fits

abbrev buffer : Buffer
buffer = record { size = 100; remaining = 60 }

buffer_allocate_cases_example :
    ((40 ≤ 60) × (buffer_allocate 40 buffer ≡ some (40, record buffer { remaining = 60 - 40 })))
    ⊎ ((60 < 40) × (buffer_allocate 40 buffer ≡ some (0, buffer)))
buffer_allocate_cases_example = buffer_allocate_cases 40 buffer (omega arith) (omega arith)

taken : buffer_allocate 40 buffer ≡ some (40, record { size = 100; remaining = 20 })
unfolding buffer_allocate
taken = refl

buffer_release-allocate_example :
    (buffer_release 40 (record { size = 100; remaining = 20 }) ≡ buffer) × (20 + 40 ≡ 60)
buffer_release-allocate_example =
    buffer_release-allocate 40 buffer (omega arith) (omega arith) (omega arith) taken
