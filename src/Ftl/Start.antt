-- ===== src/Ftl/Start.antt =====
-- Setting an instance up: `init_maptbl`, `init_rmap`, `init_write_flow_control`, `conv_init_params` and
-- `conv_init_ftl` of conv_ftl.c.
use nvmevirt_slc_cache.Common.{true, Option, none, some, if◌then◌else◌, u32, ◌>>◌}
use nvmevirt_slc_cache.Ppa.{unmapped_ppa, invalid_lpn}
use nvmevirt_slc_cache.Nand.{Ssd, Machine}
use nvmevirt_slc_cache.Ftl.State.{slc_mode, tlc_mode, user_io, gc_io, is_slc, ConvParams, ConvFtl}
use nvmevirt_slc_cache.Ftl.Lines.{init_lines}
use nvmevirt_slc_cache.Ftl.Advance.{prepare_write_pointer}

unfoldable pub init_maptbl : ConvFtl → ConvFtl
init_maptbl s = record s { maptbl = λ _. unmapped_ppa }

unfoldable pub init_rmap : ConvFtl → ConvFtl
init_rmap s = record s { rmap = λ _. invalid_lpn }

unfoldable pub init_write_flow_control : ConvFtl → ConvFtl
init_write_flow_control s =
    let n = if is_slc s.slc_mode then s.ssd.sp.pgs_per_line_slc else s.ssd.sp.pgs_per_line in
    record s { wfc = record { write_credits = u32 n; credits_to_refill = u32 n } }

unfoldable pub conv_init_params : ConvParams
conv_init_params = record {
  gc_thres_lines = 2;
  gc_thres_lines_high = 2;
  enable_gc_delay = true;
  mig_thres_lines = 2;
  mig_thres_lines_high = 2;
}

-- `old` is what the allocated memory holds before.
unfoldable pub conv_init_ftl : Machine → ConvFtl → ConvParams → Ssd → Option ConvFtl
unfolding init_maptbl init_rmap init_lines prepare_write_pointer init_write_flow_control
conv_init_ftl m old cp ssd =
    let mode = if m.config.enable_slc_cache then slc_mode else tlc_mode in
    let s = init_rmap (init_maptbl (record old { cp = cp; ssd = ssd; slc_mode = mode })) in
    elim (init_lines s) [
      | none ↦ none
      | some t ↦ elim ((prepare_write_pointer user_io >> prepare_write_pointer gc_io) t) [
        | none ↦ none
        | some (_, u) ↦ some (init_write_flow_control u)
      ]
    ]
