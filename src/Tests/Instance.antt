-- ===== src/Tests/Instance.antt =====
-- An instance of the translation layer on the small drive, with a plain list as its queue.
use nvmevirt_slc_cache.Common.{
  ℕ, ◌+◌, ◌*◌, refl, arith, true, some, none, [], ◌∷◌, ◌++◌, list_del, update,
}
use nvmevirt_slc_cache.Params.Geometry.{IsSlcGeometry}
use nvmevirt_slc_cache.Ppa.{unmapped_ppa, invalid_lpn}
use nvmevirt_slc_cache.Nand.{Machine, ssd_init}
use nvmevirt_slc_cache.Ftl.{slc_mode, tlc_mode, ConvFtl, ConvParams, LineMgmt, Pqueue}
use nvmevirt_slc_cache.Ftl.Consistency.{IsLaidOut}
use nvmevirt_slc_cache.Ftl.Queue.{KeepsCounts}
use nvmevirt_slc_cache.Ftl.Prepare.{both}
use nvmevirt_slc_cache.Ftl.Fresh.{Fresh, Fresh-IsLaidOut}
use nvmevirt_slc_cache.Tests.Params.{small, params}

abbrev pub machine : Machine
machine = record { config = small; cpu_clock = λ n. n * 100; ktime_get_ns = λ n. n * 1000 }

-- The lines in the order of insertion; the head is at position 1, as all are.
abbrev pub queue : Pqueue
queue = record {
  insert = λ cb q a i. (q ++ (i ∷ []), update a i (cb.setpos (a i) 1));
  change_priority = λ cb q a pri i. (q, update a i (cb.setpri (a i) pri));
  remove = λ cb q a i. (list_del i q, a);
  pop = λ cb q a. (elim q [ [] ↦ [] | i ∷ rest ↦ rest ], a);
  peek = λ cb q a. elim q [ [] ↦ none | i ∷ rest ↦ some i ];
}

pub queue-KeepsCounts : KeepsCounts queue
queue-KeepsCounts = record {
  insert_ipc = λ q a i j. ground arith;
  insert_vpc = λ q a i j. ground arith;
  insert_id = λ q a i j. ground arith;
  change_ipc = λ q a pri i j. ground arith;
  change_vpc = λ q a pri i j. ground arith;
}

pub small-IsSlcGeometry : IsSlcGeometry params
small-IsSlcGeometry = record {
  lines_split = refl;
  lines_are_blocks = refl;
  plane = refl;
  die = refl;
  channel = refl;
  drive = refl;
  line = refl;
  line_slc = refl;
  block = refl;
  block_slc = refl;
}

-- Two lines of an area.
abbrev two_lines : ℕ → LineMgmt
two_lines offset = record {
  lines = λ i. record { id = i + offset; ipc = 0; vpc = 0; pos = 0; mtime = 0 };
  free_line_list = 1 ∷ [];
  victim_line_pq = [];
  full_line_list = [];
  tt_lines = 2;
  free_line_cnt = 1;
  victim_line_cnt = 0;
  full_line_cnt = 0;
}

abbrev pub conv_params : ConvParams
conv_params = record {
  gc_thres_lines = 2;
  gc_thres_lines_high = 2;
  enable_gc_delay = true;
  mig_thres_lines = 2;
  mig_thres_lines_high = 2;
}

-- An instance as it starts.
abbrev pub ftl : ConvFtl
ftl = record {
  ssd = ssd_init params;
  cp = conv_params;
  maptbl = λ _. unmapped_ppa;
  rmap = λ _. invalid_lpn;
  wp = record {
    curline = record { area = slc_mode; idx = 0 };
    ch = 0;
    lun = 0;
    pg = 0;
    blk = 0;
    pl = 0;
  };
  gc_wp = record {
    curline = record { area = tlc_mode; idx = 0 };
    ch = 0;
    lun = 0;
    pg = 0;
    blk = 2;
    pl = 0;
  };
  lm = two_lines 2;
  slm = two_lines 0;
  wfc = record { write_credits = 4; credits_to_refill = 4 };
  gc_cnt = 0;
  copy_cnt = 0;
  age_cnt = λ _. 0;
  slc_mode = slc_mode;
  dyn_slc_mode = tlc_mode;
}

pub ftl-Fresh : Fresh params ftl
ftl-Fresh = record {
  flash = refl;
  cached = refl;
  cache_lines = refl;
  no_valid = both _ (λ _. refl) (λ _. refl);
  no_invalid = both _ (λ _. refl) (λ _. refl);
  unmapped = λ l. refl;
}

pub ftl-IsLaidOut : IsLaidOut ftl
ftl-IsLaidOut = Fresh-IsLaidOut params ftl small-IsSlcGeometry refl ftl-Fresh
