-- ===== src/Tests/Units.antt =====
-- A request on a drive of three units.
use nvmevirt_slc_cache.Common.{◌≤◌, ◌+◌, max, arith, Returns}
use nvmevirt_slc_cache.Simple.{UnitConfig, read_cost, schedule_io_units, schedule_flush}
use nvmevirt_slc_cache.Simple.Schedule.{Scheduled, schedule_io_units-Scheduled}

abbrev three_units : UnitConfig
three_units = record {
  nr_io_units = 3;
  io_unit_shift = 12;
  read_delay = 1;
  read_time = 30;
  read_trailing = 5;
  write_delay = 2;
  write_time = 40;
  write_trailing = 6;
}

schedule_io_units-Scheduled_example :
    Returns
      (λ r.
        Scheduled three_units (read_cost three_units) 16384 (max 100 7 + 1) r
        × (r.0 ≤ schedule_flush three_units r.1))
      (schedule_io_units 9 three_units (read_cost three_units) 16 16384 100 (λ i. 7))
schedule_io_units-Scheduled_example =
    schedule_io_units-Scheduled 9 three_units (read_cost three_units) 16 16384 100 (λ i. 7)
      (omega arith) (omega arith)
