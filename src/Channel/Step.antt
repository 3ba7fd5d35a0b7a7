-- ===== src/Channel/Step.antt =====
-- The state and the code of channel_model.c. `avail_credits` is an array of bytes.
use nvmevirt_slc_cache.Common.{
  ℕ, zero, suc, ◌+◌, ◌-◌, ◌*◌, ◌/◌, ◌%◌, Option, none, some, if◌then◌else◌, ltb, leb, ◌==◌, update,
  memset, u8, u32, u64, sub64, mb,
}

-- NR_CREDIT_ENTRIES, UNIT_TIME_INTERVAL (ns), UNIT_XFER_SIZE (bytes), UNIT_XFER_CREDITS
abbrev pub nr_credit_entries : ℕ
nr_credit_entries = 98304

abbrev pub unit_time_interval : ℕ
unit_time_interval = 4000

abbrev pub unit_xfer_size : ℕ
unit_xfer_size = 128

abbrev pub unit_xfer_credits : ℕ
unit_xfer_credits = 1

pub record ChannelModel : Type 0 where
  pub cur_time : ℕ
  pub head : ℕ
  pub valid_len : ℕ
  pub max_credits : ℕ
  pub command_credits : ℕ
  pub xfer_lat : ℕ
  pub avail_credits : ℕ → ℕ

-- BANDWIDTH_TO_TX_TIME and BANDWIDTH_TO_MAX_CREDITS, with NS_PER_SEC(1) = 10^9
abbrev pub bandwidth_to_tx_time : ℕ → ℕ
bandwidth_to_tx_time mb_s = unit_xfer_size * 1_000_000_000 / mb mb_s

abbrev pub bandwidth_to_max_credits : ℕ → ℕ
bandwidth_to_max_credits mb_s =
    mb mb_s * unit_time_interval / 1_000_000_000 / unit_xfer_size * unit_xfer_credits

-- `memset` of bytes stores the low byte of the value.
unfoldable pub chmodel_init : ℕ → ChannelModel
chmodel_init bandwidth = record {
  cur_time = 0;
  head = 0;
  valid_len = 0;
  max_credits = u32 (bandwidth_to_max_credits bandwidth);
  command_credits = 0;
  xfer_lat = u32 (bandwidth_to_tx_time bandwidth);
  avail_credits = λ _. u8 (bandwidth_to_max_credits bandwidth);
}

-- How many entries the head has to move, which is at most `valid_len`.
unfoldable pub cur_time_offs : ChannelModel → ℕ → ℕ
cur_time_offs ch cur_time =
    let offs = u32 (sub64 (cur_time / unit_time_interval) (ch.cur_time / unit_time_interval)) in
    if ltb offs ch.valid_len then offs else ch.valid_len

-- The entries that lie in the past are filled again, in two pieces if the ring goes round.
unfoldable pub refill : ChannelModel → ℕ → ℕ → ℕ
refill ch offs =
    if leb nr_credit_entries (ch.head + offs)
    then memset (memset ch.avail_credits ch.head (u8 ch.max_credits) (nr_credit_entries - ch.head))
        0 (u8 ch.max_credits) (offs - (nr_credit_entries - ch.head))
    else memset ch.avail_credits ch.head (u8 ch.max_credits) offs

-- "Search current time index and move head to it"
unfoldable pub move_head : ChannelModel → ℕ → ChannelModel
unfolding cur_time_offs refill
move_head ch cur_time =
    let offs = cur_time_offs ch cur_time in
    record ch {
      avail_credits = refill ch offs;
      head = (ch.head + offs) % nr_credit_entries;
      cur_time = cur_time;
      valid_len = ch.valid_len - offs;
    }

-- What the `while (1)` loop leaves: the credits, the last entry, and the entries gone past.
pub record Consumed : Type 0 where
  pub avail : ℕ → ℕ
  pub pos : ℕ
  pub delay : ℕ

-- The `while (1)` loop, on fuel; it goes round the ring at most once.
unfoldable pub consume : ℕ → ℕ → (ℕ → ℕ) → ℕ → ℕ → ℕ → Option Consumed
consume zero head avail pos remaining delay = none
consume (suc fuel) head avail pos remaining delay =
    let consumed = if leb remaining (avail pos) then remaining else avail pos in
    let avail' = update avail pos (avail pos - consumed) in
    let left = remaining - consumed in
    let next_pos = (pos + 1) % nr_credit_entries in
    let rest = consume fuel head avail' next_pos left (u32 (delay + 1)) in
    let stop : Option Consumed = some (record { avail = avail'; pos = pos; delay = delay }) in
    if left == 0 then stop else if next_pos == head then stop else rest

abbrev pub valid_length : ℕ → ℕ → ℕ
valid_length head pos =
    if leb head pos then pos - head + 1 else nr_credit_entries - (head - pos - 1)

-- What follows the loop: the new state and `total_latency`.
unfoldable pub finish : ChannelModel → ℕ → ℕ → Consumed → ℕ × ChannelModel
finish ch units default_delay c =
    let len = valid_length ch.head c.pos in
    let delay = if ltb default_delay c.delay then c.delay - default_delay else 0 in
    (
      u64 (u32 (ch.xfer_lat * units) + delay * unit_time_interval),
      record ch {
        avail_credits = c.avail;
        valid_len = if ltb ch.valid_len len then len else ch.valid_len;
      },
    )

-- The part of `chmodel_request` that runs once the head is at the current time. A division by
-- zero stops the kernel.
unfoldable pub transfer : ChannelModel → ℕ → ℕ → Option (ℕ × ChannelModel)
unfolding consume finish
transfer ch request_time length =
    let offs = u32 (sub64 (request_time / unit_time_interval) (ch.cur_time / unit_time_interval)) in
    let pos = (ch.head + offs) % nr_credit_entries in
    let units = u32 (u64 (length + unit_xfer_size - 1) / unit_xfer_size) in
    let credits = u32 (units * unit_xfer_credits + ch.command_credits) in
    let spent = consume nr_credit_entries ch.head ch.avail_credits pos credits 0 in
    if leb nr_credit_entries offs
    then some (request_time, ch)
    else if ch.max_credits == 0
    then none
    else elim spent [
      | none ↦ none
      | some c ↦
          let (latency, ch') = finish ch units (credits / ch.max_credits) c in
          some (u64 (request_time + latency), ch')
    ]

-- `chmodel_request`; the clock is read once, at its start. `none` is the failed assertion.
unfoldable pub chmodel_request : ChannelModel → ℕ → ℕ → ℕ → Option (ℕ × ChannelModel)
unfolding move_head transfer
chmodel_request ch cur_time request_time length =
    let moved = move_head ch cur_time in
    if ltb nr_credit_entries moved.valid_len
    then none
    else if ltb request_time cur_time
    then some (request_time, moved)
    else transfer moved request_time length
