-- ===== src/Channel/Invariant.antt =====
-- The well-formedness of a channel model, and what a request does to it.
use nvmevirt_slc_cache.Common.{
  ℕ, zero, suc, ◌+◌, ◌-◌, ◌*◌, ◌/◌, ◌%◌, ◌^◌, ◌≤◌, ◌<◌, Option, none, some, arith, ltb, leb, ◌==◌,
  if◌then◌else◌, update, memset, u32, u64, sub64, Returns, Returns-if, Returns-mono,
}
use nvmevirt_slc_cache.Channel.Step.{
  ChannelModel, Consumed, nr_credit_entries, unit_time_interval, unit_xfer_size, unit_xfer_credits,
  bandwidth_to_max_credits, chmodel_init, cur_time_offs, refill, move_head, consume, finish,
  transfer, chmodel_request,
}

pub record IsValid (ch : ChannelModel) : Type 0 where
  pub head_in : ch.head < nr_credit_entries
  pub valid_len_in : ch.valid_len ≤ nr_credit_entries
  pub credits_positive : 0 < ch.max_credits
  pub credits_byte : ch.max_credits < 256
  pub credits_in : (i : ℕ) → ch.avail_credits i ≤ ch.max_credits

-- What the loop leaves: credits within their limit, an entry of the ring, a bounded delay.
pub record ConsumedIn (limit most : ℕ) (c : Consumed) : Type 0 where
  pub avail_in : (i : ℕ) → c.avail i ≤ limit
  pub pos_in : c.pos < nr_credit_entries
  pub delay_in : c.delay ≤ most

update_in :
    (avail : ℕ → ℕ) (limit pos v : ℕ)
    → ((i : ℕ) → avail i ≤ limit)
    → v ≤ limit
    → (i : ℕ) → update avail pos v i ≤ limit
update_in avail limit pos v h hv i = ground (arith, h i)

memset_in :
    (avail : ℕ → ℕ) (limit from count v : ℕ)
    → ((i : ℕ) → avail i ≤ limit)
    → v ≤ limit
    → (i : ℕ) → memset avail from v count i ≤ limit
memset_in avail limit from count v h hv i = ground (arith, h i)

-- The loop ends after at most one round: the fuel of one step for each entry up to `head` is enough.
pub consume-ConsumedIn :
    (fuel head : ℕ) (avail : ℕ → ℕ) (pos remaining delay limit : ℕ)
    → head < nr_credit_entries
    → pos < nr_credit_entries
    → (head + nr_credit_entries - 1 - pos) % nr_credit_entries < fuel
    → delay + fuel < 2 ^ 32
    → ((i : ℕ) → avail i ≤ limit)
    → Returns (ConsumedIn limit (delay + fuel)) (consume fuel head avail pos remaining delay)
unfolding consume
consume-ConsumedIn zero head avail pos remaining delay limit hh hp hf hd ha = absurd (omega arith)
consume-ConsumedIn (suc fuel) head avail pos remaining delay limit hh hp hf hd ha =
    Returns-if P (left == 0) _ _ (λ _. stop)
      λ _.
        Returns-if P (next_pos == head) _ _ (λ _. stop)
          λ e.
            Returns-mono (ConsumedIn limit (u32 (delay + 1) + fuel)) P
              (λ c h. record {
                avail_in = h.avail_in;
                pos_in = h.pos_in;
                delay_in = omega (arith, h.delay_in);
              })
              _
              (consume-ConsumedIn fuel head avail' next_pos left (u32 (delay + 1)) limit hh
                (omega arith) (ground arith) (omega arith) avail'_in)
  where
    P : Consumed → Type 0
    P = ConsumedIn limit (delay + suc fuel)

    consumed : ℕ
    consumed = if leb remaining (avail pos) then remaining else avail pos

    avail' : ℕ → ℕ
    avail' = update avail pos (avail pos - consumed)

    left : ℕ
    left = remaining - consumed

    next_pos : ℕ
    next_pos = (pos + 1) % nr_credit_entries

    avail'_in : (i : ℕ) → avail' i ≤ limit
    avail'_in = update_in avail limit pos (avail pos - consumed) ha (omega (arith, ha pos))

    stop : ConsumedIn limit (delay + suc fuel) (record { avail = avail'; pos = pos; delay = delay })
    stop = record { avail_in = avail'_in; pos_in = hp; delay_in = omega arith }

cur_time_offs-le : (ch : ChannelModel) (now : ℕ) → cur_time_offs ch now ≤ ch.valid_len
unfolding cur_time_offs
cur_time_offs-le ch now = ground arith

refill_in :
    (ch : ChannelModel) (offs : ℕ) → IsValid ch → (i : ℕ) → refill ch offs i ≤ ch.max_credits
unfolding refill
refill_in ch offs v i = ground (arith, v.credits_in i)

-- Moving the head to the current time keeps the model well formed.
pub move_head-IsValid : (ch : ChannelModel) (now : ℕ) → IsValid ch → IsValid (move_head ch now)
unfolding move_head
move_head-IsValid ch now v = record {
  head_in = omega arith;
  valid_len_in = omega (arith, v.valid_len_in);
  credits_positive = v.credits_positive;
  credits_byte = v.credits_byte;
  credits_in = refill_in ch (cur_time_offs ch now) v;
}

-- A completed request: a well-formed model, and a time not before the request.
pub record Requested (time : ℕ) (r : ℕ × ChannelModel) : Type 0 where
  pub valid : IsValid r.1
  pub not_before : time < 2 ^ 63 → time ≤ r.0
  pub not_late : time < 2 ^ 63 → r.0 ≤ time + 2 ^ 33

finish-IsValid :
    (ch : ChannelModel) (units default_delay : ℕ) (c : Consumed)
    → IsValid ch
    → ConsumedIn ch.max_credits nr_credit_entries c
    → IsValid (finish ch units default_delay c).1 × ((finish ch units default_delay c).0 ≤ 2 ^ 33)
unfolding finish
finish-IsValid ch units default_delay c v h = (
  record {
    head_in = v.head_in;
    valid_len_in = ground (arith, v.valid_len_in, v.head_in, h.pos_in);
    credits_positive = v.credits_positive;
    credits_byte = v.credits_byte;
    credits_in = h.avail_in;
  },
  ground (arith, h.delay_in),
)

transfer-Requested :
    (ch : ChannelModel) (time length : ℕ)
    → IsValid ch
    → Returns (Requested time) (transfer ch time length)
unfolding transfer
transfer-Requested ch time length v =
    Returns-if (Requested time) (leb nr_credit_entries offs) _ _
      (λ _. record { valid = v; not_before = λ h. omega arith; not_late = λ h. omega arith })
      λ _.
        Returns-if (Requested time) (ch.max_credits == 0) _ _
          (λ e. absurd (ground (arith, v.credits_positive)))
          λ _. done _ (
            consume-ConsumedIn nr_credit_entries ch.head ch.avail_credits pos credits 0
              ch.max_credits v.head_in (omega arith) (omega arith) (omega arith) v.credits_in)
  where
    offs : ℕ
    offs = u32 (sub64 (time / unit_time_interval) (ch.cur_time / unit_time_interval))

    pos : ℕ
    pos = (ch.head + offs) % nr_credit_entries

    units : ℕ
    units = u32 (u64 (length + unit_xfer_size - 1) / unit_xfer_size)

    credits : ℕ
    credits = u32 (units * unit_xfer_credits + ch.command_credits)

    done :
        (o : Option Consumed)
        → Returns (ConsumedIn ch.max_credits (0 + nr_credit_entries)) o
        → Returns (Requested time) (elim o [
          | none ↦ none
          | some c ↦
              let (latency, ch') = finish ch units (credits / ch.max_credits) c in
              some (u64 (time + latency), ch')
        ])
    done none h = h
    done (some c) h =
        let f = finish-IsValid ch units (credits / ch.max_credits) c v h in
        record {
          valid = f.0;
          not_before = λ t. omega (arith, f.1);
          not_late = λ t. omega (arith, f.1);
        }

-- For every request a well-formed channel model answers (its loop ends and its assertion holds),
-- stays well formed, and, for a request time below 2^63, completes not before the request and
-- less than nine seconds after it.
pub chmodel_request-Requested :
    (ch : ChannelModel) (now time length : ℕ)
    → IsValid ch
    → Returns (Requested time) (chmodel_request ch now time length)
unfolding chmodel_request
chmodel_request-Requested ch now time length v =
    Returns-if (Requested time) (ltb nr_credit_entries (move_head ch now).valid_len) _ _
      (λ e. absurd (ground (arith, (move_head-IsValid ch now v).valid_len_in)))
      λ _.
        Returns-if (Requested time) (ltb time now) _ _
          (λ _. record {
            valid = move_head-IsValid ch now v;
            not_before = λ h. omega arith;
            not_late = λ h. omega arith;
          })
          λ _. transfer-Requested (move_head ch now) time length (move_head-IsValid ch now v)

-- A model that starts with a bandwidth that gives 1 to 255 credits is well formed.
pub chmodel_init-IsValid :
    (bandwidth : ℕ)
    → 0 < bandwidth_to_max_credits bandwidth
    → bandwidth_to_max_credits bandwidth < 256
    → IsValid (chmodel_init bandwidth)
unfolding chmodel_init
chmodel_init-IsValid bandwidth p q = record {
  head_in = omega arith;
  valid_len_in = omega arith;
  credits_positive = omega arith;
  credits_byte = omega arith;
  credits_in = λ i. omega arith;
}
