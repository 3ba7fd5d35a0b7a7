-- ===== src/Simple/Schedule.antt =====
-- The times of `__schedule_io_units` and `__schedule_flush`.
use nvmevirt_slc_cache.Common.{
  ℕ, zero, suc, ◌≡◌, ◌≤◌, ◌<◌, ◌+◌, ◌-◌, ◌*◌, ◌/◌, ◌%◌, ◌^◌, inl, inr, ◌⊎◌, refl, ap, Bool-cases,
  true, false, arith, ltb, ◌==◌, min, max, u64, Returns, Returns-if, Returns-mono,
}
use nvmevirt_slc_cache.Simple.{
  UnitConfig, Cost, next_unit, serve_units, schedule_io_units, latest_of, schedule_flush,
}

-- A request that is served: `rounds` units of it, each for the latency, after `latest`, and one of the
-- units is not free before it completes.
pub record Scheduled (c : UnitConfig) (k : Cost) (length latest : ℕ) (r : ℕ × (ℕ → ℕ))
    : Type 0 where
  pub rounds : ℕ
  pub completes : r.0 ≡ latest + rounds * k.latency
  pub enough : length ≤ rounds * 2 ^ c.io_unit_shift
  pub few : (rounds ≡ 1) ⊎ (rounds * 2 ^ c.io_unit_shift < length + 2 ^ c.io_unit_shift)
  pub unit : ℕ
  pub is_unit : unit < c.nr_io_units
  pub busy : r.0 ≤ r.1 unit

suc_mul : (a b : ℕ) → suc a * b ≡ b + a * b
suc_mul a b = omega arith

module _ (c : UnitConfig) (k : Cost) (units : 0 < c.nr_io_units)
    (size : 0 < 2 ^ c.io_unit_shift) where
  next_unit_bound : (unit : ℕ) → next_unit c unit < c.nr_io_units
  next_unit_bound unit = ground (arith, units)

  serve_units-Scheduled :
      (fuel unit left length latest : ℕ) (stat : ℕ → ℕ)
      → unit < c.nr_io_units
      → length < fuel
      → latest + fuel * k.latency + k.trailing < 2 ^ 64
      → Returns (Scheduled c k length latest) (serve_units fuel c k unit left length latest stat)
  unfolding serve_units
  serve_units-Scheduled zero unit left length latest stat u f b = absurd (omega arith)
  serve_units-Scheduled (suc fuel) unit left length latest stat u f b =
      Returns-if (Scheduled c k length latest) (ltb 0 remaining) _ _
        (λ h.
          Returns-mono (Scheduled c k remaining (latest + k.latency)) (Scheduled c k length latest)
            (λ r p. longer r p h) _
            (rw served (
              serve_units-Scheduled fuel (next_unit c unit) (left - 1) remaining
                (latest + k.latency) _ (next_unit_bound unit) (omega (arith, some_left h, f, size))
                (omega (arith, b)))))
        (λ h. record {
          rounds = 1;
          completes = omega (arith, served);
          enough = omega (arith, all_served h);
          few = inl refl;
          unit = unit;
          is_unit = u;
          busy = ground (arith, served, b);
        })
    where
      remaining : ℕ
      remaining = length - min length (2 ^ c.io_unit_shift)

      served : u64 (latest + k.latency) ≡ latest + k.latency
      served = omega (arith, b)

      some_left :
          ltb 0 remaining ≡ true → (length ≡ remaining + 2 ^ c.io_unit_shift) × (0 < remaining)
      some_left h = (ground (arith, h), ground (arith, h))

      all_served : ltb 0 remaining ≡ false → length ≤ 2 ^ c.io_unit_shift
      all_served h = ground (arith, h)

      longer :
          (r : ℕ × (ℕ → ℕ))
          → Scheduled c k remaining (latest + k.latency) r
          → ltb 0 remaining ≡ true
          → Scheduled c k length latest r
      longer r p h = record {
        rounds = suc p.rounds;
        completes = omega (arith, p.completes);
        enough = omega (arith, p.enough, some_left h);
        few = inr (elim p.few [
          | inl e ↦ omega (
            arith,
            ap (λ n. n * 2 ^ c.io_unit_shift) e,
            suc_mul p.rounds (2 ^ c.io_unit_shift),
            suc_mul 0 (2 ^ c.io_unit_shift),
            some_left h,
          )
          | inr l ↦ omega (arith, l, suc_mul p.rounds (2 ^ c.io_unit_shift), some_left h)
        ]);
        unit = p.unit;
        is_unit = p.is_unit;
        busy = p.busy;
      }

pub latest_of_bound : (n : ℕ) (stat : ℕ → ℕ) (i : ℕ) → i < n → stat i ≤ latest_of n stat
unfolding latest_of
latest_of_bound zero stat i h = absurd (omega arith)
latest_of_bound (suc n) stat i h = elim (Bool-cases (i == n)) [
  | inl e ↦ ground (arith, e)
  | inr e ↦ let l = latest_of_bound n stat i (ground (arith, e, h)) in ground (arith, l)
]

pow_pos : (n : ℕ) → 0 < 2 ^ n
pow_pos zero = omega arith
pow_pos (suc n) = omega (arith, pow_pos n)

-- The unit of a block.
abbrev pub unit_of : ℕ → UnitConfig → ℕ → ℕ
unit_of lba_bits c lba = lba / 2 ^ (c.io_unit_shift - lba_bits) % c.nr_io_units

-- On a drive of at least one unit, where no time of the request leaves 64 bits, a request of
-- `__schedule_io_units` returns. It completes at the later of its start and the time of its first
-- unit, plus the delay and the latency once for each piece of its length, of which there are as
-- many as units of bytes cover the length, at least one; and a flush right behind it completes no
-- earlier.
pub schedule_io_units-Scheduled :
    (lba_bits : ℕ) (c : UnitConfig) (k : Cost) (lba length start : ℕ) (stat : ℕ → ℕ)
    → 0 < c.nr_io_units
    → max start (stat (unit_of lba_bits c lba)) + k.delay + (length + 1) * k.latency + k.trailing
      < 2 ^ 64
    → Returns
        (λ r.
          Scheduled c k length (max start (stat (unit_of lba_bits c lba)) + k.delay) r
          × (r.0 ≤ schedule_flush c r.1))
        (schedule_io_units lba_bits c k lba length start stat)
unfolding schedule_io_units schedule_flush
schedule_io_units-Scheduled lba_bits c k lba length start stat units b =
    Returns-if P (c.nr_io_units == 0) _ _ (λ h. absurd (ground (arith, h, units)))
      λ _.
        Returns-mono (Scheduled c k length latest) P
          (λ r p. (p, omega (arith, p.busy, latest_of_bound c.nr_io_units r.1 p.unit p.is_unit))) _
          (rw fits (
            serve_units-Scheduled c k units (pow_pos c.io_unit_shift) (length + 1)
              (unit_of lba_bits c lba) _ length latest stat unit_bound (omega arith) b))
  where
    latest : ℕ
    latest = max start (stat (unit_of lba_bits c lba)) + k.delay

    P : ℕ × (ℕ → ℕ) → Type 0
    P r = Scheduled c k length latest r × (r.0 ≤ schedule_flush c r.1)

    fits : u64 latest ≡ latest
    fits = omega (arith, b)

    unit_bound : unit_of lba_bits c lba < c.nr_io_units
    unit_bound = omega (arith, units)
