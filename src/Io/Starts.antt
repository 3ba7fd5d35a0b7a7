-- ===== src/Io/Starts.antt =====
-- A worker as `NVMEV_IO_WORKER_INIT` leaves it.
use nvmevirt_slc_cache.Common.{
  ℕ, zero, suc, ◌≡◌, ◌≢◌, ◌≤◌, ◌<◌, ◌+◌, refl, sym, ap, ◌∙◌, List, [], ◌∷◌, arith, length,
}
use nvmevirt_slc_cache.Io.{IoWork, nr_max_parallel_io, nil, init_worker}
use nvmevirt_slc_cache.Io.Chains.{All, All-mono, Distinct, Fwd}
use nvmevirt_slc_cache.Io.Places.{Within}
use nvmevirt_slc_cache.Io.Workers.{IsWorker}

-- The numbers from `i` on, `n` of them.
unfoldable pub numbers : ℕ → ℕ → List ℕ
numbers i zero = []
numbers i (suc n) = i ∷ numbers (i + 1) n

length-numbers : (i n : ℕ) → length (numbers i n) ≡ n
unfolding numbers
length-numbers i zero = refl
length-numbers i (suc n) = omega (arith, length-numbers (i + 1) n)

numbers_from : (i n : ℕ) → All (λ x. (i ≤ x) × (x < i + n)) (numbers i n)
unfolding numbers
numbers_from i zero = tt
numbers_from i (suc n) = (
  omega arith,
  All-mono (λ x. (i + 1 ≤ x) × (x < i + 1 + n)) (λ x. (i ≤ x) × (x < i + suc n))
      (λ x h. omega (arith, h)) (numbers (i + 1) n) (numbers_from (i + 1) n),
)

numbers-Distinct : (i n : ℕ) → Distinct (numbers i n)
unfolding numbers
numbers-Distinct i zero = tt
numbers-Distinct i (suc n) = (
  All-mono (λ x. (i + 1 ≤ x) × (x < i + 1 + n)) (λ x. x ≢ i) (λ x h e. omega (arith, h, e))
      (numbers (i + 1) n) (numbers_from (i + 1) n),
  numbers-Distinct (i + 1) n,
)

-- Entries that each name the next number, up to the last.
numbers-Fwd :
    (q : ℕ → IoWork) (p i n last : ℕ)
    → ((x : ℕ) → x < last → (q x).next ≡ x + 1)
    → (q last).next ≡ nil
    → i + n ≡ last
    → Fwd q p i (numbers i (suc n)) last nil
unfolding numbers
numbers-Fwd q p i zero last h e k =
    let j : last ≡ i = omega (arith, k) in (refl, (ap (λ (y : ℕ). (q y).next) (sym j) ∙ e, j))
numbers-Fwd q p i (suc n) last h e k =
    (refl, rw (h i (omega (arith, k))) (numbers-Fwd q i (i + 1) n last h e (omega (arith, k))))

-- A worker as `NVMEV_IO_WORKER_INIT` leaves it is in order, with no entry in flight and every
-- entry free.
pub init_worker-IsWorker :
    (zeroed : IoWork) → IsWorker (init_worker zeroed) [] (numbers 0 nr_max_parallel_io)
unfolding init_worker
init_worker-IsWorker zeroed = record {
  queued = refl;
  freed =
      numbers-Fwd (init_worker zeroed).work_queue nil 0 16383 16383 (λ x h. ground arith) refl refl;
  some_free = omega (arith, length-numbers 0 nr_max_parallel_io);
  distinct = numbers-Distinct 0 nr_max_parallel_io;
  within =
      All-mono (λ x. (0 ≤ x) × (x < 0 + nr_max_parallel_io)) Within (λ x h. omega (arith, h))
        (numbers 0 nr_max_parallel_io) (numbers_from 0 nr_max_parallel_io);
  entries = omega (arith, length-numbers 0 nr_max_parallel_io);
  ordered = tt;
}
