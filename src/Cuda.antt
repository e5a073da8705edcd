-- ===== src/Cuda.antt =====
-- The CUDA devices as cudarc shows them to the two Rust programs: the calls of the driver, which may
-- fail, the order in which a device runs the threads of a launch, and what the kernels of
-- worker-rs/kernels/partial_softmax.cu and gateway-rs/kernels/aggregate_softmax.cu have in common.
pub mod Writes
pub mod Reduction
pub mod Grid
pub mod Backwards
use distributed_softmax.Prelude.{
  ℕ, zero, suc, ◌+◌, ◌-◌, ◌/◌, ◌%◌, ◌^◌, ◌<◌, ◌*◌, ◌≡◌, ◌⊎◌, Option, none, some, List, [], ◌∷◌,
  Bool, true, false, ltb, ◌==◌, if◌then◌else◌, set, Outcome, from_sum,
}
use distributed_softmax.Text.{Bytes}

pub data Kernel : Type 0 where
  block_max_f32 : Kernel
  exp_and_block_sum_f32 : Kernel
  normalize_f32 : Kernel
  aggregate_normalize : Kernel

-- The calls, each with the buffer that it is for, by the name of the source.
pub data Call : Type 0 where
  new_context : (device : ℕ) → Call
  compile_ptx : Call
  new_stream : Call
  load_module : Call
  load_function : Kernel → Call
  clone_htod : Bytes → Call
  alloc_zeros : Bytes → Call
  launch : Kernel → Call
  memcpy_dtoh : Bytes → Call
  synchronize : Bytes → Call

abbrev pub Driver : Type 0
Driver = Call → Bytes ⊎ Unit {0}

-- A call of the driver, with `?`.
abbrev pub run : Driver → Call → Outcome Bytes (Unit {0})
run driver c = from_sum (driver c)

-- BLOCK_SIZE, which gpu_worker.rs and partial_softmax.cu both define.
abbrev pub block_size : ℕ
block_size = 256

-- ((n as u32) + BLOCK_SIZE - 1) / BLOCK_SIZE
unfoldable pub num_blocks : ℕ → ℕ
num_blocks n = ((n % 2 ^ 32 + block_size - 1) % 2 ^ 32) / block_size

-- In which order a launch runs what it does not order itself: the threads of a block between two
-- barriers, for each value of the loop's stride, the blocks as they store their result, and the
-- threads of the grid as they store theirs.
pub record Schedule : Type 0 where
  pub threads : (block stride : ℕ) → List ℕ
  pub blocks : List ℕ
  pub ids : List ℕ

abbrev pub count : ℕ → List ℕ → ℕ
count t [] = 0
count t (i ∷ is) = let rest = count t is in if t == i then suc rest else rest

-- Every thread has its turn once between two barriers, and every thread and block of the grid stores.
pub record IsComplete (blocks : ℕ) (S : Schedule) : Type 0 where
  pub threads_once : (b s t : ℕ) → t < block_size → count t (S.threads b s) ≡ 1
  pub blocks_run : (b : ℕ) → b < blocks → 0 < count b S.blocks
  pub ids_run : (i : ℕ) → i < blocks * block_size → 0 < count i S.ids

module _ {ℓ} {A : Type ℓ} where
  -- Threads or blocks that store a value, or none, at their own place in a buffer of the device.
  unfoldable pub write_all : (ℕ → Option A) → List ℕ → List A → List A
  write_all value [] out = out
  write_all value (i ∷ is) out =
      write_all value is (elim (value i) [ none ↦ out | some v ↦ set out i v ])

  -- `sdata[tid] = v`
  abbrev pub write : (ℕ → A) → ℕ → A → ℕ → A
  write sdata t v j = if j == t then v else sdata j

  module _ (op : A → A → A) where
    -- `if (tid < s) sdata[tid] = op(sdata[tid], sdata[tid + s]);`
    unfoldable pub thread_step : (s tid : ℕ) → (ℕ → A) → ℕ → A
    thread_step s tid sdata =
        if ltb tid s then write sdata tid (op (sdata tid) (sdata (tid + s))) else sdata

    -- The threads of a block, up to the barrier.
    unfoldable pub round : (s : ℕ) → List ℕ → (ℕ → A) → ℕ → A
    round s [] sdata = sdata
    round s (tid ∷ tids) sdata = round s tids (thread_step s tid sdata)

    -- `for (int s = ...; s > 0; s >>= 1)`: `none` where the fuel is used up.
    unfoldable pub reduce_loop : (order : ℕ → List ℕ) (fuel s : ℕ) → (ℕ → A) → Option (ℕ → A)
    reduce_loop order zero s sdata = none
    reduce_loop order (suc fuel) s sdata = elim (ltb 0 s) [
      | true ↦ reduce_loop order fuel (s / 2) (round s (order s) sdata)
      | false ↦ some sdata
    ]

    -- `s` begins at BLOCK_SIZE >> 1; thread 0 then has the block's result.
    unfoldable pub reduce_block : (order : ℕ → List ℕ) → (ℕ → A) → Option A
    reduce_block order sdata = elim (reduce_loop order 9 (block_size / 2) sdata) [
      | none ↦ none
      | some result ↦ some (result 0)
    ]
