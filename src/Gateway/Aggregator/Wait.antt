-- ===== src/Gateway/Aggregator/Wait.antt =====
-- gateway-rs/src/aggregator.rs: `wait_for_all_slices`, over any way to read a slice. Round `k` of the
-- loop finds what `read k i` says of slice `i`, and looks at the clock at `now k`.
pub mod Invariant
pub mod Pass
pub mod Result
pub mod Examples
use distributed_softmax.Prelude.{
  ℕ, zero, suc, ◌+◌, ◌-◌, ◌%◌, ◌^◌, Bool, true, false, Option, none, some, List, [], ◌∷◌, ◌++◌, leb,
  ◌==◌, if◌then◌else◌, get_elem?, set, replicate, Outcome, ok, err, panic, or_panic, ◌>>=◌,
}
use distributed_softmax.Text.{Bytes, bytes}

-- `stats`, `have` and `remaining`.
pub record Held (S : Type 0) : Type 0 where
  pub stats : List S
  pub have : List Bool
  pub remaining : ℕ

-- `a - b` on `usize`, which wraps in a release build.
abbrev pub sub_usize : ℕ → ℕ → ℕ
sub_usize a b = (a + 2 ^ 64 - b) % 2 ^ 64

abbrev pub timeout_message : Bytes → Bytes
timeout_message job_id = bytes "Timeout waiting for slices for job " ++ job_id

module _ {S : Type 0} where
  -- Nothing is held at first; `d` is `SliceStats::default()`.
  unfoldable pub none_held : S → ℕ → Held S
  none_held d total = record {
    stats = replicate total d;
    have = replicate total false;
    remaining = total;
  }

  -- `if let Ok(Some(s)) = … { stats[i] = s; have[i] = true; remaining -= 1; }`
  unfoldable pub keep_slice : Held S → ℕ → Outcome Bytes (Option S) → Outcome Bytes (Held S)
  keep_slice h i (ok (some s)) = or_panic (get_elem? h.stats i) >>= λ _. ok (record {
    stats = set h.stats i s;
    have = set h.have i true;
    remaining = sub_usize h.remaining 1;
  })
  keep_slice h i (ok none) = ok h
  keep_slice h i (err e) = ok h
  keep_slice h i panic = panic

module _ {S : Type 0} (read : ℕ → ℕ → Outcome Bytes (Option S)) where
  -- `for i in 0..total_slices`, with `left` slices to go.
  unfoldable pub read_pass : (round left i : ℕ) → Held S → Outcome Bytes (Held S)
  unfolding keep_slice
  read_pass round zero i h = ok h
  read_pass round (suc left) i h = do
    held ← or_panic (get_elem? h.have i)
    h' ← (if held then ok h else keep_slice h i (read round i))
    read_pass round left (i + 1) h'

  module _ (now : ℕ → ℕ) (job_id : Bytes) (total deadline : ℕ) where
    -- The loop, a unit of fuel to a round; `none` where the fuel is used up. After a round all slices
    -- are held, or the deadline has passed, or the next round follows.
    unfoldable pub wait_loop : (fuel round : ℕ) → Held S → Option (Outcome Bytes (List S))
    unfolding read_pass
    wait_loop zero round h = none
    wait_loop (suc fuel) round h = elim (read_pass round total 0 h) [
      | ok h' ↦
          let next = wait_loop fuel (round + 1) h' in
          if h'.remaining == 0
          then some (ok h'.stats)
          else if leb deadline (now round)
          then some (err (timeout_message job_id))
          else next
      | err e ↦ some (err e)
      | panic ↦ some panic
    ]

    -- `wait_for_all_slices`, from the first read to its result.
    unfoldable pub wait_for_all_slices : (fuel : ℕ) → S → Option (Outcome Bytes (List S))
    unfolding wait_loop none_held
    wait_for_all_slices fuel d = wait_loop fuel 0 (none_held d total)
