-- ===== src/Worker/Gpu/Rendezvous/Examples.antt =====
-- Two ranks: rank 0, which finds the other's mark at the second attempt, and rank 1.
use distributed_softmax.Prelude.{
  ℕ, zero, suc, ◌≤◌, ◌<◌, ◌≡◌, refl, Option, none, some, List, [], ◌∷◌, inr, length, ok, arith,
  replicate,
}
use distributed_softmax.Text.{Bytes, bytes, to_decimal, to_decimal_loop, beq}
use distributed_softmax.Text.Utf8.{is_utf8}
use distributed_softmax.Redis.Memory.{memory, memory-IsStore}
use distributed_softmax.Worker.Gpu.Rendezvous.{
  nccl_uid_key, ready_key, nccl_rendezvous, obtain_id, publish_id, peer_id, wait_uid, join,
  wait_ready, count_ready, check_id,
}
use distributed_softmax.Worker.Gpu.Rendezvous.Barrier.{AllMarked, FirstFound, IsMarked}
use distributed_softmax.Worker.Gpu.Rendezvous.Meets.{IsSource, IsWritten, nccl_rendezvous_ok}
use distributed_softmax.Worker.Gpu.Rendezvous.Returns.{nccl_rendezvous_total}

abbrev uid : Bytes
uid = replicate 128 7

abbrev marked : List ℕ → memory.State
marked [] = ([], [])
marked (r ∷ rs) = ((ready_key r, bytes "1", none) ∷ (marked rs).0, [])

abbrev with_uid : ℕ → memory.State
with_uid zero = ([], [])
with_uid (suc k) = ((nccl_uid_key, uid, none) ∷ [], [])

abbrev second_later : ℕ → ℕ → memory.State
second_later zero r = marked (0 ∷ [])
second_later (suc k) r = marked (0 ∷ 1 ∷ [])

abbrev idle : memory.State → memory.State
idle s = s

both_marked : AllMarked memory 2 1 second_later
unfolding ready_key to_decimal to_decimal_loop beq is_utf8
both_marked = (1, omega arith, marks)
  where
    marks : (r : ℕ) → r < 2 → IsMarked memory (second_later 1) r
    marks zero h = (bytes "1", refl)
    marks (suc zero) h = (bytes "1", refl)
    marks (suc (suc r)) h = absurd (omega arith)

uid_found_second : FirstFound memory with_uid 0 1 uid
unfolding beq
uid_found_second = (omega arith, omega arith, refl, before)
  where
    before : (k : ℕ) → 0 ≤ k → k < 1 → memory.get (with_uid k) nccl_uid_key ≡ inr none
    before zero low high = refl
    before (suc k) low high = absurd (omega arith)

abbrev after : memory.State
after = (nccl_rendezvous memory 2 1 (inr uid) idle with_uid second_later ([], [])).1

rank_one_returns :
    nccl_rendezvous memory 2 1 (inr uid) idle with_uid second_later ([], []) ≡ (ok uid, after)
unfolding nccl_rendezvous obtain_id publish_id peer_id wait_uid join wait_ready count_ready check_id
    ready_key to_decimal to_decimal_loop beq is_utf8
rank_one_returns = refl

nccl_rendezvous_ok_example :
    (length uid ≡ 128)
    × IsSource memory 2 1 (inr uid) idle with_uid second_later uid
    × AllMarked memory 2 1 second_later
    × ((t : memory.State) × IsWritten memory 2 1 (inr uid) idle with_uid second_later uid ([], []) t
        × (memory.set_ex (ready_key 1) (bytes "1") 60 (idle t) ≡ (inr tt, after)))
    × (memory.get after (ready_key 1) ≡ inr (some (bytes "1")))
nccl_rendezvous_ok_example =
    nccl_rendezvous_ok memory 2 1 (inr uid) idle with_uid second_later memory-IsStore uid ([], [])
      after rank_one_returns

answers_of :
    (k r : ℕ)
    → r < 2
    → (o : Option Bytes) × (memory.get_string (second_later k r) (ready_key r) ≡ inr o)
unfolding ready_key to_decimal to_decimal_loop beq is_utf8
answers_of zero zero h = (some (bytes "1"), refl)
answers_of zero (suc zero) h = (none, refl)
answers_of (suc k) zero h = (some (bytes "1"), refl)
answers_of (suc k) (suc zero) h = (some (bytes "1"), refl)
answers_of k (suc (suc r)) h = absurd (omega arith)

nccl_rendezvous_total_example :
    (s' : memory.State) × (nccl_rendezvous memory 2 1 (inr uid) idle with_uid second_later ([], [])
      ≡ (ok uid, s'))
nccl_rendezvous_total_example =
    nccl_rendezvous_total memory 2 1 (inr uid) idle with_uid second_later (λ k v t s. (_, refl)) uid
      ([], []) (inr ((λ e. omega arith), (1, uid_found_second))) refl answers_of both_marked
