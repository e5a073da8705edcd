-- ===== src/Worker/Gpu/Rendezvous/Returns.antt =====
-- When a rank's rendezvous succeeds.
use distributed_softmax.Prelude.{
  ℕ, zero, suc, ◌+◌, ◌≤◌, ◌<◌, ◌≡◌, ◌≢◌, refl, sym, ap, ◌∙◌, Option, none, some, ◌⊎◌, inl, inr,
  length, ok, arith, eq_or_ne, ne→==_false, ==_of_eq, subst,
}
use distributed_softmax.Text.{Bytes, bytes}
use distributed_softmax.Redis.{Redis}
use distributed_softmax.Worker.Gpu.Rendezvous.{
  nccl_uid_key, nccl_uid_ttl, ready_key, attempts, wait_uid, peer_id, count_ready, wait_ready,
  publish_id, obtain_id, check_id, join, nccl_rendezvous,
}
use distributed_softmax.Worker.Gpu.Rendezvous.Barrier.{FirstFound, IsMarked, AllMarked, ok_eq}
use distributed_softmax.Worker.Gpu.Rendezvous.Meets.{IsSource}

module _ (R : Redis) where
  open R use {State}

  wait_uid_found :
      (found : ℕ → State) (left attempt k : ℕ) (id : Bytes)
      → attempt + left ≡ 200
      → FirstFound R found attempt k id
      → wait_uid R found left attempt ≡ ok (some id)
  unfolding wait_uid
  wait_uid_found found zero attempt k id e (after, below, here, before) = absurd (omega arith)
  wait_uid_found found (suc left) attempt k id e (after, below, here, before) =
      elim (eq_or_ne k attempt) [
        | inl same ↦
            rw (subst (λ i. R.get (found i) nccl_uid_key ≡ inr (some id)) same here, wait_uid) refl
        | inr other ↦
            rw (before attempt (omega arith) (omega arith), wait_uid)
              (wait_uid_found found left (suc attempt) k id (omega arith)
                (omega arith, below, here, λ j low high. before j (omega arith) high))
      ]

  -- The marks are read, whether they are there or not.
  abbrev pub Answers : (ℕ → State) → ℕ → Type 0
  Answers found r = (o : Option Bytes) × (R.get_string (found r) (ready_key r) ≡ inr o)

  count_ready_total :
      (found : ℕ → State) (left r ready : ℕ)
      → ((i : ℕ) → i < r + left → Answers found i)
      → (n : ℕ) × (count_ready R found left r ready ≡ ok n)
  unfolding count_ready
  count_ready_total found zero r ready answers = (ready, refl)
  count_ready_total found (suc left) r ready answers =
      let (o, p) = answers r (omega arith) in
      rw (p, count_ready)
        (count_ready_total found left (suc r) (elim o [ none ↦ ready | some flag ↦ suc ready ])
          (λ i h. answers i (omega arith)))

  count_ready_marked :
      (found : ℕ → State) (left r ready : ℕ)
      → ((i : ℕ) → i < r + left → IsMarked R found i)
      → count_ready R found left r ready ≡ ok (ready + left)
  unfolding count_ready
  count_ready_marked found zero r ready marked = ap (λ k. ok k) (omega arith)
  count_ready_marked found (suc left) r ready marked =
      let (flag, p) = marked r (omega arith) in
      rw (p, count_ready)
        (count_ready_marked found left (suc r) (suc ready) (λ i h. marked i (omega arith))
          ∙ ap (λ k. ok k) (omega arith))

  module _ (world_size rank : ℕ) where
    wait_ready_found :
        (found : ℕ → ℕ → State)
        → ((k r : ℕ) → r < world_size → Answers (found k) r)
        → (a : ℕ) → a < 200
        → ((r : ℕ) → r < world_size → IsMarked R (found a) r)
        → (left attempt : ℕ) → attempt + left ≡ 200
        → attempt ≤ a
        → wait_ready R world_size rank found left attempt ≡ ok tt
    unfolding wait_ready
    wait_ready_found found answers a few marked zero attempt e before = absurd (omega arith)
    wait_ready_found found answers a few marked (suc left) attempt e before =
        let (n, counted) =
          count_ready_total (found attempt) world_size 0 0
            (λ i h. answers attempt i (omega arith)) in
        elim (eq_or_ne n world_size) [
          | inl all ↦ rw (counted, ==_of_eq n world_size all, wait_ready) refl
          | inr short ↦
              let earlier : attempt ≢ a = λ same. short (
                ok_eq n world_size (
                  sym counted
                  ∙ ap (λ k. count_ready R (found k) world_size 0 0) same
                  ∙ count_ready_marked (found a) world_size 0 0 (λ i h. marked i (omega arith))
                  ∙ ap (λ k. ok k) (omega arith))) in
              rw
                (
                  counted,
                  ne→==_false n world_size short,
                  ne→==_false attempt 199 (λ last. earlier (omega arith)),
                  wait_ready,
                )
                (wait_ready_found found answers a few marked left (suc attempt) (omega arith)
                  (omega arith))
        ]

    module _ (new_id : Bytes ⊎ Bytes) (others : State → State) (uid_found : ℕ → State)
        (ready_found : ℕ → ℕ → State)
        (writes : (k v : Bytes) (t : ℕ) (s : State)
          → (s' : State) × (R.set_ex k v t s ≡ (inr tt, s'))) where
      obtain_id_total :
          (id : Bytes) (s : State)
          → IsSource R world_size rank new_id others uid_found ready_found id
          → (t : State) × (obtain_id R world_size rank new_id others uid_found ready_found s
              ≡ (ok id, t))
      unfolding obtain_id publish_id peer_id
      obtain_id_total id s (inl (first, made)) =
          let (t, written) = writes nccl_uid_key id nccl_uid_ttl s in
          (t, rw (==_of_eq rank 0 first, made, written, obtain_id, publish_id) refl)
      obtain_id_total id s (inr (other, (k, found))) = (
        s,
        rw
            (
              ne→==_false rank 0 other,
              wait_uid_found uid_found attempts 0 k id (omega arith) found,
              obtain_id,
              peer_id,
            )
            refl,
      )

      join_total :
          (id : Bytes) (t : State)
          → length id ≡ 128
          → ((k r : ℕ) → r < world_size → Answers (ready_found k) r)
          → AllMarked R world_size rank ready_found
          → (s' : State) × (join R world_size rank new_id others uid_found ready_found id t
              ≡ (ok id, s'))
      unfolding join check_id
      join_total id t sized answers (a, few, marked) =
          let (s', written) = writes (ready_key rank) (bytes "1") nccl_uid_ttl (others t) in
          (
            s',
            rw
                (
                  written,
                  wait_ready_found ready_found answers a few marked attempts 0 (omega arith)
                      (omega arith),
                  ==_of_eq (length id) 128 sized,
                  join,
                  check_id,
                )
                refl,
          )

      -- With an id of 128 bytes, made by the rank as rank 0 or found by it within 200 attempts, and
      -- where some attempt of 200 finds the marks of all ranks, the rank returns that id from the
      -- rendezvous. Its writes succeed, and so do its reads of the marks, found or not.
      pub nccl_rendezvous_total :
          (id : Bytes) (s : State)
          → IsSource R world_size rank new_id others uid_found ready_found id
          → length id ≡ 128
          → ((k r : ℕ) → r < world_size → Answers (ready_found k) r)
          → AllMarked R world_size rank ready_found
          → (s' : State) × (nccl_rendezvous R world_size rank new_id others uid_found ready_found s
              ≡ (ok id, s'))
      unfolding nccl_rendezvous
      nccl_rendezvous_total id s source sized answers met =
          let (t, obtained) = obtain_id_total id s source in
          let (s', joined) = join_total id t sized answers met in
          (s', rw (obtained, nccl_rendezvous) joined)
