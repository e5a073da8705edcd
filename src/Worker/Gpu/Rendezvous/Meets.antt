-- ===== src/Worker/Gpu/Rendezvous/Meets.antt =====
-- What a rank has when its rendezvous succeeds.
use distributed_softmax.Prelude.{
  ℕ, ◌≡◌, ◌≢◌, refl, sym, ap, ◌∙◌, Option, none, some, ◌⊎◌, inl, inr, length, Outcome, ok, err,
  panic, arith, from_sum, eq_or_ne, ne→==_false, ==_of_eq, subst,
}
use distributed_softmax.Prelude.Effects.{Effect, ◌>>=◌, pure, call, bind_ok, pure_ok, call_ok}
use distributed_softmax.Errors.{in_context, with_prefix}
use distributed_softmax.Text.{Bytes, bytes}
use distributed_softmax.Text.Separator.{beq_iff}
use distributed_softmax.Redis.{Redis, IsStore}
use distributed_softmax.Worker.Handler.Task.Writes.{in_context_ok}
use distributed_softmax.Worker.Gpu.Rendezvous.{
  nccl_uid_key, nccl_uid_ttl, ready_key, attempts, wait_uid, peer_id, wait_ready, publish_id,
  obtain_id, check_id, join, nccl_rendezvous,
}
use distributed_softmax.Worker.Gpu.Rendezvous.Barrier.{
  FirstFound, AllMarked, wait_uid_ok, wait_ready_ok, done,
}

module _ (R : Redis) (world_size rank : ℕ) (new_id : Bytes ⊎ Bytes) (others : R.State → R.State)
    (uid_found : ℕ → R.State) (ready_found : ℕ → ℕ → R.State) where
  open R use {State}

  -- The id is the one that rank 0 made, or the one that another rank found first.
  abbrev pub IsSource : Bytes → Type 0
  IsSource id =
      ((rank ≡ 0) × (new_id ≡ inr id)) ⊎ ((rank ≢ 0) × ((k : ℕ) × FirstFound R uid_found 0 k id))

  -- What the rank writes up to its mark: rank 0 its id, with a lifetime, and the other ranks nothing.
  abbrev pub IsWritten : Bytes → State → State → Type 0
  IsWritten id s t =
      ((rank ≡ 0) × (R.set_ex nccl_uid_key id nccl_uid_ttl s ≡ (inr tt, t)))
      ⊎ ((rank ≢ 0) × (s ≡ t))

  peer_id_ok :
      (id : Bytes) → peer_id R uid_found rank ≡ ok id → (k : ℕ) × FirstFound R uid_found 0 k id
  unfolding peer_id
  peer_id_ok id h = waited (wait_uid R uid_found attempts 0) refl
    where
      waited :
          (r : Outcome Bytes (Option Bytes))
          → wait_uid R uid_found attempts 0 ≡ r
          → (k : ℕ) × FirstFound R uid_found 0 k id
      waited (ok none) p = absurd (cc (rw (p, peer_id) at h))
      waited (ok (some raw)) p =
          let same : done raw ≡ done id = rw (p, peer_id) at h in
          wait_uid_ok R uid_found attempts 0 id (omega arith) (cc (p, same))
      waited (err x) p = absurd (cc (rw (p, peer_id) at h))
      waited panic p = absurd (cc (rw (p, peer_id) at h))

  new_id_ok :
      (r : Bytes ⊎ Bytes) (id : Bytes)
      → with_prefix (bytes "NCCL Id::new: ") (from_sum r) ≡ ok id
      → r ≡ inr id
  new_id_ok (inl x) id h = absurd (cc h)
  new_id_ok (inr raw) id h = cc h

  abbrev set_uid : Bytes → Effect State Bytes (Unit {0})
  set_uid id =
      in_context (bytes "Redis SET nccl_uid") (call (R.set_ex nccl_uid_key id nccl_uid_ttl))

  publish_id_ok :
      (id : Bytes) (s t : State)
      → publish_id R world_size rank new_id others uid_found ready_found s ≡ (ok id, t)
      → (new_id ≡ inr id) × (R.set_ex nccl_uid_key id nccl_uid_ttl s ≡ (inr tt, t))
  unfolding publish_id
  publish_id_ok id s t h =
      let (made, s1, first, rest) =
        bind_ok (pure (with_prefix (bytes "NCCL Id::new: ") (from_sum new_id)))
          (λ made. set_uid made >>= λ u. pure (ok made)) s t id h in
      let (u, s2, written, last) = bind_ok (set_uid made) (λ u. pure (ok made)) s1 t id rest in
      let (returned, stays) = pure_ok (ok made) s2 t id last in
      let same : made ≡ id = cc returned in
      let (prefixed, untouched) =
        pure_ok (with_prefix (bytes "NCCL Id::new: ") (from_sum new_id)) s s1 made first in
      let stored : R.set_ex nccl_uid_key made nccl_uid_ttl s1 ≡ (inr tt, t) =
        call_ok (R.set_ex nccl_uid_key made nccl_uid_ttl) s1 t tt (
          in_context_ok _ (call (R.set_ex nccl_uid_key made nccl_uid_ttl)) tt s1 t
            (written ∙ ap (λ (x : State). (ok tt, x)) stays)) in
      (
        new_id_ok new_id made prefixed ∙ ap (λ (x : Bytes). inr x) same,
        subst (λ x. R.set_ex nccl_uid_key x nccl_uid_ttl s ≡ (inr tt, t)) same
            (subst (λ x. R.set_ex nccl_uid_key made nccl_uid_ttl x ≡ (inr tt, t)) (sym untouched)
              stored),
      )

  obtain_id_ok :
      (id : Bytes) (s t : State)
      → obtain_id R world_size rank new_id others uid_found ready_found s ≡ (ok id, t)
      → IsSource id × IsWritten id s t
  unfolding obtain_id
  obtain_id_ok id s t h = elim (eq_or_ne rank 0) [
    | inl first ↦
        let (made, stored) = publish_id_ok id s t (rw (==_of_eq rank 0 first, obtain_id) at h) in
        (inl (first, made), inl (first, stored))
    | inr other ↦
        let (obtained, untouched) =
          pure_ok (peer_id R uid_found rank) s t id
            (rw (ne→==_false rank 0 other, obtain_id) at h) in
        (inr (other, peer_id_ok id obtained), inr (other, untouched))
  ]

  check_id_ok :
      (id out : Bytes)
      → check_id R world_size rank new_id others uid_found ready_found id ≡ ok out
      → (id ≡ out) × (length out ≡ 128)
  unfolding check_id
  check_id_ok id out h = elim (eq_or_ne (length id) 128) [
    | inl sized ↦
        let same : done id ≡ done out = rw (==_of_eq (length id) 128 sized, check_id) at h in
        (cc same, cc (sized, same))
    | inr other ↦ absurd (cc (rw (ne→==_false (length id) 128 other, check_id) at h))
  ]

  abbrev mark : Effect State Bytes (Unit {0})
  mark =
      in_context (bytes "Redis SET nccl_ready")
        (call (R.set_ex (ready_key rank) (bytes "1") nccl_uid_ttl))

  abbrev checked : Bytes → Effect State Bytes Bytes
  checked id = pure (check_id R world_size rank new_id others uid_found ready_found id)

  abbrev barrier : Effect State Bytes (Unit {0})
  barrier = pure (wait_ready R world_size rank ready_found attempts 0)

  join_ok :
      (id out : Bytes) (s s' : State)
      → join R world_size rank new_id others uid_found ready_found id s ≡ (ok out, s')
      → (id ≡ out)
        × (length out ≡ 128)
        × (wait_ready R world_size rank ready_found attempts 0 ≡ ok tt)
        × (R.set_ex (ready_key rank) (bytes "1") nccl_uid_ttl (others s) ≡ (inr tt, s'))
  unfolding join
  join_ok id out s s' h =
      let (u, s1, marked, rest) =
        bind_ok mark (λ u. barrier >>= λ v. checked id) (others s) s' out h in
      let (v, s2, waited, last) = bind_ok barrier (λ v. checked id) s1 s' out rest in
      let (met, unmoved) =
        pure_ok (wait_ready R world_size rank ready_found attempts 0) s1 s2 tt waited in
      let (right, stays) =
        pure_ok (check_id R world_size rank new_id others uid_found ready_found id) s2 s' out
          last in
      let (same, sized) = check_id_ok id out right in
      (
        same,
        sized,
        met,
        call_ok (R.set_ex (ready_key rank) (bytes "1") nccl_uid_ttl) (others s) s' tt (
            in_context_ok _ (call (R.set_ex (ready_key rank) (bytes "1") nccl_uid_ttl)) tt
              (others s) s' (marked ∙ ap (λ (x : State). (ok tt, x)) (unmoved ∙ stays))),
      )

  -- A rank that returns from the rendezvous has an id of 128 bytes, which is the one that it made, being
  -- rank 0, or else the first one that it found within 200 attempts; some attempt of 200 found the marks
  -- of all ranks. Its writes are these: rank 0 stores the id, for 60 seconds, and then every rank its own
  -- mark, for 60 seconds; nothing is written after the mark, which is there in the end.
  pub nccl_rendezvous_ok :
      IsStore R
      → (id : Bytes) (s s' : State)
      → nccl_rendezvous R world_size rank new_id others uid_found ready_found s ≡ (ok id, s')
      → (length id ≡ 128)
        × IsSource id
        × AllMarked R world_size rank ready_found
        × ((t : State) × IsWritten id s t
            × (R.set_ex (ready_key rank) (bytes "1") 60 (others t) ≡ (inr tt, s')))
        × (R.get s' (ready_key rank) ≡ inr (some (bytes "1")))
  unfolding nccl_rendezvous
  nccl_rendezvous_ok store id s s' h =
      let (made, t, obtained, rest) =
        bind_ok (obtain_id R world_size rank new_id others uid_found ready_found)
          (join R world_size rank new_id others uid_found ready_found) s s' id h in
      let (same, sized, met, marked) = join_ok made id t s' rest in
      let (source, written) = obtain_id_ok made s t obtained in
      (
        sized,
        subst IsSource same source,
        wait_ready_ok R world_size rank ready_found attempts 0 (omega arith) (omega arith) met,
        (t, subst (λ x. IsWritten x s t) same written, marked),
        store.get-set_ex (others t) s' (ready_key rank) (bytes "1") (ready_key rank) nccl_uid_ttl
              marked
            ∙ rw ((beq_iff (ready_key rank) (ready_key rank)).1 refl) refl,
      )
