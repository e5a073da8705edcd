-- ===== src/Worker/Start/Serves.antt =====
-- A worker that has started runs what its configuration asks for, with the device that this needs.
use distributed_softmax.Prelude.{
  ℕ, ◌≡◌, ◌≢◌, if◌then◌else◌, refl, sym, ap, ◌∙◌, ◌⊎◌, inl, inr, Bool, true, false, Bool-cases, not,
  Option, none, some, Outcome, ok, err, panic, from_sum, ◌>>◌, subst,
}
use distributed_softmax.Prelude.Int.{ℤ, pos, negsuc}
use distributed_softmax.Errors.{bind_returns, ok_eq, with_context}
use distributed_softmax.Text.{Bytes, bytes, beq}
use distributed_softmax.Text.Separator.{beq_iff}
use distributed_softmax.Sockets.{Setup}
use distributed_softmax.Cuda.{Driver, run, new_context, compile_ptx}
use distributed_softmax.Worker.Config.{Config, Plan, pull, nccl, plan, nccl_plan}
use distributed_softmax.Worker.Gpu.Partial.{GpuWorker, init, new_worker, global_worker}
use distributed_softmax.Worker.Zmq.Connect.{connect_pull}
use distributed_softmax.Worker.Start.{
  Running, serves, joins, or_panics, start_gpu, start_plan, start_worker, worker_redis_url,
}

-- With the `cuda` feature, one that pulls has the GPU of the configuration, and one that joins the
-- ranks is asked to. Without it, the ranks do not join, and pull one task at a time.
abbrev pub Serves : Bool → Config → Running → Type 0
Serves true cfg (serves device endpoint max_concurrent) =
    (global_worker device ≡ ok (record { device_id = cfg.cuda_device }))
    × (plan cfg ≡ ok (pull endpoint max_concurrent))
Serves true cfg (joins rank world_size endpoint) = plan cfg ≡ ok (nccl rank world_size endpoint)
Serves false cfg (serves device endpoint max_concurrent) =
    (device ≡ none)
    × ((plan cfg ≡ ok (pull endpoint max_concurrent))
        ⊎ ((max_concurrent ≡ 1)
            × ((rank : ℕ) × (world_size : ℕ) × (plan cfg ≡ ok (nccl rank world_size endpoint)))))
Serves false cfg (joins rank world_size endpoint) = ⊥

Outcome-cases {ℓ} :
    {A : Type ℓ} (m : Outcome Bytes A)
    → ((a : A) × (m ≡ ok a)) ⊎ (((e : Bytes) × (m ≡ err e)) ⊎ (m ≡ panic))
Outcome-cases (ok a) = inl (a, refl)
Outcome-cases (err e) = inr (inl (e, refl))
Outcome-cases panic = inr (inr refl)

nccl_plan-ranks :
    (cfg : Config) (rank : ℤ) (endpoint : Bytes) (n : ℕ) → nccl_plan cfg rank ≢ ok (pull endpoint n)
unfolding nccl_plan
nccl_plan-ranks cfg (pos rank) endpoint n h = cc h
nccl_plan-ranks cfg (negsuc rank) endpoint n h = cc h

-- A worker that pulls does not have the transport of the ranks.
pull_transport :
    (cfg : Config) (endpoint : Bytes) (n : ℕ)
    → plan cfg ≡ ok (pull endpoint n)
    → beq cfg.transport (bytes "zmq_nccl") ≡ false
unfolding plan beq
pull_transport cfg endpoint n h = elim (Bool-cases (beq cfg.transport (bytes "zmq"))) [
  | inl e ↦ rw ((beq_iff cfg.transport (bytes "zmq")).0 e) refl
  | inr e ↦ elim (Bool-cases (beq cfg.transport (bytes "zmq_nccl"))) [
    | inl other ↦
        let ranks : plan cfg ≡ nccl_plan cfg cfg.nccl_rank = rw (e, other) refl in
        absurd (nccl_plan-ranks cfg cfg.nccl_rank endpoint n (sym ranks ∙ h))
    | inr other ↦ other
  ]
]

new_worker_returns :
    (driver : Driver) (n : ℕ) (worker : GpuWorker)
    → new_worker driver n ≡ ok worker
    → worker ≡ record { device_id = n }
unfolding new_worker
new_worker_returns driver n worker h =
    let (u, made, rest) = bind_returns (with_context _ (run driver (new_context n))) _ worker h in
    let (v, compiled, last) =
      bind_returns (with_context _ (run driver compile_ptx)) _ worker rest in
    sym (ok_eq (record { device_id = n }) worker last)

init_returns :
    (driver : Driver) (n : ℕ) (cell : Option GpuWorker)
    → ((init driver n none).0 >> ok (init driver n none).1) ≡ ok cell
    → cell ≡ some (record { device_id = n })
unfolding init
init_returns driver n cell h = elim (Outcome-cases (new_worker driver n)) [
  | inl (worker, e) ↦
      let done : ((init driver n none).0 >> ok (init driver n none).1) ≡ ok (some worker) =
        rw (init, e) refl in
      ok_eq cell (some worker) (sym h ∙ done) ∙ ap some (new_worker_returns driver n worker e)
  | inr (inl (text, e)) ↦
      let done : ((init driver n none).0 >> ok (init driver n none).1) ≡ err text =
        rw (init, e) refl in
      absurd (cc (sym h ∙ done))
  | inr (inr e) ↦
      let done : ((init driver n none).0 >> ok (init driver n none).1) ≡ panic =
        rw (init, e) refl in
      absurd (cc (sym h ∙ done))
]

module _ (driver : Driver) (open_client connect : Bytes → Bytes ⊎ Unit {0}) (setup : Bytes → Setup)
    (cfg : Config) where
  served :
      (cuda : Bool) (device : Option GpuWorker) (known : Plan) (running : Running)
      → start_gpu cuda driver open_client connect setup cfg ≡ ok device
      → plan cfg ≡ ok known
      → start_plan cuda driver open_client connect setup device known ≡ ok running
      → Serves cuda cfg running
  unfolding start_gpu start_plan global_worker
  served true device (pull endpoint n) running gpu planned h =
      let (u, connected, last) =
        bind_returns (connect_pull (setup endpoint) endpoint) _ running h in
      let off = pull_transport cfg endpoint n planned in
      subst (Serves true cfg) (ok_eq (serves device endpoint n) running last) (
        rw
            (init_returns driver cfg.cuda_device device (
              subst
                (λ b.
                  (if not b
                    then ((init driver cfg.cuda_device none).0
                        >> ok (init driver cfg.cuda_device none).1)
                    else ok none)
                  ≡ ok device)
                off gpu))
            refl,
        planned,
      )
  served true device (nccl rank world_size endpoint) running gpu planned h =
      subst (Serves true cfg) (ok_eq (joins rank world_size endpoint) running h) planned
  served false device (pull endpoint n) running gpu planned h =
      let (u, connected, last) =
        bind_returns (connect_pull (setup endpoint) endpoint) _ running h in
      subst (Serves false cfg) (ok_eq (serves device endpoint n) running last)
        (sym (ok_eq none device gpu), inl planned)
  served false device (nccl rank world_size endpoint) running gpu planned h =
      let (u, connected, last) =
        bind_returns (connect_pull (setup endpoint) endpoint) _ running h in
      subst (Serves false cfg) (ok_eq (serves device endpoint 1) running last)
        (sym (ok_eq none device gpu), inr (refl, (rank, world_size, planned)))

  -- A worker that has started runs what its configuration plans. With the `cuda` feature, one that pulls
  -- has the GPU worker of the configured device. Without it, a rank does not join the others: it pulls
  -- from its own endpoint, one task at a time.
  pub start_worker-Serves :
      (cuda : Bool) (running : Running)
      → start_worker cuda driver open_client connect setup cfg ≡ ok running
      → Serves cuda cfg running
  unfolding start_worker
  start_worker-Serves cuda running h =
      let (u, opened, h1) =
        bind_returns (from_sum (open_client (worker_redis_url cfg))) _ running h in
      let (v, connected, h2) =
        bind_returns (or_panics (connect (worker_redis_url cfg))) _ running h1 in
      let (device, gpu, h3) =
        bind_returns (start_gpu cuda driver open_client connect setup cfg) _ running h2 in
      let (known, planned, last) = bind_returns (plan cfg) _ running h3 in
      served cuda device known running gpu planned last
