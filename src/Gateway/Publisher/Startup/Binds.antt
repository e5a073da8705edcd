-- ===== src/Gateway/Publisher/Startup/Binds.antt =====
-- The ranks' endpoints are apart, so that all of them can be bound.
use distributed_softmax.Prelude.{
  ℕ, zero, suc, ◌+◌, ◌≤◌, ◌<◌, ◌^◌, ◌≡◌, ◌≢◌, refl, Bool, true, false, ◌||◌, some, List, [], ◌∷◌,
  inl, inr, ok, arith, Bool-cases, replicate,
}
use distributed_softmax.Text.{Bytes, bytes, beq}
use distributed_softmax.Text.Decimal.{to_decimal_injective}
use distributed_softmax.Text.Separator.{append_cancel, beq_apart}
use distributed_softmax.Sockets.{Setup, thread_ready}
use distributed_softmax.Gateway.Config.{Env, port_from}
use distributed_softmax.Gateway.Publisher.Endpoints.{
  rank_port, tcp_mode, base_endpoint, rank_endpoint,
}
use distributed_softmax.Gateway.Publisher.Startup.{new_sender, new_senders, new_multi_publisher}

-- Two ranks below 2 ^ 16 have two ports, whatever the base port is.
rank_port_apart :
    (base i j : ℕ) → i < 2 ^ 16 → j < 2 ^ 16 → i ≢ j → rank_port base i ≢ rank_port base j
unfolding rank_port
rank_port_apart base i j hi hj ne e = ne (omega arith)

-- Two ranks below 2 ^ 16 have two endpoints, whatever the environment holds.
rank_endpoint_apart :
    (env : Env) (i j : ℕ)
    → i < 2 ^ 16
    → j < 2 ^ 16
    → i ≢ j
    → rank_endpoint env i ≢ rank_endpoint env j
unfolding rank_endpoint
rank_endpoint_apart env i j hi hj ne e = elim (Bool-cases (tcp_mode (base_endpoint env))) [
  | inl tcp ↦
      let same = append_cancel (bytes "tcp://0.0.0.0:") _ _ (rw (tcp, rank_endpoint) at e) in
      rank_port_apart (port_from env (bytes "ZMQ_BASE_PORT") 5560) i j hi hj ne
        (to_decimal_injective _ _ same)
  | inr ipc ↦
      let same = append_cancel (base_endpoint env) _ _ (rw (ipc, rank_endpoint) at e) in
      ne (to_decimal_injective i j (append_cancel (bytes "_") _ _ same))
]

abbrev pub is_bound : List Bytes → Bytes → Bool
is_bound [] endpoint = false
is_bound (b ∷ bound) endpoint = beq b endpoint || is_bound bound endpoint

-- The threads start, live and make their sockets, and an endpoint that is not bound can be.
abbrev pub Binds : (List Bytes → Bytes → Setup) → Type 0
Binds setup =
    (bound : List Bytes) (endpoint : Bytes)
    → ((setup bound endpoint).spawn ≡ inr tt)
      × ((setup bound endpoint).socket ≡ inr tt)
      × ((setup bound endpoint).reports ≡ true)
      × (is_bound bound endpoint ≡ false → (setup bound endpoint).attach ≡ inr tt)

module _ (env : Env) (setup : List Bytes → Bytes → Setup) (binds : Binds setup) where
  endpoints : ℕ → List Bytes
  endpoints zero = []
  endpoints (suc n) = rank_endpoint env n ∷ endpoints n

  unbound :
      (n rank : ℕ)
      → n ≤ rank
      → rank < 2 ^ 16
      → is_bound (endpoints n) (rank_endpoint env rank) ≡ false
  unfolding endpoints
  unbound zero rank h few = refl
  unbound (suc n) rank h few =
      rw
        (beq_apart (rank_endpoint env n) (rank_endpoint env rank)
          (rank_endpoint_apart env n rank (omega arith) few (λ e. omega arith)))
        (unbound n rank (omega arith) few)

  new_sender_ok :
      (rank : ℕ) → rank < 2 ^ 16 → new_sender env setup (endpoints rank) rank ≡ ok (some [])
  unfolding new_sender thread_ready
  new_sender_ok rank few =
      let (spawned, made, lives, attaches) = binds (endpoints rank) (rank_endpoint env rank) in
      rw
        (
          spawned,
          lives,
          made,
          attaches (unbound rank rank (omega arith) few),
          new_sender,
          thread_ready,
        )
        refl

  new_senders_ok :
      (left rank : ℕ)
      → rank + left ≤ 2 ^ 16
      → new_senders env setup left rank (endpoints rank) ≡ ok (replicate left (some []))
  unfolding new_senders endpoints
  new_senders_ok zero rank few = refl
  new_senders_ok (suc left) rank few =
      rw
        (
          new_sender_ok rank (omega arith),
          new_senders_ok left (suc rank) (omega arith),
          new_senders,
        )
        refl

  -- With at most 2 ^ 16 ranks, where the threads start and make their sockets, and an endpoint can be
  -- bound that no rank before has bound, the publisher of the ranks starts, with an empty channel to
  -- a running thread for each rank, whatever endpoints the environment asks for.
  pub new_multi_publisher_lem :
      (world_size : ℕ)
      → world_size ≤ 2 ^ 16
      → new_multi_publisher env setup world_size ≡ ok (replicate world_size (some []))
  unfolding new_multi_publisher endpoints
  new_multi_publisher_lem world_size few = new_senders_ok world_size 0 (omega arith)
