-- ===== src/Gateway/Start/Agrees.antt =====
-- A gateway that has started dispatches to the publisher that it has.
use distributed_softmax.Prelude.{
  ℕ, zero, suc, ◌<◌, ◌≡◌, refl, sym, ap, ap₂, ◌∙◌, true, false, Bool-cases, inl, inr, ◌⊎◌, some,
  List, [], ◌∷◌, replicate, ok, err, arith, Option-cases, from_sum, subst, ◌++◌,
}
use mathlib.Core.Option
use distributed_softmax.Errors.{bind_returns, ok_eq}
use distributed_softmax.Text.{Bytes, bytes, beq, parse_uint, usize_max}
use distributed_softmax.Text.Separator.{beq_iff}
use distributed_softmax.Sockets.{Setup, thread_ready}
use distributed_softmax.Gateway.Config.{Env, redis_url}
use distributed_softmax.Gateway.SliceNotifier.{Jobs}
use distributed_softmax.Gateway.Publisher.{Channel}
use distributed_softmax.Gateway.Publisher.Endpoints.{
  Transport, zmq, zmq_nccl, world_size, transport_of, rank_endpoint,
}
use distributed_softmax.Gateway.Publisher.Startup.{
  new_publisher, new_sender, new_senders, new_multi_publisher, push_endpoint,
}
use distributed_softmax.Gateway.Start.{
  Bus, single, multi, GatewayService, new_bus, new_redis_manager, new_notifier, start_gateway,
  or_default,
}

-- In NCCL mode there is a channel to a running thread for each of the ranks, of which there are some;
-- otherwise there is one such channel.
abbrev pub Agrees : GatewayService → Type 0
Agrees g =
    ((g.nccl_dispatch ≡ true) × (0 < g.ranks) × (g.publisher ≡ multi (replicate g.ranks (some []))))
    ⊎ ((g.nccl_dispatch ≡ false) × (g.publisher ≡ single (some [])))

world_size_pos : (env : Env) → 0 < world_size env
unfolding world_size
world_size_pos env =
    elim (Option-cases (Option.bind (env (bytes "NCCL_WORLD_SIZE")) (parse_uint usize_max))) [
      | inl e ↦ rw (e, world_size) (omega arith)
      | inr (n, e) ↦ rw (e, world_size) (ground arith)
    ]

module _ (env : Env) (setup : List Bytes → Bytes → Setup) where
  new_sender_only :
      (bound : List Bytes) (rank : ℕ) (c : Channel)
      → new_sender env setup bound rank ≡ ok c
      → c ≡ some []
  unfolding new_sender
  new_sender_only bound rank c h =
      let (u, spawned, rest) =
        bind_returns (from_sum (setup bound (rank_endpoint env rank)).spawn) _ c h in
      let (v, ready, last) = bind_returns (thread_ready _ _ _ _) _ c rest in
      sym (ok_eq (some []) c last)

  new_senders_only :
      (left rank : ℕ) (bound : List Bytes) (cs : List Channel)
      → new_senders env setup left rank bound ≡ ok cs
      → cs ≡ replicate left (some [])
  unfolding new_senders
  new_senders_only zero rank bound cs h = sym (ok_eq [] cs h)
  new_senders_only (suc left) rank bound cs h =
      let (c, made, rest) = bind_returns (new_sender env setup bound rank) _ cs h in
      let (others, started, last) =
        bind_returns (new_senders env setup left (suc rank) (rank_endpoint env rank ∷ bound)) _ cs
          rest in
      sym (ok_eq (c ∷ others) cs last)
      ∙ ap₂ ◌∷◌ (new_sender_only bound rank c made)
          (new_senders_only left (suc rank) (rank_endpoint env rank ∷ bound) others started)

new_publisher_only :
    (env : Env) (setup : Bytes → Setup) (c : Channel) → new_publisher env setup ≡ ok c → c ≡ some []
unfolding new_publisher
new_publisher_only env setup c h =
    let (u, spawned, rest) = bind_returns (from_sum (setup (push_endpoint env)).spawn) _ c h in
    let (v, ready, last) = bind_returns (thread_ready _ _ _ _) _ c rest in
    sym (ok_eq (some []) c last)

-- Which publisher `TRANSPORT` asks for.
transport_names :
    (name : Bytes) (known : Transport)
    → transport_of name ≡ ok known
    → ((known ≡ zmq) × (beq name (bytes "zmq_nccl") ≡ false))
      ⊎ ((known ≡ zmq_nccl) × (beq name (bytes "zmq_nccl") ≡ true))
unfolding transport_of beq
transport_names name known h = elim (Bool-cases (beq name (bytes "zmq"))) [
  | inl e ↦
      let asked : transport_of name ≡ ok zmq = rw (e) refl in
      inl (ok_eq known zmq (sym h ∙ asked), rw ((beq_iff name (bytes "zmq")).0 e) refl)
  | inr e ↦ elim (Bool-cases (beq name (bytes "zmq_nccl"))) [
    | inl other ↦
        let asked : transport_of name ≡ ok zmq_nccl = rw (e, other) refl in
        inr (ok_eq known zmq_nccl (sym h ∙ asked), other)
    | inr other ↦
        let refused : transport_of name
            ≡ err (bytes "unknown TRANSPORT '" ++ (name ++ bytes "' (valid: zmq | zmq_nccl)")) =
          rw (e, other) refl in
        absurd (cc (sym h ∙ refused))
  ]
]

module _ (open_client connect parse_addr : Bytes → Bytes ⊎ Unit {0}) (setup : Bytes → Setup)
    (rank_setup : List Bytes → Bytes → Setup) (env : Env) where
  new_bus_single :
      (bus : Bus)
      → new_bus open_client connect parse_addr setup rank_setup env zmq ≡ ok bus
      → bus ≡ single (some [])
  unfolding new_bus
  new_bus_single bus h =
      let (c, made, last) = bind_returns (new_publisher env setup) _ bus h in
      sym (ok_eq (single c) bus last) ∙ ap single (new_publisher_only env setup c made)

  new_bus_multi :
      (bus : Bus)
      → new_bus open_client connect parse_addr setup rank_setup env zmq_nccl ≡ ok bus
      → bus ≡ multi (replicate (world_size env) (some []))
  unfolding new_bus new_multi_publisher
  new_bus_multi bus h =
      let (cs, made, last) =
        bind_returns (new_senders env rank_setup (world_size env) 0 []) _ bus h in
      sym (ok_eq (multi cs) bus last)
      ∙ ap multi (new_senders_only env rank_setup (world_size env) 0 [] cs made)

  started :
      (name : Bytes) (known : Transport) (bus : Bus) (notifier : Jobs)
      → transport_of name ≡ ok known
      → new_bus open_client connect parse_addr setup rank_setup env known ≡ ok bus
      → Agrees (record {
        publisher = bus;
        notifier = notifier;
        nccl_dispatch = beq name (bytes "zmq_nccl");
        ranks = world_size env;
      })
  started name known bus notifier named made = elim (transport_names name known named) [
    | inl (is_single, off) ↦ inr (off, new_bus_single bus (rw (sym is_single, made) refl))
    | inr (is_multi, on) ↦
        inl (on, world_size_pos env, new_bus_multi bus (rw (sym is_multi, made) refl))
  ]

  -- A gateway that has started has a channel to a running thread for each of its ranks, of which
  -- there are some, where it dispatches to the ranks; and one channel to a running thread where it
  -- does not.
  pub start_gateway-Agrees :
      (g : GatewayService)
      → start_gateway open_client connect parse_addr setup rank_setup env ≡ ok g
      → Agrees g
  unfolding start_gateway
  start_gateway-Agrees g h =
      let name = or_default env (bytes "TRANSPORT") (bytes "zmq") in
      let (known, named, h1) = bind_returns (transport_of name) _ g h in
      let (bus, made, h2) = bind_returns (new_bus _ _ _ _ _ _ known) _ g h1 in
      let (u, connected, h3) =
        bind_returns (new_redis_manager open_client connect parse_addr setup rank_setup env) _ g
          h2 in
      let (notifier, subscribed, h4) =
        bind_returns
          (new_notifier open_client connect parse_addr setup rank_setup env (redis_url env)) _ g
          h3 in
      let (x, parsed, last) =
        bind_returns
          (from_sum (parse_addr (or_default env (bytes "GATEWAY_ADDR") (bytes "0.0.0.0:50051")))) _
          g h4 in
      subst Agrees (ok_eq _ g last) (started name known bus notifier named made)
