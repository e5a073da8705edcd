-- ===== src/Gateway/Service/Submit/Dispatch.antt =====
-- Where the slices of a job go.
use distributed_softmax.Prelude.{
  ℕ, ◌+◌, ◌≤◌, ◌≡◌, refl, sym, ap, ◌∙◌, Bool, true, false, some, List, [], ◌∷◌, ◌++◌, map, length,
  ok, arith, append_assoc, append-nil, length-append,
}
use distributed_softmax.Text.{Bytes, usize_max}
use distributed_softmax.Floats.{Floats}
use distributed_softmax.Gateway.Config.{Env}
use distributed_softmax.Gateway.RedisManager.{Serde}
use distributed_softmax.Gateway.Publisher.{
  Channel, zmq_publisher, zmq_multi_publisher, single_publish,
}
use distributed_softmax.Gateway.Publisher.Ranks.{
  multi_publish-to_decimal, get_elem?_front, set_front,
}
use distributed_softmax.Gateway.Service.Submit.{task_text, subject_of, publish_loop}

module _ (F : Floats) (world_size : ℕ) (env : Env) (J : Serde F.F64) (job_id task : Bytes) where
  abbrev pub message : Bool → ℕ → List F.F64 → Bytes
  message nccl i xs = task_text F nccl world_size env J zmq_publisher job_id task i xs

  -- The messages of the slices from index `i` on.
  abbrev pub messages : Bool → List (List F.F64) → ℕ → List Bytes
  messages nccl [] i = []
  messages nccl (xs ∷ slices) i = message nccl i xs ∷ messages nccl slices (i + 1)

  -- Each queue with the message of one slice at its end.
  abbrev pub one_each : List (List Bytes) → List Bytes → List (List Bytes)
  one_each [] ms = []
  one_each (q ∷ qs) [] = q ∷ qs
  one_each (q ∷ qs) (m ∷ ms) = (q ++ (m ∷ [])) ∷ one_each qs ms

  abbrev pub running : List (List Bytes) → List Channel
  running = map (λ q. some q)

  publish_loop_front :
      (slices : List (List F.F64)) (front : List Channel) (queues : List (List Bytes))
      → length slices ≤ length queues
      → length front + length slices ≤ usize_max
      → publish_loop F true world_size env J zmq_multi_publisher job_id task slices
          (length front)
          (front ++ running queues)
        ≡ (ok tt, front ++ running (one_each queues (messages true slices (length front))))
  unfolding publish_loop task_text subject_of
  publish_loop_front [] front [] h small = refl
  publish_loop_front [] front (q ∷ qs) h small = refl
  publish_loop_front (xs ∷ slices) front [] h small = absurd (omega arith)
  publish_loop_front (xs ∷ slices) front (q ∷ qs) h small =
      let m = message true (length front) xs in
      let x : Channel = some (q ++ (m ∷ [])) in
      let longer : length (front ++ (x ∷ [])) ≡ length front + 1 = length-append front (x ∷ []) in
      let later =
        publish_loop_front slices (front ++ (x ∷ [])) qs (omega arith) (omega (arith, longer)) in
      rw
        (
          multi_publish-to_decimal (front ++ running (q ∷ qs)) (length front) m q (omega arith)
              (get_elem?_front front (running qs) (some q)),
          set_front front (running qs) (some q) x,
        )
        (rw
          (
            longer,
            append_assoc front (x ∷ []) (running qs),
            append_assoc front (x ∷ [])
                (running (one_each qs (messages true slices (length front + 1)))),
          )
          at later)

  -- In NCCL mode, with a running thread for each of at least as many ranks as there are slices, all
  -- slices are published: the rank of each index gets the message of that slice and no other one.
  pub publish_loop_ranks :
      (slices : List (List F.F64)) (queues : List (List Bytes))
      → length slices ≤ length queues
      → length slices ≤ usize_max
      → publish_loop F true world_size env J zmq_multi_publisher job_id task slices 0
          (running queues)
        ≡ (ok tt, running (one_each queues (messages true slices 0)))
  publish_loop_ranks slices queues h small = publish_loop_front slices [] queues h (omega arith)

  -- Outside NCCL mode all slices are published, in their order, on the one socket.
  publish_loop_single :
      (slices : List (List F.F64)) (i : ℕ) (sent : List Bytes)
      → publish_loop F false world_size env J zmq_publisher job_id task slices i (some sent)
        ≡ (ok tt, some (sent ++ messages false slices i))
  unfolding publish_loop task_text subject_of single_publish
  publish_loop_single [] i sent = ap (λ (t : List Bytes). (ok tt, some t)) (sym (append-nil sent))
  publish_loop_single (xs ∷ slices) i sent =
      publish_loop_single slices (i + 1) (sent ++ (message false i xs ∷ []))
      ∙ ap (λ (t : List Bytes). (ok tt, some t))
          (append_assoc sent (message false i xs ∷ []) (messages false slices (i + 1)))
