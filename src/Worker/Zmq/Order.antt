-- ===== src/Worker/Zmq/Order.antt =====
-- How many tasks run at a time, in which order they start, and that no message is left behind.
use distributed_softmax.Prelude.{
  ℕ, zero, suc, ◌+◌, ◌*◌, ◌<◌, ◌≡◌, refl, sym, ap, ◌∙◌, Option, none, some, List, [], ◌∷◌, ◌++◌,
  length, length-append, append_assoc, append-nil, arith,
}
use distributed_softmax.Text.{Bytes}
use distributed_softmax.Worker.Zmq.{
  State, at, start, Work, take_message, spawn_task, end_task, Step, receive, work, Reachable, first,
  next, Works, done, more,
}

abbrev pub held : Option Bytes → List Bytes
held none = []
held (some m) = m ∷ []

-- Permits and running tasks make up the limit; the spawned, the waiting and the channel's messages are
-- the received ones, in their order; every spawned task runs or has ended.
abbrev pub Ordered : ℕ → State → Type 0
Ordered max (at received channel waiting spawned running ended permits) =
    (permits + length running ≡ max)
    × (spawned ++ (held waiting ++ channel) ≡ received)
    × (length spawned ≡ length running + ended)

start-Ordered : (max : ℕ) → Ordered max (start max)
start-Ordered max = (omega arith, refl, omega arith)

Work-Ordered : (max : ℕ) (s s' : State) → Work s s' → Ordered max s → Ordered max s'
Work-Ordered max _ _ (take_message received channel spawned running ended permits m) (a, b, c) =
    (a, b, c)
Work-Ordered max _ _ (spawn_task received channel spawned running ended permits m) (a, b, c) = (
  omega (arith, length-append running (m ∷ [])),
  append_assoc spawned (m ∷ []) channel ∙ b,
  omega (arith, length-append running (m ∷ []), length-append spawned (m ∷ [])),
)
Work-Ordered max _ _
      (end_task received channel waiting spawned before after ended permits m running e) (a, b, c) =
    let size : length running ≡ length before + suc (length after) =
      ap length e ∙ length-append before (m ∷ after) in
    (
      omega (arith, length-append before after, size),
      b,
      omega (arith, length-append before after, size),
    )

Step-Ordered : (max : ℕ) (s s' : State) → Step s s' → Ordered max s → Ordered max s'
Step-Ordered max _ _ (receive received channel waiting spawned running ended permits m) (a, b, c) =
    (
      a,
      ap (λ (t : List Bytes). spawned ++ t) (sym (append_assoc (held waiting) channel (m ∷ [])))
          ∙ sym (append_assoc spawned (held waiting ++ channel) (m ∷ []))
          ∙ ap (λ (t : List Bytes). t ++ (m ∷ [])) b,
      c,
    )
Step-Ordered max _ _ (work s s' w) h = Work-Ordered max s s' w h

-- In every state that a worker gets to, the free permits and the running tasks make up max_concurrent,
-- tasks were spawned for the received messages in the order in which these arrived, and every spawned
-- task runs or has ended.
pub Reachable-Ordered : (max : ℕ) (s : State) → Reachable max s → Ordered max s
Reachable-Ordered max _ first = start-Ordered max
Reachable-Ordered max _ (next t s r step) = Step-Ordered max t s step (Reachable-Ordered max t r)

-- Nothing is left to do.
abbrev pub Drained : State → Type 0
Drained (at received channel waiting spawned running ended permits) =
    (spawned ≡ received) × (running ≡ []) × (ended ≡ length received)

abbrev waiting_load : Option Bytes → ℕ
waiting_load none = 0
waiting_load (some m) = 2

-- How many steps are left at most.
abbrev load : State → ℕ
load (at received channel waiting spawned running ended permits) =
    3 * length channel + waiting_load waiting + length running

drain_more :
    (s t : State)
    → Work s t
    → (u : State) × Works t u × Drained u
    → (u : State) × Works s u × Drained u
drain_more s t step (u, rest, d) = (u, more s t u step rest, d)

drain :
    (max fuel : ℕ) (s : State)
    → 0 < max
    → load s < fuel
    → Ordered max s
    → (u : State) × Works s u × Drained u
drain max zero s some_permit enough h = absurd (omega arith)
drain max (suc fuel) (at received channel waiting spawned (m ∷ running) ended permits) some_permit
      enough h =
    let step =
      end_task received channel waiting spawned [] running ended permits m (m ∷ running) refl in
    drain_more _ _ step (
      drain max fuel (at received channel waiting spawned running (ended + 1) (permits + 1))
        some_permit (omega arith) (Work-Ordered max _ _ step h))
drain max (suc fuel) (at received channel (some m) spawned [] ended zero) some_permit enough h =
    absurd (omega (arith, h.0))
drain max (suc fuel) (at received channel (some m) spawned [] ended (suc permits)) some_permit
      enough h =
    let step = spawn_task received channel spawned [] ended permits m in
    drain_more _ _ step (
      drain max fuel (at received channel none (spawned ++ (m ∷ [])) (m ∷ []) ended permits)
        some_permit (omega arith) (Work-Ordered max _ _ step h))
drain max (suc fuel) (at received (m ∷ channel) none spawned [] ended permits) some_permit enough
      h =
    let step = take_message received channel spawned [] ended permits m in
    drain_more _ _ step (
      drain max fuel (at received channel (some m) spawned [] ended permits) some_permit
        (omega arith) (Work-Ordered max _ _ step h))
drain max (suc fuel) (at received [] none spawned [] ended permits) some_permit enough (a, b, c) =
    let all : spawned ≡ received = sym (append-nil spawned) ∙ b in
    (
      at received [] none spawned [] ended permits,
      done _,
      (all, refl, omega (arith, ap length all, c)),
    )

-- With a permit at all, a worker that receives no more messages can always finish: there are steps from
-- any state it gets to that end with a task spawned and ended for every message received.
pub Reachable_drains :
    (max : ℕ) (s : State) → 0 < max → Reachable max s → (u : State) × Works s u × Drained u
Reachable_drains max s some_permit r =
    drain max (suc (load s)) s some_permit (omega arith) (Reachable-Ordered max s r)

abbrev Stuck : State → Type 0
Stuck (at received channel waiting spawned running ended permits) =
    (permits ≡ 0) × (running ≡ []) × (spawned ≡ [])

Work-Stuck : (s s' : State) → Work s s' → Stuck s → Stuck s'
Work-Stuck _ _ (take_message received channel spawned running ended permits m) h = h
Work-Stuck _ _ (spawn_task received channel spawned running ended permits m) (a, b, c) =
    absurd (omega (arith, a))
Work-Stuck _ _ (end_task received channel waiting spawned before after ended permits m running e)
      (a, b, c) =
    absurd (omega (arith, ap length (sym b ∙ e), length-append before (m ∷ after)))

-- With a semaphore of no permits, as NUM_WORKERS=0 makes it, no task is spawned, whatever is received.
Reachable-Stuck : (s : State) → Reachable 0 s → Stuck s
Reachable-Stuck _ first = (refl, refl, refl)
Reachable-Stuck _ (next t u r (receive received channel waiting spawned running ended permits m)) =
    Reachable-Stuck _ r
Reachable-Stuck _ (next t u r (work _ _ w)) = Work-Stuck _ _ w (Reachable-Stuck _ r)
