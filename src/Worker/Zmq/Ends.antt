-- ===== src/Worker/Zmq/Ends.antt =====
-- worker-rs/src/transport/zmq.rs: how `run` ends. An error of the socket ends the thread that receives,
-- which closes the channel; the loop ends once that is empty. `main` then returns, and with it the
-- process, whatever still runs.
use distributed_softmax.Prelude.{
  ℕ, ◌+◌, ◌≤◌, ◌≡◌, refl, sym, ap, ap₂, ◌∙◌, Option, none, List, [], ◌++◌, length, append-nil,
  arith,
}
use distributed_softmax.Text.{Bytes}
use distributed_softmax.Worker.Zmq.{State, at, start, Work, Step, work, Reachable, first, next}
use distributed_softmax.Worker.Zmq.Order.{held, Reachable-Ordered}

pub data Phase : Type 0 where
  receiving : Phase
  closed : Phase
  returned : Phase

pub data Life : State × Phase → State × Phase → Type 0 where
  goes_on : (s s' : State) → Step s s' → Life (s, receiving) (s', receiving)
  -- `recv_bytes` returns an error.
  fails : (s : State) → Life (s, receiving) (s, closed)
  works_on : (s s' : State) → Work s s' → Life (s, closed) (s', closed)
  -- `rx.recv()` returns `None`.
  returns :
      (received spawned running : List Bytes) (ended permits : ℕ)
      → Life
          (at received [] none spawned running ended permits, closed)
          (at received [] none spawned running ended permits, returned)

-- What a worker with so many permits comes to.
pub data Lives (max_concurrent : ℕ) : State × Phase → Type 0 where
  born : Lives max_concurrent (start max_concurrent, receiving)
  lives : (a b : State × Phase) → Lives max_concurrent a → Life a b → Lives max_concurrent b

-- Closing and returning change nothing else.
Life-Reachable : (max : ℕ) (a b : State × Phase) → Life a b → Reachable max a.0 → Reachable max b.0
Life-Reachable max _ _ (goes_on s s' step) r = next s s' r step
Life-Reachable max _ _ (fails s) r = r
Life-Reachable max _ _ (works_on s s' w) r = next s s' r (work s s' w)
Life-Reachable max _ _ (returns received spawned running ended permits) r = r

Lives-Reachable : (max : ℕ) (a : State × Phase) → Lives max a → Reachable max a.0
Lives-Reachable max _ born = first
Lives-Reachable max _ (lives a b before step) =
    Life-Reachable max a b step (Lives-Reachable max a before)

-- Only an empty channel, with no message that waits, lets the loop return.
abbrev IsEmptied : State × Phase → Type 0
IsEmptied (s, receiving) = Unit
IsEmptied (s, closed) = Unit
IsEmptied (at received channel waiting spawned running ended permits, returned) =
    (channel ≡ []) × (waiting ≡ none)

Lives-IsEmptied : (max : ℕ) (a : State × Phase) → Lives max a → IsEmptied a
Lives-IsEmptied max _ born = tt
Lives-IsEmptied max _ (lives _ _ before (goes_on s s' step)) = tt
Lives-IsEmptied max _ (lives _ _ before (fails s)) = tt
Lives-IsEmptied max _ (lives _ _ before (works_on s s' w)) = tt
Lives-IsEmptied max _ (lives _ _ before (returns received spawned running ended permits)) =
    (refl, refl)

-- A worker that has returned has spawned a task for every message that it received, in their order;
-- each of these has ended or still runs as the process ends, and no more than max_concurrent do.
pub Lives-returned :
    (max : ℕ) (received channel : List Bytes) (waiting : Option Bytes)
    (spawned running : List Bytes) (ended permits : ℕ)
    → Lives max (at received channel waiting spawned running ended permits, returned)
    → (spawned ≡ received) × (length received ≡ length running + ended) × (length running ≤ max)
Lives-returned max received channel waiting spawned running ended permits life =
    let (a, b, c) = Reachable-Ordered max _ (Lives-Reachable max _ life) in
    let (no_more, none_waits) = Lives-IsEmptied max _ life in
    let empty : held waiting ++ channel ≡ [] = ap₂ (λ w t. held w ++ t) none_waits no_more in
    let all : spawned ≡ received =
      sym (append-nil spawned) ∙ ap (λ (t : List Bytes). spawned ++ t) (sym empty) ∙ b in
    (all, sym (ap length all) ∙ c, omega (arith, a))
