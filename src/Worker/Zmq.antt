-- ===== src/Worker/Zmq.antt =====
-- worker-rs/src/transport/zmq.rs: `run` once the socket is connected, as the steps of its socket
-- thread, of its loop, and of the tasks that the loop spawns. A step of the loop ends where it waits.
pub mod Connect
pub mod Order
pub mod Ends
pub mod Examples
use distributed_softmax.Prelude.{ℕ, suc, ◌+◌, ◌≡◌, Option, none, some, List, [], ◌∷◌, ◌++◌}
use distributed_softmax.Text.{Bytes}

-- The messages that the socket has received, in order; those in the channel; the one that the loop has
-- taken and waits with for a permit; those that a task was spawned for, in order; those whose task
-- runs; how many tasks have ended; and the free permits of the semaphore.
pub data State : Type 0 where
  at :
      (received channel : List Bytes) (waiting : Option Bytes) (spawned running : List Bytes)
      (ended permits : ℕ)
      → State

-- `Semaphore::new(max_concurrent)`, before any message.
abbrev pub start : ℕ → State
start max_concurrent = at [] [] none [] [] 0 max_concurrent

-- What the worker does by itself. `take_message` is `rx.recv()`, `spawn_task` is `acquire_owned()` with
-- the spawning, and `end_task` the end of a task, by an error or a panic too, where it drops its permit.
pub data Work : State → State → Type 0 where
  take_message :
      (received channel spawned running : List Bytes) (ended permits : ℕ) (m : Bytes)
      → Work
          (at received (m ∷ channel) none spawned running ended permits)
          (at received channel (some m) spawned running ended permits)
  spawn_task :
      (received channel spawned running : List Bytes) (ended permits : ℕ) (m : Bytes)
      → Work
          (at received channel (some m) spawned running ended (suc permits))
          (at received channel none (spawned ++ (m ∷ [])) (running ++ (m ∷ [])) ended permits)
  end_task :
      (received channel : List Bytes) (waiting : Option Bytes) (spawned before after : List Bytes)
      (ended permits : ℕ) (m : Bytes) (running : List Bytes)
      → running ≡ before ++ (m ∷ after)
      → Work
          (at received channel waiting spawned running ended permits)
          (at received channel waiting spawned (before ++ after) (ended + 1) (permits + 1))

pub data Step : State → State → Type 0 where
  receive :
      (received channel : List Bytes) (waiting : Option Bytes) (spawned running : List Bytes)
      (ended permits : ℕ) (m : Bytes)
      → Step
          (at received channel waiting spawned running ended permits)
          (at (received ++ (m ∷ [])) (channel ++ (m ∷ [])) waiting spawned running ended permits)
  work : (s s' : State) → Work s s' → Step s s'

-- The states that a worker with so many permits gets to.
pub data Reachable (max_concurrent : ℕ) : State → Type 0 where
  first : Reachable max_concurrent (start max_concurrent)
  next : (s s' : State) → Reachable max_concurrent s → Step s s' → Reachable max_concurrent s'

-- Any number of steps without a new message.
pub data Works : State → State → Type 0 where
  done : (s : State) → Works s s
  more : (s t u : State) → Work s t → Works t u → Works s u
