-- ===== src/Redis.antt =====
-- The Redis server, as the `redis` crate shows it to the gateway and the worker: its commands are a
-- parameter of the model, and so is what a command finds, which other clients may have changed.
pub mod Memory
use distributed_softmax.Prelude.{
  ℕ, ◌≡◌, Bool, true, false, Option, none, some, List, ◌⊎◌, inl, inr, if◌then◌else◌,
}
use distributed_softmax.Prelude.Int.{ℤ, pos}
use distributed_softmax.Text.{Bytes, beq}
use distributed_softmax.Text.Utf8.{is_utf8}

-- A failed command returns the text of its error. `set_ex` takes the lifetime in seconds.
pub record Redis : Type 1 where
  pub State : Type 0
  pub get : State → Bytes → Bytes ⊎ Option Bytes
  pub get_string : State → Bytes → Bytes ⊎ Option Bytes  -- the same command, read as a `String`
  pub exists : State → Bytes → Bytes ⊎ Bool
  pub ttl : State → Bytes → Bytes ⊎ ℤ
  pub keys : State → Bytes → Bytes ⊎ List Bytes
  pub set : Bytes → Bytes → State → (Bytes ⊎ Unit {0}) × State
  pub set_ex : Bytes → Bytes → ℕ → State → (Bytes ⊎ Unit {0}) × State
  pub publish : Bytes → Bytes → State → (Bytes ⊎ Unit {0}) × State

-- The commands between two changes by other clients, on a connection that is up.
pub record IsStore (R : Redis) : Type 0 where
  pub get-set :
      (s s' : R.State) (k v j : Bytes)
      → R.set k v s ≡ (inr tt, s')
      → R.get s' j ≡ (if beq j k then inr (some v) else R.get s j)
  pub get-set_ex :
      (s s' : R.State) (k v j : Bytes) (t : ℕ)
      → R.set_ex k v t s ≡ (inr tt, s')
      → R.get s' j ≡ (if beq j k then inr (some v) else R.get s j)
  pub get-publish :
      (s s' : R.State) (c m j : Bytes) → R.publish c m s ≡ (inr tt, s') → R.get s' j ≡ R.get s j
  pub get_string_text :
      (s : R.State) (k v : Bytes)
      → R.get s k ≡ inr (some v)
      → is_utf8 v ≡ true
      → R.get_string s k ≡ inr (some v)
  pub get_string_missing :
      (s : R.State) (k : Bytes) → R.get s k ≡ inr none → R.get_string s k ≡ inr none
  pub exists_present :
      (s : R.State) (k v : Bytes) → R.get s k ≡ inr (some v) → R.exists s k ≡ inr true
  pub exists_missing : (s : R.State) (k : Bytes) → R.get s k ≡ inr none → R.exists s k ≡ inr false
  pub ttl-set_ex :
      (s s' : R.State) (k v : Bytes) (t : ℕ)
      → R.set_ex k v t s ≡ (inr tt, s')
      → R.ttl s' k ≡ inr (pos t)
