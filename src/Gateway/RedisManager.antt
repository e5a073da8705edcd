-- ===== src/Gateway/RedisManager.antt =====
-- gateway-rs/src/redis_manager.rs: `RedisManager`, over any Redis server. The connection is set up
-- by the `redis` crate.
pub mod Progress
pub mod Keeps
pub mod Examples
use distributed_softmax.Prelude.{
  ℕ, zero, suc, ◌+◌, Bool, true, false, Option, none, some, List, [], ◌∷◌, ◌⊎◌, inl, inr,
  if◌then◌else◌, Outcome, ok, from_sum, or_panic,
}
use distributed_softmax.Prelude.Outcomes
use distributed_softmax.Prelude.Int.{ℤ, negsuc}
use distributed_softmax.Prelude.Effects.{Effect, ◌>>=◌, ◌>>◌, pure, call}
use distributed_softmax.Text.{Bytes, bytes}
use distributed_softmax.Json.{Field, text, count}
use distributed_softmax.Redis.{Redis}
use distributed_softmax.Gateway.Config.{
  Env, result_key, slice_key, metadata_key, progress_key, result_ttl, metadata_ttl, progress_ttl,
}

pub record JobMetadata : Type 0 where
  pub job_id : Bytes
  pub task_type : Bytes
  pub total_slices : ℕ
  pub created_at : ℕ
  pub status : Bytes

-- serde_json on what the gateway keeps in Redis and sends to the workers: the derived code for
-- `JobMetadata`, `Vec<f64>` as text, and the text of a `json!` object.
pub record Serde (N : Type 0) : Type 0 where
  pub metadata_to_string : JobMetadata → Bytes ⊎ Bytes
  pub metadata_from_str : Bytes → Bytes ⊎ JobMetadata
  pub numbers_to_string : List N → Bytes ⊎ Bytes
  pub numbers_from_str : Bytes → Bytes ⊎ List N
  pub object_to_string : List (Bytes × Field N) → Bytes

module _ (R : Redis) where
  -- What a call leaves of the server, with its result or its error.
  abbrev pub Io : Type 0 → Type 0
  Io A = Effect R.State Bytes A

  unfoldable pub set_ex : (key value : Bytes) (ttl : ℕ) → Io (Unit {0})
  set_ex key value ttl = call (R.set_ex key value ttl)

  unfoldable pub get_bytes : R.State → Bytes → Outcome Bytes (Option Bytes)
  get_bytes s key = from_sum (R.get s key)

  unfoldable pub get_str : R.State → Bytes → Outcome Bytes (Option Bytes)
  get_str s key = from_sum (R.get_string s key)

  -- A failed command answers `false`, -1 and no keys.
  unfoldable pub exists : R.State → Bytes → Bool
  exists s key = elim (R.exists s key) [ inl e ↦ false | inr b ↦ b ]

  unfoldable pub ttl : R.State → Bytes → ℤ
  ttl s key = elim (R.ttl s key) [ inl e ↦ negsuc 0 | inr n ↦ n ]

  unfoldable pub keys_by_pattern : R.State → Bytes → List Bytes
  keys_by_pattern s pattern = elim (R.keys s pattern) [ inl e ↦ [] | inr ks ↦ ks ]

  -- `for i in 0..total_slices`, with `left` slices to go.
  unfoldable pub count_loop : R.State → Bytes → (left i count : ℕ) → ℕ
  unfolding exists
  count_loop s job_id zero i n = n
  count_loop s job_id (suc left) i n =
      count_loop s job_id left (i + 1) (if exists s (slice_key job_id i) then n + 1 else n)

  unfoldable pub get_completed_slice_count : R.State → Bytes → ℕ → ℕ
  unfolding count_loop
  get_completed_slice_count s job_id total = count_loop s job_id total 0 0

  module _ {N : Type 0} (J : Serde N) (env : Env) where
    unfoldable pub set_job_metadata : Bytes → JobMetadata → Io (Unit {0})
    unfolding set_ex
    set_job_metadata job_id meta = do
      value ← pure (from_sum (J.metadata_to_string meta))
      set_ex (metadata_key job_id) value (metadata_ttl env)

    unfoldable pub get_job_metadata : R.State → Bytes → Outcome Bytes (Option JobMetadata)
    unfolding get_str
    get_job_metadata s job_id = Outcomes.◌>>=◌ (get_str s (metadata_key job_id)) (λ found.
        elim found [
          | none ↦ ok none
          | some raw ↦ Outcomes.◌>>=◌ (from_sum (J.metadata_from_str raw)) (λ meta. ok (some meta))
        ])

    -- The clock says how many seconds have passed since 1970; `none` is a time before it, where the
    -- `unwrap` panics.
    unfoldable pub update_progress : (clock : Option ℕ) → (job_id status : Bytes) → Io (Unit {0})
    unfolding set_ex
    update_progress clock job_id status = do
      now ← pure (or_panic clock)
      set_ex (progress_key job_id)
          (J.object_to_string (
            (bytes "job_id", text job_id)
            ∷ (bytes "status", text status)
            ∷ (bytes "updated_at", count now)
            ∷ []))
          (progress_ttl env)

    unfoldable pub store_final_result :
        (clock : Option ℕ) → (job_id result_json : Bytes) → Io (Unit {0})
    unfolding set_ex update_progress
    store_final_result clock job_id result_json = do
      set_ex (result_key job_id) result_json (result_ttl env)
      update_progress clock job_id (bytes "completed")
