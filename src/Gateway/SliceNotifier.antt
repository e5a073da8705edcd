-- ===== src/Gateway/SliceNotifier.antt =====
-- gateway-rs/src/slice_notifier.rs: `SliceNotifier`, the jobs that wait and how often each was notified.
-- The subscription itself is the `redis` crate's; a message of it is a call of `on_message`.
pub mod Wakeups
pub mod Subscriber
use distributed_softmax.Prelude.{
  ℕ, ◌+◌, Bool, true, false, Option, none, some, List, [], ◌∷◌, if◌then◌else◌,
}
use distributed_softmax.Text.{Bytes, bytes, beq, strip_prefix}

-- `DashMap<String, Arc<JobState>>`, each job with the value of its watch channel.
abbrev pub Jobs : Type 0
Jobs = List (Bytes × ℕ)

unfoldable pub get_job : Jobs → Bytes → Option ℕ
get_job [] job_id = none
get_job ((j, n) ∷ jobs) job_id =
    let later = get_job jobs job_id in if beq j job_id then some n else later

unfoldable pub unregister_job : Jobs → Bytes → Jobs
unregister_job [] job_id = []
unregister_job ((j, n) ∷ jobs) job_id =
    let later = unregister_job jobs job_id in if beq j job_id then later else (j, n) ∷ later

-- `insert` takes the place of what was there.
unfoldable pub register_job : Jobs → Bytes → Jobs
unfolding unregister_job
register_job jobs job_id = (job_id, 0) ∷ unregister_job jobs job_id

-- `state.count_tx.send_modify(|v| *v += 1)`
unfoldable pub bump : Jobs → Bytes → Jobs
bump [] job_id = []
bump ((j, n) ∷ jobs) job_id =
    let later = bump jobs job_id in if beq j job_id then (j, n + 1) ∷ jobs else (j, n) ∷ later

-- The body of `while let Some(msg) = stream.next().await`.
unfoldable pub on_message : Jobs → (channel : Bytes) → Jobs
unfolding bump
on_message jobs channel = elim (strip_prefix (bytes "slice_done:") channel) [
  | none ↦ jobs
  | some job_id ↦ bump jobs job_id
]
