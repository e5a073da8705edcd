-- ===== src/Gateway/RedisManager/Keeps.antt =====
-- What the gateway stores it finds again, and what it keeps apart.
use distributed_softmax.Prelude.{
  ℕ, ◌≡◌, ◌≢◌, refl, sym, ap, ◌∙◌, true, Option, some, none, inr, Outcome, ok,
}
use distributed_softmax.Prelude.Effects.{call_ok, bind_ok}
use distributed_softmax.Text.{Bytes, bytes}
use distributed_softmax.Text.Separator.{beq_iff, beq_apart}
use distributed_softmax.Text.Utf8.{is_utf8}
use distributed_softmax.Redis.{Redis, IsStore}
use distributed_softmax.Gateway.Config.{
  Env, result_key, slice_key, metadata_key, progress_key, result_ttl, progress_ttl,
}
use distributed_softmax.Gateway.Config.Keys.{key_kinds_apart}
use distributed_softmax.Gateway.RedisManager.{
  JobMetadata, Serde, set_ex, get_str, set_job_metadata, get_job_metadata, update_progress,
  store_final_result,
}

module _ (R : Redis) (store : IsStore R) where
  open R use {State}

  module _ (s s' : State) (key value : Bytes) (ttl : ℕ)
      (done : set_ex R key value ttl s ≡ (ok tt, s')) where
    accepted : R.set_ex key value ttl s ≡ (inr tt, s')
    unfolding set_ex
    accepted = call_ok (R.set_ex key value ttl) s s' tt done

    pub set_ex_own : R.get s' key ≡ inr (some value)
    set_ex_own =
        rw (store.get-set_ex s s' key value key ttl accepted, (beq_iff key key).1 refl) refl

    pub set_ex_other : (j : Bytes) → j ≢ key → R.get s' j ≡ R.get s j
    set_ex_other j ne = rw (store.get-set_ex s s' key value j ttl accepted, beq_apart j key ne) refl

  pub get_str_of_get :
      (s : State) (key value : Bytes)
      → R.get s key ≡ inr (some value)
      → is_utf8 value ≡ true
      → get_str R s key ≡ ok (some value)
  unfolding get_str
  get_str_of_get s key value e u = rw (store.get_string_text s key value e u) refl

  module _ {N : Type 0} (J : Serde N) (env : Env) where
    -- The metadata of a job that were stored are found again, where serde_json reads them from the text
    -- it made of them, and nothing else in Redis has changed.
    pub get-set_job_metadata :
        (s s' : State) (job_id raw : Bytes) (meta : JobMetadata)
        → J.metadata_to_string meta ≡ inr raw
        → J.metadata_from_str raw ≡ inr meta
        → is_utf8 raw ≡ true
        → set_job_metadata R J env job_id meta s ≡ (ok tt, s')
        → (get_job_metadata R J env s' job_id ≡ ok (some meta))
          × ((j : Bytes) → j ≢ metadata_key job_id → R.get s' j ≡ R.get s j)
    unfolding set_job_metadata get_job_metadata
    get-set_job_metadata s s' job_id raw meta written read text done =
        let done' = rw written at done in
        let here = set_ex_own s s' (metadata_key job_id) raw _ done' in
        (
          rw (get_str_of_get s' (metadata_key job_id) raw here text, read) refl,
          set_ex_other s s' (metadata_key job_id) raw _ done',
        )

    -- Progress is written to one key, at a time that the clock can say.
    update_progress_ok :
        (s s' : State) (clock : Option ℕ) (job_id status : Bytes)
        → update_progress R J env clock job_id status s ≡ (ok tt, s')
        → (value : Bytes) × (set_ex R (progress_key job_id) value (progress_ttl env) s
            ≡ (ok tt, s'))
    unfolding update_progress
    update_progress_ok s s' (some now) job_id status done = (_, done)
    update_progress_ok s s' none job_id status done =
        absurd (cc (ap (λ (p : Outcome Bytes (Unit {0}) × State). p.0) done))

    -- A stored result is found under its key; the metadata and the slices are as they were, unless a
    -- slice has the result's key.
    pub store_final_result_lem :
        (s s' : State) (clock : Option ℕ) (job_id json : Bytes)
        → is_utf8 json ≡ true
        → store_final_result R J env clock job_id json s ≡ (ok tt, s')
        → (get_str R s' (result_key job_id) ≡ ok (some json))
          × ((j : Bytes) → R.get s' (metadata_key j) ≡ R.get s (metadata_key j))
          × ((j : Bytes) (i : ℕ)
              → slice_key j i ≢ result_key job_id
              → R.get s' (slice_key j i) ≡ R.get s (slice_key j i))
    unfolding store_final_result update_progress
    store_final_result_lem s s' clock job_id json text done =
        let (u, t, first, rest) =
          bind_ok (set_ex R (result_key job_id) json (result_ttl env))
            (λ u. update_progress R J env clock job_id (bytes "completed")) s s' tt done in
        let (value, second) = update_progress_ok t s' clock job_id (bytes "completed") rest in
        let unmoved : (j : Bytes) → j ≢ progress_key job_id → R.get s' j ≡ R.get t j =
          set_ex_other t s' (progress_key job_id) value _ second in
        let stored : R.get t (result_key job_id) ≡ inr (some json) =
          set_ex_own s t (result_key job_id) json _ first in
        let kept : (j : Bytes) → j ≢ result_key job_id → R.get t j ≡ R.get s j =
          set_ex_other s t (result_key job_id) json _ first in
        (
          get_str_of_get s' (result_key job_id) json
              (unmoved (result_key job_id) (λ e. (key_kinds_apart job_id job_id 0).3 (sym e))
                ∙ stored)
              text,
          (λ j.
              unmoved (metadata_key j) (key_kinds_apart j job_id 0).0
              ∙ kept (metadata_key j) (key_kinds_apart j job_id 0).1),
          (λ j i ne.
              unmoved (slice_key j i) (λ e. (key_kinds_apart job_id j i).4 (sym e))
              ∙ kept (slice_key j i) ne),
        )
