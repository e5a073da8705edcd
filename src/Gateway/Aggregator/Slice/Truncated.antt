-- ===== src/Gateway/Aggregator/Slice/Truncated.antt =====
-- A slice that is cut short is never taken for a slice.
use distributed_softmax.Prelude.{
  ℕ, ◌+◌, ◌*◌, ◌^◌, ◌≤◌, ◌<◌, ◌≡◌, refl, sym, ap, ◌∙◌, ◌≢◌, ◌⊎◌, inl, inr, false, Bool-cases, none,
  List, [], ◌∷◌, ◌++◌, arith, length, length-append, range-append, ok, ltb, ◌==◌, ==_of_eq,
}
use distributed_softmax.Text.{Bytes}
use distributed_softmax.Floats.{Floats, IsBitExact}
use distributed_softmax.Wire.{Endian, little}
use distributed_softmax.Json.{Parser}
use distributed_softmax.Worker.Softmax.{PartialStats}
use distributed_softmax.Worker.Handler.Encode.{encode_partial, encode_normalized, encode_values}
use distributed_softmax.Gateway.Aggregator.Slice.{
  hdr, hdr2, field, read_partial, read_normalized, decode_slice,
}
use distributed_softmax.Gateway.Aggregator.Slice.Total.{field_total}
use distributed_softmax.Gateway.Aggregator.Slice.RoundTrip.{
  payload, length-payload, field-count, normalized, length-normalized, field-normalized,
  encode_count_lem, word64,
}

module _ (F : Floats) (e : Endian) where
  wrong_length : (n k : ℕ) → n ≢ k → (n == k) ≡ false
  wrong_length n k h = ground arith

  read_partial_wrong :
      (raw : Bytes) (n : ℕ)
      → (hdr ≤ length raw → field e raw 17 21 ≡ ok n)
      → length raw ≢ hdr + n * 4
      → read_partial F e raw ≡ ok none
  unfolding read_partial
  read_partial_wrong raw n q wrong = elim (Bool-cases (ltb (length raw) hdr)) [
    | inl short ↦ rw short
    | inr long ↦
        let enough : hdr ≤ length raw = ground arith in
        let (top, q1) = field_total e raw 1 9 (omega arith) (omega arith) in
        let (total, q2) = field_total e raw 9 17 (omega arith) (omega arith) in
        rw (long, q1, q2, q enough, wrong_length _ _ wrong)
  ]

  read_normalized_wrong :
      (raw : Bytes) (n : ℕ)
      → (hdr2 ≤ length raw → field e raw 1 5 ≡ ok n)
      → length raw ≢ hdr2 + n * 4
      → read_normalized F e raw ≡ ok none
  unfolding read_normalized
  read_normalized_wrong raw n q wrong = elim (Bool-cases (ltb (length raw) hdr2)) [
    | inl short ↦ rw short
    | inr long ↦
        let enough : hdr2 ≤ length raw = ground arith in rw (long, q enough, wrong_length _ _ wrong)
  ]

field-append :
    (e : Endian) (raw more whole : Bytes) (start end : ℕ)
    → whole ≡ raw ++ more
    → start ≤ end
    → end ≤ length raw
    → field e raw start end ≡ field e whole start end
unfolding field
field-append e raw more whole start end w h k = rw (w, range-append raw more start end h k)

shorter :
    (whole front back : Bytes) (x : ℕ) → whole ≡ front ++ (x ∷ back) → length front < length whole
shorter whole front back x e = omega (arith, ap length e, length-append front (x ∷ back))

module _ (F : Floats) (B : IsBitExact F) (parse : Parser F.F64) (idx : ℕ) where
  payload_prefix :
      (top total : F.F64) (vs : List F.F32) (few : length vs < 2 ^ 32) (front back : Bytes) (x : ℕ)
      → payload F B top total vs few ≡ front ++ (x ∷ back)
      → decode_slice F little parse idx front ≡ ok none
  unfolding decode_slice
  payload_prefix top total vs few [] back x e = refl
  payload_prefix top total vs few (m ∷ rest) back x e =
      let first : m ≡ 0x01 = cc in
      let less = shorter (payload F B top total vs few) (m ∷ rest) back x e in
      let count = λ (h : hdr ≤ length (m ∷ rest)).
        field-append little (m ∷ rest) (x ∷ back) (payload F B top total vs few) 17 21 e
          (omega arith) h
        ∙ field-count F B top total vs few in
      rw (==_of_eq m 0x01 first) (
        read_partial_wrong F little (m ∷ rest) (length vs) count
          (λ same. omega (arith, less, same, length-payload F B top total vs few)))

  normalized_prefix :
      (vs : List F.F32) (few : length vs < 2 ^ 32) (front back : Bytes) (x : ℕ)
      → normalized F B F.zero64 F.zero64 vs few ≡ front ++ (x ∷ back)
      → decode_slice F little parse idx front ≡ ok none
  unfolding decode_slice
  normalized_prefix vs few [] back x e = refl
  normalized_prefix vs few (m ∷ rest) back x e =
      let first : m ≡ 0x02 = cc in
      let less = shorter (normalized F B F.zero64 F.zero64 vs few) (m ∷ rest) back x e in
      let count = λ (h : hdr2 ≤ length (m ∷ rest)).
        field-append little (m ∷ rest) (x ∷ back) (normalized F B F.zero64 F.zero64 vs few) 1 5 e
          (omega arith) h
        ∙ field-normalized F B F.zero64 F.zero64 vs few in
      rw (ap (λ (t : ℕ). t == 0x01) first, ==_of_eq m 0x02 first)
        (read_normalized_wrong F little (m ∷ rest) (length vs) count
          (λ same. omega (arith, less, same, length-normalized F B F.zero64 F.zero64 vs few)))

  -- Of the bytes of a partial softmax with fewer than 2 ^ 32 values, or of so many normalized
  -- probabilities, every proper prefix is read on a little-endian machine as a slice that is not there
  -- yet.
  pub decode_truncated :
      (stats : PartialStats F) (front back : Bytes) (x : ℕ)
      → length stats.exp_values < 2 ^ 32
      → (encode_partial F stats ≡ front ++ (x ∷ back))
        ⊎ (encode_normalized F stats.exp_values ≡ front ++ (x ∷ back))
      → decode_slice F little parse idx front ≡ ok none
  unfolding encode_partial encode_normalized
  decode_truncated stats front back x few (inl e) =
      payload_prefix stats.local_max stats.partial_sum stats.exp_values few front back x (
        ap
          (λ (c : Bytes).
            0x01
            ∷ (word64 F B stats.local_max
                ++ (word64 F B stats.partial_sum ++ (c ++ encode_values F stats.exp_values))))
          (sym (encode_count_lem F B stats.exp_values few))
        ∙ e)
  decode_truncated stats front back x few (inr e) =
      normalized_prefix stats.exp_values few front back x (
        ap (λ (c : Bytes). 0x02 ∷ (c ++ encode_values F stats.exp_values))
          (sym (encode_count_lem F B stats.exp_values few))
        ∙ e)
