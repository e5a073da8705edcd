-- ===== src/Gateway/Aggregator/Slice/RoundTrip.antt =====
-- The gateway reads back what a worker wrote.
use distributed_softmax.Prelude.{
  ℕ, ◌+◌, ◌*◌, ◌^◌, ◌<◌, ◌≡◌, refl, sym, ap, ◌∙◌, false, true, some, List, [], ◌∷◌, ◌++◌, map,
  arith, length, length-append, append_assoc, ok, ◌==◌, le→ltb_false, ==_refl,
}
use native.Mathlib.Nat.{mod-eq_of_lt}
use distributed_softmax.Text.{Bytes}
use distributed_softmax.Floats.{Floats, IsBitExact}
use distributed_softmax.Wire.{little, to_le_bytes}
use distributed_softmax.Wire.Words.{length-to_le_bytes}
use distributed_softmax.Json.{Parser}
use distributed_softmax.Worker.Softmax.{PartialStats}
use distributed_softmax.Worker.Handler.Encode.{
  encode_values, encode_count, encode_partial, encode_normalized,
}
use distributed_softmax.Gateway.Aggregator.Cpu.Exact.{received}
use distributed_softmax.Gateway.Aggregator.Slice.Values.{
  field_word, length-encode_values, value_loop-encode_values,
}
use distributed_softmax.Gateway.Aggregator.Slice.{
  hdr, hdr2, field, read_partial, read_normalized, decode_slice,
}

module _ (F : Floats) where
  open F use {F64, F32, zero64, one64, widen, to_bits64, to_bits32}

  module _ (B : IsBitExact F) where
    abbrev pub word64 : F64 → Bytes
    word64 x = to_le_bytes 8 (to_bits64 x)

    length-word64 : (x : F64) → length (word64 x) ≡ 8
    length-word64 x = length-to_le_bytes 8 (to_bits64 x)

    abbrev pub count_bytes : List F32 → Bytes
    count_bytes vs = to_le_bytes 4 (length vs)

    pub encode_count_lem : (vs : List F32) → length vs < 2 ^ 32 → encode_count F vs ≡ count_bytes vs
    unfolding encode_count
    encode_count_lem vs h = ap (to_le_bytes 4) (mod-eq_of_lt h)

    -- `read_partial` on the bytes of a header and its values.
    module _ (top total : F64) (vs : List F32) (few : length vs < 2 ^ 32) where
      abbrev pub payload : Bytes
      payload = 0x01 ∷ (word64 top ++ (word64 total ++ (count_bytes vs ++ encode_values F vs)))

      abbrev header_bytes : Bytes
      header_bytes = 0x01 ∷ (word64 top ++ (word64 total ++ count_bytes vs))

      payload_split : payload ≡ header_bytes ++ encode_values F vs
      payload_split = ap (◌∷◌ 0x01) (
          sym (
            append_assoc (word64 top) (word64 total ++ count_bytes vs) (encode_values F vs)
            ∙ ap (λ (t : Bytes). word64 top ++ t)
                (append_assoc (word64 total) (count_bytes vs) (encode_values F vs))))

      length-header_bytes : length header_bytes ≡ hdr
      length-header_bytes = omega (
        arith,
        length-append (word64 top) (word64 total ++ count_bytes vs),
        length-append (word64 total) (count_bytes vs),
        length-word64 top,
        length-word64 total,
        length-to_le_bytes 4 (length vs),
      )

      pub length-payload : length payload ≡ hdr + length vs * 4
      length-payload =
          ap length payload_split
          ∙ omega (
            arith,
            length-append header_bytes (encode_values F vs),
            length-header_bytes,
            length-encode_values F vs,
          )

      field-top : field little payload 1 9 ≡ ok (to_bits64 top)
      field-top =
          field_word payload (0x01 ∷ []) (word64 total ++ (count_bytes vs ++ encode_values F vs)) 8
            (to_bits64 top) 1 9 refl (B.to_bits64_lt top) refl refl

      field-total : field little payload 9 17 ≡ ok (to_bits64 total)
      field-total =
          field_word payload (0x01 ∷ word64 top) (count_bytes vs ++ encode_values F vs) 8
            (to_bits64 total) 9 17 refl (B.to_bits64_lt total) (omega (arith, length-word64 top))
            refl

      pub field-count : field little payload 17 21 ≡ ok (length vs)
      field-count =
          field_word payload (0x01 ∷ (word64 top ++ word64 total)) (encode_values F vs) 4
            (length vs) 17 21 (ap (◌∷◌ 0x01) (sym (append_assoc (word64 top) (word64 total) _))) few
            (omega (
              arith,
              length-append (word64 top) (word64 total),
              length-word64 top,
              length-word64 total,
            ))
            refl

      read_payload :
          read_partial F little payload
          ≡ ok (
              some (record {
                exp_values = map widen vs;
                local_max = top;
                partial_sum = total;
                is_normalized = false;
              }))
      unfolding read_partial
      read_payload = rw (
        le→ltb_false (length payload) hdr (omega (arith, length-payload)),
        field-top,
        field-total,
        field-count,
        same_length,
        value_loop-encode_values F B vs payload header_bytes hdr 0 [] payload_split
            (omega (arith, length-header_bytes)),
        B.from_bits64-to_bits64 top,
        B.from_bits64-to_bits64 total,
      )
        where
          same_length : (length payload == hdr + length vs * 4) ≡ true
          same_length =
              ap (λ (n : ℕ). n == hdr + length vs * 4) length-payload
              ∙ ==_refl (hdr + length vs * 4)

      abbrev pub normalized : Bytes
      normalized = 0x02 ∷ (count_bytes vs ++ encode_values F vs)

      pub length-normalized : length normalized ≡ hdr2 + length vs * 4
      length-normalized = omega (
        arith,
        length-append (count_bytes vs) (encode_values F vs),
        length-to_le_bytes 4 (length vs),
        length-encode_values F vs,
      )

      pub field-normalized : field little normalized 1 5 ≡ ok (length vs)
      field-normalized =
          field_word normalized (0x02 ∷ []) (encode_values F vs) 4 (length vs) 1 5 refl few refl
            refl

      read_normalized_lem :
          read_normalized F little normalized
          ≡ ok (
              some (record {
                exp_values = map widen vs;
                local_max = zero64;
                partial_sum = one64;
                is_normalized = true;
              }))
      unfolding read_normalized
      read_normalized_lem = rw (
        le→ltb_false (length normalized) hdr2 (omega (arith, length-normalized)),
        field-normalized,
        same_length,
        value_loop-encode_values F B vs normalized (0x02 ∷ count_bytes vs) hdr2 0 [] refl
            (omega (arith, length-to_le_bytes 4 (length vs))),
      )
        where
          same_length : (length normalized == hdr2 + length vs * 4) ≡ true
          same_length =
              ap (λ (n : ℕ). n == hdr2 + length vs * 4) length-normalized
              ∙ ==_refl (hdr2 + length vs * 4)

    -- On a little-endian machine the gateway reads from the bytes of a partial softmax of fewer than
    -- 2 ^ 32 values just its maximum, its sum and its values, these as `f64`.
    pub decode-encode_partial :
        (parse : Parser F64) (idx : ℕ) (stats : PartialStats F)
        → length stats.exp_values < 2 ^ 32
        → decode_slice F little parse idx (encode_partial F stats) ≡ ok (some (received F stats))
    unfolding decode_slice encode_partial received
    decode-encode_partial parse idx stats few =
        rw (encode_count_lem stats.exp_values few)
          (read_payload stats.local_max stats.partial_sum stats.exp_values few)

    -- Likewise for a slice of normalized probabilities, which it marks as such.
    pub decode-encode_normalized :
        (parse : Parser F64) (idx : ℕ) (probs : List F32)
        → length probs < 2 ^ 32
        → decode_slice F little parse idx (encode_normalized F probs)
          ≡ ok (
              some (record {
                exp_values = map widen probs;
                local_max = zero64;
                partial_sum = one64;
                is_normalized = true;
              }))
    unfolding decode_slice encode_normalized
    decode-encode_normalized parse idx probs few =
        rw (encode_count_lem probs few) (read_normalized_lem zero64 zero64 probs few)
