-- ===== src/Gateway/Aggregator/Slice/Examples.antt =====
-- Slices at concrete bytes, and the theorems about them at concrete inputs.
use distributed_softmax.Prelude.{
  ◌≡◌, ◌≢◌, refl, inl, true, some, none, [], ◌∷◌, arith, ok, err, panic,
}
use distributed_softmax.Text.{Bytes, bytes, to_decimal, to_decimal_loop}
use distributed_softmax.Text.Utf8.{is_utf8, utf8_error}
use distributed_softmax.Floats.FixedPoint.{fixed_point, fixed_point-IsBitExact, word64, word32}
use distributed_softmax.Wire.{little, to_le_bytes}
use distributed_softmax.Json.{Parser}
use distributed_softmax.Worker.Softmax.{PartialStats}
use distributed_softmax.Worker.Handler.Encode.{
  encode_partial, encode_normalized, encode_count, encode_values,
}
use distributed_softmax.Gateway.Aggregator.Cpu.Exact.{received}
use distributed_softmax.Gateway.Aggregator.Slice.{hdr, hdr2, decode_slice, read_json}
use distributed_softmax.Gateway.Aggregator.Slice.RoundTrip.{
  decode-encode_partial, decode-encode_normalized,
}
use distributed_softmax.Gateway.Aggregator.Slice.Total.{
  Fits, decode_slice-Fits, decode_slice-ne-panic,
}
use distributed_softmax.Gateway.Aggregator.Slice.Truncated.{decode_truncated}

abbrev no_json : Parser fixed_point.F64
no_json raw = inl (bytes "expected value")

abbrev stats : PartialStats fixed_point
stats = record {
  local_max = word64 512;
  partial_sum = word64 384;
  exp_values = word32 256 ∷ word32 128 ∷ [];
}

encode_partial_runs :
    encode_partial fixed_point stats
    ≡ 1 ∷ 0 ∷ 2 ∷ 0 ∷ 0 ∷ 0 ∷ 0 ∷ 0 ∷ 0 ∷ 128 ∷ 1 ∷ 0 ∷ 0 ∷ 0 ∷ 0 ∷ 0 ∷ 0 ∷ 2 ∷ 0 ∷ 0 ∷ 0 ∷ 0 ∷ 1
      ∷ 0 ∷ 0 ∷ 128 ∷ 0 ∷ 0 ∷ 0 ∷ []
unfolding encode_partial encode_count encode_values to_le_bytes
encode_partial_runs = refl

decode-encode_partial_example :
    decode_slice fixed_point little no_json 0 (encode_partial fixed_point stats)
    ≡ ok (some (received fixed_point stats))
decode-encode_partial_example =
    decode-encode_partial fixed_point fixed_point-IsBitExact no_json 0 stats (omega arith)

decode-encode_normalized_example :
    decode_slice fixed_point little no_json 1 (encode_normalized fixed_point stats.exp_values)
    ≡ ok (
        some (record {
          exp_values = word64 256 ∷ word64 128 ∷ [];
          local_max = word64 0;
          partial_sum = word64 256;
          is_normalized = true;
        }))
decode-encode_normalized_example =
    decode-encode_normalized fixed_point fixed_point-IsBitExact no_json 1 stats.exp_values
      (omega arith)

decode_slice-Fits_example :
    Fits fixed_point hdr
      (1 ∷ 2 ∷ 3 ∷ [])
      (decode_slice fixed_point little no_json 0 (1 ∷ 2 ∷ 3 ∷ []))
    × Fits fixed_point hdr2
        (2 ∷ 2 ∷ 3 ∷ [])
        (decode_slice fixed_point little no_json 0 (2 ∷ 2 ∷ 3 ∷ []))
decode_slice-Fits_example = decode_slice-Fits fixed_point little no_json 0 (2 ∷ 3 ∷ [])

decode_slice-ne-panic_example : decode_slice fixed_point little no_json 0 (7 ∷ []) ≢ panic
decode_slice-ne-panic_example = decode_slice-ne-panic fixed_point little no_json 0 (7 ∷ [])

abbrev cut : Bytes
cut =
    1 ∷ 0 ∷ 2 ∷ 0 ∷ 0 ∷ 0 ∷ 0 ∷ 0 ∷ 0 ∷ 128 ∷ 1 ∷ 0 ∷ 0 ∷ 0 ∷ 0 ∷ 0 ∷ 0 ∷ 2 ∷ 0 ∷ 0 ∷ 0 ∷ 0 ∷ 1 ∷ 0
    ∷ 0 ∷ 128 ∷ 0 ∷ 0 ∷ []

decode_truncated_example : decode_slice fixed_point little no_json 0 cut ≡ ok none
unfolding encode_partial encode_count encode_values to_le_bytes
decode_truncated_example =
    decode_truncated fixed_point fixed_point-IsBitExact no_json 0 stats cut [] 0 (omega arith)
      (inl refl)

-- Bytes that are no text, and a text that is no JSON.
not_text :
    decode_slice fixed_point little no_json 7 (b'{' ∷ 0xC3 ∷ b'}' ∷ [])
    ≡ err (bytes "slice 7 not valid UTF-8: invalid utf-8 sequence of 1 bytes from index 1")
unfolding decode_slice read_json is_utf8 utf8_error to_decimal to_decimal_loop
not_text = refl

cut_text :
    decode_slice fixed_point little no_json 7 (b'{' ∷ 0xE2 ∷ 0x82 ∷ [])
    ≡ err (bytes "slice 7 not valid UTF-8: incomplete utf-8 byte sequence from index 1")
unfolding decode_slice read_json is_utf8 utf8_error to_decimal to_decimal_loop
cut_text = refl

no_json_read :
    decode_slice fixed_point little no_json 7 (b'{' ∷ [])
    ≡ err (bytes "slice 7 JSON parse failed: expected value")
unfolding decode_slice read_json is_utf8 to_decimal to_decimal_loop
no_json_read = refl
