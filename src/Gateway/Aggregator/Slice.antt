-- ===== src/Gateway/Aggregator/Slice.antt =====
-- gateway-rs/src/aggregator.rs: `read_slice`, from the bytes that Redis returns.
pub mod Values
pub mod RoundTrip
pub mod Total
pub mod Truncated
pub mod Examples
use distributed_softmax.Prelude.{
  ℕ, zero, suc, ◌+◌, ◌*◌, true, false, Option, none, some, List, [], ◌∷◌, ◌++◌, ltb, ◌==◌, not,
  if◌then◌else◌, length, range, Outcome, ok, err, or_panic, or_fail, from_sum, ◌>>=◌,
}
use distributed_softmax.Text.{Bytes, bytes, to_decimal}
use distributed_softmax.Errors.{with_prefix}
use distributed_softmax.Text.Utf8.{is_utf8, utf8_error}
use distributed_softmax.Floats.{Floats}
use distributed_softmax.Wire.{Endian, from_ne_bytes}
use distributed_softmax.Json.{Parser, Value, index, as_f64, as_array, filter_numbers}
use distributed_softmax.Gateway.Aggregator.Cpu.{SliceStats}

-- `1 + 8 + 8 + 4` and `1 + 4`
abbrev pub hdr : ℕ
hdr = 21

abbrev pub hdr2 : ℕ
hdr2 = 5

-- An error is its text, as `anyhow` keeps it.
abbrev pub Result : Type 0 → Type 0
Result = Outcome Bytes

-- `XX::from_ne_bytes(raw[start..end].try_into()?)` before the bits are read as a number.
unfoldable pub field : Endian → Bytes → ℕ → ℕ → Result ℕ
unfolding range
field e raw start end = or_panic (range raw start end) >>= λ bs. ok (from_ne_bytes e bs)

unfoldable pub or_default : {N : Type 0} → Option N → N → N
or_default none d = d
or_default (some x) d = x

module _ (F : Floats) (e : Endian) where
  open F use {F64, zero64, one64, widen, from_bits64, from_bits32}

  -- `for i in 0..n`, with `left` rounds to go.
  unfoldable pub value_loop : Bytes → (header left i : ℕ) → List F64 → Result (List F64)
  value_loop raw header zero i out = ok out
  value_loop raw header (suc left) i out =
      let off = header + i * 4 in
      field e raw off (off + 4) >>= λ bits.
      value_loop raw header left (i + 1) (out ++ (widen (from_bits32 bits) ∷ []))

  -- The 0x01 branch.
  unfoldable pub read_partial : Bytes → Result (Option (SliceStats F))
  unfolding value_loop field
  read_partial raw = if ltb (length raw) hdr then ok none else do
    local_max ← field e raw 1 9
    partial_sum ← field e raw 9 17
    n ← field e raw 17 21
    if not (length raw == hdr + n * 4) then ok none else do
      exp_values ← value_loop raw hdr n 0 []
      ok (
          some (record {
            exp_values = exp_values;
            local_max = from_bits64 local_max;
            partial_sum = from_bits64 partial_sum;
            is_normalized = false;
          }))

  -- The 0x02 branch.
  unfoldable pub read_normalized : Bytes → Result (Option (SliceStats F))
  unfolding value_loop field
  read_normalized raw = if ltb (length raw) hdr2 then ok none else do
    n ← field e raw 1 5
    if not (length raw == hdr2 + n * 4) then ok none else do
      exp_values ← value_loop raw hdr2 n 0 []
      ok (
          some (record {
            exp_values = exp_values;
            local_max = zero64;
            partial_sum = one64;
            is_normalized = true;
          }))

  -- The JSON fallback.
  unfoldable pub read_json : Parser F64 → ℕ → Bytes → Result (Option (SliceStats F))
  unfolding or_default is_utf8 utf8_error
  read_json parse idx raw = do
    s ←
        or_fail (if is_utf8 raw then some raw else none)
          (bytes "slice " ++ (to_decimal idx ++ (bytes " not valid UTF-8: " ++ utf8_error raw)))
    j ←
        with_prefix (bytes "slice " ++ (to_decimal idx ++ bytes " JSON parse failed: "))
          (from_sum (parse s))
    values ←
        or_fail (as_array (index j (bytes "exp_values")))
          (bytes "slice " ++ (to_decimal idx ++ bytes " missing exp_values"))
    ok (
        some (record {
          exp_values = filter_numbers values;
          local_max = or_default (as_f64 (index j (bytes "local_max"))) zero64;
          partial_sum = or_default (as_f64 (index j (bytes "partial_sum"))) one64;
          is_normalized = false;
        }))

  -- What `read_slice` makes of the value under the slice's key.
  unfoldable pub decode_slice : Parser F64 → ℕ → Bytes → Result (Option (SliceStats F))
  decode_slice parse idx [] = ok none
  decode_slice parse idx (magic ∷ rest) =
      let raw = magic ∷ rest in
      if magic == 0x01
      then read_partial raw
      else if magic == 0x02
      then read_normalized raw
      else read_json parse idx raw
