-- ===== src/Coder/Encoder/Output.antt =====
-- What `encode` and `finish` write: the bits of the run over the symbols that were encoded.
use alice_text.Prelude.{
  refl, suc, ℕ, ◌≡◌, List, [], ◌∷◌, replicate, Bool-cases, inl, inr, ◌+◌, false, arith, ◌++◌, ◌∙◌,
  ◌-◌, ap, sym, true, ◌<◌, ◌≤◌, ◌*◌, ◌^◌, ◌%◌,
}
use mathlib.Core.Path.{subst}
use mathlib.Core.List.{append-nil, append_assoc}
use alice_text.Bytes.{Bytes}
use alice_text.Coder.{quarter, whole}
use alice_text.Coder.Model.{FrequencyModel, get_range}
use alice_text.Coder.Interval.{
  narrow-inside, stable-width, narrow_low, narrow_high, IsEnough-start, IsShare, IsInterval,
}
use alice_text.Coder.Stream.{Bits, Run, final, done, narrow, emission}
use alice_text.Coder.Encoder.{
  ArithmeticEncoder, output_final, encode_symbol, encode, finish, normalize, ltb, some, new, fuel,
  length,
}
use alice_text.Coder.Encoder.Packing.{
  IsPacked, bytes_bits, written, output_pending-Puts, flush-bits,
}
use alice_text.Coder.Encoder.Writes.{Writes, IsReady, Settles, normalize_from-Settles}

output_final-bits :
    (e : ArithmeticEncoder)
    → IsPacked e
    → e.pending_bits + 1 < 2 ^ 32
    → IsPacked (output_final e)
      × ((rest : Bits)
          → written (output_final e) ++ rest
            ≡ written e ++ final (ltb e.low quarter) e.pending_bits rest)
unfolding output_final
output_final-bits e packed few =
    let next : (e.pending_bits + 1) % 2 ^ 32 ≡ suc e.pending_bits = omega arith in
    elim (Bool-cases (ltb e.low quarter)) [
      | inl below ↦
          let (puts, none_left) =
            output_pending-Puts 0 1 (record e { pending_bits = (e.pending_bits + 1) % 2 ^ 32 })
              packed in
          rw below (
            puts.packed,
            λ rest.
                ap (λ r. r ++ rest) puts.bits
                ∙ append_assoc (written e) _ rest
                ∙ ap (λ p. written e ++ false ∷ (replicate p true ++ rest)) next,
          )
      | inr above ↦
          let (puts, none_left) =
            output_pending-Puts 1 0 (record e { pending_bits = (e.pending_bits + 1) % 2 ^ 32 })
              packed in
          rw above (
            puts.packed,
            λ rest.
                ap (λ r. r ++ rest) puts.bits
                ∙ append_assoc (written e) _ rest
                ∙ ap (λ p. written e ++ true ∷ (replicate p false ++ rest)) next,
          )
    ]

-- The bits of `finish` end a run.
finish-Writes :
    (model : FrequencyModel) (e : ArithmeticEncoder)
    → IsReady e
    → e.pending_bits + 1 < 2 ^ 32
    → Writes model [] e (finish e)
unfolding finish emission
finish-Writes model e ready few =
    let (packed, same) = output_final-bits e ready.packed few in
    let (k, bits) = flush-bits (output_final e) packed in
    (done ready.settled, replicate k false, bits ∙ same (replicate k false))

-- Each symbol has a range of the model.
abbrev pub IsCodable : FrequencyModel → Bytes → Type 0
IsCodable model [] = Unit
IsCodable model (s ∷ bytes) =
    ((sl : ℕ) × (sh : ℕ) × (get_range model s ≡ some (sl, sh, model.total))
      × IsShare sl sh model.total)
    × IsCodable model bytes

abbrev narrowed : ArithmeticEncoder → ℕ → ℕ → ℕ → ArithmeticEncoder
narrowed e sl sh t = record e {
  low = narrow_low e.low e.high sl t;
  high = narrow_high e.low e.high sh t;
}

encode_symbol-some :
    (model : FrequencyModel) (e : ArithmeticEncoder) (s sl sh t : ℕ)
    → get_range model s ≡ some (sl, sh, t)
    → encode_symbol model e s ≡ normalize (narrowed e sl sh t)
unfolding encode_symbol
encode_symbol-some model e s sl sh t found = rw (found, encode_symbol) refl

normalize-Settles :
    (model : FrequencyModel) (e : ArithmeticEncoder)
    → IsPacked e
    → IsInterval e.low e.high
    → e.pending_bits + 32 < 2 ^ 32
    → Settles model 32 e (normalize e)
unfolding normalize
normalize-Settles model e packed interval few =
    normalize_from-Settles model fuel e packed interval (IsEnough-start e.low e.high interval) few

-- What symbols do of an encoder, each with at most 32 more bits pending.
abbrev Adds : FrequencyModel → Bytes → ArithmeticEncoder → ArithmeticEncoder → Type 0
Adds model added e e' =
    IsReady e'
    × (e'.pending_bits ≤ e.pending_bits + 32 * length added)
    × ((symbols : List ℕ) (bytes : Bytes)
        → Writes model symbols e' bytes
        → Writes model (added ++ symbols) e bytes)

encode_symbol-Adds :
    (model : FrequencyModel) (e : ArithmeticEncoder) (s sl sh : ℕ)
    → get_range model s ≡ some (sl, sh, model.total)
    → IsShare sl sh model.total
    → IsReady e
    → e.pending_bits + 32 < 2 ^ 32
    → Adds model (s ∷ []) e (encode_symbol model e s)
unfolding emission
encode_symbol-Adds model e s sl sh found share ready few =
    let (above, proper, below) =
      narrow-inside e.low e.high sl sh model.total ready.interval
        (stable-width e.low e.high ready.settled ready.interval) share in
    let (ready', pending, writes) =
      normalize-Settles model (narrowed e sl sh model.total) ready.packed
        (proper, omega (arith, below, ready.interval)) few in
    subst (Adds model (s ∷ []) e) (sym (encode_symbol-some model e s sl sh model.total found)) (
      ready',
      pending,
      λ symbols bytes w.
          let (r, rest, bits) = writes symbols bytes w in
          (narrow s sl sh found share ready.settled r, rest, bits),
    )

encode-Adds :
    (model : FrequencyModel) (added : Bytes) (e : ArithmeticEncoder)
    → IsCodable model added
    → IsReady e
    → e.pending_bits + 32 * length added < 2 ^ 32
    → Adds model added e (encode model added e)
unfolding encode
encode-Adds model [] e h ready few = (ready, omega arith, λ symbols bytes w. w)
encode-Adds model (s ∷ added) e ((sl, sh, found, share), h) ready few =
    let (ready', one, first) =
      encode_symbol-Adds model e s sl sh found share ready (omega (arith, few)) in
    let (ready'', more, others) =
      encode-Adds model added (encode_symbol model e s) h ready' (omega (arith, few, one)) in
    (
      ready'',
      omega (arith, one, more),
      λ symbols bytes w. first (added ++ symbols) bytes (others symbols bytes w),
    )

new-IsReady : IsReady new
new-IsReady = record {
  packed = (omega arith, omega arith);
  interval = (omega arith, omega arith);
  settled = (omega arith, omega arith, inl (omega arith));
}

-- For a text of fewer than 2^27 bytes, each with a range of the model, the bytes are the bits of a
-- run over the text, with more bits behind them.
pub finish-encode :
    (model : FrequencyModel) (text : Bytes)
    → IsCodable model text
    → length text < 2 ^ 27
    → (r : Run model text 0 (whole - 1)) × (rest : Bits) × (bytes_bits
          (finish (encode model text new))
        ≡ emission model r 0 rest)
finish-encode model text h short =
    let (ready, pending, adds) = encode-Adds model text new h new-IsReady (omega (arith, short)) in
    subst (λ l. Writes model l new (finish (encode model text new))) (append-nil text)
      (adds [] (finish (encode model text new))
        (finish-Writes model _ ready (omega (arith, pending, short))))
