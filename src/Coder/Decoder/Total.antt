-- ===== src/Coder/Decoder/Total.antt =====
-- `decode` of arbitrary bytes: it gives as many symbols as were asked for, all of them of the model.
use alice_text.Prelude.{
  ℕ, zero, suc, ◌≡◌, ◌≤◌, ◌<◌, refl, arith, [], ◌∷◌, List, length, some, inl, inr, le→leb, lt→ltb,
  ==_iff, ◌&&◌, ap, sym, ltb, ◌∙◌, Bool-cases, ◌==◌,
}
use mathlib.Core.Path.{ap₂, subst}
use native.Mathlib.Decide.{dec_lt}
use mathlib.Core.Option.{none-ne-some}
use alice_text.Bytes.{Bytes}
use alice_text.Coder.Stream.{number-lt}
use alice_text.Coder.Encoder.Packing.{bytes_bits}
use alice_text.Coder.Decoder.Sees.{new-Sees}
use alice_text.Coder.{quarter}
use alice_text.Coder.Model.{
  FrequencyModel, Entry, find_entry, find_value, get_symbol, get_range, from_data,
}
use alice_text.Coder.Model.Table.{IsTable, find_entry-IsRange, get_range-some}
use alice_text.Coder.Model.Counts.{count, from_data-IsTable}
use alice_text.Coder.Interval.{
  branch, stable, InBranch, IsInterval, narrow-inside, stable-width, lookup_value, narrow_low,
  narrow_high, IsEnough-start, branch-InBranch,
}
use alice_text.Coder.Encoder.{fuel}
use alice_text.Coder.Decoder
use alice_text.Coder.Decoder.{
  ArithmeticDecoder, decode_symbol, take_symbol, normalize, decode, shift_many, leb, true, false,
}
use alice_text.Coder.Decoder.Code.{
  IsValid, narrow-IsInside, lookup_value-lt, normalize_from-IsValid,
}
use alice_text.Coder.RoundTrip.{decode-one, IsCovered, decode_symbol-some}

-- A value of the table is in the range of an entry.
find_value-some :
    (lo : ℕ) (es : List Entry) (hi value : ℕ)
    → IsTable lo es hi
    → lo ≤ value
    → value < hi
    → (e : Entry) × (find_value es value ≡ some e.symbol)
      × (find_entry es e.symbol ≡ some e)
      × (e.low ≤ value)
      × (value < e.high)
unfolding find_value find_entry
find_value-some lo [] hi value t above below = absurd (omega (arith, t))
find_value-some lo (e ∷ es) hi value t above below = elim (dec_lt value e.high) [
  | yes here ↦
      let first : leb e.low value ≡ true = le→leb e.low value (omega (arith, t.0)) in
      let second = lt→ltb value e.high here in
      let same = (==_iff e.symbol e.symbol).1 refl in
      (e, rw (first, second) refl, rw same refl, omega (arith, t.0), here)
  | no after ↦
      let (f, value_found, found, f_low, f_high) =
        find_value-some e.high es hi value t.3 (omega arith) below in
      let passed : (leb e.low value && ltb value e.high) ≡ false = ground arith in
      elim (Bool-cases (e.symbol == f.symbol)) [
        | inl same ↦ absurd (
            none-ne-some f
              (sym t.2 ∙ ap (find_entry es) ((==_iff e.symbol f.symbol).0 same) ∙ found))
        | inr other ↦ (f, rw passed value_found, rw other found, f_low, f_high)
      ]
]

get_symbol-find_value :
    (model : FrequencyModel) (value s : ℕ)
    → find_value model.cumulative value ≡ some s
    → get_symbol model value ≡ some s
unfolding get_symbol
get_symbol-find_value model value s found = rw (found, get_symbol) refl

-- A decoder between two symbols.
record IsReady (d : ArithmeticDecoder) : Type 0 where
  pub valid : IsValid d
  pub settled : branch d.low d.high ≡ stable

module _ (model : FrequencyModel) (table : IsTable 0 model.cumulative model.total)
    (positive : 0 < model.total) (few : model.total ≤ quarter) where
  -- A symbol is found, and the decoder is ready for the next.
  decode_symbol-IsReady :
      (d : ArithmeticDecoder)
      → IsReady d
      → (s : ℕ) × (d' : ArithmeticDecoder) × (e : Entry) × (decode_symbol model d ≡ some (s, d'))
        × IsReady d'
        × (get_range model s ≡ some (e.low, e.high, model.total))
  unfolding take_symbol normalize
  decode_symbol-IsReady d ready =
      let valid = ready.valid in
      let value = lookup_value d.low d.high d.code model.total in
      let small = lookup_value-lt d.low d.high d.code model.total positive valid.inside in
      let (e, value_found, found, above, below) =
        find_value-some 0 model.cumulative model.total value table (omega arith) small in
      let (low_le, wide, high_le, named) = find_entry-IsRange 0 _ _ e.symbol e table found in
      let inside =
        narrow-IsInside d.low d.high e.low e.high model.total d.code positive valid.inside above
          below in
      let settled =
        subst (λ b. InBranch b d.low d.high) ready.settled (branch-InBranch d.low d.high) in
      let (low_in, proper, high_in) =
        narrow-inside d.low d.high e.low e.high model.total valid.interval
          (stable-width d.low d.high settled valid.interval)
          (record { nonempty = wide; inside = high_le; few = few }) in
      let next = record d {
        low = narrow_low d.low d.high e.low model.total;
        high = narrow_high d.low d.high e.high model.total;
      } in
      let interval : IsInterval next.low next.high =
        (proper, omega (arith, high_in, valid.interval)) in
      let (valid', settled', same) =
        normalize_from-IsValid fuel fuel next (omega arith)
          (record { small = valid.small; interval = interval; inside = inside })
          (IsEnough-start next.low next.high interval) in
      let range = get_range-some model e.symbol e found in
      (
        e.symbol,
        take_symbol e.symbol (e.low, e.high, model.total) model.total d,
        e,
        decode_symbol-some model d e.symbol (e.low, e.high, model.total) positive
            (get_symbol-find_value model value e.symbol value_found) range,
        record { valid = valid'; settled = settled' },
        range,
      )

  decode-IsCovered :
      (training : Bytes) (count_asked : ℕ) (d : ArithmeticDecoder)
      → ((s low high : ℕ)
          → get_range model s ≡ some (low, high, model.total)
          → 0 < count s training)
      → IsReady d
      → (length (decode model count_asked d).0 ≡ count_asked)
        × IsCovered training (decode model count_asked d).0
  unfolding decode
  decode-IsCovered training zero d occurs ready = (refl, tt)
  decode-IsCovered training (suc n) d occurs ready =
      let (s, d', e, step, next, range) = decode_symbol-IsReady d ready in
      let (many, covered) = decode-IsCovered training n d' occurs next in
      rw (decode-one model n d s d' step) (ap suc many, (occurs s e.low e.high range, covered))

new-IsReady : (bytes : Bytes) → IsReady (Decoder.new bytes)
unfolding branch
new-IsReady bytes =
    let (sees, low, high) = new-Sees bytes in
    let code = number-lt 31 (bytes_bits bytes) in
    record {
      valid = record {
        small = sees.small;
        interval = (omega (arith, low, high), omega (arith, low, high));
        inside = (omega (arith, low), omega (arith, sees.code, high, code));
      };
      settled = ap₂ branch low high;
    }

-- For every input, also one that no encoder wrote, and a model of one to 2 ^ 29 bytes, as many
-- symbols are decoded as were asked for, and each of them occurs in the bytes of the model.
pub length-decode :
    (training bytes : Bytes) (count_asked : ℕ)
    → 0 < length training
    → length training ≤ quarter
    → (length (decode (from_data training) count_asked (Decoder.new bytes)).0 ≡ count_asked)
      × IsCovered training (decode (from_data training) count_asked (Decoder.new bytes)).0
length-decode training bytes n positive few =
    let (table, total, ranges) = from_data-IsTable training in
    let occurs : (s low high : ℕ)
        → get_range (from_data training) s ≡ some (low, high, (from_data training).total)
        → 0 < count s training =
      λ s low high range. elim (ranges s) [
        | inl (none_here, missing) ↦ absurd (none-ne-some _ (sym missing ∙ range))
        | inr (positive', found) ↦ positive'
      ] in
    decode-IsCovered (from_data training) table (omega (arith, total)) (omega (arith, total))
      training n (Decoder.new bytes) occurs (new-IsReady bytes)
