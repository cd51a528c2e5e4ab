-- ===== src/Coder/RoundTrip.antt =====
-- `decode` gives back what `encode` and `finish` wrote.
use alice_text.Bytes.{Bytes}
use alice_text.Coder.{whole, quarter}
use alice_text.Coder.Encoder
use alice_text.Coder.Decoder
use alice_text.Coder.Encoder.{encode, finish, fuel}
use alice_text.Coder.Encoder.Output.{finish-encode, IsCodable}
use alice_text.Coder.Decoder.Sees.{Sees, new-Sees}
use alice_text.Coder.Model.{from_data, FrequencyModel, get_symbol, get_range, is_empty}
use alice_text.Coder.Model.Counts.{count, from_data-IsTable}
use alice_text.Coder.Model.Table.{
  find_entry-IsRange, IsTable, get_range-entry, find_value-find_entry,
}
use mathlib.Core.List.{append_assoc}
use mathlib.Core.Path.{subst, ap₂}
use alice_text.Prelude.{
  inl, inr, ◌++◌, false, ◌≡◌, arith, ◌≤◌, ◌-◌, ◌+◌, ◌∙◌, ap, sym, ℕ, suc, refl, List, [], ◌∷◌, some,
  length, ◌<◌, ◌^◌,
}
use alice_text.Coder.Interval.{
  IsInterval, InBranch, IsShare, narrow_low, narrow_high, lookup_value, lookup_value-inside,
  narrow-inside, stable-width, quotients, IsEnough-start, stable, branch_unique,
}
use alice_text.Coder.Stream.{Bits, Run, done, round, narrow, emission, emission-inside, number}
use alice_text.Coder.Decoder.{
  ArithmeticDecoder, decode_symbol, take_symbol, normalize, decode, decode_value,
}
use alice_text.Coder.Decoder.Rounds.{normalize_from-Settled, Follows, Settled}

get_symbol-some :
    (model : FrequencyModel) (s sl sh t value : ℕ)
    → IsTable 0 model.cumulative model.total
    → get_range model s ≡ some (sl, sh, t)
    → sl ≤ value
    → value < sh
    → get_symbol model value ≡ some s
unfolding get_symbol
get_symbol-some model s sl sh t value table found above below =
    let (e, entry, low, high, total) = get_range-entry model s sl sh t found in
    let symbol =
      find_value-find_entry 0 model.cumulative model.total s value e table entry
        (omega (arith, low)) (omega (arith, high)) in
    rw (symbol, get_symbol) refl

pub decode_symbol-some :
    (model : FrequencyModel) (d : ArithmeticDecoder) (s : ℕ) (range : ℕ × ℕ × ℕ)
    → 0 < model.total
    → get_symbol model (lookup_value d.low d.high d.code model.total) ≡ some s
    → get_range model s ≡ some range
    → decode_symbol model d ≡ some (s, take_symbol s range model.total d)
unfolding decode_symbol decode_value is_empty
decode_symbol-some model d s range positive symbol found =
    let some_total : is_empty model ≡ false = ground arith in
    rw (some_total, decode_symbol, symbol, decode_value, found) refl

pub decode-one :
    (model : FrequencyModel) (count : ℕ) (d : ArithmeticDecoder) (s : ℕ) (d' : ArithmeticDecoder)
    → decode_symbol model d ≡ some (s, d')
    → (decode model (suc count) d).0 ≡ s ∷ (decode model count d').0
unfolding decode
decode-one model count d s d' h = rw (h, decode) refl

module _ (model : FrequencyModel) (rest : Bits)
    (table : IsTable 0 model.cumulative model.total) where
  -- The code in the interval of a symbol is looked up as the symbol.
  decode_symbol-narrow :
      {symbols : List ℕ} {low high : ℕ} (s sl sh : ℕ)
      (found : get_range model s ≡ some (sl, sh, model.total)) (share : IsShare sl sh model.total)
      (h : InBranch stable low high)
      (r : Run model symbols
        (narrow_low low high sl model.total)
        (narrow_high low high sh model.total))
      (d : ArithmeticDecoder)
      → Follows model (narrow s sl sh found share h r) rest d
      → IsInterval low high
      → (d' : ArithmeticDecoder) × (decode_symbol model d ≡ some (s, d'))
        × Settled model symbols rest d'
  unfolding take_symbol normalize emission
  decode_symbol-narrow {low} {high} s sl sh found share h r d f i =
      let wide = stable-width low high h i in
      let (above, proper, below) = narrow-inside low high sl sh model.total i wide share in
      let next : IsInterval (narrow_low low high sl model.total)
          (narrow_high low high sh model.total) =
        (proper, omega (arith, below, i)) in
      let (code_above, code_below) = emission-inside model r rest next in
      let (apart, inside) =
        quotients (high - low + 1) sl sh model.total share (omega (arith, wide)) in
      let (value_above, value_below) =
        lookup_value-inside low high sl sh model.total (number 31 (emission model r 0 rest))
          (omega (arith, share.nonempty, share.inside)) code_above code_below
          (omega (arith, apart)) in
      let same : lookup_value d.low d.high d.code model.total
          ≡ lookup_value low high (number 31 (emission model r 0 rest)) model.total =
        ap₂ (λ l g. lookup_value l g d.code model.total) f.low f.high
        ∙ ap (λ c. lookup_value low high c model.total) f.sees.code in
      let symbol =
        ap (get_symbol model) same
        ∙ get_symbol-some model s sl sh model.total _ table found value_above value_below in
      (
        take_symbol s (sl, sh, model.total) model.total d,
        decode_symbol-some model d s (sl, sh, model.total)
            (omega (arith, share.nonempty, share.inside)) symbol found,
        normalize_from-Settled model fuel r rest _
            (record {
              sees = record { small = f.sees.small; code = f.sees.code; ahead = f.sees.ahead };
              low = ap₂ (λ l g. narrow_low l g sl model.total) f.low f.high;
              high = ap₂ (λ l g. narrow_high l g sh model.total) f.low f.high;
            })
            next (IsEnough-start _ _ next),
      )

  -- What the next symbol of a run is to the decoder.
  abbrev Next : List ℕ → ArithmeticDecoder → Type 0
  Next [] d = Unit
  Next (s ∷ symbols) d =
      (d' : ArithmeticDecoder) × (decode_symbol model d ≡ some (s, d'))
      × Settled model symbols rest d'

  Run-Next :
      {symbols : List ℕ} {low high : ℕ} (r : Run model symbols low high) (d : ArithmeticDecoder)
      → Follows model r rest d
      → IsInterval low high
      → InBranch stable low high
      → Next symbols d
  Run-Next (done h') d f i h = tt
  Run-Next (narrow s sl sh found share h' r) d f i h =
      decode_symbol-narrow s sl sh found share h' r d f i
  Run-Next {low} {high} (round b n h' r) d f i h =
      absurd (n (sym (branch_unique b low high i.0 h') ∙ branch_unique stable low high i.0 h))

  decode-run :
      (symbols : List ℕ) (d : ArithmeticDecoder)
      → Settled model symbols rest d
      → (decode model (length symbols) d).0 ≡ symbols
  unfolding decode
  decode-run [] d here = refl
  decode-run (s ∷ symbols) d here =
      let (d', step, next) = Run-Next here.run d here.follows here.interval here.settled in
      decode-one model (length symbols) d s d' step ∙ ap (λ l. s ∷ l) (decode-run symbols d' next)

-- The bytes of a text occur in the text that the model is of.
abbrev pub IsCovered : Bytes → Bytes → Type 0
IsCovered training [] = Unit
IsCovered training (s ∷ text) = (0 < count s training) × IsCovered training text

pub from_data-IsCodable :
    (training text : Bytes)
    → length training ≤ quarter
    → IsCovered training text
    → IsCodable (from_data training) text
from_data-IsCodable training [] few h = tt
from_data-IsCodable training (s ∷ text) few (positive, h) =
    let (table, total, ranges) = from_data-IsTable training in
    elim (ranges s) [
      | inl (none_here, found) ↦ absurd (omega (arith, none_here, positive))
      | inr (positive', (low, found)) ↦
          let exact = found ∙ ap (λ t. some (low, low + count s training, t)) (sym total) in
          let (e, entry, e_low, e_high, same) =
            get_range-entry (from_data training) s low (low + count s training) _ exact in
          let (above, wide, below, named) = find_entry-IsRange 0 _ _ s e table entry in
          (
            (
              low,
              low + count s training,
              exact,
              record {
                nonempty = omega arith;
                inside = omega (arith, e_high, below);
                few = omega (arith, total, few);
              },
            ),
            from_data-IsCodable training text few h,
          )
    ]

-- With a model of at most 2^29 bytes, the decoder gives back every text of fewer than 2^27 bytes
-- that occur in the bytes of the model: as many symbols as the text has are the text.
pub decode-finish-encode :
    (training text : Bytes)
    → length training ≤ quarter
    → IsCovered training text
    → length text < 2 ^ 27
    → (decode
        (from_data training)
        (length text)
        (Decoder.new (finish (encode (from_data training) text Encoder.new)))).0
      ≡ text
decode-finish-encode training text few h short =
    let model = from_data training in
    let (r, rest, bits) =
      finish-encode model text (from_data-IsCodable training text few h) short in
    let bytes = finish (encode model text Encoder.new) in
    let (sees, low, high) = new-Sees bytes in
    decode-run model rest (from_data-IsTable training).0 text (Decoder.new bytes) (record {
      lo = 0;
      hi = whole - 1;
      run = r;
      interval = (omega arith, omega arith);
      settled = (omega arith, omega arith, inl (omega arith));
      follows = record {
        sees = subst (Sees 31 (Decoder.new bytes)) bits sees;
        low = low;
        high = high;
      };
    })

IsCovered-prefix : (front text : Bytes) → IsCovered (front ++ text) text
unfolding count
IsCovered-prefix front [] = tt
IsCovered-prefix front (s ∷ text) = (
  count-here front s text,
  subst (λ t. IsCovered t text) (append_assoc front (s ∷ []) text)
      (IsCovered-prefix (front ++ s ∷ []) text),
)
  where
    count-here : (front : Bytes) (s : ℕ) (text : Bytes) → 0 < count s (front ++ s ∷ text)
    count-here [] s text = ground arith
    count-here (f ∷ front) s text = omega (arith, count-here front s text)

-- A text of fewer than 2^27 bytes, coded with the model of its own bytes, is given back.
pub decode-from_data :
    (text : Bytes)
    → length text < 2 ^ 27
    → (decode
        (from_data text)
        (length text)
        (Decoder.new (finish (encode (from_data text) text Encoder.new)))).0
      ≡ text
decode-from_data text few =
    decode-finish-encode text text (omega (arith, few)) (IsCovered-prefix [] text) few
