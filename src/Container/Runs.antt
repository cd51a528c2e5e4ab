-- ===== src/Container/Runs.antt =====
-- The container at a concrete text, with codecs that know one payload.
use alice_text.Container.Entry.{updated, CompressionStats, AliceText, decompress-compress_text}
use alice_text.Container.Facade.{Written, compress_to, compress_to-never_panics}
use alice_text.Prelude.{
  length, ◌++◌, ◌≡◌, refl, sym, ap, ◌⊎◌, [], ◌∷◌, Option, none, some, true, false, arith,
}
use native.Mathlib.Decide.{ℕ_discrete}
use mathlib.Core.Option.{none-ne-some}
use alice_text.Prelude.Int.{ℤ}
use alice_text.Bytes.{Bytes}
use alice_text.Error.{ok, err, invalid_magic}
use alice_text.Wire.Tuned.{balanced}
use alice_text.Columnar.Skeleton.{SkeletonToken}
use alice_text.Columnar.Timestamps.{CachedFormatType, TimestampColumn}
use alice_text.Columnar.Payload.{ColumnarPayload}
use alice_text.Columnar.Encoder.{encode, decode}
use alice_text.Columnar.Runs.{
  sample, line, line_captures, line-IsPlain, line-CapturesInside, line-matches, line-skeleton,
  line-Lossless,
}
use alice_text.Container
use alice_text.Container.{Codecs, verify, read_header, frame, header_of, with_stats}
use alice_text.Container.Checks.{Refused, Accepted, verify-decompress}
use alice_text.Container.RoundTrip.{IsCodecs, decompress-compress}
use alice_text.Container.Entry

int-discrete : Discrete ℤ
int-discrete = hlevel (ℕ_discrete)

token-discrete : Discrete SkeletonToken
token-discrete = hlevel (ℕ_discrete)

format-discrete : Discrete CachedFormatType
format-discrete = hlevel (ℕ_discrete)

column-discrete : Discrete TimestampColumn
column-discrete = hlevel (ℕ_discrete, int-discrete, format-discrete)

payload-discrete : Discrete (ColumnarPayload sample)
payload-discrete = hlevel (ℕ_discrete, token-discrete, column-discrete)

-- One byte for a yes.
abbrev written : {p q : ColumnarPayload sample} → Dec (p ≡ q) → Option Bytes
written (yes e) = some (1 ∷ [])
written (no n) = none

written-yes : (p : ColumnarPayload sample) (d : Dec (p ≡ p)) → written d ≡ some (1 ∷ [])
written-yes p (yes e) = refl
written-yes p (no n) = absurd (n refl)

written-same :
    (p q : ColumnarPayload sample) (d : Dec (p ≡ q)) (b : Bytes) → written d ≡ some b → p ≡ q
written-same p q (yes e) b h = e
written-same p q (no n) b h = absurd (none-ne-some b h)

abbrev encoded : ColumnarPayload sample
encoded = encode sample line_captures line

-- Bincode that knows the columns of one text, and Zstd that stores.
abbrev known : Codecs sample
known = record {
  serialize = λ p. written (payload-discrete p encoded);
  deserialize = λ _. some encoded;
  encode_all = λ level b. some b;
  decode_all = λ z. some z;
}

known-IsCodecs : IsCodecs sample known
known-IsCodecs = record {
  deserialize-serialize =
      λ p b e. ap some (sym (written-same p encoded (payload-discrete p encoded) b e));
  decode_all-encode_all = λ level b z e. sym e;
}

-- A file of the first format, and one that is cut off.
old-verify : verify (b'A' ∷ b'L' ∷ []) ≡ ok false
unfolding verify
old-verify = refl

abbrev file : Bytes
file = frame (header_of sample known (Container.new balanced) line encoded) (1 ∷ [])

verify-decompress_example : Refused sample known file ⊎ Accepted sample known file
verify-decompress_example = verify-decompress sample known file

decompress-compress_example :
    (let p = encode sample line_captures line in
      let c = Container.new balanced in
      let output = frame (header_of sample known c line p) (1 ∷ []) in
      (Container.compress sample known line_captures c line
        ≡ ok (output, with_stats sample known c line p output))
      × (verify output ≡ ok true)
      × (read_header output ≡ ok (header_of sample known c line p))
      × (Container.decompress sample known output ≡ ok (decode sample p)))
decompress-compress_example =
    decompress-compress sample known line_captures (Container.new balanced) line (1 ∷ []) (1 ∷ [])
      known-IsCodecs (written-yes encoded (payload-discrete encoded encoded)) refl

decompress-compress_text_example :
    (output : Bytes) × (a' : AliceText) × (Entry.compress sample known line_captures Entry.new line
      ≡ ok (output, a'))
    × (Entry.decompress sample known (λ _. err invalid_magic) output ≡ ok line)
decompress-compress_text_example =
    decompress-compress_text sample known line_captures (λ _. err invalid_magic) Entry.new line
      (1 ∷ []) (1 ∷ []) known-IsCodecs (written-yes encoded (payload-discrete encoded encoded)) refl
      line-IsPlain line-CapturesInside (rw (line-matches, line-skeleton) line-Lossless)
      (rw line-matches (omega arith))

-- A writer that keeps what it is given.
abbrev append_all : Bytes → Bytes → Option Bytes
append_all bytes writer = some (writer ++ bytes)

abbrev line_after : AliceText
line_after = updated Entry.new (with_stats sample known (Container.new balanced) line encoded file)

abbrev line_written : Written Bytes
line_written = record { stats = line_after.last_stats; writer = file; alice = line_after }

compress_to-line :
    compress_to sample known line_captures append_all Entry.new line [] ≡ ok line_written
unfolding compress_to Entry.compress Entry.new
compress_to-line =
    let (done, _, _, _) =
      decompress-compress sample known line_captures (Container.new balanced) line (1 ∷ []) (1 ∷ [])
        known-IsCodecs (written-yes encoded (payload-discrete encoded encoded)) refl in
    rw done refl

compress_to-never_panics_example :
    (s : CompressionStats) × (output : Bytes) × (line_written.stats ≡ some s)
    × (append_all output [] ≡ some line_written.writer)
    × (s.original_size ≡ length line)
    × (s.compressed_size ≡ length output)
compress_to-never_panics_example =
    compress_to-never_panics sample known line_captures append_all Entry.new line [] line_written
      compress_to-line
