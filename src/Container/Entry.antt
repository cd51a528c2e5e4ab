-- ===== src/Container/Entry.antt =====
-- `ALICEText` of `src/lib.rs`. The decoder of the older format is an argument.
use alice_text.Prelude.{
  ℕ, ◌^◌, ◌≤◌, ◌≡◌, refl, ap, ◌∙◌, List, Option, none, some, leb, ◌&&◌, if◌then◌else◌, length,
  le→leb, arith,
}
use alice_text.Bytes.{Bytes, byte_at, to_le}
use alice_text.Error.{Result, ok, ◌>>=◌}
use alice_text.Wire.Tuned
use alice_text.Wire.Tuned.{TunedHeader, balanced, zstd_level}
use alice_text.Columnar.Foreign.{Foreign}
use alice_text.Columnar.Skeleton.RoundTrip.{IsPlain}
use alice_text.Columnar.Matches.{Group, find_matches, skeleton_with}
use alice_text.Columnar.Matches.Order.{CapturesInside}
use alice_text.Columnar.Payload
use alice_text.Columnar.Encoder.{encode}
use alice_text.Columnar.Encoder.Lossless.{Lossless, decode-encode}
use alice_text.Container
use alice_text.Container.{Codecs, TunedCompressor, TunedStats, frame, header_of, with_stats}
use alice_text.Container.RoundTrip.{IsCodecs, decompress-compress}

pub record CompressionStats : Type 0 where
  pub original_size : ℕ
  pub compressed_size : ℕ
  pub token_count : ℕ
  pub exception_count : ℕ
  pub pattern_count : ℕ

pub record AliceText : Type 0 where
  pub tuned : TunedCompressor
  pub last_stats : Option CompressionStats

-- The mode that is given plays no part.
unfoldable pub new : AliceText
new = record { tuned = Container.new balanced; last_stats = none }

unfoldable pub stats_of : TunedStats → CompressionStats
stats_of s = record {
  original_size = s.original_size;
  compressed_size = s.compressed_size;
  token_count = s.pattern_count;
  exception_count = 0;
  pattern_count = s.pattern_count;
}

-- The statistics change if the compressor has some.
unfoldable pub updated : AliceText → TunedCompressor → AliceText
unfolding stats_of
updated a tuned = record {
  tuned = tuned;
  last_stats = elim tuned.last_stats [ some s ↦ some (stats_of s) | none ↦ a.last_stats ];
}

module _ (foreign : Foreign) (codecs : Codecs foreign) where
  unfoldable pub compress :
      (Bytes → List (List Group)) → AliceText → Bytes → Result (Bytes × AliceText)
  unfolding updated
  compress captures_iter a whole = do
    result ← Container.compress foreign codecs captures_iter a.tuned whole
    ok (result.0, updated a result.1)

  -- The version byte tells the formats apart.
  unfoldable pub decompress : (Bytes → Result Bytes) → Bytes → Result Bytes
  decompress decode_from_bytes bytes =
      if leb 10 (length bytes) && leb 2 (byte_at 8 bytes)
      then Container.decompress foreign codecs bytes
      else decode_from_bytes bytes

  frame-tuned :
      (decode_from_bytes : Bytes → Result Bytes) (h : TunedHeader) (z : Bytes)
      → decompress decode_from_bytes (frame h z) ≡ Container.decompress foreign codecs (frame h z)
  unfolding decompress frame Tuned.to_bytes to_le
  frame-tuned decode_from_bytes h z = rw (le→leb 10 (length (frame h z)) (omega arith)) refl

  -- Let a text have no opening brace and up to 2^32 matches, each a stretch of the text that its
  -- column shows as it was, with one offset for all its timestamps; and let both codecs succeed on
  -- its columns and read back what they wrote. Then compressing the text succeeds, and
  -- decompressing the bytes gives the text back.
  pub decompress-compress_text :
      (captures_iter : Bytes → List (List Group)) (decode_from_bytes : Bytes → Result Bytes)
      (a : AliceText) (whole b z : Bytes)
      → IsCodecs foreign codecs
      → codecs.serialize (encode foreign captures_iter whole) ≡ some b
      → codecs.encode_all (zstd_level a.tuned.mode) b ≡ some z
      → IsPlain whole
      → CapturesInside (length whole) (captures_iter whole)
      → (let ms = find_matches captures_iter whole in
          Lossless foreign (Payload.new foreign (skeleton_with whole ms)) ms)
      → length (find_matches captures_iter whole) ≤ 2 ^ 32
      → (output : Bytes) × (a' : AliceText) × (compress captures_iter a whole ≡ ok (output, a'))
        × (decompress decode_from_bytes output ≡ ok whole)
  unfolding compress
  decompress-compress_text captures_iter decode_from_bytes a whole b z laws e f plain inside l
        fits =
      let p = encode foreign captures_iter whole in
      let header = header_of foreign codecs a.tuned whole p in
      let output = frame header z in
      let after = with_stats foreign codecs a.tuned whole p output in
      let (written, verified, header_read, unpacked) =
        decompress-compress foreign codecs captures_iter a.tuned whole b z laws e f in
      (
        output,
        updated a after,
        rw written refl,
        frame-tuned decode_from_bytes header z
            ∙ unpacked
            ∙ ap ok (decode-encode foreign captures_iter whole plain inside l fits),
      )
