-- ===== src/Container/RoundTrip.antt =====
-- What `compress` writes is read back by `verify`, `read_header` and `decompress`.
use alice_text.Prelude.{
  ℕ, ◌≡◌, refl, List, [], some, true, false, ltb, same_list, length, drop, arith, le→ltb, same_list,
}
use alice_text.Bytes.{Bytes, to_le, byte_at}
use alice_text.Error.{ok}
use alice_text.Wire.Tuned
use alice_text.Wire.Tuned.{TunedHeader, zstd_level, from_bytes-to_bytes_tuned}
use alice_text.Columnar.Foreign.{Foreign}
use alice_text.Columnar.Matches.{Group}
use alice_text.Columnar.Payload.{ColumnarPayload}
use alice_text.Columnar.Encoder.{encode, decode}
use alice_text.Container.{
  Codecs, TunedCompressor, frame, has_magic, header_at, header_of, with_stats, read_header, verify,
  open_frame, decompress, compress,
}

-- What the codecs promise: what they wrote they read back.
pub record IsCodecs (foreign : Foreign) (codecs : Codecs foreign) : Type 0 where
  pub deserialize-serialize :
      (p : ColumnarPayload foreign) (b : Bytes)
      → codecs.serialize p ≡ some b
      → codecs.deserialize b ≡ some p
  pub decode_all-encode_all :
      (level : ℕ) (b z : Bytes) → codecs.encode_all level b ≡ some z → codecs.decode_all z ≡ some b

header_at-frame : (h : TunedHeader) (z : Bytes) → Tuned.IsHeader h → header_at (frame h z) ≡ ok h
unfolding header_at frame Tuned.to_bytes to_le
header_at-frame h z v = from_bytes-to_bytes_tuned h [] v

frame-long : (h : TunedHeader) (z : Bytes) → ltb (length (frame h z)) 34 ≡ false
unfolding frame Tuned.to_bytes to_le
frame-long h z = le→ltb (length (frame h z)) 34 (omega arith)

frame-magic : (h : TunedHeader) (z : Bytes) → has_magic (frame h z) ≡ true
unfolding has_magic frame same_list
frame-magic h z = refl

read_header-frame :
    (h : TunedHeader) (z : Bytes) → Tuned.IsHeader h → read_header (frame h z) ≡ ok h
unfolding read_header
read_header-frame h z v = rw (frame-long h z, frame-magic h z) (header_at-frame h z v)

frame-version : (h : TunedHeader) (z : Bytes) → ltb (byte_at 8 (frame h z)) 2 ≡ false
unfolding frame
frame-version h z = refl

drop-frame : (h : TunedHeader) (z : Bytes) → drop 34 (frame h z) ≡ z
unfolding frame Tuned.to_bytes to_le
drop-frame h z = refl

verify-frame : (h : TunedHeader) (z : Bytes) → Tuned.IsHeader h → verify (frame h z) ≡ ok true
unfolding verify
verify-frame h z v =
    rw (frame-long h z, frame-magic h z, frame-version h z, header_at-frame h z v) refl

module _ (foreign : Foreign) (codecs : Codecs foreign) where
  open_frame-frame :
      (h : TunedHeader) (z b : Bytes) (p : ColumnarPayload foreign)
      → Tuned.IsHeader h
      → codecs.decode_all z ≡ some b
      → codecs.deserialize b ≡ some p
      → open_frame foreign codecs (frame h z) ≡ ok (decode foreign p)
  unfolding open_frame
  open_frame-frame h z b p v e f = rw (header_at-frame h z v, drop-frame h z, e, f) refl

  decompress-frame :
      (h : TunedHeader) (z b : Bytes) (p : ColumnarPayload foreign)
      → Tuned.IsHeader h
      → codecs.decode_all z ≡ some b
      → codecs.deserialize b ≡ some p
      → decompress foreign codecs (frame h z) ≡ ok (decode foreign p)
  unfolding decompress
  decompress-frame h z b p v e f =
      rw (frame-long h z, frame-magic h z, frame-version h z) (open_frame-frame h z b p v e f)

  header_of-IsHeader :
      (c : TunedCompressor) (whole : Bytes) (p : ColumnarPayload foreign)
      → Tuned.IsHeader (header_of foreign codecs c whole p)
  unfolding header_of
  header_of-IsHeader c whole p = record {
    original_length = omega arith;
    pattern_count = omega arith;
    skeleton_length = omega arith;
  }

  -- Let both codecs succeed on the columns of a text, and read back what they wrote. Then
  -- `compress` succeeds, and of its bytes `verify` says yes, `read_header` gives the lengths, the
  -- mode and the counts of the text, and `decompress` gives what decoding the columns gives.
  pub decompress-compress :
      (captures_iter : Bytes → List (List Group)) (c : TunedCompressor) (whole b z : Bytes)
      → IsCodecs foreign codecs
      → codecs.serialize (encode foreign captures_iter whole) ≡ some b
      → codecs.encode_all (zstd_level c.mode) b ≡ some z
      → (let p = encode foreign captures_iter whole in
          let output = frame (header_of foreign codecs c whole p) z in
          (compress foreign codecs captures_iter c whole
            ≡ ok (output, with_stats foreign codecs c whole p output))
          × (verify output ≡ ok true)
          × (read_header output ≡ ok (header_of foreign codecs c whole p))
          × (decompress foreign codecs output ≡ ok (decode foreign p)))
  unfolding compress
  decompress-compress captures_iter c whole b z laws e f =
      let p = encode foreign captures_iter whole in
      let v = header_of-IsHeader c whole p in
      (
        rw (e, f) refl,
        verify-frame (header_of foreign codecs c whole p) z v,
        read_header-frame (header_of foreign codecs c whole p) z v,
        decompress-frame (header_of foreign codecs c whole p) z b p v
            (laws.decode_all-encode_all (zstd_level c.mode) b z f)
            (laws.deserialize-serialize p b e),
      )
