-- ===== src/Container/Checks.antt =====
-- The tests of `verify`, `read_header` and `decompress` agree.
use alice_text.Prelude.{
  ◌≤◌, ◌≡◌, refl, ◌∙◌, inl, inr, ◌⊎◌, ltb, ltb→ge, true, false, length, drop, arith, Bool-cases,
  length-take, length-drop,
}
use alice_text.Bytes.{Bytes, slice, byte_at, from_le}
use alice_text.Error.{Error, Result, ok, err, or_error, invalid_magic, ◌>>=◌, decompression_error}
use alice_text.Wire.Tuned
use alice_text.Wire.Tuned.{TunedHeader}
use alice_text.Columnar.Foreign.{Foreign}
use alice_text.Columnar.Encoder.{decode}
use alice_text.Container.{
  Codecs, min_size, has_magic, header_at, read_header, verify, decompress, open_frame,
}

-- Twenty-four bytes are a header.
from_bytes-total : (bs : Bytes) → length bs ≡ 24 → (h : TunedHeader) × (Tuned.from_bytes bs ≡ ok h)
unfolding Tuned.from_bytes
from_bytes-total bs e = (
  record {
    original_length = from_le (slice 0 8 bs);
    mode = Tuned.mode_from (byte_at 8 bs);
    pattern_count = from_le (slice 12 16 bs);
    skeleton_length = from_le (slice 16 20 bs);
  },
  rw e refl,
)

header_at-total : (bs : Bytes) → 34 ≤ length bs → (h : TunedHeader) × (header_at bs ≡ ok h)
unfolding header_at
header_at-total bs h =
    from_bytes-total (slice 10 34 bs)
      (length-take 24 (drop 10 bs) ∙ omega (arith, length-drop 10 bs))

module _ (foreign : Foreign) (codecs : Codecs foreign) where
  -- The compressed data, decompressed, deserialised and decoded.
  abbrev pub unpack : Bytes → Result Bytes
  unpack compressed = do
    decompressed ← or_error (codecs.decode_all compressed) (decompression_error "Zstd error")
    payload ← or_error (codecs.deserialize decompressed) (decompression_error "Bincode error")
    ok (decode foreign payload)

  open_frame-unpack :
      (bs : Bytes) → 34 ≤ length bs → open_frame foreign codecs bs ≡ unpack (drop 34 bs)
  unfolding open_frame
  open_frame-unpack bs h = let (header, e) = header_at-total bs h in rw e refl

  -- What the three operations do with the same bytes.
  abbrev pub Refused : Bytes → Type 0
  Refused bs = (verify bs ≡ ok false) × ((e : Error) × (decompress foreign codecs bs ≡ err e))

  abbrev pub Accepted : Bytes → Type 0
  Accepted bs =
      (verify bs ≡ ok true)
      × ((h : TunedHeader) × (read_header bs ≡ ok h))
      × (decompress foreign codecs bs ≡ unpack (drop 34 bs))

  short-Refused : (bs : Bytes) → ltb (length bs) min_size ≡ true → Refused bs
  unfolding verify decompress
  short-Refused bs e = (rw e refl, (decompression_error "Data too short", rw e refl))

  magic-Refused :
      (bs : Bytes) → ltb (length bs) min_size ≡ false → has_magic bs ≡ false → Refused bs
  unfolding verify decompress
  magic-Refused bs e m = (rw (e, m) refl, (invalid_magic, rw (e, m) refl))

  version-Refused :
      (bs : Bytes)
      → ltb (length bs) min_size ≡ false
      → has_magic bs ≡ true
      → ltb (byte_at 8 bs) 2 ≡ true
      → Refused bs
  unfolding verify decompress
  version-Refused bs e m v = (
    rw (e, m, v) refl,
    (decompression_error "Legacy format - use ALICEText instead", rw (e, m, v) refl),
  )

  all-Accepted :
      (bs : Bytes)
      → ltb (length bs) min_size ≡ false
      → has_magic bs ≡ true
      → ltb (byte_at 8 bs) 2 ≡ false
      → Accepted bs
  unfolding verify decompress read_header
  all-Accepted bs e m v =
      let long : 34 ≤ length bs = ltb→ge (length bs) 34 e in
      let (h, at) = header_at-total bs long in
      (rw (e, m, v, at) refl, (h, rw (e, m) at), rw (e, m, v) (open_frame-unpack bs long))

  -- For all bytes, either `verify` says no and `decompress` is an error, or `verify` says yes,
  -- `read_header` gives a header, and `decompress` gives what unpacking the compressed data gives.
  pub verify-decompress : (bs : Bytes) → Refused bs ⊎ Accepted bs
  verify-decompress bs = elim (Bool-cases (ltb (length bs) min_size)) [
    | inl e ↦ inl (short-Refused bs e)
    | inr e ↦ elim (Bool-cases (has_magic bs)) [
      | inr m ↦ inl (magic-Refused bs e m)
      | inl m ↦ elim (Bool-cases (ltb (byte_at 8 bs) 2)) [
        | inl v ↦ inl (version-Refused bs e m v)
        | inr v ↦ inr (all-Accepted bs e m v)
      ]
    ]
  ]
