-- ===== src/FormatV3.antt =====
-- `FormatV3Metadata` and `CompressionLevel` of `src/format_v3.rs`: reading the header and the column
-- directory. A reader is a `Cursor` over the bytes of the file.
pub mod Values
pub mod Writer
pub mod Reader
pub mod Layout
pub mod Accepted
pub mod Written
pub mod Assembled
pub mod Success
pub mod RoundTrip
pub mod Requested
pub mod Selective
pub mod Runs
use alice_text.Prelude.{
  zero, suc, [], ◌∷◌, none, some, Option, ℕ, List, if◌then◌else◌, Bool, Option, map, ltb, suc,
  same_list, ◌==◌, none, ◌+◌, length, some, drop, take,
}
use Prim.Native.String.{String, [], ◌∷◌}
use alice_text.Bytes.{Bytes, byte_at}
use alice_text.Error.{Result, ok, err, io, invalid_magic, invalid_version, ◌>>=◌}
use alice_text.Container.{magic}
use alice_text.Wire.Columns.{
  ColumnEntry, FormatV3Header, entry_size, header_size, entry_from_bytes, header_from_bytes,
}
use alice_text.Wire.Columns.Types.{ColumnType, as_u8, name}

pub data CompressionLevel : Type 0 where
  fast : CompressionLevel
  balanced : CompressionLevel
  best : CompressionLevel

unfoldable pub zstd_level : CompressionLevel → ℕ
zstd_level fast = 3
zstd_level balanced = 10
zstd_level best = 19

-- `self.level as u8`
unfoldable pub level_byte : CompressionLevel → ℕ
level_byte fast = 0
level_byte balanced = 1
level_byte best = 2

-- `std::io::Cursor`
pub record Cursor : Type 0 where
  pub bytes : Bytes
  pub position : ℕ

-- `read_exact`: the next bytes, or an error when there are not so many.
unfoldable pub read_exact : ℕ → Cursor → Result (Bytes × Cursor)
read_exact n c =
    if ltb (length (drop c.position c.bytes)) n
    then err io
    else ok (take n (drop c.position c.bytes), record c { position = c.position + n })

-- `seek(SeekFrom::Start(offset))`
unfoldable pub seek : ℕ → Cursor → Cursor
seek offset c = record c { position = offset }

pub record FormatV3Metadata : Type 0 where
  pub header : FormatV3Header
  pub columns : List ColumnEntry

-- `for _ in 0..header.column_count`
unfoldable pub read_entries : ℕ → Cursor → Result (List ColumnEntry × Cursor)
unfolding read_exact
read_entries zero c = ok ([], c)
read_entries (suc n) c = do
  r ← read_exact entry_size c
  entry ← entry_from_bytes r.0
  rest ← read_entries n r.1
  ok (entry ∷ rest.0, rest.1)

-- `if version[0] != 3`
unfoldable pub check_version : Bytes → Result {0} Unit
check_version version =
    if byte_at 0 version == 3
    then ok tt
    else err (invalid_version (byte_at 0 version) (byte_at 1 version))

unfoldable pub check_magic : Bytes → Result {0} Unit
check_magic bytes = if same_list bytes magic then ok tt else err invalid_magic

unfoldable pub read_from : Cursor → Result (FormatV3Metadata × Cursor)
unfolding read_exact check_magic check_version read_entries
read_from c = do
  first ← read_exact 8 c
  _ ← check_magic first.0
  version ← read_exact 2 first.1
  _ ← check_version version.0
  h ← read_exact header_size version.1
  header ← header_from_bytes h.0
  directory ← read_entries header.column_count h.1
  ok (record { header = header; columns = directory.0 }, directory.1)

-- `==` of two column types.
unfoldable pub same_type : ColumnType → ColumnType → Bool
same_type s t = as_u8 s == as_u8 t

-- `iter().find(..)`
unfoldable pub find_column : List ColumnEntry → ColumnType → Option ColumnEntry
unfolding same_type
find_column [] t = none
find_column (e ∷ es) t = if same_type e.col_type t then some e else find_column es t

unfoldable pub get_column : FormatV3Metadata → ColumnType → Option ColumnEntry
get_column m t = find_column m.columns t

unfoldable pub column_names : FormatV3Metadata → List String
column_names m = map (λ e. name e.col_type) m.columns

-- The sum of 32-bit sizes, at most 65535 of them, is far below `2 ^ 64`.
unfoldable pub total_size : List ColumnEntry → ℕ
total_size [] = 0
total_size (e ∷ es) = e.compressed_size + total_size es

unfoldable pub compressed_size : FormatV3Metadata → ℕ
compressed_size m = total_size m.columns
