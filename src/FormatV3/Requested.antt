-- ===== src/FormatV3/Requested.antt =====
-- What `read_columns` is to give: the columns it is asked for as they are in the whole payload.
use alice_text.Prelude.{
  List, [], ◌∷◌, ◌≡◌, if◌then◌else◌, false, true, ap, refl, ◌||◌, sym, ◌∙◌, ==_iff,
}
use alice_text.Bytes.{Bytes}
use mathlib.Core.Option.{some-injective}
use alice_text.Error.{ok}
use alice_text.Columnar.Foreign.{Foreign}
use alice_text.Columnar.Payload.{ColumnarPayload}
use alice_text.Wire.Columns.Types.{
  ColumnType, as_u8, from_u8-as_u8, from_u8, skeleton, placeholder_map, timestamps, ipv4, ipv6,
  log_levels, numbers, uuids, emails, urls, paths, date_days, dates_raw, time_ms, times_raw,
  hex_values, others, timestamps_raw,
}
use alice_text.FormatV3.{same_type, Bool, some}
use alice_text.FormatV3.Values.{Codecs, Value, column_of}
use alice_text.FormatV3.Writer.{write_order}
use alice_text.FormatV3.Reader.{PartialPayload, take_partial, value_from}

-- The type is among those asked for.
abbrev pub requested : ColumnType → List ColumnType → Bool
requested t [] = false
requested t (s ∷ ts) = same_type s t || requested t ts

pub same_type→eq : (s t : ColumnType) → same_type s t ≡ true → s ≡ t
unfolding same_type
same_type→eq s t h =
    some-injective s t
      (sym (from_u8-as_u8 s) ∙ ap from_u8 ((==_iff (as_u8 s) (as_u8 t)).0 h) ∙ from_u8-as_u8 t)

if_same {ℓ} : {A : Type ℓ} (b : Bool) (a : A) → (if b then a else a) ≡ a
if_same true a = refl
if_same false a = refl

pub write_order_all : (t : ColumnType) → requested t write_order ≡ true
unfolding same_type as_u8
write_order_all skeleton = refl
write_order_all placeholder_map = refl
write_order_all timestamps = refl
write_order_all ipv4 = refl
write_order_all ipv6 = refl
write_order_all log_levels = refl
write_order_all numbers = refl
write_order_all uuids = refl
write_order_all emails = refl
write_order_all urls = refl
write_order_all paths = refl
write_order_all date_days = refl
write_order_all dates_raw = refl
write_order_all time_ms = refl
write_order_all times_raw = refl
write_order_all hex_values = refl
write_order_all others = refl
write_order_all timestamps_raw = refl

module _ (foreign : Foreign) (p : ColumnarPayload foreign) where
  -- The columns asked for, from the payload; the others as they were.
  unfoldable pub with_columns : List ColumnType → PartialPayload foreign → PartialPayload foreign
  with_columns ts q = record {
    timestamps = if requested timestamps ts then some p.timestamps else q.timestamps;
    ipv4_addrs = if requested ipv4 ts then some p.ipv4_addrs else q.ipv4_addrs;
    ipv6_addrs = if requested ipv6 ts then some p.ipv6_addrs else q.ipv6_addrs;
    log_levels = if requested log_levels ts then some p.log_levels else q.log_levels;
    numbers = if requested numbers ts then some p.numbers else q.numbers;
    uuids = if requested uuids ts then some p.uuids else q.uuids;
    emails = if requested emails ts then some p.emails else q.emails;
    urls = if requested urls ts then some p.urls else q.urls;
    paths = if requested paths ts then some p.paths else q.paths;
  }

  -- One column more.
  unfoldable pub put : ColumnType → PartialPayload foreign → PartialPayload foreign
  put skeleton q = q
  put placeholder_map q = q
  put timestamps q = record q { timestamps = some p.timestamps }
  put ipv4 q = record q { ipv4_addrs = some p.ipv4_addrs }
  put ipv6 q = record q { ipv6_addrs = some p.ipv6_addrs }
  put log_levels q = record q { log_levels = some p.log_levels }
  put numbers q = record q { numbers = some p.numbers }
  put uuids q = record q { uuids = some p.uuids }
  put emails q = record q { emails = some p.emails }
  put urls q = record q { urls = some p.urls }
  put paths q = record q { paths = some p.paths }
  put date_days q = q
  put dates_raw q = q
  put time_ms q = q
  put times_raw q = q
  put hex_values q = q
  put others q = q
  put timestamps_raw q = q

  pub with_columns-put :
      (t : ColumnType) (ts : List ColumnType) (q : PartialPayload foreign)
      → with_columns ts (put t q) ≡ with_columns (t ∷ ts) q
  unfolding with_columns put same_type as_u8
  with_columns-put skeleton ts q = refl
  with_columns-put placeholder_map ts q = refl
  with_columns-put timestamps ts q =
      ap (λ v. record (with_columns ts q) { timestamps = v })
        (if_same (requested timestamps ts) (some p.timestamps))
  with_columns-put ipv4 ts q =
      ap (λ v. record (with_columns ts q) { ipv4_addrs = v })
        (if_same (requested ipv4 ts) (some p.ipv4_addrs))
  with_columns-put ipv6 ts q =
      ap (λ v. record (with_columns ts q) { ipv6_addrs = v })
        (if_same (requested ipv6 ts) (some p.ipv6_addrs))
  with_columns-put log_levels ts q =
      ap (λ v. record (with_columns ts q) { log_levels = v })
        (if_same (requested log_levels ts) (some p.log_levels))
  with_columns-put numbers ts q =
      ap (λ v. record (with_columns ts q) { numbers = v })
        (if_same (requested numbers ts) (some p.numbers))
  with_columns-put uuids ts q =
      ap (λ v. record (with_columns ts q) { uuids = v })
        (if_same (requested uuids ts) (some p.uuids))
  with_columns-put emails ts q =
      ap (λ v. record (with_columns ts q) { emails = v })
        (if_same (requested emails ts) (some p.emails))
  with_columns-put urls ts q =
      ap (λ v. record (with_columns ts q) { urls = v }) (if_same (requested urls ts) (some p.urls))
  with_columns-put paths ts q =
      ap (λ v. record (with_columns ts q) { paths = v })
        (if_same (requested paths ts) (some p.paths))
  with_columns-put date_days ts q = refl
  with_columns-put dates_raw ts q = refl
  with_columns-put time_ms ts q = refl
  with_columns-put times_raw ts q = refl
  with_columns-put hex_values ts q = refl
  with_columns-put others ts q = refl
  with_columns-put timestamps_raw ts q = refl

  pub with_columns-nil : (q : PartialPayload foreign) → with_columns [] q ≡ q
  unfolding with_columns
  with_columns-nil q = refl

  pub take_partial-put :
      (codecs : Codecs foreign) (t : ColumnType) (b : Bytes) (q : PartialPayload foreign)
      → codecs.deserialize t b ≡ some (column_of foreign t p)
      → take_partial foreign codecs t b q ≡ ok (put t q)
  unfolding take_partial put value_from column_of Value
  take_partial-put codecs skeleton b q e = refl
  take_partial-put codecs placeholder_map b q e = refl
  take_partial-put codecs timestamps b q e = rw e refl
  take_partial-put codecs ipv4 b q e = rw e refl
  take_partial-put codecs ipv6 b q e = rw e refl
  take_partial-put codecs log_levels b q e = rw e refl
  take_partial-put codecs numbers b q e = rw e refl
  take_partial-put codecs uuids b q e = rw e refl
  take_partial-put codecs emails b q e = rw e refl
  take_partial-put codecs urls b q e = rw e refl
  take_partial-put codecs paths b q e = rw e refl
  take_partial-put codecs date_days b q e = refl
  take_partial-put codecs dates_raw b q e = refl
  take_partial-put codecs time_ms b q e = refl
  take_partial-put codecs times_raw b q e = refl
  take_partial-put codecs hex_values b q e = refl
  take_partial-put codecs others b q e = refl
  take_partial-put codecs timestamps_raw b q e = refl
