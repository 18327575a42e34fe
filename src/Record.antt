-- ===== src/Record.antt =====
-- record.rs: serial types, the header of a record, its columns and the comparison with keys. Each
-- function that loads pages runs on the fuel of `load`; `none` is out of fuel.
pub mod Serial
pub mod Header
use prsqlite.Prelude.{Run, and_then, [], ◌>>=◌}
use prsqlite.Prelude.{
  ℕ, zero, suc, ◌+◌, ◌-◌, ◌/◌, ◌%◌, ◌^◌, Ordering, ◌||◌, Option, none, some, List, ◌∷◌,
}
use prsqlite.Prelude.{ltb, leb, ◌==◌, if◌then◌else◌}
use prsqlite.Prelude.{length, get_elem?, take, Bytes}
use prsqlite.Prelude.{ℤ, pos, negsuc, signed, to_unsigned}
use prsqlite.Prelude.{Error, Result, ok, err, panic, ◌>>=◌, ◌>>◌, ok_or, slice_from, slice}
use prsqlite.Utils.Varint.{parse_varint}
use prsqlite.Utils.Decimal.{Floats}
use prsqlite.Btree.Page.{from_be_bytes}
use prsqlite.Cursor.Payload.{Pages, BtreePayload, buf, load}
use prsqlite.Value.{Collation, Value, null, integer_value, real, text, blob, compare_values}

-- `SerialType(u32)`.
abbrev pub SerialType : Type 0
SerialType = ℕ

-- `content_size`: the reserved types panic.
unfoldable pub content_size : SerialType → Result ℕ
content_size t =
    if leb t 4
    then ok t
    else if t == 5
    then ok 6
    else if t == 6 || t == 7
    then ok 8
    else if t == 8 || t == 9
    then ok 0
    else if t == 10 || t == 11
    then panic
    else ok ((t - 12) / 2)

-- The signed word in the first bytes: the slice panics where they are missing.
unfoldable pub sliced_integer : ℕ → ℕ → Bytes → Result ℤ
unfolding from_be_bytes
sliced_integer size half buffer = do
  bytes ← slice buffer 0 size
  ok (signed half (from_be_bytes bytes))

-- The 24- and the 48-bit word, which the code shifts to the top of an `i64` and back down.
unfoldable pub guarded_integer : ℕ → ℕ → Bytes → Result ℤ
unfolding from_be_bytes
guarded_integer size half buffer =
    if ltb (length buffer) size
    then err Error.buffer_size_does_not_match
    else ok (signed half (from_be_bytes (take size buffer)))

module _ {F : Type 0} (fl : Floats F) where
  abbrev pub as_value : Result ℤ → Result (Value F)
  as_value r = do i ← r; ok (integer_value i)

  unfoldable pub parse_real : Bytes → Result (Value F)
  unfolding from_be_bytes
  parse_real buffer = do
    bytes ← slice buffer 0 8
    let f = fl.from_bits (from_be_bytes bytes)
    ok (if fl.is_nan f then null else real f)

  unfoldable pub parse_bytes : SerialType → Bytes → Result (Value F)
  parse_bytes t buffer =
      let content = take ((t - 12) / 2) buffer in
      if ltb (length buffer) ((t - 12) / 2)
      then err Error.buffer_size_does_not_match
      else ok (if t % 2 == 0 then blob content else text content)

  -- `SerialType::parse`.
  unfoldable pub parse : SerialType → Bytes → Result (Value F)
  unfolding sliced_integer guarded_integer parse_real parse_bytes
  parse t buffer =
      if t == 0
      then ok null
      else if t == 1
      then as_value (sliced_integer 1 (2 ^ 7) buffer)
      else if t == 2
      then as_value (sliced_integer 2 (2 ^ 15) buffer)
      else if t == 3
      then as_value (guarded_integer 3 (2 ^ 23) buffer)
      else if t == 4
      then as_value (sliced_integer 4 (2 ^ 31) buffer)
      else if t == 5
      then as_value (guarded_integer 6 (2 ^ 47) buffer)
      else if t == 6
      then as_value (sliced_integer 8 (2 ^ 63) buffer)
      else if t == 7
      then parse_real buffer
      else if t == 8
      then ok (integer_value (pos 0))
      else if t == 9
      then ok (integer_value (pos 1))
      else if t == 10 || t == 11
      then err Error.reserved_record
      else parse_bytes t buffer

-- `?` on a varint.
abbrev pub varint_or : Error → Result (Option (ℤ × ℕ)) → Result (ℤ × ℕ)
varint_or e r = r >>= λ v. ok_or v e

-- The serial type at the head of what is left of the header, its content size and the bytes it takes.
unfoldable pub next_serial : Bytes → ℕ → Result (SerialType × ℕ × ℕ)
unfolding parse_varint content_size
next_serial buffer header_offset = do
  bytes ← slice_from buffer header_offset
  (t, consumed) ← varint_or Error.parse_serial_type (parse_varint bytes)
  serial_type ← ok_or (to_unsigned (2 ^ 32) t) Error.serial_type_is_too_large
  size ← content_size serial_type
  ok (serial_type, size, consumed)

-- The loop over the header, on fuel; an `i32` that overflows panics.
unfoldable pub header_loop : ℕ → Bytes → ℕ → ℕ → ℕ → Run (List (SerialType × ℕ))
unfolding next_serial
header_loop zero buffer header_size header_offset content_offset = none
header_loop (suc fuel) buffer header_size header_offset content_offset =
    if leb header_size header_offset
    then some (ok [])
    else and_then (some (next_serial buffer header_offset)) λ found.
      let (serial_type, size, consumed) = found in
      if leb (2 ^ 31) (content_offset + size)
      then some panic
      else and_then
          (header_loop fuel buffer header_size (header_offset + consumed) (content_offset + size))
          λ rest. some (ok ((serial_type, content_offset) ∷ rest))

-- The bytes that the header is read from: they are loaded where the local payload is longer than the
-- header.
unfoldable pub header_buffer : Pages → ℕ → BtreePayload → Bytes → ℕ → Run Bytes
unfolding load
header_buffer pages fuel p local header_size =
    if ltb header_size (length local)
    then and_then (load pages fuel p (pos 0) header_size) (λ loaded.
      if length loaded == header_size
      then some (ok loaded)
      else some (err Error.record_header_size_mismatch))
    else some (ok local)

-- What `parse_record_header` does behind the header's size, an `i32`. A negative one is no size that a
-- payload is longer than, and the loop does not begin.
unfoldable pub header_from : Pages → ℕ → BtreePayload → Bytes → ℤ → ℕ → Run (List (SerialType × ℕ))
unfolding header_buffer header_loop
header_from pages fuel p local (negsuc n) consumed =
    if leb (2 ^ 31) n then some (err Error.header_size_is_too_large) else some (ok [])
header_from pages fuel p local (pos n) consumed =
    if leb (2 ^ 31) n
    then some (err Error.header_size_is_too_large)
    else and_then (header_buffer pages fuel p local n)
        λ buffer. header_loop (n + 1) buffer n consumed n

unfoldable pub parse_record_header : Pages → ℕ → BtreePayload → Run (List (SerialType × ℕ))
unfolding buf parse_varint header_from
parse_record_header pages fuel p = and_then (some (buf p)) λ local.
    and_then (some (varint_or Error.parse_record_header_size (parse_varint local)))
      λ size. header_from pages fuel p local size.0 size.1

-- `Record`: `tmp_buf` is what `get` last loaded, and is written before it is read.
pub record Record : Type 0 where
  pub payload : BtreePayload
  pub header : List (SerialType × ℕ)

unfoldable pub record_parse : Pages → ℕ → BtreePayload → Run Record
unfolding parse_record_header
record_parse pages fuel p =
    and_then (parse_record_header pages fuel p)
      λ header. some (ok (record { payload = p; header = header }))

abbrev pub len : Record → ℕ
len r = length r.header

-- The bytes of a column: from the page where it is all local, else loaded.
unfoldable pub content_bytes : Pages → ℕ → BtreePayload → ℕ → ℕ → Run Bytes
unfolding buf load
content_bytes pages fuel p offset size = and_then (some (buf p)) λ local.
    if ltb (length local) (offset + size)
    then and_then (load pages fuel p (pos offset) size) (λ loaded.
      if length loaded == size then some (ok loaded) else some (err Error.failed_to_load_rowid))
    else some (slice local offset (offset + size))

module _ {F : Type 0} (fl : Floats F) where
  -- `Record::get`.
  unfoldable pub get : Pages → ℕ → Record → ℕ → Run (Value F)
  unfolding content_size content_bytes parse
  get pages fuel r i =
      and_then (some (ok_or (get_elem? r.header i) Error.index_out_of_range)) λ column.
        and_then (some (content_size column.0)) λ size.
          and_then (content_bytes pages fuel r.payload column.1 size)
            λ bytes. some (parse fl column.0 bytes)

  -- The loop over the keys, from column `i` on.
  unfoldable pub keys_loop : Pages → ℕ → Record → ℕ → List (Value F × Collation) → Run Ordering
  unfolding get compare_values
  keys_loop pages fuel r i [] = some (ok Ordering.eq)
  keys_loop pages fuel r i ((key, collation) ∷ keys) = and_then (get pages fuel r i) λ index_value.
      and_then (some (compare_values fl collation key index_value))
        λ o. elim o [ Ordering.eq ↦ keys_loop pages fuel r (i + 1) keys | o' ↦ some (ok o') ]

  unfoldable pub compare_record :
      Pages → ℕ → List (Value F × Collation) → BtreePayload → Run Ordering
  unfolding record_parse keys_loop
  compare_record pages fuel keys p = and_then (record_parse pages fuel p) λ r.
      if ltb (len r) (length keys)
      then some (err Error.keys_more_than_index_columns)
      else keys_loop pages fuel r 0 keys
