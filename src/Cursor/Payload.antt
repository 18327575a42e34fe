-- ===== src/Cursor/Payload.antt =====
-- `BtreePayload` of cursor.rs. The pages that it loads are a parameter, which `Pager` supplies.
use prsqlite.Prelude.{ℕ, zero, suc, ◌+◌, ◌-◌, min, ◌||◌, Option, none, some, [], ◌++◌}
use prsqlite.Prelude.{ltb, leb, ◌==◌, if◌then◌else◌}
use prsqlite.Prelude.{length, take, drop, Bytes}
use prsqlite.Prelude.{ℤ, pos, negsuc}
use prsqlite.Prelude.{Error, Result, ok, err, panic, ◌>>=◌, ◌>>◌, assert, slice}
use prsqlite.Pager.{PageId}
use prsqlite.Btree.Payload.{OverflowPage, overflow_parse, PayloadInfo}

-- The pager, as `load` uses it: an id to the bytes of the page, or an error.
abbrev pub Pages : Type 0
Pages = PageId → Result Bytes

pub record BtreePayload : Type 0 where
  pub local_payload_buffer : Bytes
  pub payload_info : PayloadInfo

unfoldable pub buf : BtreePayload → Result Bytes
buf p = slice p.local_payload_buffer p.payload_info.start p.payload_info.end

-- The variables of `load`: what was copied, and how many bytes of the buffer are left.
pub record Progress : Type 0 where
  pub copied : Bytes
  pub offset : ℕ
  pub left : ℕ

-- One copy out of a part of the payload that begins at `cur`; the subtractions panic below 0.
unfoldable pub copy_part : Bytes → ℕ → Progress → Result Progress
copy_part payload cur s =
    let n = min (length payload - (s.offset - cur)) s.left in
    if ltb s.offset (cur + length payload)
    then (do
      assert (leb cur s.offset)
      ok (record {
        copied = s.copied ++ take n (drop (s.offset - cur) payload);
        offset = s.offset + n;
        left = s.left - n;
      }))
    else ok s

-- The loop over the overflow pages, on fuel; `none` is out of fuel.
unfoldable pub load_loop :
    Pages → ℕ → ℕ → Progress → ℕ → Option OverflowPage → Option (Result Bytes)
load_loop pages zero payload_size s cur overflow = none
load_loop pages (suc fuel) payload_size s cur overflow =
    if s.left == 0 || leb payload_size cur then some (ok s.copied) else elim overflow [
      | none ↦ some (err Error.overflow_page_is_not_found)
      | some o ↦ elim (pages o.page_id >>= overflow_parse o) [
        | ok (payload, next) ↦ elim (copy_part payload cur s) [
          | ok s' ↦ load_loop pages fuel payload_size s' (cur + length payload) next
          | err e ↦ some (err e)
          | panic ↦ some panic
        ]
        | err e ↦ some (err e)
        | panic ↦ some panic
      ]
    ]

-- `load`: the bytes copied to the front of a buffer of `n` bytes.
unfoldable pub load : Pages → ℕ → BtreePayload → ℤ → ℕ → Option (Result Bytes)
load pages fuel p (negsuc _) n = some (err Error.offset_must_be_non_negative)
load pages fuel p (pos offset) n =
    if leb p.payload_info.payload_size offset
    then some (err Error.offset_exceeds_payload_size)
    else elim (buf p) [
      | ok payload ↦
          elim (copy_part payload 0 (record { copied = []; offset = offset; left = n })) [
            | ok s ↦
                load_loop pages fuel p.payload_info.payload_size s (length payload)
                  p.payload_info.overflow
            | err e ↦ some (err e)
            | panic ↦ some panic
          ]
      | err e ↦ some (err e)
      | panic ↦ some panic
    ]
