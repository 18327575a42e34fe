-- ===== src/Btree/Context.antt =====
-- The sizes of `BtreeContext`.
use prsqlite.Prelude.{ℕ, ◌+◌, ◌-◌, ◌*◌, ◌/◌, ◌^◌, ◌≤◌, ◌<◌, ◌≡◌, Bool, true, false, arith}
use prsqlite.Prelude.{ok}
use prsqlite.Btree.Payload.{BtreeContext, new_context, max_local, n_local}

-- The sizes that the rest of the code relies on.
pub record IsSound (ctx : BtreeContext) : Type 0 where
  pub positive : 0 < ctx.usable_minus_4
  pub index_fits : ctx.min_local ≤ ctx.max_local_index
  pub table_fits : ctx.min_local ≤ ctx.max_local_table
  pub words : (ctx.max_local_index < 2 ^ 16) × (ctx.max_local_table < 2 ^ 16)

-- A usable size that the file format allows, at least 480, gives a context without a panic: the local
-- sizes are the ones of the format, each is a `u16`, and the least local size is at most the greatest.
pub new_context-IsSound :
    (usable : ℕ)
    → 480 ≤ usable
    → usable ≤ 65536
    → (ctx : BtreeContext) × (new_context usable ≡ ok ctx)
      × IsSound ctx
      × (ctx.max_local_table + 35 ≡ usable)
      × (ctx.max_local_index + 23 ≡ (usable - 12) * 64 / 255)
      × (ctx.min_local + 23 ≡ (usable - 12) * 32 / 255)
unfolding new_context
new_context-IsSound usable lo hi = (
  record {
    max_local_index = (usable - 12) * 64 / 255 - 23;
    max_local_table = usable - 35;
    min_local = (usable - 12) * 32 / 255 - 23;
    usable_minus_4 = usable - 4;
  },
  ground arith,
  omega arith,
  omega arith,
  omega arith,
  omega arith,
)

-- A payload too large for its cell leaves between the least and the greatest local size in the cell.
pub n_local_bounds :
    (ctx : BtreeContext) (table : Bool) (payload_size : ℕ)
    → IsSound ctx
    → (ctx.min_local ≤ n_local ctx table payload_size)
      × (n_local ctx table payload_size ≤ max_local ctx table)
unfolding n_local
n_local_bounds ctx true payload_size s = ground arith
n_local_bounds ctx false payload_size s = ground arith
