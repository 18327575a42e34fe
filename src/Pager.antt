-- ===== src/Pager.antt =====
-- pager.rs: pages read from the file once and kept in a cache.
pub mod Coherence
pub mod Failure
use prsqlite.Prelude.{
  ℕ, ◌-◌, ◌*◌, ◌/◌, ◌%◌, ◌^◌, Bool, true, false, ◌&&◌, Option, none, some, List, [], ◌∷◌, map,
}
use prsqlite.Prelude.{ltb, ◌==◌, if◌then◌else◌}
use prsqlite.Prelude.{length, replicate, Bytes}
use prsqlite.Prelude.{pos, to_unsigned}
use prsqlite.Prelude.{Error, Result, ok, err, ◌>>=◌, ◌>>◌, assert, ok_or}

abbrev pub PageId : Type 0
PageId = ℕ

-- The file's `read_exact_at`: an offset and the buffer to the buffer afterwards and whether it succeeded.
-- After a failure the buffer may hold anything.
abbrev pub Reader : Type 0
Reader = ℕ → Bytes → Bytes × Bool

-- The pages in memory. A page that is handed out is the one in the map, not a copy.
abbrev pub PageMap : Type 0
PageMap = List (PageId × Bytes)

pub record PageCache : Type 0 where
  pub map : PageMap
  pub pagesize : ℕ

pub record Pager : Type 0 where
  pub n_pages : ℕ
  pub cache : PageCache

pub record MemPage : Type 0 where
  pub page : Bytes
  pub header_offset : ℕ

-- `DATABASE_HEADER_SIZE` of lib.rs.
abbrev pub database_header_size : ℕ
database_header_size = 100

unfoldable pub lookup_page : PageId → PageMap → Option Bytes
lookup_page id [] = none
lookup_page id ((j, page) ∷ m) = if j == id then some page else lookup_page id m

-- What is written to the page of that id, through the shared reference.
unfoldable pub write_page : PageId → Bytes → PageMap → PageMap
write_page id page [] = []
write_page id page ((j, old) ∷ m) =
    if j == id then (j, page) ∷ m else (j, old) ∷ write_page id page m

-- `PageCache::get_page`: the page, whether it is new, and the cache afterwards.
unfoldable pub get_or_insert : PageId → PageCache → Bytes × Bool × PageCache
get_or_insert id c = elim (lookup_page id c.map) [
  | some page ↦ (page, false, c)
  | none ↦ let page = replicate c.pagesize 0 in (page, true, record c { map = (id, page) ∷ c.map })
]

-- `Pager::new`, on the length of the file; a remainder by 0 panics.
unfoldable pub new : ℕ → ℕ → Result Pager
new file_len pagesize = do
  assert (ltb 0 pagesize && file_len % pagesize == 0)
  n ← ok_or (to_unsigned (2 ^ 32) (pos (file_len / pagesize))) Error.too_many_pages
  ok (record { n_pages = n; cache = record { map = []; pagesize = pagesize } })

abbrev pub header_offset_of : PageId → ℕ
header_offset_of id = if id == 1 then database_header_size else 0

-- The page that `get_page` has from the cache: where it is new, it is read in place first.
unfoldable pub fill : Reader → PageId → Pager → Bytes × Bool × PageCache → Result MemPage × Pager
fill read id p (page, false, c) =
    (ok (record { page = page; header_offset = header_offset_of id }), record p { cache = c })
fill read id p (page, true, c) =
    let (buffer, done) = read ((id - 1) * length page) page in
    let p' = record p { cache = record c { map = write_page id buffer c.map } } in
    if done
    then (ok (record { page = buffer; header_offset = header_offset_of id }), p')
    else (err Error.io_error, p')

-- `Pager::get_page`.
unfoldable pub get_page : Reader → PageId → Pager → Result MemPage × Pager
unfolding fill get_or_insert
get_page read id p =
    if id == 0
    then (err Error.page_id_starts_from_1, p)
    else if ltb p.n_pages id
    then (err Error.page_id_exceeds_file_size, p)
    else fill read id p (get_or_insert id p.cache)
