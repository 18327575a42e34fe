-- ===== src/Pager/Coherence.antt =====
-- The cache and the file.
use prsqlite.Prelude.{
  ℕ, suc, ◌+◌, ◌-◌, ◌*◌, ◌≤◌, ◌≡◌, refl, ◌≢◌, inl, inr, true, false, none, some, [], ◌∷◌, arith,
}
use prsqlite.Prelude.{ltb, ◌==◌, Bool-cases, Option-cases}
use prsqlite.Prelude.{length, take, drop, replicate, All, length-replicate, Bytes}
use prsqlite.Prelude.{Result, ok}
use prsqlite.Pager.{
  PageId, Reader, PageMap, PageCache, Pager, MemPage, header_offset_of, lookup_page, write_page,
  get_or_insert, fill, get_page,
}

-- The bytes of the file at that place.
abbrev pub bytes_at : Bytes → ℕ → ℕ → Bytes
bytes_at file offset n = take n (drop offset file)

-- The page as the file has it.
abbrev pub file_page : Bytes → ℕ → PageId → Bytes
file_page file pagesize id = bytes_at file ((id - 1) * pagesize) pagesize

-- A reader that succeeds inside the file, with what is there.
abbrev pub Reads : Bytes → Reader → Type 0
Reads file read =
    (offset : ℕ) (buffer : Bytes)
    → offset + length buffer ≤ length file
    → read offset buffer ≡ (bytes_at file offset (length buffer), true)

abbrev pub AllPages : Bytes → ℕ → PageMap → Type 0
AllPages file pagesize = All (λ e. e.1 ≡ file_page file pagesize e.0)

-- The cache holds pages of the file, and the pager counts the pages of the file.
pub record IsCoherent (file : Bytes) (p : Pager) : Type 0 where
  pub counted : p.n_pages * p.cache.pagesize ≡ length file
  pub cached : AllPages file p.cache.pagesize p.cache.map

lookup_page-file :
    (file : Bytes) (pagesize : ℕ) (id : PageId) (m : PageMap) (page : Bytes)
    → AllPages file pagesize m
    → lookup_page id m ≡ some page
    → page ≡ file_page file pagesize id
unfolding lookup_page
lookup_page-file file pagesize id [] page h e = cc
lookup_page-file file pagesize id ((j, q) ∷ m) page h e = elim (Bool-cases (j == id)) [
  | inl same ↦
      let j_id : j ≡ id = ground arith in
      let q_page : q ≡ page = ground arith in rw (j_id, q_page) at h.0
  | inr other ↦ lookup_page-file file pagesize id m page h.1 (ground arith)
]

get_or_insert_found :
    (id : PageId) (c : PageCache) (page : Bytes)
    → lookup_page id c.map ≡ some page
    → get_or_insert id c ≡ (page, false, c)
unfolding get_or_insert
get_or_insert_found id c page e = rw (e, get_or_insert)

-- What `get_page` does for an id in range, by what the cache has.
module _ (read : Reader) (id : PageId) (p : Pager) (nz : id ≢ 0) (le : id ≤ p.n_pages) where
  in_range : ((id == 0) ≡ false) × (ltb p.n_pages id ≡ false)
  in_range = (ground arith, ground arith)

  pub get_page_cached :
      (page : Bytes)
      → lookup_page id p.cache.map ≡ some page
      → get_page read id p ≡ (ok (record { page = page; header_offset = header_offset_of id }), p)
  unfolding get_page
  get_page_cached page found =
      rw (in_range.0, in_range.1, get_or_insert_found id p.cache page found) (unfold fill in refl)

  pub get_page_new :
      lookup_page id p.cache.map ≡ none
      → get_page read id p
        ≡ fill read id p (
          replicate p.cache.pagesize 0,
          true,
          record p.cache { map = (id, replicate p.cache.pagesize 0) ∷ p.cache.map },
        )
  unfolding get_page
  get_page_new missing = rw (in_range.0, in_range.1, missing, get_or_insert)

pub write_page_first :
    (id : PageId) (page old : Bytes) (m : PageMap)
    → write_page id page ((id, old) ∷ m) ≡ (id, page) ∷ m
unfolding write_page
write_page_first id page old m = let same : (id == id) ≡ true = ground arith in rw same

module _ (file : Bytes) (read : Reader) (reads : Reads file read) (p : Pager)
    (coherent : IsCoherent file p) (id : PageId) (nz : id ≢ 0) (le : id ≤ p.n_pages) where
  in_file : (id - 1) * p.cache.pagesize + p.cache.pagesize ≤ length file
  in_file = whole (id - 1) p.n_pages p.cache.pagesize (omega arith) coherent.counted
    where
      whole : (i n s : ℕ) → suc i ≤ n → n * s ≡ length file → i * s + s ≤ length file
      whole i n s h e = grind arith

  abbrev Good : Result MemPage × Pager → Type 0
  Good r =
      (r.0
        ≡ ok (record {
          page = file_page file p.cache.pagesize id;
          header_offset = header_offset_of id;
        }))
      × IsCoherent file r.1
      × (r.1.n_pages ≡ p.n_pages)
      × (r.1.cache.pagesize ≡ p.cache.pagesize)

  fill_new : Good (
      fill read id p (
        replicate p.cache.pagesize 0,
        true,
        record p.cache { map = (id, replicate p.cache.pagesize 0) ∷ p.cache.map },
      ))
  unfolding fill
  fill_new =
      let zeros : Bytes = replicate p.cache.pagesize 0 in
      let len : length zeros ≡ p.cache.pagesize = length-replicate p.cache.pagesize 0 in
      rw (reads ((id - 1) * length zeros) zeros (rw len in_file), write_page_first, len)
        (refl, record { counted = coherent.counted; cached = (refl, coherent.cached) }, refl, refl)

  -- With a file that can be read, `get_page` returns the page of the file for every id in range, from
  -- the cache or not, and the pager stays coherent, with the same size and count of pages.
  pub get_page-file : Good (get_page read id p)
  get_page-file = elim (Option-cases (lookup_page id p.cache.map)) [
    | inl missing ↦ rw (get_page_new read id p nz le missing) fill_new
    | inr (page, found) ↦
        let e : page ≡ file_page file p.cache.pagesize id =
          lookup_page-file file p.cache.pagesize id p.cache.map page coherent.cached found in
        rw (get_page_cached read id p nz le page found, e) (refl, coherent, refl, refl)
  ]
