-- ===== src/Pager/Failure.antt =====
-- Reads that fail, and what the cache then holds.
use prsqlite.Prelude.{
  ℕ, ◌-◌, ◌*◌, ◌≤◌, ◌≡◌, refl, sym, ap, ◌∙◌, ◌≢◌, inl, inr, Bool, true, false, none, some, ◌∷◌,
  arith,
}
use prsqlite.Prelude.{List, [], ltb}
use prsqlite.Prelude.{◌==◌, if◌then◌else◌, Bool-cases, Option-cases}
use prsqlite.Prelude.{length, replicate, length-replicate, Bytes}
use prsqlite.Prelude.{Error, Result, ok, err}
use prsqlite.Pager.{
  PageId, Reader, PageMap, PageCache, Pager, MemPage, header_offset_of, lookup_page, fill, get_page,
}
use prsqlite.Pager.Coherence.{get_page_cached, get_page_new, write_page_first}

lookup_page_first :
    (id : PageId) (page : Bytes) (m : PageMap) → lookup_page id ((id, page) ∷ m) ≡ some page
unfolding lookup_page
lookup_page_first id page m = let same : (id == id) ≡ true = ground arith in rw same

-- After a page was read, successfully or not, it is in the map as the reader left it.
fill_leaves :
    (read : Reader) (id : PageId) (p : Pager) (page : Bytes) (c : PageCache)
    → let left = read ((id - 1) * length page) page in
      let r = fill read id p (page, true, record c { map = (id, page) ∷ c.map }) in
      (r.0 ≡ (
        if left.1
        then ok (record { page = left.0; header_offset = header_offset_of id })
        else err Error.io_error))
      × (r.1.n_pages ≡ p.n_pages)
      × (lookup_page id r.1.cache.map ≡ some left.0)
unfolding fill
fill_leaves read id p page c =
    rw write_page_first (elim (Bool-cases (read ((id - 1) * length page) page).1) [
      | inl e ↦ rw e (refl, refl, lookup_page_first id _ c.map)
      | inr e ↦ rw e (refl, refl, lookup_page_first id _ c.map)
    ])

-- A page that was read is not read again: `get_page` gives the same page and the same pager with any
-- later reader.
pub get_page_again :
    (read later : Reader) (id : PageId) (p : Pager) (mem : MemPage)
    → id ≢ 0
    → id ≤ p.n_pages
    → (get_page read id p).0 ≡ ok mem
    → get_page later id (get_page read id p).1 ≡ (ok mem, (get_page read id p).1)
get_page_again read later id p mem nz le e = elim (Option-cases (lookup_page id p.cache.map)) [
  | inl missing ↦
      let zeros : Bytes = replicate p.cache.pagesize 0 in
      let left = read ((id - 1) * length zeros) zeros in
      let (r, n, m) = fill_leaves read id p zeros p.cache in
      let start = get_page_new read id p nz le missing in
      rw start (
        after left
          (fill read id p (zeros, true, record p.cache { map = (id, zeros) ∷ p.cache.map })) r n m
          (rw start at e))
  | inr (page, found) ↦
      let start = get_page_cached read id p nz le page found in
      rw start (
        get_page_cached later id p nz le page found
        ∙ ap (λ (x : Result MemPage). (x, p)) (rw start at e))
]
  where
    after :
        (left : Bytes × Bool) (q : Result MemPage × Pager)
        → q.0 ≡ (
            if left.1
            then ok (record { page = left.0; header_offset = header_offset_of id })
            else err Error.io_error)
        → q.1.n_pages ≡ p.n_pages
        → lookup_page id q.1.cache.map ≡ some left.0
        → q.0 ≡ ok mem
        → get_page later id q.1 ≡ (ok mem, q.1)
    after left q r n m e = elim (Bool-cases left.1) [
      | inl done ↦
          let same : ok (record { page = left.0; header_offset = header_offset_of id }) ≡ ok mem =
            sym (rw done at r) ∙ e in
          get_page_cached later id q.1 nz (omega arith) left.0 m
          ∙ ap (λ (x : Result MemPage). (x, q.1)) same
      | inr failed ↦ absurd (cc (rw failed at r))
    ]

lookup_page_other :
    (id other : PageId) (page left : Bytes) (m : PageMap)
    → lookup_page id m ≡ some page
    → lookup_page other m ≡ none
    → lookup_page id ((other, left) ∷ m) ≡ some page
unfolding lookup_page
lookup_page_other id other page left m found missing = elim (Bool-cases (other == id)) [
  | inl same ↦
      let other_id : other ≡ id = ground arith in absurd (cc (rw other_id at missing, found))
  | inr differ ↦ rw differ found
]

fill_keeps :
    (read : Reader) (id other : PageId) (p : Pager) (page new : Bytes) (c : PageCache)
    → lookup_page id c.map ≡ some page
    → lookup_page other c.map ≡ none
    → let r = fill read other p (new, true, record c { map = (other, new) ∷ c.map }) in
      (lookup_page id r.1.cache.map ≡ some page) × (r.1.n_pages ≡ p.n_pages)
unfolding fill
fill_keeps read id other p page new c found missing =
    rw write_page_first (elim (Bool-cases (read ((other - 1) * length new) new).1) [
      | inl e ↦ rw e (lookup_page_other id other page _ c.map found missing, refl)
      | inr e ↦ rw e (lookup_page_other id other page _ c.map found missing, refl)
    ])

-- A call of `get_page`, of any page and whatever the reader does, leaves a page of the cache in place.
get_page_keeps :
    (read : Reader) (id other : PageId) (p : Pager) (page : Bytes)
    → lookup_page id p.cache.map ≡ some page
    → (lookup_page id (get_page read other p).1.cache.map ≡ some page)
      × ((get_page read other p).1.n_pages ≡ p.n_pages)
get_page_keeps read id other p page found = elim (Bool-cases (other == 0)) [
  | inl zeroth ↦ unfold get_page in rw zeroth (found, refl)
  | inr counted ↦ elim (Bool-cases (ltb p.n_pages other)) [
    | inl above ↦ unfold get_page in rw (counted, above) (found, refl)
    | inr within ↦ elim (Option-cases (lookup_page other p.cache.map)) [
      | inl missing ↦
          rw (get_page_new read other p (ground arith) (ground arith) missing)
            (fill_keeps read id other p page (replicate p.cache.pagesize 0) p.cache found missing)
      | inr (there, cached) ↦
          rw (get_page_cached read other p (ground arith) (ground arith) there cached) (found, refl)
    ]
  ]
]

-- The pager after calls of `get_page`, each with what its reader does.
abbrev pub calls : List (Reader × PageId) → Pager → Pager
calls [] p = p
calls ((read, id) ∷ history) p = calls history (get_page read id p).1

calls_keep :
    (history : List (Reader × PageId)) (id : PageId) (p : Pager) (page : Bytes)
    → lookup_page id p.cache.map ≡ some page
    → (lookup_page id (calls history p).cache.map ≡ some page)
      × ((calls history p).n_pages ≡ p.n_pages)
calls_keep [] id p page found = (found, refl)
calls_keep ((read, other) ∷ history) id p page found =
    let (kept, count) = get_page_keeps read id other p page found in
    let (stays, same) = calls_keep history id (get_page read other p).1 page kept in
    (stays, same ∙ count)

-- Where a read fails, `get_page` says so once; the buffer as the read left it stays in the cache, and
-- every later call for that page returns it as the page, whatever the reader does and whatever calls, of
-- this page or others, successful or not, come in between.
pub get_page_after_failure :
    (read later : Reader) (id : PageId) (p : Pager) (history : List (Reader × PageId))
    → id ≢ 0
    → id ≤ p.n_pages
    → lookup_page id p.cache.map ≡ none
    → (buffer : Bytes)
    → read ((id - 1) * p.cache.pagesize) (replicate p.cache.pagesize 0) ≡ (buffer, false)
    → ((get_page read id p).0 ≡ err Error.io_error)
      × ((get_page later id (calls history (get_page read id p).1)).0
          ≡ ok (record { page = buffer; header_offset = header_offset_of id }))
get_page_after_failure read later id p history nz le missing buffer fails =
    let zeros : Bytes = replicate p.cache.pagesize 0 in
    let offset : read ((id - 1) * length zeros) zeros ≡ (buffer, false) =
      rw (length-replicate {A = ℕ} p.cache.pagesize 0) fails in
    let (r, n, m) = fill_leaves read id p zeros p.cache in
    let q = fill read id p (zeros, true, record p.cache { map = (id, zeros) ∷ p.cache.map }) in
    let failed : q.0 ≡ err Error.io_error = rw offset at r in
    let stays : lookup_page id q.1.cache.map ≡ some buffer = rw offset at m in
    let (kept, count) = calls_keep history id q.1 buffer stays in
    rw (get_page_new read id p nz le missing) (
      failed,
      ap (λ (x : Result MemPage × Pager). x.0)
          (get_page_cached later id (calls history q.1) nz (omega arith) buffer kept),
    )
