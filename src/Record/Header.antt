-- ===== src/Record/Header.antt =====
-- The header of a record: what the loop returns on a well-formed header, and that it ends on any.
use prsqlite.Prelude.{
  ℕ, zero, suc, ◌+◌, ◌/◌, ◌%◌, ◌^◌, ◌≤◌, ◌<◌, ◌≡◌, refl, inl, inr, true, false, Option, none, some,
  List, ◌∷◌, ◌++◌, append_assoc, arith, [], ◌>>=◌,
}
use prsqlite.Prelude.{ltb, leb, Bool-cases}
use prsqlite.Prelude.{length, drop, All, length-append, drop-append, Bytes, IsBytes}
use prsqlite.Prelude.{ℤ, to_unsigned}
use prsqlite.Prelude.{
  Error, Result, ok, err, panic, ◌>>=◌, ok_or, slice_from, Ensures, bind-Ensures,
}
use prsqlite.Prelude.{slice_from-ok}
use prsqlite.Utils.Varint.{parse_varint}
use prsqlite.Utils.Varint.Encoding.{short_form, flagged_groups, length-flagged_groups}
use prsqlite.Utils.Varint.Total.{parse_varint-short_form, parse_varint_bounds}
use prsqlite.Prelude.{Run, and_then, Ensures-ok}
use prsqlite.Record.{SerialType, content_size, next_serial, header_loop}

-- A column of a header: a serial type, the bytes of its varint but one, and its content size.
pub record Column : Type 0 where
  pub serial_type : SerialType
  pub groups : ℕ
  pub size : ℕ

abbrev pub IsColumn : Column → Type 0
IsColumn c =
    (c.groups ≤ 7)
    × (c.serial_type < 128 ^ suc c.groups)
    × (c.serial_type < 2 ^ 32)
    × (content_size c.serial_type ≡ ok c.size)

-- The header's bytes behind its size, and the columns' serial types with the offsets of their contents.
unfoldable pub column_bytes : List Column → Bytes
column_bytes [] = []
column_bytes (c ∷ cs) = short_form c.groups c.serial_type ++ column_bytes cs

unfoldable pub offsets : ℕ → List Column → List (SerialType × ℕ)
offsets at [] = []
offsets at (c ∷ cs) = (c.serial_type, at) ∷ offsets (at + c.size) cs

unfoldable pub total_size : List Column → ℕ
total_size [] = 0
total_size (c ∷ cs) = c.size + total_size cs

next_serial-column :
    (front rest : Bytes) (c : Column)
    → IsColumn c
    → next_serial (front ++ (short_form c.groups c.serial_type ++ rest)) (length front)
      ≡ ok (c.serial_type, c.size, c.groups + 1)
unfolding next_serial
next_serial-column front rest c (few, fits, word, sized) =
    let bytes = short_form c.groups c.serial_type ++ rest in
    let small : ltb c.serial_type (2 ^ 32) ≡ true = ground arith in
    rw
      (
        slice_from-ok {0} (front ++ bytes) (length front)
            (omega (arith, length-append front bytes)),
        drop-append front bytes,
      )
      (rw (parse_varint-short_form c.groups c.serial_type rest few fits, small, sized) refl)

length-short_form : (k v : ℕ) → length (short_form k v) ≡ k + 1
unfolding short_form
length-short_form k v = omega (
  arith,
  length-append (flagged_groups k (v / 128)) ((v % 128) ∷ []),
  length-flagged_groups k (v / 128),
)

module _ (header_size : ℕ) where
  loop_ends :
      (fuel : ℕ) (buffer : Bytes) (at content : ℕ)
      → header_size ≤ at
      → header_loop (suc fuel) buffer header_size at content ≡ some (ok [])
  unfolding header_loop
  loop_ends fuel buffer at content h =
      let stops : leb header_size at ≡ true = ground arith in rw stops

  loop_column :
      (fuel : ℕ) (buffer : Bytes) (at content t size consumed : ℕ) (rest : List (SerialType × ℕ))
      → at < header_size
      → next_serial buffer at ≡ ok (t, size, consumed)
      → content + size < 2 ^ 31
      → header_loop fuel buffer header_size (at + consumed) (content + size) ≡ some (ok rest)
      → header_loop (suc fuel) buffer header_size at content ≡ some (ok ((t, content) ∷ rest))
  unfolding header_loop
  loop_column fuel buffer at content t size consumed rest inside found fits further =
      let goes : leb header_size at ≡ false = ground arith in
      let word : leb (2 ^ 31) (content + size) ≡ false = ground arith in
      rw (goes, found, word, further)

-- On a header that holds the varints of serial types none of which is reserved, the loop returns the
-- serial types in order, each with the sum of the content sizes before it as its offset, provided the
-- offsets fit an `i32`. Fuel above the number of columns is enough.
pub header_loop-column_bytes :
    (fuel content : ℕ) (front : Bytes) (columns : List Column)
    → length columns < fuel
    → All IsColumn columns
    → content + total_size columns < 2 ^ 31
    → header_loop fuel
        (front ++ column_bytes columns)
        (length (front ++ column_bytes columns))
        (length front)
        content
      ≡ some (ok (offsets content columns))
unfolding column_bytes offsets total_size
header_loop-column_bytes zero content front columns enough good fits = absurd (omega arith)
header_loop-column_bytes (suc fuel) content front [] enough good fits =
    loop_ends (length (front ++ [])) fuel (front ++ []) (length front) content
      (omega (arith, length-append front []))
header_loop-column_bytes (suc fuel) content front (c ∷ cs) enough (good, goods) fits =
    let bytes = short_form c.groups c.serial_type in
    let whole = front ++ (bytes ++ column_bytes cs) in
    let width : length bytes ≡ c.groups + 1 = length-short_form c.groups c.serial_type in
    let moved : length (front ++ bytes) ≡ length front + (c.groups + 1) =
      omega (arith, length-append front bytes, width) in
    let further =
      header_loop-column_bytes fuel (content + c.size) (front ++ bytes) cs (omega arith) goods
        (omega arith) in
    loop_column (length whole) fuel whole (length front) content c.serial_type c.size (c.groups + 1)
      (offsets (content + c.size) cs)
      (omega (
        arith,
        length-append front (bytes ++ column_bytes cs),
        length-append bytes (column_bytes cs),
        width,
      ))
      (next_serial-column front (column_bytes cs) c good) (omega arith)
      (rw (append_assoc front bytes (column_bytes cs), moved) at further)

All-drop : (n : ℕ) (buffer : Bytes) → IsBytes buffer → IsBytes (drop n buffer)
All-drop zero buffer h = h
All-drop (suc n) [] h = tt
All-drop (suc n) (b ∷ bs) (_, h) = All-drop n bs h

unwrap_varint :
    (e : Error) (r : Result (Option (ℤ × ℕ))) (v : ℤ × ℕ)
    → (r >>= λ o. ok_or o e) ≡ ok v
    → r ≡ ok (some v)
unwrap_varint e (ok (some w)) v h = ground arith
unwrap_varint e (ok none) v h = cc
unwrap_varint e (err f) v h = cc
unwrap_varint e panic v h = cc

suffix_bytes : (buffer : Bytes) (at : ℕ) → IsBytes buffer → Ensures IsBytes (slice_from buffer at)
suffix_bytes buffer at h = elim (Bool-cases (leb at (length buffer))) [
  | inl e ↦ rw e (All-drop at buffer h)
  | inr e ↦ rw e tt
]

abbrev Advances : SerialType × ℕ × ℕ → Type 0
Advances r = 1 ≤ r.2

next_serial-Advances :
    (buffer : Bytes) (at : ℕ) → IsBytes buffer → Ensures Advances (next_serial buffer at)
unfolding next_serial
next_serial-Advances buffer at hb = bind-Ensures Advances (slice_from buffer at) _ (λ bytes same.
    bind-Ensures Advances (parse_varint bytes >>= λ v. ok_or v Error.parse_serial_type) _
      (λ v found.
        let suffix : IsBytes bytes = Ensures-ok IsBytes (suffix_bytes buffer at hb) same in
        let (one, few, inside, signed_v) =
          parse_varint_bounds bytes v.0 v.1 suffix
            (unwrap_varint Error.parse_serial_type (parse_varint bytes) v found) in
        bind-Ensures Advances (ok_or (to_unsigned (2 ^ 32) v.0) Error.serial_type_is_too_large) _
          (λ t fits. bind-Ensures Advances (content_size t) _ (λ size sized. one))))

-- Out of fuel is no result.
abbrev pub Returns {ℓ} : {A : Type ℓ} → Run A → Type 0
Returns none = ⊥
Returns (some r) = Unit

and_then-Returns :
    {A B : Type 0} (r : Result A) (f : A → Run B)
    → ((a : A) → r ≡ ok a → Returns (f a))
    → Returns (and_then (some r) f)
and_then-Returns (ok a) f h = h a refl
and_then-Returns (err e) f h = tt
and_then-Returns panic f h = tt

Returns-and_then :
    {A B : Type 0} (m : Run A) (f : A → Run B)
    → Returns m
    → ((a : A) → Returns (f a))
    → Returns (and_then m f)
Returns-and_then none f h k = h
Returns-and_then (some (ok a)) f h k = k a
Returns-and_then (some (err e)) f h k = tt
Returns-and_then (some panic) f h k = tt

loop_round :
    (fuel header_size at content : ℕ) (buffer : Bytes)
    → leb header_size at ≡ false
    → ((found : SerialType × ℕ × ℕ)
        → next_serial buffer at ≡ ok found
        → Returns (header_loop fuel buffer header_size (at + found.2) (content + found.1)))
    → Returns (header_loop (suc fuel) buffer header_size at content)
unfolding header_loop
loop_round fuel header_size at content buffer goes further = rw goes (
    and_then-Returns (next_serial buffer at) _ (λ found same.
      elim (Bool-cases (leb (2 ^ 31) (content + found.1))) [
        | inl f ↦ rw f tt
        | inr f ↦ rw f (Returns-and_then _ _ (further found same) (λ cs. tt))
      ]))

-- On any bytes the loop over the header comes to an end: with fuel above the distance to the end of the
-- header it returns a list, an error or a panic.
pub header_loop-Returns :
    (fuel header_size at content : ℕ) (buffer : Bytes)
    → IsBytes buffer
    → header_size ≤ at + fuel
    → Returns (header_loop (suc fuel) buffer header_size at content)
header_loop-Returns zero header_size at content buffer hb enough =
    rw (loop_ends header_size 0 buffer at content (omega arith)) tt
header_loop-Returns (suc fuel) header_size at content buffer hb enough =
    elim (Bool-cases (leb header_size at)) [
      | inl e ↦ rw (loop_ends header_size (suc fuel) buffer at content (ground arith)) tt
      | inr e ↦ loop_round (suc fuel) header_size at content buffer e (λ found same.
          let one : 1 ≤ found.2 = Ensures-ok Advances (next_serial-Advances buffer at hb) same in
          header_loop-Returns fuel header_size (at + found.2) (content + found.1) buffer hb
            (omega arith))
    ]
