-- ===== src/Schema/Affinity.antt =====
-- The affinity of a column's type.
use prsqlite.Prelude.{◌≡◌, refl, ap, ◌∙◌, Bool, true, false, ◌||◌, List, [], ◌∷◌, map}
use prsqlite.Prelude.{if◌then◌else◌, Bytes, is_infix}
use prsqlite.Prelude.{ok}
use prsqlite.Utils.Ascii.{lower}
use prsqlite.Utils.CaseInsensitive.{contains_lower_bytes}
use prsqlite.Utils.CaseInsensitive.Search.{contains_lower_bytes-is_infix}
use prsqlite.Value.{
  TypeAffinity, integer_affinity, text_affinity, blob_affinity, real_affinity, numeric_affinity,
}
use prsqlite.Schema.Columns.{
  is_text, is_integer, next_affinity, either, affinity_loop, calc_type_affinity, int_bytes,
  char_bytes, clob_bytes, text_bytes, blob_bytes, real_bytes, floa_bytes, doub_bytes,
}

-- Whether some name, in whatever case, has one of the parts in it.
unfoldable pub has_part : List Bytes → Bytes → Bool
has_part [] name = false
has_part (part ∷ parts) name = is_infix part (map lower name) || has_part parts name

unfoldable pub some_name : List Bytes → List Bytes → Bool
some_name parts [] = false
some_name parts (name ∷ names) = has_part parts name || some_name parts names

abbrev pub text_parts : List Bytes
text_parts = char_bytes ∷ clob_bytes ∷ text_bytes ∷ []

abbrev pub real_parts : List Bytes
real_parts = real_bytes ∷ floa_bytes ∷ doub_bytes ∷ []

-- SQLite's rules: the first that applies.
abbrev pub first_rule : Bool → Bool → Bool → Bool → TypeAffinity
first_rule ints texts blobs reals =
    if ints
    then integer_affinity
    else if texts
    then text_affinity
    else if blobs
    then blob_affinity
    else if reals
    then real_affinity
    else numeric_affinity

unfoldable pub affinity_rule : List Bytes → TypeAffinity
affinity_rule [] = blob_affinity
affinity_rule (name ∷ names) =
    first_rule (some_name (int_bytes ∷ []) (name ∷ names)) (some_name text_parts (name ∷ names))
      (some_name (blob_bytes ∷ []) (name ∷ names)) (some_name real_parts (name ∷ names))

abbrev is_blob : TypeAffinity → Bool
is_blob blob_affinity = true
is_blob _ = false

abbrev is_real : TypeAffinity → Bool
is_real real_affinity = true
is_real _ = false

-- The first rule that applies behind names that gave an affinity.
abbrev rule_behind : TypeAffinity → Bool → Bool → Bool → Bool → TypeAffinity
rule_behind a ints texts blobs reals =
    first_rule ints (is_text a || texts) (is_blob a || blobs) (is_real a || reals)

rule_step :
    (a : TypeAffinity)
    → is_integer a ≡ false
    → (i t b r is ts bs rs : Bool)
    → (if i then integer_affinity else rule_behind (next_affinity a t b r) is ts bs rs)
      ≡ rule_behind a (i || is) (t || ts) (b || bs) (r || rs)
rule_step integer_affinity h i t b r is ts bs rs = cc
rule_step a h true t b r is ts bs rs = refl
rule_step text_affinity h false true b r is ts bs rs = refl
rule_step text_affinity h false false true r is ts bs rs = refl
rule_step text_affinity h false false false r is ts bs rs = refl
rule_step blob_affinity h false true b r is ts bs rs = refl
rule_step blob_affinity h false false true r is ts bs rs = refl
rule_step blob_affinity h false false false r is ts bs rs = refl
rule_step real_affinity h false true b r is ts bs rs = refl
rule_step real_affinity h false false true r is ts bs rs = refl
rule_step real_affinity h false false false r is ts bs rs = refl
rule_step numeric_affinity h false true b r is ts bs rs = refl
rule_step numeric_affinity h false false true r is ts bs rs = refl
rule_step numeric_affinity h false false false true is ts bs rs = refl
rule_step numeric_affinity h false false false false is ts bs rs = refl

next-is_integer :
    (a : TypeAffinity)
    → is_integer a ≡ false
    → (t b r : Bool) → is_integer (next_affinity a t b r) ≡ false
next-is_integer integer_affinity h t b r = cc
next-is_integer a h true b r = refl
next-is_integer text_affinity h false true r = refl
next-is_integer text_affinity h false false r = refl
next-is_integer blob_affinity h false true r = refl
next-is_integer blob_affinity h false false r = refl
next-is_integer real_affinity h false true r = refl
next-is_integer real_affinity h false false r = refl
next-is_integer numeric_affinity h false true r = refl
next-is_integer numeric_affinity h false false true = refl
next-is_integer numeric_affinity h false false false = refl

either-ok : (x y : Bool) → either (ok x) (ok y) ≡ ok (x || y)
either-ok true y = refl
either-ok false y = refl

or_false : (x : Bool) → x ≡ (x || false)
or_false true = refl
or_false false = refl

one_part : (part name : Bytes) → contains_lower_bytes name part ≡ ok (has_part (part ∷ []) name)
unfolding has_part
one_part part name =
    contains_lower_bytes-is_infix name part ∙ ap ok (or_false (is_infix part (map lower name)))

three_parts :
    (x y z name : Bytes)
    → either
        (contains_lower_bytes name x)
        (either (contains_lower_bytes name y) (contains_lower_bytes name z))
      ≡ ok (has_part (x ∷ y ∷ z ∷ []) name)
unfolding has_part
three_parts x y z name =
    let found : Bytes → Bool = λ part. is_infix part (map lower name) in
    rw
      (
        contains_lower_bytes-is_infix name x,
        contains_lower_bytes-is_infix name y,
        one_part z name,
        either-ok (found y) (has_part (z ∷ []) name),
      )
      (either-ok (found x) (found y || has_part (z ∷ []) name))

if_ok : (b : Bool) (x y : TypeAffinity) → (if b then ok x else ok y) ≡ ok (if b then x else y)
if_ok true x y = refl
if_ok false x y = refl

affinity_loop-rule :
    (a : TypeAffinity) (names : List Bytes)
    → is_integer a ≡ false
    → affinity_loop a names
      ≡ ok (
          rule_behind a
            (some_name (int_bytes ∷ []) names)
            (some_name text_parts names)
            (some_name (blob_bytes ∷ []) names)
            (some_name real_parts names))
unfolding affinity_loop some_name
affinity_loop-rule integer_affinity [] h = cc
affinity_loop-rule text_affinity [] h = refl
affinity_loop-rule blob_affinity [] h = refl
affinity_loop-rule real_affinity [] h = refl
affinity_loop-rule numeric_affinity [] h = refl
affinity_loop-rule a (name ∷ names) h =
    let i = has_part (int_bytes ∷ []) name in
    let t = has_part text_parts name in
    let b = has_part (blob_bytes ∷ []) name in
    let r = has_part real_parts name in
    let a' = next_affinity a t b r in
    let later = affinity_loop-rule a' names (next-is_integer a h t b r) in
    rw
      (
        one_part int_bytes name,
        three_parts char_bytes clob_bytes text_bytes name,
        one_part blob_bytes name,
        three_parts real_bytes floa_bytes doub_bytes name,
        later,
      )
      (if_ok i integer_affinity _ ∙ ap ok (rule_step a h i t b r _ _ _ _))

-- `calc_type_affinity` never panics, and is SQLite's rule on the words of the type, in whatever case: no
-- type is BLOB; else a word with INT makes it INTEGER, else one with CHAR, CLOB or TEXT makes it TEXT,
-- else one with BLOB makes it BLOB, else one with REAL, FLOA or DOUB makes it REAL, else it is NUMERIC,
-- whatever the order of the words.
pub calc_type_affinity-affinity_rule :
    (names : List Bytes) → calc_type_affinity names ≡ ok (affinity_rule names)
unfolding calc_type_affinity affinity_rule
calc_type_affinity-affinity_rule [] = refl
calc_type_affinity-affinity_rule (name ∷ names) =
    affinity_loop-rule numeric_affinity (name ∷ names) refl
