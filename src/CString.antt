-- ===== src/CString.antt =====
-- include/string.h. A `const char *` is the list of the bytes from the pointer to the end of its
-- object, each below 256; a read or a write past that end is `none`. A pointer that is written
-- through is the same list, and the function returns the list after the writes.
pub mod Text
pub mod Compare
pub mod Nul
pub mod Copy
use anaga.Prelude.{
  ℕ, zero, suc, ◌-◌, ◌%◌, Option, none, some, List, [], ◌∷◌, Bool, true, false, ◌==◌, ltb,
  if◌then◌else◌, ◌>>=◌,
}

-- `*(unsigned char*)s1 - *(unsigned char*)s2`, an `int` by its sign and its magnitude.
pub data Diff : Type 0 where
  equal : Diff
  less : ℕ → Diff
  more : ℕ → Diff

-- the test `strcmp(...) == 0`
abbrev pub is_equal : Diff → Bool
is_equal equal = true
is_equal _ = false

unfoldable pub byte_diff : ℕ → ℕ → Diff
byte_diff a b = if a == b then equal else if ltb a b then less (b - a) else more (a - b)

-- The last byte that is compared ends the loop: NUL in `s1`, or a byte that differs.
unfoldable pub strcmp : List ℕ → List ℕ → Option Diff
unfolding byte_diff
strcmp [] s2 = none
strcmp (a ∷ s1) [] = none
strcmp (a ∷ s1) (b ∷ s2) =
    let rest = strcmp s1 s2 in
    if a == 0 then some (byte_diff a b) else if a == b then rest else some (byte_diff a b)

unfoldable pub strncmp : ℕ → List ℕ → List ℕ → Option Diff
unfolding byte_diff
strncmp zero s1 s2 = some equal
strncmp (suc n) [] s2 = none
strncmp (suc n) (a ∷ s1) [] = none
strncmp (suc n) (a ∷ s1) (b ∷ s2) =
    let rest = strncmp n s1 s2 in
    if a == 0 then some (byte_diff a b) else if a == b then rest else some (byte_diff a b)

-- `while (str[len]) len++`, from index `len` on
unfoldable pub strlen_from : ℕ → List ℕ → Option ℕ
strlen_from len [] = none
strlen_from len (c ∷ s) = let rest = strlen_from (suc len) s in if c == 0 then some len else rest

unfoldable pub strlen : List ℕ → Option ℕ
unfolding strlen_from
strlen s = strlen_from 0 s

-- `while ((*dest++ = *src++));`
unfoldable pub strcpy : List ℕ → List ℕ → Option (List ℕ)
strcpy dest [] = none
strcpy [] (c ∷ src) = none
strcpy (d ∷ dest) (c ∷ src) =
    let rest = strcpy dest src >>= λ out. some (c ∷ out) in if c == 0 then some (c ∷ dest) else rest

unfoldable pub strcat : List ℕ → List ℕ → Option (List ℕ)
unfolding strcpy
strcat [] src = none
strcat (d ∷ dest) src =
    let rest = strcat dest src >>= λ out. some (d ∷ out) in
    if d == 0 then strcpy (d ∷ dest) src else rest

-- `while (n--) *p++ = c`
unfoldable pub memset : List ℕ → ℕ → ℕ → Option (List ℕ)
memset s c zero = some s
memset [] c (suc n) = none
memset (x ∷ s) c (suc n) = memset s c n >>= λ out. some ((c % 256) ∷ out)

-- The copying loop stops on NUL before it counts that byte, so the loop that pads with NULs still
-- runs for all `n` bytes that are left.
unfoldable pub strncpy : List ℕ → List ℕ → ℕ → Option (List ℕ)
unfolding memset
strncpy dest src zero = some dest
strncpy dest [] (suc n) = none
strncpy [] (c ∷ src) (suc n) = none
strncpy (d ∷ dest) (c ∷ src) (suc n) =
    let padded = memset dest 0 (suc n) >>= λ out. some (c ∷ out) in
    let copied = strncpy dest src n >>= λ out. some (c ∷ out) in if c == 0 then padded else copied

unfoldable pub starts_with : List ℕ → List ℕ → Option Bool
starts_with str [] = none
starts_with [] (p ∷ prefix) = if p == 0 then some true else none
starts_with (c ∷ str) (p ∷ prefix) =
    let rest = starts_with str prefix in
    if p == 0 then some true else if c == p then rest else some false

unfoldable pub memcpy : List ℕ → List ℕ → ℕ → Option (List ℕ)
memcpy dest src zero = some dest
memcpy dest [] (suc n) = none
memcpy [] (x ∷ src) (suc n) = none
memcpy (d ∷ dest) (x ∷ src) (suc n) = memcpy dest src n >>= λ out. some (x ∷ out)
