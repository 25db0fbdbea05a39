-- ===== src/Json.antt =====
-- The values of `json.loads`, with the accessors and tests of Python that the program applies to them.
-- An integer is its sign and magnitude; a float is finite, and is its sign and its size in millionths.
use browser_fetch_router.Prelude.{
  ℕ, Bool, true, false, not, ◌*◌, ◌&&◌, ◌||◌, ◌==◌, Option, none, some, List, [], ◌∷◌,
  if◌then◌else◌,
}
use browser_fetch_router.Prelude.Text.{Text, text_eq}
use browser_fetch_router.Prelude.Dict.{get, put}

mutual
  pub data Json : Type 0 where
    null : Json
    boolean : Bool → Json
    integer real : Bool → ℕ → Json
    string : Text → Json
    array : Items → Json
    object : Members → Json

  pub data Items : Type 0 where
    no_items : Items
    item : Json → Items → Items

  pub data Members : Type 0 where
    no_members : Members
    member : Text → Json → Members → Members

-- A dict with text keys.
abbrev pub Fields : Type 0
Fields = List (Text × Json)

unfoldable pub items : Items → List Json
items no_items = []
items (item v rest) = v ∷ items rest

unfoldable pub fields : Members → Fields
fields no_members = []
fields (member k v rest) = (k, v) ∷ fields rest

unfoldable pub members : Fields → Members
members [] = no_members
members ((k, v) ∷ rest) = member k v (members rest)

unfoldable pub array_of : List Json → Items
array_of [] = no_items
array_of (v ∷ rest) = item v (array_of rest)

-- `isinstance(v, dict)`, with the dict.
unfoldable pub as_dict : Json → Option Fields
unfolding fields
as_dict (object d) = some (fields d)
as_dict null = none
as_dict (boolean b) = none
as_dict (integer sign n) = none
as_dict (real sign n) = none
as_dict (string s) = none
as_dict (array a) = none

unfoldable pub as_text : Json → Option Text
as_text (string s) = some s
as_text null = none
as_text (boolean b) = none
as_text (integer sign n) = none
as_text (real sign n) = none
as_text (array a) = none
as_text (object d) = none

-- `d.get(k)`, where a missing key is None.
unfoldable pub lookup : Text → Fields → Json
lookup k d = elim (get k d) [ none ↦ null | some v ↦ v ]

-- `bool(v)`.
unfoldable pub is_truthy : Json → Bool
is_truthy null = false
is_truthy (boolean b) = b
is_truthy (integer sign n) = not (n == 0)
is_truthy (real sign n) = not (n == 0)
is_truthy (string []) = false
is_truthy (string (c ∷ s)) = true
is_truthy (array no_items) = false
is_truthy (array (item v rest)) = true
is_truthy (object no_members) = false
is_truthy (object (member k v rest)) = true

-- `v == s` for a text `s`.
unfoldable pub equals_text : Json → Text → Bool
unfolding as_text
equals_text v s = elim (as_text v) [ none ↦ false | some t ↦ text_eq t s ]

-- `v == n` for a natural number `n`: True, 1 and 1.0 are equal.
unfoldable pub equals_nat : Json → ℕ → Bool
equals_nat null n = false
equals_nat (boolean b) n = (if b then 1 else 0) == n
equals_nat (integer sign m) n = m == n && (not sign || n == 0)
equals_nat (real sign m) n = m == n * 1000000 && (not sign || n == 0)
equals_nat (string s) n = false
equals_nat (array a) n = false
equals_nat (object d) n = false

-- `isinstance(v, int)`: True and False are integers too.
unfoldable pub is_int : Json → Bool
is_int null = false
is_int (boolean b) = true
is_int (integer sign n) = true
is_int (real sign n) = false
is_int (string s) = false
is_int (array a) = false
is_int (object d) = false

-- `{**d, **more}` and `d.update(more)`.
unfoldable pub update : Fields → Fields → Fields
update d [] = d
update d ((k, v) ∷ more) = update (put k v d) more

unfoldable pub text_or_null : Option Text → Json
text_or_null none = null
text_or_null (some s) = string s
