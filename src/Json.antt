-- ===== src/Json.antt =====
-- JSON values as serde_json documents them: `Value`, its accessors, and objects as maps ordered by
-- key (serde_json's default map). `core::extend_fields` (src/core/mod.rs) stands here too.

use Prim.Native.Nat.{Ordering}
use Prim.Native.String.{compare}
use codex_bridge.Common.{
  ltb, Bool, true, false, ◌&&◌, String, Option, none, some, List, [], ◌∷◌, unwrap_or, and_then,
  keep_if, not, ◌==◌, nat_eq, if◌then◌else◌,
}
use codex_bridge.Common.Decimal.{ℤ, pos, negsuc, i64_half, show_ℤ}

-- An integer, or a float by the text that serde_json prints for it.
pub data Number : Type 0 where
  int : ℤ → Number
  float : String → Number

mutual
  pub data Value : Type 0 where
    null : Value
    bool : Bool → Value
    num : Number → Value
    str : String → Value
    array : Elements → Value
    map_of : Entries → Value

  pub data Elements : Type 0 where
    no_items : Elements
    item : Value → Elements → Elements

  pub data Entries : Type 0 where
    no_entries : Entries
    entry : String → Value → Entries → Entries

abbrev pub int_eq : ℤ → ℤ → Bool
int_eq (pos a) (pos b) = nat_eq a b
int_eq (negsuc a) (negsuc b) = nat_eq a b
int_eq _ _ = false

abbrev pub number_eq : Number → Number → Bool
number_eq (int a) (int b) = int_eq a b
number_eq (float a) (float b) = a == b
number_eq _ _ = false

-- `Value::eq`
unfoldable mutual
  pub value_eq : Value → Value → Bool
  value_eq null null = true
  value_eq (bool true) (bool true) = true
  value_eq (bool false) (bool false) = true
  value_eq (num a) (num b) = number_eq a b
  value_eq (str a) (str b) = a == b
  value_eq (array a) (array b) = items_eq a b
  value_eq (map_of a) (map_of b) = fields_eq a b
  value_eq _ _ = false

  pub items_eq : Elements → Elements → Bool
  items_eq no_items no_items = true
  items_eq (item v a) (item w b) = value_eq v w && items_eq a b
  items_eq _ _ = false

  pub fields_eq : Entries → Entries → Bool
  fields_eq no_entries no_entries = true
  fields_eq (entry k v a) (entry j w b) = k == j && (value_eq v w && fields_eq a b)
  fields_eq _ _ = false

abbrev pub to_list : Elements → List Value
to_list no_items = []
to_list (item v r) = v ∷ to_list r

abbrev pub of_list : List Value → Elements
of_list [] = no_items
of_list (v ∷ r) = item v (of_list r)

-- Map::get
unfoldable pub lookup : String → Entries → Option Value
lookup k no_entries = none
lookup k (entry j v r) = if j == k then some v else lookup k r

-- Map::insert
unfoldable pub insert : String → Value → Entries → Entries
insert k v no_entries = entry k v no_entries
insert k v (entry j w r) =
    let rest = insert k v r in
    elim (compare k j) [
      | Ordering.lt ↦ entry k v (entry j w r)
      | Ordering.eq ↦ entry k v r
      | Ordering.gt ↦ entry j w rest
    ]

-- Value::get with a key
abbrev pub get : String → Value → Option Value
get k (map_of fs) = lookup k fs
get k _ = none

-- Value::pointer, its path split at the slashes into names that are no array indices
abbrev pub pointer : List String → Value → Option Value
pointer [] v = some v
pointer (k ∷ ks) v = and_then (get k v) (pointer ks)

abbrev pub as_str : Value → Option String
as_str (str s) = some s
as_str _ = none

abbrev pub as_array : Value → Option (List Value)
as_array (array xs) = some (to_list xs)
as_array _ = none

abbrev pub as_i64 : Value → Option ℤ
as_i64 (num (int (pos n))) = if ltb n i64_half then some (pos n) else none
as_i64 (num (int (negsuc n))) = if ltb n i64_half then some (negsuc n) else none
as_i64 _ = none

abbrev pub is_null : Value → Bool
is_null null = true
is_null _ = false

abbrev pub is_string : Value → Bool
is_string (str _) = true
is_string _ = false

abbrev pub is_object : Value → Bool
is_object (map_of _) = true
is_object _ = false

-- Number::to_string
abbrev pub show_number : Number → String
show_number (int z) = show_ℤ z
show_number (float s) = s

abbrev pub get_str : String → Value → Option String
get_str k v = and_then (get k v) as_str

-- `get(key).cloned().unwrap_or(Value::Null)`, and indexing by a key
abbrev pub get_or_null : String → Value → Value
get_or_null k v = unwrap_or (get k v) null

-- `value[key] = v`: on a value that is neither an object nor null the program would panic.
unfoldable pub set_key : String → Value → Value → Value
set_key k v (map_of fs) = map_of (insert k v fs)
set_key k v null = map_of (entry k v no_entries)
set_key k v other = other

insert_all : List (String × Value) → Entries → Entries
insert_all [] fs = fs
insert_all ((k, v) ∷ r) fs = insert_all r (insert k v fs)

-- `json!({…})`
unfoldable pub object : List (String × Value) → Value
unfolding insert_all
object kvs = map_of (insert_all kvs no_entries)

-- `json!` of an `Option<String>`
abbrev pub opt_str : Option String → Value
opt_str none = null
opt_str (some s) = str s

extend : Entries → Entries → Entries
extend fs no_entries = fs
extend fs (entry k v r) = extend (insert k v fs) r

-- core::extend_fields: the event is an object.
unfoldable pub extend_fields : Value → Value → Value
unfolding extend
extend_fields (map_of fs) (map_of gs) = map_of (extend fs gs)
extend_fields v _ = v

-- `for key in keys { if let Some(value) = src.get(key) { out[key] = value.clone() } }`, where a null
-- counts as absent if `skip_null`
unfoldable pub copy_keys : Bool → List String → Value → Value → Value
unfolding set_key
copy_keys skip_null [] src out = out
copy_keys skip_null (k ∷ ks) src out =
    copy_keys skip_null ks src (elim (keep_if (λ v. not (skip_null && is_null v)) (get k src)) [
      | some v ↦ set_key k v out
      | none ↦ out
    ])
