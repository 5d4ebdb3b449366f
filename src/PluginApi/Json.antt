-- ===== src/PluginApi/Json.antt =====
-- `canonical_json` of crates/plugin-api/src/lib.rs: a JSON value with the keys of its objects sorted.
-- The values are those of `serde_json`; a number is the text that it is written as.
pub mod Canonical
pub mod Unordered
use open_soverign_blog.Prelude.{
  ◌≡◌, refl, ◌⊎◌, inl, inr, Bool, true, false, arith, if◌then◌else◌, ltb, ◌==◌, ◌&&◌, ◌||◌,
  Bool-cases, [], ◌∷◌,
}
use open_soverign_blog.Text.{Text, text_eq, text_eq_iff, text_lt}

mutual
  pub data Value : Type 0 where
    null : Value
    boolean : Bool → Value
    number string : Text → Value
    array : Values → Value
    object : Entries → Value

  pub data Values : Type 0 where
    no_values : Values
    value : Value → Values → Values

  pub data Entries : Type 0 where
    no_entries : Entries
    entry : Text → Value → Entries → Entries

-- `BTreeMap::insert`, on the entries in the order of their keys
unfoldable pub insert : Text → Value → Entries → Entries
insert key v no_entries = entry key v no_entries
insert key v (entry k u rest) =
    let later = insert key v rest in
    if text_lt key k
    then entry key v (entry k u rest)
    else if text_eq key k
    then entry key v rest
    else entry k u later

-- `collect` inserts the entries from the first one on, into the map that it has so far.
unfoldable pub collect : Entries → Entries → Entries
unfolding insert
collect sorted no_entries = sorted
collect sorted (entry k v rest) = collect (insert k v sorted) rest

unfoldable mutual
  pub canonical_json : Value → Value
  canonical_json null = null
  canonical_json (boolean b) = boolean b
  canonical_json (number n) = number n
  canonical_json (string s) = string s
  canonical_json (array vs) = array (canonical_values vs)
  canonical_json (object es) = object (collect no_entries (canonical_entries es))

  pub canonical_values : Values → Values
  canonical_values no_values = no_values
  canonical_values (value v vs) = value (canonical_json v) (canonical_values vs)

  pub canonical_entries : Entries → Entries
  canonical_entries no_entries = no_entries
  canonical_entries (entry k v es) = entry k (canonical_json v) (canonical_entries es)
