-- ===== src/Injector/Asar/Entries.antt =====
-- The unpacked entries of an archive's header in crates/injector/src/asar_merge.rs: how they are
-- collected, and inserted again. `Fields` has the entries of an object in their order.
use tron_hawk.Common.{
  Bool, false, Option, none, some, List, [], ◌∷◌, ◌++◌, Str, codes, str_eq, Result, ok, err, ◌>>=◌,
  ok_or, if◌then◌else◌,
}
use tron_hawk.Common.Map.{lookup}
use tron_hawk.Json.{
  Json, null, boolean, number, string, array, object, Fields, end, field, entries, get,
}
use tron_hawk.Injector.Asar.{AsarError, not_an_object, no_root_files, empty_path, collides}

-- The names of an entry from the root, and its node.
abbrev pub Entry : Type 0
Entry = List Str × Json

abbrev pub is_true : Option Json → Bool
is_true (some (boolean b)) = b
is_true _ = false

abbrev pub is_unpacked : Json → Bool
is_unpacked node = is_true (get (codes "unpacked") node)

abbrev pub unpacked_here : List Str → Json → List Entry
unpacked_here path node = if is_unpacked node then (path, node) ∷ [] else []

unfoldable mutual
  -- The entries of a `files` map: each that is unpacked, and those below it.
  pub collect_unpacked_entries_in : Fields → List Str → List Entry
  collect_unpacked_entries_in end prefix = []
  collect_unpacked_entries_in (field name node rest) prefix =
      unpacked_here (prefix ++ (name ∷ [])) node
      ++ (collect_below node (prefix ++ (name ∷ [])) ++ collect_unpacked_entries_in rest prefix)

  -- `node.get("files").and_then(as_object)`
  pub collect_below : Json → List Str → List Entry
  collect_below (object fields) path = collect_files fields path
  collect_below null path = []
  collect_below (boolean b) path = []
  collect_below (number n) path = []
  collect_below (string s) path = []
  collect_below (array vs) path = []

  pub collect_files : Fields → List Str → List Entry
  collect_files end path = []
  collect_files (field k v rest) path =
      let there = collect_object v path in
      let later = collect_files rest path in if str_eq k (codes "files") then there else later

  pub collect_object : Json → List Str → List Entry
  collect_object (object fields) path = collect_unpacked_entries_in fields path
  collect_object null path = []
  collect_object (boolean b) path = []
  collect_object (number n) path = []
  collect_object (string s) path = []
  collect_object (array vs) path = []

unfoldable pub collect_unpacked_entries : Json → List Entry
collect_unpacked_entries header = collect_below header []

-- `Map::insert`: the value of a key that is there is replaced.
unfoldable pub set_field : Str → Json → Fields → Fields
set_field k v end = field k v end
set_field k v (field j w rest) =
    let later = set_field k v rest in if str_eq j k then field k v rest else field j w later

abbrev pub fields_of : Option Json → Option Fields
fields_of (some (object fields)) = some fields
fields_of _ = none

-- The `files` map of a node.
abbrev pub files_of : Json → Option Fields
files_of node = fields_of (get (codes "files") node)

-- The node with another `files` map.
abbrev pub with_files : Fields → Json → Json
with_files files (object fields) = object (set_field (codes "files") (object files) fields)
with_files files node = node

abbrev pub new_directory : Json
new_directory = object (field (codes "files") (object end) end)

-- `entry(head).or_insert_with(…)`
abbrev pub or_new_directory : Option Json → Json
or_new_directory none = new_directory
or_new_directory (some node) = node

unfoldable pub insert_into_files : Fields → List Str → Json → Result AsarError Fields
insert_into_files files [] node = err empty_path
insert_into_files files (head ∷ []) node = ok (set_field head node files)
insert_into_files files (head ∷ next ∷ rest) node =
    let child = or_new_directory (lookup head (entries files)) in
    ok_or (files_of child) (collides head) >>= λ child_files.
    insert_into_files child_files (next ∷ rest) node >>= λ updated.
    ok (set_field head (with_files updated child) files)

unfoldable pub insert_all : Fields → List Entry → Result AsarError Fields
insert_all files [] = ok files
insert_all files ((components, node) ∷ entries) =
    insert_into_files files components node >>= λ after. insert_all after entries

unfoldable pub insert_unpacked_entries : Json → List Entry → Result AsarError Json
insert_unpacked_entries (object fields) entries =
    ok_or (files_of (object fields)) no_root_files >>= λ root_files.
    insert_all root_files entries >>= λ after. ok (with_files after (object fields))
insert_unpacked_entries header entries = err not_an_object
