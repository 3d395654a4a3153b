-- ===== src/Injector/Asar/Inserted.antt =====
-- What the insertion of unpacked entries in crates/injector/src/asar_merge.rs makes of a header.
use tron_hawk.Common.{
  ◌≡◌, refl, sym, ◌∙◌, Bool, true, false, Option, none, some, List, [], ◌∷◌, Str, codes, str_eq,
  str_eq_iff, All, Result, ok, bind_ok, err-ne-ok, ok_or, Bool-cases, Option-cases, arith,
  if◌then◌else◌, inl, inr,
}
use tron_hawk.Common.Map.{lookup}
use tron_hawk.Json.{Json, null, boolean, number, string, array, object, Fields, end, field, entries}
use tron_hawk.Injector.Asar.{collides}
use tron_hawk.Injector.Asar.Entries.{
  Entry, set_field, files_of, with_files, new_directory, or_new_directory, insert_into_files,
  insert_all,
}

-- The node at the names of an entry, through the `files` maps of the directories.
unfoldable pub node_at : Fields → List Str → Option Json
node_at files [] = none
node_at files (head ∷ []) = lookup head (entries files)
node_at files (head ∷ next ∷ rest) = elim (lookup head (entries files)) [
  | none ↦ none
  | some child ↦ elim (files_of child) [
    | none ↦ none
    | some child_files ↦ node_at child_files (next ∷ rest)
  ]
]

-- Whether two paths part: neither continues the other.
unfoldable pub diverges : List Str → List Str → Bool
diverges [] q = false
diverges (a ∷ p) [] = false
diverges (a ∷ p) (b ∷ q) = let rest = diverges p q in if str_eq a b then rest else true

pub lookup-set_field :
    (k j : Str) (v : Json) (fields : Fields)
    → lookup j (entries (set_field k v fields))
      ≡ (if str_eq k j then some v else lookup j (entries fields))
unfolding lookup set_field
lookup-set_field k j v end = refl
lookup-set_field k j v (field i w rest) =
    ground (arith, str_eq_iff k j, str_eq_iff i k, str_eq_iff i j, lookup-set_field k j v rest)

same_name : (s : Str) → str_eq s s ≡ true
same_name s = (str_eq_iff s s).1 refl

pub files_of-with_files :
    (files old : Fields) (node : Json)
    → files_of node ≡ some old
    → files_of (with_files files node) ≡ some files
files_of-with_files files old (object fields) h =
    rw (lookup-set_field, same_name (codes "files")) refl
files_of-with_files files old null h = cc
files_of-with_files files old (boolean b) h = cc
files_of-with_files files old (number n) h = cc
files_of-with_files files old (string s) h = cc
files_of-with_files files old (array vs) h = cc

pub ok_or_ok : {A E : Type 0} (o : Option A) (e : E) (a : A) → ok_or o e ≡ ok a → o ≡ some a
ok_or_ok none e a h = err-ne-ok h
ok_or_ok (some b) e a h = ground arith

pub ok_equal : {A E : Type 0} (a b : A) → Path (Result E A) (ok a) (ok b) → a ≡ b
ok_equal a b h = ground arith

-- The steps of an insertion below a directory.
abbrev Below : Fields → Str → List Str → Json → Fields → Type 0
Below files head path node after =
    (child_files updated : Fields) × (files_of (or_new_directory (lookup head (entries files)))
      ≡ some child_files)
    × (insert_into_files child_files path node ≡ ok updated)
    × (set_field head (with_files updated (or_new_directory (lookup head (entries files)))) files
        ≡ after)

insert_into_files-Below :
    (files : Fields) (head next : Str) (rest : List Str) (node : Json) (after : Fields)
    → insert_into_files files (head ∷ next ∷ rest) node ≡ ok after
    → Below files head (next ∷ rest) node after
unfolding insert_into_files
insert_into_files-Below files head next rest node after h =
    let child = or_new_directory (lookup head (entries files)) in
    let (child_files, c, more) = bind_ok (ok_or (files_of child) (collides head)) _ after h in
    let (updated, d, b) = bind_ok (insert_into_files child_files (next ∷ rest) node) _ after more in
    (
      child_files,
      updated,
      ok_or_ok (files_of child) (collides head) child_files c,
      d,
      ok_equal _ _ b,
    )

-- An entry is found where it was inserted.
pub insert_into_files-node_at :
    (files : Fields) (path : List Str) (node : Json) (after : Fields)
    → insert_into_files files path node ≡ ok after
    → node_at after path ≡ some node
unfolding insert_into_files node_at
insert_into_files-node_at files [] node after h = err-ne-ok h
insert_into_files-node_at files (head ∷ []) node after h =
    let e : set_field head node files ≡ after = ok_equal _ _ h in
    rw (← e, lookup-set_field, same_name head) refl
insert_into_files-node_at files (head ∷ next ∷ rest) node after h =
    let (child_files, updated, there, inserted, e) =
      insert_into_files-Below files head next rest node after h in
    let child = or_new_directory (lookup head (entries files)) in
    let again = files_of-with_files updated child_files child there in
    rw (← e, node_at, lookup-set_field, same_name head, again)
      (insert_into_files-node_at child_files (next ∷ rest) node updated inserted)

parts : (a b : Str) (p q : List Str) → str_eq a b ≡ true → diverges (a ∷ p) (b ∷ q) ≡ diverges p q
unfolding diverges
parts a b p q h = rw (diverges, h) refl

node_at-end : (path : List Str) → node_at end path ≡ none
unfolding node_at lookup
node_at-end [] = refl
node_at-end (head ∷ []) = refl
node_at-end (head ∷ next ∷ rest) = refl

files_of-new_directory : files_of new_directory ≡ some end
unfolding lookup str_eq
files_of-new_directory = refl

some_equal : {A : Type 0} (a b : A) → some a ≡ some b → a ≡ b
some_equal a b h = ground arith

-- What is looked up through a missing directory or a new one.
node_at-or_new_directory :
    (files : Fields) (head next : Str) (rest : List Str) (child_files : Fields)
    → files_of (or_new_directory (lookup head (entries files))) ≡ some child_files
    → node_at files (head ∷ next ∷ rest) ≡ node_at child_files (next ∷ rest)
unfolding node_at
node_at-or_new_directory files head next rest child_files h =
    elim (Option-cases (lookup head (entries files))) [
      | inl missing ↦
          let fresh : files_of new_directory ≡ some child_files = rw missing at h in
          let e : end ≡ child_files =
            some_equal end child_files (sym files_of-new_directory ∙ fresh) in
          rw (node_at, missing, ← e) (sym (node_at-end (next ∷ rest)))
      | inr (child, there) ↦
          let old : files_of child ≡ some child_files = rw there at h in
          rw (node_at, there, old) refl
    ]

node_at_elsewhere :
    (k j : Str) (v : Json) (files : Fields) (q : List Str)
    → str_eq k j ≡ false
    → node_at (set_field k v files) (j ∷ q) ≡ node_at files (j ∷ q)
unfolding node_at
node_at_elsewhere k j v files [] other = rw (lookup-set_field, other) refl
node_at_elsewhere k j v files (m ∷ q) other = rw (node_at, lookup-set_field, other) refl

-- Below the same directory an insertion has the effect that it has on the directory's files.
node_at-below :
    (files child_files updated : Fields) (a m : Str) (s : List Str)
    → files_of (or_new_directory (lookup a (entries files))) ≡ some child_files
    → node_at updated (m ∷ s) ≡ node_at child_files (m ∷ s)
    → node_at
        (set_field a (with_files updated (or_new_directory (lookup a (entries files)))) files)
        (a ∷ m ∷ s)
      ≡ node_at files (a ∷ m ∷ s)
unfolding node_at
node_at-below files child_files updated a m s there same =
    let child = or_new_directory (lookup a (entries files)) in
    let again = files_of-with_files updated child_files child there in
    rw (node_at, lookup-set_field, same_name a, again)
      (same ∙ sym (node_at-or_new_directory files a m s child_files there))

-- A node whose path parts from that of the insertion stays.
pub insert_into_files_elsewhere :
    (files : Fields) (path : List Str) (node : Json) (after : Fields) (q : List Str)
    → insert_into_files files path node ≡ ok after
    → diverges path q ≡ true
    → node_at after q ≡ node_at files q
unfolding insert_into_files diverges
insert_into_files_elsewhere files [] node after q h parted = err-ne-ok h
insert_into_files_elsewhere files (a ∷ p) node after [] h parted = absurd (cc parted)
insert_into_files_elsewhere files (a ∷ []) node after (b ∷ q) h parted =
    let e : set_field a node files ≡ after = ok_equal _ _ h in
    let other : str_eq a b ≡ false = ground arith in
    rw (← e) (node_at_elsewhere a b node files q other)
insert_into_files_elsewhere files (a ∷ n ∷ r) node after (b ∷ []) h parted =
    let (child_files, updated, there, inserted, e) =
      insert_into_files-Below files a n r node after h in
    let child = or_new_directory (lookup a (entries files)) in
    let other : str_eq a b ≡ false = ground arith in
    rw (← e) (node_at_elsewhere a b (with_files updated child) files [] other)
insert_into_files_elsewhere files (a ∷ n ∷ r) node after (b ∷ m ∷ s) h parted =
    let (child_files, updated, there, inserted, e) =
      insert_into_files-Below files a n r node after h in
    let child = or_new_directory (lookup a (entries files)) in
    elim (Bool-cases (str_eq a b)) [
      | inr other ↦ rw (← e) (node_at_elsewhere a b (with_files updated child) files (m ∷ s) other)
      | inl same ↦
          let below =
            insert_into_files_elsewhere child_files (n ∷ r) node updated (m ∷ s) inserted
              (sym (parts a b (n ∷ r) (m ∷ s) same) ∙ parted) in
          rw (← e, ← (str_eq_iff a b).0 same)
            (node_at-below files child_files updated a m s there below)
    ]

-- Each entry's path parts from the paths of those behind it.
abbrev pub ArePairwise : List Entry → Type 0
ArePairwise [] = Unit
ArePairwise ((path, node) ∷ entries) =
    All (λ (e : Entry). diverges e.0 path ≡ true) entries × ArePairwise entries

-- A node stays whose path parts from that of every entry.
pub insert_all_elsewhere :
    (files : Fields) (unpacked : List Entry) (after : Fields) (q : List Str)
    → insert_all files unpacked ≡ ok after
    → All (λ (e : Entry). diverges e.0 q ≡ true) unpacked
    → node_at after q ≡ node_at files q
unfolding insert_all
insert_all_elsewhere files [] after q h parted = rw (ok_equal files after h) refl
insert_all_elsewhere files ((path, node) ∷ unpacked) after q h parted =
    let (middle, first, more) = bind_ok (insert_into_files files path node) _ after h in
    insert_all_elsewhere middle unpacked after q more parted.1
    ∙ insert_into_files_elsewhere files path node middle q first parted.0

-- Entries whose paths part are all found where they were inserted.
pub insert_all-node_at :
    (files : Fields) (unpacked : List Entry) (after : Fields)
    → insert_all files unpacked ≡ ok after
    → ArePairwise unpacked
    → All (λ (e : Entry). node_at after e.0 ≡ some e.1) unpacked
unfolding insert_all
insert_all-node_at files [] after h apart = tt
insert_all-node_at files ((path, node) ∷ unpacked) after h apart =
    let (middle, first, more) = bind_ok (insert_into_files files path node) _ after h in
    (
      insert_all_elsewhere middle unpacked after path more apart.0
          ∙ insert_into_files-node_at files path node middle first,
      insert_all-node_at middle unpacked after more apart.1,
    )
