-- ===== src/Hf/Files/Names.antt =====
-- HF_DestroyFile of hf/hf.c and the names that the table of files holds.
use adb_minirel.Prelude.{◌≡◌, refl, false, List, [], ◌∷◌, ◌++◌, Option, none, some, arith}
use adb_minirel.Prelude.Result.{Fault, ok, fault, null_pointer, dangling_pointer}
use adb_minirel.Unix.{Name}
use adb_minirel.Hf.{FileName, no_name, freed_name, named, HfEntry, Hf}
use adb_minirel.Hf.Files.{name_is, is_open_file, hf_destroy_file}

-- None of the entries has the name.
abbrev pub OtherNames : Name → List HfEntry → Type 0
OtherNames name [] = Unit {0}
OtherNames name (e ∷ es) = (name_is e.filename name ≡ ok false) × OtherNames name es

is_open_file-after :
    (name : Name) (es rest : List HfEntry)
    → OtherNames name es
    → is_open_file (es ++ rest) name ≡ is_open_file rest name
unfolding is_open_file
is_open_file-after name [] rest o = refl
is_open_file-after name (e ∷ es) rest o = ground (arith, is_open_file-after name es rest)

-- What comparing a name with one that is no string runs into.
abbrev pub name_fault : FileName → Option Fault
name_fault no_name = some null_pointer
name_fault freed_name = some dangling_pointer
name_fault (named name) = none

name_is-fault :
    (f : FileName) (name : Name) (c : Fault) → name_fault f ≡ some c → name_is f name ≡ fault c
unfolding name_is
name_is-fault no_name name c e = ground arith
name_is-fault freed_name name c e = ground arith
name_is-fault (named other) name c e = cc

-- Where the table of files has an entry whose name is the null pointer, as in one that was never
-- used, or a freed one, as in one whose file was closed, HF_DestroyFile of a name that no entry
-- before it has runs into that pointer: into the null pointer or the dangling one.
pub hf_destroy_file-bad_name :
    (s : Hf) (name : Name) (es rest : List HfEntry) (e : HfEntry) (c : Fault)
    → s.file_table ≡ es ++ e ∷ rest
    → OtherNames name es
    → name_fault e.filename ≡ some c
    → hf_destroy_file s name ≡ fault c
unfolding hf_destroy_file is_open_file
hf_destroy_file-bad_name s name es rest e c table others bad =
    let after = is_open_file-after name es (e ∷ rest) others in
    let stops = name_is-fault e.filename name c bad in ground (arith, after)
