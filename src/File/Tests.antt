-- ===== src/File/Tests.antt =====
-- kernel/file.c: runs at concrete inputs, and the theorems at such inputs.
use lab_so.Prelude.{◌≡◌, refl, true, false, none, some, List, [], ◌∷◌}
use lab_so.File.Defs.{
  File, fd_none, fd_inode, alloc_from, filealloc, filedup, fileclose, close_slot, iput, release_of,
}
use lab_so.File.Count.{Closed, fileclose_lem}

abbrev opened : File
opened = record { type = fd_inode; ref = 1; writable = true; pipe = 0; ip = 5 }

abbrev free : File
free = record { type = fd_none; ref = 0; writable = false; pipe = 0; ip = 0 }

abbrev files : List File
files = opened ∷ free ∷ free ∷ []

alloc_second : (filealloc files).0 ≡ some 1
unfolding filealloc alloc_from
alloc_second = refl

close_first :
    fileclose 0 files ≡ some (iput 5, record opened { type = fd_none; ref = 0 } ∷ free ∷ free ∷ [])
unfolding fileclose close_slot release_of
close_first = refl

dup_first : filedup 0 files ≡ some (record opened { ref = 2 } ∷ free ∷ free ∷ [])
unfolding filedup
dup_first = refl

dup_free : filedup 1 files ≡ none
unfolding filedup
dup_free = refl

fileclose_lem_example : Closed opened files 0 (fileclose 0 files)
fileclose_lem_example = fileclose_lem 0 files opened refl
