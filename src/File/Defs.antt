-- ===== src/File/Defs.antt =====
-- kernel/file.c: filealloc, filedup and fileclose, each under the lock of the table. `none` is a panic.
use lab_so.Prelude.{
  ℕ, ◌+◌, ◌-◌, Bool, Option, none, some, List, [], ◌∷◌, ◌==◌, if◌then◌else◌, ltb, get_elem?, set,
}

pub data FileType : Type 0 where
  fd_none fd_pipe fd_inode fd_device : FileType

-- The fields of `struct file` that these functions use; `pipe` and `ip` name what they point to.
pub record File : Type 0 where
  pub type : FileType
  pub ref : ℕ
  pub writable : Bool
  pub pipe : ℕ
  pub ip : ℕ

-- The loop of filealloc from slot `i` on: the slot, and the table.
unfoldable pub alloc_from : ℕ → List File → Option ℕ × List File
alloc_from i [] = (none, [])
alloc_from i (f ∷ fs) =
    let (r, fs') = alloc_from (i + 1) fs in
    if f.ref == 0 then (some i, record f { ref = 1 } ∷ fs) else (r, f ∷ fs')

unfoldable pub filealloc : List File → Option ℕ × List File
filealloc fs = alloc_from 0 fs

unfoldable pub filedup : ℕ → List File → Option (List File)
filedup i fs = elim (get_elem? fs i) [
  | none ↦ none
  | some f ↦ if ltb f.ref 1 then none else some (set fs i (record f { ref = f.ref + 1 }))
]

-- What fileclose calls after it has let go of the table.
pub data Release : Type 0 where
  nothing : Release
  pipeclose : ℕ → Bool → Release
  iput : ℕ → Release

unfoldable pub release_of : File → Release
release_of f = elim f.type [
  | fd_none ↦ nothing
  | fd_pipe ↦ pipeclose f.pipe f.writable
  | fd_inode ↦ iput f.ip
  | fd_device ↦ iput f.ip
]

-- fileclose of the file `f`, which stands in slot `i`.
unfoldable pub close_slot : ℕ → File → List File → Option (Release × List File)
unfolding release_of
close_slot i f fs =
    if ltb f.ref 1
    then none
    else if ltb 0 (f.ref - 1)
    then some (nothing, set fs i (record f { ref = f.ref - 1 }))
    else some (release_of f, set fs i (record f { ref = 0; type = fd_none }))

unfoldable pub fileclose : ℕ → List File → Option (Release × List File)
fileclose i fs = elim (get_elem? fs i) [ none ↦ none | some f ↦ close_slot i f fs ]
