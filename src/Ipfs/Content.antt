-- ===== src/Ipfs/Content.antt =====
-- What a download from IPFS delivers (src/IPFSCommon.cpp, `convertUnixFSContentToResult`).
use async_iomanager.Common.{
  Bool, true, false, List, [], ◌∷◌, Bytes, is_empty, map, length, if◌then◌else◌, ◌≡◌, refl, ap,
  arith,
}
use async_iomanager.Ipfs.{UnixFsContent, convert_files}

-- The files that names and contents at the same place make.
abbrev pub pair_up : List Bytes → List Bytes → List (Bytes × Bytes)
pair_up (n ∷ ns) (c ∷ cs) = (n, c) ∷ pair_up ns cs
pair_up ns cs = []

-- The name of a single file is that of the request where it has one.
abbrev pub renamed : Bytes → List (Bytes × Bytes) → List (Bytes × Bytes)
renamed name [] = []
renamed name (f ∷ fs) = ((if is_empty name then f.0 else name), f.1) ∷ []

pair_up-map :
    (fs : List (Bytes × Bytes))
    → pair_up (map (λ (f : Bytes × Bytes). f.0) fs) (map (λ (f : Bytes × Bytes). f.1) fs) ≡ fs
pair_up-map [] = refl
pair_up-map (f ∷ fs) = ap (λ gs. f ∷ gs) (pair_up-map fs)

length-maps :
    (fs : List (Bytes × Bytes))
    → length (map (λ (f : Bytes × Bytes). f.0) fs) ≡ length (map (λ (f : Bytes × Bytes). f.1) fs)
length-maps [] = refl
length-maps (f ∷ fs) = omega (arith, length-maps fs)

by_files :
    (single : Bool) (fs : List (Bytes × Bytes)) (name : Bytes)
    → let f = convert_files (record { single_file = single; files = fs }) name in
      (length f.paths ≡ length f.contents)
      × (pair_up f.paths f.contents ≡ (if single then renamed name fs else fs))
unfolding convert_files
by_files true [] name = (refl, refl)
by_files true (f ∷ fs) name = (refl, refl)
by_files false fs name = (length-maps fs, pair_up-map fs)

-- The names and the contents are as many, and together they are the files that Bitswap gave: all of
-- a directory, and the first of a single file, which takes the name of the request if that has one.
pub convert_files-pair_up :
    (content : UnixFsContent) (name : Bytes)
    → let f = convert_files content name in
      (length f.paths ≡ length f.contents)
      × (pair_up f.paths f.contents
          ≡ (if content.single_file then renamed name content.files else content.files))
convert_files-pair_up content name = by_files content.single_file content.files name
