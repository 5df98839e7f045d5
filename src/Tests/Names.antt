-- ===== src/Tests/Names.antt =====
-- Names of files on concrete inputs (filename.cpp).
use k_edit.Prelude.{
  text_of, ◌++◌, List, drop, ◌∷◌, [], ◌≤◌, ℕ, true, false, some, none, ◌≡◌, ◌≢◌, ◌⊎◌, refl,
}
use k_edit.Paths.{
  ref_dirnm, ref_fname_ext, ref_fnm, ref_ext, is_dot_ch, ends_dir, union, common_prefix_len,
  is_absolute, is_dot_dot,
}
use k_edit.Paths.Parts.{Without, Closed, Headed, parts_lem}
use k_edit.Paths.Unions.{union-dot_name}
use k_edit.Paths.Prefixes.{IsDirPrefix, common_prefix_len-IsDirPrefix}

bak_union : union (text_of ".bak") (text_of "/a/foo.c") ≡ some (text_of "/a/.bak.c")
unfolding union
bak_union = refl

ext_union : union (text_of "new.h") (text_of "/a/foo.c") ≡ some (text_of "/a/new.h")
unfolding union
ext_union = refl

empty_union : union [] [] ≡ none
unfolding union
empty_union = refl

not_absolute : is_absolute (text_of "/a/b") ≡ false
unfolding is_absolute
not_absolute = refl

shared_dir : common_prefix_len (text_of "/a/bc/d") (text_of "/a/be") ≡ 3
unfolding common_prefix_len
shared_dir = refl

parent : is_dot_dot (text_of "a/../") ≡ true
unfolding is_dot_dot
parent = refl

abbrev name : List ℕ
name = text_of "/src/main.old.c"

parts_lem_example :
    (ref_dirnm name ++ (ref_fnm name ++ ref_ext name) ≡ name)
    × Closed ends_dir (ref_dirnm name)
    × Without ends_dir (ref_fnm name ++ ref_ext name)
    × Headed is_dot_ch (ref_ext name)
    × (ref_ext name ≡ [] → Without is_dot_ch (drop 1 (ref_fname_ext name)))
parts_lem_example = parts_lem name

union-dot_name_example :
    ((ref_ext name ≡ b'.' ∷ [])
      × (union (b'.' ∷ text_of "bak") name ≡ some (ref_dirnm name ++ b'.' ∷ text_of "bak")))
    ⊎ ((ref_ext name ≢ b'.' ∷ [])
        × (union (b'.' ∷ text_of "bak") name
            ≡ some (ref_dirnm name ++ ((b'.' ∷ text_of "bak") ++ ref_ext name))))
union-dot_name_example = union-dot_name b'b' (text_of "ak") (refl, (refl, (refl, tt))) name

common_prefix_len-IsDirPrefix_example :
    IsDirPrefix (common_prefix_len name (text_of "/src/mark.c")) name (text_of "/src/mark.c")
    × ((k : ℕ)
        → IsDirPrefix k name (text_of "/src/mark.c")
        → k ≤ common_prefix_len name (text_of "/src/mark.c"))
common_prefix_len-IsDirPrefix_example = common_prefix_len-IsDirPrefix name (text_of "/src/mark.c")
