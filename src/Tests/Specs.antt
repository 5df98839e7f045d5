-- ===== src/Tests/Specs.antt =====
-- The expansion of file specifications at concrete texts.
use k_edit.Prelude.{
  ℕ, ◌+◌, ◌==◌, if◌then◌else◌, Bool, List, [], ◌∷◌, length, take, Option, none, some, ◌≡◌, ◌≢◌,
  refl, arith, text_of,
}
use k_edit.Tabs.{Text}
use k_edit.Strings.{eqi}
use k_edit.Cfx.{EnvRefs, mid_list, leading_list, parse_err, Ssg, cfx_to_ssg}
use k_edit.Strings.Searches.{fields}
use k_edit.Cfx.Entries.{chop_ascizz_on_delim, parts, chop_ascizz_on_delim-fields}
use k_edit.Cfx.Combinations.{strings}
use k_edit.Cfx.Spelled.{Ref, colon, percent, spelled, combinations}
use k_edit.Cfx.Values.{cfx_to_ssg-combinations}
use k_edit.Cfx.Names.{
  new_gen, get_next_name, names, names_of_entries, in_turn, names-names_of_entries,
}

-- An environment with one list, and directories with a file each
abbrev environment : Text → Option Text
environment name = if eqi name (text_of "inc") then some (text_of "a;b") else none

abbrev directory : Text → List Text
directory spec =
    if eqi spec (text_of "a/x")
    then text_of "a/x" ∷ []
    else if eqi spec (text_of "b/x")
    then text_of "b/x" ∷ []
    else []

abbrev spec : Text
spec = text_of "$inc:/x"

abbrev specs : List Text
specs = text_of "x" ∷ spec ∷ []

-- The names, false, and the names again
both_files :
    names b';' 200 environment directory specs 20 4 new_gen
    ≡ some (some (text_of "a/x") ∷ some (text_of "b/x") ∷ none ∷ some (text_of "a/x") ∷ [])
unfolding names get_next_name cfx_to_ssg k_edit.Cfx.get_next_string
both_files = refl

-- A text with two references, `$inc:/%inc%x`
abbrev two_lists : List Ref
two_lists =
    record {
      before = [];
      form = colon;
      name = text_of "inc";
      values = text_of "a" ∷ text_of "b" ∷ [];
    }
    ∷ record {
      before = text_of "/";
      form = percent;
      name = text_of "inc";
      values = text_of "a" ∷ text_of "b" ∷ [];
    }
    ∷ []

cfx_to_ssg-combinations_example :
    (r : EnvRefs × Ssg) × (cfx_to_ssg b';' 200 environment (spelled two_lists (text_of "x"))
      ≡ some r)
    × (r.0 ≢ parse_err)
    × ((strings 5 r.1).0 ≡ take 5 (combinations two_lists (text_of "x")))
cfx_to_ssg-combinations_example =
    cfx_to_ssg-combinations b';' 200 environment two_lists (text_of "x") 5
      (
        (
          tt,
          (refl, refl, (refl, (refl, (refl, tt)))),
          omega arith,
          refl,
          ((refl, tt), ((refl, tt), tt)),
          omega arith,
        ),
        (
          (
            (refl, tt),
            (refl, refl, (refl, (refl, (refl, tt)))),
            omega arith,
            refl,
            ((refl, tt), ((refl, tt), tt)),
            omega arith,
          ),
          tt,
        ),
      )
      (refl, tt)

-- What this text stands for
both_lists :
    combinations two_lists (text_of "x")
    ≡ text_of "a/ax" ∷ text_of "a/bx" ∷ text_of "b/ax" ∷ text_of "b/bx" ∷ []
both_lists = refl

names-names_of_entries_example :
    names b';' 200 environment directory specs 20 4 new_gen
    ≡ some (
        in_turn b';' 200 environment directory specs 4
          (names_of_entries b';' 200 environment directory specs specs))
unfolding cfx_to_ssg
names-names_of_entries_example =
    names-names_of_entries b';' 200 environment directory specs 4 20 (omega arith)

abbrev is_separator : ℕ → Bool
is_separator c = c == b';'

chop_ascizz_on_delim-fields_example :
    (out : Text) × (chop_ascizz_on_delim is_separator (text_of ";;a;bc;") ≡ some out)
    × (parts (length (text_of ";;a;bc;") + 1) out ≡ some (fields is_separator (text_of ";;a;bc;")))
chop_ascizz_on_delim-fields_example =
    chop_ascizz_on_delim-fields is_separator refl (text_of ";;a;bc;")
      (refl, (refl, (refl, (refl, (refl, (refl, (refl, tt)))))))
