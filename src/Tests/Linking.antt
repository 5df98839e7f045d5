-- ===== src/Tests/Linking.antt =====
-- The macros of dlink.h on concrete lists.
use k_edit.Prelude.{◌==◌, if◌then◌else◌, List, [], ◌∷◌, some, ◌≡◌, refl}
use k_edit.Links.{Head, Links, first_to_last, last_to_first}
use k_edit.Links.Changes.{IsList}
use k_edit.Links.Joined.{Joins, join-Joins}
use k_edit.Links.Runs.{
  Op, push_first, push_last, take_out, put_after, put_before, take_first, run, run_visits,
}

abbrev no_links : Links
no_links = record { first = 0; last = 0; count = 0; next = λ _. 0; prev = λ _. 0 }

no_links-IsList : IsList no_links []
no_links-IsList = record { ring = (refl, refl); distinct = (refl, tt); counted = refl }

abbrev ops : List Op
ops =
    push_first 5
    ∷ push_last 7
    ∷ put_after 5 6
    ∷ put_before 5 4
    ∷ push_last 9
    ∷ take_out 6
    ∷ take_first
    ∷ []

run_visits_example :
    IsList (run ops no_links) (5 ∷ 7 ∷ 9 ∷ [])
    × (first_to_last 4 (run ops no_links).first (run ops no_links) ≡ some (5 ∷ 7 ∷ 9 ∷ []))
    × (last_to_first 4 (run ops no_links).last (run ops no_links) ≡ some (9 ∷ 7 ∷ 5 ∷ []))
    × ((run ops no_links).count ≡ 3)
run_visits_example = run_visits ops no_links [] (5 ∷ 7 ∷ 9 ∷ []) no_links-IsList refl

-- 1, 2 from one head and 3 from another
abbrev two_linked : Links
two_linked = record {
  first = 1;
  last = 2;
  count = 2;
  next = λ q. if q == 1 then 2 else 0;
  prev = λ q. if q == 2 then 1 else 0;
}

abbrev third : Head
third = record { first = 3; last = 3; count = 1 }

join-Joins_example : Joins two_linked third (1 ∷ 2 ∷ []) (3 ∷ [])
join-Joins_example =
    join-Joins two_linked third (1 ∷ 2 ∷ []) (3 ∷ [])
      (record {
        ring = (refl, refl, (refl, refl, (refl, refl)));
        distinct = (refl, (refl, (refl, tt)));
        counted = refl;
      })
      (record { ring = (refl, refl, (refl, refl)); distinct = (refl, (refl, tt)); counted = refl })
      (refl, (refl, (refl, (refl, tt))))
