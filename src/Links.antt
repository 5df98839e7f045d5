-- ===== src/Links.antt =====
-- The intrusive lists of dlink.h: DLinkHead, the entries of one link field, and the macros on them. A
-- pointer is a number, 0 for nullptr; the entries' fields are functions of the element. `count` is an
-- unsigned of 32 bits.
pub mod Changes
pub mod Inserts
pub mod Removals
pub mod Joined
pub mod Runs
pub mod Rings
use k_edit.Prelude.{
  ℕ, ◌+◌, ◌-◌, ◌%◌, ◌^◌, ◌==◌, if◌then◌else◌, zero, suc, List, [], ◌∷◌, Option, none, some,
}

-- DLinkHead
pub record Head : Type 0 where
  pub first : ℕ
  pub last : ℕ
  pub count : ℕ

-- A head and the entries of all elements
pub record Links : Type 0 where
  pub first : ℕ
  pub last : ℕ
  pub count : ℕ
  pub next : ℕ → ℕ
  pub prev : ℕ → ℕ

abbrev pub write : (ℕ → ℕ) → ℕ → ℕ → ℕ → ℕ
write f p v q = if p == q then v else f q

-- The tests `if( p ) { p->dl_next = v; } else { Hd_.dl_first = v; }` and, for the other direction,
-- `if( p ) { p->dl_prev = v; } else { Hd_.dl_last = v; }`, field by field
abbrev pub link_next : ℕ → ℕ → Links → Links
link_next p v l = record l {
  first = if p == 0 then v else l.first;
  next = λ q. if p == 0 then l.next q else write l.next p v q;
}

abbrev pub link_prev : ℕ → ℕ → Links → Links
link_prev p v l = record l {
  last = if p == 0 then v else l.last;
  prev = λ q. if p == 0 then l.prev q else write l.prev p v q;
}

abbrev pub counted_up : Links → Links
counted_up l = record l { count = (l.count + 1) % 2 ^ 32 }

abbrev pub counted_down : Links → Links
counted_down l = record l { count = (l.count + 2 ^ 32 - 1) % 2 ^ 32 }

-- DLinkEntry::clear
abbrev pub clear_entry : ℕ → Links → Links
clear_entry e l = record l { next = write l.next e 0; prev = write l.prev e 0 }

-- DLINK_INSERT_FIRST
pub insert_first : ℕ → Links → Links
insert_first e l =
    let l1 = link_prev l.first e (record l { next = write l.next e l.first }) in
    counted_up (record l1 { first = e; prev = write l1.prev e 0 })

-- DLINK_INSERT_LAST
pub insert_last : ℕ → Links → Links
insert_last e l =
    let l1 = link_next l.last e (record l { prev = write l.prev e l.last }) in
    counted_up (record l1 { last = e; next = write l1.next e 0 })

-- DLINK_INSERT_AFTER of `e` behind `r`
pub insert_after : ℕ → ℕ → Links → Links
insert_after r e l =
    let n = l.next r in
    let l1 = link_prev n e (record l { next = write l.next e n }) in
    counted_up (record l1 { next = write l1.next r e; prev = write l1.prev e r })

-- DLINK_INSERT_BEFORE of `e` in front of `r`
pub insert_before : ℕ → ℕ → Links → Links
insert_before r e l =
    let p = l.prev r in
    let l1 = link_next p e (record l { prev = write l.prev e p }) in
    counted_up (record l1 { prev = write l1.prev r e; next = write l1.next e r })

-- DLINK_REMOVE
pub remove : ℕ → Links → Links
remove e l =
    let l1 = link_next (l.prev e) (l.next e) l in
    let l2 = link_prev (l1.next e) (l1.prev e) l1 in clear_entry e (counted_down l2)

-- The body of DLINK_REMOVE_FIRST where there is a first element
abbrev pub without_first : Links → Links
without_first l =
    let l1 = record l { first = l.next l.first } in
    clear_entry l.first (counted_down (link_prev l1.first 0 l1))

-- DLINK_REMOVE_FIRST, with the element removed, or 0
pub remove_first : Links → ℕ × Links
remove_first l = if l.first == 0 then (0, l) else (l.first, without_first l)

abbrev pub no_elements : Head
no_elements = record { first = 0; last = 0; count = 0 }

-- DLINK_JOIN of the list with the head `src`; `none` is the use of a null pointer.
pub join : Links → Head → Option (Links × Head)
join dest src =
    let count = (dest.count + src.count) % 2 ^ 32 in
    if dest.first == 0
    then some (record dest { first = src.first; last = src.last; count = count }, no_elements)
    else if dest.last == 0
    then none
    else if src.first == 0
    then none
    else some (
      record dest {
        last = src.last;
        count = count;
        next = write dest.next dest.last src.first;
        prev = write dest.prev src.first dest.last;
      },
      no_elements,
    )

-- DLINK_MOVE_HD of the list with the head `src`
pub move_hd : Links → Head → Links × Head
move_hd dest src =
    (record dest { first = src.first; last = src.last; count = src.count }, no_elements)

-- The elements that DLINKC_FIRST_TO_LAST visits, and DLINKC_LAST_TO_FIRST; `none` is the lack of fuel.
pub first_to_last : ℕ → ℕ → Links → Option (List ℕ)
first_to_last zero e l = none
first_to_last (suc k) e l =
    let rest : Option (List ℕ) = elim (first_to_last k (l.next e) l) [
      | none ↦ none
      | some es ↦ some (e ∷ es)
    ] in
    if e == 0 then some [] else rest

pub last_to_first : ℕ → ℕ → Links → Option (List ℕ)
last_to_first zero e l = none
last_to_first (suc k) e l =
    let rest : Option (List ℕ) = elim (last_to_first k (l.prev e) l) [
      | none ↦ none
      | some es ↦ some (e ∷ es)
    ] in
    if e == 0 then some [] else rest
