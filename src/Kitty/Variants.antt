-- ===== src/Kitty/Variants.antt =====
-- KittyVariants and the tables of codes of a key with modifiers (kitty_conin.cpp).
use k_edit.Prelude.{
  ℕ, ◌+◌, ◌-◌, ◌/◌, ◌%◌, ◌==◌, ◌&&◌, if◌then◌else◌, Bool, List, [], ◌∷◌, Option, none, some,
}
use k_edit.Kitty.Codes.{
  edkc_a_bksp, edkc_a_center, edkc_a_del, edkc_a_down, edkc_a_end, edkc_a_enter, edkc_a_esc,
  edkc_a_f1, edkc_a_home, edkc_a_ins, edkc_a_left, edkc_a_num0, edkc_a_numenter, edkc_a_numminus,
  edkc_a_numplus, edkc_a_numslash, edkc_a_numstar, edkc_a_pgdn, edkc_a_pgup, edkc_a_right,
  edkc_a_space, edkc_a_tab, edkc_a_up, edkc_bksp, edkc_c_bksp, edkc_c_center, edkc_c_del,
  edkc_c_down, edkc_c_end, edkc_c_enter, edkc_c_esc, edkc_c_f1, edkc_c_home, edkc_c_ins,
  edkc_c_left, edkc_c_num0, edkc_c_numenter, edkc_c_numminus, edkc_c_numplus, edkc_c_numslash,
  edkc_c_numstar, edkc_c_pgdn, edkc_c_pgup, edkc_c_right, edkc_c_space, edkc_c_tab, edkc_c_up,
  edkc_ca_f1, edkc_center, edkc_cs_bksp, edkc_cs_center, edkc_cs_del, edkc_cs_down, edkc_cs_end,
  edkc_cs_enter, edkc_cs_f1, edkc_cs_home, edkc_cs_ins, edkc_cs_left, edkc_cs_num0,
  edkc_cs_numenter, edkc_cs_numminus, edkc_cs_numplus, edkc_cs_numslash, edkc_cs_numstar,
  edkc_cs_pgdn, edkc_cs_pgup, edkc_cs_right, edkc_cs_space, edkc_cs_tab, edkc_cs_up, edkc_del,
  edkc_down, edkc_end, edkc_enter, edkc_esc, edkc_f1, edkc_home, edkc_ins, edkc_left, edkc_num0,
  edkc_numenter, edkc_numminus, edkc_numplus, edkc_numslash, edkc_numstar, edkc_pgdn, edkc_pgup,
  edkc_right, edkc_s_bksp, edkc_s_center, edkc_s_del, edkc_s_down, edkc_s_end, edkc_s_enter,
  edkc_s_esc, edkc_s_f1, edkc_s_home, edkc_s_ins, edkc_s_left, edkc_s_num0, edkc_s_numenter,
  edkc_s_numminus, edkc_s_numplus, edkc_s_numslash, edkc_s_numstar, edkc_s_pgdn, edkc_s_pgup,
  edkc_s_right, edkc_s_tab, edkc_s_up, edkc_tab, edkc_up,
}
use k_edit.Tabs.{space}

-- KittyVariants; 0 stands for no code.
pub record KittyVariants : Type 0 where
  pub base : ℕ
  pub shift : ℕ
  pub alt : ℕ
  pub ctrl : ℕ
  pub ctrl_shift : ℕ
  pub ctrl_alt : ℕ

abbrev pub has_shift : ℕ → Bool
has_shift modbits = modbits % 2 == 1

abbrev pub has_alt : ℕ → Bool
has_alt modbits = modbits / 2 % 2 == 1

abbrev pub has_ctrl : ℕ → Bool
has_ctrl modbits = modbits / 4 % 2 == 1

-- The code of the first field that is one, if any
abbrev pub first_code : List ℕ → Option ℕ
first_code [] = none
first_code (c ∷ cs) = if c == 0 then first_code cs else some c

abbrev pub or_code : Bool → List ℕ → ℕ → ℕ
or_code test cs otherwise =
    if test then elim (first_code cs) [ none ↦ otherwise | some c ↦ c ] else otherwise

-- Each line is one `if` of the source with the fields that it tries.
unfoldable pub apply_variants : KittyVariants → ℕ → ℕ
apply_variants v modbits =
    let shift = has_shift modbits in
    let alt = has_alt modbits in
    let ctrl = has_ctrl modbits in
    or_code (ctrl && alt) (v.ctrl_alt ∷ v.ctrl ∷ v.alt ∷ []) (
      or_code (ctrl && shift) (v.ctrl_shift ∷ v.ctrl ∷ []) (
        or_code ctrl (v.ctrl ∷ []) (
          or_code (alt && shift) (v.alt ∷ v.shift ∷ [])
            (or_code alt (v.alt ∷ []) (or_code shift (v.shift ∷ []) v.base)))))

abbrev pub tab_variants : KittyVariants
tab_variants = record {
  base = edkc_tab;
  shift = edkc_s_tab;
  alt = edkc_a_tab;
  ctrl = edkc_c_tab;
  ctrl_shift = edkc_cs_tab;
  ctrl_alt = 0;
}

abbrev pub enter_variants : KittyVariants
enter_variants = record {
  base = edkc_enter;
  shift = edkc_s_enter;
  alt = edkc_a_enter;
  ctrl = edkc_c_enter;
  ctrl_shift = edkc_cs_enter;
  ctrl_alt = 0;
}

abbrev pub bksp_variants : KittyVariants
bksp_variants = record {
  base = edkc_bksp;
  shift = edkc_s_bksp;
  alt = edkc_a_bksp;
  ctrl = edkc_c_bksp;
  ctrl_shift = edkc_cs_bksp;
  ctrl_alt = 0;
}

abbrev pub esc_variants : KittyVariants
esc_variants = record {
  base = edkc_esc;
  shift = edkc_s_esc;
  alt = edkc_a_esc;
  ctrl = edkc_c_esc;
  ctrl_shift = 0;
  ctrl_alt = 0;
}

abbrev pub space_variants : KittyVariants
space_variants = record {
  base = space;
  shift = space;
  alt = edkc_a_space;
  ctrl = edkc_c_space;
  ctrl_shift = edkc_cs_space;
  ctrl_alt = 0;
}

abbrev pub insert_variants : KittyVariants
insert_variants = record {
  base = edkc_ins;
  shift = edkc_s_ins;
  alt = edkc_a_ins;
  ctrl = edkc_c_ins;
  ctrl_shift = edkc_cs_ins;
  ctrl_alt = 0;
}

abbrev pub delete_variants : KittyVariants
delete_variants = record {
  base = edkc_del;
  shift = edkc_s_del;
  alt = edkc_a_del;
  ctrl = edkc_c_del;
  ctrl_shift = edkc_cs_del;
  ctrl_alt = 0;
}

abbrev pub home_variants : KittyVariants
home_variants = record {
  base = edkc_home;
  shift = edkc_s_home;
  alt = edkc_a_home;
  ctrl = edkc_c_home;
  ctrl_shift = edkc_cs_home;
  ctrl_alt = 0;
}

abbrev pub end_variants : KittyVariants
end_variants = record {
  base = edkc_end;
  shift = edkc_s_end;
  alt = edkc_a_end;
  ctrl = edkc_c_end;
  ctrl_shift = edkc_cs_end;
  ctrl_alt = 0;
}

abbrev pub pgup_variants : KittyVariants
pgup_variants = record {
  base = edkc_pgup;
  shift = edkc_s_pgup;
  alt = edkc_a_pgup;
  ctrl = edkc_c_pgup;
  ctrl_shift = edkc_cs_pgup;
  ctrl_alt = 0;
}

abbrev pub pgdn_variants : KittyVariants
pgdn_variants = record {
  base = edkc_pgdn;
  shift = edkc_s_pgdn;
  alt = edkc_a_pgdn;
  ctrl = edkc_c_pgdn;
  ctrl_shift = edkc_cs_pgdn;
  ctrl_alt = 0;
}

abbrev pub center_variants : KittyVariants
center_variants = record {
  base = edkc_center;
  shift = edkc_s_center;
  alt = edkc_a_center;
  ctrl = edkc_c_center;
  ctrl_shift = edkc_cs_center;
  ctrl_alt = 0;
}

abbrev pub arrow_left_variants : KittyVariants
arrow_left_variants = record {
  base = edkc_left;
  shift = edkc_s_left;
  alt = edkc_a_left;
  ctrl = edkc_c_left;
  ctrl_shift = edkc_cs_left;
  ctrl_alt = 0;
}

abbrev pub arrow_right_variants : KittyVariants
arrow_right_variants = record {
  base = edkc_right;
  shift = edkc_s_right;
  alt = edkc_a_right;
  ctrl = edkc_c_right;
  ctrl_shift = edkc_cs_right;
  ctrl_alt = 0;
}

abbrev pub arrow_up_variants : KittyVariants
arrow_up_variants = record {
  base = edkc_up;
  shift = edkc_s_up;
  alt = edkc_a_up;
  ctrl = edkc_c_up;
  ctrl_shift = edkc_cs_up;
  ctrl_alt = 0;
}

abbrev pub arrow_down_variants : KittyVariants
arrow_down_variants = record {
  base = edkc_down;
  shift = edkc_s_down;
  alt = edkc_a_down;
  ctrl = edkc_c_down;
  ctrl_shift = edkc_cs_down;
  ctrl_alt = 0;
}

abbrev pub kp_enter_variants : KittyVariants
kp_enter_variants = record {
  base = edkc_numenter;
  shift = edkc_s_numenter;
  alt = edkc_a_numenter;
  ctrl = edkc_c_numenter;
  ctrl_shift = edkc_cs_numenter;
  ctrl_alt = 0;
}

abbrev pub kp_minus_variants : KittyVariants
kp_minus_variants = record {
  base = edkc_numminus;
  shift = edkc_s_numminus;
  alt = edkc_a_numminus;
  ctrl = edkc_c_numminus;
  ctrl_shift = edkc_cs_numminus;
  ctrl_alt = 0;
}

abbrev pub kp_plus_variants : KittyVariants
kp_plus_variants = record {
  base = edkc_numplus;
  shift = edkc_s_numplus;
  alt = edkc_a_numplus;
  ctrl = edkc_c_numplus;
  ctrl_shift = edkc_cs_numplus;
  ctrl_alt = 0;
}

abbrev pub kp_star_variants : KittyVariants
kp_star_variants = record {
  base = edkc_numstar;
  shift = edkc_s_numstar;
  alt = edkc_a_numstar;
  ctrl = edkc_c_numstar;
  ctrl_shift = edkc_cs_numstar;
  ctrl_alt = 0;
}

abbrev pub kp_slash_variants : KittyVariants
kp_slash_variants = record {
  base = edkc_numslash;
  shift = edkc_s_numslash;
  alt = edkc_a_numslash;
  ctrl = edkc_c_numslash;
  ctrl_shift = edkc_cs_numslash;
  ctrl_alt = 0;
}

abbrev pub num_variants : ℕ → KittyVariants
num_variants digit = record {
  base = edkc_num0 + digit;
  shift = edkc_s_num0 + digit;
  alt = edkc_a_num0 + digit;
  ctrl = edkc_c_num0 + digit;
  ctrl_shift = edkc_cs_num0 + digit;
  ctrl_alt = 0;
}

abbrev pub fkey_variants : ℕ → KittyVariants
fkey_variants index = record {
  base = edkc_f1 + index - 1;
  shift = edkc_s_f1 + index - 1;
  alt = edkc_a_f1 + index - 1;
  ctrl = edkc_c_f1 + index - 1;
  ctrl_shift = edkc_cs_f1 + index - 1;
  ctrl_alt = edkc_ca_f1 + index - 1;
}
