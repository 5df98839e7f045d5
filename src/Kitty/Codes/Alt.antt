-- ===== src/Kitty/Codes/Alt.antt =====
-- Codes of the enumeration EdKeyCodes (ed_edkc.h), compiled without fn_argselkeymap: keys with alt.
use k_edit.Prelude.{ℕ}

abbrev pub edkc_a_0 : ℕ
edkc_a_0 = 298

abbrev pub edkc_a_a : ℕ
edkc_a_a = 308

abbrev pub edkc_a_f1 : ℕ
edkc_a_f1 = 334

abbrev pub edkc_a_backtick : ℕ
edkc_a_backtick = 346

abbrev pub edkc_a_minus : ℕ
edkc_a_minus = 347

abbrev pub edkc_a_equal : ℕ
edkc_a_equal = 348

abbrev pub edkc_a_left_sq : ℕ
edkc_a_left_sq = 349

abbrev pub edkc_a_right_sq : ℕ
edkc_a_right_sq = 350

abbrev pub edkc_a_backslash : ℕ
edkc_a_backslash = 351

abbrev pub edkc_a_semicolon : ℕ
edkc_a_semicolon = 352

abbrev pub edkc_a_tick : ℕ
edkc_a_tick = 353

abbrev pub edkc_a_comma : ℕ
edkc_a_comma = 354

abbrev pub edkc_a_dot : ℕ
edkc_a_dot = 355

abbrev pub edkc_a_slash : ℕ
edkc_a_slash = 356

abbrev pub edkc_a_home : ℕ
edkc_a_home = 357

abbrev pub edkc_a_end : ℕ
edkc_a_end = 358

abbrev pub edkc_a_left : ℕ
edkc_a_left = 359

abbrev pub edkc_a_right : ℕ
edkc_a_right = 360

abbrev pub edkc_a_up : ℕ
edkc_a_up = 361

abbrev pub edkc_a_down : ℕ
edkc_a_down = 362

abbrev pub edkc_a_pgup : ℕ
edkc_a_pgup = 363

abbrev pub edkc_a_pgdn : ℕ
edkc_a_pgdn = 364

abbrev pub edkc_a_ins : ℕ
edkc_a_ins = 365

abbrev pub edkc_a_del : ℕ
edkc_a_del = 366

abbrev pub edkc_a_center : ℕ
edkc_a_center = 367

abbrev pub edkc_a_num0 : ℕ
edkc_a_num0 = 368

abbrev pub edkc_a_numminus : ℕ
edkc_a_numminus = 378

abbrev pub edkc_a_numplus : ℕ
edkc_a_numplus = 379

abbrev pub edkc_a_numstar : ℕ
edkc_a_numstar = 380

abbrev pub edkc_a_numslash : ℕ
edkc_a_numslash = 381

abbrev pub edkc_a_numenter : ℕ
edkc_a_numenter = 382

abbrev pub edkc_a_space : ℕ
edkc_a_space = 383

abbrev pub edkc_a_bksp : ℕ
edkc_a_bksp = 384

abbrev pub edkc_a_tab : ℕ
edkc_a_tab = 385

abbrev pub edkc_a_esc : ℕ
edkc_a_esc = 386

abbrev pub edkc_a_enter : ℕ
edkc_a_enter = 387
