-- ===== src/Kitty/Codes/Plain.antt =====
-- Codes of the enumeration EdKeyCodes (ed_edkc.h), compiled without fn_argselkeymap: keys alone or with shift, and the number of codes.
use k_edit.Prelude.{ℕ}

abbrev pub edkc_f1 : ℕ
edkc_f1 = 256

abbrev pub edkc_home : ℕ
edkc_home = 268

abbrev pub edkc_end : ℕ
edkc_end = 269

abbrev pub edkc_left : ℕ
edkc_left = 270

abbrev pub edkc_right : ℕ
edkc_right = 271

abbrev pub edkc_up : ℕ
edkc_up = 272

abbrev pub edkc_down : ℕ
edkc_down = 273

abbrev pub edkc_pgup : ℕ
edkc_pgup = 274

abbrev pub edkc_pgdn : ℕ
edkc_pgdn = 275

abbrev pub edkc_ins : ℕ
edkc_ins = 276

abbrev pub edkc_del : ℕ
edkc_del = 277

abbrev pub edkc_center : ℕ
edkc_center = 278

abbrev pub edkc_num0 : ℕ
edkc_num0 = 279

abbrev pub edkc_numminus : ℕ
edkc_numminus = 289

abbrev pub edkc_numplus : ℕ
edkc_numplus = 290

abbrev pub edkc_numstar : ℕ
edkc_numstar = 291

abbrev pub edkc_numslash : ℕ
edkc_numslash = 292

abbrev pub edkc_numenter : ℕ
edkc_numenter = 293

abbrev pub edkc_bksp : ℕ
edkc_bksp = 294

abbrev pub edkc_tab : ℕ
edkc_tab = 295

abbrev pub edkc_esc : ℕ
edkc_esc = 296

abbrev pub edkc_enter : ℕ
edkc_enter = 297

abbrev pub edkc_s_f1 : ℕ
edkc_s_f1 = 478

abbrev pub edkc_s_home : ℕ
edkc_s_home = 490

abbrev pub edkc_s_end : ℕ
edkc_s_end = 491

abbrev pub edkc_s_left : ℕ
edkc_s_left = 492

abbrev pub edkc_s_right : ℕ
edkc_s_right = 493

abbrev pub edkc_s_up : ℕ
edkc_s_up = 494

abbrev pub edkc_s_down : ℕ
edkc_s_down = 495

abbrev pub edkc_s_pgup : ℕ
edkc_s_pgup = 496

abbrev pub edkc_s_pgdn : ℕ
edkc_s_pgdn = 497

abbrev pub edkc_s_ins : ℕ
edkc_s_ins = 498

abbrev pub edkc_s_del : ℕ
edkc_s_del = 499

abbrev pub edkc_s_center : ℕ
edkc_s_center = 500

abbrev pub edkc_s_num0 : ℕ
edkc_s_num0 = 501

abbrev pub edkc_s_numminus : ℕ
edkc_s_numminus = 511

abbrev pub edkc_s_numplus : ℕ
edkc_s_numplus = 512

abbrev pub edkc_s_numstar : ℕ
edkc_s_numstar = 513

abbrev pub edkc_s_numslash : ℕ
edkc_s_numslash = 514

abbrev pub edkc_s_numenter : ℕ
edkc_s_numenter = 515

abbrev pub edkc_s_space : ℕ
edkc_s_space = 516

abbrev pub edkc_s_bksp : ℕ
edkc_s_bksp = 517

abbrev pub edkc_s_tab : ℕ
edkc_s_tab = 518

abbrev pub edkc_s_esc : ℕ
edkc_s_esc = 519

abbrev pub edkc_s_enter : ℕ
edkc_s_enter = 520

abbrev pub edkc_count : ℕ
edkc_count = 631
