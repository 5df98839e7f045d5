-- ===== src/Kitty/Codes/Ctrl.antt =====
-- Codes of the enumeration EdKeyCodes (ed_edkc.h), compiled without fn_argselkeymap: keys with ctrl, and with ctrl and shift or alt.
use k_edit.Prelude.{ℕ}

abbrev pub edkc_c_0 : ℕ
edkc_c_0 = 388

abbrev pub edkc_c_4 : ℕ
edkc_c_4 = 392

abbrev pub edkc_c_a : ℕ
edkc_c_a = 398

abbrev pub edkc_c_f1 : ℕ
edkc_c_f1 = 424

abbrev pub edkc_c_minus : ℕ
edkc_c_minus = 437

abbrev pub edkc_c_equal : ℕ
edkc_c_equal = 438

abbrev pub edkc_c_left_sq : ℕ
edkc_c_left_sq = 439

abbrev pub edkc_c_right_sq : ℕ
edkc_c_right_sq = 440

abbrev pub edkc_c_backslash : ℕ
edkc_c_backslash = 441

abbrev pub edkc_c_semicolon : ℕ
edkc_c_semicolon = 442

abbrev pub edkc_c_dot : ℕ
edkc_c_dot = 445

abbrev pub edkc_c_slash : ℕ
edkc_c_slash = 446

abbrev pub edkc_c_home : ℕ
edkc_c_home = 447

abbrev pub edkc_c_end : ℕ
edkc_c_end = 448

abbrev pub edkc_c_left : ℕ
edkc_c_left = 449

abbrev pub edkc_c_right : ℕ
edkc_c_right = 450

abbrev pub edkc_c_up : ℕ
edkc_c_up = 451

abbrev pub edkc_c_down : ℕ
edkc_c_down = 452

abbrev pub edkc_c_pgup : ℕ
edkc_c_pgup = 453

abbrev pub edkc_c_pgdn : ℕ
edkc_c_pgdn = 454

abbrev pub edkc_c_ins : ℕ
edkc_c_ins = 455

abbrev pub edkc_c_del : ℕ
edkc_c_del = 456

abbrev pub edkc_c_center : ℕ
edkc_c_center = 457

abbrev pub edkc_c_num0 : ℕ
edkc_c_num0 = 458

abbrev pub edkc_c_numminus : ℕ
edkc_c_numminus = 468

abbrev pub edkc_c_numplus : ℕ
edkc_c_numplus = 469

abbrev pub edkc_c_numstar : ℕ
edkc_c_numstar = 470

abbrev pub edkc_c_numslash : ℕ
edkc_c_numslash = 471

abbrev pub edkc_c_numenter : ℕ
edkc_c_numenter = 472

abbrev pub edkc_c_space : ℕ
edkc_c_space = 473

abbrev pub edkc_c_bksp : ℕ
edkc_c_bksp = 474

abbrev pub edkc_c_tab : ℕ
edkc_c_tab = 475

abbrev pub edkc_c_esc : ℕ
edkc_c_esc = 476

abbrev pub edkc_c_enter : ℕ
edkc_c_enter = 477

abbrev pub edkc_ca_f1 : ℕ
edkc_ca_f1 = 521

abbrev pub edkc_cs_bksp : ℕ
edkc_cs_bksp = 533

abbrev pub edkc_cs_tab : ℕ
edkc_cs_tab = 534

abbrev pub edkc_cs_center : ℕ
edkc_cs_center = 535

abbrev pub edkc_cs_enter : ℕ
edkc_cs_enter = 536

abbrev pub edkc_cs_space : ℕ
edkc_cs_space = 538

abbrev pub edkc_cs_pgup : ℕ
edkc_cs_pgup = 539

abbrev pub edkc_cs_pgdn : ℕ
edkc_cs_pgdn = 540

abbrev pub edkc_cs_end : ℕ
edkc_cs_end = 541

abbrev pub edkc_cs_home : ℕ
edkc_cs_home = 542

abbrev pub edkc_cs_left : ℕ
edkc_cs_left = 543

abbrev pub edkc_cs_up : ℕ
edkc_cs_up = 544

abbrev pub edkc_cs_right : ℕ
edkc_cs_right = 545

abbrev pub edkc_cs_down : ℕ
edkc_cs_down = 546

abbrev pub edkc_cs_ins : ℕ
edkc_cs_ins = 547

abbrev pub edkc_cs_del : ℕ
edkc_cs_del = 548

abbrev pub edkc_cs_0 : ℕ
edkc_cs_0 = 549

abbrev pub edkc_cs_a : ℕ
edkc_cs_a = 559

abbrev pub edkc_cs_numstar : ℕ
edkc_cs_numstar = 585

abbrev pub edkc_cs_numplus : ℕ
edkc_cs_numplus = 586

abbrev pub edkc_cs_numenter : ℕ
edkc_cs_numenter = 587

abbrev pub edkc_cs_numminus : ℕ
edkc_cs_numminus = 588

abbrev pub edkc_cs_numslash : ℕ
edkc_cs_numslash = 589

abbrev pub edkc_cs_f1 : ℕ
edkc_cs_f1 = 590

abbrev pub edkc_cs_semicolon : ℕ
edkc_cs_semicolon = 603

abbrev pub edkc_cs_equal : ℕ
edkc_cs_equal = 604

abbrev pub edkc_cs_comma : ℕ
edkc_cs_comma = 605

abbrev pub edkc_cs_minus : ℕ
edkc_cs_minus = 606

abbrev pub edkc_cs_dot : ℕ
edkc_cs_dot = 607

abbrev pub edkc_cs_slash : ℕ
edkc_cs_slash = 608

abbrev pub edkc_cs_backtick : ℕ
edkc_cs_backtick = 609

abbrev pub edkc_cs_tick : ℕ
edkc_cs_tick = 610

abbrev pub edkc_cs_left_sq : ℕ
edkc_cs_left_sq = 611

abbrev pub edkc_cs_backslash : ℕ
edkc_cs_backslash = 612

abbrev pub edkc_cs_right_sq : ℕ
edkc_cs_right_sq = 613

abbrev pub edkc_cs_num0 : ℕ
edkc_cs_num0 = 614
