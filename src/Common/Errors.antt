-- ===== src/Common/Errors.antt =====
-- libs/error.h: `-E_BAD_PROC` and so on, as the functions return them.
use a_smart_mlfq_project_bas.Common.Int.{ℤ, negsuc}

abbrev pub e_bad_proc : ℤ
e_bad_proc = negsuc 1

abbrev pub e_inval : ℤ
e_inval = negsuc 2

abbrev pub e_no_mem : ℤ
e_no_mem = negsuc 3

abbrev pub e_no_free_proc : ℤ
e_no_free_proc = negsuc 4

abbrev pub e_killed : ℤ
e_killed = negsuc 8
