-- ===== src/Errs/Tests.antt =====
-- Runs of src/core/errs.c on small inputs.
use taos_connector_odbc.Prelude.{
  true, false, none, some, [], ◌∷◌, length, ◌≡◌, refl, ◌≤◌, ◌+◌, arith, inr,
}
use taos_connector_odbc.Prelude.Int.{pos}
use taos_connector_odbc.Odbc.{sql_success}
use taos_connector_odbc.Errs.{
  Errs, Site, Diag, errs_init, errs_append_x, append_all, errs_clr_x, errs_get_diag_rec_x,
  errs_get_diag_field_class_origin_x, class_origin, odbc_3_0, err_set_x, conn_data_source, diag_rec,
  returned,
}
use taos_connector_odbc.Errs.Records.{
  IsValid, nodes, appends, clears, calls, calls-IsValid, get_diag_rec-append_all,
}

abbrev here : Site
here = record { file = b'a' ∷ []; line = b'7' ∷ []; func = b'f' ∷ [] }

abbrev memory : Diag
memory = record {
  site = here;
  sql_state = b'H' ∷ b'Y' ∷ b'0' ∷ b'0' ∷ b'1' ∷ [];
  e = pos 0;
  estr = b'M' ∷ [];
}

abbrev lib_missing : Diag
lib_missing = record {
  site = here;
  sql_state = b'I' ∷ b'M' ∷ b'0' ∷ b'0' ∷ b'3' ∷ [];
  e = pos 3;
  estr = b'L' ∷ [];
}

abbrev handle : Errs
handle = errs_append_x [] [] true (errs_init none) memory

handle-IsValid : IsValid handle
unfolding errs_append_x errs_init
handle-IsValid = refl

-- One node is enough for clearing and appending again, also when memory has run out.
calls-IsValid_example :
    let s = calls [] [] handle (clears ∷ appends false lib_missing ∷ []) in
    IsValid s × (nodes handle ≤ nodes s) × (nodes s ≤ nodes handle + 1)
calls-IsValid_example =
    calls-IsValid [] [] handle (clears ∷ appends false lib_missing ∷ []) handle-IsValid

one_free : length (errs_clr_x handle).frees ≡ 1
unfolding errs_clr_x errs_append_x errs_init
one_free = refl

get_diag_rec-append_all_example :
    errs_get_diag_rec_x (append_all [] [] (errs_clr_x handle) ((false, lib_missing) ∷ [])) 1 16
    ≡ returned (some (err_set_x [] [] [] lib_missing)) (diag_rec 16)
unfolding errs_append_x errs_init conn_data_source
get_diag_rec-append_all_example =
    get_diag_rec-append_all [] [] handle ((false, lib_missing) ∷ []) 0 16
      (inr (omega (arith, one_free)))

-- A state that begins with IM has the class origin "ODBC 3.0".
im_state :
    errs_get_diag_field_class_origin_x (errs_append_x [] [] true (errs_init none) lib_missing) 1 32
    ≡ (sql_success, some (record { info = odbc_3_0; string_length = 8 }))
unfolding errs_get_diag_field_class_origin_x errs_append_x errs_init err_set_x class_origin
im_state = refl
