-- ===== src/HashTable/Tests.antt =====
-- Runs of the hash table of src/utils/utils.c.
use taos_connector_odbc.Prelude.{true, some, [], ◌∷◌, ◌≡◌, refl}
use taos_connector_odbc.Odbc.{Text}
use taos_connector_odbc.HashTable.{hash_table_new, hash_table_set, hash_table_get}
use taos_connector_odbc.HashTable.Lookup.{expected, get-set, new-IsValid}

abbrev key : Text
key = b'k' ∷ []

get-set_example :
    hash_table_get (hash_table_set true (hash_table_new true) key 7).0 key
    ≡ expected (hash_table_set true (hash_table_new true) key 7).1 (hash_table_new true) key 7 key
get-set_example = get-set true (hash_table_new true) key 7 key (new-IsValid true)

key_found : hash_table_get (hash_table_set true (hash_table_new true) key 7).0 key ≡ some 7
unfolding hash_table_get hash_table_set hash_table_new
key_found = refl
