-- ===== src/Lib.antt =====
-- Verification of the TDengine ODBC driver (taos-connector-odbc).
--
-- An application calls the driver through the entry points of src/odbc.c; each clears the
-- diagnostics of a handle and calls a function of src/core, which appends diagnostics again when
-- it fails. A statement (src/core/stmt.c) binds columns to the application's buffers in a
-- descriptor (src/core/desc.c), fetches rows from TDengine, converts their columns on SQLGetData,
-- and converts parameters row by row for a prepared statement.
--
-- The files, and the code that they model:
--   Prelude      shared names; lists, Boolean tests and machine integers over native numbers
--   Odbc         return codes, C types, SQLSTATEs, C strings, results of strtoll and its kin
--   Errs         src/core/errs.c: errs_init, errs_append_x, errs_clr_x, errs_release_x and
--                errs_get_diag_*; Errs/Records has its invariant and reads records back
--   Attributes   src/core/stmt.c: stmt_set_attr, stmt_get_attr and the setters they call
--   Buffer       src/utils/utils.c: growing buffers and the quoting of names for SQL,
--                buffer_concat_replacement_n; Quoted reads a literal back
--   Desc         src/core/desc.c: descriptor_init, descriptor_keep, descriptor_bind_col and the
--                unbinding of columns; Desc/Bindings has the invariant and the view of a
--                descriptor as a map from columns to bindings
--   GetData      src/core/stmt.c: _stmt_get_data_impl and what it calls. State has get_data_ctx_t
--                and the application's memory as a list of writes; Charset has
--                _stmt_conv_one_character and iconv_calc (src/utils/utils.c); Char delivers to
--                SQL_C_CHAR and SQL_C_WCHAR, Binary to SQL_C_BINARY; Fixed stores numbers and
--                timestamps (src/core/tsdb.c); Varchar parses text; Copy and Session choose by
--                types and columns; Parts is the application's loop around SQLGetData
--   Fetch        SQLFetch: Blocks has the blocks of rows of src/core/tsdb.c, with the client's
--                answers as a list; Rows has _stmt_fetch_rows and its kin of src/core/stmt.c, which
--                fill the bound columns with GetData and store statuses in the application's arrays
--   Handles      reference counts of statements (src/core/stmt.c), descriptors (src/core/desc.c), the
--                connection (src/core/conn.c) and the environment (src/core/env.c). A handle is an
--                index; an object that was freed is `none`, and a failed assertion or the use of a
--                freed object is the result `none`. The lists of a descriptor's statements are the
--                statements whose association names it
--   HashTable    src/utils/utils.c: hash_table_new, hash_table_set and hash_table_get
--   Hex          common/auxiliary.c: tod_hexify and tod_hex2bytes
--   Wildcard     src/utils/utils.c: the patterns of catalog functions, _wild_comp and _wild_exec;
--                Like says what a pattern stands for
--   Params       src/core/stmt.c: the _stmt_param_check_* and _stmt_param_conv_* functions for
--                integers, and _stmt_param_check_and_conv. Batches has arrays of parameters,
--                _stmt_execute_with_param_state, for columns of a fixed size: Rows a column of
--                a batch, Columns a batch, Loop the batches; a batch that was executed is a value
--                in a list. Pack has _stmt_pack_stmt2_var_bind, which moves the rows of a column
--                of variable size together
--   Tables       src/core/tables.c: SQLTables. Types has the list of table types, Rows the selection
--                of rows over those of Fetch, with wildexec (src/utils/utils.c), and Opened has
--                tables_open with wildcomp
--   Columns      src/core/columns.c: the rows of SQLColumns, for the tables that Tables selects; what
--                describes a table is a parameter
--
-- An operation takes the state and returns the new state with its SQLRETURN. Diagnostics are kept
-- by SQLSTATE, newest first; their texts are kept only in Errs. What malloc and its kin answer is
-- a Boolean argument. A pointer is a number, 0 for NULL.
--
-- iconv, strtoll, strtoull, strtof, strtod, printf and localtime_r are parameters: the record
-- Libc of GetData/State, and the arguments of Params/Text. Columns of a row come from the
-- parameter Base of GetData/Session, for stmt_base_t. What the client and iconv answer is a record
-- Answers in Params/Batches/Columns and in Tables/Opened. A theorem that needs a property of a
-- parameter says so among its hypotheses: that a long long is in range for text parameters, that
-- iconv makes progress for iconv_calc and gives texts for SQLTables, and that the client takes
-- every batch for arrays of parameters.
--
-- Loops over lists are recursion on the list. iconv_calc runs on a round for each byte, which is
-- enough for an iconv that makes progress (Charset/Rounds), and _stmt_conv_one_character on one
-- more than that, since each round tries a longer prefix; without fuel both fail. The loop of the
-- application runs on fuel as well, and its theorems give the fuel that is enough. The loop over
-- batches of parameters has fuel for one round more than there are rows, since each batch has a row,
-- and the loops that pass over rows of SQLTables and SQLColumns take one round for each row, and one
-- for each table. Failed
-- assertions of the driver end the process; the model then returns SQL_ERROR without a
-- diagnostic.
--
-- Not modelled: the parsers, the opening of SQLColumns, SQLPrimaryKeys and SQLGetTypeInfo, the
-- references that an entry point takes while it runs, transactions, the calls of the TDengine
-- client, parameters of other types, columns of SQLTables and SQLColumns that are NULL, arrays of
-- parameters of 2 ^ 31 rows or more behind their first batch, and the programs around the driver.
pub mod Prelude
pub mod Odbc
pub mod Errs
pub mod Attributes
pub mod Buffer
pub mod Desc
pub mod Fetch
pub mod GetData
pub mod Handles
pub mod HashTable
pub mod Hex
pub mod Params
pub mod Tables
pub mod Columns
pub mod Wildcard
