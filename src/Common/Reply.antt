-- ===== src/Common/Reply.antt =====
-- src/common.cc: the texts of the replies. A `Format` function appends its text to the reply
-- buffer; here it is the text alone. The pieces that it pushes are in the order of the source.
use pika_panlei.Base.{ℕ, ℤ, [], ◌∷◌, ◌++◌, PString, codes, crlf, length}
use pika_panlei.Common.{PError}
use pika_panlei.Common.Number.Print.{print_nat, print_int}

unfoldable pub format_int : ℤ → PString
format_int value = b':' ∷ print_int value ++ crlf

unfoldable pub format_single : PString → PString
format_single str = b'+' ∷ str ++ crlf

unfoldable pub format_bulk : PString → PString
format_bulk str = b'$' ∷ (print_nat (length str) ++ crlf) ++ (str ++ crlf)

unfoldable pub pre_format_multi_bulk : ℕ → PString
pre_format_multi_bulk n_bulk = b'*' ∷ print_nat n_bulk ++ crlf

unfoldable pub format_empty_bulk : PString
format_empty_bulk = codes "$0" ++ crlf ++ crlf

unfoldable pub format_null : PString
format_null = codes "$-1" ++ crlf

unfoldable pub format_null_array : PString
format_null_array = codes "*-1" ++ crlf

unfoldable pub format_ok : PString
format_ok = codes "+OK" ++ crlf

unfoldable pub format_1 : PString
format_1 = codes ":1" ++ crlf

unfoldable pub format_0 : PString
format_0 = codes ":0" ++ crlf

-- The table `g_errorInfo`. `PError_nop` is -1, no index of the table, and has no entry.
unfoldable pub reply_error : PError → PString
reply_error PError.nop = []
reply_error PError.ok = codes "+OK" ++ crlf
reply_error PError.type =
    codes "-ERR Operation against a key holding the wrong kind of value" ++ crlf
reply_error PError.exist = codes "-ERR already exist"
reply_error PError.not_exist = codes "-ERR no such key" ++ crlf
reply_error PError.param = codes "-ERR wrong number of arguments" ++ crlf
reply_error PError.unknow_cmd = codes "-ERR Unknown command" ++ crlf
reply_error PError.nan = codes "-ERR value is not an integer or out of range" ++ crlf
reply_error PError.syntax = codes "-ERR syntax error" ++ crlf
reply_error PError.dirty_exec =
    codes "-EXECABORT Transaction discarded because of previous errors." ++ crlf
reply_error PError.watch = codes "-WATCH inside MULTI is not allowed" ++ crlf
reply_error PError.no_multi = codes "-EXEC without MULTI" ++ crlf
reply_error PError.invalid_db = codes "-ERR invalid DB index" ++ crlf
reply_error PError.readonly_slave =
    codes "-READONLY You can't write against a read only slave." ++ crlf
reply_error PError.need_auth = codes "-ERR operation not permitted" ++ crlf
reply_error PError.err_auth = codes "-ERR invalid password" ++ crlf
reply_error PError.no_module = codes "-ERR no such module" ++ crlf
reply_error PError.module_init = codes "-ERR init module failed" ++ crlf
reply_error PError.module_uninit = codes "-ERR uninit module failed" ++ crlf
reply_error PError.module_repeat = codes "-ERR module already loaded" ++ crlf
