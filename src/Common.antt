-- ===== src/Common.antt =====
-- The enumerations of src/common.h.
pub mod Reply
pub mod Number
pub mod Index
pub mod Case

pub data PType : Type 0 where
  invalid string list set sorted_set hash : PType

pub data PEncode : Type 0 where
  invalid raw int list set hash zset : PEncode

pub data PError : Type 0 where
  nop ok type exist not_exist param unknow_cmd nan syntax dirty_exec watch no_multi : PError
  invalid_db readonly_slave need_auth err_auth no_module module_init module_uninit : PError
  module_repeat : PError

-- `assert_failed` stands for a failed `assert`, after which the parser does not go on.
pub data PParseResult : Type 0 where
  ok wait error assert_failed : PParseResult
