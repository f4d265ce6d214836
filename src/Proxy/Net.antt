-- ===== src/Proxy/Net.antt =====
-- What the sessions see of asio: the error codes that their handlers tell apart.
use burp_tui.Prelude.{Bool, true, false}

pub data ErrorCode : Type 0 where
  success eof operation_aborted stream_truncated other_error : ErrorCode

-- `if (ec)`
abbrev pub failed : ErrorCode → Bool
failed success = false
failed _ = true

abbrev pub is_eof : ErrorCode → Bool
is_eof eof = true
is_eof _ = false

abbrev pub is_aborted : ErrorCode → Bool
is_aborted operation_aborted = true
is_aborted _ = false
