-- ===== src/Result.antt =====
-- `enum dnswire_result` of src/dnswire/dnswire.h: what every operation returns.
pub mod Failing

pub data Result : Type 0 where
  ok error again need_more have_dnstap endofdata bidirectional : Result
