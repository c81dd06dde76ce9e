-- ===== src/Base/Codes.antt =====
-- `nos_status_t` of include/nos_types.h.
pub data Status : Type 0 where
  nos_ok nos_err nos_err_nomem nos_err_not_found nos_err_busy nos_err_timeout : Status
