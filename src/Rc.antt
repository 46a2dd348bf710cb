-- ===== src/Rc.antt =====
-- src/observer/rc.h: the return codes that the modelled code returns.
pub data Rc : Type 0 where
  success empty generic_error invalid_argument nomem internal locked_unlock logbuf_full : Rc
  ioerr_access ioerr_seek ioerr_read ioerr_write ioerr_close : Rc
  bufferpool_open bufferpool_nobuf bufferpool_invalid_page_num : Rc
  record_openned record_invalidrid record_nomem record_eof record_duplicate_key
        record_record_not_exist :
      Rc

pub Rc-discrete : Discrete Rc
Rc-discrete = hlevel
