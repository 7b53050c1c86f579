-- ===== src/Header.antt =====
-- ttyrec.h: the header of a record, and the `struct timeval` in it.
use ovh_ttyrec.Base.{ℤ}

pub record Timeval : Type 0 where
  pub tv_sec : ℤ
  pub tv_usec : ℤ

pub record Header : Type 0 where
  pub tv : Timeval
  pub len : ℤ
