-- ===== src/Timeval.antt =====
-- ttyplay.c: the difference of two times.
pub mod Normal
use ovh_ttyrec.Base.{if◌then◌else◌, ltb_ℤ, pos, ◌+ℤ◌, ◌-ℤ◌}
use ovh_ttyrec.Header.{Timeval}

unfoldable pub timeval_diff : Timeval → Timeval → Timeval
timeval_diff tv1 tv2 =
    let sec = tv2.tv_sec -ℤ tv1.tv_sec in
    let usec = tv2.tv_usec -ℤ tv1.tv_usec in
    if ltb_ℤ usec (pos 0)
    then record { tv_sec = sec -ℤ pos 1; tv_usec = usec +ℤ pos 1000000 }
    else record { tv_sec = sec; tv_usec = usec }
