-- ===== src/Wasi/Init.antt =====
-- `wasiInit` of w2c2/embedded/wasi.c, which needs nothing and cannot fail.
use wasrisc.Base.{Bool, true}

unfoldable pub wasi_init : Bool
wasi_init = true
