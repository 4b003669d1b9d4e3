-- ===== src/Terminal/Colours.antt =====
-- What src/util/tty.c prints in colour.
use hiemal.Str.{Str}
