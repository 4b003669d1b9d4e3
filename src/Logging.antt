-- ===== src/Logging.antt =====
-- src/core/logging.c: the log level, its setting from the environment, and the messages that pass it. What is
-- written to the standard error stream is a list of lines. The model is of a build WITH_ENVVARS that is not
-- for Windows, where the environment is read once, when the library is loaded.
use hiemal.Base.{
  ℕ, ◌+◌, ◌≤◌, ◌≡◌, refl, Bool, ◌&&◌, ◌||◌, Option, none, some, List, [], ◌∷◌, ltb, leb, ◌==◌,
  if◌then◌else◌, arith,
}
use hiemal.Base.Int.{ℤ, pos, negsuc}
use hiemal.Str.{Str, eq_str}

pub data Tag : Type 0 where
  error warning info debug trace : Tag

pub record Line : Type 0 where
  pub tag : Tag
  pub fn_name : Str
  pub msg : Str

abbrev pub one_line : (msg fn_name : Str) → Tag → ℤ × List Line
one_line msg fn_name t = (pos 0, record { tag = t; fn_name = fn_name; msg = msg } ∷ [])

unfoldable pub log_msg : (log_level : ℕ) → (lvl : ℕ) → (msg fn_name : Str) → ℤ × List Line
log_msg log_level lvl msg fn_name =
    if ltb log_level lvl
    then (pos 0, [])
    else if lvl == 1
    then one_line msg fn_name error
    else if lvl == 2
    then one_line msg fn_name warning
    else if lvl == 3
    then one_line msg fn_name info
    else if lvl == 4
    then one_line msg fn_name debug
    else if lvl == 5
    then one_line msg fn_name trace
    else (negsuc 0, [])

-- The new level, which is also returned
unfoldable pub set_loglvl : (log_level lvl : ℕ) → ℕ × ℕ
set_loglvl log_level lvl = (lvl, lvl)

unfoldable pub get_loglvl : (log_level : ℕ) → ℕ
get_loglvl log_level = log_level

module _ (log_level : ℕ) where
  unfoldable pub log_err : (msg fn_name : Str) → ℤ × List Line
  unfolding log_msg
  log_err = log_msg log_level 1

  unfoldable pub log_warn : (msg fn_name : Str) → ℤ × List Line
  unfolding log_msg
  log_warn = log_msg log_level 2

  unfoldable pub log_info : (msg fn_name : Str) → ℤ × List Line
  unfolding log_msg
  log_info = log_msg log_level 3

  unfoldable pub log_debug : (msg fn_name : Str) → ℤ × List Line
  unfolding log_msg
  log_debug = log_msg log_level 4

  unfoldable pub log_trace : (msg fn_name : Str) → ℤ × List Line
  unfolding log_msg
  log_trace = log_msg log_level 5

-- `strcasecmp` in the C locale
abbrev pub to_lower : ℕ → ℕ
to_lower c = if leb 65 c && leb c 90 then c + 32 else c

unfoldable pub lower : Str → Str
lower [] = []
lower (c ∷ cs) = to_lower c ∷ lower cs

unfoldable pub matches : (env name digit : Str) → Bool
unfolding lower eq_str
matches env name digit = eq_str (lower env) name || eq_str (lower env) digit

-- "error", "warn", "info", "debug", "trace"
abbrev pub name_of : Tag → Str
name_of error = 101 ∷ 114 ∷ 114 ∷ 111 ∷ 114 ∷ []
name_of warning = 119 ∷ 97 ∷ 114 ∷ 110 ∷ []
name_of info = 105 ∷ 110 ∷ 102 ∷ 111 ∷ []
name_of debug = 100 ∷ 101 ∷ 98 ∷ 117 ∷ 103 ∷ []
name_of trace = 116 ∷ 114 ∷ 97 ∷ 99 ∷ 101 ∷ []

-- The level after the library is loaded, for the value of `HM_LOGLVL`; it is WARN before.
unfoldable pub check_loglvl_env : Option Str → (log_level : ℕ) → ℕ
unfolding matches
check_loglvl_env none log_level = log_level
check_loglvl_env (some env) log_level =
    if matches env (name_of error) (49 ∷ [])
    then 1
    else if matches env (name_of warning) (50 ∷ [])
    then 2
    else if matches env (name_of info) (51 ∷ [])
    then 3
    else if matches env (name_of debug) (52 ∷ [])
    then 4
    else if matches env (name_of trace) (53 ∷ [])
    then 5
    else log_level

-- The level of a tag
abbrev pub level_of : Tag → ℕ
level_of error = 1
level_of warning = 2
level_of info = 3
level_of debug = 4
level_of trace = 5

-- `hm_log_msg` with one of the five levels writes one line with the tag of the level if the level is at most
-- the log level, and nothing if it is above, and returns 0.
pub log_msg-filters :
    (log_level : ℕ) (t : Tag) (msg fn_name : Str)
    → log_msg log_level (level_of t) msg fn_name
      ≡ (if leb (level_of t) log_level then one_line msg fn_name t else (pos 0, []))
unfolding log_msg
log_msg-filters log_level error msg fn_name = ground arith
log_msg-filters log_level warning msg fn_name = ground arith
log_msg-filters log_level info msg fn_name = ground arith
log_msg-filters log_level debug msg fn_name = ground arith
log_msg-filters log_level trace msg fn_name = ground arith

names-set : (log_level : ℕ) (t : Tag) → check_loglvl_env (some (name_of t)) log_level ≡ level_of t
unfolding check_loglvl_env matches lower eq_str
names-set log_level error = refl
names-set log_level warning = refl
names-set log_level info = refl
names-set log_level debug = refl
names-set log_level trace = refl

digits-set :
    (log_level : ℕ) (t : Tag)
    → check_loglvl_env (some ((48 + level_of t) ∷ [])) log_level ≡ level_of t
unfolding check_loglvl_env matches lower eq_str
digits-set log_level error = refl
digits-set log_level warning = refl
digits-set log_level info = refl
digits-set log_level debug = refl
digits-set log_level trace = refl

stays-level :
    (log_level : ℕ) (env : Option Str)
    → 1 ≤ log_level
    → log_level ≤ 5
    → (1 ≤ check_loglvl_env env log_level) × (check_loglvl_env env log_level ≤ 5)
unfolding check_loglvl_env
stays-level log_level none lo hi = (lo, hi)
stays-level log_level (some env) lo hi = (ground arith, ground arith)

-- Reading the environment sets the level for each of the five names and for each of the five digits, and
-- leaves a level from 1 to 5 in that range whatever the environment holds.
pub check_loglvl_env-sets :
    (log_level : ℕ) (env : Option Str) (t : Tag)
    → 1 ≤ log_level
    → log_level ≤ 5
    → (check_loglvl_env (some (name_of t)) log_level ≡ level_of t)
      × (check_loglvl_env (some ((48 + level_of t) ∷ [])) log_level ≡ level_of t)
      × (1 ≤ check_loglvl_env env log_level)
      × (check_loglvl_env env log_level ≤ 5)
check_loglvl_env-sets log_level env t lo hi =
    let r = stays-level log_level env lo hi in
    (names-set log_level t, digits-set log_level t, r.0, r.1)
