-- ===== src/Core/Log.antt =====
-- core/mg_log.c: the log file, its level, and what a message does.
pub mod Levels
use mg_raffle.Base.{
  Option, none, some, ◌==◌, ℕ, zero, suc, ◌+◌, Bool, true, false, ◌||◌, List, [], ◌∷◌, ◌++◌,
  if◌then◌else◌, ltb, length,
}
use mg_raffle.Base.Optional.{◌>>=◌ as ◌>>=?◌}
use mg_raffle.Base.Int.{ℤ, pos, ltb_ℤ}
use mg_raffle.Base.Run.{Run, done, fault, Cmd, pure, check, ◌>>=◌, ◌>>◌, modify, gets}

abbrev pub max_log_filename : ℕ
max_log_filename = 4096

-- The levels of the enumeration
abbrev pub log_dump_level : ℤ
log_dump_level = pos 0

abbrev pub log_fatal_level : ℤ
log_fatal_level = pos 1

abbrev pub log_error_level : ℤ
log_error_level = pos 2

abbrev pub log_warn_level : ℤ
log_warn_level = pos 3

abbrev pub log_info_level : ℤ
log_info_level = pos 4

abbrev pub log_debug_level : ℤ
log_debug_level = pos 5

-- The statics of the file, whether `glogfp` is open, as `stdout` is at first, the lines written to
-- it, and whether the process has ended.
pub record Log : Type 0 where
  pub filename : List ℕ
  pub level : ℤ
  pub opened : Bool
  pub written : List (List ℕ)
  pub exited : Bool

abbrev pub set_filename : List ℕ → Cmd Log (Unit {0})
set_filename name = modify λ s. record s { filename = name }

-- `sprintf` into `glog_filename`, and its closing zero: out of bounds is a fault.
unfoldable pub print_filename : List ℕ → Cmd Log (Unit {0})
print_filename name = check (ltb (length name) max_log_filename) >> set_filename name

-- `fp` says whether `fopen` gave a file.
unfoldable pub log_init : Bool → List ℕ → ℤ → Cmd Log ℤ
log_init fp name level =
    if ltb max_log_filename (length name)
    then pure (pos 1)
    else if ltb_ℤ level log_dump_level || ltb_ℤ log_debug_level level
    then pure (pos 2)
    else if fp
    then (print_filename name
        >> modify (λ s. record s { opened = true; level = level })
        >> pure (pos 0))
    else pure (pos 3)

-- `glogfp` is never null: a second `fclose` of one file is a fault.
unfoldable pub log_uninit : Cmd Log (Unit {0})
log_uninit s = if s.opened then done tt (record s { opened = false }) else fault

-- The text that `fprintf` makes of a format when its only argument is a `va_list`: a conversion has
-- no argument of its kind, which is a fault, and `%%` is a percent sign.
abbrev pub printed : List ℕ → Option (List ℕ)
printed [] = some []
printed (x ∷ []) = if x == 37 then none else some (x ∷ [])
printed (x ∷ y ∷ fmt) =
    let rest = printed fmt in
    let more = printed (y ∷ fmt) in
    if x == 37
    then (if y == 37 then (rest >>=? λ text. some (37 ∷ text)) else none)
    else (more >>=? λ text. some (x ∷ text))

-- `fprintf(fp, fmt, ap)`; on a file that was closed it is a fault.
abbrev pub print_line : Bool → Option (List ℕ) → Cmd Log (Unit {0})
print_line false text s = fault
print_line true none s = fault
print_line true (some line) s = done tt (record s { written = s.written ++ line ∷ [] })

unfoldable pub log_doit : List ℕ → Cmd Log (Unit {0})
log_doit fmt s = print_line s.opened (printed fmt) s

abbrev pub exit : Cmd Log (Unit {0})
exit = modify λ s. record s { exited = true }

-- `LOG_CHECK(x)` before the rest of a function
unfoldable pub log_check : ℤ → Cmd Log (Unit {0}) → Cmd Log (Unit {0})
log_check x rest = gets (λ s. s.level) >>= λ level. if ltb_ℤ level x then pure tt else rest

unfoldable pub log_debug : List ℕ → Cmd Log (Unit {0})
log_debug fmt = log_check log_debug_level (log_doit fmt)

unfoldable pub log_info : List ℕ → Cmd Log (Unit {0})
log_info fmt = log_check log_info_level (log_doit fmt)

unfoldable pub log_warning : List ℕ → Cmd Log (Unit {0})
log_warning fmt = log_check log_warn_level (log_doit fmt)

unfoldable pub log_error : List ℕ → Cmd Log (Unit {0})
log_error fmt = log_check log_error_level (log_doit fmt)

unfoldable pub log_fatal : List ℕ → Cmd Log (Unit {0})
log_fatal fmt = log_check log_fatal_level (log_doit fmt >> exit)

unfoldable pub log_dump : List ℕ → Cmd Log (Unit {0})
log_dump fmt = log_check log_dump_level (log_doit fmt >> exit)
