-- ===== src/Core/Log/Levels.antt =====
-- What `log_init` of core/mg_log.c answers, and which messages are written.
use mg_raffle.Base.{
  Option, none, some, ℕ, ◌≡◌, ◌≢◌, Bool, true, ◌&&◌, List, [], ◌∷◌, ◌++◌, if◌then◌else◌, ltb,
  length, arith,
}
use mg_raffle.Base.Int.{ℤ, pos, ◌≤ℤ◌, leb_ℤ}
use mg_raffle.Base.Run.{Run, done, fault, Cmd}
use mg_raffle.Core.Log.{
  Log, max_log_filename, log_init, print_filename, log_debug, log_info, log_warning, log_error,
  log_fatal, log_dump,
}

-- Unless the name has exactly 4096 bytes, `log_init` answers 1 if it is longer, else 2 if the level
-- is none of the enumeration's, else 3 if the file cannot be opened, and changes nothing then; else
-- it answers 0 with the name, the level and the file set.
pub log_init_lem :
    (fp : Bool) (name : List ℕ) (level : ℤ) (s : Log)
    → length name ≢ max_log_filename
    → log_init fp name level s ≡ (
        if ltb (length name) max_log_filename
        then (if leb_ℤ (pos 0) level && leb_ℤ level (pos 5)
            then (if fp
                then done (pos 0) (record s { filename = name; level = level; opened = true })
                else done (pos 3) s)
            else done (pos 2) s)
        else done (pos 1) s)
unfolding log_init print_filename
log_init_lem fp name level s fits = ground arith

-- A name of 4096 bytes passes the test of its length, and its closing zero is out of bounds.
pub log_init_overruns :
    (name : List ℕ) (level : ℤ) (s : Log)
    → length name ≡ max_log_filename
    → pos 0 ≤ℤ level
    → level ≤ℤ pos 5
    → log_init true name level s ≡ fault
unfolding log_init print_filename
log_init_overruns name level s long low high = ground arith

-- The level of each function, and whether it ends the process.
pub data Kind : Type 0 where
  debug : Kind
  info : Kind
  warning : Kind
  error : Kind
  fatal : Kind
  dump : Kind

abbrev pub log_by : Kind → List ℕ → Cmd Log (Unit {0})
log_by debug line = log_debug line
log_by info line = log_info line
log_by warning line = log_warning line
log_by error line = log_error line
log_by fatal line = log_fatal line
log_by dump line = log_dump line

abbrev pub severity : Kind → ℕ
severity debug = 5
severity info = 4
severity warning = 3
severity error = 2
severity fatal = 1
severity dump = 0

abbrev pub writes : Kind → Option (List ℕ) → Log → Run Log (Unit {0})
writes kind none s = fault
writes kind (some line) s = done tt (record s {
  written = s.written ++ line ∷ [];
  exited = if ltb (severity kind) 2 then true else s.exited;
})
