-- ===== src/Start.antt =====
-- flow_start/flow_start.c: the options, the pid file, the signal handlers and the main loop. The
-- operating system is a parameter: `getopt` by the options that it finds, files by their contents.
pub mod Options
pub mod Pid
pub mod Serve
use uaflow.Prelude.{
  ℕ, zero, suc, ◌+◌, ◌-◌, Bool, true, false, ◌&&◌, ◌||◌, Option, none, some, List, [], ◌∷◌, ◌++◌,
  ◌==◌, leb, if◌then◌else◌, length, take, replicate,
}
use uaflow.Prelude.CString.{eq_nocase, strncpy}
use uaflow.Prelude.Decimal.{is_digit, digits_value, decimal}
use uaflow.Prelude.Int.{ℤ, pos, negsuc}
use uaflow.Current.{Timeval, Clock, update}

-- `sizeof(logname)`
abbrev pub logname_size : ℕ
logname_size = 256

-- FLOW_DEFAULT_LOGFILE
abbrev pub default_logfile : List ℕ
default_logfile =
    b'/' ∷ b'v' ∷ b'a' ∷ b'r' ∷ b'/' ∷ b'l' ∷ b'o' ∷ b'g' ∷ b'/' ∷ b'U' ∷ b'A' ∷ b'F' ∷ b'l' ∷ b'o'
    ∷ b'w' ∷ b'.' ∷ b'l' ∷ b'o' ∷ b'g' ∷ []

-- What `getopt` finds, by "m:hvo:p".
pub data Opt : Type 0 where
  help version print_dump unknown : Opt
  logfile mode : List ℕ → Opt

-- The local variables of `main`: a mark is set where the source has 0.
pub record Settings : Type 0 where
  pub logname : List ℕ
  pub logmark : Bool
  pub backmark : Bool

-- How the loop over the options ends: by a return from `main` or by going on.
pub data Ending : Type 0 where
  usage_shown version_shown dump_asked : Ending
  goes_on : Settings → Ending

unfoldable pub fresh : Settings
fresh = record { logname = replicate logname_size 0; logmark = false; backmark = false }

abbrev pub back : List ℕ
back = b'b' ∷ b'a' ∷ b'c' ∷ b'k' ∷ []

-- The loop over the options.
unfoldable pub options : List Opt → Settings → Ending
options [] s = goes_on s
options (help ∷ rest) s = usage_shown
options (version ∷ rest) s = version_shown
options (print_dump ∷ rest) s = dump_asked
options (unknown ∷ rest) s = options rest s
options (logfile optarg ∷ rest) s =
    options rest
      (record s { logmark = true; logname = strncpy s.logname optarg (logname_size - 1) })
options (mode optarg ∷ rest) s =
    options rest
      (record s { backmark = if eq_nocase (length back) optarg back then true else s.backmark })

-- What is done with the marks: the name of the log file, and whether `daemon` is called.
unfoldable pub log_of : Settings → List ℕ
log_of s =
    if s.logmark then s.logname else strncpy s.logname default_logfile (length default_logfile)

-- What `flow_start_wr_pid` writes.
abbrev pub pid_prefix : List ℕ
pid_prefix = b'u' ∷ b'a' ∷ b'f' ∷ b'l' ∷ b'o' ∷ b'w' ∷ b' ' ∷ b'p' ∷ b'i' ∷ b'd' ∷ b':' ∷ b'[' ∷ []

unfoldable pub pid_line : (pid : ℕ) → List ℕ
pid_line pid = pid_prefix ++ decimal pid ++ b']' ∷ 10 ∷ []

-- `flow_start_wr_pid`: the file afterwards and the result, where it can be opened or not.
unfoldable pub wr_pid : (writable : Bool) → (pid : ℕ) → Option (List ℕ) → Option (List ℕ) × ℤ
unfolding pid_line
wr_pid false pid file = (file, negsuc 0)
wr_pid true pid file = (some (pid_line pid), pos 0)

-- `sscanf`'s `%d`, on what is left of the input, for numbers that an `int` holds.
number : List ℕ → Option ℕ
number [] = none
number (c ∷ s) = if is_digit c then some (digits_value 0 (c ∷ s)) else none

negated : Option ℕ → Option ℤ
negated none = none
negated (some zero) = some (pos 0)
negated (some (suc n)) = some (negsuc n)

positive : Option ℕ → Option ℤ
positive none = none
positive (some n) = some (pos n)

scan_int : List ℕ → Option ℤ
unfolding number negated positive
scan_int [] = none
scan_int (c ∷ s) =
    if c == b' ' || (leb 9 c && leb c 13)
    then scan_int s
    else if c == b'-'
    then negated (number s)
    else if c == b'+'
    then positive (number s)
    else positive (number (c ∷ s))

-- `%*[^[]` skips what stands in front of the bracket, `[` the bracket.
scan_bracket : List ℕ → Option ℤ
unfolding scan_int
scan_bracket [] = none
scan_bracket (c ∷ s) = if c == 0 then none else if c == b'[' then scan_int s else scan_bracket s

-- The whole format, `%*[^[][%d`; the first part wants at least one byte.
unfoldable pub scan_id : List ℕ → Option ℤ
unfolding scan_bracket
scan_id [] = none
scan_id (c ∷ s) = if c == 0 || c == b'[' then none else scan_bracket s

-- `%d`
unfoldable pub show_int : ℤ → List ℕ
show_int (pos n) = decimal n
show_int (negsuc n) = b'-' ∷ decimal (n + 1)

abbrev pub kill_prefix : List ℕ
kill_prefix = b'k' ∷ b'i' ∷ b'l' ∷ b'l' ∷ b' ' ∷ b'-' ∷ b'U' ∷ b'S' ∷ b'R' ∷ b'1' ∷ b' ' ∷ []

-- `flow_print`: the command that is run, by the contents of the pid file. `id` is what the local
-- variable held before, and keeps where `sscanf` finds no number. (The end of the buffer counts as
-- a terminator, also where the file fills it.)
unfoldable pub print : (id : ℤ) → Option (List ℕ) → Option (List ℕ)
print id none = none
print id (some file) =
    let found : ℤ = elim (scan_id (take 1024 file)) [ none ↦ id | some z ↦ z ] in
    some (kill_prefix ++ show_int found)

pub data Signal : Type 0 where
  usr1 int : Signal

-- The flags, the clock, and how often the log was written.
pub record Service : Type 0 where
  pub dump_signum : Bool
  pub run_flag : Bool
  pub clock : Clock
  pub dumps : ℕ

-- `flow_start_sighandler_USR1` and `flow_start_sighandler_INT`
unfoldable pub handle : Signal → Service → Service
handle usr1 s = record s { dump_signum = true }
handle int s = record s { run_flag = true }

unfoldable pub handle_all : List Signal → Service → Service
handle_all [] s = s
handle_all (sig ∷ sigs) s = handle_all sigs (handle sig s)

-- One round of the loop at the end of `main`, and whether it breaks the loop.
unfoldable pub tick : Timeval → Service → Service × Bool
tick now s =
    let s1 = if s.dump_signum then record s { dump_signum = false; dumps = s.dumps + 1 } else s in
    if s1.run_flag then (s1, true) else (record s1 { clock = update now s1.clock }, false)

-- The loop, on the signals that are handled before each round (one that comes during a round counts
-- as before the next) and the time that the round reads. The result says whether it was left.
unfoldable pub serve : List (List Signal × Timeval) → Service → Service × Bool
serve [] s = (s, false)
serve ((sigs, now) ∷ rest) s =
    let (s1, stops) = tick now (handle_all sigs s) in
    elim stops [ true ↦ (s1, true) | false ↦ serve rest s1 ]
