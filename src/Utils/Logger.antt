-- ===== src/Utils/Logger.antt =====
-- utils/Logger.hpp and Logger.cpp. The clock, the thread's name and the source position of a call are
-- arguments, `stamp`, `tid` and `source`. A call that locks a mutex its own thread holds does not
-- come back: it is `none`.
pub mod Lines
pub mod Stamp
use arcraven_ugv_core.Common.{
  ℕ, Bool, true, false, ◌&&◌, List, [], ◌∷◌, ◌++◌, Option, none, some, ◌>>=◌, ◌==◌, ltb,
  if◌then◌else◌, Bytes, bytes,
}
use arcraven_ugv_core.Stdlib.Decimal.{decimal}

-- Without the values that have no enumerator, which no code makes: the `default` branches of
-- `level_tag` and `level_color` are for them.
pub data Level : Type 0 where
  trace debug info warn error fatal : Level

-- `static_cast<uint8_t>(lvl)`
unfoldable pub level_value : Level → ℕ
level_value trace = 0
level_value debug = 1
level_value info = 2
level_value warn = 3
level_value error = 4
level_value fatal = 5

pub record Config : Type 0 where
  pub min_level : Level
  pub file_path : Option Bytes
  pub console : Bool
  pub ansi_colors : Bool
  pub flush_always : Bool
  pub include_thread_id : Bool
  pub include_source : Bool

-- An open file: what the system has of it, and what still waits in the buffer.
pub record OutFile : Type 0 where
  pub text : Bytes
  pub pending : Bytes

-- `file` is `none` while `file_` is not open. std::cerr keeps nothing in a buffer.
pub record Logger : Type 0 where
  pub cfg : Config
  pub cerr : Bytes
  pub file : Option OutFile
  pub min_level_now : Level

-- The constructor; `none` is the exception. `opened` is the text of the file at `file_path`, if it
-- can be opened.
unfoldable pub new_logger : Config → Bytes → Option Bytes → Option Logger
new_logger cfg cerr opened = elim cfg.file_path [
  | none ↦ some (record { cfg = cfg; cerr = cerr; file = none; min_level_now = cfg.min_level })
  | some path ↦ elim opened [
    | none ↦ none
    | some text ↦ some (record {
      cfg = cfg;
      cerr = cerr;
      file = some (record { text = text; pending = [] });
      min_level_now = cfg.min_level;
    })
  ]
]

unfoldable pub set_min_level : Level → Logger → Logger
set_min_level lvl l = record l { min_level_now = lvl }

unfoldable pub min_level : Logger → Level
min_level l = l.min_level_now

unfoldable pub level_tag : Level → Bytes
level_tag trace = bytes "TRACE"
level_tag debug = bytes "DEBUG"
level_tag info = bytes "INFO "
level_tag warn = bytes "WARN "
level_tag error = bytes "ERROR"
level_tag fatal = bytes "FATAL"

-- Each begins with the escape character.
unfoldable pub level_color : Level → Bytes
level_color trace = 27 ∷ bytes "[2m"
level_color debug = 27 ∷ bytes "[36m"
level_color info = 27 ∷ bytes "[32m"
level_color warn = 27 ∷ bytes "[33m"
level_color error = 27 ∷ bytes "[31m"
level_color fatal = 27 ∷ bytes "[1;31m"

-- `file` and `line`; `none` is a null `file`.
abbrev pub Source : Type 0
Source = Option Bytes × ℕ

-- `if (include_source && file != nullptr && line > 0)`
unfoldable pub source_part : Config → Source → Bytes
source_part cfg (none, line) = []
source_part cfg (some file, line) =
    if cfg.include_source && ltb 0 line
    then file ++ (bytes ":" ++ (decimal line ++ bytes " "))
    else []

unfoldable pub format_line : Config → Bytes → Bytes → Level → Bytes → Source → Bytes
unfolding source_part
format_line cfg stamp tid lvl msg source =
    stamp
    ++ (bytes " ["
        ++ (level_tag lvl
            ++ (bytes "] "
                ++ ((if cfg.include_thread_id then bytes "tid=" ++ (tid ++ bytes " ") else [])
                    ++ (source_part cfg source ++ (bytes "- " ++ (msg ++ (10 ∷ []))))))))

abbrev pub flush_file : OutFile → OutFile
flush_file f = record { text = f.text ++ f.pending; pending = [] }

abbrev pub write_file : Bytes → OutFile → OutFile
write_file s f = record f { pending = f.pending ++ s }

abbrev pub on_file : (OutFile → OutFile) → Option OutFile → Option OutFile
on_file g none = none
on_file g (some f) = some (g f)

-- `held` is whether the calling thread holds `mu_`.
unfoldable pub flush : Bool → Logger → Option Logger
flush held l = if held then none else some (record l { file = on_file flush_file l.file })

-- The lines of `log` under the lock, but for the last test.
unfoldable pub write_line : Level → Bytes → Logger → Logger
write_line lvl line l = record l {
  cerr =
      if l.cfg.console
      then l.cerr
        ++ (if l.cfg.ansi_colors then level_color lvl ++ (line ++ (27 ∷ bytes "[0m")) else line)
      else l.cerr;
  file =
      if l.cfg.flush_always
      then on_file flush_file (on_file (write_file line) l.file)
      else on_file (write_file line) l.file;
}

abbrev pub is_fatal : Level → Bool
is_fatal fatal = true
is_fatal lvl = false

-- The lock is held when `log` calls `flush`.
unfoldable pub log : Bytes → Bytes → Level → Bytes → Source → Logger → Option Logger
log stamp tid lvl msg source l =
    if ltb (level_value lvl) (level_value (min_level l))
    then some l
    else let l' = write_line lvl (format_line l.cfg stamp tid lvl msg source) l in
      if is_fatal lvl && l.cfg.flush_always then flush true l' else some l'

-- The global logger, behind `g_logger_mu`.
unfoldable pub init_logger : Config → Bytes → Option Bytes → Option Logger → Bool × Option Logger
init_logger cfg cerr opened g = elim (new_logger cfg cerr opened) [
  | none ↦ (false, g)  -- the exception
  | some l ↦ (true, some l)
]

-- `logger()`; `none` is the exception.
unfoldable pub logger : Option Logger → Option Logger
logger g = g

unfoldable pub logger_ready : Option Logger → Bool
logger_ready none = false
logger_ready (some l) = true

-- The destructor flushes the file: the global logger, and the file that is closed.
unfoldable pub shutdown_logger : Option Logger → Option Logger × Option OutFile
shutdown_logger g = (none, elim g [ none ↦ none | some l ↦ on_file flush_file l.file ])
