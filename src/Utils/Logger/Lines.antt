-- ===== src/Utils/Logger/Lines.antt =====
-- What reaches the log file, and when a call comes back.
use arcraven_ugv_core.Common.{
  ◌≡◌, ◌≢◌, ◌↔◌, refl, ◌∙◌, ap, Bool, true, false, not, List, [], ◌∷◌, ◌++◌, append_assoc,
  append-nil, map, Option, none, some, ◌>>=◌, ltb, if◌then◌else◌, Bytes, bytes, All, arith, inl,
  inr, Bool-cases,
}
use arcraven_ugv_core.Stdlib.Lines.{getlines, joined, Without, getlines-joined}
use arcraven_ugv_core.Utils.Logger.{
  Level, fatal, level_value, Config, Logger, min_level, level_tag, Source, source_part, format_line,
  flush, write_line, log,
}

-- A call comes back exactly when it is not a fatal one with flushing on: that one locks the mutex
-- twice, and no minimum level suppresses it. So every ARC_LOG_FATAL under the settings of main.cpp
-- stops the thread for good.
pub log-none_iff :
    (stamp tid msg : Bytes) (lvl : Level) (source : Source) (l : Logger)
    → (log stamp tid lvl msg source l ≡ none) ↔ ((lvl ≡ fatal) × (l.cfg.flush_always ≡ true))
unfolding log flush level_value
log-none_iff stamp tid msg lvl source l = ground arith

pub record Entry : Type 0 where
  pub stamp : Bytes
  pub tid : Bytes
  pub lvl : Level
  pub msg : Bytes
  pub source : Source

pub log_all : List Entry → Logger → Option Logger
log_all [] l = some l
log_all (e ∷ es) l = log e.stamp e.tid e.lvl e.msg e.source l >>= log_all es

-- The entry without the end of its line.
unfoldable pub entry_text : Config → Entry → Bytes
entry_text cfg e =
    e.stamp
    ++ (bytes " ["
        ++ (level_tag e.lvl
            ++ (bytes "] "
                ++ ((if cfg.include_thread_id then bytes "tid=" ++ (e.tid ++ bytes " ") else [])
                    ++ (source_part cfg e.source ++ (bytes "- " ++ e.msg))))))

unfoldable pub is_kept : Level → Entry → Bool
is_kept lowest e = not (ltb (level_value e.lvl) (level_value lowest))

unfoldable pub kept : Level → List Entry → List Entry
kept lowest [] = []
kept lowest (e ∷ es) = if is_kept lowest e then e ∷ kept lowest es else kept lowest es

format_line-entry_text :
    (cfg : Config) (e : Entry)
    → format_line cfg e.stamp e.tid e.lvl e.msg e.source ≡ entry_text cfg e ++ (10 ∷ [])
unfolding format_line entry_text
format_line-entry_text cfg e = simp append_assoc

log_below :
    (e : Entry) (l : Logger)
    → is_kept l.min_level_now e ≡ false
    → log e.stamp e.tid e.lvl e.msg e.source l ≡ some l
unfolding log min_level is_kept
log_below e l h = ground arith

abbrev pub HasFile : Logger → Bytes → Type 0
HasFile l text = l.file ≡ some (record { text = text; pending = [] })

write_line-file :
    (lvl : Level) (line text : Bytes) (l : Logger)
    → l.cfg.flush_always ≡ true
    → HasFile l text
    → HasFile (write_line lvl line l) (text ++ line)
unfolding write_line
write_line-file lvl line text l f h = rw (f, h) refl

log_kept :
    (e : Entry) (l : Logger)
    → e.lvl ≢ fatal
    → is_kept l.min_level_now e ≡ true
    → log e.stamp e.tid e.lvl e.msg e.source l
      ≡ some (write_line e.lvl (format_line l.cfg e.stamp e.tid e.lvl e.msg e.source) l)
unfolding log min_level is_kept
log_kept e l n h = ground arith

-- The settings stay, through any line.
write_line-kept :
    (lvl : Level) (line : Bytes) (l : Logger)
    → ((write_line lvl line l).cfg ≡ l.cfg)
      × ((write_line lvl line l).min_level_now ≡ l.min_level_now)
unfolding write_line
write_line-kept lvl line l = (refl, refl)

-- The text of the lines, one after the other, each with its end.
abbrev pub lines_of : Config → Level → List Entry → Bytes
lines_of cfg lowest es = joined 10 (map (entry_text cfg) (kept lowest es)) []

abbrev Writes : List Entry → Logger → Bytes → Type 0
Writes es l text =
    (l' : Logger) × (log_all es l ≡ some l')
    × HasFile l' (text ++ lines_of l.cfg l.min_level_now es)

line_after :
    (cfg : Config) (e : Entry) (text rest : Bytes)
    → (text ++ format_line cfg e.stamp e.tid e.lvl e.msg e.source) ++ rest
      ≡ text ++ (entry_text cfg e ++ (10 ∷ rest))
line_after cfg e text rest = rw (format_line-entry_text cfg e) (simp append_assoc)

log_all_lem :
    (es : List Entry) (l : Logger) (text : Bytes)
    → l.cfg.flush_always ≡ true
    → HasFile l text
    → All (λ e. e.lvl ≢ fatal) es
    → Writes es l text
unfolding log_all kept joined write_line
log_all_lem [] l text f h n = (l, refl, rw (append-nil text) h)
log_all_lem (e ∷ es) l text f h (ne, n) =
    let line = format_line l.cfg e.stamp e.tid e.lvl e.msg e.source in
    let (l', done, file) =
      log_all_lem es (write_line e.lvl line l) (text ++ line) f
        (write_line-file e.lvl line text l f h) n in
    elim (Bool-cases (is_kept l.min_level_now e)) [
      | inr below ↦ rw (below, log_below e l below) (log_all_lem es l text f h n)
      | inl above ↦ (
        l',
        rw (log_kept e l ne above) done,
        rw above
            (file ∙ ap (λ t. some (record { text = t; pending = [] })) (line_after l.cfg e text _)),
      )
    ]

-- Calls with no fatal entry among them, flushing on and an open file with nothing in its buffer: all
-- come back, and the file then has, after its old text, one line for each entry that the minimum
-- level lets through, in order. Read back by lines, what was added is these entries, when none of
-- their texts has a line break.
pub log_all-lines :
    (es : List Entry) (l : Logger) (text : Bytes)
    → l.cfg.flush_always ≡ true
    → l.file ≡ some (record { text = text; pending = [] })
    → All (λ e. e.lvl ≢ fatal) es
    → All (Without 10) (map (entry_text l.cfg) (kept l.min_level_now es))
    → (l' : Logger) × (added : Bytes) × (log_all es l ≡ some l')
      × (l'.file ≡ some (record { text = text ++ added; pending = [] }))
      × (getlines 10 added ≡ map (entry_text l.cfg) (kept l.min_level_now es))
unfolding getlines
log_all-lines es l text f h n one =
    let (l', done, file) = log_all_lem es l text f h n in
    let entries = map (entry_text l.cfg) (kept l.min_level_now es) in
    (
      l',
      lines_of l.cfg l.min_level_now es,
      done,
      file,
      getlines-joined 10 entries [] one ∙ append-nil entries,
    )
