-- ===== src/Main/Arguments.antt =====
-- The command line.
use arcraven_ugv_core.Common.{◌≡◌, refl, ◌∙◌, false, List, [], ◌∷◌, Bytes, All}
use arcraven_ugv_core.Main.{is_same, data_dir_flag, parse_loop, default_data_dir, parse_args}

skips :
    (a : Bytes) (args : List Bytes) (d : Bytes)
    → is_same a data_dir_flag ≡ false
    → parse_loop (a ∷ args) d ≡ parse_loop args d
unfolding parse_loop
skips a [] d h = refl
skips a (b ∷ args) d h = rw (parse_loop, h) refl

takes :
    (value : Bytes) (args : List Bytes) (d : Bytes)
    → parse_loop (data_dir_flag ∷ value ∷ args) d ≡ parse_loop args value
unfolding parse_loop
takes value args d = refl

-- A command line by its meaning: the option with its value, and any other word.
pub data Item : Type 0 where
  sets : Bytes → Item
  other : Bytes → Item

pub words : List Item → List Bytes → List Bytes
words [] end = end
words (sets dir ∷ items) end = data_dir_flag ∷ dir ∷ words items end
words (other word ∷ items) end = word ∷ words items end

pub chosen : Bytes → List Item → Bytes
chosen d [] = d
chosen d (sets dir ∷ items) = chosen dir items
chosen d (other word ∷ items) = chosen d items

abbrev pub IsOther : Item → Type 0
IsOther (sets dir) = Unit
IsOther (other word) = is_same word data_dir_flag ≡ false

loop-chosen :
    (items : List Item) (end : List Bytes) (d : Bytes)
    → ((d : Bytes) → parse_loop end d ≡ d)
    → All IsOther items
    → parse_loop (words items end) d ≡ chosen d items
unfolding words chosen
loop-chosen [] end d e h = e d
loop-chosen (sets dir ∷ items) end d e (_, h) =
    takes dir (words items end) d ∙ loop-chosen items end dir e h
loop-chosen (other word ∷ items) end d e (hw, h) =
    skips word (words items end) d hw ∙ loop-chosen items end d e h

-- The data directory is the value of the last `--data-dir` that has one, whatever that value is
-- (`--data-dir` itself included), and the default without any; other words do not matter, and
-- neither does a `--data-dir` at the end with nothing behind it.
pub parse_args-chosen :
    (program : Bytes) (items : List Item)
    → All IsOther items
    → (parse_args (program ∷ words items []) ≡ chosen default_data_dir items)
      × (parse_args (program ∷ words items (data_dir_flag ∷ [])) ≡ chosen default_data_dir items)
unfolding parse_args parse_loop
parse_args-chosen program items h = (
  loop-chosen items [] default_data_dir (λ d. refl) h,
  loop-chosen items (data_dir_flag ∷ []) default_data_dir (λ d. refl) h,
)
