-- ===== src/Recovery/Orphans.antt =====
-- crates/ciacola-core/src/recover.rs: `kill_orphans`. The process table (the lines of `ps`, if it could
-- be run), the test whether a provider owns a line, and whether a `kill` succeeds are parameters.
use Prim.Native.Char.{code}
use ciacola.Base.{
  ℕ, zero, suc, ◌+◌, String, Bool, true, false, ◌&&◌, ◌||◌, Option, none, some, List, [], ◌∷◌,
  if◌then◌else◌, ltb, eqb,
}
use ciacola.Base.Text.{is_whitespace, is_empty, trim_start}

-- the bytes of a character in UTF-8
abbrev utf8_len : ℕ → ℕ
utf8_len c = if ltb c 0x80 then 1 else if ltb c 0x800 then 2 else if ltb c 0x10000 then 3 else 4

-- `str::len`
unfoldable pub byte_len : String → ℕ
byte_len String.[] = 0
byte_len (String.◌∷◌ c s) = utf8_len (code c) + byte_len s

-- `lines().next().unwrap_or_default()`: the text before the first `\n`, or `\r\n`
unfoldable pub first_line : String → String
first_line String.[] = String.[]
first_line (String.◌∷◌ c String.[]) = if eqb (code c) 10 then String.[] else String.◌∷◌ c String.[]
first_line (String.◌∷◌ c (String.◌∷◌ d s)) =
    let rest = first_line (String.◌∷◌ d s) in
    if eqb (code c) 10
    then String.[]
    else if eqb (code c) 13 && eqb (code d) 10
    then String.[]
    else String.◌∷◌ c rest

-- `chars().take(n).collect()`
unfoldable pub take_chars : ℕ → String → String
take_chars zero s = String.[]
take_chars (suc n) String.[] = String.[]
take_chars (suc n) (String.◌∷◌ c s) = String.◌∷◌ c (take_chars n s)

unfoldable pub starts_with : String → String → Bool
starts_with String.[] s = true
starts_with (String.◌∷◌ c p) String.[] = false
starts_with (String.◌∷◌ c p) (String.◌∷◌ d s) = eqb (code c) (code d) && starts_with p s

-- `line.contains(needle)`
unfoldable pub contains_text : String → String → Bool
unfolding starts_with
contains_text needle String.[] = is_empty needle
contains_text needle (String.◌∷◌ d s) =
    starts_with needle (String.◌∷◌ d s) || contains_text needle s

-- the characters before the first white space
unfoldable pub first_word : String → String
first_word String.[] = String.[]
first_word (String.◌∷◌ c s) =
    let rest = first_word s in if is_whitespace (code c) then String.[] else String.◌∷◌ c rest

-- `line.split_whitespace().next()`
unfoldable pub pid_of : String → Option String
unfolding first_word
pid_of line = let word = first_word (trim_start line) in if is_empty word then none else some word

-- what the model does not own
pub record System : Type 0 where
  pub processes : Option (List String)
  pub owns_process : String → String → Bool
  pub kill : String → Bool

unfoldable pub kill_lines : System → String → String → List String → ℕ
unfolding pid_of contains_text
kill_lines sys provider needle [] = 0
kill_lines sys provider needle (line ∷ lines) =
    let rest = kill_lines sys provider needle lines in
    if sys.owns_process provider line && contains_text needle line
    then elim (pid_of line) [ none ↦ rest | some pid ↦ (if sys.kill pid then 1 else 0) + rest ]
    else rest

unfoldable pub needle_of : String → String
unfolding first_line take_chars
needle_of prompt = take_chars 60 (first_line prompt)

-- `kill_orphans`
unfoldable pub kill_orphans : System → String → String → ℕ × Bool
unfolding kill_lines needle_of byte_len
kill_orphans sys provider prompt =
    let needle = needle_of prompt in
    if ltb (byte_len needle) 12 then (0, false) else elim sys.processes [
      | none ↦ (0, false)
      | some lines ↦ (kill_lines sys provider needle lines, true)
    ]
