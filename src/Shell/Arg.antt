-- ===== src/Shell/Arg.antt =====
-- shell/arg.go: one argument, and how it is escaped for the shell.
pub mod Escaped
use resticprofile.Base.{
  ℕ, zero, suc, ◌+◌, Bool, true, false, not, ◌&&◌, ◌||◌, List, [], ◌∷◌, ◌++◌, ◌==◌, if◌then◌else◌,
  Text, codes, contains,
}
use resticprofile.Text.{text_eq}

pub data ArgType : Type 0 where
  config_escape config_keep_glob_quote command_line_escape config_backup_source : ArgType
  legacy_escape legacy_keep_glob_quote legacy_command_line_escape legacy_config_backup_source :
      ArgType

pub record Arg : Type 0 where
  pub raw : Text
  pub arg_type : ArgType

abbrev pub new_arg : Text → ArgType → Arg
new_arg raw arg_type = record { raw = raw; arg_type = arg_type }

abbrev pub backslash : ℕ
backslash = 92

abbrev double_quote : ℕ
double_quote = 34

-- escapeNoGlobCharacters
abbrev pub escape_no_glob_characters : List ℕ
escape_no_glob_characters = codes "|&;<>()$`\\\"' \t\r\n"

-- The characters of the second class of doubleQuotePattern.
abbrev quoted_characters : List ℕ
quoted_characters = codes "|&;<>()$'\" \t\r\n*?["

unfoldable pub has_value : Arg → Bool
has_value a = not (text_eq a.raw [])

-- A character that is no backslash, and one of the class behind it.
unfoldable pub double_quote_pattern : Text → Bool
unfolding contains
double_quote_pattern [] = false
double_quote_pattern (c ∷ []) = false
double_quote_pattern (c ∷ d ∷ s) =
    (not (c == backslash) && contains d quoted_characters) || double_quote_pattern (d ∷ s)

-- The inner loop of escapeString: a backslash for each match in the list.
unfoldable pub backslashes : ℕ → List ℕ → Text
backslashes c [] = []
backslashes c (d ∷ ds) = let rest = backslashes c ds in if c == d then backslash ∷ rest else rest

-- The outer loop; the Boolean says whether the number of backslashes just read is odd.
unfoldable pub escape_from : List ℕ → Bool → Text → Text
unfolding backslashes
escape_from chars odd [] = []
escape_from chars odd (c ∷ s) =
    let rest = escape_from chars (if c == backslash then not odd else false) s in
    if c == backslash then c ∷ rest else if odd then c ∷ rest else backslashes c chars ++ (c ∷ rest)

unfoldable pub escape_string : Text → List ℕ → Text
unfolding escape_from
escape_string s chars = escape_from chars false s

-- quoteArgument
unfoldable pub quote_argument : Text → Text
unfolding contains
quote_argument s = if contains b' ' s then double_quote ∷ s ++ (double_quote ∷ []) else s

-- The switch on the type.
unfoldable pub escape_value : ArgType → Text → Text
unfolding escape_string quote_argument double_quote_pattern
escape_value ArgType.config_keep_glob_quote s =
    if double_quote_pattern s
    then double_quote ∷ escape_string s (double_quote ∷ []) ++ (double_quote ∷ [])
    else s
escape_value ArgType.config_escape s = escape_string s escape_no_glob_characters
escape_value ArgType.command_line_escape s = escape_string s escape_no_glob_characters
escape_value ArgType.config_backup_source s = escape_string s escape_no_glob_characters
escape_value ArgType.legacy_escape s = quote_argument (escape_string s (b' ' ∷ []))
escape_value ArgType.legacy_keep_glob_quote s =
    quote_argument (escape_string s (b' ' ∷ b'*' ∷ b'?' ∷ []))
escape_value ArgType.legacy_config_backup_source s = escape_string s (b' ' ∷ [])
escape_value ArgType.legacy_command_line_escape s = s

-- `empty_marker` is the random text that stands for an empty value.
module _ (empty_marker : Text) where
  unfoldable pub value : Arg → Text
  value a = if text_eq a.raw empty_marker then [] else a.raw

  unfoldable pub new_empty_value_arg : Arg
  new_empty_value_arg = new_arg empty_marker ArgType.config_keep_glob_quote

  -- The Boolean tells the platform.
  unfoldable pub arg_string : Bool → Arg → Text
  unfolding value has_value escape_value
  arg_string is_windows a =
      if not (has_value a)
      then []
      else if text_eq (value a) []
      then double_quote ∷ double_quote ∷ []
      else if is_windows
      then value a
      else escape_value a.arg_type (value a)
