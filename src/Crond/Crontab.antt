-- ===== src/Crond/Crontab.antt =====
-- crond/crontab.go: the update of the own section of a crontab. What is written to the writer is
-- returned: the callers write into a buffer, which does not fail.
pub mod Section
pub mod Matching
pub mod Deleting
pub mod Described
use resticprofile.Base.{
  ℕ, zero, suc, ◌+◌, ◌-◌, Bool, true, false, not, ◌&&◌, ◌||◌, List, [], ◌∷◌, ◌++◌, Option, none,
  some, ltb, leb, ◌==◌, if◌then◌else◌, Text, codes, length,
}
use resticprofile.Text.{has_prefix, strip_prefix}
use resticprofile.Crond.Entry.{Entry, entry_string}

abbrev pub start_marker : Text
start_marker =
    codes "### this content was generated by resticprofile, please leave this line intact ###\n"

abbrev pub end_marker : Text
end_marker = codes "### end of resticprofile content, please leave this line intact ###\n"

abbrev pub after_one : Option ℕ → Option ℕ
after_one none = none
after_one (some i) = some (suc i)

-- strings.Index, the part looked for first.
unfoldable pub index : Text → Text → Option ℕ
index p [] = if has_prefix p [] then some 0 else none
index p (c ∷ s) = let rest = index p s in if has_prefix p (c ∷ s) then some 0 else after_one rest

abbrev pub take : ℕ → Text → Text
take zero s = []
take (suc n) [] = []
take (suc n) (c ∷ s) = c ∷ take n s

abbrev pub drop : ℕ → Text → Text
drop zero s = s
drop (suc n) [] = []
drop (suc n) (c ∷ s) = drop n s

-- What extractOwnSection returns, or the panic of a slice that ends before it starts.
pub data Extracted : Type 0 where
  no_section : Extracted
  section : (before own after : Text) → Extracted
  out_of_order : Extracted

unfoldable pub extract_at : Text → Option ℕ → Option ℕ → Extracted
extract_at s none last = no_section
extract_at s (some first) none = no_section
extract_at s (some first) (some last) =
    let own = first + length start_marker in
    if leb own last
    then section (take first s) (take (last - own) (drop own s)) (drop (last + length end_marker) s)
    else out_of_order

unfoldable pub extract_own_section : Text → Extracted
unfolding extract_at index
extract_own_section s = extract_at s (index start_marker s) (index end_marker s)

-- The pattern of deleteLine, piece by piece: each piece is followed by the rest of the pattern, and
-- the result is the text behind the match. `[^\n]*` takes as much as it can.
abbrev pub Pattern : Type 0
Pattern = Text → Option Text

abbrev pub or_else : Option Text → Option Text → Option Text
or_else none b = b
or_else (some a) b = some a

unfoldable pub literal : Text → Pattern → Pattern
literal p k s = elim (strip_prefix p s) [ none ↦ none | some rest ↦ k rest ]

unfoldable pub any_in_line : Pattern → Pattern
any_in_line k [] = k []
any_in_line k (c ∷ s) =
    let longer = any_in_line k s in if c == b'\n' then k (c ∷ s) else or_else longer (k (c ∷ s))

unfoldable pub some_in_line : Pattern → Pattern
unfolding any_in_line
some_in_line k [] = none
some_in_line k (c ∷ s) = if c == b'\n' then none else any_in_line k s

unfoldable pub not_hash : Pattern → Pattern
not_hash k [] = none
not_hash k (c ∷ s) = if c == b'#' then none else k s

unfoldable pub entry_pattern : Entry → Pattern
unfolding literal any_in_line some_in_line not_hash
entry_pattern e = not_hash (
    some_in_line (
      literal (codes "resticprofile") (
        some_in_line (
          literal (codes "--config " ++ (e.config_file ++ (codes " --name " ++ e.profile_name)))
            (any_in_line (literal (b' ' ∷ e.command_name ++ (b'\n' ∷ [])) some))))))

-- A match is looked for at the start of a line only.
unfoldable pub match_at : Entry → Bool → Text → Option Text
unfolding entry_pattern
match_at e at_start s = if at_start then entry_pattern e s else none

-- MatchString
unfoldable pub has_line : Entry → Bool → Text → Bool
unfolding match_at
has_line e at_start [] = false
has_line e at_start (c ∷ s) =
    let rest = has_line e (c == b'\n') s in
    elim (match_at e at_start (c ∷ s)) [ none ↦ rest | some _ ↦ true ]

-- ReplaceAllString with nothing; the number of bytes of a match that are still to be dropped counts
-- down.
unfoldable pub delete_from : Entry → Bool → ℕ → Text → Text
unfolding match_at
delete_from e at_start skipped [] = []
delete_from e at_start (suc skipped) (c ∷ s) = delete_from e (c == b'\n') skipped s
delete_from e at_start zero (c ∷ s) =
    let kept = delete_from e (c == b'\n') zero s in
    let shorter = λ (rest : Text). delete_from e (c == b'\n') (length s - length rest) s in
    elim (match_at e at_start (c ∷ s)) [ none ↦ c ∷ kept | some rest ↦ shorter rest ]

unfoldable pub delete_line : Text → Entry → Text × Bool
unfolding has_line delete_from
delete_line s e = if has_line e true s then (delete_from e true 0 s, true) else (s, false)

-- The loop over the entries: the text that is left, and the number of entries that were found.
unfoldable pub delete_entries : List Entry → Text → Text × ℕ
unfolding delete_line
delete_entries [] s = (s, 0)
delete_entries (e ∷ es) s =
    let (s', found) = delete_line s e in
    let (left, deleted) = delete_entries es s' in (left, if found then suc deleted else deleted)

unfoldable pub generate : List Entry → Text
unfolding entry_string
generate [] = []
generate (e ∷ es) = entry_string e ++ generate es

-- The number of deleted entries and what is written; nothing stands for the panic.
unfoldable pub update_parts : List Entry → Text → Bool → Extracted → Option (ℕ × Text)
unfolding delete_entries generate
update_parts entries source add_entries out_of_order = none
update_parts entries source add_entries no_section =
    let added = if add_entries then generate entries else [] in
    some (0, source ++ (b'\n' ∷ start_marker ++ (added ++ end_marker)))
update_parts entries source add_entries (section before own after) =
    let added = if add_entries then generate entries else [] in
    let (left, deleted) = delete_entries entries own in
    some (deleted, before ++ (start_marker ++ (left ++ (added ++ (end_marker ++ after)))))

unfoldable pub update : List Entry → Text → Bool → Option (ℕ × Text)
unfolding extract_own_section update_parts
update entries source add_entries =
    update_parts entries source add_entries (extract_own_section source)
