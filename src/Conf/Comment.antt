-- ===== src/Conf/Comment.antt =====
-- The comments of a wg-quick file in `FromWgQuick` of conf/parser.go: what is collected in front
-- of a line is attached to it, and the collected runs are pruned at the end.
use wireguard_windows.Base.{Bool, true, false, not, ◌&&◌, ◌||◌, List, [], ◌∷◌, ◌++◌, if◌then◌else◌}
use wireguard_windows.Base.Text.{Text, text_eq, is_empty}
use wireguard_windows.Conf.Types.{Comments, SectionComments, no_comments}

-- `Suffix` is set, or extended behind a space.
abbrev pub add_suffix : Text → Text → Text
add_suffix old [] = old
add_suffix [] (c ∷ comment) = c ∷ comment
add_suffix (d ∷ old) (c ∷ comment) = (d ∷ old) ++ (b' ' ∷ c ∷ comment)

unfoldable pub extend : Comments → List Text → Text → Comments
extend c pending comment = record {
  before = c.before ++ pending;
  suffix = add_suffix c.suffix comment;
}

-- `Lines[key]`, the zero value if the key is missing.
unfoldable pub line_comments : Text → List (Text × Comments) → Comments
line_comments key [] = no_comments
line_comments key ((k, c) ∷ rest) = if text_eq k key then c else line_comments key rest

unfoldable pub set_line : Text → Comments → List (Text × Comments) → List (Text × Comments)
set_line key c [] = (key, c) ∷ []
set_line key c ((k, d) ∷ rest) =
    if text_eq k key then (k, c) ∷ rest else (k, d) ∷ set_line key c rest

-- The comments in front of a setting and behind it go to its key.
unfoldable pub attach : Text → List Text → Text → SectionComments → SectionComments
unfolding extend line_comments set_line
attach key pending comment s =
    if not (is_empty pending) || not (is_empty comment)
    then record s {
      lines = set_line key (extend (line_comments key s.lines) pending comment) s.lines;
    }
    else s

abbrev last_is_blank : List Text → Bool
last_is_blank [] = false
last_is_blank (line ∷ []) = is_empty line
last_is_blank (line ∷ next ∷ lines) = last_is_blank (next ∷ lines)

-- The loop of `pruneComments`: a blank line behind a blank line is left out.
unfoldable pub squeeze : List Text → List Text → List Text
squeeze out [] = out
squeeze out (line ∷ run) =
    squeeze (if is_empty line && last_is_blank out then out else out ++ line ∷ []) run

abbrev drop_first_blank : List Text → List Text
drop_first_blank [] = []
drop_first_blank (line ∷ lines) = if is_empty line then lines else line ∷ lines

abbrev drop_last_blank : List Text → List Text
drop_last_blank [] = []
drop_last_blank (line ∷ []) = if is_empty line then [] else line ∷ []
drop_last_blank (line ∷ next ∷ lines) = line ∷ drop_last_blank (next ∷ lines)

-- A single blank line says nothing.
abbrev only_blank : List Text → List Text
only_blank [] = []
only_blank (line ∷ []) = if is_empty line then [] else line ∷ []
only_blank (line ∷ next ∷ lines) = line ∷ next ∷ lines

unfoldable pub prune_comments : List Text → Bool → Bool → List Text
unfolding squeeze
prune_comments run drop_leading drop_trailing =
    let out = squeeze [] run in
    let out = if drop_leading then drop_first_blank out else out in
    let out = if drop_trailing then drop_last_blank out else out in only_blank out

prune_lines : List (Text × Comments) → List (Text × Comments)
unfolding prune_comments
prune_lines [] = []
prune_lines ((key, c) ∷ rest) =
    let before = prune_comments c.before false false in
    let kept = prune_lines rest in
    if is_empty before && is_empty c.suffix
    then kept
    else (key, record { before = before; suffix = c.suffix }) ∷ kept

unfoldable pub prune_section_comments : SectionComments → SectionComments
unfolding prune_lines
prune_section_comments s = record {
  header = record { before = prune_comments s.header.before true false; suffix = s.header.suffix };
  lines = prune_lines s.lines;
}
