-- ===== src/Syntax/Scan.antt =====
-- ui/syntax/highlighter.go: `highlightConfig`, the state machine over the bytes of a text.
use wireguard_windows.Base.{
  ℕ, zero, suc, ◌+◌, Bool, true, false, not, ◌&&◌, ◌||◌, [], if◌then◌else◌, ◌==◌, length, Result,
  ok, ◌>>=◌,
}
use wireguard_windows.Base.Text.{Text}
use wireguard_windows.Syntax.{StringSpan, byte_at}
use wireguard_windows.Syntax.Fields.{
  Field, invalid, section_for_field, same_section, field, section_type,
}
use wireguard_windows.Syntax.Highlight.{
  Spans, section_name, field_name, comment, delimiter, error, validate_highlight, append, span,
  highlight_value,
}

pub data State : Type 0 where
  on_none on_key on_value on_comment on_section : State

-- The variables of `highlightConfig`.
pub record Scanner : Type 0 where
  pub ret : Spans
  pub current_span : StringSpan
  pub current_section : Field
  pub current_field : Field
  pub state : State
  pub len_at_last_space : ℕ
  pub equals_location : ℕ

abbrev pub initial : Scanner
initial = record {
  ret = [];
  current_span = span 0 0;
  current_section = invalid;
  current_field = invalid;
  state = on_none;
  len_at_last_space = 0;
  equals_location = 0;
}

unfoldable pub is_comment : State → Bool
is_comment on_comment = true
is_comment _ = false

unfoldable pub is_key : State → Bool
is_key on_key = true
is_key _ = false

module _ (b : Text) where
  -- The span that ends with a line, in front of a comment or at the end of the text.
  unfoldable pub flush : State → Scanner → Result ⊥ Scanner
  flush on_none k = ok k
  flush on_key k =
      ok (record k { ret = append k.ret (span k.current_span.s k.len_at_last_space) error })
  flush on_value k =
      if k.current_span.len == 0
      then ok (record k { ret = append k.ret (span k.equals_location 1) error })
      else highlight_value b (append k.ret (span k.equals_location 1) delimiter)
          (span k.current_span.s k.len_at_last_space) k.current_field
        >>= λ spans. ok (record k { ret = spans })
  flush on_section k =
      let name = span k.current_span.s k.len_at_last_space in
      let section = section_type b name in
      ok (record k {
        current_section = section;
        ret =
            append k.ret name
              (validate_highlight (not (same_section section invalid)) section_name);
      })
  flush on_comment k = ok (record k { ret = append k.ret k.current_span comment })

  -- What follows a flush at the byte at `i`: a comment or the next line.
  unfoldable pub start_line : ℕ → Scanner → Scanner
  start_line i k = record k {
    len_at_last_space = 0;
    current_field = invalid;
    current_span = if byte_at b i == b'#' then span i 1 else span (i + 1) 0;
    state = if byte_at b i == b'#' then on_comment else on_none;
  }

  unfoldable pub longer : Scanner → Scanner
  longer k = record k { current_span = span k.current_span.s (k.current_span.len + 1) }

  unfoldable pub on_blank : ℕ → Scanner → Scanner
  unfolding longer
  on_blank i k =
      if i == k.current_span.s && k.current_span.len == 0
      then record k { current_span = span (k.current_span.s + 1) k.current_span.len }
      else longer k

  unfoldable pub on_equals : ℕ → Scanner → Scanner
  on_equals i k =
      let name = span k.current_span.s k.len_at_last_space in
      let f = field b name in
      let section = section_for_field f in
      let wrong =
        same_section section invalid
        || same_section f invalid
        || not (same_section section k.current_section) in
      record k {
        current_field = f;
        ret = append k.ret name (if wrong then error else field_name);
        equals_location = i;
        current_span = span (i + 1) 0;
        state = on_value;
      }

  abbrev pub next_state : ℕ → State → State
  next_state c on_none = if c == b'[' then on_section else on_key
  next_state c s = s

  unfoldable pub on_other : ℕ → Scanner → Scanner
  on_other i k = record k {
    state = next_state (byte_at b i) k.state;
    current_span = span k.current_span.s (k.current_span.len + 1);
    len_at_last_space = k.current_span.len + 1;
  }

  -- One round of the loop, at a byte of the text.
  unfoldable pub scan_byte : ℕ → Scanner → Result ⊥ Scanner
  unfolding longer on_blank on_equals on_other
  scan_byte i k =
      let c = byte_at b i in
      if c == 10 || (not (is_comment k.state) && c == b'#')
      then (flush k.state k >>= λ k'. ok (start_line i k'))
      else if is_comment k.state
      then ok (longer k)
      else if c == b' ' || c == 9
      then ok (on_blank i k)
      else if c == b'=' && is_key k.state
      then ok (on_equals i k)
      else ok (on_other i k)

  -- The loop: `n` bytes are left, from `i` on.
  unfoldable pub scan_loop : ℕ → ℕ → Scanner → Result ⊥ Scanner
  scan_loop zero i k = ok k
  scan_loop (suc n) i k = scan_byte i k >>= λ k'. scan_loop n (i + 1) k'

-- `highlightConfig`
unfoldable pub highlight_config : Text → Result ⊥ Spans
highlight_config b = scan_loop b (length b) 0 initial >>= λ k. flush b k.state k >>= λ k'. ok k'.ret
