-- ===== src/Ring/Padded.antt =====
-- ringlogger/ringlogger.go: what a reader gets of messages with space around them.
use wireguard_windows.Base.{
  ℕ, ◌+◌, ◌%◌, ◌≤◌, ◌<◌, true, false, List, [], ◌∷◌, ◌++◌, map, ok, ◌>>=◌, ◌≡◌, ◌≢◌, refl, ap, ap₂,
  ◌∙◌, arith, length, All, All-map, suc, append_assoc, sym,
}
use wireguard_windows.Base.Text.{
  Text, is_empty, is_space, trim_space, trim_left, trim_right, IsTrimmed, EndsWell, trim_left_id,
  trim_left-All, trim_right-All,
}
use wireguard_windows.Base.Text.Cuts.{Lacks}
use wireguard_windows.Ring.{LogMem, follow_from_cursor, max_lines}
use wireguard_windows.Ring.Follow.{
  Message, Call, IsCleanCall, message_of, shown_line, writer, write_all, follow_from_cursor_calls,
}

-- The bytes of a write: a text, and what stands before and behind it.
pub record Padded : Type 0 where
  pub before : Text
  pub text : Text
  pub behind : Text
  pub ts : ℕ

-- A text without a NUL that neither begins nor ends with space, between space, at a time other
-- than 0.
pub record IsPadded (w : Padded) : Type 0 where
  pub before_space : All (λ c. is_space c ≡ true) w.before
  pub behind_space : All (λ c. is_space c ≡ true) w.behind
  pub ne_nil : w.text ≢ []
  pub trimmed : IsTrimmed w.text
  pub no_nul : Lacks 0 w.text
  pub has_time : 1 ≤ w.ts

abbrev pub call_of : Padded → Call
call_of w = record { bytes = w.before ++ (w.text ++ w.behind); ts = w.ts }

abbrev pub text_of : Padded → Message
text_of w = record { text = w.text; time_ns = w.ts }

EndsWell-append : (s t : Text) → t ≢ [] → EndsWell is_space t → EndsWell is_space (s ++ t)
EndsWell-append [] t ne h = h
EndsWell-append (c ∷ []) [] ne h = absurd (ne refl)
EndsWell-append (c ∷ []) (d ∷ t) ne h = h
EndsWell-append (c ∷ d ∷ s) t ne h = EndsWell-append (d ∷ s) t ne h

-- Trimming leaves the text that neither begins nor ends with space.
trim_space-call_of : (w : Padded) → IsPadded w → trim_space (call_of w).bytes ≡ w.text
unfolding trim_space
trim_space-call_of w h =
    ap (λ s. trim_left is_space (trim_right is_space s))
      (sym (append_assoc w.before w.text w.behind))
    ∙ ap (trim_left is_space) (
        trim_right-All is_space (w.before ++ w.text) w.behind
          (EndsWell-append w.before w.text h.ne_nil h.trimmed.1) h.behind_space)
    ∙ trim_left-All is_space w.before w.text h.before_space
    ∙ trim_left_id is_space w.text h.trimmed.0

is_empty_ne : (s : Text) → s ≢ [] → is_empty s ≡ false
is_empty_ne [] h = absurd (h refl)
is_empty_ne (c ∷ s) h = refl

call_of-IsCleanCall : (w : Padded) → IsPadded w → IsCleanCall (call_of w)
call_of-IsCleanCall w h =
    let e = trim_space-call_of w h in
    record {
      not_blank = rw e (is_empty_ne w.text h.ne_nil);
      no_nul = rw e h.no_nul;
      has_time = h.has_time;
    }

messages-text_of :
    (ws : List Padded) → All IsPadded ws → map message_of (map call_of ws) ≡ map text_of ws
messages-text_of [] h = refl
messages-text_of (w ∷ ws) h =
    ap₂ ◌∷◌ (ap (λ t. timed t w.ts) (trim_space-call_of w h.0)) (messages-text_of ws h.1)
  where
    timed : Text → ℕ → Message
    timed t n = record { text = t; time_ns = n }

length-map_padded : (ws : List Padded) → length (map call_of ws) ≡ length ws
length-map_padded [] = refl
length-map_padded (w ∷ ws) = ap suc (length-map_padded ws)

-- A reader whose cursor is at the end of the log, and that follows it after fewer than `max_lines`
-- writes, gets for every write, in order, its time and its line: the tag in brackets, a space, and
-- the text without the space around it, cut to what is left of 511 bytes; and its cursor is at the
-- end again. No write fails. The tag has at most 5 bytes and no NUL, the log has `max_lines` lines,
-- no text is empty, begins or ends with space or holds a NUL, and no time is 0.
pub follow_from_cursor-write_all :
    (tag : Text) (ws : List Padded) (m : LogMem)
    → length tag ≤ 5
    → Lacks 0 tag
    → length m.lines ≡ max_lines
    → All IsPadded ws
    → length ws < max_lines
    → (write_all (map call_of ws) (writer tag m) >>= λ rl.
        ok (follow_from_cursor rl (m.next_index % max_lines)))
      ≡ ok (map (shown_line tag) (map text_of ws), (m.next_index + length ws) % max_lines)
follow_from_cursor-write_all tag ws m short clean_tag len clean few =
    let count = length-map_padded ws in
    let calls = All-map IsPadded IsCleanCall call_of ws call_of-IsCleanCall clean in
    follow_from_cursor_calls tag (map call_of ws) m short clean_tag len calls
      (omega (arith, count, few))
    ∙ ap ok (
        ap₂ (λ ms n. (map (shown_line tag) ms, (m.next_index + n) % max_lines))
          (messages-text_of ws clean) count)
