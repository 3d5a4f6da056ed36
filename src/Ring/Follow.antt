-- ===== src/Ring/Follow.antt =====
-- ringlogger/ringlogger.go: what a reader that follows the log gets.
use wireguard_windows.Base.{
  Result, ok, ◌>>=◌, set, ℕ, zero, suc, ◌+◌, ◌%◌, ◌≤◌, ◌<◌, false, List, [], ◌∷◌, ◌++◌, map, some,
  ◌==◌, ◌≡◌, refl, ap, ◌∙◌, arith, length, get_elem?, append-nil, append_assoc, get_elem?-set_self,
  get_elem?-set_ne, length-set, All, All-map,
}
use wireguard_windows.Base.Text.{Text, is_empty, trim_space}
use wireguard_windows.Base.Text.Cuts.{Lacks}
use wireguard_windows.Ring.Fill.{shown, line_of, fill-written}
use wireguard_windows.Ring.Line.{entry-line_of}
use wireguard_windows.Ring.{
  LogLine, LogMem, Ringlogger, FollowLine, WriteError, write_with_timestamp, write_to_log,
  follow_from_cursor, push_line, follow_loop, cursor_all, u32, max_lines,
}

-- A message as it is written: its text is trimmed and has no NUL, its time is not 0.
pub record Message : Type 0 where
  pub text : Text
  pub time_ns : ℕ

pub record IsClean (msg : Message) : Type 0 where
  pub no_nul : Lacks 0 msg.text
  pub has_time : 1 ≤ msg.time_ns

module _ (tag : Text) where
  -- The log behind a write of the message.
  abbrev pub push : Message → LogMem → LogMem
  push msg m = record m {
    next_index = (m.next_index + 1) % u32;
    lines = set m.lines (m.next_index % max_lines) (line_of tag msg.text msg.time_ns);
  }

  unfoldable pub push_all : List Message → LogMem → LogMem
  push_all [] m = m
  push_all (msg ∷ msgs) m = push_all msgs (push msg m)

  abbrev pub shown_line : Message → FollowLine
  shown_line msg = record { text = shown tag msg.text; stamp = msg.time_ns }

  -- The messages stand in the ring from position `a` on.
  abbrev Stored : List LogLine → ℕ → List Message → Type 0
  Stored lines a [] = Unit
  Stored lines a (msg ∷ msgs) =
      (get_elem? lines (a % max_lines) ≡ some (line_of tag msg.text msg.time_ns))
      × Stored lines (a + 1) msgs

  push-length : (msg : Message) (m : LogMem) → length (push msg m).lines ≡ length m.lines
  push-length msg m = length-set m.lines (m.next_index % max_lines) _

  push-next :
      (msg : Message) (m : LogMem) (a : ℕ)
      → m.next_index % max_lines ≡ a % max_lines
      → (push msg m).next_index % max_lines ≡ (a + 1) % max_lines
  push-next msg m a h = omega arith

  -- Fewer messages than the ring has lines do not reach the line that stands before them.
  push_all-keeps :
      (msgs : List Message) (m : LogMem) (a b : ℕ)
      → m.next_index % max_lines ≡ b % max_lines
      → a < b
      → b + length msgs ≤ a + max_lines
      → get_elem? (push_all msgs m).lines (a % max_lines) ≡ get_elem? m.lines (a % max_lines)
  unfolding push_all
  push_all-keeps [] m a b h lt le = refl
  push_all-keeps (msg ∷ msgs) m a b h lt le =
      push_all-keeps msgs (push msg m) a (b + 1) (push-next msg m b h) (omega arith) (omega arith)
      ∙ get_elem?-set_ne m.lines (line_of tag msg.text msg.time_ns) (λ e. omega arith)

  push_all-Stored :
      (msgs : List Message) (m : LogMem) (a : ℕ)
      → length m.lines ≡ max_lines
      → m.next_index % max_lines ≡ a % max_lines
      → length msgs < max_lines
      → Stored (push_all msgs m).lines a msgs
  unfolding push_all
  push_all-Stored [] m a len h lt = tt
  push_all-Stored (msg ∷ msgs) m a len h lt = (
    push_all-keeps msgs (push msg m) a (a + 1) (push-next msg m a h) (omega arith) (omega arith)
        ∙ here,
    push_all-Stored msgs (push msg m) (a + 1) (push-length msg m ∙ len) (push-next msg m a h)
        (omega arith),
  )
    where
      here : get_elem? (push msg m).lines (a % max_lines) ≡ some (line_of tag msg.text msg.time_ns)
      here = rw (← h) (get_elem?-set_self m.lines (m.next_index % max_lines) _ (omega arith))

  push_all-next :
      (msgs : List Message) (m : LogMem) (a : ℕ)
      → m.next_index % max_lines ≡ a % max_lines
      → (push_all msgs m).next_index % max_lines ≡ (a + length msgs) % max_lines
  unfolding push_all
  push_all-next [] m a h = omega arith
  push_all-next (msg ∷ msgs) m a h =
      omega (arith, push_all-next msgs (push msg m) (a + 1) (push-next msg m a h))

  module _ (short : length tag ≤ 5) (clean_tag : Lacks 0 tag) (m : LogMem) (cursor : ℕ)
      (some_cursor : cursor < max_lines) where
    follow_loop-Stored :
        (msgs : List Message) (n i a : ℕ) (out : List FollowLine)
        → All IsClean msgs
        → Stored m.lines a msgs
        → i % max_lines ≡ a % max_lines
        → m.next_index % max_lines ≡ (a + length msgs) % max_lines
        → length msgs < max_lines
        → length msgs < n
        → follow_loop m cursor n i out (a % max_lines)
          ≡ (out ++ map shown_line msgs, (a + length msgs) % max_lines)
    unfolding follow_loop
    follow_loop-Stored msgs zero i a out c st hi hn lt room = absurd (omega arith)
    follow_loop-Stored [] (suc n) i a out c st hi hn lt room = ground (arith, append-nil out)
    follow_loop-Stored (msg ∷ msgs) (suc n) i a out c st hi hn lt room =
        let line = line_of tag msg.text msg.time_ns in
        let found : get_elem? m.lines (i % max_lines) ≡ some line = rw hi st.0 in
        let shows = entry-line_of tag msg.text msg.time_ns short clean_tag c.0.no_nul in
        let later =
          follow_loop-Stored msgs n ((i + 1) % u32) (a + 1) (out ++ shown_line msg ∷ []) c.1 st.1
            (omega arith) (omega arith) (omega arith) (omega arith) in
        let time = c.0.has_time in
        ground
          (arith, found, shows, later, append_assoc out (shown_line msg ∷ []) (map shown_line msgs))

-- One call of `WriteWithTimestamp`: the bytes and the time.
pub record Call : Type 0 where
  pub bytes : Text
  pub ts : ℕ

-- A message that is not blank and holds no NUL, at a time other than 0.
pub record IsCleanCall (c : Call) : Type 0 where
  pub not_blank : is_empty (trim_space c.bytes) ≡ false
  pub no_nul : Lacks 0 (trim_space c.bytes)
  pub has_time : 1 ≤ c.ts

abbrev pub message_of : Call → Message
message_of c = record { text = trim_space c.bytes; time_ns = c.ts }

-- The writes in their order, each on the logger that the one before it left.
unfoldable pub write_all : List Call → Ringlogger → Result WriteError Ringlogger
write_all [] rl = ok rl
write_all (c ∷ calls) rl =
    write_with_timestamp c.bytes c.ts rl >>= λ written. write_all calls written.1

-- A log that is open for writing.
abbrev pub writer : Text → LogMem → Ringlogger
writer tag m = record { tag = tag; log = some m; read_only = false }

write-push :
    (tag : Text) (m : LogMem) (c : Call)
    → length tag ≤ 5
    → IsCleanCall c
    → write_with_timestamp c.bytes c.ts (writer tag m)
      ≡ ok (length c.bytes, writer tag (push tag (message_of c) m))
unfolding write_with_timestamp write_to_log push_line
write-push tag m c short h = rw (h.not_blank, fill-written tag (trim_space c.bytes) short) refl

write_all-push_all :
    (tag : Text) (calls : List Call) (m : LogMem)
    → length tag ≤ 5
    → All IsCleanCall calls
    → write_all calls (writer tag m) ≡ ok (writer tag (push_all tag (map message_of calls) m))
unfolding write_all push_all
write_all-push_all tag [] m short h = refl
write_all-push_all tag (c ∷ calls) m short h =
    rw (write-push tag m c short h.0)
      (write_all-push_all tag calls (push tag (message_of c) m) short h.1)

length-map_calls : (calls : List Call) → length (map message_of calls) ≡ length calls
length-map_calls [] = refl
length-map_calls (c ∷ calls) = ap suc (length-map_calls calls)

-- A reader whose cursor is at the end of the log, and that follows it after fewer than `max_lines`
-- writes: it gets a line for every write, in order, and is at the end again.
pub follow_from_cursor_calls :
    (tag : Text) (calls : List Call) (m : LogMem)
    → length tag ≤ 5
    → Lacks 0 tag
    → length m.lines ≡ max_lines
    → All IsCleanCall calls
    → length calls < max_lines
    → (write_all calls (writer tag m) >>= λ rl.
        ok (follow_from_cursor rl (m.next_index % max_lines)))
      ≡ ok (map (shown_line tag) (map message_of calls), (m.next_index + length calls) % max_lines)
follow_from_cursor_calls tag calls m short clean_tag len clean few =
    let msgs = map message_of calls in
    let count = length-map_calls calls in
    let m' = push_all tag msgs m in
    let c = m.next_index % max_lines in
    let clean' =
      All-map IsCleanCall IsClean message_of calls
        (λ c h. record { no_nul = h.no_nul; has_time = h.has_time }) clean in
    let stored = push_all-Stored tag msgs m m.next_index len refl (omega arith) in
    let next = push_all-next tag msgs m m.next_index refl in
    let followed =
      follow_loop-Stored tag short clean_tag m' c (omega arith) msgs max_lines c m.next_index []
        clean' stored (omega arith) next (omega arith) (omega arith) in
    let not_all : (c == cursor_all) ≡ false = ground arith in
    rw (write_all-push_all tag calls m short clean) (
      ap ok (
        from_cursor m' c not_all
        ∙ followed
        ∙ ap (λ k. (map (shown_line tag) msgs, (m.next_index + k) % max_lines)) count))
  where
    from_cursor :
        (m' : LogMem) (c : ℕ)
        → (c == cursor_all) ≡ false
        → follow_from_cursor (writer tag m') c ≡ follow_loop m' c max_lines c [] c
    from_cursor m' c e = unfold follow_from_cursor in rw e
