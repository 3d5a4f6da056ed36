-- ===== src/Ring.antt =====
-- ringlogger/ringlogger.go: the log in shared memory, a ring of lines that one process writes and
-- others follow. One writer at a time is modelled; the view of the file is the value of `log`.
pub mod Fill
pub mod Line
pub mod Bounds
pub mod Follow
pub mod Padded
use wireguard_windows.Base.{
  ℕ, zero, suc, ◌+◌, ◌-◌, ◌%◌, ◌^◌, Bool, true, false, not, ◌&&◌, List, [], ◌∷◌, ◌++◌, Option, none,
  some, Result, ok, err, panic, ◌>>=◌, if◌then◌else◌, ◌==◌, ltb, length, get_elem?, set, take, drop,
  replicate,
}
use wireguard_windows.Base.Text.{Text, is_empty, trim_space, index_byte}

abbrev pub max_log_line_length : ℕ
max_log_line_length = 512

abbrev pub max_tag_length : ℕ
max_tag_length = 5

abbrev pub max_lines : ℕ
max_lines = 2048

abbrev pub magic : ℕ
magic = 0xbadbabe

-- 2 ^ 32, as a `uint32` wraps at it.
abbrev pub u32 : ℕ
u32 = 2 ^ 32

-- `logLine`; a time of 0 marks a line that is not there.
pub record LogLine : Type 0 where
  pub time_ns : ℕ
  pub line : List ℕ

pub record LogMem : Type 0 where
  pub magic_is : ℕ
  pub next_index : ℕ
  pub lines : List LogLine

pub record Ringlogger : Type 0 where
  pub tag : Text
  pub log : Option LogMem
  pub read_only : Bool

abbrev pub empty_line : LogLine
empty_line = record { time_ns = 0; line = replicate max_log_line_length 0 }

-- What an opening fails with: `ERROR_LABEL_TOO_LONG`.
pub data OpenError : Type 0 where
  label_too_long : OpenError

-- `newRingloggerFromMappingHandle`: a file that does not begin with the magic is zeroed, which
-- faults in a view that is mapped for reading.
unfoldable pub new_ringlogger_from_mapping_handle :
    LogMem → Text → Bool → Result OpenError Ringlogger
new_ringlogger_from_mapping_handle m tag read_only =
    if m.magic_is == magic
    then ok (record { tag = tag; log = some m; read_only = read_only })
    else if read_only
    then panic
    else let zeroed = replicate max_lines empty_line in
      let m : LogMem = record { magic_is = magic; next_index = 0; lines = zeroed } in
      ok (record { tag = tag; log = some m; read_only = read_only })

-- `NewRinglogger`, on the file's bytes as a log.
unfoldable pub new_ringlogger : LogMem → Text → Result OpenError Ringlogger
new_ringlogger m tag =
    if ltb max_tag_length (length tag)
    then err label_too_long
    else new_ringlogger_from_mapping_handle m tag false

-- `NewRingloggerFromInheritedMappingHandle`, on the bytes behind the handle.
unfoldable pub new_ringlogger_from_inherited_mapping_handle :
    LogMem → Text → Result OpenError Ringlogger
new_ringlogger_from_inherited_mapping_handle m tag = new_ringlogger_from_mapping_handle m tag true

-- copy(bytes[at:], src): what does not fit is dropped.
unfoldable pub copy_at : ℕ → List ℕ → List ℕ → List ℕ
copy_at zero [] bytes = bytes
copy_at zero (c ∷ src) [] = []
copy_at zero (c ∷ src) (b ∷ bytes) = c ∷ copy_at zero src bytes
copy_at (suc i) src [] = []
copy_at (suc i) src (b ∷ bytes) = b ∷ copy_at i src bytes

-- What a write fails with: io.ErrShortWrite or io.EOF. The logger is as it was then.
pub data WriteError : Type 0 where
  short_write eof : WriteError

-- line.line[at] = c, whose index is checked.
unfoldable pub store : ℕ → ℕ → List ℕ → Result WriteError (List ℕ)
store at c bytes = if ltb at (length bytes) then ok (set bytes at c) else panic

-- copy(line.line[at:], src), whose bound is checked.
unfoldable pub store_from : ℕ → List ℕ → List ℕ → Result WriteError (List ℕ)
store_from at src bytes = if ltb (length bytes) at then panic else ok (copy_at at src bytes)

-- The message as far as it fits behind the tag, and the length of the text with its tag.
unfoldable pub fit : Text → Text → Result WriteError (Text × ℕ)
fit tag p =
    let text_len = 3 + length p + length tag in
    let end = max_log_line_length - 1 - 3 - length tag in
    if ltb (max_log_line_length - 1) text_len
    then (if ltb (max_log_line_length - 1) (3 + length tag)
        then panic
        else ok (take end p, max_log_line_length - 1))
    else ok (p, text_len)

-- The writes to `line.line`, in order; the opening bracket comes last.
unfoldable pub fill : Text → Text → Result WriteError (List ℕ)
unfolding fit store store_from
fill tag p = fit tag p >>= λ cut. store cut.1 0 (replicate max_log_line_length 0) >>= λ bytes.
    store 0 0 bytes >>= λ bytes. store_from 1 tag bytes >>= λ bytes.
    store (1 + length tag) b']' bytes >>= λ bytes. store (2 + length tag) b' ' bytes >>= λ bytes.
    store_from (3 + length tag) cut.0 bytes >>= λ bytes. store 0 b'[' bytes

-- The state of the log behind a write of a message that is not blank.
unfoldable pub push_line : Text → Text → ℕ → LogMem → Result WriteError LogMem
unfolding fill
push_line tag p ts m = fill tag p >>= λ bytes. ok (record m {
  next_index = (m.next_index + 1) % u32;
  lines = set m.lines (m.next_index % max_lines) (record { time_ns = ts; line = bytes });
})

unfoldable pub write_to_log :
    Text → ℕ → Text → Option LogMem → Ringlogger → Result WriteError (ℕ × Ringlogger)
unfolding push_line
write_to_log p ts trimmed none rl = err eof
write_to_log p ts trimmed (some m) rl =
    push_line rl.tag trimmed ts m >>= λ m. ok (length p, record rl { log = some m })

-- `WriteWithTimestamp`: the count it returns and the logger behind it.
unfoldable pub write_with_timestamp : Text → ℕ → Ringlogger → Result WriteError (ℕ × Ringlogger)
unfolding write_to_log
write_with_timestamp p ts rl =
    if rl.read_only
    then err short_write
    else let trimmed = trim_space p in
      if is_empty trimmed then ok (length p, rl) else write_to_log p ts trimmed rl.log rl

-- `FollowLine`, with its time stamp in nanoseconds.
pub record FollowLine : Type 0 where
  pub text : Text
  pub stamp : ℕ

-- The line up to its first NUL, if there is text in front of it.
text_entry : LogLine → Option ℕ → List FollowLine
text_entry l none = []
text_entry l (some zero) = []
text_entry l (some (suc n)) = record { text = take (suc n) l.line; stamp = l.time_ns } ∷ []

unfoldable pub entry : LogLine → List FollowLine
unfolding text_entry
entry l = text_entry l (index_byte 0 l.line)

-- `WriteTo`: the lines that are there, from the oldest on; `n` rounds are left.
write_to_loop : List LogLine → ℕ → ℕ → List FollowLine
write_to_loop lines zero i = []
write_to_loop lines (suc n) i =
    let rest = write_to_loop lines n ((i + 1) % u32) in
    elim (get_elem? lines (i % max_lines)) [
      | none ↦ []
      | some l ↦ if l.time_ns == 0 then rest else entry l ++ rest
    ]

unfoldable pub write_to : Ringlogger → Option (List FollowLine)
unfolding write_to_loop
write_to rl = elim rl.log [
  | none ↦ none
  | some m ↦ some (write_to_loop m.lines max_lines m.next_index)
]

abbrev pub cursor_all : ℕ
cursor_all = 2 ^ 32 - 1

-- The loop of `FollowFromCursor`: `n` rounds are left, `out` was found, `next` is the next cursor.
module _ (m : LogMem) (cursor : ℕ) where
  unfoldable pub follow_loop : ℕ → ℕ → List FollowLine → ℕ → List FollowLine × ℕ
  follow_loop zero i out next = (out, next)
  follow_loop (suc n) i out next = elim (get_elem? m.lines (i % max_lines)) [
    | none ↦ (out, next)
    | some l ↦
        let skip = follow_loop n ((i + 1) % u32) out next in
        let rest = follow_loop n ((i + 1) % u32) (out ++ entry l) ((i + 1) % u32 % max_lines) in
        if not (cursor == cursor_all) && i % max_lines == m.next_index % max_lines
        then (out, next)
        else if l.time_ns == 0
        then (if cursor == cursor_all then skip else (out, next))
        else rest
  ]

-- `FollowFromCursor`
unfoldable pub follow_from_cursor : Ringlogger → ℕ → List FollowLine × ℕ
follow_from_cursor rl cursor = elim rl.log [
  | none ↦ ([], cursor)
  | some m ↦
      follow_loop m cursor max_lines (if cursor == cursor_all then m.next_index else cursor) []
        cursor
]
