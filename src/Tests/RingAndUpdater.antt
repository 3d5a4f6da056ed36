-- ===== src/Tests/RingAndUpdater.antt =====
-- The theorems about ringlogger/ and updater/ at inputs that meet their hypotheses.
use wireguard_windows.Base.{
  panic, ◌>>=◌, All, List, [], ◌∷◌, ok, ◌≡◌, refl, map, length, replicate, arith, true, false, ◌+◌,
  ◌%◌, length-replicate,
}
use wireguard_windows.Base.Text.{codes, is_space, split}
use wireguard_windows.Base.Decimal.{parse_uint}
use wireguard_windows.Ring.{
  LogMem, LogLine, max_lines, empty_line, magic, new_ringlogger_from_mapping_handle,
  new_ringlogger_from_inherited_mapping_handle, follow_from_cursor,
}
use wireguard_windows.Ring.Follow.{Call, shown_line, writer, write_all}
use wireguard_windows.Ring.Padded.{Padded, IsPadded, call_of, text_of, follow_from_cursor-write_all}
use wireguard_windows.Updater.{part, newer_parts, version_newer, UpdateFound}
use wireguard_windows.Updater.Order.{version_newer_asymm}

blank_lines : List LogLine
blank_lines = replicate max_lines empty_line

blank_lines-length : length blank_lines ≡ max_lines
unfolding blank_lines
blank_lines-length = length-replicate max_lines empty_line

-- A file that another program wrote: no magic, and the index about to wrap.
abbrev stale : LogMem
stale = record { magic_is = 7; next_index = 0xffff_ffff; lines = blank_lines }

abbrev zeroed : LogMem
zeroed = record { magic_is = magic; next_index = 0; lines = replicate max_lines empty_line }

-- A reader's view of such a file cannot be zeroed.
reader_faults : new_ringlogger_from_inherited_mapping_handle stale (codes "GUI") ≡ panic
unfolding new_ringlogger_from_inherited_mapping_handle new_ringlogger_from_mapping_handle
reader_faults = refl

abbrev up : Padded
up = record { before = []; text = codes "up"; behind = codes "\n"; ts = 5 }

abbrev down : Padded
down = record { before = codes " "; text = codes "down"; behind = []; ts = 9 }

-- A message of 600 bytes, which is cut.
abbrev long_message : Call
long_message = record { bytes = replicate 600 b'x'; ts = 7 }

writes-ArePadded : All IsPadded (up ∷ down ∷ [])
unfolding is_space
writes-ArePadded = (
  record {
    before_space = tt;
    behind_space = (refl, tt);
    ne_nil = λ e. cc;
    trimmed = (refl, refl);
    no_nul = (refl, (refl, tt));
    has_time = omega arith;
  },
  (
    record {
      before_space = (refl, tt);
      behind_space = tt;
      ne_nil = λ e. cc;
      trimmed = (refl, refl);
      no_nul = (refl, (refl, (refl, (refl, tt))));
      has_time = omega arith;
    },
    tt,
  ),
)

-- Two messages, the index of the next line wrapping between them.
follow_from_cursor-write_all_example :
    (write_all (map call_of (up ∷ down ∷ [])) (writer (codes "GUI") stale) >>= λ rl.
    ok (follow_from_cursor rl (0xffff_ffff % max_lines)))
    ≡ ok (
      map (shown_line (codes "GUI")) (map text_of (up ∷ down ∷ [])),
      (0xffff_ffff + 2) % max_lines,
    )
follow_from_cursor-write_all_example =
    follow_from_cursor-write_all (codes "GUI") (up ∷ down ∷ []) stale (omega arith)
      (refl, (refl, (refl, tt))) blank_lines-length writes-ArePadded (omega arith)

is_newer : version_newer (codes "0.10") (codes "0.9.7") ≡ ok true
unfolding version_newer newer_parts split part parse_uint
is_newer = refl

version_newer_asymm_example : version_newer (codes "0.9.7") (codes "0.10") ≡ ok false
version_newer_asymm_example = version_newer_asymm (codes "0.10") (codes "0.9.7") is_newer

abbrev update : UpdateFound
update = record { name = codes "wireguard-amd64-0.10.msi"; hash = [] }

abbrev listed : List UpdateFound
listed = record { name = codes "wireguard-arm64-0.11.msi"; hash = [] } ∷ update ∷ []
