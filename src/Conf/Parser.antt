-- ===== src/Conf/Parser.antt =====
-- conf/parser.go: `FromWgQuick`. A line is first read as a `Line`, with no regard to the state of
-- the parser (`read_line`), which then acts on it (`exec`).
pub mod Sound
pub mod Total
use wireguard_windows.Base.{
  Bool, true, false, not, ◌&&◌, List, [], ◌∷◌, ◌++◌, map, Option, none, some, if◌then◌else◌, ok,
  panic, ◌>>=◌,
}
use wireguard_windows.Base.Text.{
  Text, codes, text_eq, is_empty, to_lower, trim_space, trim_right, is_blank, cut, split,
}
use wireguard_windows.Conf.Types.{
  Config, Interface, Peer, SectionComments, empty_interface, empty_peer, is_zero,
}
use wireguard_windows.Conf.Values.{
  Std, Parsed, fail, invalid_name, outside_section, missing_equals, missing_value,
  invalid_interface_key, invalid_peer_key, no_private_key, no_public_key,
}
use wireguard_windows.Conf.Keys.{InterfaceKey, PeerKey, interface_key, peer_key, is_hook}
use wireguard_windows.Conf.Comment.{add_suffix, attach, prune_comments, prune_section_comments}
use wireguard_windows.Conf.Settings.{validate_web_socket_peer, set_interface, set_peer}
use wireguard_windows.Conf.Name.{tunnel_name_is_valid}

-- What stands on a line, with its comment ("" or '#' and text).
pub data Line : Type 0 where
  blank : Text → Line
  interface_header : Text → Line
  peer_header : Text → Line
  no_equals : Text → Line
  setting : Text → Text → Text → Text → Line

abbrev comment_of : Option Text → Text
comment_of none = []
comment_of (some after) = b'#' ∷ trim_right is_blank after

abbrev text_or_nil : Option Text → Text
text_or_nil none = []
text_or_nil (some t) = t

-- A line without '=', by its lower-case text.
bare_line : Text → Text → Text → Line
bare_line stripped key comment =
    if text_eq key (codes "[interface]")
    then interface_header comment
    else if text_eq key (codes "[peer]")
    then peer_header comment
    else no_equals stripped

-- The value of a command is taken from the whole line, which then has no comment.
setting_line : Text → Text → Text → Text → Text → Line
setting_line line stripped key val comment =
    if is_hook key
    then setting stripped key (trim_space (text_or_nil (cut b'=' line).1)) []
    else setting stripped key (trim_space val) comment

stripped_line : Text → Text → Text → Line
unfolding bare_line setting_line
stripped_line line stripped comment =
    let (key, val) = cut b'=' stripped in
    let key = to_lower (trim_space key) in
    elim val [
      | none ↦ bare_line stripped key comment
      | some val ↦ setting_line line stripped key val comment
    ]

unfoldable pub read_line : Text → Line
unfolding stripped_line
read_line line =
    let (code, after) = cut b'#' line in
    let comment = comment_of after in
    let stripped = trim_space code in
    if is_empty stripped then blank comment else stripped_line line stripped comment

pub data Section : Type 0 where
  in_interface in_peer not_in_a_section : Section

-- The variables of `FromWgQuick`.
pub record Parser : Type 0 where
  pub conf : Config
  pub section : Section
  pub saw_private_key : Bool
  pub peer : Option Peer
  pub peer_ws_keys : List Text
  pub pending_comments : List Text

abbrev pub initial : Text → Parser
initial name = record {
  conf = record {
    name = name;
    interface = empty_interface;
    peers = [];
    ws_tls_files = [];
    trailing_comments = [];
  };
  section = not_in_a_section;
  saw_private_key = false;
  peer = none;
  peer_ws_keys = [];
  pending_comments = [];
}

abbrev pub with_interface : Parser → Interface → Parser
with_interface s i = let c = s.conf in record s { conf = record c { interface = i } }

abbrev add_peer : Config → Peer → Config
add_peer c p = record c { peers = c.peers ++ p ∷ [] }

-- `finishPeer` on the current peer.
unfoldable pub finish_peer_of : Option Peer → Parser → Parsed Parser
finish_peer_of none s = ok (record s { peer = none; peer_ws_keys = [] })
finish_peer_of (some p) s = validate_web_socket_peer p s.peer_ws_keys >>= λ _.
    ok (record s { conf = add_peer s.conf p; peer = none; peer_ws_keys = [] })

abbrev pub finish_peer : Parser → Parsed Parser
finish_peer s = finish_peer_of s.peer s

extend_header : SectionComments → List Text → Text → SectionComments
extend_header c pending comment =
    let h = c.header in
    record c {
      header = record h { before = h.before ++ pending; suffix = add_suffix h.suffix comment };
    }

pub open_interface : Text → Parser → Parser
unfolding extend_header
open_interface comment s =
    let i = s.conf.interface in
    let s' =
      with_interface s
        (record i { comments = extend_header i.comments s.pending_comments comment }) in
    record s' { section = in_interface; pending_comments = [] }

pub open_peer : Text → Parser → Parser
open_peer comment s =
    let p = empty_peer in
    record s {
      peer = some (record p {
        comments = record {
          header = record { before = s.pending_comments; suffix = comment };
          lines = [];
        };
      });
      section = in_peer;
      pending_comments = [];
    }

no_equals_in : Section → Text → Parsed Parser
no_equals_in not_in_a_section stripped = fail outside_section stripped
no_equals_in _ stripped = fail missing_equals stripped

all_have_public_keys : List Peer → Bool
all_have_public_keys [] = true
all_have_public_keys (p ∷ ps) = not (is_zero p.public_key) && all_have_public_keys ps

prune_peer : Peer → Peer
prune_peer p = record p { comments = prune_section_comments p.comments }

prune_config : List Text → Config → Config
unfolding prune_peer
prune_config pending c =
    let i = c.interface in
    record c {
      trailing_comments = prune_comments pending false true;
      interface = record i { comments = prune_section_comments i.comments };
      peers = map prune_peer c.peers;
    }

check_config : Bool → Config → Parsed Config
unfolding all_have_public_keys
check_config saw_private_key c =
    if not saw_private_key
    then fail no_private_key (codes "[none specified]")
    else if not (all_have_public_keys c.peers)
    then fail no_public_key (codes "[none specified]")
    else ok c

-- What `FromWgQuick` does behind the loop.
unfoldable pub finish : Parser → Parsed Config
unfolding finish_peer_of prune_config check_config
finish s = do
  s' ← finish_peer s
  check_config s'.saw_private_key (prune_config s'.pending_comments s'.conf)

module _ (std : Std) where
  -- The `switch key` of an [Interface] section, on the interface with its new comments.
  set_in_interface : Text → Option InterfaceKey → Text → Interface → Parser → Parsed Parser
  set_in_interface key none val i s = fail invalid_interface_key key
  set_in_interface key (some k) val i s = set_interface std k val (i, s.saw_private_key) >>= λ r.
      let s' = with_interface s r.0 in
      ok (record s' { saw_private_key = r.1; pending_comments = [] })

  interface_setting : Text → Text → Text → Parser → Parsed Parser
  unfolding set_in_interface
  interface_setting key val comment s =
      let i = s.conf.interface in
      set_in_interface key (interface_key key) val
        (record i { comments = attach key s.pending_comments comment i.comments }) s

  -- The `switch key` of a [Peer] section.
  set_in_peer : Text → Option PeerKey → Text → Peer → Parser → Parsed Parser
  set_in_peer key none val p s = fail invalid_peer_key key
  set_in_peer key (some k) val p s = set_peer std k val (p, s.peer_ws_keys) >>= λ r.
      ok (record s { peer = some r.0; peer_ws_keys = r.1; pending_comments = [] })

  -- Without a peer the source would follow a nil pointer.
  peer_setting : Text → Text → Text → Parser → Option Peer → Parsed Parser
  unfolding set_in_peer
  peer_setting key val comment s none = panic
  peer_setting key val comment s (some p) =
      set_in_peer key (peer_key key) val
        (record p { comments = attach key s.pending_comments comment p.comments }) s

  setting_in : Section → Text → Text → Text → Text → Parser → Parsed Parser
  unfolding interface_setting peer_setting
  setting_in not_in_a_section stripped key val comment s = fail outside_section stripped
  setting_in in_interface stripped key val comment s =
      if is_empty val then fail missing_value stripped else interface_setting key val comment s
  setting_in in_peer stripped key val comment s =
      if is_empty val then fail missing_value stripped else peer_setting key val comment s s.peer

  -- The body of the loop over the lines.
  unfoldable pub exec : Line → Parser → Parsed Parser
  unfolding finish_peer_of open_interface open_peer setting_in no_equals_in
  exec (blank comment) s = ok (record s { pending_comments = s.pending_comments ++ comment ∷ [] })
  exec (interface_header comment) s = do s' ← finish_peer s; ok (open_interface comment s')
  exec (peer_header comment) s = do s' ← finish_peer s; ok (open_peer comment s')
  exec (no_equals stripped) s = no_equals_in s.section stripped
  exec (setting stripped key val comment) s = setting_in s.section stripped key val comment s

  unfoldable pub exec_all : List Text → Parser → Parsed Parser
  exec_all [] s = ok s
  exec_all (line ∷ lines) s = do s' ← exec (read_line line) s; exec_all lines s'

  unfoldable pub from_wg_quick : Text → Text → Parsed Config
  unfolding exec_all finish
  from_wg_quick s name =
      if not (tunnel_name_is_valid name)
      then fail invalid_name name
      else exec_all (split 10 s) (initial name) >>= finish
