-- ===== src/Tests/Sample.antt =====
-- A `Std` that runs: IPv4 and IPv6 addresses are a letter and a number, keys are text padded to
-- 32 bytes, and no URL is read.
use wireguard_windows.Base.{
  ◌-◌, [], ◌∷◌, ◌++◌, Option, none, some, if◌then◌else◌, ◌==◌, length, take, replicate,
}
use wireguard_windows.Base.Text.{Text, codes, cut}
use wireguard_windows.Base.Decimal.{decimal, parse_nat}
use wireguard_windows.Conf.Types.{Addr, none_addr, v4, v6, Prefix}
use wireguard_windows.Conf.Values.{Std}

addr_of_text : Text → Option Addr
unfolding parse_nat
addr_of_text [] = none
addr_of_text (c ∷ s) = elim (parse_nat s) [
  | none ↦ none
  | some n ↦ if c == b'f' then some (v4 n) else if c == b':' then some (v6 n []) else none
]

text_of_addr : Addr → Text
unfolding decimal
text_of_addr none_addr = codes "invalid IP"
text_of_addr (v4 n) = b'f' ∷ decimal n
text_of_addr (v6 n z) = b':' ∷ decimal n

prefix_of_text : Text → Option Prefix
unfolding addr_of_text cut
prefix_of_text s = elim (cut b'/' s).1 [
  | none ↦ none
  | some bits ↦ elim (addr_of_text (cut b'/' s).0) [
    | none ↦ none
    | some a ↦ elim (parse_nat bits) [ none ↦ none | some n ↦ some (record { addr = a; bits = n }) ]
  ]
]

unfoldable pub sample : Std
unfolding addr_of_text text_of_addr prefix_of_text
sample = record {
  parse_addr = addr_of_text;
  parse_prefix = prefix_of_text;
  addr_string = text_of_addr;
  base64_decode = λ s. some (s ++ replicate (32 - length s) 7);
  base64_encode = λ k. take 32 k;
  parse_url = λ s. none;
}
