-- ===== src/Endpoint.antt =====
-- pkg/hanet/endpoint.go: network addresses. What url.Parse makes of an address with a scheme, its
-- Scheme and Host or none for an error, is an argument; strings.TrimSpace, net.SplitHostPort and
-- net.JoinHostPort are written out on bytes. An error keeps its kind.
pub mod Trimming
pub mod Splitting
pub mod Parsing
mod Tests
use dbha.Prelude.{
  ℕ, zero, suc, ◌+◌, ℤ, pos, negsuc, ltb_ℤ, ltb, leb, List, [], ◌∷◌, ◌++◌, Option, none, some, Bool,
  true, false, not, ◌==◌, ◌&&◌, ◌||◌, Text, codes, decimal, text_eq, nat_eq, nat_beq, if◌then◌else◌,
  is_empty, elem, map, Result, ok, fail, ◌>>=◌, split, atoi, pos_part,
}

-- How much of the UTF-8 of a white space has been read.
pub data Pending : Type 0 where
  fresh : Pending
  c2 : Pending
  e1 : Pending
  e1_9a : Pending
  e2 : Pending
  e2_80 : Pending
  e2_81 : Pending
  e3 : Pending
  e3_80 : Pending

-- The next byte of a white space, by unicode.IsSpace; none if it is not one.
unfoldable pub space_byte : Pending → ℕ → Option Pending
space_byte fresh c =
    if (leb 9 c && leb c 13) || nat_beq c 32
    then some fresh
    else (if nat_beq c 0xc2
        then some c2
        else (if nat_beq c 0xe1
            then some e1
            else (if nat_beq c 0xe2 then some e2 else (if nat_beq c 0xe3 then some e3 else none))))
space_byte c2 c = if nat_beq c 0x85 || nat_beq c 0xa0 then some fresh else none
space_byte e1 c = if nat_beq c 0x9a then some e1_9a else none
space_byte e1_9a c = if nat_beq c 0x80 then some fresh else none
space_byte e2 c =
    if nat_beq c 0x80 then some e2_80 else (if nat_beq c 0x81 then some e2_81 else none)
space_byte e2_80 c =
    if (leb 0x80 c && leb c 0x8a) || nat_beq c 0xa8 || nat_beq c 0xa9 || nat_beq c 0xaf
    then some fresh
    else none
space_byte e2_81 c = if nat_beq c 0x9f then some fresh else none
space_byte e3 c = if nat_beq c 0x80 then some e3_80 else none
space_byte e3_80 c = if nat_beq c 0x80 then some fresh else none

-- White space only.
unfoldable pub blank : Pending → Text → Bool
blank fresh [] = true
blank p [] = false
blank p (c ∷ s) = elim (space_byte p c) [ none ↦ false | some q ↦ blank q s ]

-- What follows the white space at the start; `held` is the text from the last character on.
unfoldable pub trim_left : Pending → (held rest : Text) → Text
trim_left fresh held [] = []
trim_left p held [] = held
trim_left p held (c ∷ s) = elim (space_byte p c) [
  | none ↦ held
  | some fresh ↦ trim_left fresh s s
  | some q ↦ trim_left q held s
]

unfoldable pub trim_right : Text → Text
trim_right [] = []
trim_right (c ∷ s) = let rest = trim_right s in if blank fresh (c ∷ s) then [] else c ∷ rest

-- `strings.TrimSpace`
unfoldable pub trim_space : Text → Text
trim_space s = trim_right (trim_left fresh s s)

-- `strings.Contains(s, "://")`
unfoldable pub has_scheme : Text → Bool
has_scheme [] = false
has_scheme (a ∷ []) = false
has_scheme (a ∷ b ∷ []) = false
has_scheme (a ∷ b ∷ c ∷ s) =
    (nat_beq a b':' && nat_beq b b'/' && nat_beq c b'/') || has_scheme (b ∷ c ∷ s)

-- A text before and behind the first byte of a kind.
unfoldable pub cut_at : ℕ → Text → Option (Text × Text)
cut_at d [] = none
cut_at d (c ∷ s) =
    if nat_beq c d
    then some ([], s)
    else elim (cut_at d s) [ none ↦ none | some (before, behind) ↦ some (c ∷ before, behind) ]

-- And before and behind the last.
unfoldable pub cut_at_last : ℕ → Text → Option (Text × Text)
cut_at_last d [] = none
cut_at_last d (c ∷ s) = elim (cut_at_last d s) [
  | some (before, behind) ↦ some (c ∷ before, behind)
  | none ↦ if nat_beq c d then some ([], s) else none
]

-- `net.SplitHostPort` where the address starts with a bracket: the bracket that closes it stands just
-- before the last colon.
unfoldable pub split_bracketed : Text → Option (Text × Text)
split_bracketed s = elim (cut_at b']' s) [
  | none ↦ none
  | some (host, []) ↦ none
  | some (host, c ∷ port) ↦
      if nat_beq c b':'
        && not (elem b':' port || elem b'[' host || elem b'[' port || elem b']' port)
      then some (host, port)
      else none
]

-- And where it does not: the host has no colon.
unfoldable pub split_plain : Text → Option (Text × Text)
split_plain s = elim (cut_at_last b':' s) [
  | none ↦ none
  | some (host, port) ↦
      if elem b':' host || elem b'[' s || elem b']' s then none else some (host, port)
]

-- `net.SplitHostPort`, none for an error.
unfoldable pub split_host_port : Text → Option (Text × Text)
split_host_port [] = none
split_host_port (c ∷ s) = if nat_beq c b'[' then split_bracketed s else split_plain (c ∷ s)

-- `net.JoinHostPort`
unfoldable pub join_host_port : Text → Text → Text
join_host_port host port =
    if elem b':' host then b'[' ∷ (host ++ (b']' ∷ b':' ∷ port)) else host ++ (b':' ∷ port)

pub record Endpoint : Type 0 where
  pub proto : Text
  pub host : Text
  pub port : ℕ

pub data EndpointError : Type 0 where
  empty_endpoint : EndpointError
  empty_list : EndpointError
  invalid_url : EndpointError
  missing_host : EndpointError
  invalid_address : EndpointError
  invalid_port : EndpointError
  port_out_of_range : EndpointError

-- The tests of a port that is a number, in `Parse`.
unfoldable pub checked_port : Text → Text → ℤ → Result EndpointError Endpoint
checked_port scheme host port =
    if ltb_ℤ port (pos 1) || ltb_ℤ (pos 65535) port
    then fail port_out_of_range
    else ok (record { proto = scheme; host = host; port = pos_part port })

unfoldable pub parse_port : Text → Text × Text → Result EndpointError Endpoint
parse_port scheme (host, port_str) = elim (atoi port_str) [
  | none ↦ fail invalid_port
  | some port ↦ checked_port scheme host port
]

-- What `Parse` does with a host and a port that belong together.
unfoldable pub parse_host_port : Text → Text → Result EndpointError Endpoint
parse_host_port scheme host_port = elim (split_host_port host_port) [
  | none ↦ fail invalid_address
  | some parts ↦ parse_port scheme parts
]

-- `Parse`
unfoldable pub parse :
    (Text → Option (Text × Text)) → (raw default_scheme : Text) → Result EndpointError Endpoint
parse url_parse raw default_scheme =
    let addr = trim_space raw in
    if is_empty addr
    then fail empty_endpoint
    else (if has_scheme addr
        then elim (url_parse addr) [
          | none ↦ fail invalid_url
          | some (scheme, host) ↦
              if is_empty host then fail missing_host else parse_host_port scheme host
        ]
        else parse_host_port (trim_space default_scheme) addr)

unfoldable pub parse_parts :
    (Text → Option (Text × Text)) → List Text → Text → Result EndpointError (List Endpoint)
parse_parts url_parse [] default_scheme = ok []
parse_parts url_parse (part ∷ parts) default_scheme = do
  ep ← parse url_parse part default_scheme
  more ← parse_parts url_parse parts default_scheme
  ok (ep ∷ more)

-- `ParseList`
unfoldable pub parse_list :
    (Text → Option (Text × Text))
    → (raw default_scheme : Text) → Result EndpointError (List Endpoint)
parse_list url_parse raw default_scheme =
    let addr = trim_space raw in
    if is_empty addr
    then fail empty_list
    else parse_parts url_parse (split b';' addr) default_scheme

-- `NewEndpoint`
unfoldable pub new_endpoint : (Text → Option (Text × Text)) → Text → Result EndpointError Endpoint
new_endpoint url_parse dsn = parse url_parse dsn (codes "tcp")

-- `NewEndpoints`
unfoldable pub new_endpoints :
    (Text → Option (Text × Text)) → Text → Result EndpointError (List Endpoint)
new_endpoints url_parse dsns = parse_list url_parse dsns (codes "tcp")

-- `String`
unfoldable pub endpoint_string : Endpoint → Text
endpoint_string e = e.proto ++ (b':' ∷ b'/' ∷ b'/' ∷ (e.host ++ (b':' ∷ decimal e.port)))

-- `Addr`
unfoldable pub addr : Endpoint → Text
addr e = join_host_port e.host (decimal e.port)

-- `URL`
unfoldable pub url : Endpoint → Text
url e = endpoint_string e

-- `HostPort`
unfoldable pub host_port : Endpoint → Text
host_port e = addr e

-- `ToURLs`
unfoldable pub to_urls : List Endpoint → List Text
to_urls endpoints = map url endpoints

-- `ToHostPorts`
unfoldable pub to_host_ports : List Endpoint → List Text
to_host_ports endpoints = map host_port endpoints
