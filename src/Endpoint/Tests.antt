-- ===== src/Endpoint/Tests.antt =====
-- An IPv6 address.
use dbha.Prelude.{
  ◌↔◌, inl, [], false, parse_digits, atoi, ℕ, ◌≡◌, ◌≢◌, refl, arith, ◌∷◌, if◌then◌else◌, ◌++◌,
  Option, none, some, Text, codes, decimal, ok, fail, elem, nat_eq,
}
use dbha.Endpoint.{
  parse_host_port, split_plain, trim_left, blank, trim_right, cut_at_last, parse_port, has_scheme,
  space_byte, checked_port, split_host_port, join_host_port, Endpoint, invalid_url, cut_at, parse,
  endpoint_string, addr, trim_space,
}
use dbha.Endpoint.Trimming.{IsGraphic}
use dbha.Endpoint.Parsing.{
  IsHostByte, IsAddress, InRange, parse-addr, parse-InRange, parse-endpoint_string,
}

abbrev loopback : Endpoint
loopback = record { proto = codes "tcp"; host = codes "::1"; port = 3306 }

byte_fits : (c : ℕ) → IsGraphic c → c ≢ b'/' → c ≢ b'[' → c ≢ b']' → IsHostByte c
byte_fits c h1 h2 h3 h4 = (h1, h2, h3, h4)

loopback-IsAddress : IsAddress loopback
loopback-IsAddress = record {
  host_bytes = (
    byte_fits b':' (omega arith, omega arith) (omega arith) (omega arith) (omega arith),
    (
      byte_fits b':' (omega arith, omega arith) (omega arith) (omega arith) (omega arith),
      (byte_fits b'1' (omega arith, omega arith) (omega arith) (omega arith) (omega arith), tt),
    ),
  );
  port_low = omega arith;
  port_high = omega arith;
}

-- The url.Parse of texts without a scheme.
abbrev no_url : Text → Option (Text × Text)
no_url s = none

addr_of_loopback : addr loopback ≡ codes "[::1]:3306"
unfolding addr join_host_port decimal
addr_of_loopback = refl

parse-addr_example :
    parse no_url (addr loopback) (codes " tcp ")
    ≡ ok (record { proto = trim_space (codes " tcp "); host = codes "::1"; port = 3306 })
parse-addr_example = parse-addr no_url loopback (codes " tcp ") loopback-IsAddress

local :
    parse no_url (codes " 10.0.0.1:65535") (codes "tcp")
    ≡ ok (record { proto = codes "tcp"; host = codes "10.0.0.1"; port = 65535 })
unfolding parse trim_space trim_right trim_left space_byte blank has_scheme parse_host_port
    split_host_port split_plain cut_at_last parse_port atoi parse_digits checked_port
local = refl

parse-InRange_example : InRange 65535
parse-InRange_example =
    parse-InRange no_url (codes " 10.0.0.1:65535") (codes "tcp")
      (record { proto = codes "tcp"; host = codes "10.0.0.1"; port = 65535 }) local

-- Behind two slashes.
abbrev after_mark : Text → Text
after_mark (a ∷ b ∷ rest) = rest
after_mark (a ∷ []) = []
after_mark [] = []

-- What url.Parse makes of a scheme, its mark and a host without a path: the host may have one colon,
-- before the port.
abbrev of_url : Text → Option (Text × Text)
of_url s = elim (cut_at b':' s) [
  | none ↦ none
  | some (scheme, behind) ↦ elim (cut_at b':' (after_mark behind)) [
    | none ↦ some (scheme, after_mark behind)
    | some (name, port) ↦ if elem b':' port then none else some (scheme, after_mark behind)
  ]
]

abbrev server : Endpoint
server = record { proto = codes "http"; host = codes "h1"; port = 80 }

server-IsAddress : IsAddress server
server-IsAddress = record {
  host_bytes = (
    byte_fits b'h' (omega arith, omega arith) (omega arith) (omega arith) (omega arith),
    (byte_fits b'1' (omega arith, omega arith) (omega arith) (omega arith) (omega arith), tt),
  );
  port_low = omega arith;
  port_high = omega arith;
}

parsed : of_url (endpoint_string server) ≡ some (codes "http", codes "h1" ++ (b':' ∷ decimal 80))
unfolding cut_at endpoint_string decimal
parsed = refl

-- The loopback is refused.
unparsed : parse of_url (endpoint_string loopback) (codes "tcp") ≡ fail invalid_url
unfolding parse trim_space trim_right trim_left endpoint_string space_byte blank has_scheme cut_at
unparsed = refl

parse-endpoint_string_example :
    (parse of_url (endpoint_string server) (codes "tcp") ≡ ok server)
    ↔ (elem b':' (codes "h1") ≡ false)
parse-endpoint_string_example =
    parse-endpoint_string of_url server (codes "tcp") server-IsAddress
      (
        (omega arith, omega arith),
        (
          (omega arith, omega arith),
          ((omega arith, omega arith), ((omega arith, omega arith), tt)),
        ),
      )
      (inl parsed)
