-- ===== src/Endpoint/Parsing.antt =====
-- `Parse` against `Addr` and `String`.
use dbha.Prelude.{
  ◌⊎◌, ◌↔◌, sym, ℕ, ◌≤◌, ◌<◌, ◌≡◌, ◌≢◌, refl, ap, ◌∙◌, subst, arith, [], ◌∷◌, ◌++◌, Option, none,
  some, true, false, ◌||◌, Text, All, All-map, All-append, is_empty, if◌then◌else◌, elem, Lacks,
  Bool-cases, inl, inr, decimal, decimal-digits, atoi, atoi-decimal, ltb_ℤ, pos, ℤ, negsuc, Result,
  ok, fail, nat_eq,
}
use dbha.Endpoint.{
  trim_space, has_scheme, split_host_port, join_host_port, Endpoint, EndpointError, invalid_url,
  missing_host, checked_port, parse_port, invalid_address, invalid_port, parse_host_port, parse,
  endpoint_string, addr,
}
use dbha.Endpoint.Trimming.{IsGraphic, trim_space-IsGraphic, has_scheme-false, has_scheme-true}
use dbha.Endpoint.Splitting.{split_host_port-join, split_host_port-colon, split_host_port-no_colon}

-- A graphic ASCII byte that is no slash and no bracket.
abbrev pub IsHostByte : ℕ → Type 0
IsHostByte c = IsGraphic c × (c ≢ b'/') × (c ≢ b'[') × (c ≢ b']')

-- A host of such bytes, which may have colons, and a port in range.
pub record IsAddress (e : Endpoint) : Type 0 where
  pub host_bytes : All IsHostByte e.host
  pub port_low : 1 ≤ e.port
  pub port_high : e.port ≤ 65535

digits-Lacks : (d n : ℕ) → (d < b'0') ⊎ (b'9' < d) → Lacks d (decimal n)
digits-Lacks d n h = All-map (decimal n) (λ c p. ground arith) (decimal-digits n).0

checked_port-ok :
    (scheme host : Text) (n : ℕ)
    → 1 ≤ n
    → n ≤ 65535
    → checked_port scheme host (pos n) ≡ ok (record { proto = scheme; host = host; port = n })
unfolding checked_port
checked_port-ok scheme host n low high = ground arith

port_parsed :
    (scheme host_port host : Text) (n : ℕ)
    → 1 ≤ n
    → n ≤ 65535
    → split_host_port host_port ≡ some (host, decimal n)
    → parse_host_port scheme host_port ≡ ok (record { proto = scheme; host = host; port = n })
unfolding parse_host_port parse_port
port_parsed scheme host_port host n low high e =
    ap
      (λ (o : Option (Text × Text)). elim o as (λ _. Result EndpointError Endpoint) [
        | none ↦ fail invalid_address
        | some parts ↦ parse_port scheme parts
      ])
      e
    ∙ ap
        (λ (o : Option ℤ). elim o as (λ _. Result EndpointError Endpoint) [
          | none ↦ fail invalid_port
          | some port ↦ checked_port scheme host port
        ])
        (atoi-decimal n (omega arith))
    ∙ checked_port-ok scheme host n low high

-- What the port of a parsed address is in.
abbrev pub InRange : ℕ → Type 0
InRange n = (1 ≤ n) × (n ≤ 65535)

abbrev AllInRange : Result EndpointError Endpoint → Type 0
AllInRange (fail why) = Unit
AllInRange (ok e) = InRange e.port

checked_port-range : (scheme host : Text) (port : ℤ) → AllInRange (checked_port scheme host port)
unfolding checked_port
checked_port-range scheme host (pos n) =
    elim (Bool-cases (ltb_ℤ (pos n) (pos 1) || ltb_ℤ (pos 65535) (pos n))) [
      | inl e ↦ rw e tt
      | inr e ↦ rw e (ground arith)
    ]
checked_port-range scheme host (negsuc n) =
    let below : ltb_ℤ (negsuc n) (pos 1) ≡ true = ground arith in rw below tt

parse_host_port-range : (scheme host_port : Text) → AllInRange (parse_host_port scheme host_port)
unfolding parse_host_port parse_port
parse_host_port-range scheme host_port = split (split_host_port host_port)
  where
    number :
        (host : Text) (o : Option ℤ)
        → AllInRange
            (elim o [ none ↦ fail invalid_port | some port ↦ checked_port scheme host port ])
    number host none = tt
    number host (some port) = checked_port-range scheme host port

    split :
        (o : Option (Text × Text))
        → AllInRange (elim o [ none ↦ fail invalid_address | some parts ↦ parse_port scheme parts ])
    split none = tt
    split (some (host, port_str)) = number host (atoi port_str)

parse_bare :
    (url_parse : Text → Option (Text × Text)) (a default_scheme : Text)
    → All IsGraphic a
    → All (λ c. c ≢ b'/') a
    → is_empty a ≡ false
    → parse url_parse a default_scheme ≡ parse_host_port (trim_space default_scheme) a
unfolding parse
parse_bare url_parse a default_scheme graphic no_slash some_byte =
    rw (trim_space-IsGraphic a graphic, has_scheme-false a no_slash, some_byte) refl

join_bytes :
    (P : ℕ → Type 0) (host port : Text)
    → P b'['
    → P b']'
    → P b':'
    → All P host
    → All P port
    → All P (join_host_port host port)
unfolding join_host_port
join_bytes P host port p1 p2 p3 hs ps = elim (Bool-cases (elem b':' host)) [
  | inl e ↦ rw e (p1, All-append P host (b']' ∷ b':' ∷ port) hs (p2, (p3, ps)))
  | inr e ↦ rw e (All-append P host (b':' ∷ port) hs (p3, ps))
]

join_filled : (host port : Text) → is_empty (join_host_port host port) ≡ false
unfolding join_host_port
join_filled [] port = refl
join_filled (c ∷ host) port = elim (Bool-cases (elem b':' (c ∷ host))) [
  | inl e ↦ rw e refl
  | inr e ↦ rw e refl
]

-- What `Addr` prints of an endpoint with such a host and a port in range, `Parse` reads back, with
-- the default scheme and without asking url.Parse, also where the host has colons.
pub parse-addr :
    (url_parse : Text → Option (Text × Text)) (e : Endpoint) (default_scheme : Text)
    → IsAddress e
    → parse url_parse (addr e) default_scheme
      ≡ ok (record { proto = trim_space default_scheme; host = e.host; port = e.port })
unfolding addr
parse-addr url_parse e default_scheme is =
    let digits = (decimal-digits e.port).0 in
    let graphic =
      join_bytes IsGraphic e.host (decimal e.port) (ground arith) (ground arith) (ground arith)
        (All-map e.host (λ c h. h.0) is.host_bytes)
        (All-map (decimal e.port) (λ c h. ground arith) digits) in
    let no_slash =
      join_bytes (λ c. c ≢ b'/') e.host (decimal e.port) (ground arith) (ground arith)
        (ground arith) (All-map e.host (λ c h. h.1) is.host_bytes)
        (All-map (decimal e.port) (λ c h. ground arith) digits) in
    parse_bare url_parse (addr e) default_scheme graphic no_slash
      (join_filled e.host (decimal e.port))
    ∙ port_parsed (trim_space default_scheme) (addr e) e.host e.port is.port_low is.port_high (
        split_host_port-join e.host (decimal e.port) (All-map e.host (λ c h. h.2) is.host_bytes)
          (All-map e.host (λ c h. h.3) is.host_bytes) (digits-Lacks b':' e.port (ground arith))
          (digits-Lacks b'[' e.port (ground arith)) (digits-Lacks b']' e.port (ground arith)))

parsed_range :
    (url_parse : Text → Option (Text × Text)) (raw default_scheme : Text)
    → AllInRange (parse url_parse raw default_scheme)
unfolding parse
parsed_range url_parse raw default_scheme = elim (Bool-cases (is_empty (trim_space raw))) [
  | inl e ↦ rw e tt
  | inr e ↦ rw e (elim (Bool-cases (has_scheme (trim_space raw))) [
    | inl s ↦ rw s (with_url (url_parse (trim_space raw)))
    | inr s ↦ rw s (parse_host_port-range (trim_space default_scheme) (trim_space raw))
  ])
]
  where
    with_url :
        (o : Option (Text × Text))
        → AllInRange (elim o [
          | none ↦ fail invalid_url
          | some (scheme, host) ↦
              if is_empty host then fail missing_host else parse_host_port scheme host
        ])
    with_url none = tt
    with_url (some (scheme, [])) = tt
    with_url (some (scheme, c ∷ host)) = parse_host_port-range scheme (c ∷ host)

-- Whatever url.Parse answers: the port of a parsed endpoint is from 1 to 65535.
pub parse-InRange :
    (url_parse : Text → Option (Text × Text)) (raw default_scheme : Text) (e : Endpoint)
    → parse url_parse raw default_scheme ≡ ok e
    → InRange e.port
parse-InRange url_parse raw default_scheme e h =
    subst AllInRange h (parsed_range url_parse raw default_scheme)

printed : (e : Endpoint) → IsAddress e → All IsGraphic e.proto → All IsGraphic (endpoint_string e)
unfolding endpoint_string
printed e is graphic =
    All-append IsGraphic e.proto (b':' ∷ b'/' ∷ b'/' ∷ (e.host ++ (b':' ∷ decimal e.port))) graphic
      (ground arith, (ground arith, (ground arith, after_mark)))
  where
    after_mark : All IsGraphic (e.host ++ (b':' ∷ decimal e.port))
    after_mark =
        All-append IsGraphic e.host (b':' ∷ decimal e.port)
          (All-map e.host (λ c h. h.0) is.host_bytes)
          (ground arith, All-map (decimal e.port) (λ c h. ground arith) (decimal-digits e.port).0)

append_filled : (s t : Text) (c : ℕ) → is_empty (s ++ (c ∷ t)) ≡ false
append_filled [] t c = refl
append_filled (a ∷ s) t c = refl

filled : (e : Endpoint) → is_empty (endpoint_string e) ≡ false
unfolding endpoint_string
filled e = append_filled e.proto (b'/' ∷ b'/' ∷ (e.host ++ (b':' ∷ decimal e.port))) b':'

host_filled : (e : Endpoint) → is_empty (e.host ++ (b':' ∷ decimal e.port)) ≡ false
host_filled e = append_filled e.host (decimal e.port) b':'

schemed : (e : Endpoint) → has_scheme (endpoint_string e) ≡ true
unfolding endpoint_string
schemed e = has_scheme-true e.proto (e.host ++ (b':' ∷ decimal e.port))

parse_with_url :
    (url_parse : Text → Option (Text × Text)) (a default_scheme scheme host : Text)
    → All IsGraphic a
    → is_empty a ≡ false
    → has_scheme a ≡ true
    → url_parse a ≡ some (scheme, host)
    → is_empty host ≡ false
    → parse url_parse a default_scheme ≡ parse_host_port scheme host
unfolding parse
parse_with_url url_parse a default_scheme scheme host graphic some_byte mark found some_host =
    rw (trim_space-IsGraphic a graphic, some_byte, mark, found, some_host) refl

-- url.Parse finds the scheme and the host in what `String` prints, or it refuses a host with a colon,
-- as it does since Go 1.26.
abbrev pub IsParsed : Endpoint → Option (Text × Text) → Type 0
IsParsed e answer =
    (answer ≡ some (e.proto, e.host ++ (b':' ∷ decimal e.port)))
    ⊎ ((elem b':' e.host ≡ true) × (answer ≡ none))

printed_host :
    (e : Endpoint)
    → IsAddress e
    → elem b':' e.host ≡ false
    → parse_host_port e.proto (e.host ++ (b':' ∷ decimal e.port)) ≡ ok e
printed_host e is c =
    port_parsed e.proto (e.host ++ (b':' ∷ decimal e.port)) e.host e.port is.port_low is.port_high (
      split_host_port-no_colon e.host (decimal e.port) c (All-map e.host (λ c h. h.2) is.host_bytes)
        (All-map e.host (λ c h. h.3) is.host_bytes) (digits-Lacks b':' e.port (ground arith))
        (digits-Lacks b'[' e.port (ground arith)) (digits-Lacks b']' e.port (ground arith)))

refused_host :
    (e : Endpoint)
    → IsAddress e
    → elem b':' e.host ≡ true
    → parse_host_port e.proto (e.host ++ (b':' ∷ decimal e.port)) ≡ fail invalid_address
unfolding parse_host_port
refused_host e is c =
    ap
      (λ (o : Option (Text × Text)). elim o as (λ _. Result EndpointError Endpoint) [
        | none ↦ fail invalid_address
        | some parts ↦ parse_port e.proto parts
      ])
      (split_host_port-colon e.host (decimal e.port) c (All-map e.host (λ c h. h.2) is.host_bytes)
        (digits-Lacks b':' e.port (ground arith)) (digits-Lacks b'[' e.port (ground arith)))

refused_url :
    (url_parse : Text → Option (Text × Text)) (a default_scheme : Text)
    → All IsGraphic a
    → is_empty a ≡ false
    → has_scheme a ≡ true
    → url_parse a ≡ none
    → parse url_parse a default_scheme ≡ fail invalid_url
unfolding parse
refused_url url_parse a default_scheme graphic some_byte mark found =
    rw (trim_space-IsGraphic a graphic, some_byte, mark, found) refl

-- For an endpoint with a host of graphic bytes but slashes and brackets, a port in range and a
-- graphic scheme, of whose `String` url.Parse finds the scheme and the host unless it refuses a
-- colon in the host: `Parse` reads back what `String` prints exactly if the host has no colon.
pub parse-endpoint_string :
    (url_parse : Text → Option (Text × Text)) (e : Endpoint) (default_scheme : Text)
    → IsAddress e
    → All IsGraphic e.proto
    → IsParsed e (url_parse (endpoint_string e))
    → (parse url_parse (endpoint_string e) default_scheme ≡ ok e) ↔ (elem b':' e.host ≡ false)
parse-endpoint_string url_parse e default_scheme is graphic (inl found) =
    let parsed =
      parse_with_url url_parse (endpoint_string e) default_scheme e.proto
        (e.host ++ (b':' ∷ decimal e.port)) (printed e is graphic) (filled e) (schemed e) found
        (host_filled e) in
    (
      λ read. elim (Bool-cases (elem b':' e.host)) [
        | inl c ↦ absurd (cc (sym (parsed ∙ refused_host e is c) ∙ read))
        | inr c ↦ c
      ],
      λ c. parsed ∙ printed_host e is c,
    )
parse-endpoint_string url_parse e default_scheme is graphic (inr (colon, found)) =
    let refused =
      refused_url url_parse (endpoint_string e) default_scheme (printed e is graphic) (filled e)
        (schemed e) found in
    (λ read. absurd (cc (sym refused ∙ read)), λ c. absurd (cc (sym colon ∙ c)))
