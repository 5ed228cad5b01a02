-- ===== src/Endpoint/Splitting.antt =====
-- `net.SplitHostPort` takes apart what `net.JoinHostPort` has joined.
use dbha.Prelude.{
  ℕ, ◌≡◌, refl, ap, ◌∙◌, arith, [], ◌∷◌, ◌++◌, none, some, true, false, ◌||◌, Text, elem, nat_eq,
  Lacks, Bool-cases, inl, inr,
}
use dbha.Endpoint.{
  cut_at, cut_at_last, split_bracketed, split_plain, split_host_port, join_host_port,
}

elem-Lacks : (d : ℕ) (s : Text) → Lacks d s → elem d s ≡ false
elem-Lacks d [] h = refl
elem-Lacks d (c ∷ s) h = ground (arith, elem-Lacks d s h.1)

Lacks-elem : (d : ℕ) (s : Text) → elem d s ≡ false → Lacks d s
Lacks-elem d [] h = tt
Lacks-elem d (c ∷ s) h = (ground arith, Lacks-elem d s (ground arith))

elem-append : (d : ℕ) (s t : Text) → elem d (s ++ t) ≡ elem d s || elem d t
elem-append d [] t = refl
elem-append d (c ∷ s) t = ground (arith, elem-append d s t)

cut_at-append : (d : ℕ) (s t : Text) → Lacks d s → cut_at d (s ++ (d ∷ t)) ≡ some (s, t)
unfolding cut_at
cut_at-append d [] t h = ground arith
cut_at-append d (c ∷ s) t h = ground (arith, cut_at-append d s t h.1)

cut_at_last-none : (d : ℕ) (t : Text) → Lacks d t → cut_at_last d t ≡ none
unfolding cut_at_last
cut_at_last-none d [] h = refl
cut_at_last-none d (c ∷ t) h = ground (arith, cut_at_last-none d t h.1)

pub cut_at_last-append :
    (d : ℕ) (s t : Text) → Lacks d t → cut_at_last d (s ++ (d ∷ t)) ≡ some (s, t)
unfolding cut_at_last
cut_at_last-append d [] t h = ground (arith, cut_at_last-none d t h)
cut_at_last-append d (c ∷ s) t h = ground (arith, cut_at_last-append d s t h)

split_host_port-plain : (s : Text) → elem b'[' s ≡ false → split_host_port s ≡ split_plain s
unfolding split_host_port split_plain cut_at_last
split_host_port-plain [] h = refl
split_host_port-plain (c ∷ s) h = ground arith

-- A host and a port without brackets, the port without a colon, are found again.
pub split_host_port-join :
    (host port : Text)
    → Lacks b'[' host
    → Lacks b']' host
    → Lacks b':' port
    → Lacks b'[' port
    → Lacks b']' port
    → split_host_port (join_host_port host port) ≡ some (host, port)
unfolding split_host_port join_host_port split_bracketed split_plain
split_host_port-join host port h1 h2 h3 h4 h5 =
    let no_open = elem-Lacks b'[' host h1 in
    let no_close = elem-Lacks b']' host h2 in
    let no_colon = elem-Lacks b':' port h3 in
    let port_open = elem-Lacks b'[' port h4 in
    let port_close = elem-Lacks b']' port h5 in
    elim (Bool-cases (elem b':' host)) [
      | inl e ↦
          let cut = cut_at-append b']' host (b':' ∷ port) h2 in
          let joined : join_host_port host port ≡ b'[' ∷ (host ++ (b']' ∷ b':' ∷ port)) =
            rw e refl in
          ap split_host_port joined
          ∙ rw (split_bracketed, cut, no_colon, no_open, port_open, port_close) refl
      | inr e ↦
          let cut = cut_at_last-append b':' host port h3 in
          let all_open : elem b'[' (host ++ (b':' ∷ port)) ≡ false =
            ground (arith, elem-append b'[' host (b':' ∷ port)) in
          let all_close : elem b']' (host ++ (b':' ∷ port)) ≡ false =
            ground (arith, elem-append b']' host (b':' ∷ port)) in
          let joined : join_host_port host port ≡ host ++ (b':' ∷ port) = rw e refl in
          ap split_host_port joined
          ∙ split_host_port-plain (host ++ (b':' ∷ port)) all_open
          ∙ rw (split_plain, cut, e, all_open, all_close) refl
    ]

-- A host with a colon and without brackets around it is refused.
pub split_host_port-colon :
    (host port : Text)
    → elem b':' host ≡ true
    → Lacks b'[' host
    → Lacks b':' port
    → Lacks b'[' port
    → split_host_port (host ++ (b':' ∷ port)) ≡ none
unfolding split_plain
split_host_port-colon host port e h1 h3 h4 =
    let cut = cut_at_last-append b':' host port h3 in
    let no_open = elem-Lacks b'[' host h1 in
    let port_open = elem-Lacks b'[' port h4 in
    let all_open : elem b'[' (host ++ (b':' ∷ port)) ≡ false =
      ground (arith, elem-append b'[' host (b':' ∷ port)) in
    split_host_port-plain (host ++ (b':' ∷ port)) all_open ∙ rw (split_plain, cut, e) refl

-- And without a colon it is found again.
pub split_host_port-no_colon :
    (host port : Text)
    → elem b':' host ≡ false
    → Lacks b'[' host
    → Lacks b']' host
    → Lacks b':' port
    → Lacks b'[' port
    → Lacks b']' port
    → split_host_port (host ++ (b':' ∷ port)) ≡ some (host, port)
unfolding join_host_port
split_host_port-no_colon host port e h1 h2 h3 h4 h5 =
    let joined : host ++ (b':' ∷ port) ≡ join_host_port host port = rw e refl in
    ap split_host_port joined ∙ split_host_port-join host port h1 h2 h3 h4 h5
