-- ===== src/Naming/Success.antt =====
-- When `DeleteNameService` returns no error.
use dbha.Prelude.{
  ℕ, ◌≡◌, refl, arith, [], ◌∷◌, List, Option, none, some, Bool, true, false, not, ◌&&◌, ◌||◌, ◌==◌,
  Text, leb, nat_beq, Bool-cases, inl, inr, text_eq,
}
use dbha.Naming.{
  BindEntryDnsInfo, BindEntryClbInfo, BindEntryPolarisInfo, BindEntry, NameServiceManager,
  ServiceCall, asked_number, from_domain, from_clb, from_polaris, NameService, Progress,
  release_ips, is_counted, domain_address, bound_address, release_domain, release_counted,
  release_dns, release_dns_entry, release_clb_entry, release_polaris_entry, delete_name_service,
}

-- The call has succeeded.
abbrev is_done : ServiceCall → Bool
is_done (asked_number domain none) = false
is_done (asked_number domain (some n)) = true
is_done (from_domain domain ins done) = done
is_done (from_clb region load_balance_id listen_id ins done) = done
is_done (from_polaris service token ins done) = done

abbrev pub all_done : List ServiceCall → Bool
all_done [] = true
all_done (d ∷ log) = is_done d && all_done log

-- The flag says whether a call has failed since the calls were all done or not.
abbrev Tells : Bool → Progress → Type 0
Tells base p = (p.0 && base) ≡ all_done p.1

release_ips-Tells :
    (base : Bool) (m : NameServiceManager) (name : Text → ℕ → Text) (bind_port : ℕ)
    (delete : Text → List ServiceCall → Bool) (event : Text → Bool → ServiceCall) (ips : List Text)
    (p : Progress)
    → ((ins : Text) (done : Bool) → is_done (event ins done) ≡ done)
    → Tells base p
    → Tells base (release_ips m name bind_port delete event ips p)
unfolding release_ips
release_ips-Tells base m name bind_port delete event [] p f h = h
release_ips-Tells base m name bind_port delete event (ip ∷ ips) p f h =
    elim (Bool-cases (not (ip == m.ip) || not (nat_beq bind_port m.port))) [
      | inl e ↦ rw e (release_ips-Tells base m name bind_port delete event ips p f h)
      | inr e ↦
          rw (e, f (name ip bind_port) (delete (name ip bind_port) p.1))
            (both p.0 (delete (name ip bind_port) p.1) (all_done p.1) h)
    ]
  where
    both : (b c d : Bool) → (b && base) ≡ d → ((b && c) && base) ≡ c && d
    both b c d e = ground arith

release_domain-Tells :
    (base : Bool) (s : NameService) (m : NameServiceManager) (dns : BindEntryDnsInfo) (p : Progress)
    → Tells base p
    → Tells base (release_domain s m dns p)
unfolding release_domain
release_domain-Tells base s m dns p h =
    release_ips-Tells base m domain_address dns.bind_port (s.delete_from_domain dns.domain_name)
      (from_domain dns.domain_name) dns.bind_ips p (λ ins done. refl) h

release_counted-Tells :
    (base : Bool) (s : NameService) (m : NameServiceManager) (dns : BindEntryDnsInfo) (o : Option ℕ)
    (p : Progress)
    → Tells base p
    → Tells base (release_counted s m dns o p)
unfolding release_counted
release_counted-Tells base s m dns none p h = refl
release_counted-Tells base s m dns (some n) p h = elim (Bool-cases (leb n 1)) [
  | inl few ↦ rw few h
  | inr many ↦
      rw many
        (release_domain-Tells base s m dns (p.0, asked_number dns.domain_name (some n) ∷ p.1) h)
]

release_dns_entry-Tells :
    (base : Bool) (s : NameService) (m : NameServiceManager) (l : List BindEntryDnsInfo)
    (p : Progress)
    → Tells base p
    → Tells base (release_dns_entry s m l p)
unfolding release_dns_entry release_dns
release_dns_entry-Tells base s m [] p h = h
release_dns_entry-Tells base s m (dns ∷ l) p h =
    release_dns_entry-Tells base s m l (release_dns s m dns p) (elim (Bool-cases (is_counted m)) [
      | inl e ↦ rw e (release_counted-Tells base s m dns (s.address_number dns.domain_name p.1) p h)
      | inr e ↦ rw e (release_domain-Tells base s m dns p h)
    ])

release_clb_entry-Tells :
    (base : Bool) (s : NameService) (m : NameServiceManager) (l : List BindEntryClbInfo)
    (p : Progress)
    → Tells base p
    → Tells base (release_clb_entry s m l p)
unfolding release_clb_entry
release_clb_entry-Tells base s m [] p h = h
release_clb_entry-Tells base s m (clb ∷ l) p h = release_clb_entry-Tells base s m l _ (
    release_ips-Tells base m bound_address clb.bind_port
      (s.delete_from_clb clb.region clb.load_balance_id clb.listen_id)
      (from_clb clb.region clb.load_balance_id clb.listen_id) clb.bind_ips p (λ ins done. refl) h)

release_polaris_entry-Tells :
    (base : Bool) (s : NameService) (m : NameServiceManager) (l : List BindEntryPolarisInfo)
    (p : Progress)
    → Tells base p
    → Tells base (release_polaris_entry s m l p)
unfolding release_polaris_entry
release_polaris_entry-Tells base s m [] p h = h
release_polaris_entry-Tells base s m (pinfo ∷ l) p h = release_polaris_entry-Tells base s m l _ (
    release_ips-Tells base m bound_address pinfo.bind_port
      (s.delete_from_polaris pinfo.service pinfo.token) (from_polaris pinfo.service pinfo.token)
      pinfo.bind_ips p (λ ins done. refl) h)

-- If no call has failed before, `DeleteNameService` returns no error exactly if no call has failed
-- after it, be it a question for the addresses of a domain or a deletion.
pub delete_name_service-all_done :
    (s : NameService) (m : NameServiceManager) (entry : BindEntry) (log : List ServiceCall)
    → all_done log ≡ true
    → (delete_name_service s m entry log).0 ≡ all_done (delete_name_service s m entry log).1
unfolding delete_name_service
delete_name_service-all_done s m entry log h =
    let dns = release_dns_entry s m entry.dns (true, log) in
    let clb = release_clb_entry s m entry.clb (true, dns.1) in
    let polaris = release_polaris_entry s m entry.polaris (true, clb.1) in
    flags dns.0 clb.0 polaris.0 (all_done log) (all_done dns.1) (all_done clb.1)
      (all_done polaris.1) h (release_dns_entry-Tells (all_done log) s m entry.dns (true, log) refl)
      (release_clb_entry-Tells (all_done dns.1) s m entry.clb (true, dns.1) refl)
      (release_polaris_entry-Tells (all_done clb.1) s m entry.polaris (true, clb.1) refl)
  where
    flags :
        (f1 f2 f3 d0 d1 d2 d3 : Bool)
        → d0 ≡ true
        → (f1 && d0) ≡ d1
        → (f2 && d1) ≡ d2
        → (f3 && d2) ≡ d3
        → (f1 && f2 && f3) ≡ d3
    flags f1 f2 f3 d0 d1 d2 d3 h0 h1 h2 h3 = ground arith
