-- ===== src/Naming/Guarding.antt =====
-- What `DeleteNameService` deletes.
use dbha.Prelude.{
  ℕ, ◌<◌, ◌≡◌, refl, sym, ◌∙◌, arith, List, [], ◌∷◌, Option, none, some, Bool, true, not, ◌||◌,
  ◌==◌, Text, text_eq, text_beq_iff, leb, nat_beq, Bool-cases, inl, inr, subst,
}
use dbha.Naming.{
  BindEntryDnsInfo, BindEntryClbInfo, BindEntryPolarisInfo, BindEntry, NameServiceManager,
  ServiceCall, asked_number, from_domain, from_clb, from_polaris, NameService, Progress,
  release_ips, is_counted, domain_address, bound_address, release_domain, release_counted,
  release_dns, release_dns_entry, release_clb_entry, release_polaris_entry, delete_name_service,
}

-- The newest call has asked for the addresses of the domain, and there are others.
abbrev pub HasOthers : Text → List ServiceCall → Type 0
HasOthers domain log =
    (n : ℕ) × (before : List ServiceCall) × (log ≡ asked_number domain (some n) ∷ before) × (1 < n)

-- A call that deletes names the instance, and if it takes an instance of a counted kind out of a
-- domain, it comes right after an answer that the domain has others.
abbrev pub MayFollow : NameServiceManager → ServiceCall → List ServiceCall → Type 0
MayFollow m (asked_number domain answer) log = Unit
MayFollow m (from_domain domain ins done) log =
    (ins ≡ domain_address m.ip m.port) × (is_counted m ≡ true → HasOthers domain log)
MayFollow m (from_clb region load_balance_id listen_id ins done) log =
    ins ≡ bound_address m.ip m.port
MayFollow m (from_polaris service token ins done) log = ins ≡ bound_address m.ip m.port

-- So for each call, against those before it.
abbrev pub Guarded : NameServiceManager → List ServiceCall → Type 0
Guarded m [] = Unit
Guarded m (d ∷ log) = MayFollow m d log × Guarded m log

release_ips-Guarded :
    (m : NameServiceManager) (name : Text → ℕ → Text) (bind_port : ℕ)
    (delete : Text → List ServiceCall → Bool) (event : Text → Bool → ServiceCall) (ips : List Text)
    (p : Progress)
    → ((done : Bool) → MayFollow m (event (name m.ip m.port) done) p.1)
    → Guarded m p.1
    → Guarded m (release_ips m name bind_port delete event ips p).1
unfolding release_ips
release_ips-Guarded m name bind_port delete event [] p f h = h
release_ips-Guarded m name bind_port delete event (ip ∷ ips) p f h =
    elim (Bool-cases (not (ip == m.ip) || not (nat_beq bind_port m.port))) [
      | inl e ↦ rw e (release_ips-Guarded m name bind_port delete event ips p f h)
      | inr e ↦
          let same_ip : ip ≡ m.ip = (text_beq_iff ip m.ip).0 (ground arith) in
          let same_port : bind_port ≡ m.port = ground arith in
          let same : name m.ip m.port ≡ name ip bind_port = cc in
          let done = delete (name ip bind_port) p.1 in
          rw e (subst (λ ins. MayFollow m (event ins done) p.1) same (f done), h)
    ]

release_domain-Guarded :
    (s : NameService) (m : NameServiceManager) (dns : BindEntryDnsInfo) (p : Progress)
    → (is_counted m ≡ true → HasOthers dns.domain_name p.1)
    → Guarded m p.1
    → Guarded m (release_domain s m dns p).1
unfolding release_domain
release_domain-Guarded s m dns p others h =
    release_ips-Guarded m domain_address dns.bind_port (s.delete_from_domain dns.domain_name)
      (from_domain dns.domain_name) dns.bind_ips p (λ done. (refl, others)) h

release_counted-Guarded :
    (s : NameService) (m : NameServiceManager) (dns : BindEntryDnsInfo) (o : Option ℕ)
    (p : Progress)
    → Guarded m p.1
    → Guarded m (release_counted s m dns o p).1
unfolding release_counted
release_counted-Guarded s m dns none p h = (tt, h)
release_counted-Guarded s m dns (some n) p h = elim (Bool-cases (leb n 1)) [
  | inl few ↦ rw few (tt, h)
  | inr many ↦ rw many (
      release_domain-Guarded s m dns (p.0, asked_number dns.domain_name (some n) ∷ p.1)
        (λ c. (n, p.1, refl, ground arith)) (tt, h))
]

release_dns-Guarded :
    (s : NameService) (m : NameServiceManager) (dns : BindEntryDnsInfo) (p : Progress)
    → Guarded m p.1
    → Guarded m (release_dns s m dns p).1
unfolding release_dns
release_dns-Guarded s m dns p h = elim (Bool-cases (is_counted m)) [
  | inl e ↦ rw e (release_counted-Guarded s m dns (s.address_number dns.domain_name p.1) p h)
  | inr e ↦ rw e (release_domain-Guarded s m dns p (λ c. absurd (cc (sym c ∙ e))) h)
]

release_dns_entry-Guarded :
    (s : NameService) (m : NameServiceManager) (l : List BindEntryDnsInfo) (p : Progress)
    → Guarded m p.1
    → Guarded m (release_dns_entry s m l p).1
unfolding release_dns_entry
release_dns_entry-Guarded s m [] p h = h
release_dns_entry-Guarded s m (dns ∷ l) p h =
    release_dns_entry-Guarded s m l (release_dns s m dns p) (release_dns-Guarded s m dns p h)

release_clb_entry-Guarded :
    (s : NameService) (m : NameServiceManager) (l : List BindEntryClbInfo) (p : Progress)
    → Guarded m p.1
    → Guarded m (release_clb_entry s m l p).1
unfolding release_clb_entry
release_clb_entry-Guarded s m [] p h = h
release_clb_entry-Guarded s m (clb ∷ l) p h = release_clb_entry-Guarded s m l _ (
    release_ips-Guarded m bound_address clb.bind_port
      (s.delete_from_clb clb.region clb.load_balance_id clb.listen_id)
      (from_clb clb.region clb.load_balance_id clb.listen_id) clb.bind_ips p (λ done. refl) h)

release_polaris_entry-Guarded :
    (s : NameService) (m : NameServiceManager) (l : List BindEntryPolarisInfo) (p : Progress)
    → Guarded m p.1
    → Guarded m (release_polaris_entry s m l p).1
unfolding release_polaris_entry
release_polaris_entry-Guarded s m [] p h = h
release_polaris_entry-Guarded s m (pinfo ∷ l) p h = release_polaris_entry-Guarded s m l _ (
    release_ips-Guarded m bound_address pinfo.bind_port
      (s.delete_from_polaris pinfo.service pinfo.token) (from_polaris pinfo.service pinfo.token)
      pinfo.bind_ips p (λ done. refl) h)

-- Every call that `DeleteNameService` adds and that deletes names the instance's address and port,
-- and takes a proxy or a spider out of a domain only right after the answer to a question for the
-- domain's addresses, by which it has more than one.
pub delete_name_service-Guarded :
    (s : NameService) (m : NameServiceManager) (entry : BindEntry) (log : List ServiceCall)
    → Guarded m log
    → Guarded m (delete_name_service s m entry log).1
unfolding delete_name_service
delete_name_service-Guarded s m entry log h =
    let dns = release_dns_entry s m entry.dns (true, log) in
    let clb = release_clb_entry s m entry.clb (true, dns.1) in
    release_polaris_entry-Guarded s m entry.polaris (true, clb.1)
      (release_clb_entry-Guarded s m entry.clb (true, dns.1)
        (release_dns_entry-Guarded s m entry.dns (true, log) h))
