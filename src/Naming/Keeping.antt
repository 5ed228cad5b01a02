-- ===== src/Naming/Keeping.antt =====
-- What every call of the DBM service keeps, `DeleteNameService` keeps.
use dbha.Prelude.{
  ℕ, [], ◌∷◌, List, Option, none, some, Bool, not, ◌||◌, ◌==◌, Text, leb, nat_beq, Bool-cases, inl,
  inr, text_eq,
}
use dbha.Naming.{
  BindEntryDnsInfo, BindEntryClbInfo, BindEntryPolarisInfo, NameServiceManager, ServiceCall,
  NameService, Progress, release_ips, is_counted, domain_address, bound_address, release_domain,
  release_counted, release_dns, release_dns_entry, release_clb_entry, release_polaris_entry,
}

module _ (Inv : List ServiceCall → Type 0)
    (step : (c : ServiceCall) (log : List ServiceCall) → Inv log → Inv (c ∷ log)) where
  ips_keep :
      (m : NameServiceManager) (name : Text → ℕ → Text) (bind_port : ℕ)
      (delete : Text → List ServiceCall → Bool) (event : Text → Bool → ServiceCall)
      (ips : List Text) (p : Progress)
      → Inv p.1
      → Inv (release_ips m name bind_port delete event ips p).1
  unfolding release_ips
  ips_keep m name bind_port delete event [] p h = h
  ips_keep m name bind_port delete event (ip ∷ ips) p h =
      elim (Bool-cases (not (ip == m.ip) || not (nat_beq bind_port m.port))) [
        | inl e ↦ rw e (ips_keep m name bind_port delete event ips p h)
        | inr e ↦ rw e (step _ _ h)
      ]

  dns_keeps :
      (s : NameService) (m : NameServiceManager) (dns : BindEntryDnsInfo) (p : Progress)
      → Inv p.1
      → Inv (release_dns s m dns p).1
  unfolding release_dns release_domain release_counted
  dns_keeps s m dns p h = elim (Bool-cases (is_counted m)) [
    | inl e ↦ rw e (answered (s.address_number dns.domain_name p.1))
    | inr e ↦ rw e (ips_keep m domain_address dns.bind_port _ _ dns.bind_ips p h)
  ]
    where
      answered : (o : Option ℕ) → Inv (release_counted s m dns o p).1
      answered none = step _ _ h
      answered (some n) = elim (Bool-cases (leb n 1)) [
        | inl few ↦ rw few (step _ _ h)
        | inr many ↦
            rw many (ips_keep m domain_address dns.bind_port _ _ dns.bind_ips _ (step _ _ h))
      ]

  pub dns_entry_keeps :
      (s : NameService) (m : NameServiceManager) (l : List BindEntryDnsInfo) (p : Progress)
      → Inv p.1
      → Inv (release_dns_entry s m l p).1
  unfolding release_dns_entry
  dns_entry_keeps s m [] p h = h
  dns_entry_keeps s m (dns ∷ l) p h = dns_entry_keeps s m l _ (dns_keeps s m dns p h)

  pub clb_entry_keeps :
      (s : NameService) (m : NameServiceManager) (l : List BindEntryClbInfo) (p : Progress)
      → Inv p.1
      → Inv (release_clb_entry s m l p).1
  unfolding release_clb_entry
  clb_entry_keeps s m [] p h = h
  clb_entry_keeps s m (clb ∷ l) p h =
      clb_entry_keeps s m l _ (ips_keep m bound_address clb.bind_port _ _ clb.bind_ips p h)

  pub polaris_entry_keeps :
      (s : NameService) (m : NameServiceManager) (l : List BindEntryPolarisInfo) (p : Progress)
      → Inv p.1
      → Inv (release_polaris_entry s m l p).1
  unfolding release_polaris_entry
  polaris_entry_keeps s m [] p h = h
  polaris_entry_keeps s m (pinfo ∷ l) p h =
      polaris_entry_keeps s m l _ (ips_keep m bound_address pinfo.bind_port _ _ pinfo.bind_ips p h)
