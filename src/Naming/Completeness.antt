-- ===== src/Naming/Completeness.antt =====
-- `DeleteNameService` tries every name that leads to the instance.
use dbha.Prelude.{
  ℕ, ◌≤◌, ◌≡◌, ◌⊎◌, refl, arith, [], ◌∷◌, List, Option, none, some, Bool, true, false, not, ◌&&◌,
  ◌||◌, ◌==◌, Text, leb, nat_beq, elem, All, All-map, Memᴰ, Bool-cases, inl, inr, text_eq,
  text_beq_iff, subst,
}
use dbha.Naming.{
  BindEntryDnsInfo, BindEntryClbInfo, BindEntryPolarisInfo, BindEntry, NameServiceManager,
  ServiceCall, asked_number, from_domain, from_clb, from_polaris, NameService, Progress,
  release_ips, is_counted, domain_address, bound_address, release_domain, release_counted,
  release_dns, release_dns_entry, release_clb_entry, release_polaris_entry, delete_name_service,
}
use dbha.Naming.Keeping.{dns_entry_keeps, clb_entry_keeps, polaris_entry_keeps}
use dbha.Naming.Success.{all_done, delete_name_service-all_done}

-- An entry leads to the instance.
abbrev pub is_bound : NameServiceManager → List Text → ℕ → Bool
is_bound m ips port = elem m.ip ips && nat_beq port m.port

-- An entry that leads to the instance has been tried.
abbrev pub IsTried :
    NameServiceManager → List Text → ℕ → (Bool → ServiceCall) → List ServiceCall → Type 0
IsTried m ips port call log = (is_bound m ips port ≡ false) ⊎ ((done : Bool) × Memᴰ (call done) log)

-- Or its domain was asked for its addresses, and the answer was an error or at most one.
abbrev pub IsSpared : NameServiceManager → Text → List ServiceCall → Type 0
IsSpared m domain log =
    (is_counted m ≡ true)
    × (Memᴰ (asked_number domain none) log
        ⊎ ((n : ℕ) × (n ≤ 1) × Memᴰ (asked_number domain (some n)) log))

abbrev pub DnsHandled : NameServiceManager → List ServiceCall → BindEntryDnsInfo → Type 0
DnsHandled m log dns =
    IsTried m dns.bind_ips dns.bind_port (from_domain dns.domain_name (domain_address m.ip m.port))
      log
    ⊎ IsSpared m dns.domain_name log

abbrev pub ClbHandled : NameServiceManager → List ServiceCall → BindEntryClbInfo → Type 0
ClbHandled m log clb =
    IsTried m clb.bind_ips clb.bind_port
      (from_clb clb.region clb.load_balance_id clb.listen_id (bound_address m.ip m.port)) log

abbrev pub PolarisHandled : NameServiceManager → List ServiceCall → BindEntryPolarisInfo → Type 0
PolarisHandled m log pinfo =
    IsTried m pinfo.bind_ips pinfo.bind_port
      (from_polaris pinfo.service pinfo.token (bound_address m.ip m.port)) log

-- What a run leaves.
pub record Releases (m : NameServiceManager) (entry : BindEntry) (p : Progress) : Type 0 where
  pub dns : All (DnsHandled m p.1) entry.dns
  pub clb : All (ClbHandled m p.1) entry.clb
  pub polaris : All (PolarisHandled m p.1) entry.polaris
  pub flag : p.0 ≡ all_done p.1

IsTried-cons :
    (m : NameServiceManager) (ips : List Text) (port : ℕ) (call : Bool → ServiceCall)
    (c : ServiceCall) (log : List ServiceCall)
    → IsTried m ips port call log
    → IsTried m ips port call (c ∷ log)
IsTried-cons m ips port call c log (inl e) = inl e
IsTried-cons m ips port call c log (inr (done, n)) = inr (done, Memᴰ.tail n)

DnsHandled-cons :
    (m : NameServiceManager) (dns : BindEntryDnsInfo) (c : ServiceCall) (log : List ServiceCall)
    → DnsHandled m log dns
    → DnsHandled m (c ∷ log) dns
DnsHandled-cons m dns c log (inl h) = inl (
    IsTried-cons m dns.bind_ips dns.bind_port
      (from_domain dns.domain_name (domain_address m.ip m.port)) c log h)
DnsHandled-cons m dns c log (inr (e, inl n)) = inr (e, inl (Memᴰ.tail n))
DnsHandled-cons m dns c log (inr (e, inr (n, few, asked))) = inr (e, inr (n, few, Memᴰ.tail asked))

release_ips-IsTried :
    (m : NameServiceManager) (name : Text → ℕ → Text) (bind_port : ℕ)
    (delete : Text → List ServiceCall → Bool) (event : Text → Bool → ServiceCall) (ips : List Text)
    (p : Progress)
    → IsTried m ips bind_port
        (event (name m.ip m.port))
        (release_ips m name bind_port delete event ips p).1
unfolding release_ips
release_ips-IsTried m name bind_port delete event [] p = inl refl
release_ips-IsTried m name bind_port delete event (ip ∷ ips) p =
    elim (Bool-cases (not (ip == m.ip) || not (nat_beq bind_port m.port))) [
      | inl e ↦ rw e (later e (release_ips-IsTried m name bind_port delete event ips p))
      | inr e ↦
          let same_ip : ip ≡ m.ip = (text_beq_iff ip m.ip).0 (ground arith) in
          let same_port : bind_port ≡ m.port = ground arith in
          let same : name ip bind_port ≡ name m.ip m.port = cc in
          let done = delete (name ip bind_port) p.1 in
          rw e (
            inr (
              done,
              subst (λ ins. Memᴰ (event ins done) (event (name ip bind_port) done ∷ p.1)) same
                  (Memᴰ.head refl),
            ))
    ]
  where
    later :
        {log : List ServiceCall}
        → (not (ip == m.ip) || not (nat_beq bind_port m.port)) ≡ true
        → IsTried m ips bind_port (event (name m.ip m.port)) log
        → IsTried m (ip ∷ ips) bind_port (event (name m.ip m.port)) log
    later e (inl h) = inl (ground (arith, e, h, text_beq_iff ip m.ip, text_beq_iff m.ip ip))
    later e (inr h) = inr h

release_dns-DnsHandled :
    (s : NameService) (m : NameServiceManager) (dns : BindEntryDnsInfo) (p : Progress)
    → DnsHandled m (release_dns s m dns p).1 dns
unfolding release_dns release_domain release_counted
release_dns-DnsHandled s m dns p = elim (Bool-cases (is_counted m)) [
  | inl e ↦
      let o = s.address_number dns.domain_name p.1 in
      let same : release_counted s m dns o p ≡ release_dns s m dns p = rw e refl in
      subst (λ (q : Progress). DnsHandled m q.1 dns) same (answered e o)
  | inr e ↦
      let same : release_domain s m dns p ≡ release_dns s m dns p = rw e refl in
      subst (λ (q : Progress). DnsHandled m q.1 dns) same (inl (tried p))
]
  where
    tried :
        (p : Progress)
        → IsTried m dns.bind_ips dns.bind_port
            (from_domain dns.domain_name (domain_address m.ip m.port))
            (release_domain s m dns p).1
    tried p =
        release_ips-IsTried m domain_address dns.bind_port (s.delete_from_domain dns.domain_name)
          (from_domain dns.domain_name) dns.bind_ips p

    answered :
        is_counted m ≡ true → (o : Option ℕ) → DnsHandled m (release_counted s m dns o p).1 dns
    answered e none = inr (e, inl (Memᴰ.head refl))
    answered e (some n) = elim (Bool-cases (leb n 1)) [
      | inl few ↦ rw few (inr (e, inr (n, ground arith, Memᴰ.head refl)))
      | inr many ↦ rw many (inl (tried (p.0, asked_number dns.domain_name (some n) ∷ p.1)))
    ]

dns_entry-DnsHandled :
    (s : NameService) (m : NameServiceManager) (l : List BindEntryDnsInfo) (p : Progress)
    → All (DnsHandled m (release_dns_entry s m l p).1) l
unfolding release_dns_entry
dns_entry-DnsHandled s m [] p = tt
dns_entry-DnsHandled s m (dns ∷ l) p = (
  dns_entry_keeps (λ log. DnsHandled m log dns) (λ c log h. DnsHandled-cons m dns c log h) s m l
      (release_dns s m dns p) (release_dns-DnsHandled s m dns p),
  dns_entry-DnsHandled s m l (release_dns s m dns p),
)

ClbHandled-cons :
    (m : NameServiceManager) (clb : BindEntryClbInfo) (c : ServiceCall) (log : List ServiceCall)
    → ClbHandled m log clb
    → ClbHandled m (c ∷ log) clb
ClbHandled-cons m clb c log h =
    IsTried-cons m clb.bind_ips clb.bind_port
      (from_clb clb.region clb.load_balance_id clb.listen_id (bound_address m.ip m.port)) c log h

clb_entry-ClbHandled :
    (s : NameService) (m : NameServiceManager) (l : List BindEntryClbInfo) (p : Progress)
    → All (ClbHandled m (release_clb_entry s m l p).1) l
unfolding release_clb_entry
clb_entry-ClbHandled s m [] p = tt
clb_entry-ClbHandled s m (clb ∷ l) p = (
  clb_entry_keeps (λ log. ClbHandled m log clb) (λ c log h. ClbHandled-cons m clb c log h) s m l _
      (release_ips-IsTried m bound_address clb.bind_port
        (s.delete_from_clb clb.region clb.load_balance_id clb.listen_id)
        (from_clb clb.region clb.load_balance_id clb.listen_id) clb.bind_ips p),
  clb_entry-ClbHandled s m l _,
)

polaris_entry-PolarisHandled :
    (s : NameService) (m : NameServiceManager) (l : List BindEntryPolarisInfo) (p : Progress)
    → All (PolarisHandled m (release_polaris_entry s m l p).1) l
unfolding release_polaris_entry
polaris_entry-PolarisHandled s m [] p = tt
polaris_entry-PolarisHandled s m (pinfo ∷ l) p = (
  polaris_entry_keeps (λ log. PolarisHandled m log pinfo)
      (λ c log h.
        IsTried-cons m pinfo.bind_ips pinfo.bind_port
          (from_polaris pinfo.service pinfo.token (bound_address m.ip m.port)) c log h)
      s m l _
      (release_ips-IsTried m bound_address pinfo.bind_port
        (s.delete_from_polaris pinfo.service pinfo.token) (from_polaris pinfo.service pinfo.token)
        pinfo.bind_ips p),
  polaris_entry-PolarisHandled s m l _,
)

-- If no call has failed before: `DeleteNameService` returns no error exactly if no call has failed
-- after it, be it a question for the addresses of a domain or a deletion; and every entry that leads
-- to the instance has been tried, but those of a proxy or a spider in DNS where an answer to the
-- question for the addresses of the domain was an error or at most one.
pub delete_name_service-Releases :
    (s : NameService) (m : NameServiceManager) (entry : BindEntry) (log : List ServiceCall)
    → all_done log ≡ true
    → Releases m entry (delete_name_service s m entry log)
unfolding delete_name_service
delete_name_service-Releases s m entry log h =
    let dns = release_dns_entry s m entry.dns (true, log) in
    let clb = release_clb_entry s m entry.clb (true, dns.1) in
    record {
      dns =
          polaris_entry_keeps (λ log. All (DnsHandled m log) entry.dns) (dns_step entry.dns) s m
            entry.polaris (true, clb.1)
            (clb_entry_keeps (λ log. All (DnsHandled m log) entry.dns) (dns_step entry.dns) s m
              entry.clb (true, dns.1) (dns_entry-DnsHandled s m entry.dns (true, log)));
      clb =
          polaris_entry_keeps (λ log. All (ClbHandled m log) entry.clb)
            (λ c log h. All-map entry.clb (λ e k. ClbHandled-cons m e c log k) h) s m entry.polaris
            (true, clb.1) (clb_entry-ClbHandled s m entry.clb (true, dns.1));
      polaris = polaris_entry-PolarisHandled s m entry.polaris (true, clb.1);
      flag = delete_name_service-all_done s m entry log h;
    }
  where
    dns_step :
        (l : List BindEntryDnsInfo) (c : ServiceCall) (log : List ServiceCall)
        → All (DnsHandled m log) l
        → All (DnsHandled m (c ∷ log)) l
    dns_step l c log h = All-map l (λ e k. DnsHandled-cons m e c log k) h
