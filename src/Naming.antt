-- ===== src/Naming.antt =====
-- internal/analysis/switcher/switchcore/instance_name_service.go: a broken-down instance is taken
-- out of the names that lead to it, in DNS, in load balancers and in Polaris. The calls of the DBM
-- service are kept, with their answers, the newest first; what it answers is an argument that
-- depends on the calls before. Log lines are left out.
pub mod Guarding
pub mod Success
pub mod Keeping
pub mod Completeness
mod Tests
use dbha.Prelude.{
  ℕ, List, [], ◌∷◌, ◌++◌, Option, none, some, Bool, true, false, not, ◌&&◌, ◌||◌, ◌==◌, Text, codes,
  decimal, text_eq, nat_beq, leb, if◌then◌else◌,
}

pub record BindEntryDnsInfo : Type 0 where
  pub domain_name : Text
  pub bind_ips : List Text
  pub bind_port : ℕ

pub record BindEntryClbInfo : Type 0 where
  pub region : Text
  pub load_balance_id : Text
  pub listen_id : Text
  pub bind_ips : List Text
  pub bind_port : ℕ

pub record BindEntryPolarisInfo : Type 0 where
  pub service : Text
  pub token : Text
  pub bind_ips : List Text
  pub bind_port : ℕ

-- `DbmMetadataBindEntry`; no list and an empty one are treated alike.
pub record BindEntry : Type 0 where
  pub dns : List BindEntryDnsInfo
  pub clb : List BindEntryClbInfo
  pub polaris : List BindEntryPolarisInfo

pub record NameServiceManager : Type 0 where
  pub bk_cloud_id : ℕ
  pub ip : Text
  pub port : ℕ
  pub machine_type : Text
  pub app : Text

-- The calls of the DBM service, with their arguments but the cloud and the application, and the
-- answer: the number of addresses, none for an error, or the success.
pub data ServiceCall : Type 0 where
  asked_number : (domain : Text) → Option ℕ → ServiceCall
  from_domain : (domain ins : Text) → Bool → ServiceCall
  from_clb : (region load_balance_id listen_id ins : Text) → Bool → ServiceCall
  from_polaris : (service token ins : Text) → Bool → ServiceCall

-- The answers of the DBM service: the addresses of a domain, none for an error, and whether a call
-- succeeds.
pub record NameService : Type 0 where
  pub address_number : Text → List ServiceCall → Option ℕ
  pub delete_from_domain : Text → Text → List ServiceCall → Bool
  pub delete_from_clb : Text → Text → Text → Text → List ServiceCall → Bool
  pub delete_from_polaris : Text → Text → Text → List ServiceCall → Bool

-- `allSuccess`, and the calls so far.
abbrev pub Progress : Type 0
Progress = Bool × List ServiceCall

-- The loop over the addresses of an entry, which the three kinds share: the first that is the
-- instance's is deleted, as `name` prints it with the port of the entry.
unfoldable pub release_ips :
    NameServiceManager
    → (name : Text → ℕ → Text) → (bind_port : ℕ) → (Text → List ServiceCall → Bool)
    → (Text → Bool → ServiceCall)
    → List Text
    → Progress
    → Progress
release_ips m name bind_port delete event [] progress = progress
release_ips m name bind_port delete event (ip ∷ ips) progress =
    if not (ip == m.ip) || not (nat_beq bind_port m.port)
    then release_ips m name bind_port delete event ips progress
    else (let ins = name ip bind_port in
        let done = delete ins progress.1 in (progress.0 && done, event ins done ∷ progress.1))

-- A domain of proxies or spiders is asked for its addresses before one is deleted.
abbrev pub is_counted : NameServiceManager → Bool
is_counted m = m.machine_type == codes "proxy" || m.machine_type == codes "spider"

-- fmt.Sprintf("%s#%d", ip, dns.BindPort)
abbrev pub domain_address : Text → ℕ → Text
domain_address ip port = ip ++ (b'#' ∷ decimal port)

-- fmt.Sprintf("%s:%d", ip, clb.BindPort)
abbrev pub bound_address : Text → ℕ → Text
bound_address ip port = ip ++ (b':' ∷ decimal port)

unfoldable pub release_domain :
    NameService → NameServiceManager → BindEntryDnsInfo → Progress → Progress
release_domain s m dns progress =
    release_ips m domain_address dns.bind_port (s.delete_from_domain dns.domain_name)
      (from_domain dns.domain_name) dns.bind_ips progress

-- A round of the loop in `releaseDNSEntry`, after a question for the addresses with its answer.
unfoldable pub release_counted :
    NameService → NameServiceManager → BindEntryDnsInfo → Option ℕ → Progress → Progress
release_counted s m dns none progress = (false, asked_number dns.domain_name none ∷ progress.1)
release_counted s m dns (some n) progress =
    let asked : Progress = (progress.0, asked_number dns.domain_name (some n) ∷ progress.1) in
    if leb n 1 then asked else release_domain s m dns asked

-- A round of it.
unfoldable pub release_dns :
    NameService → NameServiceManager → BindEntryDnsInfo → Progress → Progress
release_dns s m dns progress =
    if is_counted m
    then release_counted s m dns (s.address_number dns.domain_name progress.1) progress
    else release_domain s m dns progress

-- `releaseDNSEntry`
unfoldable pub release_dns_entry :
    NameService → NameServiceManager → List BindEntryDnsInfo → Progress → Progress
release_dns_entry s m [] progress = progress
release_dns_entry s m (dns ∷ rest) progress =
    release_dns_entry s m rest (release_dns s m dns progress)

-- `releaseCLBEntry`
unfoldable pub release_clb_entry :
    NameService → NameServiceManager → List BindEntryClbInfo → Progress → Progress
release_clb_entry s m [] progress = progress
release_clb_entry s m (clb ∷ rest) progress = release_clb_entry s m rest (
    release_ips m bound_address clb.bind_port
      (s.delete_from_clb clb.region clb.load_balance_id clb.listen_id)
      (from_clb clb.region clb.load_balance_id clb.listen_id) clb.bind_ips progress)

-- `releasePolarisEntry`
unfoldable pub release_polaris_entry :
    NameService → NameServiceManager → List BindEntryPolarisInfo → Progress → Progress
release_polaris_entry s m [] progress = progress
release_polaris_entry s m (pinfo ∷ rest) progress = release_polaris_entry s m rest (
    release_ips m bound_address pinfo.bind_port (s.delete_from_polaris pinfo.service pinfo.token)
      (from_polaris pinfo.service pinfo.token) pinfo.bind_ips progress)

-- `DeleteNameService`: whether it returns no error, and the calls.
unfoldable pub delete_name_service :
    NameService → NameServiceManager → BindEntry → List ServiceCall → Progress
delete_name_service s m entry log =
    let (dns_flag, log1) = release_dns_entry s m entry.dns (true, log) in
    let (clb_flag, log2) = release_clb_entry s m entry.clb (true, log1) in
    let (polaris_flag, log3) = release_polaris_entry s m entry.polaris (true, log2) in
    (dns_flag && clb_flag && polaris_flag, log3)
