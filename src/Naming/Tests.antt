-- ===== src/Naming/Tests.antt =====
-- A proxy behind a domain with two addresses and one with one.
use dbha.Prelude.{
  ◌≡◌, refl, [], ◌∷◌, some, true, false, codes, decimal, text_eq, ◌==◌, if◌then◌else◌,
}
use dbha.Naming.{
  release_domain, release_dns_entry, release_polaris_entry, release_clb_entry, release_ips,
  release_dns, BindEntryDnsInfo, BindEntryClbInfo, BindEntry, NameServiceManager, from_domain,
  from_clb, asked_number, release_counted, NameService, delete_name_service,
}
use dbha.Naming.Completeness.{Releases, delete_name_service-Releases}
use dbha.Naming.Guarding.{Guarded, delete_name_service-Guarded}

abbrev proxy : NameServiceManager
proxy = record {
  bk_cloud_id = 0;
  ip = codes "10.0.0.1";
  port = 3306;
  machine_type = codes "proxy";
  app = codes "game";
}

abbrev wide : BindEntryDnsInfo
wide = record {
  domain_name = codes "wide";
  bind_ips = codes "10.0.0.2" ∷ codes "10.0.0.1" ∷ [];
  bind_port = 3306;
}

abbrev narrow : BindEntryDnsInfo
narrow = record { domain_name = codes "narrow"; bind_ips = codes "10.0.0.1" ∷ []; bind_port = 3306 }

abbrev balancer : BindEntryClbInfo
balancer = record {
  region = codes "r";
  load_balance_id = codes "lb";
  listen_id = codes "l";
  bind_ips = codes "10.0.0.1" ∷ [];
  bind_port = 3306;
}

abbrev bound : BindEntry
bound = record { dns = wide ∷ narrow ∷ []; clb = balancer ∷ []; polaris = [] }

-- The balancer refuses.
abbrev service : NameService
service = record {
  address_number = λ domain log. if domain == codes "wide" then some 2 else some 1;
  delete_from_domain = λ domain ins log. true;
  delete_from_clb = λ region load_balance_id listen_id ins log. false;
  delete_from_polaris = λ service token ins log. true;
}

run : delete_name_service service proxy bound [] ≡ (
  false,
  from_clb (codes "r") (codes "lb") (codes "l") (codes "10.0.0.1:3306") false
      ∷ asked_number (codes "narrow") (some 1)
      ∷ from_domain (codes "wide") (codes "10.0.0.1#3306") true
      ∷ asked_number (codes "wide") (some 2)
      ∷ [],
)
unfolding delete_name_service release_dns_entry release_polaris_entry release_dns release_clb_entry
    release_counted release_ips release_domain decimal
run = refl

delete_name_service-Guarded_example : Guarded proxy (delete_name_service service proxy bound []).1
delete_name_service-Guarded_example = delete_name_service-Guarded service proxy bound [] tt

abbrev unbalanced : BindEntry
unbalanced = record { dns = wide ∷ narrow ∷ []; clb = []; polaris = [] }

delete_name_service-Releases_example :
    Releases proxy bound (delete_name_service service proxy bound [])
delete_name_service-Releases_example = delete_name_service-Releases service proxy bound [] refl

released : (delete_name_service service proxy unbalanced []).0 ≡ true
unfolding delete_name_service release_dns_entry release_dns release_counted release_domain
    release_ips release_clb_entry release_polaris_entry
released = refl
