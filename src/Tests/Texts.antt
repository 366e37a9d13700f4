-- ===== src/Tests/Texts.antt =====
-- Domain names, IP versions and addresses, at concrete inputs.
use ddns_updater_beget.Common.{◌≡◌, ◌↔◌, true, none, codes}
use ddns_updater_beget.Domain.{check_domain}
use ddns_updater_beget.Domain.Labels.{is_domain}
use ddns_updater_beget.Domain.Check.{check_domain-is_domain}

check_domain-is_domain_example :
    (check_domain (codes "my-site.example.com") ≡ none)
    ↔ (is_domain (codes "my-site.example.com") ≡ true)
check_domain-is_domain_example = check_domain-is_domain (codes "my-site.example.com")
