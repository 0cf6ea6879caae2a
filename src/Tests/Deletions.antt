-- ===== src/Tests/Deletions.antt =====
-- The theorems on deletions and lists, applied to small stores.
use kelmor.Base.{String, true, [], ◌∷◌, ◌≡◌, refl}
use kelmor.Base.Table.{lookup}
use kelmor.Store.Models.{Website, MailDomain, MailAlias}
use kelmor.Store.Memory.{Memory, new_memory}
use kelmor.Store.Cascade.{delete_domain}
use kelmor.Store.Cascade.Domain.{without_domain, delete_domain-without_domain}
use kelmor.Store.Members.{holds, unique}
use kelmor.Store.Members.Unique.{is_distinct, unique-is_distinct}
use kelmor.Tests.Data.{domain_of}

abbrev site_of : String → String → Website
site_of id domain_id = record {
  id = id;
  account_id = "acc-1";
  domain_id = domain_id;
  runtime = "php";
  runtime_version = "8.3";
  document_root = "public_html";
  https_redirect = true;
  www_redirect = "";
  proxy_target = "";
  enabled = true;
  desired_revision = 1;
  observed_revision = 1;
}

abbrev mail_of : String → String → MailDomain
mail_of id domain_id = record {
  id = id;
  account_id = "acc-1";
  domain_id = domain_id;
  catchall_policy = "";
  status = "active";
}

abbrev alias_of : String → String → MailAlias
alias_of id mail_id = record {
  id = id;
  account_id = "acc-1";
  domain_id = mail_id;
  address = "info";
  destination = "ada";
}

-- Two domains with a site and an alias each.
abbrev two_sites : Memory
two_sites = record new_memory {
  domains =
      ("dom-1", domain_of "dom-1" "acc-1" "ada.test")
      ∷ ("dom-2", domain_of "dom-2" "acc-1" "bob.test")
      ∷ [];
  mail_dom = ("mail-1", mail_of "mail-1" "dom-1") ∷ ("mail-2", mail_of "mail-2" "dom-2") ∷ [];
  aliases =
      ("alias-1", alias_of "alias-1" "mail-1") ∷ ("alias-2", alias_of "alias-2" "mail-2") ∷ [];
  websites = ("web-1", site_of "web-1" "dom-1") ∷ ("web-2", site_of "web-2" "dom-2") ∷ [];
}

delete_domain-without_domain_example :
    delete_domain "dom-1" two_sites ≡ without_domain "dom-1" two_sites
unfolding lookup new_memory
delete_domain-without_domain_example =
    delete_domain-without_domain "dom-1" two_sites (refl, (refl, tt)) tt

unique-is_distinct_example :
    (is_distinct (unique ("a" ∷ "b" ∷ "a" ∷ [])) ≡ true)
    × (holds "b" (unique ("a" ∷ "b" ∷ "a" ∷ [])) ≡ holds "b" ("a" ∷ "b" ∷ "a" ∷ []))
unique-is_distinct_example = unique-is_distinct ("a" ∷ "b" ∷ "a" ∷ []) "b"
