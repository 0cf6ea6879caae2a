-- ===== src/Store/Cascade/Domain.antt =====
-- DeleteDomain of internal/store/memory.go at once: what is left of each map.
use kelmor.Base.{
  String, ◌≡◌, refl, sym, ap, ◌∙◌, true, not, Bool, List, [], ◌∷◌, arith, ◌==◌, any, Bool-cases,
  inl, inr,
}
use kelmor.Base.Table.{Table, Distinct, erase, retain}
use kelmor.Base.Table.Retain.{retain-ext, retain_all, retain-retain}
use kelmor.Store.Models.{Website, Application, DnsZone, DnsRecord, MailDomain, Mailbox, MailAlias}
use kelmor.Store.Memory.{Memory}
use kelmor.Store.Cascade.{
  delete_website, delete_sites, mail_ids, delete_mail_rows, delete_mail, drop_mail_domains,
  delete_zone, delete_zones, delete_domain,
}
use kelmor.Store.Cascade.Loops.{
  is_hit, drop_rows, drop_rows_hit, drop_rows_miss, kept, drop_rows_all,
}

abbrev set_sites : Table Website × Table Application → Memory → Memory
set_sites p m = record m { websites = p.0; apps = p.1 }

abbrev set_zones : Table DnsZone × Table DnsRecord → Memory → Memory
set_zones p m = record m { zones = p.0; records = p.1 }

module _ (id : String) where
  abbrev site_of : Website → Bool
  site_of w = w.domain_id == id

  abbrev zone_of : DnsZone → Bool
  zone_of z = z.domain_id == id

  delete_sites-drop_rows :
      (t : Table Website) (m : Memory)
      → delete_sites id t m
        ≡ set_sites (drop_rows site_of (λ a. a.website_id) t (m.websites, m.apps)) m
  unfolding delete_sites delete_website drop_rows
  delete_sites-drop_rows [] m = refl
  delete_sites-drop_rows ((i, w) ∷ t) m = elim (Bool-cases (w.domain_id == id)) [
    | inl y ↦ rw y (
        delete_sites-drop_rows t (delete_website i m)
        ∙ ap (λ p. set_sites p m)
            (sym (drop_rows_hit site_of (λ r. r.website_id) i w t (m.websites, m.apps) y)))
    | inr n ↦ rw n (
        delete_sites-drop_rows t m
        ∙ ap (λ p. set_sites p m)
            (sym (drop_rows_miss site_of (λ r. r.website_id) i w t (m.websites, m.apps) n)))
  ]

  delete_zones-drop_rows :
      (t : Table DnsZone) (m : Memory)
      → delete_zones id t m
        ≡ set_zones (drop_rows zone_of (λ r. r.zone_id) t (m.zones, m.records)) m
  unfolding delete_zones drop_rows delete_zone
  delete_zones-drop_rows [] m = refl
  delete_zones-drop_rows ((i, z) ∷ t) m = elim (Bool-cases (z.domain_id == id)) [
    | inl y ↦ rw y (
        delete_zones-drop_rows t (delete_zone i m)
        ∙ ap (λ p. set_zones p m)
            (sym (drop_rows_hit zone_of (λ r. r.zone_id) i z t (m.zones, m.records) y)))
    | inr n ↦ rw n (
        delete_zones-drop_rows t m
        ∙ ap (λ p. set_zones p m)
            (sym (drop_rows_miss zone_of (λ r. r.zone_id) i z t (m.zones, m.records) n)))
  ]

  -- Neither of the mail domains.
  abbrev without : {V : Type 0} → (V → String) → List String → Table V → Table V
  without domain mids t = retain (λ k v. not (any (λ i. domain v == i) mids)) t

  without-step :
      {V : Type 0} (domain : V → String) (i : String) (is : List String) (t : Table V)
      → without domain is (retain (λ k v. not (domain v == i)) t) ≡ without domain (i ∷ is) t
  without-step domain i is t = retain-retain _ _ t ∙ retain-ext _ _ t (λ k v. ground arith)

  abbrev set_mail : Table Mailbox → Table MailAlias → Memory → Memory
  set_mail bs als m = record m { mailboxes = bs; aliases = als }

  delete_mail-without :
      (mids : List String) (m : Memory)
      → delete_mail mids m
        ≡ set_mail
            (without (λ b. b.domain_id) mids m.mailboxes)
            (without (λ a. a.domain_id) mids m.aliases)
            m
  unfolding delete_mail delete_mail_rows
  delete_mail-without [] m =
      ap (λ b. set_mail b m.aliases m) (sym (retain_all m.mailboxes))
      ∙ ap (λ a. set_mail (retain (λ k b. true) m.mailboxes) a m) (sym (retain_all m.aliases))
  delete_mail-without (i ∷ is) m =
      delete_mail-without is (delete_mail_rows i m)
      ∙ ap (λ b. set_mail b (without (λ a. a.domain_id) is (delete_mail_rows i m).aliases) m)
          (without-step (λ b. b.domain_id) i is m.mailboxes)
      ∙ ap (λ a. set_mail (without (λ b. b.domain_id) (i ∷ is) m.mailboxes) a m)
          (without-step (λ a. a.domain_id) i is m.aliases)

  -- The key is that of one of the domain's mail domains.
  abbrev pub is_mail_of : Table MailDomain → String → Bool
  is_mail_of t mid = is_hit (λ d. d.domain_id == id) t mid

  mail_ids-is_mail_of :
      (t : Table MailDomain) (mid : String) → any (λ i. mid == i) (mail_ids id t) ≡ is_mail_of t mid
  unfolding mail_ids is_hit
  mail_ids-is_mail_of [] mid = refl
  mail_ids-is_mail_of ((i, d) ∷ t) mid = elim (Bool-cases (d.domain_id == id)) [
    | inl y ↦ rw (y, mail_ids-is_mail_of t mid)
    | inr n ↦ rw (n, mail_ids-is_mail_of t mid)
  ]

  -- The mailboxes, or aliases, that are of no mail domain of the domain.
  abbrev others : {V : Type 0} → (V → String) → Table MailDomain → Table V → Table V
  others domain t vs = retain (λ k v. not (is_mail_of t (domain v))) vs

  without-others :
      {V : Type 0} (domain : V → String) (t : Table MailDomain) (vs : Table V)
      → without domain (mail_ids id t) vs ≡ others domain t vs
  without-others domain t vs = retain-ext _ _ vs (λ k v. ap not (mail_ids-is_mail_of t (domain v)))

  delete_mail-others :
      (t : Table MailDomain) (m : Memory)
      → delete_mail (mail_ids id t) m
        ≡ set_mail
            (others (λ b. b.domain_id) t m.mailboxes)
            (others (λ a. a.domain_id) t m.aliases)
            m
  delete_mail-others t m =
      delete_mail-without (mail_ids id t) m
      ∙ ap (λ b. set_mail b (without (λ a. a.domain_id) (mail_ids id t) m.aliases) m)
          (without-others (λ b. b.domain_id) t m.mailboxes)
      ∙ ap (λ a. set_mail (others (λ b. b.domain_id) t m.mailboxes) a m)
          (without-others (λ a. a.domain_id) t m.aliases)

  -- What DeleteDomain leaves of each map, in terms of the maps as they were.
  abbrev pub without_domain : Memory → Memory
  without_domain m = record m {
    websites = retain (λ k w. not (w.domain_id == id)) m.websites;
    apps = retain (λ k a. not (is_hit (λ w. w.domain_id == id) m.websites a.website_id)) m.apps;
    mail_dom = retain (λ k d. not (d.domain_id == id)) m.mail_dom;
    mailboxes = retain (λ k b. not (is_mail_of m.mail_dom b.domain_id)) m.mailboxes;
    aliases = retain (λ k a. not (is_mail_of m.mail_dom a.domain_id)) m.aliases;
    zones = retain (λ k z. not (z.domain_id == id)) m.zones;
    records = retain (λ k r. not (is_hit (λ z. z.domain_id == id) m.zones r.zone_id)) m.records;
    domains = erase id m.domains;
  }

  -- With distinct keys in the maps of sites and zones, DeleteDomain drops exactly the domain, its
  -- sites and the applications of their keys, its mail domains and the mailboxes and aliases of
  -- their keys, its zones and the records of their keys, and changes nothing else.
  pub delete_domain-without_domain :
      (m : Memory) → Distinct m.websites → Distinct m.zones → delete_domain id m ≡ without_domain m
  unfolding delete_domain drop_mail_domains
  delete_domain-without_domain m dw dz =
      ap (λ s. finish (delete_mail (mail_ids id s.mail_dom) (drop_mail_domains id s))) sites
      ∙ ap finish (delete_mail-others m.mail_dom (drop_mail_domains id m₁))
      ∙ ap after_zones zones
    where
      after_zones : Memory → Memory
      after_zones z = record z { domains = erase id z.domains }

      finish : Memory → Memory
      finish mail =
          let zones = delete_zones id mail.zones mail in
          record zones { domains = erase id zones.domains }

      m₁ : Memory
      m₁ =
          set_sites
            (
              retain (λ k w. not (w.domain_id == id)) m.websites,
              kept site_of (λ a. a.website_id) m.websites m.apps,
            )
            m

      sites : delete_sites id m.websites m ≡ m₁
      sites =
          delete_sites-drop_rows m.websites m
          ∙ ap (λ p. set_sites p m) (drop_rows_all site_of (λ a. a.website_id) m.websites m.apps dw)

      m₂ : Memory
      m₂ =
          set_mail (others (λ b. b.domain_id) m.mail_dom m.mailboxes)
            (others (λ a. a.domain_id) m.mail_dom m.aliases) (drop_mail_domains id m₁)

      zones :
          delete_zones id m.zones m₂
          ≡ set_zones
              (
                retain (λ k z. not (z.domain_id == id)) m.zones,
                kept zone_of (λ r. r.zone_id) m.zones m.records,
              )
              m₂
      zones =
          delete_zones-drop_rows m.zones m₂
          ∙ ap (λ p. set_zones p m₂) (drop_rows_all zone_of (λ r. r.zone_id) m.zones m.records dz)
