-- ===== src/Store/Rows/Zones.antt =====
-- Zones, records and certificates as rows (internal/store/memory.go).
use kelmor.Base.{ℕ, String, not, ◌&&◌, Option, List, map, ◌==◌, length, filter}
use kelmor.Base.Table.{lookup, insert, erase, retain, find, values}
use kelmor.Store.Models.{DnsZone, DnsRecord, Certificate}
use kelmor.Store.Memory.{Memory}
use kelmor.Store.Rows.Common.{listed}

unfoldable pub put_zone : DnsZone → Memory → Memory
put_zone v m = record m { zones = insert v.id v m.zones }

unfoldable pub get_zone : String → Memory → Option DnsZone
get_zone id m = lookup id m.zones

unfoldable pub zone_by_domain : String → Memory → Option DnsZone
zone_by_domain key m = find (λ v. v.domain_id == key) m.zones

-- How many records name the zone.
unfoldable pub record_count : String → Memory → ℕ
record_count zone_id m = length (filter (λ r. r.zone_id == zone_id) (values m.records))

unfoldable pub list_zones : String → Memory → List DnsZone
list_zones account_id m =
    map {A = DnsZone} (λ z. record z { record_count = record_count z.id m })
      (listed account_id (λ z. z.account_id) m.zones)

unfoldable pub put_record : DnsRecord → Memory → Memory
put_record v m = record m { records = insert v.id v m.records }

unfoldable pub list_records : String → Memory → List DnsRecord
list_records owner m = filter (λ v. v.zone_id == owner) (values m.records)

unfoldable pub delete_record : String → Memory → Memory
delete_record id m = record m { records = erase id m.records }

-- A host name of an account has one certificate: storing one drops the others.
unfoldable pub put_cert : Certificate → Memory → Memory
put_cert c m = record m {
  certs = insert c.id c (
      retain
        (λ id e.
          not (e.account_id == c.account_id && (e.hostname == c.hostname && not (id == c.id))))
        m.certs);
}

unfoldable pub get_cert : String → Memory → Option Certificate
get_cert id m = lookup id m.certs

unfoldable pub list_certs : String → Memory → List Certificate
list_certs account_id m = listed account_id (λ v. v.account_id) m.certs
