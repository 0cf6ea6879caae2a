-- ===== src/Tests/Capabilities.antt =====
-- The theorem on capabilities, applied to an actor.
use kelmor.Base.{false, ◌≡◌, ◌||◌, refl, [], ◌∷◌, any}
use kelmor.Roles.{Actor, expand, has_capability, role_capability}
use kelmor.Roles.Expansion.{is_extra, has_capability-expand}

abbrev auditor : Actor
auditor = record {
  user_id = "user-1";
  username = "ann";
  roles = "auditor" ∷ [];
  capabilities = expand (λ c. c) ("auditor" ∷ []) ("dns.read" ∷ "" ∷ []);
  account_ids = [];
  reseller_id = "";
  impersonator_id = "";
  is_server_scope = false;
}

has_capability-expand_example : has_capability auditor "dns.read" ≡ (
    any (is_extra (λ c. c) "dns.read") ("dns.read" ∷ "" ∷ [])
    || any (λ r. role_capability r "dns.read") ("auditor" ∷ []))
has_capability-expand_example =
    has_capability-expand (λ c. c) ("auditor" ∷ []) ("dns.read" ∷ "" ∷ []) auditor "dns.read" refl
