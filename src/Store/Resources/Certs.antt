-- ===== src/Store/Resources/Certs.antt =====
-- Certificates of a host name: PutCert (internal/store/memory.go) and UpsertCertificateWithJob
-- (internal/store/resource_atomic.go).
use kelmor.Base.{
  ◌≡◌, sym, subst, false, not, ◌&&◌, ◌||◌, ◌⊎◌, inl, inr, Option, none, some, [], ◌∷◌, arith, ◌==◌,
  eq_iff, Bool-cases, Option-cases,
}
use kelmor.Base.Table.{Table, Entries, Entries-map, Distinct, insert, retain, has, insert-Distinct}
use kelmor.Base.Table.Pairwise.{
  Pairwise, replace-Pairwise, retain-Pairwise, retain-Distinct, find-retain-none,
}
use kelmor.Store.Models.{Certificate, Job, AuditEvent}
use kelmor.Store.Memory.{Memory}
use kelmor.Store.Op.{Env}
use kelmor.Store.Normal.{normalize_job, job_replay, validate_new_job}
use kelmor.Store.Rows.Zones.{put_cert}
use kelmor.Store.Resources.{upsert_certificate_with_job, cert_clash, commit_with}

-- Two certificates are of different accounts or for different host names.
abbrev pub Apart : Certificate → Certificate → Type 0
Apart a b = (a.account_id == b.account_id && a.hostname == b.hostname) ≡ false

pub record OneCert (m : Memory) : Type 0 where
  pub once : Distinct m.certs
  pub apart : Pairwise Apart m.certs

Apart-sym : (a b : Certificate) → Apart a b → Apart b a
Apart-sym a b h = ground (
  arith,
  eq_iff a.account_id b.account_id,
  eq_iff b.account_id a.account_id,
  eq_iff a.hostname b.hostname,
  eq_iff b.hostname a.hostname,
)

-- The entries that storing a certificate keeps are apart from it, but for its own.
kept-Apart :
    (c : Certificate) (t : Table Certificate)
    → Entries
        (λ id e. (id == c.id) ≡ false → Apart e c)
        (retain
          (λ id e.
            not (e.account_id == c.account_id && (e.hostname == c.hostname && not (id == c.id))))
          t)
unfolding retain
kept-Apart c [] = tt
kept-Apart c ((j, w) ∷ t) =
    elim (Bool-cases
      (not (w.account_id == c.account_id && (w.hostname == c.hostname && not (j == c.id))))) [
        | inl keep ↦ rw keep ((λ other. ground arith), kept-Apart c t)
        | inr drop ↦ rw drop (kept-Apart c t)
      ]

-- If map keys are distinct and no two certificates have both account and host name in common,
-- the same holds after PutCert, which drops the certificate it replaces.
pub put_cert-OneCert : (c : Certificate) (m : Memory) → OneCert m → OneCert (put_cert c m)
unfolding put_cert
put_cert-OneCert c m h = record {
  once = insert-Distinct c.id c _ (retain-Distinct _ m.certs h.once);
  apart =
      replace-Pairwise Apart c.id c _ Apart-sym (retain-Distinct _ m.certs h.once)
        (kept-Apart c m.certs) (retain-Pairwise Apart _ m.certs h.apart);
}

cert_clash_none :
    (c : Certificate) (m : Memory)
    → cert_clash c m ≡ false
    → Entries (λ id e. (id == c.id) ≡ false → Apart e c) m.certs
unfolding cert_clash
cert_clash_none c m e =
    Entries-map _ _ m.certs (λ id w n other. n (rw other))
      (find-retain-none (λ e. e.account_id == c.account_id && e.hostname == c.hostname)
        (λ id e. not (id == c.id)) m.certs (ground arith))

upsert_certificate_with_job_cases :
    (env : Env) (c : Certificate) (job : Job) (audit : AuditEvent) (m : Memory)
    → let m' = (upsert_certificate_with_job env (some c) (some job) audit m).0 in
      (m' ≡ m) ⊎ (cert_clash c m ≡ false) × (m'.certs ≡ insert c.id c m.certs)
unfolding upsert_certificate_with_job commit_with validate_new_job
upsert_certificate_with_job_cases env c job audit m = elim (Bool-cases (cert_clash c m)) [
  | inl clash ↦ inl (ground arith)
  | inr free ↦ elim (Bool-cases (c.account_id == "" || not (has c.account_id m.accounts))) [
    | inl bad ↦ inl (ground arith)
    | inr good ↦ elim (Option-cases (job_replay job m)) [
      | inr (r, e) ↦ inl (ground arith)
      | inl new ↦ elim (Bool-cases (has (normalize_job env job).id m.jobs)) [
        | inl taken ↦ inl (ground arith)
        | inr id ↦ elim (Option-cases (job_replay (normalize_job env job) m)) [
          | inr (r, e) ↦ inl (ground arith)
          | inl key ↦ inr (free, ground arith)
        ]
      ]
    ]
  ]
]

-- If map keys are distinct and no two certificates have both account and host name in common,
-- the same holds after UpsertCertificateWithJob, for any arguments and whatever it returns.
pub upsert_certificate_with_job-OneCert :
    (env : Env) (c : Option Certificate) (job : Option Job) (audit : AuditEvent) (m : Memory)
    → OneCert m
    → OneCert (upsert_certificate_with_job env c job audit m).0
upsert_certificate_with_job-OneCert env none job audit m h = unfold upsert_certificate_with_job in h
upsert_certificate_with_job-OneCert env (some c) none audit m h =
    unfold upsert_certificate_with_job in h
upsert_certificate_with_job-OneCert env (some c) (some job) audit m h =
    elim (upsert_certificate_with_job_cases env c job audit m) [
      | inl same ↦ subst OneCert (sym same) h
      | inr (free, put) ↦ record {
        once = rw put (insert-Distinct c.id c m.certs h.once);
        apart = rw put (
            replace-Pairwise Apart c.id c m.certs Apart-sym h.once (cert_clash_none c m free)
              h.apart);
      }
    ]
