-- ===== src/Tests/Imports.antt =====
-- The theorems on the import of an account, applied to a small store.
use kelmor.Base.{◌≡◌, refl, none, some, [], ◌∷◌, List}
use kelmor.Base.Table.{lookup, insert, find, values}
use kelmor.Store.Models.{Domain}
use kelmor.Store.Memory.{Memory, new_memory}
use kelmor.Store.Op.{errorf, err}
use kelmor.Store.Normal.{normalize_job, job_replay, job_with_key, validate_new_job}
use kelmor.Store.Accounts.{assign_uid, with_uid}
use kelmor.Store.Imports.{
  AccountImport, import_account_with_job, import_account_clash, import_rows, collect, check_all,
  import_domain, insert_import, insert_table, insert_rows,
}
use kelmor.Store.Imports.Additions.{Extended}
use kelmor.Store.Imports.Keeps.{import_account_with_job-Extended, import_account_with_job_err}
use kelmor.Tests.Data.{env, later, event, keyed_job, user_of, account_of, basic, domain_of}

abbrev owned : Memory
owned = record new_memory {
  users = ("user-1", user_of "user-1" "ann") ∷ [];
  packages = ("basic", basic) ∷ [];
}

abbrev import_of : List Domain → AccountImport
import_of ds = record {
  account = account_of "acc-1" "ann" 1;
  domains = ds;
  websites = [];
  applications = [];
  databases = [];
  database_users = [];
  mail_domains = [];
  mailboxes = [];
  aliases = [];
  zones = [];
  records = [];
  crons = [];
  ftp = [];
  ssh = [];
}

abbrev two_domains : AccountImport
two_domains =
    import_of (domain_of "dom-1" "acc-1" "a.test" ∷ domain_of "dom-2" "acc-1" "a.test" ∷ [])

-- Two domains with one name are imported together.
abbrev first : Memory
first =
    (import_account_with_job env (some two_domains) (some (keyed_job "job-1" "key")) none owned).0

twice :
    values first.domains
    ≡ domain_of "dom-1" "acc-1" "a.test" ∷ domain_of "dom-2" "acc-1" "a.test" ∷ []
unfolding import_account_with_job import_account_clash import_rows collect check_all import_domain
    insert_import insert_table insert_rows job_replay job_with_key validate_new_job normalize_job
    assign_uid with_uid lookup insert find values new_memory
twice = refl

import_account_with_job-Extended_example :
    Extended owned
      (import_account_with_job env
        (some two_domains)
        (some (keyed_job "job-1" "key"))
        (some event)
        owned).0
import_account_with_job-Extended_example =
    import_account_with_job-Extended env (some two_domains) (some (keyed_job "job-1" "key"))
      (some event) owned

-- The same import again, with the key of the job that it made.
retried :
    (import_account_with_job later (some two_domains) (some (keyed_job "job-1" "key")) none first).1
    ≡ err (errorf "account %q already exists" ("acc-1" ∷ []))
unfolding import_account_with_job import_account_clash import_rows collect check_all import_domain
    insert_import insert_table insert_rows job_replay job_with_key validate_new_job normalize_job
    assign_uid with_uid lookup insert find new_memory
retried = refl

import_account_with_job_err_example :
    (import_account_with_job later (some two_domains) (some (keyed_job "job-1" "key")) none first).0
    ≡ first
import_account_with_job_err_example =
    import_account_with_job_err later (some two_domains) (some (keyed_job "job-1" "key")) none first
      retried
