-- ===== src/Audit/Query.antt =====
-- services/audit/controllers/audit.controller.js, queryAuditLog. An error of its queries is a rejected
-- promise.
use bearlink.Prelude.{ℕ, String, Option, List}
use bearlink.Prelude.Exec.{Result, ok, err}
use bearlink.Shared.Json.{given}
use bearlink.Shared.Paging.{page_of, limit_of, skip_of}
use bearlink.Audit.{Entry}

pub record AuditQuery : Type 0 where
  pub page : Option String
  pub limit : Option String
  pub type : Option String
  pub actor_id : Option String
  pub service : Option String
  pub from : Option String
  pub to : Option String

-- where: columns that equal a text, and the texts of the dates around createdAt
pub record Filter : Type 0 where
  pub event_type : Option String
  pub actor_id : Option String
  pub source_service : Option String
  pub from : Option String
  pub to : Option String

-- auditEntry.findMany, the newest first, and auditEntry.count
pub record AuditQueries : Type 1 where
  pub Db : Type 0
  pub find_many : Filter → (skip take : ℕ) → Db → Result (List Entry)
  pub count : Filter → Db → Result ℕ

-- { data, pagination: { page, limit, total } }
pub record AuditPage : Type 0 where
  pub entries : List Entry
  pub page : ℕ
  pub limit : ℕ
  pub total : ℕ

abbrev pub filter_of : AuditQuery → Filter
filter_of query = record {
  event_type = given query.type;
  actor_id = given query.actor_id;
  source_service = given query.service;
  from = given query.from;
  to = given query.to;
}

abbrev audit_page : ℕ → ℕ → Result (List Entry) → Result ℕ → Result AuditPage
audit_page page limit (ok entries) (ok total) =
    ok (record { entries = entries; page = page; limit = limit; total = total })
audit_page page limit (ok entries) (err e) = err e
audit_page page limit (err e) total = err e

module _ (A : AuditQueries) where
  unfoldable pub query_audit_log : AuditQuery → A.Db → Result AuditPage
  query_audit_log query db =
      let page = page_of query.page in
      let limit = limit_of 100 50 query.limit in
      audit_page page limit (A.find_many (filter_of query) (skip_of page limit) limit db)
        (A.count (filter_of query) db)
