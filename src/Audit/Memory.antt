-- ===== src/Audit/Memory.antt =====
-- A table in memory, which shows that the assumptions on the audit table can be met.
use bearlink.Prelude.{◌-◌, List, length, arith}
use bearlink.Prelude.Exec.{ok}
use bearlink.Audit.{Entry, AuditTable, IsLawful, add_new}
use bearlink.Audit.Ingest.{length-add_new-ge}

abbrev pub memory_table : AuditTable
memory_table = record {
  State = List Entry;
  entries = λ es. es;
  create_many = λ new es. (ok (length (add_new new es) - length es), add_new new es);
}

pub memory_table-IsLawful : IsLawful memory_table
memory_table-IsLawful = record {
  create_ok = λ new s s' count e. (cc, ground (arith, length-add_new-ge new s));
  create_err = λ new s s' f e. cc;
}
